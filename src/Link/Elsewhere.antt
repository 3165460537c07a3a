-- ===== src/Link/Elsewhere.antt =====
-- src/sc_slave_port.cc: what the port does for another socket leaves a socket alone.
use mathlib.Core.List.{append-nil}
use gem5_wrapper.Prelude.{
  ℕ, ◌<◌, ◌≡◌, ◌≢◌, ◌⊎◌, refl, ◌∙◌, inl, inr, Bool, true, false, some, ◌∷◌, arith, ok, ◌==◌, ==_iff,
  Bool-cases,
}
use gem5_wrapper.Prelude.Map.{find, find-assign}
use gem5_wrapper.Tlm.{Sync, accepted, updated, completed}
use gem5_wrapper.Helper
use gem5_wrapper.Helper.{request, response, get_blocking_trans, update_blocking_map}
use gem5_wrapper.Helper.Channels.{update_lem}
use gem5_wrapper.Helper.Search.{with_retry}
use gem5_wrapper.MemoryManager.{allocate}
use gem5_wrapper.SlavePort.State.{Payload, Packet, numbered, Call, schedule, release, ScSlavePort}
use gem5_wrapper.SlavePort.Request.{request_socket, send_request, on_status, recv_timing_req}
use gem5_wrapper.SlavePort.Request
use gem5_wrapper.SlavePort.Invariant.{Inv, IsUnused, core_of}
use gem5_wrapper.SlavePort.Exclusion.{begun}
use gem5_wrapper.SlavePort.Preservation.{
  begun-Inv, recv_timing_req-Inv, recv_timing_req_cases, send_request_cases,
}
use gem5_wrapper.Link.Wire.{IsOpen, request_slot, response_slot, sent_requests, sent_ends}
use gem5_wrapper.Link.Requested.{socket_named}
use gem5_wrapper.Link.Ported.{other_payload}

-- The socket `c` of the port is as before, and nothing was sent through it.
pub record IsElsewhere (c : ℕ) (s s' : ScSlavePort) : Type 0 where
  pub is_open : IsOpen c s'
  pub same_request : request_slot c s' ≡ request_slot c s
  pub same_response : response_slot c s' ≡ response_slot c s
  pub requests : sent_requests c s'.calls ≡ sent_requests c s.calls
  pub ends : sent_ends c s'.calls ≡ sent_ends c s.calls

pub apart-eq : (d c : ℕ) → d ≢ c → (d == c) ≡ false
apart-eq d c n = elim (Bool-cases (d == c)) [
  | inl same ↦ absurd (n ((==_iff d c).0 same))
  | inr apart ↦ apart
]

-- An open port stays open where its binding and its blocked responses stay.
pub still-IsOpen :
    {c : ℕ} {s s' : ScSlavePort}
    → IsOpen c s
    → Inv s'
    → s'.helper.socket_num ≡ s.helper.socket_num
    → s'.transactor ≡ s.transactor
    → s'.transactor_multi ≡ s.transactor_multi
    → ((d t : ℕ)
        → find d s'.helper.blocking_response_map ≡ some (some t)
        → (find d s.helper.blocking_response_map ≡ some (some t)) ⊎ (d < s.helper.socket_num))
    → IsOpen c s'
still-IsOpen {c} {s} {s'} o v n p q r = record {
  inv = v;
  in_range = omega (arith, o.in_range, n);
  multi = o.multi;
  is_bound = record {
    no_single = p ∙ o.is_bound.no_single;
    multi = q ∙ o.is_bound.multi;
    in_range = λ d t e. elim (r d t e) [
      | inl before ↦ o.is_bound.in_range d t before
      | inr below ↦ omega (arith, below, o.sockets)
    ];
  };
  sockets = omega (arith, o.sockets, n);
}

-- What `recvTimingReq` does with the target's answer.
on_status_ends :
    (status : Sync) (a : Request.Answer) (d t : ℕ) (s : ScSlavePort) {s' : ScSlavePort}
    → Inv s
    → d < s.helper.socket_num
    → on_status status a d t s ≡ ok s'
    → (s' ≡ record s { helper = Helper.updated d (some t) request s.helper })
      ⊎ ((s' ≡ record s { calls = schedule t a.phase a.delay ∷ s.calls })
          ⊎ (s' ≡ record s { calls = release t ∷ s.calls }))
unfolding on_status
on_status_ends accepted a d t s v l e = inl (
    ground
      (arith, e, v.no_cache, update_lem d (some t) request v.core_helper.ready (omega (arith, l))))
on_status_ends updated a d t s v l e = inr (inl (ground (arith, e)))
on_status_ends completed a d t s v l e = inr (inr (ground (arith, e)))

-- BEGIN_REQ through another socket.
begun_sends :
    (c d fresh : ℕ) (p : Packet) (payload : Payload) (s : ScSlavePort)
    → d ≢ c
    → (sent_requests c (begun p d fresh payload (numbered d) s).calls ≡ sent_requests c s.calls)
      × (sent_ends c (begun p d fresh payload (numbered d) s).calls ≡ sent_ends c s.calls)
begun_sends c d fresh p payload s n =
    rw (apart-eq d c n) (append-nil (sent_requests c s.calls), append-nil (sent_ends c s.calls))

module _ {c : ℕ} {s : ScSlavePort} (o : IsOpen c s) where
  -- The two ends of a request through another socket: refused, or sent.
  refused-IsElsewhere :
      (d : ℕ)
      → Inv (record s { helper = with_retry d true s.helper })
      → IsElsewhere c s (record s { helper = with_retry d true s.helper })
  refused-IsElsewhere d v = record {
    is_open = still-IsOpen o v refl refl refl (λ q t e. inl e);
    same_request = refl;
    same_response = refl;
    requests = refl;
    ends = refl;
  }

  sent-IsElsewhere :
      (d t fresh : ℕ) (p : Packet) (payload : Payload) {s' : ScSlavePort}
      → d ≢ c
      → Inv s'
      → let q = begun p d fresh payload (numbered d) s in
        (s' ≡ record q { helper = Helper.updated d (some t) request q.helper })
          ⊎ ((l : Call) × (s' ≡ record q { calls = l ∷ q.calls })
              × (sent_requests c (l ∷ q.calls) ≡ sent_requests c q.calls)
              × (sent_ends c (l ∷ q.calls) ≡ sent_ends c q.calls))
        → IsElsewhere c s s'
  sent-IsElsewhere d t fresh p payload n v (inl blocks) =
      let apart = apart-eq d c n in
      let (x, y) = begun_sends c d fresh p payload s n in
      rw blocks (record {
        is_open = still-IsOpen o (rw blocks at v) refl refl refl (λ q u e. inl e);
        same_request =
            ground (arith, apart, find-assign d c (some t) s.helper.blocking_request_map);
        same_response = refl;
        requests = x;
        ends = y;
      })
  sent-IsElsewhere d t fresh p payload n v (inr (l, calls, none_sent, none_ended)) =
      let (x, y) = begun_sends c d fresh p payload s n in
      rw calls (record {
        is_open = still-IsOpen o (rw calls at v) refl refl refl (λ q u e. inl e);
        same_request = refl;
        same_response = refl;
        requests = none_sent ∙ x;
        ends = none_ended ∙ y;
      })

  -- What a request that is sent leaves, whatever the target answers.
  request_sent :
      (p : Packet) (a : Request.Answer) {s' : ScSlavePort}
      → request_socket p s < s.helper.socket_num
      → IsUnused s.helper (allocate a.fresh s.mm).0
      → send_request p (request_socket p s) a s ≡ ok s'
      → let d = request_socket p s in
        let t = (allocate a.fresh s.mm).0 in
        (payload : Payload) × let q = begun p d a.fresh payload (numbered d) s in
          (s' ≡ record q { helper = Helper.updated d (some t) request q.helper })
          ⊎ ((s' ≡ record q { calls = schedule t a.phase a.delay ∷ q.calls })
              ⊎ (s' ≡ record q { calls = release t ∷ q.calls }))
  request_sent p a l u e =
      let d = request_socket p s in
      let (payload, k, converted, through_k, answered) = send_request_cases p d a s e in
      let at_d = socket_named d o through_k in
      (
        payload,
        on_status_ends a.status a d (allocate a.fresh s.mm).0
            (begun p d a.fresh payload (numbered d) s)
            (begun-Inv p d a.fresh payload (numbered d) o.inv u) l (rw at_d at answered),
      )

  -- A request through another socket, whatever the target answers.
  pub request-IsElsewhere :
      (p : Packet) (a : Request.Answer) {s' : ScSlavePort} {b : Bool}
      → request_socket p s ≢ c
      → IsUnused s.helper (allocate a.fresh s.mm).0
      → recv_timing_req p a s ≡ ok (s', b)
      → IsElsewhere c s s'
  request-IsElsewhere p a {s'} n u e =
      let v = recv_timing_req-Inv p a s o.inv u e in
      let d = request_socket p s in
      let t = (allocate a.fresh s.mm).0 in
      elim (recv_timing_req_cases p a s o.inv e) [
        | inl refused ↦ rw refused (refused-IsElsewhere d (rw refused at v))
        | inr (in_range, sent) ↦
            let (payload, ended) = request_sent p a in_range u sent in
            sent-IsElsewhere d t a.fresh p payload n v (elim ended [
              | inl blocks ↦ inl blocks
              | inr (inl scheduled) ↦ inr (schedule t a.phase a.delay, scheduled, refl, refl)
              | inr (inr released) ↦ inr (release t, released, refl, refl)
            ])
      ]

  -- It writes no payload but the new one.
  pub request_payloads :
      (p : Packet) (a : Request.Answer) {s' : ScSlavePort} {b : Bool} (w : ℕ)
      → IsUnused s.helper (allocate a.fresh s.mm).0
      → recv_timing_req p a s ≡ ok (s', b)
      → w ≢ (allocate a.fresh s.mm).0
      → core_of (s'.payloads w).extension ≡ core_of (s.payloads w).extension
  request_payloads p a {s'} w u e n =
      let t = (allocate a.fresh s.mm).0 in
      elim (recv_timing_req_cases p a s o.inv e) [
        | inl refused ↦ rw refused refl
        | inr (in_range, sent) ↦
            let (payload, ended) = request_sent p a in_range u sent in
            elim ended [
              | inl blocks ↦ rw blocks (other_payload s.payloads t w _ n)
              | inr (inl scheduled) ↦ rw scheduled (other_payload s.payloads t w _ n)
              | inr (inr released) ↦ rw released (other_payload s.payloads t w _ n)
            ]
      ]
