-- ===== src/Link/Answered.antt =====
-- src/sc_slave_port.cc: a request that is sent, its END_REQ and its BEGIN_RESP, where gem5 takes the
-- response.
use gem5_wrapper.Prelude.{
  ℕ, ◌≡◌, refl, ap, ◌∙◌, inl, inr, true, false, none, some, ◌∷◌, arith, ok, Bool-cases, ◌==◌,
  ==_iff,
}
use gem5_wrapper.Prelude.Map.{find-assign}
use gem5_wrapper.Tlm.{end_req, begin_resp, end_resp}
use gem5_wrapper.Helper.{
  request, response, is_blocking_trans, get_blocking_trans, need_to_send_request_retry,
}
use gem5_wrapper.Helper.Channels.{slot}
use gem5_wrapper.Helper.Search.{is_blocking_trans_iff}
use gem5_wrapper.MemoryManager.{allocate}
use gem5_wrapper.SlavePort.State.{
  Packet, ScSlavePort, socket_for, schedule, release, make_response, send_timing_resp, transport_fw,
  emit,
}
use gem5_wrapper.SlavePort.Request.{request_socket}
use gem5_wrapper.SlavePort.Event.{Answer, begin_response, pec}
use gem5_wrapper.SlavePort.Invariant.{Inv, core_of}
use gem5_wrapper.SlavePort.Exclusion.{IsSendable, blocked_port, blocked_port-Inv}
use gem5_wrapper.SlavePort.Retry.{IsBlocked, freed, end_req_frees, begin_response_lem}
use gem5_wrapper.SlavePort.Reopened.{freed-is_free}
use gem5_wrapper.SlavePort.Reachable.{freed-Inv}
use gem5_wrapper.SlavePort.Preservation.{with_calls-Inv}
use gem5_wrapper.Link.{accepting}

-- A transaction whose socket was freed blocks no request channel any more.
freed-not_blocking :
    (t c : ℕ) (s : ScSlavePort)
    → Inv s
    → core_of (s.payloads t).extension ≡ some c
    → is_blocking_trans (some t) request (freed c s).helper ≡ false
freed-not_blocking t c s v o =
    let w = freed-Inv c v in
    elim (Bool-cases (is_blocking_trans (some t) request (freed c s).helper)) [
      | inr e ↦ e
      | inl e ↦
          let (d, below, found) =
            (is_blocking_trans_iff (freed c s).helper t request w.core_helper.ready).0 e in
          let owner : core_of (s.payloads t).extension ≡ some d = w.owned request d t found in
          let same : d ≡ c = ground (arith, owner, o) in
          absurd (ground (arith, same, found, find-assign c d none s.helper.blocking_request_map))
    ]

-- BEGIN_RESP of a transaction that blocks nothing only brings the response.
pub pec-begin_resp :
    (t : ℕ) (e : Answer) (s : ScSlavePort)
    → Inv s
    → is_blocking_trans (some t) request s.helper ≡ false
    → pec t begin_resp e s ≡ begin_response t e s
unfolding pec
pec-begin_resp t e s v b = ground (arith, v.no_request, b)

module _ (p : Packet) (fresh : ℕ) (s : ScSlavePort) (k : IsSendable p (accepting fresh) s) where
  abbrev pub trans : ℕ
  trans = (allocate fresh s.mm).0

  abbrev pub socket : ℕ
  socket = request_socket p s

  -- The port after BEGIN_REQ, with END_REQ scheduled; then with BEGIN_RESP scheduled; and at last.
  abbrev pub begun_port : ScSlavePort
  begun_port =
      emit (schedule trans end_req 0) (blocked_port p (accepting fresh) k.payload k.target s)

  abbrev pub ended_port : ScSlavePort
  ended_port = emit (schedule trans begin_resp 0) (freed socket begun_port)

  abbrev pub answered_port : ScSlavePort
  answered_port = record ended_port {
    calls =
        release trans
        ∷ transport_fw k.target trans end_resp 0
        ∷ send_timing_resp p.ptr
        ∷ make_response p.ptr
        ∷ ended_port.calls;
  }

  begun_port-Inv : Inv s → Inv begun_port
  begun_port-Inv v = with_calls-Inv _ (blocked_port-Inv p (accepting fresh) s v k)

  begun_port-IsBlocked : Inv s → IsBlocked begun_port trans socket
  begun_port-IsBlocked v =
      let (old, there) = slot request socket v.core_helper.ready (omega (arith, k.in_range)) in
      record {
        in_range = k.in_range;
        blocks =
            ground
              (arith, there, find-assign socket socket (some trans) s.helper.blocking_request_map);
      }

  -- END_REQ, where no retry is owed.
  pub end_req-freed :
      (e : Answer)
      → Inv s
      → need_to_send_request_retry socket s.helper ≡ ok false
      → pec trans end_req e begun_port ≡ ok (freed socket begun_port)
  unfolding need_to_send_request_retry
  end_req-freed e v o =
      end_req_frees trans socket false e begun_port (begun_port-Inv v) (begun_port-IsBlocked v) o

  ended_port-Inv : Inv s → Inv ended_port
  ended_port-Inv v = with_calls-Inv _ (freed-Inv socket (begun_port-Inv v))

  response_free :
      Inv s
      → get_blocking_trans socket response s.helper ≡ ok none
      → get_blocking_trans socket response ended_port.helper ≡ ok none
  unfolding get_blocking_trans
  response_free v f = ground (arith, f, v.core_helper.no_cache)

  pub answered_port-free :
      Inv s
      → get_blocking_trans socket response s.helper ≡ ok none
      → Inv answered_port
        × (get_blocking_trans socket request answered_port.helper ≡ ok none)
        × (get_blocking_trans socket response answered_port.helper ≡ ok none)
  answered_port-free v f = (
    with_calls-Inv _ (ended_port-Inv v),
    freed-is_free trans socket begun_port (begun_port-Inv v) (begun_port-IsBlocked v),
    response_free v f,
  )

  extended :
      (ended_port.payloads trans).extension ≡ some (record { packet = p.ptr; core_id = socket })
  extended = let here : (trans == trans) ≡ true = (==_iff trans trans).1 refl in rw here refl

  -- BEGIN_RESP, where gem5 takes the response.
  pub begin_resp-answered :
      (e : Answer)
      → Inv s
      → e.caught_up ≡ true
      → e.needs_response ≡ true
      → e.is_response ≡ true
      → e.taken ≡ true
      → get_blocking_trans socket response s.helper ≡ ok none
      → pec trans begin_resp e ended_port ≡ ok answered_port
  unfolding socket_for
  begin_resp-answered e v u n r a f =
      let owner = ap core_of extended in
      let free = freed-not_blocking trans socket begun_port (begun_port-Inv v) owner in
      pec-begin_resp trans e ended_port (ended_port-Inv v) free
      ∙ begin_response_lem trans e ended_port (record { packet = p.ptr; core_id = socket })
          (ended_port-Inv v) u extended k.in_range (response_free v f) k.bound
      ∙ rw (n, r, a) refl
