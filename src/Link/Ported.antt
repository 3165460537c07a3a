-- ===== src/Link/Ported.antt =====
-- src/sc_slave_port.cc: what a step of the port does to the places of a transaction.
use gem5_wrapper.Prelude.{
  ℕ, ◌≡◌, ◌≢◌, refl, sym, ap, ◌∙◌, inl, inr, Bool, true, some, List, [], ◌∷◌, ◌++◌, arith, ok, ◌==◌,
  ==_iff, Bool-cases,
}
use mathlib.Core.List.{append-nil}
use gem5_wrapper.Tlm.{begin_resp}
use gem5_wrapper.MemoryManager.{allocate}
use gem5_wrapper.SlavePort.State.{update, Payload, Packet, ScSlavePort}
use gem5_wrapper.SlavePort.Request.{recv_timing_req}
use gem5_wrapper.SlavePort.Event.{Answer, pec}
use gem5_wrapper.SlavePort.Drain.{recv_resp_retry}
use gem5_wrapper.SlavePort.Invariant.{core_of}
use gem5_wrapper.SlavePort.Preservation.{recv_timing_req-Inv}
use gem5_wrapper.SlavePort.Retry.{retrying, answered}
use gem5_wrapper.Router.Order.{waiting}
use gem5_wrapper.Link.{accepting}
use gem5_wrapper.Link.Wire.{
  Wire, IsForward, with_port, IsSent, response_slot, sent_requests, sent_ends, through_own,
}
use gem5_wrapper.Link.Places.{in_first, responded-eq-some, waiting-eq-nil}
use gem5_wrapper.Link.Requested.{recv_timing_req_ends, sent_port-blocks, sent_port-IsOpen}
use gem5_wrapper.Link.Ended.{begin_resp_ends}
use gem5_wrapper.Link.Resend.{recv_resp_retry_ends}
use gem5_wrapper.Link.Linked.{
  IsLinked, forward_lem, same-IsLinked, begun-IsLinked, freed-IsLinked, responded-IsLinked,
  resent-IsLinked,
}
use gem5_wrapper.Link.Opened.{
  with_retry-IsOpen, retrying-IsOpen, responded_port-IsOpen, refused_port-IsOpen,
  refused_port-blocks, freed-slot,
}

pub other_payload :
    (payloads : ℕ → Payload) (t u : ℕ) (p : Payload)
    → u ≢ t
    → core_of (update payloads t p u).extension ≡ core_of (payloads u).extension
other_payload payloads t u p n = elim (Bool-cases (t == u)) [
  | inl hit ↦ absurd (n (sym ((==_iff t u).0 hit)))
  | inr miss ↦ rw miss refl
]

-- To give gem5 a response sends the target nothing.
pub answered-sends :
    (c : ℕ) (e : Answer) (pkt : ℕ) (s : ScSlavePort)
    → (sent_requests c (answered e pkt s).calls ≡ sent_requests c s.calls)
      × (sent_ends c (answered e pkt s).calls ≡ sent_ends c s.calls)
answered-sends c e pkt s = ground arith

module _ {c : ℕ} {start size : ℕ} {w : Wire} (i : IsLinked c start size w) where
  pub request-IsLinked :
      (p : Packet) (fresh : ℕ) {s : ScSlavePort} {taken : Bool} {a b : List ℕ}
      → IsSent c p fresh w.port w.router w.ends
      → recv_timing_req p (accepting fresh) w.port ≡ ok (s, taken)
      → IsForward c w.port s a b
      → IsLinked c start size (with_port s a b w)
  request-IsLinked p fresh {s} q e f =
      let o = i.open_port in
      let t = (allocate fresh w.port.mm).0 in
      let no_requests = append-nil (sent_requests c w.port.calls) in
      let no_ends = append-nil (sent_ends c w.port.calls) in
      elim (recv_timing_req_ends p c fresh w.port o q.is_request q.at_socket e) [
        | inl refused ↦
            let g = rw refused at f in
            rw refused (
              same-IsLinked i (with_retry-IsOpen true o) refl refl (λ u h z. refl)
                (forward_lem [] [] g (sym no_requests) (sym no_ends)))
        | inr (free, payload, sent) ↦
            let g = rw sent at f in
            let v = recv_timing_req-Inv p (accepting fresh) w.port o.inv q.is_fresh.unused e in
            rw sent (
              begun-IsLinked i t (sent_port-IsOpen p c fresh payload o (rw sent at v)) free
                (sent_port-blocks p c fresh payload w.port o.inv o.in_range) refl
                (λ u n. other_payload w.port.payloads t u _ n) q.is_fresh.unserved
                (forward_lem (t ∷ []) [] g (through_own c (sent_requests c w.port.calls) (t ∷ []))
                  (through_own c (sent_ends c w.port.calls) [])))
      ]

  pub begin_resp-IsLinked :
      (e : Answer) {t : ℕ} {rest : List ℕ} {s : ScSlavePort} {a b : List ℕ}
      → w.responses ≡ t ∷ rest
      → w.accepts ≡ []
      → pec t begin_resp e w.port ≡ ok s
      → IsForward c w.port s a b
      → IsLinked c start size (with_port s a b (record w { responses = rest }))
  begin_resp-IsLinked e {t} {rest} {s} at_t none_under_way d f =
      let o = i.open_port in
      let (no_rest, no_response, no_end, serves) =
        in_first rest (waiting (response_slot c w.port)) w.ends t (rw at_t at i.responses) in
      let (responds, in_progress) = responded-eq-some _ _ t serves in
      let own = i.owned t in_progress no_end in
      let (pkt, ended) =
        begin_resp_ends t c e w.port o own (i.apart t in_progress none_under_way no_end)
          (waiting-eq-nil _ no_response) d in
      let (same_requests, same_ends) = answered-sends c e pkt w.port in
      elim ended [
        | inl refused ↦
            let g = rw refused at f in
            let (x, y) =
              forward_lem [] [] g (same_requests ∙ sym (append-nil _))
                (same_ends ∙ sym (append-nil _)) in
            rw refused (
              responded-IsLinked i t rest (refused_port-IsOpen t pkt e o own) at_t refl
                (inr (refused_port-blocks t pkt e o, y)) refl x)
        | inr sent ↦
            let g = rw sent at f in
            let (x, y) =
              forward_lem [] (t ∷ []) g
                (through_own c _ [] ∙ ap (λ (l : List ℕ). l ++ []) same_requests)
                (through_own c _ (t ∷ []) ∙ ap (λ (l : List ℕ). l ++ t ∷ []) same_ends) in
            rw sent (
              responded-IsLinked i t rest (responded_port-IsOpen t pkt e o) at_t refl
                (inl (waiting-eq-nil _ no_response, y)) refl x)
      ]

  pub responses-IsLinked :
      (fuel : ℕ) {s : ScSlavePort} {a b : List ℕ}
      → recv_resp_retry fuel true (λ p. true) w.port ≡ ok (some s)
      → IsForward c w.port s a b
      → IsLinked c start size (with_port s a b w)
  responses-IsLinked fuel e f =
      resent-IsLinked i (recv_resp_retry_ends fuel c w.port i.open_port e) f

  pub end_req-freed :
      (t : ℕ) (rest : List ℕ)
      → w.accepts ≡ t ∷ rest
      → IsLinked c start size (record w { port = retrying c w.port; accepts = rest })
  end_req-freed t rest at_t =
      rw (append-nil w.requests, append-nil w.ends) at
        (freed-IsLinked i t rest (retrying-IsOpen i.open_port) at_t (freed-slot c w.port) refl refl
          (refl, refl))
