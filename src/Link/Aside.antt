-- ===== src/Link/Aside.antt =====
-- src/sc_slave_port.cc, `pec`: an event of a transaction of another socket leaves a socket alone.
use mathlib.Core.List.{append-nil}
use gem5_wrapper.Prelude.{
  ℕ, ◌<◌, ◌≡◌, ◌≢◌, ◌⊎◌, refl, sym, ap, ◌∙◌, inl, inr, false, none, some, arith, ok,
}
use gem5_wrapper.Prelude.Map.{find-assign}
use gem5_wrapper.Tlm.{end_req, begin_resp}
use gem5_wrapper.Helper.{request, response, get_blocking_trans, is_blocking_trans}
use gem5_wrapper.SlavePort.State.{Gem5Extension, ScSlavePort, get_extension}
use gem5_wrapper.SlavePort.Event.{
  Answer, end_request, end_core_request, begin_response, check_response_channel, pec,
}
use gem5_wrapper.SlavePort.Invariant.{Inv, core_of}
use gem5_wrapper.SlavePort.Preservation.{with_calls-Inv, with_retry-Inv}
use gem5_wrapper.SlavePort.Reachable.{end_core_request_cases, freed-Inv}
use gem5_wrapper.SlavePort.Retry.{freed, retrying}
use gem5_wrapper.Link.Wire.{IsOpen}
use gem5_wrapper.Link.Answered.{pec-begin_resp}
use gem5_wrapper.Link.Ended.{begin_response_ends}
use gem5_wrapper.Link.Opened.{refused_port-IsOpen, responded_port-IsOpen}
use gem5_wrapper.Link.Ported.{answered-sends}
use gem5_wrapper.Link.Requested.{socket_bound}
use gem5_wrapper.Link.Elsewhere.{IsElsewhere, apart-eq, still-IsOpen}

end_req_core :
    (t : ℕ) (e : Answer) (s : ScSlavePort) {s' : ScSlavePort}
    → Inv s
    → pec t end_req e s ≡ ok s'
    → end_core_request t e s ≡ ok s'
unfolding pec end_request
end_req_core t e s v d = ground (arith, d, v.no_cache)

-- BEGIN_RESP that is not stopped finds the response channel of its socket free.
response_checked :
    (t : ℕ) (e : Answer) (s : ScSlavePort) (x : Gem5Extension) {s' : ScSlavePort}
    → Inv s
    → (s.payloads t).extension ≡ some x
    → begin_response t e s ≡ ok s'
    → (x.core_id < s.helper.socket_num) × (get_blocking_trans x.core_id response s.helper ≡ ok none)
unfolding begin_response check_response_channel get_extension get_blocking_trans
response_checked t e s x v at_t d =
    (ground (arith, d, at_t, v.no_cache), ground (arith, d, at_t, v.no_cache))

at_socket : {c : ℕ} {s : ScSlavePort} (d : ℕ) → IsOpen c s → d < s.helper.socket_num → IsOpen d s
at_socket d o l = record {
  inv = o.inv;
  in_range = l;
  multi = o.multi;
  is_bound = o.is_bound;
  sockets = o.sockets;
}

module _ {c : ℕ} {s : ScSlavePort} (o : IsOpen c s) where
  pub freed-IsElsewhere : (d : ℕ) → d ≢ c → IsElsewhere c s (freed d s)
  freed-IsElsewhere d n =
      let apart = apart-eq d c n in
      record {
        is_open = still-IsOpen o (freed-Inv d o.inv) refl refl refl (λ q u e. inl e);
        same_request = ground (arith, apart, find-assign d c none s.helper.blocking_request_map);
        same_response = refl;
        requests = refl;
        ends = refl;
      }

  pub retrying-IsElsewhere : (d : ℕ) → d ≢ c → IsElsewhere c s (retrying d s)
  retrying-IsElsewhere d n =
      let x = freed-IsElsewhere d n in
      record {
        is_open =
            still-IsOpen o (with_calls-Inv _ (with_retry-Inv d false (freed-Inv d o.inv))) refl refl
              refl (λ q u e. inl e);
        same_request = x.same_request;
        same_response = refl;
        requests = refl;
        ends = refl;
      }

  -- END_REQ of another socket's transaction.
  pub end_req_aside :
      (t : ℕ) (e : Answer) (x : Gem5Extension) {s' : ScSlavePort}
      → (s.payloads t).extension ≡ some x
      → pec t end_req e s ≡ ok s'
      → (s' ≡ freed x.core_id s) ⊎ (e.retry (retrying x.core_id s) ≡ ok s')
  end_req_aside t e x at_t d =
      rw at_t at (end_core_request_cases t e s o.inv (end_req_core t e s o.inv d))

  -- BEGIN_RESP of another socket's transaction, after its END_REQ.
  pub begin_resp_aside :
      (t : ℕ) (e : Answer) (x : Gem5Extension) {s' : ScSlavePort}
      → (s.payloads t).extension ≡ some x
      → x.core_id ≢ c
      → is_blocking_trans (some t) request s.helper ≡ false
      → pec t begin_resp e s ≡ ok s'
      → IsElsewhere c s s' × (s'.payloads ≡ s.payloads)
  begin_resp_aside t e x {s'} at_t n quiet d =
      let done = sym (pec-begin_resp t e s o.inv quiet) ∙ d in
      let (below, free) = response_checked t e s x o.inv at_t done in
      let apart = apart-eq x.core_id c n in
      let (same_requests, same_ends) = answered-sends c e x.packet s in
      let there = at_socket x.core_id o below in
      let own = ap core_of at_t in
      elim (begin_response_ends t x.core_id e s x o.inv at_t below free (socket_bound there) done) [
        | inl refused ↦ (
          rw refused (record {
            is_open = at_socket c (refused_port-IsOpen t x.packet e there own) o.in_range;
            same_request = refl;
            same_response =
                ground
                  (arith, apart, find-assign x.core_id c (some t) s.helper.blocking_response_map);
            requests = same_requests;
            ends = same_ends;
          }),
          rw refused refl,
        )
        | inr sent ↦ (
          rw sent (record {
            is_open = at_socket c (responded_port-IsOpen t x.packet e there) o.in_range;
            same_request = refl;
            same_response = refl;
            requests = rw apart (append-nil _ ∙ same_requests);
            ends = rw apart (append-nil _ ∙ same_ends);
          }),
          rw sent refl,
        )
      ]
