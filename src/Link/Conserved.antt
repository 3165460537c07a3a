-- ===== src/Link/Conserved.antt =====
-- src/sc_slave_port.cc and include/txn_router.h together: all steps of a socket and its router, in
-- any order.
use gem5_wrapper.Prelude.{◌≢◌, some, ℕ, ◌≡◌, refl, sym, inl, inr, none, List, [], ◌∷◌, ok}
use mathlib.Core.List.{append-nil}
use gem5_wrapper.Tlm.{end_req}
use gem5_wrapper.SlavePort.State.{Gem5Extension, ScSlavePort}
use gem5_wrapper.SlavePort.Event.{Answer, pec}
use gem5_wrapper.Router.Order.{waiting}
use gem5_wrapper.Router.{new}
use gem5_wrapper.Router.References
use gem5_wrapper.Link.Wire.{
  requested_elsewhere, end_req_elsewhere, begin_resp_elsewhere, Wire, IsForward, with_port, IsOpen,
  request_slot, response_slot, IsRetry, Step, requested, begin_req_served, end_req_served, woken,
  begin_resp_served, responses_retried, end_resp_served, Reach, connected, later,
}
use gem5_wrapper.Link.Places.{in_last}
use gem5_wrapper.Link.Ended.{end_req_ends}
use gem5_wrapper.Link.Linked.{IsLinked, forward_lem, freed-IsLinked}
use gem5_wrapper.Link.Opened.{freed-IsOpen, freed-slot, freed-IsOpen, freed-slot}
use gem5_wrapper.Link.Ported.{
  request-IsLinked, begin_resp-IsLinked, responses-IsLinked, end_req-freed,
}
use gem5_wrapper.Link.Aside.{
  freed-IsElsewhere, retrying-IsElsewhere, end_req_aside, begin_resp_aside,
}
use gem5_wrapper.Link.Delivered.{begin_req-IsLinked, woken-IsLinked, end_resp-IsLinked}
use gem5_wrapper.Link.Told.{
  elsewhere-IsLinked, other_request-IsLinked, retry-IsLinked, retrying-IsRetry, retrying-IsForward,
}

module _ {c : ℕ} {start size : ℕ} {w : Wire} (i : IsLinked c start size w) where
  end_req-IsLinked :
      (e : Answer) {t : ℕ} {rest : List ℕ} {s : ScSlavePort} {a b : List ℕ}
      → w.accepts ≡ t ∷ rest
      → IsRetry c w.port w.router w.ends e
      → pec t end_req e w.port ≡ ok s
      → IsForward c w.port s a b
      → IsLinked c start size (with_port s a b (record w { accepts = rest }))
  end_req-IsLinked e {t} {rest} at_t k d f =
      let (no_request, no_pending, no_rest, blocks) =
        in_last w.requests (waiting w.router.end_req_pending) rest t (rw at_t at i.requests) in
      elim (end_req_ends t c e w.port i.open_port blocks d) [
        | inr told ↦
            retry-IsLinked (end_req-freed i t rest at_t) e (retrying-IsRetry c k) told
              (retrying-IsForward c f)
        | inl done ↦
            let g = rw done at f in
            rw done (
              freed-IsLinked i t rest (freed-IsOpen i.open_port) at_t (freed-slot c w.port) refl
                refl (forward_lem [] [] g (sym (append-nil _)) (sym (append-nil _))))
      ]

  other_end_req-IsLinked :
      (e : Answer) (t : ℕ) (x : Gem5Extension) {s : ScSlavePort} {a b : List ℕ}
      → (w.port.payloads t).extension ≡ some x
      → x.core_id ≢ c
      → IsRetry c w.port w.router w.ends e
      → pec t end_req e w.port ≡ ok s
      → IsForward c w.port s a b
      → IsLinked c start size (with_port s a b w)
  other_end_req-IsLinked e t x {s} at_t n k d f =
      let o = i.open_port in
      elim (end_req_aside o t e x at_t d) [
        | inl done ↦
            rw done (
              elsewhere-IsLinked i (freed-IsElsewhere o x.core_id n) (λ u h k. refl) (rw done at f))
        | inr told ↦
            let freed_wire =
              elsewhere-IsLinked i {a = []} {b = []} (retrying-IsElsewhere o x.core_id n)
                (λ u h k. refl)
                (record { begun = sym (append-nil _); ended = sym (append-nil _) }) in
            retry-IsLinked (rw (append-nil w.requests, append-nil w.ends) at freed_wire) e
              (retrying-IsRetry x.core_id k) told (retrying-IsForward x.core_id f)
      ]

Step-IsLinked :
    {c : ℕ} {start size : ℕ} {w w' : Wire}
    → IsLinked c start size w
    → Step c w w'
    → IsLinked c start size w'
Step-IsLinked i (requested p fresh q e f) = request-IsLinked i p fresh q e f
Step-IsLinked i (begin_req_served at_t e f) = begin_req-IsLinked i at_t e f
Step-IsLinked i (end_req_served e at_t k d f) = end_req-IsLinked i e at_t k d f
Step-IsLinked i (woken d e f) = woken-IsLinked i d e f
Step-IsLinked i (begin_resp_served e at_t n d f) = begin_resp-IsLinked i e at_t n d f
Step-IsLinked i (responses_retried fuel e f) = responses-IsLinked i fuel e f
Step-IsLinked i (end_resp_served at_t e f) = end_resp-IsLinked i at_t e f
Step-IsLinked i (requested_elsewhere p q n k e f) = other_request-IsLinked i p q n k e f
Step-IsLinked i (end_req_elsewhere e t x at_t n k d f) = other_end_req-IsLinked i e t x at_t n k d f
Step-IsLinked i (begin_resp_elsewhere e t x at_t n quiet d f) =
    let (apart, same) = begin_resp_aside i.open_port t e x at_t n quiet d in
    elsewhere-IsLinked i apart (λ u h k. rw same refl) f

connected-IsLinked :
    {c : ℕ} (start size : ℕ) (s : ScSlavePort)
    → IsOpen c s
    → request_slot c s ≡ none
    → response_slot c s ≡ none
    → IsLinked c start size (record {
      port = s;
      router = new start size;
      requests = [];
      accepts = [];
      responses = [];
      ends = [];
    })
unfolding new
connected-IsLinked start size s o p q = record {
  open_port = o;
  reached = References.fresh;
  served = λ e. refl;
  requests = rw p refl;
  responses = rw q refl;
  owned = λ u e k. absurd (cc);
  apart = λ u e n k. absurd (cc);
}

-- gem5 runs in timing mode, the port serves an END_REQ that is under way before a BEGIN_RESP, and no
-- payload is handed out that blocks a channel or that the router has in progress with no END_RESP
-- under way. However gem5, the two queues and the router's process then act on a socket and its
-- router, and the port serves its other sockets: the router is driven by the exclusion rule that its order and its references need. A
-- transaction that blocks the request channel of the socket is in exactly one place: BEGIN_REQ under
-- way, waiting in the router, or END_REQ under way; and if the channel is free, nothing is in these
-- places. A transaction that the router responds to is in exactly one place too: BEGIN_RESP under
-- way, blocking the response channel, or END_RESP under way. While no
-- END_RESP is under way, the transaction in progress carries the socket, and once its END_REQ was
-- served it does not block the request channel.
pub Reach-IsLinked :
    {c : ℕ} {start size : ℕ} {w : Wire} → Reach c start size w → IsLinked c start size w
Reach-IsLinked {start} {size} (connected s n o p q) = connected-IsLinked start size s o p q
Reach-IsLinked (later r st) = Step-IsLinked (Reach-IsLinked r) st
