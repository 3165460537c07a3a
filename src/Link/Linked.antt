-- ===== src/Link/Linked.antt =====
-- src/sc_slave_port.cc and include/txn_router.h together: where each transaction of a socket is, and
-- what a step of the port does to that.
use gem5_wrapper.Prelude.{
  ℕ, ◌≡◌, ◌≢◌, ◌⊎◌, refl, sym, ap, ◌∙◌, inl, inr, Option-cases, none, some, List, [], ◌∷◌, ◌++◌,
  arith,
}
use mathlib.Core.List.{append-nil, append_cancel_left}
use gem5_wrapper.SlavePort.State.{ScSlavePort}
use gem5_wrapper.SlavePort.Invariant.{core_of}
use gem5_wrapper.Router.Order.{waiting}
use gem5_wrapper.Link.Places.{all_nil, append-eq-nil, in_first, in_middle, in_last, responded}
use gem5_wrapper.Router.References
use gem5_wrapper.Router.Server.{IsServed}
use gem5_wrapper.Link.Resend.{IsResent}
use gem5_wrapper.Link.Wire.{
  Wire, IsForward, with_port, IsOpen, request_slot, response_slot, sent_requests, sent_ends,
}

-- A transaction that blocks the request channel is in exactly one place: its BEGIN_REQ is under
-- way, or the router lets it wait, or its END_REQ is under way. One that the router responds to:
-- its BEGIN_RESP is under way, or it blocks the response channel, or its END_RESP is under way.
-- The router lets no request wait while it is idle. What it serves, until
-- END_RESP was sent for it, belongs to the socket, and once its END_REQ was served it blocks nothing.
pub record IsLinked (c : ℕ) (start size : ℕ) (w : Wire) : Type 0 where
  pub open_port : IsOpen c w.port
  pub reached : References.Reach start size w.router
  pub served : IsServed w.router
  pub requests :
      w.requests ++ waiting w.router.end_req_pending ++ w.accepts ≡ waiting (request_slot c w.port)
  pub responses :
      w.responses ++ waiting (response_slot c w.port) ++ w.ends
      ≡ waiting (responded w.router.response_in_progress w.router.transaction_in_progress)
  pub owned :
      (u : ℕ)
      → w.router.transaction_in_progress ≡ some u
      → w.ends ≡ []
      → core_of (w.port.payloads u).extension ≡ some c
  pub apart :
      (u : ℕ)
      → w.router.transaction_in_progress ≡ some u
      → w.accepts ≡ []
      → w.ends ≡ []
      → request_slot c w.port ≢ some u

-- What was sent on the way is determined by the calls.
pub forward_lem :
    {c : ℕ} {s s' : ScSlavePort} {a b : List ℕ} (x y : List ℕ)
    → IsForward c s s' a b
    → sent_requests c s'.calls ≡ sent_requests c s.calls ++ x
    → sent_ends c s'.calls ≡ sent_ends c s.calls ++ y
    → (a ≡ x) × (b ≡ y)
forward_lem {c} {s} {s'} {a} {b} x y f p q = (
  append_cancel_left (sent_requests c s.calls) a x (sym f.begun ∙ p),
  append_cancel_left (sent_ends c s.calls) b y (sym f.ended ∙ q),
)

module _ {c : ℕ} {start size : ℕ} {w : Wire} (i : IsLinked c start size w) where
  -- Another port that blocks the same and sent nothing.
  pub same-IsLinked :
      {s : ScSlavePort} {a b : List ℕ}
      → IsOpen c s
      → request_slot c s ≡ request_slot c w.port
      → response_slot c s ≡ response_slot c w.port
      → ((u : ℕ)
          → w.router.transaction_in_progress ≡ some u
          → w.ends ≡ []
          → core_of (s.payloads u).extension ≡ core_of (w.port.payloads u).extension)
      → (a ≡ []) × (b ≡ [])
      → IsLinked c start size (with_port s a b w)
  same-IsLinked {s} {b = b} o q r p (x, y) = record {
    open_port = o;
    reached = i.reached;
    served = i.served;
    requests = ground (arith, i.requests, q, x, append-nil w.requests);
    responses = ground (arith, i.responses, r, y, append-nil w.ends);
    owned = λ u e k. let z = (append-eq-nil w.ends b k).0 in p u e z ∙ i.owned u e z;
    apart = λ u e n k h. i.apart u e n (append-eq-nil w.ends b k).0 (sym q ∙ h);
  }

  -- BEGIN_REQ goes out on a free channel.
  pub begun-IsLinked :
      {s : ScSlavePort} {a b : List ℕ} (t : ℕ)
      → IsOpen c s
      → request_slot c w.port ≡ none
      → request_slot c s ≡ some t
      → response_slot c s ≡ response_slot c w.port
      → ((u : ℕ) → u ≢ t → core_of (s.payloads u).extension ≡ core_of (w.port.payloads u).extension)
      → (w.router.transaction_in_progress ≡ some t → w.ends ≢ [])
      → (a ≡ t ∷ []) × (b ≡ [])
      → IsLinked c start size (with_port s a b w)
  begun-IsLinked {s} {b = b} t o free q r p n (x, y) =
      let (no_request, no_pending, no_accept) =
        all_nil w.requests (waiting w.router.end_req_pending) w.accepts
          (i.requests ∙ ap waiting free) in
      record {
        open_port = o;
        reached = i.reached;
        served = i.served;
        requests = rw (x, q, no_request, no_pending, no_accept) refl;
        responses = ground (arith, i.responses, r, y, append-nil w.ends);
        owned = λ u e k.
            let z = (append-eq-nil w.ends b k).0 in
            p u (λ same. n (e ∙ ap some same) z) ∙ i.owned u e z;
        apart = λ u e z k h. n (e ∙ sym h ∙ q) (append-eq-nil w.ends b k).0;
      }

  -- END_REQ frees the channel.
  pub freed-IsLinked :
      {s : ScSlavePort} {a b : List ℕ} (t : ℕ) (rest : List ℕ)
      → IsOpen c s
      → w.accepts ≡ t ∷ rest
      → request_slot c s ≡ none
      → response_slot c s ≡ response_slot c w.port
      → s.payloads ≡ w.port.payloads
      → (a ≡ []) × (b ≡ [])
      → IsLinked c start size (with_port s a b (record w { accepts = rest }))
  freed-IsLinked {s} {b = b} t rest o at_t q r p (x, y) =
      let (no_request, no_pending, no_rest, blocks) =
        in_last w.requests (waiting w.router.end_req_pending) rest t (rw at_t at i.requests) in
      record {
        open_port = o;
        reached = i.reached;
        served = i.served;
        requests = rw (x, q, no_request, no_pending, no_rest) refl;
        responses = ground (arith, i.responses, r, y, append-nil w.ends);
        owned = λ u e k. ground (arith, i.owned u e (append-eq-nil w.ends b k).0, p);
        apart = λ u e z k h. ground (arith, q, h);
      }

  -- BEGIN_RESP is served: END_RESP goes out, or the response blocks the channel.
  pub responded-IsLinked :
      {s : ScSlavePort} {a b : List ℕ} (t : ℕ) (rest : List ℕ)
      → IsOpen c s
      → w.responses ≡ t ∷ rest
      → request_slot c s ≡ request_slot c w.port
      → ((response_slot c s ≡ none) × (b ≡ t ∷ [])) ⊎ ((response_slot c s ≡ some t) × (b ≡ []))
      → s.payloads ≡ w.port.payloads
      → a ≡ []
      → IsLinked c start size (with_port s a b (record w { responses = rest }))
  responded-IsLinked {s} {b = b} t rest o at_t q r p x =
      let (no_rest, no_response, no_end, serves) =
        in_first rest (waiting (response_slot c w.port)) w.ends t (rw at_t at i.responses) in
      record {
        open_port = o;
        reached = i.reached;
        served = i.served;
        requests = ground (arith, i.requests, q, x, append-nil w.requests);
        responses = elim r [
          | inl (none_waits, sent) ↦ rw (no_rest, none_waits, no_end, sent, serves) refl
          | inr (waits, sent) ↦ rw (no_rest, waits, no_end, sent, serves) refl
        ];
        owned = λ u e k. ground (arith, i.owned u e (append-eq-nil w.ends b k).0, p);
        apart = λ u e n k h. i.apart u e n (append-eq-nil w.ends b k).0 (sym q ∙ h);
      }

  -- The response that waits is sent again.
  pub resent-IsLinked :
      {s : ScSlavePort} {a b : List ℕ}
      → IsResent c w.port s
      → IsForward c w.port s a b
      → IsLinked c start size (with_port s a b w)
  resent-IsLinked {s} {b = b} x f =
      let (no_request, sent) =
        forward_lem [] (waiting (response_slot c w.port)) f
          (x.requests ∙ sym (append-nil (sent_requests c w.port.calls))) x.ends in
      record {
        open_port = x.is_open;
        reached = i.reached;
        served = i.served;
        requests = ground (arith, i.requests, x.same_request, no_request, append-nil w.requests);
        responses = rw (x.free, sent) (moved (Option-cases (response_slot c w.port)));
        owned = λ u e k. ground (arith, i.owned u e (append-eq-nil w.ends b k).0, x.same_payloads);
        apart = λ u e n k h. i.apart u e n (append-eq-nil w.ends b k).0 (sym x.same_request ∙ h);
      }
    where
      moved :
          (response_slot c w.port ≡ none) ⊎ ((t : ℕ) × (response_slot c w.port ≡ some t))
          → w.responses ++ [] ++ (w.ends ++ waiting (response_slot c w.port))
            ≡ waiting (responded w.router.response_in_progress w.router.transaction_in_progress)
      moved (inl free) =
          ground (arith, i.responses, free, append-nil w.responses, append-nil w.ends)
      moved (inr (t, full)) =
          let (no_response, no_end, serves) =
            in_middle w.responses w.ends t (rw full at i.responses) in
          rw (full, no_response, no_end, serves) refl
