-- ===== src/Link/Service.antt =====
-- src/sc_slave_port.cc and include/txn_router.h together: the steps that serve what was begun, and
-- how much there is to serve.
use gem5_wrapper.Prelude.{
  Option-cases, ℕ, suc, ◌+◌, ◌*◌, ◌≤◌, ◌≡◌, ◌≢◌, ◌⊎◌, refl, sym, ap, ◌∙◌, inl, inr, true, none,
  some, List, [], ◌∷◌, ◌++◌, arith, ok, length, length-append,
}
use mathlib.Core.List.{append-nil}
use gem5_wrapper.Tlm.{end_req, begin_resp}
use gem5_wrapper.SlavePort.State.{ScSlavePort}
use gem5_wrapper.SlavePort.Event.{Answer, pec}
use gem5_wrapper.SlavePort.Drain.{recv_resp_retry}
use gem5_wrapper.Router.Order.{waiting}
use gem5_wrapper.Router.References.{Reach-invariant, one_if}
use gem5_wrapper.Link.Told.{IsApart, retry-IsElsewhere, retrying-IsRetry, retrying-IsApart}
use gem5_wrapper.Link.Wire.{
  IsRetry, Wire, IsForward, through_own, requested_elsewhere, end_req_elsewhere,
  begin_resp_elsewhere, response_slot, Step, requested, begin_req_served, end_req_served, woken,
  begin_resp_served, responses_retried, end_resp_served,
}
use gem5_wrapper.Link.Places.{one_if_some, in_first, in_last, waiting-eq-nil, responded-eq-some}
use gem5_wrapper.Link.Ended.{end_req_ends, begin_resp_ends}
use gem5_wrapper.Link.Resend.{recv_resp_retry_ends}
use gem5_wrapper.Link.Linked.{IsLinked, forward_lem}
use gem5_wrapper.Link.Routed.{begin_req_ends, process_ends, end_resp_ends}
use gem5_wrapper.Link.Opened.{retrying-IsOpen, refused_port-blocks}
use gem5_wrapper.Link.Ported.{answered-sends}

-- What the socket and its router do, but a request of gem5; a retry of responses only if one waits.
abbrev pub IsService : {c : ℕ} {w w' : Wire} → Step c w w' → Type 0
IsService (requested p fresh q e f) = ⊥
IsService (begin_req_served at_t e f) = Unit
IsService (end_req_served e at_t k d f) = IsApart k
IsService (woken d e f) = Unit
IsService (begin_resp_served e at_t n d f) = Unit
IsService {c} {w} (responses_retried fuel e f) = response_slot c w.port ≢ none
IsService (end_resp_served at_t e f) = Unit
IsService (requested_elsewhere p q n k e f) = ⊥
IsService (end_req_elsewhere e t x at_t n k d f) = ⊥
IsService (begin_resp_elsewhere e t x at_t n k d f) = ⊥

-- The steps that what was begun still needs.
abbrev pub work : ℕ → Wire → ℕ
work c w =
    7 * length w.requests
    + 6 * one_if_some w.router.end_req_pending
    + length w.accepts
    + 4 * one_if w.router.done_pending
    + 3 * length w.responses
    + 2 * one_if_some (response_slot c w.port)
    + length w.ends

module _ {c : ℕ} {start size : ℕ} {w : Wire} (i : IsLinked c start size w) where
  -- END_REQ, where gem5 sends nothing at once through the socket.
  end_req_sends :
      (e : Answer) (t : ℕ) (rest : List ℕ) {s : ScSlavePort} {a b : List ℕ}
      → w.accepts ≡ t ∷ rest
      → (k : IsRetry c w.port w.router w.ends e) → IsApart k
      → pec t end_req e w.port ≡ ok s
      → IsForward c w.port s a b
      → (response_slot c s ≡ response_slot c w.port) × (a ≡ []) × (b ≡ [])
  end_req_sends e t rest {s} at_t k l d f =
      let (no_request, no_pending, no_rest, blocks) =
        in_last w.requests (waiting w.router.end_req_pending) rest t (rw at_t at i.requests) in
      elim (end_req_ends t c e w.port i.open_port blocks d) [
        | inl done ↦
            let (x, y) =
              forward_lem [] [] (rw done at f) (sym (append-nil _)) (sym (append-nil _)) in
            (rw done refl, x, y)
        | inr told ↦
            let z =
              retry-IsElsewhere e (retrying-IsOpen i.open_port) (retrying-IsRetry c k)
                (retrying-IsApart c k l) told in
            let (x, y) =
              forward_lem [] [] f (z.requests ∙ sym (append-nil _)) (z.ends ∙ sym (append-nil _)) in
            (z.same_response, x, y)
      ]

  -- BEGIN_RESP leaves the response in the channel, or sends END_RESP.
  begin_resp_sends :
      (e : Answer) (t : ℕ) (rest : List ℕ) {s : ScSlavePort} {a b : List ℕ}
      → w.responses ≡ t ∷ rest
      → w.accepts ≡ []
      → pec t begin_resp e w.port ≡ ok s
      → IsForward c w.port s a b
      → (response_slot c w.port ≡ none)
        × (a ≡ [])
        × (((response_slot c s ≡ none) × (b ≡ t ∷ [])) ⊎ ((response_slot c s ≡ some t) × (b ≡ [])))
  begin_resp_sends e t rest {s} at_t none_under_way d f =
      let o = i.open_port in
      let (no_rest, no_response, no_end, serves) =
        in_first rest (waiting (response_slot c w.port)) w.ends t (rw at_t at i.responses) in
      let (responds, in_progress) = responded-eq-some _ _ t serves in
      let own = i.owned t in_progress no_end in
      let free = waiting-eq-nil _ no_response in
      let (pkt, ended) =
        begin_resp_ends t c e w.port o own (i.apart t in_progress none_under_way no_end) free d in
      let (same_requests, same_ends) = answered-sends c e pkt w.port in
      elim ended [
        | inl refused ↦
            let (x, y) =
              forward_lem [] [] (rw refused at f) (same_requests ∙ sym (append-nil _))
                (same_ends ∙ sym (append-nil _)) in
            (free, x, inr (rw refused (refused_port-blocks t pkt e o), y))
        | inr sent ↦
            let (x, y) =
              forward_lem [] (t ∷ []) (rw sent at f)
                (through_own c _ [] ∙ ap (λ (l : List ℕ). l ++ []) same_requests)
                (through_own c _ (t ∷ []) ∙ ap (λ (l : List ℕ). l ++ t ∷ []) same_ends) in
            (free, x, inl (rw sent free, y))
      ]

  -- The retry of a response that waits sends END_RESP.
  responses_retried_sends :
      (fuel : ℕ) {s : ScSlavePort} {a b : List ℕ}
      → response_slot c w.port ≢ none
      → recv_resp_retry fuel true (λ p. true) w.port ≡ ok (some s)
      → IsForward c w.port s a b
      → (t : ℕ) × (response_slot c w.port ≡ some t)
        × (response_slot c s ≡ none)
        × (a ≡ [])
        × (b ≡ t ∷ [])
  responses_retried_sends fuel n e f =
      let x = recv_resp_retry_ends fuel c w.port i.open_port e in
      let (no_request, sent) =
        forward_lem [] (waiting (response_slot c w.port)) f (x.requests ∙ sym (append-nil _))
          x.ends in
      elim (Option-cases (response_slot c w.port)) [
        | inl free ↦ absurd (n free)
        | inr (t, full) ↦ (t, full, x.free, no_request, sent ∙ ap waiting full)
      ]

pub serve_less :
    {c : ℕ} {start size : ℕ} {w w' : Wire}
    → IsLinked c start size w
    → (st : Step c w w') → IsService st
    → suc (work c w') ≤ work c w
serve_less i (requested p fresh q e f) k = absurd k
serve_less i (requested_elsewhere p q n l e f) k = absurd k
serve_less i (end_req_elsewhere e t x at_t n l d f) k = absurd k
serve_less i (begin_resp_elsewhere e t x at_t n l d f) k = absurd k
serve_less {w} i (begin_req_served {t} {rest} at_t e f) k =
    let (no_rest, none_waits, no_accept, blocks) =
      in_first rest (waiting w.router.end_req_pending) w.accepts t (rw at_t at i.requests) in
    let p = waiting-eq-nil w.router.end_req_pending none_waits in
    elim (begin_req_ends t w.router (Reach-invariant i.reached) p e f) [
      | inl x ↦ ground (
        arith,
        at_t,
        no_accept,
        p,
        x.sent,
        x.none_waits,
        x.was_done,
        x.notified,
        append-nil w.responses,
      )
      | inr x ↦
          ground (arith, at_t, no_accept, p, x.sent, x.waits, x.same_done, append-nil w.responses)
    ]
serve_less {c} {w = w} i (end_req_served e {t} {rest} at_t l d f) k =
    let x = end_req_sends i e t rest at_t l k d f in
    ground (arith, at_t, x, append-nil w.requests, append-nil w.ends)
serve_less {w} i (woken d e f) k =
    let (u, x) = process_ends w.router (Reach-invariant i.reached) d e f in
    ground (
      arith,
      d,
      x.done,
      x.same_waits,
      x.sent,
      append-nil w.accepts,
      length-append w.responses (u ∷ []),
    )
serve_less {w = w} i (begin_resp_served e {t} {rest} at_t n d f) k =
    let (free, x, y) = begin_resp_sends i e t rest at_t n d f in
    elim y [
      | inl (still_free, sent) ↦ ground (
        arith,
        at_t,
        free,
        x,
        still_free,
        sent,
        append-nil w.requests,
        length-append w.ends (t ∷ []),
      )
      | inr (waits, sent) ↦
          ground (arith, at_t, free, x, waits, sent, append-nil w.requests, append-nil w.ends)
    ]
serve_less {c} {w = w} i (responses_retried fuel e f) k =
    let (t, full, free, x, y) = responses_retried_sends i fuel k e f in
    ground (arith, full, free, x, y, append-nil w.requests, length-append w.ends (t ∷ []))
serve_less {w} i (end_resp_served {t} {rest} at_t e f) k =
    let x = end_resp_ends t w.router (Reach-invariant i.reached) e f in
    ground (
      arith,
      at_t,
      x.was_done,
      x.notified,
      x.none_waits,
      x.sent,
      append-nil w.responses,
      length-append w.accepts (waiting w.router.end_req_pending),
    )
