-- ===== src/Link/Delivered.antt =====
-- include/txn_router.h: every step of the router keeps a transaction in one place.
use gem5_wrapper.Prelude.{
  ℕ, ◌≡◌, refl, sym, ap, ◌∙◌, inl, inr, true, some, List, [], ◌∷◌, ◌++◌, arith, ok, Option-cases,
}
use mathlib.Core.List.{append-nil}
use gem5_wrapper.Prelude.Map.{find}
use gem5_wrapper.Helper.{request}
use gem5_wrapper.Tlm.{begin_req, end_resp}
use gem5_wrapper.SlavePort.Invariant.{core_of}
use gem5_wrapper.Router.{TxnRouter, peq_cb, execute_transaction_process}
use gem5_wrapper.Router.Order.{waiting}
use gem5_wrapper.Router.References
use gem5_wrapper.Router.Server.{begin_req-IsServed, process-IsServed, end_resp-IsServed}
use gem5_wrapper.Router.References.{requested, answered, woken, Reach-invariant}
use gem5_wrapper.Link.{from_port}
use gem5_wrapper.Link.Wire.{Wire, IsBackward, with_router, request_slot, response_slot}
use gem5_wrapper.Link.Places.{
  in_first, in_middle, in_last, all_nil, append-eq-nil, not_nil, waiting-eq-nil,
}
use gem5_wrapper.Link.Requested.{held-eq-some}
use gem5_wrapper.Link.Linked.{IsLinked}
use gem5_wrapper.Link.Routed.{begin_req_ends, process_ends, end_resp_ends}

module _ {c : ℕ} {start size : ℕ} {w : Wire} (i : IsLinked c start size w) where
  -- What blocks the request channel belongs to the socket.
  slot_owned :
      (u : ℕ) → request_slot c w.port ≡ some u → core_of (w.port.payloads u).extension ≡ some c
  slot_owned u e =
      i.open_port.inv.owned request c u
        (held-eq-some (find c w.port.helper.blocking_request_map) u e)

  -- The router lets a request wait that blocks the channel and is in no other place.
  waits_alone :
      (u : ℕ)
      → w.router.end_req_pending ≡ some u
      → (w.requests ≡ []) × (w.accepts ≡ []) × (request_slot c w.port ≡ some u)
  waits_alone u e = in_middle w.requests w.accepts u (rw e at i.requests)

  -- Its END_REQ goes out.
  released :
      w.requests ++ [] ++ (w.accepts ++ waiting w.router.end_req_pending)
      ≡ waiting (request_slot c w.port)
  released = elim (Option-cases w.router.end_req_pending) [
    | inl none_waits ↦
        ground (arith, i.requests, none_waits, append-nil w.requests, append-nil w.accepts)
    | inr (u, waits) ↦
        let (no_request, no_accept, blocks) = waits_alone u waits in
        rw (waits, no_request, no_accept, blocks) refl
  ]

  pub begin_req-IsLinked :
      {t : ℕ} {rest : List ℕ} {r : TxnRouter} {a b : List ℕ}
      → w.requests ≡ t ∷ rest
      → peq_cb t begin_req from_port w.router ≡ ok r
      → IsBackward w.router r a b
      → IsLinked c start size (with_router r a b (record w { requests = rest }))
  begin_req-IsLinked {t} {rest} {r} {a} {b} at_t e f =
      let (no_rest, none_waits, no_accept, blocks) =
        in_first rest (waiting w.router.end_req_pending) w.accepts t (rw at_t at i.requests) in
      let p = waiting-eq-nil w.router.end_req_pending none_waits in
      let reached' = References.later i.reached (requested t from_port p e) in
      elim (begin_req_ends t w.router (Reach-invariant i.reached) p e f) [
        | inl taken ↦ record {
          open_port = i.open_port;
          reached = reached';
          served = begin_req-IsServed t from_port w.router i.served e;
          requests = rw (no_rest, taken.none_waits, no_accept, taken.sent.0, blocks) refl;
          responses = ground (
            arith,
            i.responses,
            taken.sent,
            taken.quiet,
            taken.still_quiet,
            append-nil w.responses,
          );
          owned = λ u h k. slot_owned u (blocks ∙ sym taken.serves ∙ h);
          apart = λ u h z k. absurd (not_nil (sym taken.sent.0 ∙ (append-eq-nil w.accepts a z).1));
        }
        | inr kept ↦ record {
          open_port = i.open_port;
          reached = reached';
          served = begin_req-IsServed t from_port w.router i.served e;
          requests = rw (no_rest, kept.waits, no_accept, kept.sent.0, blocks) refl;
          responses = ground (
            arith,
            i.responses,
            kept.same,
            kept.same_response,
            kept.sent,
            append-nil w.responses,
          );
          owned = λ u h k. i.owned u (sym kept.same ∙ h) k;
          apart = λ u h z k. i.apart u (sym kept.same ∙ h) no_accept k;
        }
      ]

  pub woken-IsLinked :
      {r : TxnRouter} {a b : List ℕ}
      → w.router.done_pending ≡ true
      → execute_transaction_process from_port w.router ≡ ok r
      → IsBackward w.router r a b
      → IsLinked c start size (with_router r a b w)
  woken-IsLinked {r} {a} {b} d e f =
      let (u, x) = process_ends w.router (Reach-invariant i.reached) d e f in
      let (no_response, none_blocked, no_end) =
        all_nil w.responses (waiting (response_slot c w.port)) w.ends (rw x.quiet at i.responses) in
      record {
        open_port = i.open_port;
        reached = References.later i.reached (woken from_port d e);
        served = process-IsServed from_port w.router (Reach-invariant i.reached) i.served d refl e;
        requests = ground (arith, i.requests, x.same_waits, x.sent, append-nil w.accepts);
        responses = rw (no_response, none_blocked, no_end, x.sent.1, x.responds, x.still) refl;
        owned = λ q h k. i.owned q (x.serves ∙ sym x.still ∙ h) k;
        apart = λ q h z k. i.apart q (x.serves ∙ sym x.still ∙ h) (append-eq-nil w.accepts a z).0 k;
      }

  pub end_resp-IsLinked :
      {t : ℕ} {rest : List ℕ} {r : TxnRouter} {a b : List ℕ}
      → w.ends ≡ t ∷ rest
      → peq_cb t end_resp from_port w.router ≡ ok r
      → IsBackward w.router r a b
      → IsLinked c start size (with_router r a b (record w { ends = rest }))
  end_resp-IsLinked {t} {rest} {r} {a} {b} at_t e f =
      let x = end_resp_ends t w.router (Reach-invariant i.reached) e f in
      let (no_response, none_blocked, no_rest, serves) =
        in_last w.responses (waiting (response_slot c w.port)) rest t (rw at_t at i.responses) in
      record {
        open_port = i.open_port;
        reached = References.later i.reached (answered t from_port e);
        served = end_resp-IsServed t from_port w.router (Reach-invariant i.reached) i.served e;
        requests = rw (x.none_waits, x.sent.0) released;
        responses = rw (x.quiet, no_response, none_blocked, no_rest, x.sent.1) refl;
        owned = λ q h k. slot_owned q (waits_alone q (sym x.serves ∙ h)).2;
        apart = λ q h z k. absurd (
            not_nil (
              ap waiting (sym (sym x.serves ∙ h))
              ∙ sym x.sent.0
              ∙ (append-eq-nil w.accepts a z).1));
      }
