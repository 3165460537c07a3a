-- ===== src/Link/Routed.antt =====
-- include/txn_router.h: what each step of the router does and sends.
use gem5_wrapper.Prelude.{
  ℕ, ◌≡◌, ◌⊎◌, sym, ◌∙◌, inl, inr, true, false, none, some, List, [], ◌∷◌, ◌++◌, arith, ok,
  Option-cases, is_some,
}
use mathlib.Core.List.{append-nil, append_cancel_left}
use gem5_wrapper.Tlm.{begin_req, end_resp}
use gem5_wrapper.Router.{TxnRouter, peq_cb, execute_transaction_process}
use gem5_wrapper.Router.Invariant.{Inv}
use gem5_wrapper.Router.Order.{waiting, accepted_requests}
use gem5_wrapper.Link.{from_port}
use gem5_wrapper.Link.Wire.{IsBackward, sent_responses}

pub backward_lem :
    {r r' : TxnRouter} {a b : List ℕ} (x y : List ℕ)
    → IsBackward r r' a b
    → accepted_requests r'.calls ≡ accepted_requests r.calls ++ x
    → sent_responses r'.calls ≡ sent_responses r.calls ++ y
    → (a ≡ x) × (b ≡ y)
backward_lem {r} {r'} {a} {b} x y f p q = (
  append_cancel_left (accepted_requests r.calls) a x (sym f.ended ∙ p),
  append_cancel_left (sent_responses r.calls) b y (sym f.begun ∙ q),
)

-- BEGIN_REQ is taken at once, or waits.
pub record IsTaken (t : ℕ) (r r' : TxnRouter) (a b : List ℕ) : Type 0 where
  pub was_idle : r.transaction_in_progress ≡ none
  pub serves : r'.transaction_in_progress ≡ some t
  pub none_waits : r'.end_req_pending ≡ none
  pub was_done : r.done_pending ≡ false
  pub notified : r'.done_pending ≡ true
  pub quiet : r.response_in_progress ≡ false
  pub still_quiet : r'.response_in_progress ≡ false
  pub sent : (a ≡ t ∷ []) × (b ≡ [])

pub record IsKept (t : ℕ) (r r' : TxnRouter) (a b : List ℕ) : Type 0 where
  pub same : r'.transaction_in_progress ≡ r.transaction_in_progress
  pub waits : r'.end_req_pending ≡ some t
  pub same_done : r'.done_pending ≡ r.done_pending
  pub same_response : r'.response_in_progress ≡ r.response_in_progress
  pub sent : (a ≡ []) × (b ≡ [])

pub begin_req_ends :
    (t : ℕ) (r : TxnRouter) {r' : TxnRouter} {a b : List ℕ}
    → Inv r
    → r.end_req_pending ≡ none
    → peq_cb t begin_req from_port r ≡ ok r'
    → IsBackward r r' a b
    → IsTaken t r r' a b ⊎ IsKept t r r' a b
unfolding peq_cb
begin_req_ends t r {r'} v p e f = elim (Option-cases r.transaction_in_progress) [
  | inl idle ↦ inl (record {
    was_idle = idle;
    serves = ground (arith, e, idle);
    none_waits = ground (arith, e, idle);
    was_done = ground (arith, v.executing, idle);
    notified = ground (arith, e, idle);
    quiet = ground (arith, v.responding, idle);
    still_quiet = ground (arith, e, v.responding, idle);
    sent =
        backward_lem (t ∷ []) [] f (ground (arith, e, idle))
          (ground (arith, e, idle, append-nil (sent_responses r.calls)));
  })
  | inr (u, busy) ↦ inr (record {
    same = ground (arith, e, busy);
    waits = ground (arith, e, busy);
    same_done = ground (arith, e, busy);
    same_response = ground (arith, e, busy);
    sent =
        backward_lem [] [] f (ground (arith, e, busy, append-nil (accepted_requests r.calls)))
          (ground (arith, e, busy, append-nil (sent_responses r.calls)));
  })
]

-- The process responds to what it executed.
pub record IsExecuted (u : ℕ) (r r' : TxnRouter) (a b : List ℕ) : Type 0 where
  pub serves : r.transaction_in_progress ≡ some u
  pub still : r'.transaction_in_progress ≡ some u
  pub quiet : r.response_in_progress ≡ false
  pub responds : r'.response_in_progress ≡ true
  pub done : r'.done_pending ≡ false
  pub same_waits : r'.end_req_pending ≡ r.end_req_pending
  pub sent : (a ≡ []) × (b ≡ u ∷ [])

pub process_ends :
    (r : TxnRouter) {r' : TxnRouter} {a b : List ℕ}
    → Inv r
    → r.done_pending ≡ true
    → execute_transaction_process from_port r ≡ ok r'
    → IsBackward r r' a b
    → (u : ℕ) × IsExecuted u r r' a b
unfolding execute_transaction_process
process_ends r {r'} v d e f = elim (Option-cases r.transaction_in_progress) [
  | inl idle ↦ absurd (ground (arith, v.executing d, idle))
  | inr (u, busy) ↦ (
    u,
    record {
      serves = busy;
      still = ground (arith, e, busy, v.unanswered d);
      quiet = v.unanswered d;
      responds = ground (arith, e, busy, v.unanswered d);
      done = ground (arith, e, busy, v.unanswered d);
      same_waits = ground (arith, e, busy, v.unanswered d);
      sent =
          backward_lem [] (u ∷ []) f
            (ground (arith, e, busy, v.unanswered d, append-nil (accepted_requests r.calls)))
            (ground (arith, e, busy, v.unanswered d));
    },
  )
]

-- END_RESP makes room for the request that waits.
pub record IsEnded (r r' : TxnRouter) (a b : List ℕ) : Type 0 where
  pub quiet : r'.response_in_progress ≡ false
  pub was_done : r.done_pending ≡ false
  pub notified : r'.done_pending ≡ is_some r.end_req_pending
  pub serves : r'.transaction_in_progress ≡ r.end_req_pending
  pub none_waits : r'.end_req_pending ≡ none
  pub sent : (a ≡ waiting r.end_req_pending) × (b ≡ [])

pub end_resp_ends :
    (t : ℕ) (r : TxnRouter) {r' : TxnRouter} {a b : List ℕ}
    → Inv r
    → peq_cb t end_resp from_port r ≡ ok r'
    → IsBackward r r' a b
    → IsEnded r r' a b
unfolding peq_cb
end_resp_ends t r {r'} v e f = record {
  quiet = ground (arith, e, v.no_next);
  was_done = ground (arith, e, v.unanswered);
  notified = ground (arith, e, v.no_next, v.unanswered);
  serves = ground (arith, e, v.no_next);
  none_waits = ground (arith, e, v.no_next);
  sent =
      backward_lem (waiting r.end_req_pending) [] f
        (ground (arith, e, v.no_next, append-nil (accepted_requests r.calls)))
        (ground (arith, e, v.no_next, append-nil (sent_responses r.calls)));
}
