-- ===== src/Router/Invariant.antt =====
-- include/txn_router.h: what holds of the router between two of its callbacks.
use gem5_wrapper.Prelude.{
  ℕ, ◌≡◌, refl, ◌⊎◌, inl, inr, Bool, true, false, none, arith, is_some, ok, stop, sc_fatal,
  Option-cases, Bool-cases,
}
use gem5_wrapper.Tlm.{Phase, begin_req, end_req, begin_resp, end_resp, other}
use mathlib.Core.Bool.{false≢true}
use gem5_wrapper.Router.{TxnRouter, Answer, new, peq_cb, execute_transaction_process}

-- While a transaction is in progress, either the process is notified of it or a response is in
-- progress, and never both; and no second response waits.
pub record Inv (s : TxnRouter) : Type 0 where
  pub no_next : s.next_response_pending ≡ none
  pub executing : s.done_pending ≡ true → is_some s.transaction_in_progress ≡ true
  pub unanswered : s.done_pending ≡ true → s.response_in_progress ≡ false
  pub responding : s.response_in_progress ≡ true → is_some s.transaction_in_progress ≡ true
  pub busy :
      is_some s.transaction_in_progress ≡ true
      → (s.done_pending ≡ true) ⊎ (s.response_in_progress ≡ true)

pub new-Inv : (start size : ℕ) → Inv (new start size)
unfolding new
new-Inv start size = ground arith

pub peq_cb-Inv :
    (t : ℕ) (phase : Phase) (a : Answer) (s : TxnRouter) {s' : TxnRouter}
    → Inv s
    → peq_cb t phase a s ≡ ok s'
    → Inv s'
unfolding peq_cb
peq_cb-Inv t begin_req a s v e = ground arith
peq_cb-Inv t end_resp a s v e = ground arith
peq_cb-Inv t _ a s v e = cc

pub process-Inv :
    (a : Answer) (s : TxnRouter) {s' : TxnRouter}
    → Inv s
    → s.done_pending ≡ true
    → execute_transaction_process a s ≡ ok s'
    → Inv s'
unfolding execute_transaction_process
process-Inv a s v d e = ground arith

-- The phases that the queue delivers without a stop: BEGIN_REQ, and END_RESP while a response is
-- in progress.
abbrev pub legal : Phase → TxnRouter → Bool
legal begin_req s = true
legal end_resp s = s.response_in_progress
legal _ s = false

-- The queue's callback succeeds exactly on the legal phases; on any other it is a reported fatal
-- error. So the assertion in `send_end_req` never fails.
pub peq_cb_total :
    (t : ℕ) (phase : Phase) (a : Answer) (s : TxnRouter)
    → Inv s
    → ((legal phase s ≡ true) × ((s' : TxnRouter) × (peq_cb t phase a s ≡ ok s')))
      ⊎ ((legal phase s ≡ false) × (peq_cb t phase a s ≡ stop sc_fatal))
unfolding peq_cb
peq_cb_total t begin_req a s v = elim (Option-cases s.transaction_in_progress) [
  | inl e ↦ inl (refl, rw e (_, refl))
  | inr (u, e) ↦ inl (refl, rw e (_, refl))
]
peq_cb_total t end_resp a s v = elim (Bool-cases s.response_in_progress) [
  | inr e ↦ inr (e, rw e)
  | inl e ↦ elim (Option-cases s.end_req_pending) [
    | inl p ↦ inl (e, rw (e, v.no_next, p) (_, refl))
    | inr (w, p) ↦ inl (e, rw (e, v.no_next, p) (_, refl))
  ]
]
peq_cb_total t end_req a s v = inr (refl, refl)
peq_cb_total t begin_resp a s v = inr (refl, refl)
peq_cb_total t other a s v = inr (refl, refl)

-- The events that drive a router. The payload event queue delivers a transaction with a phase;
-- the event of the process fires only after it was notified.
pub data Step (s : TxnRouter) : TxnRouter → Type 0 where
  delivered :
      (t : ℕ) (phase : Phase) (a : Answer) {s' : TxnRouter} → peq_cb t phase a s ≡ ok s' → Step s s'
  woken :
      (a : Answer) {s' : TxnRouter}
      → s.done_pending ≡ true
      → execute_transaction_process a s ≡ ok s'
      → Step s s'

pub data Reach (start size : ℕ) : TxnRouter → Type 0 where
  fresh : Reach start size (new start size)
  later : {s s' : TxnRouter} → Reach start size s → Step s s' → Reach start size s'

Step-Inv : {s s' : TxnRouter} → Inv s → Step s s' → Inv s'
Step-Inv {s} v (delivered t phase a e) = peq_cb-Inv t phase a s v e
Step-Inv {s} v (woken a d e) = process-Inv a s v d e

-- The invariant holds in every state that a new router can come to, whatever the initiator sends and
-- answers.
pub Reach-Inv : {start size : ℕ} {s : TxnRouter} → Reach start size s → Inv s
Reach-Inv {start} {size} fresh = new-Inv start size
Reach-Inv (later r st) = Step-Inv (Reach-Inv r) st

-- Whenever the process wakes up in a reachable state, it finds a transaction and completes its
-- round: there is no read through a null pointer and no second pending response.
pub process_total :
    {start size : ℕ} {s : TxnRouter} (a : Answer)
    → Reach start size s
    → s.done_pending ≡ true
    → (s' : TxnRouter) × (execute_transaction_process a s ≡ ok s')
unfolding execute_transaction_process
process_total {s} a r d =
    let v = Reach-Inv r in
    elim (Option-cases s.transaction_in_progress) [
      | inl e ↦ absurd (false≢true (ground (arith, e)))
      | inr (t, e) ↦ rw (e, v.unanswered d) (_, refl)
    ]
