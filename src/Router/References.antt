-- ===== src/Router/References.antt =====
-- include/txn_router.h: the references that the router takes on a transaction and gives back, as
-- its calls of `acquire` and `release` show.
use gem5_wrapper.Prelude.{
  ℕ, ◌+◌, ◌≡◌, Bool, true, false, Option, none, some, List, [], ◌∷◌, arith, ◌==◌, ok,
}
use gem5_wrapper.Tlm.{begin_req, end_resp}
use gem5_wrapper.Router.{
  TxnRouter, Answer, Call, acquire, release, new, peq_cb, execute_transaction_process,
}
use gem5_wrapper.Router.Invariant.{Inv, new-Inv, peq_cb-Inv, process-Inv}

abbrev pub one_if : Bool → ℕ
one_if true = 1
one_if false = 0

abbrev pub acquires : ℕ → List Call → ℕ
acquires t [] = 0
acquires t (acquire u ∷ l) = one_if (u == t) + acquires t l
acquires t (_ ∷ l) = acquires t l

abbrev pub releases : ℕ → List Call → ℕ
releases t [] = 0
releases t (release u ∷ l) = one_if (u == t) + releases t l
releases t (_ ∷ l) = releases t l

abbrev points_to : Option ℕ → ℕ → ℕ
points_to none t = 0
points_to (some u) t = one_if (u == t)

-- The transaction that is not yet responded to is held once, and so is the one that waits.
abbrev unanswered : Bool → Option ℕ → ℕ → ℕ
unanswered true o t = 0
unanswered false o t = points_to o t

abbrev pub IsBalanced : TxnRouter → ℕ → Type 0
IsBalanced s t =
    acquires t s.calls
    ≡ releases t s.calls
      + unanswered s.response_in_progress s.transaction_in_progress t
      + points_to s.end_req_pending t

-- An initiator that keeps the exclusion rule sends no BEGIN_REQ while another one waits for its
-- END_REQ.
pub data Step (s : TxnRouter) : TxnRouter → Type 0 where
  requested :
      (t : ℕ) (a : Answer) {s' : TxnRouter}
      → s.end_req_pending ≡ none
      → peq_cb t begin_req a s ≡ ok s'
      → Step s s'
  answered : (t : ℕ) (a : Answer) {s' : TxnRouter} → peq_cb t end_resp a s ≡ ok s' → Step s s'
  woken :
      (a : Answer) {s' : TxnRouter}
      → s.done_pending ≡ true
      → execute_transaction_process a s ≡ ok s'
      → Step s s'

pub data Reach (start size : ℕ) : TxnRouter → Type 0 where
  fresh : Reach start size (new start size)
  later : {s s' : TxnRouter} → Reach start size s → Step s s' → Reach start size s'

Step-invariant : {s s' : TxnRouter} → Inv s → Step s s' → Inv s'
Step-invariant {s} v (requested t a p e) = peq_cb-Inv t begin_req a s v e
Step-invariant {s} v (answered t a e) = peq_cb-Inv t end_resp a s v e
Step-invariant {s} v (woken a d e) = process-Inv a s v d e

pub Reach-invariant : {start size : ℕ} {s : TxnRouter} → Reach start size s → Inv s
Reach-invariant {start} {size} fresh = new-Inv start size
Reach-invariant (later r st) = Step-invariant (Reach-invariant r) st

Step-IsBalanced : {s s' : TxnRouter} (t : ℕ) → Inv s → IsBalanced s t → Step s s' → IsBalanced s' t
unfolding peq_cb execute_transaction_process
Step-IsBalanced {s} t v b (requested u a p e) = ground arith
Step-IsBalanced {s} t v b (answered u a e) = ground arith
Step-IsBalanced {s} t v b (woken a d e) = ground arith

-- In every state that an initiator that keeps the exclusion rule can bring about, the router has
-- released each transaction as often as it acquired it, but for the one that it has not responded
-- to and the one that waits: it holds one reference for each.
pub references-IsBalanced :
    {start size : ℕ} {s : TxnRouter} (t : ℕ) → Reach start size s → IsBalanced s t
unfolding new
references-IsBalanced t fresh = omega arith
references-IsBalanced t (later r st) =
    Step-IsBalanced t (Reach-invariant r) (references-IsBalanced t r) st
