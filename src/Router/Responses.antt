-- ===== src/Router/Responses.antt =====
-- include/txn_router.h: the order of execution and response, however the router is driven.
use mathlib.Core.List.{append-nil}
use gem5_wrapper.Prelude.{ℕ, ◌≡◌, refl, none, List, [], ◌∷◌, ◌++◌, arith}
use gem5_wrapper.Tlm.{Phase, begin_req, begin_resp, end_resp}
use gem5_wrapper.Router.{TxnRouter, Call, transport_bw, new, peq_cb, execute_transaction_process}
use gem5_wrapper.Router.Invariant.{Inv, Step, delivered, woken, Reach, fresh, later, Reach-Inv}
use gem5_wrapper.Router.Order.{accepted_requests, executed, in_work}

abbrev of_response : Phase → ℕ → List ℕ
of_response begin_resp t = t ∷ []
of_response _ t = []

-- The transactions whose BEGIN_RESP was sent, the oldest first.
abbrev pub responses : List Call → List ℕ
responses [] = []
responses (transport_bw t phase ∷ l) = responses l ++ of_response phase t
responses (_ ∷ l) = responses l

-- When BEGIN_RESP is sent for a transaction, those that were executed are those that were responded
-- to before, and then this one.
abbrev IsDue : Phase → ℕ → List Call → Type 0
IsDue begin_resp t l = executed l ≡ responses l ++ t ∷ []
IsDue _ t l = Unit {0}

abbrev pub IsExecutedFirst : List Call → Type 0
IsExecutedFirst [] = Unit {0}
IsExecutedFirst (transport_bw t phase ∷ l) = IsDue phase t l × IsExecutedFirst l
IsExecutedFirst (_ ∷ l) = IsExecutedFirst l

-- What the router has done between two of its callbacks.
pub record IsServing (s : TxnRouter) : Type 0 where
  pub no_next : s.next_response_pending ≡ none
  pub executed_first : IsExecutedFirst s.calls
  pub all_responded : executed s.calls ≡ responses s.calls
  pub one_in_work :
      accepted_requests s.calls
      ≡ responses s.calls ++ in_work s.done_pending s.transaction_in_progress

Step-IsServing : {s s' : TxnRouter} → Inv s → IsServing s → Step s s' → IsServing s'
unfolding peq_cb execute_transaction_process
Step-IsServing {s} v i (delivered t begin_req a e) = record {
  no_next = ground (arith, v.no_next);
  executed_first = ground (arith, i.executed_first);
  all_responded = ground (arith, i.all_responded, append-nil (responses s.calls));
  one_in_work = ground (
    arith,
    i.one_in_work,
    v.executing,
    append-nil (responses s.calls),
    append-nil (accepted_requests s.calls),
  );
}
Step-IsServing {s} v i (delivered t end_resp a e) = record {
  no_next = ground (arith, v.no_next);
  executed_first = ground (arith, i.executed_first, v.no_next);
  all_responded = ground (arith, i.all_responded, v.no_next, append-nil (responses s.calls));
  one_in_work = ground (
    arith,
    i.one_in_work,
    v.unanswered,
    v.no_next,
    append-nil (responses s.calls),
    append-nil (accepted_requests s.calls),
  );
}
Step-IsServing v i (delivered t _ a e) = cc
Step-IsServing {s} v i (woken a d e) = record {
  no_next = ground (arith, v.no_next, v.unanswered d);
  executed_first = ground (arith, i.executed_first, i.all_responded, v.unanswered d);
  all_responded = ground (arith, i.all_responded, v.unanswered d, append-nil (responses s.calls));
  one_in_work = ground (
    arith,
    i.one_in_work,
    v.unanswered d,
    append-nil (responses s.calls),
    append-nil (accepted_requests s.calls),
  );
}

-- In every state that a new router can come to through its queue and its process, whatever the
-- initiator sends and answers: when BEGIN_RESP was sent for a transaction, that one had just been
-- executed, and all that were executed before had been responded to; every transaction that was
-- executed has got its BEGIN_RESP, in the same order; those that got END_REQ are these and at most
-- one more, the one that the process is notified of; and no second response waits.
pub Reach-IsServing : {start size : ℕ} {s : TxnRouter} → Reach start size s → IsServing s
unfolding new
Reach-IsServing fresh = record {
  no_next = refl;
  executed_first = tt;
  all_responded = refl;
  one_in_work = refl;
}
Reach-IsServing (later r st) = Step-IsServing (Reach-Inv r) (Reach-IsServing r) st
