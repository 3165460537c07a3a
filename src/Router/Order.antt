-- ===== src/Router/Order.antt =====
-- include/txn_router.h: the order in which requests come, are taken and are executed.
use mathlib.Core.List.{append-nil}
use gem5_wrapper.Prelude.{
  ℕ, ◌≡◌, ◌⊎◌, refl, sym, ap, ◌∙◌, inl, inr, Bool, true, false, Option, none, some, List, [], ◌∷◌,
  ◌++◌, arith, ok, Option-cases,
}
use gem5_wrapper.Tlm.{end_req, end_resp, Phase}
use gem5_wrapper.Router.{
  TxnRouter, Answer, Call, acquire, mem_transport, transport_bw, done_notify, new, peq_cb,
  execute_transaction_process,
}
use gem5_wrapper.Router.Invariant.{Inv}
use gem5_wrapper.Router.References.{
  Step, requested, answered, woken, Reach, fresh, later, Reach-invariant,
}

-- The transactions whose BEGIN_REQ came, those whose END_REQ was sent, and those that were executed
-- on the memory, the oldest first.
abbrev pub received : List Call → List ℕ
received [] = []
received (acquire t ∷ l) = received l ++ t ∷ []
received (_ ∷ l) = received l

abbrev of_phase : Phase → ℕ → List ℕ
of_phase end_req t = t ∷ []
of_phase _ t = []

abbrev pub accepted_requests : List Call → List ℕ
accepted_requests [] = []
accepted_requests (transport_bw t phase ∷ l) = accepted_requests l ++ of_phase phase t
accepted_requests (_ ∷ l) = accepted_requests l

abbrev pub executed : List Call → List ℕ
executed [] = []
executed (mem_transport t ∷ l) = executed l ++ t ∷ []
executed (_ ∷ l) = executed l

abbrev pub waiting : Option ℕ → List ℕ
waiting none = []
waiting (some t) = t ∷ []

-- The transaction that the process was notified of.
abbrev pub in_work : Bool → Option ℕ → List ℕ
in_work true o = waiting o
in_work false o = []

pub record IsInOrder (s : TxnRouter) : Type 0 where
  pub all_accepted : received s.calls ≡ accepted_requests s.calls ++ waiting s.end_req_pending
  pub all_executed :
      accepted_requests s.calls
      ≡ executed s.calls ++ in_work s.done_pending s.transaction_in_progress

-- END_RESP, with no request waiting and with one.
record IsAlone (s s' : TxnRouter) : Type 0 where
  none_waits : s.end_req_pending ≡ none
  still_none : s'.end_req_pending ≡ none
  same_calls : s'.calls ≡ s.calls
  was_idle : s.done_pending ≡ false
  still_idle : s'.done_pending ≡ false

record IsTaken (s s' : TxnRouter) (w : ℕ) : Type 0 where
  waits : s.end_req_pending ≡ some w
  none_waits : s'.end_req_pending ≡ none
  more_calls : s'.calls ≡ done_notify ∷ transport_bw w end_req ∷ s.calls
  was_idle : s.done_pending ≡ false
  notified : s'.done_pending ≡ true
  in_progress : s'.transaction_in_progress ≡ some w

end_resp_cases :
    (t : ℕ) (a : Answer) (s : TxnRouter) {s' : TxnRouter}
    → Inv s
    → peq_cb t end_resp a s ≡ ok s'
    → IsAlone s s' ⊎ ((w : ℕ) × IsTaken s s' w)
unfolding peq_cb
end_resp_cases t a s {s'} v e = elim (Option-cases s.end_req_pending) [
  | inl n ↦ inl (record {
    none_waits = n;
    still_none = ground (arith, e, n, v.no_next);
    same_calls = ground (arith, e, n, v.no_next);
    was_idle = ground (arith, e, v.unanswered);
    still_idle = ground (arith, e, n, v.no_next, v.unanswered);
  })
  | inr (w, n) ↦ inr (
    w,
    record {
      waits = n;
      none_waits = ground (arith, e, n, v.no_next);
      more_calls = ground (arith, e, n, v.no_next);
      was_idle = ground (arith, e, v.unanswered);
      notified = ground (arith, e, n, v.no_next);
      in_progress = ground (arith, e, n, v.no_next);
    },
  )
]

Step-accepted :
    {s s' : TxnRouter}
    → Inv s
    → received s.calls ≡ accepted_requests s.calls ++ waiting s.end_req_pending
    → Step s s'
    → received s'.calls ≡ accepted_requests s'.calls ++ waiting s'.end_req_pending
unfolding peq_cb execute_transaction_process
Step-accepted {s} v i (requested t a p e) = ground (
  arith,
  append-nil (accepted_requests s.calls),
  append-nil (accepted_requests s.calls ++ t ∷ []),
)
Step-accepted {s} v i (answered t a e) = elim (end_resp_cases t a s v e) [
  | inl c ↦ rw (c.same_calls, c.still_none) (rw c.none_waits at i)
  | inr (w, c) ↦
      rw (c.more_calls, c.none_waits)
        (rw c.waits at i ∙ sym (append-nil (accepted_requests s.calls ++ w ∷ [])))
]
Step-accepted {s} v i (woken a d e) =
    ground (arith, v.unanswered d, append-nil (accepted_requests s.calls))

Step-executed :
    {s s' : TxnRouter}
    → Inv s
    → accepted_requests s.calls
      ≡ executed s.calls ++ in_work s.done_pending s.transaction_in_progress
    → Step s s'
    → accepted_requests s'.calls
      ≡ executed s'.calls ++ in_work s'.done_pending s'.transaction_in_progress
unfolding peq_cb execute_transaction_process
Step-executed {s} v i (requested t a p e) =
    ground
      (arith, v.executing, append-nil (accepted_requests s.calls), append-nil (executed s.calls))
Step-executed {s} v i (answered t a e) = elim (end_resp_cases t a s v e) [
  | inl c ↦ rw (c.same_calls, c.still_idle) (rw c.was_idle at i)
  | inr (w, c) ↦
      rw (c.more_calls, c.notified, c.in_progress)
        (ap (λ (l : List ℕ). l ++ w ∷ []) (rw c.was_idle at i ∙ append-nil (executed s.calls)))
]
Step-executed {s} v i (woken a d e) =
    ground
      (arith, v.unanswered d, append-nil (accepted_requests s.calls), append-nil (executed s.calls))

-- However an initiator that keeps the exclusion rule drives the router, the requests that came are
-- those that got their END_REQ, in that order, and then the one that waits; and those that got
-- their END_REQ are those that were executed on the memory, in that order, and then the one that
-- the process was notified of. So none is lost, none is executed twice, and none overtakes another.
pub Reach-IsInOrder : {start size : ℕ} {s : TxnRouter} → Reach start size s → IsInOrder s
unfolding new
Reach-IsInOrder fresh = record { all_accepted = refl; all_executed = refl }
Reach-IsInOrder (later r st) =
    let i = Reach-IsInOrder r in
    let v = Reach-invariant r in
    record {
      all_accepted = Step-accepted v i.all_accepted st;
      all_executed = Step-executed v i.all_executed st;
    }
