-- ===== src/Router/Waiting.antt =====
-- include/txn_router.h, the process: a memory that waits inside `b_transport`, so that the queue's
-- callback runs before the call returns. The round is cut in two at that call.
use gem5_wrapper.Prelude.{
  ℕ, ◌≡◌, refl, inl, inr, true, false, not, some, [], arith, if◌then◌else◌, is_some, Outcome, ok,
  stop, check, need, ◌>>=◌, ◌>>◌, bad_access, sc_fatal, Option-cases,
}
use mathlib.Core.Bool.{false≢true}
use gem5_wrapper.Tlm.{begin_req, end_resp, accepted}
use gem5_wrapper.Router.{
  TxnRouter, Answer, mem_transport, set_ok_response, emit, send_response, peq_cb,
  execute_transaction_process,
}
use gem5_wrapper.Router.Invariant.{Inv}
use gem5_wrapper.Router.Contract.{events}

-- From the wake-up to the call of the memory, with the transaction that the memory is given.
unfoldable pub begin_execution : TxnRouter → Outcome (TxnRouter × ℕ)
begin_execution s = do
  trans ← need s.transaction_in_progress bad_access
  ok (emit (mem_transport trans) (record s { done_pending = false }), trans)

-- From the return of that call to the end of the round. The transaction in progress is read again.
unfoldable pub end_execution : Answer → ℕ → TxnRouter → Outcome TxnRouter
unfolding send_response
end_execution a trans s = do
  let s' = emit (set_ok_response trans) s
  next ← need s'.transaction_in_progress bad_access
  if s'.response_in_progress
      then check (not (is_some s'.next_response_pending)) sc_fatal
        >> ok (record s' { next_response_pending = some next })
      else ok (send_response next a s')

-- The process is woken at a router that satisfies its invariant, and the initiator accepts
-- BEGIN_RESP. If nothing happens while the memory waits, the two parts are the round of the process.
-- A BEGIN_REQ that is served while the memory waits leaves the router as one that is served after the
-- round, and the same is seen from outside: only the order of `acquire` among the calls differs. And
-- an END_RESP while the memory waits is a reported fatal error.
pub process-interleaved :
    (t r : ℕ) (a b : Answer) (s : TxnRouter)
    → Inv s
    → s.done_pending ≡ true
    → a.status ≡ accepted
    → (execute_transaction_process a s ≡ (begin_execution s >>= λ u. end_execution a u.1 u.0))
      × ((s' : TxnRouter) × (s'' : TxnRouter) × ((begin_execution s >>= λ u.
              peq_cb t begin_req b u.0 >>= end_execution a u.1)
            ≡ ok s')
          × ((execute_transaction_process a s >>= peq_cb t begin_req b) ≡ ok s'')
          × (◌≡◌ {A = TxnRouter} (record s' { calls = [] }) (record s'' { calls = [] }))
          × (events s'.calls ≡ events s''.calls))
      × ((begin_execution s >>= λ u. peq_cb r end_resp b u.0) ≡ stop sc_fatal)
unfolding execute_transaction_process begin_execution end_execution peq_cb
process-interleaved t r a b s v d c = elim (Option-cases s.transaction_in_progress) [
  | inl e ↦ absurd (false≢true (ground (arith, e, v.executing d)))
  | inr (u, e) ↦ rw (e, v.unanswered d, c) (refl, (_, _, refl, refl, refl, refl), refl)
]
