-- ===== src/Link/Served.antt =====
-- include/txn_router.h: the router's part in one transaction.
use gem5_wrapper.Prelude.{ℕ, ◌≡◌, true, false, none, some, ◌∷◌, arith, ok}
use gem5_wrapper.Router.{
  TxnRouter, acquire, release, transport_bw, peq_notify, done_notify, mem_transport,
  set_ok_response, to_mem, nb_transport_fw, peq_cb, execute_transaction_process,
}
use gem5_wrapper.Tlm.{begin_req, end_req, begin_resp, end_resp}
use gem5_wrapper.Link.{from_port, begin_request, end_response}

-- A router that serves nothing and where nothing waits.
pub record IsIdle (r : TxnRouter) : Type 0 where
  pub free : r.transaction_in_progress ≡ none
  pub quiet : r.response_in_progress ≡ false
  pub no_next : r.next_response_pending ≡ none
  pub none_waits : r.end_req_pending ≡ none
  pub asleep : r.done_pending ≡ false

-- The router while it executes a transaction, and while it responds.
abbrev pub executing : ℕ → TxnRouter → TxnRouter
executing t r = record r {
  transaction_in_progress = some t;
  done_pending = true;
  calls = done_notify ∷ transport_bw t end_req ∷ acquire t ∷ peq_notify t begin_req ∷ r.calls;
}

abbrev pub responding : ℕ → TxnRouter → TxnRouter
responding t r = record (executing t r) {
  response_in_progress = true;
  done_pending = false;
  calls =
      release t
      ∷ transport_bw t begin_resp
      ∷ set_ok_response t
      ∷ mem_transport t
      ∷ (executing t r).calls;
}

abbrev pub served : ℕ → TxnRouter → TxnRouter
served t r = record r { calls = peq_notify t end_resp ∷ (responding t r).calls }

pub begin_request-executing :
    (t addr : ℕ) (r : TxnRouter)
    → IsIdle r
    → to_mem r addr ≡ true
    → begin_request t addr r ≡ ok (executing t r)
unfolding begin_request nb_transport_fw peq_cb
begin_request-executing t addr r i m = rw m (ground (arith, i.free))

pub process-responding :
    (t : ℕ) (r : TxnRouter)
    → IsIdle r
    → execute_transaction_process from_port (executing t r) ≡ ok (responding t r)
unfolding execute_transaction_process
process-responding t r i = ground (arith, i.quiet, i.no_next)

pub end_response-served :
    (t addr : ℕ) (r : TxnRouter)
    → IsIdle r
    → to_mem r addr ≡ true
    → end_response t addr (responding t r) ≡ ok (served t r)
unfolding end_response nb_transport_fw peq_cb
end_response-served t addr r i m =
    rw m (ground (arith, i.free, i.quiet, i.no_next, i.none_waits, i.asleep))
