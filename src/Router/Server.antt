-- ===== src/Router/Server.antt =====
-- include/txn_router.h as a server of one transaction at a time, with room for one request that
-- waits.
use gem5_wrapper.Prelude.{
  ℕ, ◌≡◌, refl, Bool, true, false, Option, none, some, ◌∷◌, arith, ok, stop, sc_fatal,
}
use gem5_wrapper.Tlm.{begin_req, end_req, end_resp, accepted, completed}
use gem5_wrapper.Router.{
  TxnRouter, Answer, transport_bw, done_notify, peq_cb, execute_transaction_process,
}
use gem5_wrapper.Router.Invariant.{Inv}

pub data Server : Type 0 where
  idle : Server
  serving : ℕ → Option ℕ → Server
  responding : ℕ → Option ℕ → Server

-- What is served, and which request waits for its END_REQ.
abbrev busy_server : Bool → ℕ → Option ℕ → Server
busy_server true t w = responding t w
busy_server false t w = serving t w

abbrev server : Option ℕ → Bool → Option ℕ → Server
server none r w = idle
server (some t) r w = busy_server r t w

abbrev pub view : TxnRouter → Server
view s = server s.transaction_in_progress s.response_in_progress s.end_req_pending

-- A router that serves nothing leaves no request waiting. This is what COMPLETED breaks.
abbrev pub IsServed : TxnRouter → Type 0
IsServed s = s.transaction_in_progress ≡ none → s.end_req_pending ≡ none

-- The callbacks leave no request waiting at an idle router.
pub begin_req-IsServed :
    (t : ℕ) (a : Answer) (s : TxnRouter) {s' : TxnRouter}
    → IsServed s
    → peq_cb t begin_req a s ≡ ok s'
    → IsServed s'
unfolding peq_cb
begin_req-IsServed t a s w e = ground arith

pub end_resp-IsServed :
    (t : ℕ) (a : Answer) (s : TxnRouter) {s' : TxnRouter}
    → Inv s
    → IsServed s
    → peq_cb t end_resp a s ≡ ok s'
    → IsServed s'
unfolding peq_cb
end_resp-IsServed t a s v w e = ground arith

-- So does the process, where the initiator accepts BEGIN_RESP.
pub process-IsServed :
    (a : Answer) (s : TxnRouter) {s' : TxnRouter}
    → Inv s
    → IsServed s
    → s.done_pending ≡ true
    → a.status ≡ accepted
    → execute_transaction_process a s ≡ ok s'
    → IsServed s'
unfolding execute_transaction_process
process-IsServed a s v w d c e = ground arith

-- At END_RESP a request that waits is answered: END_REQ is the last call on its socket, it is the
-- transaction in progress, and its execution is scheduled.
pub end_resp_serves :
    (t w : ℕ) (a : Answer) (s : TxnRouter)
    → Inv s
    → s.response_in_progress ≡ true
    → s.end_req_pending ≡ some w
    → (s' : TxnRouter) × (peq_cb t end_resp a s ≡ ok s')
      × (s'.transaction_in_progress ≡ some w)
      × (s'.end_req_pending ≡ none)
      × (s'.done_pending ≡ true)
      × (s'.calls ≡ done_notify ∷ transport_bw w end_req ∷ s.calls)
unfolding peq_cb
end_resp_serves t w a s v r p = rw (r, p, v.no_next) (_, refl, refl, refl, refl, refl)

-- An initiator that ends a transaction at once, by TLM_COMPLETED in answer to BEGIN_RESP, strands
-- the request that waits: the router is idle, the request still waits without END_REQ, its
-- execution is not scheduled, and an END_RESP is an error. Only another BEGIN_REQ would be taken.
pub completed-strands :
    (a : Answer) (s : TxnRouter) {s' : TxnRouter} (w : ℕ)
    → Inv s
    → s.done_pending ≡ true
    → a.status ≡ completed
    → s.end_req_pending ≡ some w
    → execute_transaction_process a s ≡ ok s'
    → (s'.transaction_in_progress ≡ none)
      × (s'.end_req_pending ≡ some w)
      × (s'.done_pending ≡ false)
      × ((t : ℕ) (b : Answer) → peq_cb t end_resp b s' ≡ stop sc_fatal)
unfolding execute_transaction_process peq_cb
completed-strands a s w v d c p e = (ground arith, ground arith, ground arith, λ t b. ground arith)
