-- ===== src/Router.antt =====
-- include/txn_router.h: the router between a core's socket and the memory or the bus. A transaction
-- is a number, `none` a null pointer. What the router calls outside itself (its sockets, its payload
-- event queue, its event, the reference count of a payload) is written down, newest first, in
-- `calls`; what the callee answers is an argument.
pub mod Address
pub mod Invariant
pub mod Server
pub mod Contract
pub mod Responses
pub mod Waiting
pub mod References
pub mod Order
pub mod Tests
use gem5_wrapper.Prelude.{
  ℕ, ◌+◌, ◌%◌, ◌^◌, Bool, true, false, not, Option, none, some, List, [], ◌∷◌, leb, ltb,
  if◌then◌else◌, is_some, Outcome, ok, stop, check, need, ◌>>=◌, ◌>>◌, assertion, sc_fatal,
  bad_access,
}
use gem5_wrapper.Tlm.{
  Phase, begin_req, end_req, begin_resp, end_resp, other, Sync, accepted, updated, completed,
}

pub data Call : Type 0 where
  acquire : ℕ → Call
  release : ℕ → Call
  transport_bw : ℕ → Phase → Call  -- `tsock->nb_transport_bw`
  peq_notify : ℕ → Phase → Call  -- `m_peq.notify`
  done_notify : Call  -- `target_done_event.notify`
  mem_transport : ℕ → Call  -- `isock_mem->b_transport`
  bus_transport : ℕ → Call  -- `isock_bus->b_transport`
  bus_debug : ℕ → Call  -- `isock_bus->transport_dbg`
  set_ok_response : ℕ → Call

-- `done_pending`: the event `target_done_event` is notified and the process has not yet woken up.
pub record TxnRouter : Type 0 where
  pub mem_start_addr : ℕ  -- uint64_t
  pub mem_size : ℕ  -- uint64_t
  pub transaction_in_progress : Option ℕ
  pub response_in_progress : Bool
  pub next_response_pending : Option ℕ
  pub end_req_pending : Option ℕ
  pub done_pending : Bool
  pub calls : List Call

unfoldable pub new : ℕ → ℕ → TxnRouter
new mem_start_addr mem_size = record {
  mem_start_addr = mem_start_addr;
  mem_size = mem_size;
  transaction_in_progress = none;
  response_in_progress = false;
  next_response_pending = none;
  end_req_pending = none;
  done_pending = false;
  calls = [];
}

abbrev emit : Call → TxnRouter → TxnRouter
emit c s = record s { calls = c ∷ s.calls }

-- `mem_start_addr + mem_size` is a sum of two uint64_t.
unfoldable pub to_mem : TxnRouter → ℕ → Bool
to_mem s addr =
    if ltb addr s.mem_start_addr
    then false
    else if leb ((s.mem_start_addr + s.mem_size) % 2 ^ 64) addr
    then false
    else true

unfoldable pub b_transport : ℕ → ℕ → TxnRouter → TxnRouter
unfolding to_mem
b_transport trans addr s =
    if to_mem s addr
    then emit (set_ok_response trans) (emit (mem_transport trans) s)
    else emit (bus_transport trans) s

-- `bytes` is what the bus answers.
unfoldable pub transport_dbg : ℕ → ℕ → ℕ → TxnRouter → Outcome (TxnRouter × ℕ)
unfolding to_mem
transport_dbg trans addr bytes s =
    if to_mem s addr then ok (emit (bus_debug trans) s, bytes) else stop sc_fatal

unfoldable pub nb_transport_fw : ℕ → ℕ → Phase → TxnRouter → Outcome (TxnRouter × Sync)
unfolding to_mem
nb_transport_fw trans addr phase s =
    if to_mem s addr then ok (emit (peq_notify trans phase) s, accepted) else stop sc_fatal

-- What the initiator answers to `nb_transport_bw`: the status and the phase as it left it.
pub record Answer : Type 0 where
  pub status : Sync
  pub phase : Phase

-- The `if` on the status that `nb_transport_bw` returned.
abbrev on_status : ℕ → Sync → Phase → TxnRouter → TxnRouter
on_status trans updated phase s = emit (peq_notify trans phase) s
on_status trans completed phase s = record s {
  transaction_in_progress = none;
  response_in_progress = false;
}
on_status trans accepted phase s = s

unfoldable pub send_response : ℕ → Answer → TxnRouter → TxnRouter
send_response trans a s =
    let begun = emit (transport_bw trans begin_resp) (record s { response_in_progress = true }) in
    emit (release trans) (on_status trans a.status a.phase begun)

-- The status of `nb_transport_bw` is not read here.
unfoldable pub send_end_req : ℕ → TxnRouter → Outcome TxnRouter
send_end_req trans s = do
  let told = emit done_notify (emit (transport_bw trans end_req) s)
  check (not (is_some s.transaction_in_progress)) assertion
  ok (record told { transaction_in_progress = some trans; done_pending = true })

-- The two `if`s at the end of the END_RESP branch.
abbrev send_next_response : Option ℕ → Answer → TxnRouter → TxnRouter
send_next_response none a s = s
send_next_response (some trans) a s = record (send_response trans a s) {
  next_response_pending = none;
}

abbrev send_pending_end_req : Option ℕ → TxnRouter → Outcome TxnRouter
send_pending_end_req none s = ok s
send_pending_end_req (some trans) s = do
  s' ← send_end_req trans s
  ok (record s' { end_req_pending = none })

-- `a` answers the BEGIN_RESP that the END_RESP branch may send.
unfoldable pub peq_cb : ℕ → Phase → Answer → TxnRouter → Outcome TxnRouter
unfolding send_response send_end_req
peq_cb trans begin_req a s =
    let held = emit (acquire trans) s in
    if not (is_some s.transaction_in_progress)
    then send_end_req trans held
    else ok (record held { end_req_pending = some trans })
peq_cb trans end_resp a s = do
  check s.response_in_progress sc_fatal
  let free = record s { transaction_in_progress = none; response_in_progress = false }
  let s' = send_next_response s.next_response_pending a free
  send_pending_end_req s'.end_req_pending s'
peq_cb trans end_req a s = stop sc_fatal
peq_cb trans begin_resp a s = stop sc_fatal
peq_cb trans other a s = stop sc_fatal

-- What comes back on the memory's or the bus' socket is accepted, and nothing is done with it.
unfoldable pub nb_transport_bw_resp : ℕ → Phase → TxnRouter → TxnRouter × Sync
nb_transport_bw_resp trans phase s = (s, accepted)

unfoldable pub execute_transaction : ℕ → TxnRouter → TxnRouter
execute_transaction trans s = emit (set_ok_response trans) (emit (mem_transport trans) s)

-- One round of the endless loop, from the wake-up by the event on, with a memory whose `b_transport`
-- does not wait; `Waiting` has the round in two parts, before and after the return of that call.
unfoldable pub execute_transaction_process : Answer → TxnRouter → Outcome TxnRouter
unfolding execute_transaction send_response
execute_transaction_process a s = do
  trans ← need s.transaction_in_progress bad_access
  let s' = execute_transaction trans (record s { done_pending = false })
  if s.response_in_progress
      then check (not (is_some s.next_response_pending)) sc_fatal
        >> ok (record s' { next_response_pending = s.transaction_in_progress })
      else ok (send_response trans a s')
