-- ===== src/Link.antt =====
-- src/sc_slave_port.cc and include/txn_router.h together: a socket of the slave port that is bound
-- to a router. Here and in Transaction what one of them sends is delivered to the other in an order
-- in which nothing else happens to the two; from Wire on, in any order.
pub mod Served
pub mod Answered
pub mod Transaction
pub mod Sent
pub mod Wire
pub mod Requested
pub mod Ended
pub mod Resend
pub mod Places
pub mod Linked
pub mod Routed
pub mod Delivered
pub mod Opened
pub mod Ported
pub mod Elsewhere
pub mod Aside
pub mod Told
pub mod Conserved
pub mod Service
pub mod Meanwhile
pub mod Runs
pub mod Drained
pub mod Ordered
pub mod Connection
pub mod WireTests
pub mod Tests
use gem5_wrapper.Prelude.{ℕ, true, Outcome, ok, ◌>>=◌}
use gem5_wrapper.Tlm.{begin_req, end_req, begin_resp, end_resp, accepted}
use gem5_wrapper.MemoryManager.{allocate}
use gem5_wrapper.SlavePort.State.{Packet, ScSlavePort}
use gem5_wrapper.SlavePort.Request.{recv_timing_req}
use gem5_wrapper.SlavePort.Request
use gem5_wrapper.SlavePort.Event.{nb_transport_bw, pec}
use gem5_wrapper.SlavePort.Event
use gem5_wrapper.Router.{TxnRouter, nb_transport_fw, execute_transaction_process}
use gem5_wrapper.Router

pub record Link : Type 0 where
  pub port : ScSlavePort
  pub router : TxnRouter

-- The router's answer to BEGIN_REQ, which is TLM_ACCEPTED or a stop; and the port's to BEGIN_RESP.
abbrev pub accepting : ℕ → Request.Answer
accepting fresh = record {
  caught_up = true;
  fresh = fresh;
  status = accepted;
  phase = begin_req;
  delay = 0;
}

abbrev pub from_port : Router.Answer
from_port = record { status = accepted; phase = begin_resp }

-- The router's part in a transaction, at the address `addr`.
unfoldable pub begin_request : (trans addr : ℕ) → TxnRouter → Outcome TxnRouter
unfolding nb_transport_fw Router.peq_cb
begin_request trans addr r = do
  (r', status) ← nb_transport_fw trans addr begin_req r
  Router.peq_cb trans begin_req from_port r'

unfoldable pub end_response : (trans addr : ℕ) → TxnRouter → Outcome TxnRouter
unfolding nb_transport_fw Router.peq_cb
end_response trans addr r = do
  (r', status) ← nb_transport_fw trans addr end_resp r
  Router.peq_cb trans end_resp from_port r'

-- The life of a transaction: gem5's request goes to the router, which answers END_REQ and executes
-- it; its BEGIN_RESP brings gem5 the response, and END_RESP goes back. `fresh` is the address of a
-- new payload, and `e` what gem5 contributes to the port's two events.
unfoldable pub transact : Packet → ℕ → Event.Answer → Link → Outcome Link
unfolding recv_timing_req begin_request nb_transport_bw pec execute_transaction_process end_response
transact p fresh e l = do
  let trans = (allocate fresh l.port.mm).0
  (s1, sent) ← recv_timing_req p (accepting fresh) l.port
  r1 ← begin_request trans p.addr l.router
  s2 ← pec trans end_req e (nb_transport_bw trans end_req 0 s1).0
  r2 ← execute_transaction_process from_port r1
  s3 ← pec trans begin_resp e (nb_transport_bw trans begin_resp 0 s2).0
  r3 ← end_response trans p.addr r2
  ok (record { port = s3; router = r3 })
