-- ===== src/Link/Ordered.antt =====
-- src/sc_slave_port.cc and include/txn_router.h together: the order in which the requests of a socket
-- are sent and executed.
use mathlib.Core.List.{append_assoc}
use gem5_wrapper.Prelude.{ℕ, ◌≡◌, refl, ap, ◌∙◌, List, [], ◌∷◌, ◌++◌, arith, ok}
use gem5_wrapper.Tlm.{begin_req, end_resp}
use gem5_wrapper.SlavePort.State.{ScSlavePort}
use gem5_wrapper.Router.{TxnRouter, new, peq_cb, execute_transaction_process}
use gem5_wrapper.Router.Invariant.{Inv}
use gem5_wrapper.Router.Order.{received, executed, waiting, in_work, Reach-IsInOrder}
use gem5_wrapper.Router.References.{Reach-invariant}
use gem5_wrapper.Link.{from_port}
use gem5_wrapper.Link.Wire.{
  Wire, IsForward, sent_requests, Step, requested_elsewhere, end_req_elsewhere,
  begin_resp_elsewhere, requested, begin_req_served, end_req_served, woken, begin_resp_served,
  responses_retried, end_resp_served, Reach, connected, later,
}
use gem5_wrapper.Link.Linked.{IsLinked}
use gem5_wrapper.Link.Conserved.{Reach-IsLinked}

-- What the port has sent, the router has received, or it is under way.
abbrev IsReceived : ℕ → Wire → Type 0
IsReceived c w = sent_requests c w.port.calls ≡ received w.router.calls ++ w.requests

received-begin_req :
    (t : ℕ) (r : TxnRouter) {r' : TxnRouter}
    → peq_cb t begin_req from_port r ≡ ok r'
    → received r'.calls ≡ received r.calls ++ t ∷ []
unfolding peq_cb
received-begin_req t r e = ground arith

received-end_resp :
    (t : ℕ) (r : TxnRouter) {r' : TxnRouter}
    → Inv r
    → peq_cb t end_resp from_port r ≡ ok r'
    → received r'.calls ≡ received r.calls
unfolding peq_cb
received-end_resp t r v e = ground (arith, v.no_next)

received-process :
    (r : TxnRouter) {r' : TxnRouter}
    → execute_transaction_process from_port r ≡ ok r'
    → received r'.calls ≡ received r.calls
unfolding execute_transaction_process
received-process r e = ground arith

-- A step of the port: what it sends is under way.
port_step :
    {c : ℕ} (w : Wire) {s : ScSlavePort} {a b : List ℕ}
    → IsReceived c w
    → IsForward c w.port s a b
    → sent_requests c s.calls ≡ received w.router.calls ++ (w.requests ++ a)
port_step w {a} h f =
    f.begun ∙ ap (λ (l : List ℕ). l ++ a) h ∙ append_assoc (received w.router.calls) w.requests a

Step-IsReceived :
    {c : ℕ} {start size : ℕ} {w w' : Wire}
    → IsLinked c start size w
    → IsReceived c w
    → Step c w w'
    → IsReceived c w'
Step-IsReceived {w} i h (requested p fresh q e f) = port_step w h f
Step-IsReceived {w} i h (end_req_served e at_t k d f) = port_step w h f
Step-IsReceived {w} i h (begin_resp_served e at_t n d f) = port_step w h f
Step-IsReceived {w} i h (responses_retried fuel e f) = port_step w h f
Step-IsReceived {w} i h (requested_elsewhere p q n k e f) = port_step w h f
Step-IsReceived {w} i h (end_req_elsewhere e t x at_t n k d f) = port_step w h f
Step-IsReceived {w} i h (begin_resp_elsewhere e t x at_t n k d f) = port_step w h f
Step-IsReceived {w} i h (begin_req_served {t} {rest} at_t e f) =
    h
    ∙ ground (
      arith,
      at_t,
      received-begin_req t w.router e,
      append_assoc (received w.router.calls) (t ∷ []) rest,
    )
Step-IsReceived {w} i h (woken d e f) = ground (arith, h, received-process w.router e)
Step-IsReceived {w} i h (end_resp_served {t} at_t e f) =
    ground (arith, h, received-end_resp t w.router (Reach-invariant i.reached) e)

Reach-IsReceived : {c : ℕ} {start size : ℕ} {w : Wire} → Reach c start size w → IsReceived c w
unfolding new
Reach-IsReceived (connected s n o p q) = rw n refl
Reach-IsReceived (later r st) = Step-IsReceived (Reach-IsLinked r) (Reach-IsReceived r) st

-- gem5 runs in timing mode, the port serves an END_REQ that is under way before a BEGIN_RESP, and no
-- payload is handed out that blocks a channel or that the router has in progress with no END_RESP
-- under way. However gem5, the two queues and the router's process then act on a socket and its
-- router, and the port serves its other sockets: the transactions whose BEGIN_REQ the port has sent through the socket
-- are those that the router has executed on the memory, in the same order, then the one that it is
-- about to execute, the one that waits in it, and the one whose BEGIN_REQ is under way. So none is
-- lost, executed twice or overtaken.
pub executes_in_order :
    {c : ℕ} {start size : ℕ} {w : Wire}
    → Reach c start size w
    → sent_requests c w.port.calls
      ≡ executed w.router.calls
        ++ in_work w.router.done_pending w.router.transaction_in_progress
        ++ waiting w.router.end_req_pending
        ++ w.requests
executes_in_order {w} r =
    let o = Reach-IsInOrder (Reach-IsLinked r).reached in
    Reach-IsReceived r
    ∙ ap (λ (l : List ℕ). l ++ w.requests)
        (o.all_accepted ∙ ap (λ (l : List ℕ). l ++ waiting w.router.end_req_pending) o.all_executed)
