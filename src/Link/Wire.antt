-- ===== src/Link/Wire.antt =====
-- src/sc_slave_port.cc and include/txn_router.h together: a socket of the slave port, its router,
-- and the phases that are under way between the two. gem5, the two queues of events and the
-- router's process act in any order, one at a time, and the port serves its other sockets too. gem5
-- runs in timing mode: no atomic access passes the socket.
use gem5_wrapper.Prelude.{
  ℕ, false, ◌<◌, ◌≤◌, ◌≡◌, ◌≢◌, Bool, true, Option, none, some, List, [], ◌∷◌, ◌++◌, ok,
}
use gem5_wrapper.Prelude.Map.{find}
use gem5_wrapper.Tlm.{begin_req, end_req, begin_resp, end_resp}
use gem5_wrapper.MemoryManager.{allocate}
use gem5_wrapper.SlavePort.State.{Gem5Extension, Packet, Multi, ScSlavePort}
use gem5_wrapper.Helper.{request, is_blocking_trans}
use gem5_wrapper.SlavePort.Request.{request_socket, recv_timing_req}
use gem5_wrapper.SlavePort.Request
use gem5_wrapper.SlavePort.Event.{Answer, pec}
use gem5_wrapper.SlavePort.Drain.{recv_resp_retry}
use gem5_wrapper.SlavePort.Invariant.{Inv, IsUnused}
use gem5_wrapper.SlavePort.Exclusion.{IsRequest}
use gem5_wrapper.SlavePort.Retried.{sends_again}
use gem5_wrapper.SlavePort.Draining.{IsBound}
use gem5_wrapper.Router.{TxnRouter, new, peq_cb, execute_transaction_process}
use gem5_wrapper.Router.Order.{accepted_requests}
use gem5_wrapper.Link.{accepting, from_port}
pub use gem5_wrapper.Link.Sent.{
  if_begin_req, if_end_resp, if_begin_resp, through, through-nil, through_own, sent_requests,
  sent_ends, sent_responses,
}

-- The transactions whose BEGIN_REQ, END_REQ, BEGIN_RESP and END_RESP are under way, the oldest first.
pub record Wire : Type 0 where
  pub port : ScSlavePort
  pub router : TxnRouter
  pub requests : List ℕ  -- in the queue of the router
  pub accepts : List ℕ  -- scheduled by the port
  pub responses : List ℕ  -- scheduled by the port
  pub ends : List ℕ  -- in the queue of the router

-- The port has sent BEGIN_REQ for `a` and END_RESP for `b` on the way from `s` to `s'`; the router
-- has sent END_REQ for `a` and BEGIN_RESP for `b`.
pub record IsForward (c : ℕ) (s s' : ScSlavePort) (a b : List ℕ) : Type 0 where
  pub begun : sent_requests c s'.calls ≡ sent_requests c s.calls ++ a
  pub ended : sent_ends c s'.calls ≡ sent_ends c s.calls ++ b

pub record IsBackward (r r' : TxnRouter) (a b : List ℕ) : Type 0 where
  pub ended : accepted_requests r'.calls ≡ accepted_requests r.calls ++ a
  pub begun : sent_responses r'.calls ≡ sent_responses r.calls ++ b

abbrev pub with_port : ScSlavePort → (a b : List ℕ) → Wire → Wire
with_port s a b w = record w { port = s; requests = w.requests ++ a; ends = w.ends ++ b }

abbrev pub with_router : TxnRouter → (a b : List ℕ) → Wire → Wire
with_router r a b w = record w {
  router = r;
  accepts = w.accepts ++ a;
  responses = w.responses ++ b;
}

-- A payload that the memory manager may hand out: TLM frees one when its last reference is
-- released, so it blocks nothing. The port releases the payload together with END_RESP: from then on
-- the router may still name it as its transaction in progress, until it is served an END_RESP.
pub record IsFresh (t : ℕ) (s : ScSlavePort) (r : TxnRouter) (ends : List ℕ) : Type 0 where
  pub unused : IsUnused s.helper t
  pub unserved : r.transaction_in_progress ≡ some t → ends ≢ []

-- A request of gem5 through the socket `c`.
pub record IsSent (c : ℕ) (p : Packet) (fresh : ℕ) (s : ScSlavePort) (r : TxnRouter) (ends : List ℕ)
    : Type 0 where
  pub is_request : IsRequest p (accepting fresh)
  pub at_socket : request_socket p s ≡ c
  pub is_fresh : IsFresh (allocate fresh s.mm).0 s r ends

-- What gem5 does when it is told to retry: nothing yet, or it sends a request at once, through the
-- socket or through another one.
pub data IsRetry (c : ℕ) (s : ScSlavePort) (r : TxnRouter) (ends : List ℕ) (e : Answer)
    : Type 0 where
  later_on : ((q : ScSlavePort) → e.retry q ≡ ok q) → IsRetry c s r ends e
  at_once :
      (p : Packet) (fresh : ℕ)
      → IsSent c p fresh s r ends
      → ((q : ScSlavePort) → e.retry q ≡ sends_again p (accepting fresh) q)
      → IsRetry c s r ends e
  at_other :
      (p : Packet) (a : Request.Answer)
      → request_socket p s ≢ c
      → IsFresh (allocate a.fresh s.mm).0 s r ends
      → ((q : ScSlavePort) → e.retry q ≡ sends_again p a q)
      → IsRetry c s r ends e

-- The steps. The router schedules its process 25 ns after END_REQ, so the port serves END_REQ
-- before BEGIN_RESP; nothing else is assumed of the order in which the phases arrive. The last three
-- are what the port does for its other sockets, whatever is behind them.
pub data Step (c : ℕ) (w : Wire) : Wire → Type 0 where
  requested :
      (p : Packet) (fresh : ℕ) {s : ScSlavePort} {taken : Bool} {a b : List ℕ}
      → IsSent c p fresh w.port w.router w.ends
      → recv_timing_req p (accepting fresh) w.port ≡ ok (s, taken)
      → IsForward c w.port s a b
      → Step c w (with_port s a b w)
  begin_req_served :
      {t : ℕ} {rest : List ℕ} {r : TxnRouter} {a b : List ℕ}
      → w.requests ≡ t ∷ rest
      → peq_cb t begin_req from_port w.router ≡ ok r
      → IsBackward w.router r a b
      → Step c w (with_router r a b (record w { requests = rest }))
  end_req_served :
      (e : Answer) {t : ℕ} {rest : List ℕ} {s : ScSlavePort} {a b : List ℕ}
      → w.accepts ≡ t ∷ rest
      → IsRetry c w.port w.router w.ends e
      → pec t end_req e w.port ≡ ok s
      → IsForward c w.port s a b
      → Step c w (with_port s a b (record w { accepts = rest }))
  woken :
      {r : TxnRouter} {a b : List ℕ}
      → w.router.done_pending ≡ true
      → execute_transaction_process from_port w.router ≡ ok r
      → IsBackward w.router r a b
      → Step c w (with_router r a b w)
  begin_resp_served :
      (e : Answer) {t : ℕ} {rest : List ℕ} {s : ScSlavePort} {a b : List ℕ}
      → w.responses ≡ t ∷ rest
      → w.accepts ≡ []
      → pec t begin_resp e w.port ≡ ok s
      → IsForward c w.port s a b
      → Step c w (with_port s a b (record w { responses = rest }))
  responses_retried :
      (fuel : ℕ) {s : ScSlavePort} {a b : List ℕ}
      → recv_resp_retry fuel true (λ p. true) w.port ≡ ok (some s)
      → IsForward c w.port s a b
      → Step c w (with_port s a b w)
  end_resp_served :
      {t : ℕ} {rest : List ℕ} {r : TxnRouter} {a b : List ℕ}
      → w.ends ≡ t ∷ rest
      → peq_cb t end_resp from_port w.router ≡ ok r
      → IsBackward w.router r a b
      → Step c w (with_router r a b (record w { ends = rest }))
  requested_elsewhere :
      (p : Packet) (q : Request.Answer) {s : ScSlavePort} {taken : Bool} {a b : List ℕ}
      → request_socket p w.port ≢ c
      → IsFresh (allocate q.fresh w.port.mm).0 w.port w.router w.ends
      → recv_timing_req p q w.port ≡ ok (s, taken)
      → IsForward c w.port s a b
      → Step c w (with_port s a b w)
  end_req_elsewhere :
      (e : Answer) (t : ℕ) (x : Gem5Extension) {s : ScSlavePort} {a b : List ℕ}
      → (w.port.payloads t).extension ≡ some x
      → x.core_id ≢ c
      → IsRetry c w.port w.router w.ends e
      → pec t end_req e w.port ≡ ok s
      → IsForward c w.port s a b
      → Step c w (with_port s a b w)
  begin_resp_elsewhere :
      (e : Answer) (t : ℕ) (x : Gem5Extension) {s : ScSlavePort} {a b : List ℕ}
      → (w.port.payloads t).extension ≡ some x
      → x.core_id ≢ c
      → is_blocking_trans (some t) request w.port.helper ≡ false
      → pec t begin_resp e w.port ≡ ok s
      → IsForward c w.port s a b
      → Step c w (with_port s a b w)

-- What blocks a channel.
abbrev pub held : Option (Option ℕ) → Option ℕ
held none = none
held (some t) = t

abbrev pub request_slot : ℕ → ScSlavePort → Option ℕ
request_slot c s = held (find c s.helper.blocking_request_map)

abbrev pub response_slot : ℕ → ScSlavePort → Option ℕ
response_slot c s = held (find c s.helper.blocking_response_map)

-- The port is bound to a transactor with a socket for each slot of the helper, and `c` is one.
pub record IsOpen (c : ℕ) (s : ScSlavePort) : Type 0 where
  pub inv : Inv s
  pub in_range : c < s.helper.socket_num
  pub multi : Multi
  pub is_bound : IsBound multi s
  pub sockets : s.helper.socket_num ≤ multi.socket_num

-- At first the port has called nothing, both channels of the socket are free, and the router is new.
pub data Reach (c : ℕ) (start size : ℕ) : Wire → Type 0 where
  connected :
      (s : ScSlavePort)
      → s.calls ≡ []
      → IsOpen c s
      → request_slot c s ≡ none
      → response_slot c s ≡ none
      → Reach c start size (record {
        port = s;
        router = new start size;
        requests = [];
        accepts = [];
        responses = [];
        ends = [];
      })
  later : {w w' : Wire} → Reach c start size w → Step c w w' → Reach c start size w'
