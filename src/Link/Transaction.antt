-- ===== src/Link/Transaction.antt =====
-- src/sc_slave_port.cc and include/txn_router.h together: a transaction from gem5's request to the
-- last phase.
use gem5_wrapper.Prelude.{ℕ, ◌≡◌, refl, true, false, none, ◌∷◌, ok}
use gem5_wrapper.Helper.{request, response, get_blocking_trans, need_to_send_request_retry}
use gem5_wrapper.MemoryManager.{allocate}
use gem5_wrapper.SlavePort.State.{
  Packet, acquire, release, reset_delays, make_response, send_timing_resp, transport_fw, schedule,
}
use gem5_wrapper.SlavePort.Request.{request_socket}
use gem5_wrapper.SlavePort.Event.{Answer, nb_transport_bw}
use gem5_wrapper.SlavePort.Invariant.{Inv}
use gem5_wrapper.SlavePort.Exclusion.{IsSendable, recv_timing_req_accepted}
use gem5_wrapper.Router
use gem5_wrapper.Router.{
  to_mem, transport_bw, peq_notify, done_notify, mem_transport, set_ok_response,
}
use gem5_wrapper.Tlm.{begin_req, end_req, begin_resp, end_resp}
use gem5_wrapper.Link.{Link, accepting, transact}
use gem5_wrapper.Link.Served.{
  IsIdle, served, begin_request-executing, process-responding, end_response-served,
}
use gem5_wrapper.Link.Answered.{
  answered_port, end_req-freed, begin_resp-answered, answered_port-free,
}

-- gem5's part: a response is made of the packet, at SystemC's time, and gem5 takes it.
pub record IsTaken (e : Answer) : Type 0 where
  pub in_time : e.caught_up ≡ true
  pub needs_response : e.needs_response ≡ true
  pub is_response : e.is_response ≡ true
  pub taken : e.taken ≡ true

-- The port satisfies its invariant and can send the request; no retry is owed on its socket, whose
-- response channel is free; the router is idle, and the packet's address is memory; and gem5 takes
-- the response. Then no assertion fails on the way: the port has sent gem5 the response and END_RESP
-- and released the payload that it acquired, and both channels of the socket are free again; the
-- router has executed the transaction once on the memory, between END_REQ and BEGIN_RESP, has
-- released what it acquired, and is idle again.
pub transact-completes :
    (p : Packet) (fresh : ℕ) (e : Answer) (l : Link)
    → Inv l.port
    → IsIdle l.router
    → (k : IsSendable p (accepting fresh) l.port) → to_mem l.router p.addr ≡ true
    → need_to_send_request_retry (request_socket p l.port) l.port.helper ≡ ok false
    → get_blocking_trans (request_socket p l.port) response l.port.helper ≡ ok none
    → IsTaken e
    → let t = (allocate fresh l.port.mm).0 in
      (l' : Link) × (transact p fresh e l ≡ ok l')
      × Inv l'.port
      × (get_blocking_trans (request_socket p l.port) request l'.port.helper ≡ ok none)
      × (get_blocking_trans (request_socket p l.port) response l'.port.helper ≡ ok none)
      × IsIdle l'.router
      × (need_to_send_request_retry (request_socket p l.port) l'.port.helper ≡ ok false)
      × (l'.port.calls
          ≡ release t
            ∷ transport_fw k.target t end_resp 0
            ∷ send_timing_resp p.ptr
            ∷ make_response p.ptr
            ∷ schedule t begin_resp 0
            ∷ schedule t end_req 0
            ∷ transport_fw k.target t begin_req p.payload_delay
            ∷ reset_delays p.ptr
            ∷ acquire t
            ∷ l.port.calls)
      × (l'.router.calls
          ≡ peq_notify t end_resp
            ∷ Router.release t
            ∷ transport_bw t begin_resp
            ∷ set_ok_response t
            ∷ mem_transport t
            ∷ done_notify
            ∷ transport_bw t end_req
            ∷ Router.acquire t
            ∷ peq_notify t begin_req
            ∷ l.router.calls)
unfolding transact nb_transport_bw need_to_send_request_retry
transact-completes p fresh e l v i k m o f g =
    let t = (allocate fresh l.port.mm).0 in
    let (good, requests, responses) = answered_port-free p fresh l.port k v f in
    (
      record { port = answered_port p fresh l.port k; router = served t l.router },
      rw
          (
            recv_timing_req_accepted p (accepting fresh) l.port v refl refl k,
            begin_request-executing t p.addr l.router i m,
            end_req-freed p fresh l.port k e v o,
            process-responding t l.router i,
            begin_resp-answered p fresh l.port k e v g.in_time g.needs_response g.is_response
                g.taken f,
            end_response-served t p.addr l.router i m,
          )
          refl,
      good,
      requests,
      responses,
      record {
        free = i.free;
        quiet = i.quiet;
        no_next = i.no_next;
        none_waits = i.none_waits;
        asleep = i.asleep;
      },
      o,
      refl,
      refl,
    )
