-- ===== src/SlavePort/Exclusion.antt =====
-- src/sc_slave_port.cc, `recvTimingReq`: the exclusion rule on the request channel of a socket.
use gem5_wrapper.Prelude.{
  ℕ, ◌≤◌, ◌<◌, ◌≡◌, true, false, ◌||◌, none, some, ◌∷◌, arith, ok, lt→ltb, ◌>>=◌,
}
use gem5_wrapper.Tlm.{begin_req, Sync, accepted}
use gem5_wrapper.Helper
use gem5_wrapper.Helper.{
  PktType, request, response, slots, is_blocked_port, get_blocking_trans, update_retry_map,
}
use gem5_wrapper.Helper.Channels.{IsReady, update_lem, get_blocking_trans-update}
use gem5_wrapper.Helper.Search.{with_retry, update_retry_map_lem}
use gem5_wrapper.MemoryManager.{allocate}
use gem5_wrapper.SlavePort.State.{
  Payload, Packet, Socket, ScSlavePort, update, packet2payload, socket_for, acquire, reset_delays,
  transport_fw,
}
use gem5_wrapper.SlavePort.Request.{
  Answer, request_socket, on_status, send_request, refuse, recv_timing_req,
}
use gem5_wrapper.SlavePort.Invariant.{
  Inv, IsUnused, updated-IsCoreHelper, updated-IsOwned, update-IsOwned,
}

-- A request that gem5 may send: a read or a write that no cache answers, at SystemC's time.
pub record IsRequest (p : Packet) (a : Answer) : Type 0 where
  pub in_time : a.caught_up ≡ true
  pub unanswered : p.cache_responding ≡ false
  pub kind : (p.is_read || p.is_write) ≡ true

-- At a socket whose request channel is blocked a request is refused: the port notes that it owes
-- gem5 a retry on that socket, and calls nothing.
pub recv_timing_req_refused :
    (p : Packet) (a : Answer) (s : ScSlavePort) (c t : ℕ)
    → Inv s
    → IsRequest p a
    → request_socket p s ≡ c
    → c < s.helper.socket_num
    → get_blocking_trans c request s.helper ≡ ok (some t)
    → recv_timing_req p a s ≡ ok (record s { helper = with_retry c true s.helper }, false)
unfolding recv_timing_req refuse is_blocked_port
recv_timing_req_refused p a s c t v r q l e = ground (arith, update_retry_map_lem s.helper c true l)

-- At a socket whose request channel is free it is sent.
pub recv_timing_req_free :
    (p : Packet) (a : Answer) (s : ScSlavePort)
    → Inv s
    → IsRequest p a
    → get_blocking_trans (request_socket p s) request s.helper ≡ ok none
    → recv_timing_req p a s ≡ (send_request p (request_socket p s) a s >>= λ s'. ok (s', true))
unfolding recv_timing_req is_blocked_port
recv_timing_req_free p a s v r e = ground arith

-- The port after BEGIN_REQ was sent, before the target's answer is read.
abbrev pub begun : Packet → ℕ → ℕ → Payload → Socket → ScSlavePort → ScSlavePort
begun p socket fresh payload target s =
    let trans = (allocate fresh s.mm).0 in
    let extended : Payload = record payload {
      extension = some (record { packet = p.ptr; core_id = socket });
    } in
    record s {
      mm = (allocate fresh s.mm).1;
      payloads = update s.payloads trans extended;
      calls =
          transport_fw target trans begin_req p.payload_delay
          ∷ reset_delays p.ptr
          ∷ acquire trans
          ∷ s.calls;
    }

pub send_request_lem :
    (p : Packet) (socket : ℕ) (a : Answer) (s : ScSlavePort) {payload : Payload} {target : Socket}
    → packet2payload p (s.payloads (allocate a.fresh s.mm).0) ≡ ok payload
    → socket_for s socket ≡ ok target
    → send_request p socket a s
      ≡ on_status a.status a socket
          (allocate a.fresh s.mm).0
          (begun p socket a.fresh payload target s)
unfolding send_request
send_request_lem p socket a s k l = ground arith

-- What a sent request needs: its socket has a free request channel and a transactor's socket, the
-- packet can be converted, and the payload that the memory manager hands out blocks nothing.
pub record IsSendable (p : Packet) (a : Answer) (s : ScSlavePort) : Type 0 where
  pub is_request : IsRequest p a
  pub in_range : request_socket p s < s.helper.socket_num
  pub free : get_blocking_trans (request_socket p s) request s.helper ≡ ok none
  pub payload : Payload
  pub converted : packet2payload p (s.payloads (allocate a.fresh s.mm).0) ≡ ok payload
  pub target : Socket
  pub bound : socket_for s (request_socket p s) ≡ ok target
  pub unused : IsUnused s.helper (allocate a.fresh s.mm).0

-- The port after the target has accepted BEGIN_REQ: the transaction blocks the request channel.
abbrev pub blocked_port : Packet → Answer → Payload → Socket → ScSlavePort → ScSlavePort
blocked_port p a payload target s =
    let socket = request_socket p s in
    record (begun p socket a.fresh payload target s) {
      helper = Helper.updated socket (some (allocate a.fresh s.mm).0) request s.helper;
    }

pub on_status-accepted :
    (status : Sync) (a : Answer) (socket trans : ℕ) (s : ScSlavePort)
    → status ≡ accepted
    → s.using_gem5_cache ≡ false
    → a.phase ≡ begin_req
    → IsReady s.helper
    → socket ≤ s.helper.socket_num
    → on_status status a socket trans s
      ≡ ok (record s { helper = Helper.updated socket (some trans) request s.helper })
unfolding on_status
on_status-accepted status a socket trans s st n b r l =
    ground (arith, update_lem socket (some trans) request r l)

pub recv_timing_req_accepted :
    (p : Packet) (a : Answer) (s : ScSlavePort)
    → Inv s
    → a.status ≡ accepted
    → a.phase ≡ begin_req
    → (k : IsSendable p a s)
    → recv_timing_req p a s ≡ ok (blocked_port p a k.payload k.target s, true)
recv_timing_req_accepted p a s v st ph k =
    let t = (allocate a.fresh s.mm).0 in
    let c = request_socket p s in
    rw (
      recv_timing_req_free p a s v k.is_request k.free,
      send_request_lem p c a s k.converted k.bound,
      on_status-accepted a.status a c t (begun p c a.fresh k.payload k.target s) st v.no_cache ph
          v.core_helper.ready (omega (arith, k.in_range)),
    )

pub blocked_port-Inv :
    (p : Packet) (a : Answer) (s : ScSlavePort)
    → Inv s
    → (k : IsSendable p a s) → Inv (blocked_port p a k.payload k.target s)
blocked_port-Inv p a s v k =
    let t = (allocate a.fresh s.mm).0 in
    let c = request_socket p s in
    let q = begun p c a.fresh k.payload k.target s in
    record {
      core_helper = updated-IsCoreHelper c (some t) request v.core_helper;
      no_cache = v.no_cache;
      no_request = v.no_request;
      no_response = v.no_response;
      no_retry = v.no_retry;
      owned =
          updated-IsOwned s.helper q.payloads c (some t) request (λ u e. ground (arith, e))
            (update-IsOwned s.helper s.payloads t _ k.unused v.owned);
    }

pub blocked_port-blocks :
    (p : Packet) (a : Answer) (s : ScSlavePort)
    → Inv s
    → (k : IsSendable p a s)
    → get_blocking_trans (request_socket p s) request (blocked_port p a k.payload k.target s).helper
      ≡ ok (some (allocate a.fresh s.mm).0)
blocked_port-blocks p a s v k =
    let t = (allocate a.fresh s.mm).0 in
    let c = request_socket p s in
    let e = update_lem c (some t) request v.core_helper.ready (omega (arith, k.in_range)) in
    rw
      (
        get_blocking_trans-update s.helper _ c c (some t) request request e,
        lt→ltb c s.helper.socket_num k.in_range,
      )
      (ground arith)
