-- ===== src/SlavePort/Refusals.antt =====
-- src/sc_slave_port.cc, `recvTimingReq`: what gem5 sends while the request channel of a socket is
-- blocked.
use gem5_wrapper.Prelude.{
  ℕ, ◌<◌, ◌≡◌, refl, Bool, true, false, ◌||◌, some, List, [], ◌∷◌, arith, Outcome, ok, ◌>>=◌,
}
use gem5_wrapper.Tlm.{begin_req, accepted}
use gem5_wrapper.Prelude.Map.{Map}
use gem5_wrapper.Helper.{request, get_blocking_trans, write_retry}
use gem5_wrapper.Helper.Search.{with_retry}
use gem5_wrapper.MemoryManager.{allocate}
use gem5_wrapper.SlavePort.State.{Packet, ScSlavePort, acquire, reset_delays, transport_fw}
use gem5_wrapper.SlavePort.Sockets.{get_socket_id}
use gem5_wrapper.SlavePort.Request.{Answer, request_socket, recv_timing_req}
use gem5_wrapper.SlavePort.Invariant.{Inv}
use gem5_wrapper.SlavePort.Exclusion.{
  IsRequest, IsSendable, recv_timing_req_refused, recv_timing_req_accepted, blocked_port,
  blocked_port-Inv, blocked_port-blocks,
}
use gem5_wrapper.SlavePort.Preservation.{with_retry-Inv}

-- gem5 sends one request after the other; whether the port took any.
unfoldable pub recv_all : List (Packet × Answer) → ScSlavePort → Outcome (ScSlavePort × Bool)
recv_all [] s = ok (s, false)
recv_all ((p, a) ∷ r) s =
    recv_timing_req p a s >>= λ x. recv_all r x.0 >>= λ y. ok (y.0, x.1 || y.1)

-- Requests that go through the socket `c`.
abbrev pub AllAt : ℕ → ScSlavePort → List (Packet × Answer) → Type 0
AllAt c s [] = Unit {0}
AllAt c s ((p, a) ∷ r) = IsRequest p a × (request_socket p s ≡ c) × AllAt c s r

-- The port after these requests were refused: if there was one, it owes gem5 a retry on the socket,
-- and nothing else has changed.
abbrev pub noted : ℕ → List (Packet × Answer) → ScSlavePort → ScSlavePort
noted c [] s = s
noted c (x ∷ l) s = record s { helper = with_retry c true s.helper }

write_retry_twice :
    (c : ℕ) (m : Map Bool) → write_retry c true (write_retry c true m) ≡ write_retry c true m
unfolding write_retry
write_retry_twice c [] = refl
write_retry_twice c ((k, b) ∷ m) = ground (arith, write_retry_twice c m)

noted_twice :
    (c : ℕ) (l : List (Packet × Answer)) (s : ScSlavePort)
    → noted c l (record s { helper = with_retry c true s.helper })
      ≡ record s { helper = with_retry c true s.helper }
noted_twice c [] s = refl
noted_twice c (x ∷ l) s = rw (write_retry_twice c s.helper.need_to_send_request_retry_map) refl

same_socket :
    (c d : ℕ) (s : ScSlavePort) (l : List (Packet × Answer))
    → AllAt c s l
    → AllAt c (record s { helper = with_retry d true s.helper }) l
unfolding request_socket get_socket_id
same_socket c d s [] h = tt
same_socket c d s ((p, a) ∷ r) h = (h.0, h.1, same_socket c d s r h.2)

retry-blocks :
    (c t : ℕ) (s : ScSlavePort)
    → get_blocking_trans c request s.helper ≡ ok (some t)
    → get_blocking_trans c request (with_retry c true s.helper) ≡ ok (some t)
unfolding get_blocking_trans
retry-blocks c t s e = e

pub recv_all_refused :
    (l : List (Packet × Answer)) (c t : ℕ) (s : ScSlavePort)
    → Inv s
    → c < s.helper.socket_num
    → get_blocking_trans c request s.helper ≡ ok (some t)
    → AllAt c s l
    → recv_all l s ≡ ok (noted c l s, false)
unfolding recv_all
recv_all_refused [] c t s v b e h = refl
recv_all_refused ((p, a) ∷ r) c t s v b e h =
    let u : ScSlavePort = record s { helper = with_retry c true s.helper } in
    let rest =
      recv_all_refused r c t u (with_retry-Inv c true v) b (retry-blocks c t s e)
        (same_socket c c s r h.2) in
    rw (recv_timing_req_refused p a s c t v h.0 h.1 b e, rest, noted_twice c r s) refl

begun_sockets :
    (p : Packet) (a : Answer) (s : ScSlavePort) (c : ℕ) (k : IsSendable p a s)
    (l : List (Packet × Answer))
    → AllAt c s l
    → AllAt c (blocked_port p a k.payload k.target s) l
unfolding request_socket get_socket_id
begun_sockets p a s c k [] h = tt
begun_sockets p a s c k (x ∷ r) h = (h.0, h.1, begun_sockets p a s c k r h.2)

-- The exclusion rule. A request that the target accepts goes out once, with BEGIN_REQ and the delay
-- of its packet, and its transaction blocks the request channel of its socket. Of the requests that
-- gem5 then sends through that socket, however many, one after the other and before anything else
-- reaches the port, none is taken: nothing is called, the channel stays blocked, and the port only
-- notes that it owes gem5 a retry on that socket.
pub exclusion :
    (p : Packet) (a : Answer) (s : ScSlavePort) (l : List (Packet × Answer))
    → Inv s
    → a.status ≡ accepted
    → a.phase ≡ begin_req
    → (k : IsSendable p a s) → AllAt (request_socket p s) s l
    → let trans = (allocate a.fresh s.mm).0 in
      (s' : ScSlavePort) × (recv_timing_req p a s ≡ ok (s', true))
      × Inv s'
      × (s'.calls
          ≡ transport_fw k.target trans begin_req p.payload_delay
            ∷ reset_delays p.ptr
            ∷ acquire trans
            ∷ s.calls)
      × (get_blocking_trans (request_socket p s) request s'.helper ≡ ok (some trans))
      × (recv_all l s' ≡ ok (noted (request_socket p s) l s', false))
exclusion p a s l v st ph k h =
    let c = request_socket p s in
    let t = (allocate a.fresh s.mm).0 in
    let s' = blocked_port p a k.payload k.target s in
    let v' = blocked_port-Inv p a s v k in
    let blocks = blocked_port-blocks p a s v k in
    (
      s',
      recv_timing_req_accepted p a s v st ph k,
      v',
      refl,
      blocks,
      recv_all_refused l c t s' v' k.in_range blocks (begun_sockets p a s c k l h),
    )
