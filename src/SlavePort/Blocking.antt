-- ===== src/SlavePort/Blocking.antt =====
-- src/sc_slave_port.cc, `recvAtomic` and `recvFunctional`: packets of gem5's atomic and functional
-- modes go through the blocking and the debug transport.
use gem5_wrapper.Prelude.{
  ℕ, Bool, not, ◌&&◌, ◌||◌, some, ◌==◌, if◌then◌else◌, Outcome, ok, stop, check, ◌>>=◌, ◌>>◌,
  assertion, panicked, sc_fatal,
}
use gem5_wrapper.MemoryManager.{allocate}
use gem5_wrapper.SlavePort.State.{
  Packet, acquire, release, make_response, b_transport, transport_dbg, ScSlavePort, emit, update,
  packet2payload, socket_for,
}
use gem5_wrapper.SlavePort.Sockets.{get_socket_id}

-- The payload that both make first, its packet attached: its address, and the port after it.
unfoldable pub prepare : Packet → (socket fresh : ℕ) → ScSlavePort → Outcome (ℕ × ScSlavePort)
unfolding allocate packet2payload
prepare p socket fresh s = do
  let (trans, mm) = allocate fresh s.mm
  let held = emit (acquire trans) (record s { mm = mm })
  payload ← packet2payload p (s.payloads trans)
  let extended = record payload { extension = some (record { packet = p.ptr; core_id = socket }) }
  ok (trans, record held { payloads = update held.payloads trans extended })

abbrev transport_through : ℕ → ℕ → ScSlavePort → Outcome ScSlavePort
transport_through socket trans s =
    socket_for s socket >>= λ target. ok (emit (b_transport target trans) s)

-- The `if` on the kind of the packet.
unfoldable pub execute : Packet → (socket trans : ℕ) → ScSlavePort → Outcome ScSlavePort
unfolding socket_for
execute p socket trans s =
    if p.is_swap
    then stop sc_fatal
    else if p.is_read
    then transport_through socket trans s
    else if p.is_invalidate
    then ok s
    else if p.is_write
    then transport_through socket trans s
    else stop sc_fatal

-- `delay` is what the target leaves in the delay, and so the result; a packet that is not transported
-- has none.
unfoldable pub recv_atomic :
    Packet → (caught_up : Bool) → (fresh delay : ℕ) → ScSlavePort → Outcome (ScSlavePort × ℕ)
unfolding prepare execute
recv_atomic p caught_up fresh delay s = do
  check caught_up assertion
  check (not p.cache_responding) panicked
  check (p.is_read || p.is_write) panicked
  let socket = get_socket_id s p.requestor_id
  (trans, s') ← prepare p socket fresh s
  done ← execute p socket trans s'
  let answered = if p.needs_response then emit (make_response p.ptr) done else done
  ok (emit (release trans) answered, if not p.is_read && p.is_invalidate then 0 else delay)

-- `bytes` is what the target answers.
unfoldable pub recv_functional : Packet → (fresh bytes : ℕ) → ScSlavePort → Outcome ScSlavePort
unfolding prepare socket_for
recv_functional p fresh bytes s = do
  let socket = get_socket_id s p.requestor_id
  (trans, s') ← prepare p socket fresh s
  target ← socket_for s' socket
  check (bytes == p.size) sc_fatal
  ok (emit (release trans) (emit (transport_dbg target trans) s'))

-- Snoops are not implemented: both calls are fatal.
unfoldable pub recv_timing_snoop_resp : ScSlavePort → Outcome (ScSlavePort × Bool)
recv_timing_snoop_resp s = stop sc_fatal

unfoldable pub recv_functional_snoop : ScSlavePort → Outcome ScSlavePort
recv_functional_snoop s = stop sc_fatal
