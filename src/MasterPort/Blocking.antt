-- ===== src/MasterPort/Blocking.antt =====
-- include/sc_master_port.hh and src/sc_master_port.cc: the binding of the port; and `b_transport` and
-- `transport_dbg`: the blocking and the debug transport become gem5's atomic and functional accesses.
use gem5_wrapper.Prelude.{
  ℕ, ◌+◌, ◌/◌, Bool, true, false, not, ◌&&◌, if◌then◌else◌, is_some, Outcome, ok, stop, assertion,
  check, ◌>>=◌, ◌>>◌, panicked,
}
use gem5_wrapper.Tlm.{ok_response}
use gem5_wrapper.MasterPort.{
  Payload, Mode, timing_mode, atomic_mode, other_mode, register_nb_transport_fw,
  register_b_transport, register_transport_dbg, set_response_status, send_atomic, send_functional,
  ScMasterPort, emit, packet_for, generate_packet, destroy_packet,
}

abbrev on_mode : Mode → ScMasterPort → Outcome ScMasterPort
on_mode timing_mode s = ok (emit register_nb_transport_fw s)
on_mode atomic_mode s = ok (emit register_b_transport s)
on_mode other_mode s = stop panicked

-- `bindToTransactor`: which of its interfaces the port registers depends on gem5's mode.
unfoldable pub bind_to_transactor : Mode → ScMasterPort → Outcome ScMasterPort
bind_to_transactor mode s = do
  check (not s.transactor) assertion
  let bound = record s { transactor = true }
  registered ← on_mode mode bound
  ok (emit register_transport_dbg registered)

-- The packet as `sendAtomic` leaves it: its two flags, and the latency in ticks. `ps` is gem5's
-- number of ticks in a picosecond; the delay is exact below 2^53.
unfoldable pub b_transport :
    ℕ
    → Payload
    → (fresh ticks ps : ℕ) → (needs_response is_response : Bool) → ℕ
    → ScMasterPort
    → Outcome (ScMasterPort × ℕ)
unfolding generate_packet destroy_packet
b_transport trans p fresh ticks ps needs_response is_response t s = do
  (pkt, s') ← packet_for p.packet fresh p s
  let asked = emit (send_atomic pkt) s'
  check (not (needs_response && not is_response)) panicked
  let freed = if is_some p.packet then asked else destroy_packet pkt asked
  ok (emit (set_response_status trans ok_response) freed, t + ticks / ps)

unfoldable pub transport_dbg : Payload → ℕ → ScMasterPort → Outcome (ScMasterPort × ℕ)
unfolding generate_packet destroy_packet
transport_dbg p fresh s = do
  (pkt, s') ← packet_for p.packet fresh p s
  let asked = emit (send_functional pkt) s'
  ok ((if is_some p.packet then asked else destroy_packet pkt asked), p.data_length)

-- The port grants no direct memory access, and only warns when the ranges of addresses change.
unfoldable pub get_direct_mem_ptr : ℕ → ScMasterPort → ScMasterPort × Bool
get_direct_mem_ptr trans s = (s, false)

unfoldable pub recv_range_change : ScMasterPort → ScMasterPort
recv_range_change s = s
