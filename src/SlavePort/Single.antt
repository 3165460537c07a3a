-- ===== src/SlavePort/Single.antt =====
-- src/sc_slave_port.cc: a port that is bound to a single transactor. Its helper is never set up.
use gem5_wrapper.Prelude.{ℕ, ◌≡◌, ◌≢◌, refl, Bool, arith, ok}
use gem5_wrapper.Prelude.Map.{find}
use gem5_wrapper.Helper.{is_blocked_port, get_blocking_trans}
use gem5_wrapper.MemoryManager.{MemoryManager}
use gem5_wrapper.SlavePort.State.{Packet, Payload, ScSlavePort, new}
use gem5_wrapper.SlavePort.Sockets.{bind_single}
use gem5_wrapper.SlavePort.Request.{Answer, recv_timing_req}

-- A new port can be bound to a single transactor, and then every timing request stops the
-- simulation, whatever the packet and whatever the helper's `socket_num` happens to be: the maps
-- of the helper have no entry, since only the binding to a multi-socket transactor makes them.
pub bind_single-no_timing :
    (payloads : ℕ → Payload) (mm : MemoryManager) (garbage : ℕ)
    → (s : ScSlavePort) × (bind_single (new payloads mm garbage) ≡ ok s)
      × ((p : Packet) (a : Answer) (r : ScSlavePort × Bool) → recv_timing_req p a s ≢ ok r)
unfolding bind_single new recv_timing_req is_blocked_port get_blocking_trans find
bind_single-no_timing payloads mm garbage = (_, refl, λ p a r e. ground arith)
