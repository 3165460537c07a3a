-- ===== src/SlavePort/Driven.antt =====
-- src/sc_slave_port.cc: a port that is bound to a multi-socket transactor and then driven by gem5
-- and by the targets, in any order of calls.
use gem5_wrapper.Prelude.{ℕ, ◌≡◌, Bool, ok, some, arith}
use gem5_wrapper.Tlm.{Phase}
use gem5_wrapper.MemoryManager.{MemoryManager, allocate, free}
use gem5_wrapper.SlavePort.State.{Payload, Packet, Multi, ScSlavePort, new}
use gem5_wrapper.SlavePort.Sockets.{bind_multi, update_core_port_map}
use gem5_wrapper.SlavePort.Request.{recv_timing_req}
use gem5_wrapper.SlavePort.Request
use gem5_wrapper.SlavePort.Event.{Answer, pec, nb_transport_bw}
use gem5_wrapper.SlavePort.Drain.{recv_resp_retry}
use gem5_wrapper.SlavePort.Blocking.{recv_atomic, recv_functional}
use gem5_wrapper.SlavePort.Invariant.{Inv, IsUnused}
use gem5_wrapper.SlavePort.Mapping.{Cores, bind_multi-Inv}
use gem5_wrapper.SlavePort.Preservation.{recv_timing_req-Inv, core}
use gem5_wrapper.SlavePort.Retry.{retrying}
use gem5_wrapper.SlavePort.Reachable.{pec-Inv}
use gem5_wrapper.SlavePort.Calls.{recv_resp_retry-Inv, recv_atomic-Inv, recv_functional-Inv}

-- Calls of the port, one after the other. A payload that is handed out blocks nothing: TLM frees a
-- payload only when its last reference is released. What gem5 does inside `sendRetryReq`, where the
-- port calls it in the middle of END_REQ, are calls of the port too: `nested` says which, from the
-- port whose channel was freed to the port when `sendRetryReq` returns.
pub data Run : ScSlavePort → ScSlavePort → Type 0 where
  done : {s : ScSlavePort} → Run s s
  requested :
      (p : Packet) (a : Request.Answer) {s s' u : ScSlavePort} {b : Bool}
      → IsUnused s.helper (allocate a.fresh s.mm).0
      → recv_timing_req p a s ≡ ok (s', b)
      → Run s' u
      → Run s u
  answered :
      (t : ℕ) (phase : Phase) (delay : ℕ) {s u : ScSlavePort}
      → Run (nb_transport_bw t phase delay s).0 u
      → Run s u
  delivered :
      (t : ℕ) (phase : Phase) (a : Answer) {s s' u : ScSlavePort}
      (nested : (m : ScSlavePort)
        → a.retry (retrying (core (s.payloads t).extension) s) ≡ ok m
        → Run (retrying (core (s.payloads t).extension) s) m)
      → pec t phase a s ≡ ok s'
      → Run s' u
      → Run s u
  retried :
      (fuel : ℕ) (caught_up : Bool) (accepts : ℕ → Bool) {s s' u : ScSlavePort}
      → recv_resp_retry fuel caught_up accepts s ≡ ok (some s')
      → Run s' u
      → Run s u
  atomic :
      (p : Packet) (caught_up : Bool) (fresh delay : ℕ) {r : ScSlavePort × ℕ} {s u : ScSlavePort}
      → IsUnused s.helper (allocate fresh s.mm).0
      → recv_atomic p caught_up fresh delay s ≡ ok r
      → Run r.0 u
      → Run s u
  functional :
      (p : Packet) (fresh bytes : ℕ) {s s' u : ScSlavePort}
      → IsUnused s.helper (allocate fresh s.mm).0
      → recv_functional p fresh bytes s ≡ ok s'
      → Run s' u
      → Run s u
  freed : (t : ℕ) {s u : ScSlavePort} → Run (record s { mm = free t s.mm }) u → Run s u

Run-Inv : {s u : ScSlavePort} → Inv s → Run s u → Inv u
unfolding nb_transport_bw
Run-Inv v done = v
Run-Inv {s} v (requested p a n e r) = Run-Inv (recv_timing_req-Inv p a s v n e) r
Run-Inv {s} v (answered t phase delay r) = Run-Inv (ground (arith, v)) r
Run-Inv {s} v (delivered t phase a nested e r) =
    Run-Inv (pec-Inv t phase a s (λ m w d. Run-Inv w (nested m d)) v e) r
Run-Inv {s} v (retried fuel c accepts e r) = Run-Inv (recv_resp_retry-Inv fuel c accepts s v e) r
Run-Inv {s} v (atomic p c fresh delay n e r) = Run-Inv (recv_atomic-Inv p c fresh delay s v n e) r
Run-Inv {s} v (functional p fresh bytes n e r) =
    Run-Inv (recv_functional-Inv p fresh bytes s v n e) r
Run-Inv v (freed t r) = Run-Inv (ground (arith, v)) r

-- A port that was bound to a multi-socket transactor and then driven by gem5 and the targets, in any
-- order of calls that are not stopped, where gem5 may call the port again inside `sendRetryReq`, as
-- often as it wants, and no payload is handed out that still blocks a channel: its invariant holds.
-- The helper has a slot for each socket, the state of the system port is unused, and each
-- transaction that blocks a channel of a socket carries that socket.
pub driven-Inv :
    (payloads : ℕ → Payload) (mm : MemoryManager) (garbage : ℕ) (cores : Cores) (m : Multi)
    {s u : ScSlavePort}
    → bind_multi m (update_core_port_map cores (new payloads mm garbage)) ≡ ok s
    → Run s u
    → Inv u
driven-Inv payloads mm garbage cores m e r =
    Run-Inv (bind_multi-Inv payloads mm garbage cores m e) r
