-- ===== src/SlavePort/Stale.antt =====
-- src/sc_slave_port.cc: the command of the transaction that `recvTimingReq` makes of a write that
-- invalidates.
use gem5_wrapper.Prelude.{ℕ, ◌≡◌, refl, inl, inr, true, false, arith, ok}
use gem5_wrapper.Tlm.{Sync, accepted, updated, completed}
use gem5_wrapper.MemoryManager.{allocate}
use gem5_wrapper.SlavePort.State.{Packet, ScSlavePort}
use gem5_wrapper.SlavePort.Request.{Answer, request_socket, on_status, recv_timing_req}
use gem5_wrapper.SlavePort.Invariant.{Inv}
use gem5_wrapper.Helper.{update_blocking_map}
use gem5_wrapper.SlavePort.Exclusion.{begun}
use gem5_wrapper.SlavePort.Payload.{packet2payload-stale}
use gem5_wrapper.SlavePort.Preservation.{recv_timing_req_cases, send_request_cases}

on_status-payloads :
    (status : Sync) (a : Answer) (c t : ℕ) (s : ScSlavePort) {s' : ScSlavePort}
    → on_status status a c t s ≡ ok s'
    → s'.payloads ≡ s.payloads
unfolding on_status update_blocking_map
on_status-payloads accepted a c t s e = ground (arith, e)
on_status-payloads updated a c t s e = ground (arith, e)
on_status-payloads completed a c t s e = ground (arith, e)

-- A write that invalidates and does not read goes out with a command that was not chosen for it:
-- its transaction has the command that the payload had when the memory manager handed it out, such
-- as the read command of an earlier use.
pub recv_timing_req-stale :
    (p : Packet) (a : Answer) (s : ScSlavePort) {s' : ScSlavePort}
    → Inv s
    → p.is_read ≡ false
    → p.is_write ≡ true
    → p.is_invalidate ≡ true
    → recv_timing_req p a s ≡ ok (s', true)
    → let t = (allocate a.fresh s.mm).0 in (s'.payloads t).command ≡ (s.payloads t).command
recv_timing_req-stale p a s {s'} v r w i e = elim (recv_timing_req_cases p a s v e) [
  | inl refused ↦ rw refused refl
  | inr (l, sent) ↦
      let t = (allocate a.fresh s.mm).0 in
      let c = request_socket p s in
      let (payload, target, converted, bound, answered) = send_request_cases p c a s sent in
      let same = on_status-payloads a.status a c t (begun p c a.fresh payload target s) answered in
      let kept = packet2payload-stale p (s.payloads t) payload r w i converted in
      rw same (ground (arith, kept))
]
