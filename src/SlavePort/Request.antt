-- ===== src/SlavePort/Request.antt =====
-- src/sc_slave_port.cc, `recvTimingReq`: a timing request of gem5 is refused while its socket is
-- blocked, and else becomes a transaction that begins with BEGIN_REQ.
use gem5_wrapper.Prelude.{
  ℕ, Bool, true, false, not, ◌&&◌, ◌||◌, none, some, ◌==◌, if◌then◌else◌, is_some, Outcome, ok,
  check, ◌>>=◌, ◌>>◌, assertion, panicked,
}
use gem5_wrapper.Tlm.{
  Phase, begin_req, Sync, accepted, updated, completed, is_begin_req, is_end_req, is_begin_resp,
  is_end_resp,
}
use gem5_wrapper.Helper.{request, is_blocked_port, update_blocking_map, update_retry_map}
use gem5_wrapper.MemoryManager.{allocate}
use gem5_wrapper.SlavePort.State.{
  Packet, acquire, release, reset_delays, transport_fw, schedule, ScSlavePort, emit, update,
  packet2payload, socket_for,
}
use gem5_wrapper.SlavePort.Sockets.{get_socket_id}

-- What the outside contributes to a request: whether gem5's time is SystemC's (`CAUGHT_UP`), the
-- address of a new payload, and the target's answer to BEGIN_REQ.
pub record Answer : Type 0 where
  pub caught_up : Bool
  pub fresh : ℕ
  pub status : Sync
  pub phase : Phase
  pub delay : ℕ

-- The packet's own cluster takes the place of the socket of its requestor.
unfoldable pub request_socket : Packet → ScSlavePort → ℕ
request_socket p s = elim p.cpu_cluster_id [ none ↦ get_socket_id s p.requestor_id | some c ↦ c ]

-- `if (status == ...)` after `nb_transport_fw`.
unfoldable pub on_status : Sync → Answer → ℕ → ℕ → ScSlavePort → Outcome ScSlavePort
on_status accepted a socket trans s = do
  check (is_begin_req a.phase) assertion
  if socket == 0 && s.using_gem5_cache
      then ok (record s { blocking_request = some trans })
      else (update_blocking_map socket (some trans) request s.helper >>= λ h.
          ok (record s { helper = h }))
on_status updated a socket trans s = do
  check (is_end_req a.phase || is_begin_resp a.phase) assertion
  ok (emit (schedule trans a.phase a.delay) s)
on_status completed a socket trans s = do
  check (is_end_resp a.phase) assertion
  ok (emit (release trans) s)

-- From the allocation of the payload on.
unfoldable pub send_request : Packet → ℕ → Answer → ScSlavePort → Outcome ScSlavePort
unfolding allocate packet2payload socket_for on_status
send_request p socket a s = do
  let (trans, mm) = allocate a.fresh s.mm
  let held = emit (acquire trans) (record s { mm = mm })
  payload ← packet2payload p (s.payloads trans)
  let extended = record payload { extension = some (record { packet = p.ptr; core_id = socket }) }
  let filled = record held { payloads = update held.payloads trans extended }
  target ← socket_for filled socket
  let begun =
      emit (transport_fw target trans begin_req p.payload_delay) (emit (reset_delays p.ptr) filled)
  on_status a.status a socket trans begun

-- The two refusals.
unfoldable pub refuse : ℕ → ScSlavePort → Outcome (ScSlavePort × Bool)
refuse socket s = do h ← update_retry_map socket true s.helper; ok (record s { helper = h }, false)

unfoldable pub recv_timing_req : Packet → Answer → ScSlavePort → Outcome (ScSlavePort × Bool)
unfolding request_socket
recv_timing_req p a s = do
  check a.caught_up assertion
  check (not p.cache_responding) panicked
  check (p.is_read || p.is_write) panicked
  check (not s.need_to_send_request_retry) assertion
  let socket = request_socket p s
  if is_some s.blocking_request && s.using_gem5_cache
      then ok (record s { need_to_send_request_retry = true }, false)
      else do
        blocked ← is_blocked_port socket request s.helper
        if blocked then refuse socket s else (send_request p socket a s >>= λ s'. ok (s', true))
