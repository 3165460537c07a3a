-- ===== src/SlavePort/Event.antt =====
-- src/sc_slave_port.cc, `pec` and `nb_transport_bw`: a phase that the target sends back ends the
-- request, brings the response, or both.
use gem5_wrapper.Prelude.{
  ℕ, Bool, true, false, not, ◌&&◌, ◌||◌, none, some, ◌==◌, same, if◌then◌else◌, is_some, Outcome,
  ok, check, ◌>>=◌, ◌>>◌, assertion, ◌+◌, ◌%◌, ◌^◌,
}
use gem5_wrapper.Tlm.{Phase, end_resp, Sync, accepted, is_end_req, is_begin_resp}
use gem5_wrapper.Helper.{
  request, response, is_blocking_trans, update_blocking_map, update_retry_map,
  need_to_send_request_retry, get_blocking_trans,
}
use gem5_wrapper.SlavePort.State.{
  release, make_response, transport_fw, schedule, send_retry_req, send_timing_resp, ScSlavePort,
  emit, socket_for, get_extension,
}

-- include/sc_peq.hh, `notify`: a payload event that is not scheduled is scheduled at SystemC's time
-- plus the delay, in ticks of 64 bits.
pub record PayloadEvent : Type 0 where
  pub trans : ℕ
  pub phase : Phase
  pub tick : ℕ

unfoldable pub peq_notify : Bool → (now delay trans : ℕ) → Phase → Outcome PayloadEvent
peq_notify scheduled now delay trans phase = do
  check (not scheduled) assertion
  ok (record { trans = trans; phase = phase; tick = (now + delay) % 2 ^ 64 })

unfoldable pub nb_transport_bw : ℕ → Phase → ℕ → ScSlavePort → ScSlavePort × Sync
nb_transport_bw trans phase delay s = (emit (schedule trans phase delay) s, accepted)

-- What the outside contributes to an event: what gem5 does with the port inside `sendRetryReq`; the
-- time check; the packet's `needsResponse`, and its `isResponse` after a response was made of it if
-- it needed one; and the result of `sendTimingResp`.
pub record Answer : Type 0 where
  pub retry : ScSlavePort → Outcome ScSlavePort
  pub caught_up : Bool
  pub needs_response : Bool
  pub is_response : Bool
  pub taken : Bool

-- `&trans == blockingRequest`
abbrev pub is_blocking_request : ℕ → ScSlavePort → Bool
is_blocking_request trans s = same (some trans) s.blocking_request

-- The condition of the first `if`: END_REQ, or BEGIN_RESP of a transaction that still blocks.
unfoldable pub ends_request : ℕ → Phase → ScSlavePort → Bool
ends_request trans phase s =
    is_end_req phase
    || (is_blocking_trans (some trans) request s.helper && is_begin_resp phase)
    || (is_blocking_request trans s && is_begin_resp phase)

abbrev send_retry_if : Bool → Answer → ScSlavePort → Outcome ScSlavePort
send_retry_if true a s = a.retry (emit send_retry_req s)
send_retry_if false a s = ok s

-- The branch of the system port.
unfoldable pub end_system_request : Answer → ScSlavePort → Outcome ScSlavePort
end_system_request a s =
    send_retry_if s.need_to_send_request_retry a
      (record s { blocking_request = none; need_to_send_request_retry = false })

abbrev clear_retry_if : Bool → ℕ → ScSlavePort → Outcome ScSlavePort
clear_retry_if true core s =
    update_retry_map core false s.helper >>= λ h. ok (record s { helper = h })
clear_retry_if false core s = ok s

-- The branch of a core's port.
unfoldable pub end_core_request : ℕ → Answer → ScSlavePort → Outcome ScSlavePort
unfolding get_extension
end_core_request trans a s = do
  check (is_blocking_trans (some trans) request s.helper) assertion
  e ← get_extension s trans
  h ← update_blocking_map e.core_id none request s.helper
  owed ← need_to_send_request_retry e.core_id h
  s' ← clear_retry_if owed e.core_id (record s { helper = h })
  send_retry_if owed a s'

unfoldable pub end_request : ℕ → Answer → ScSlavePort → Outcome ScSlavePort
end_request trans a s =
    if is_blocking_request trans s && s.using_gem5_cache
    then end_system_request a s
    else end_core_request trans a s

-- `sc_assert` that no response blocks the channel of the core.
unfoldable pub check_response_channel : ℕ → ScSlavePort → Outcome (Unit {0})
check_response_channel core s =
    if core == 0 && s.using_gem5_cache
    then check (not (is_some s.blocking_response)) assertion
    else (get_blocking_trans core response s.helper >>= λ t. check (not (is_some t)) assertion)

-- A response that gem5 did not take blocks the channel.
unfoldable pub block_response : ℕ → ℕ → ScSlavePort → Outcome ScSlavePort
block_response core trans s =
    if core == 0 && s.using_gem5_cache
    then ok (record s { blocking_response = some trans })
    else (update_blocking_map core (some trans) response s.helper >>= λ h.
        ok (record s { helper = h }))

unfoldable pub send_end_resp : ℕ → ℕ → ScSlavePort → Outcome ScSlavePort
unfolding socket_for
send_end_resp core trans s = do
  target ← socket_for s core
  ok (emit (release trans) (emit (transport_fw target trans end_resp 0) s))

-- The second `if`: BEGIN_RESP.
unfoldable pub begin_response : ℕ → Answer → ScSlavePort → Outcome ScSlavePort
begin_response trans a s = do
  check a.caught_up assertion
  e ← get_extension s trans
  check_response_channel e.core_id s
  let made = if a.needs_response then emit (make_response e.packet) s else s
  let sent = if a.is_response then emit (send_timing_resp e.packet) made else made
  if a.is_response && not a.taken
      then block_response e.core_id trans sent
      else send_end_resp e.core_id trans sent

unfoldable pub pec : ℕ → Phase → Answer → ScSlavePort → Outcome ScSlavePort
unfolding ends_request
pec trans phase a s = do
  s' ← if ends_request trans phase s then end_request trans a s else ok s
  if is_begin_resp phase then begin_response trans a s' else ok s'

-- `PayloadEvent::process`: gem5 serves the event, and its handler gets what was noted in it.
unfoldable pub process : PayloadEvent → Answer → ScSlavePort → Outcome ScSlavePort
unfolding pec
process pe a s = pec pe.trans pe.phase a s
