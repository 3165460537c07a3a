-- ===== src/MasterPort.antt =====
-- include/sc_master_port.hh and src/sc_master_port.cc: TLM transactions become gem5 packets. A
-- transaction and a packet are numbers (pointers), `none` a null pointer. The calls that leave the
-- port are written down in `calls`, newest first; what gem5 and the initiator answer are arguments.
pub mod Requests
pub mod Responses
pub mod References
pub mod Consistency
pub mod Blocking
pub mod Runs
pub mod Tests
use gem5_wrapper.Prelude.{
  ℕ, ◌+◌, ◌/◌, ◌<◌, Bool, true, false, not, ◌&&◌, ◌||◌, Option, none, some, List, [], ◌∷◌, ltb,
  if◌then◌else◌, is_some, Outcome, ok, stop, check, need, ◌>>=◌, ◌>>◌, assertion, sc_fatal,
  sc_error, panicked,
}
use gem5_wrapper.Tlm.{
  Phase, begin_req, end_req, begin_resp, end_resp, other, Sync, accepted, updated, completed,
  Command, read, write, ignore, ResponseStatus, ok_response, byte_enable_error, burst_error,
  is_end_resp,
}

-- The attributes of a payload that the port reads. `packet` is the packet of its `Gem5Extension`,
-- if it has one.
pub record Payload : Type 0 where
  pub address : ℕ
  pub data_length : ℕ
  pub byte_enable_ptr : Option ℕ
  pub streaming_width : ℕ
  pub command : Command
  pub data_ptr : ℕ
  pub packet : Option ℕ

pub data MemCmd : Type 0 where
  read_req write_req : MemCmd

pub data Mode : Type 0 where
  timing_mode atomic_mode other_mode : Mode

pub data Call : Type 0 where
  register_nb_transport_fw register_b_transport register_transport_dbg : Call
  acquire : ℕ → Call
  release : ℕ → Call
  peq_notify : ℕ → Phase → Call
  set_response_status : ℕ → ResponseStatus → Call
  new_packet : ℕ → MemCmd → (address size data_ptr : ℕ) → Call
  delete_packet : ℕ → Call
  push_sender_state : ℕ → ℕ → Call
  pop_sender_state : ℕ → Call
  reset_delays : ℕ → Call
  send_timing_req : ℕ → Call
  send_atomic : ℕ → Call
  send_functional : ℕ → Call
  send_retry_resp : Call
  transport_bw : ℕ → Phase → (delay : ℕ) → Call
  catchup : Call
  notify : Call

pub record ScMasterPort : Type 0 where
  pub transactor : Bool  -- whether it is bound
  pub wait_for_retry : Bool
  pub pending_request : Option ℕ
  pub pending_packet : Option ℕ
  pub need_to_send_retry : Bool
  pub response_in_progress : Bool
  pub calls : List Call

unfoldable pub new : ScMasterPort
new = record {
  transactor = false;
  wait_for_retry = false;
  pending_request = none;
  pending_packet = none;
  need_to_send_retry = false;
  response_in_progress = false;
  calls = [];
}

abbrev pub emit : Call → ScMasterPort → ScMasterPort
emit c s = record s { calls = c ∷ s.calls }

abbrev command_of : Command → Outcome MemCmd
command_of read = ok read_req
command_of write = ok write_req
command_of ignore = stop sc_fatal

-- `fresh` is the address of the packet that is allocated.
unfoldable pub generate_packet : ℕ → Payload → ScMasterPort → Outcome (ℕ × ScMasterPort)
generate_packet fresh p s = do
  cmd ← command_of p.command
  ok (fresh, emit (new_packet fresh cmd p.address p.data_length p.data_ptr) s)

unfoldable pub destroy_packet : ℕ → ScMasterPort → ScMasterPort
destroy_packet pkt s = emit (delete_packet pkt) s

-- `error` is `trans.is_response_error()`.
unfoldable pub check_transaction : Bool → Outcome (Unit {0})
check_transaction error = check (not error) sc_error

unfoldable pub nb_transport_fw : ℕ → Payload → Phase → ScMasterPort → ScMasterPort × Sync
nb_transport_fw trans p phase s =
    if is_some p.byte_enable_ptr
    then (emit (set_response_status trans byte_enable_error) s, completed)
    else if ltb p.streaming_width p.data_length
    then (emit (set_response_status trans burst_error) s, completed)
    else (emit (peq_notify trans phase) (emit (acquire trans) s), accepted)

-- `answer` is what the initiator returns.
unfoldable pub send_end_req : ℕ → Sync → ScMasterPort → Outcome ScMasterPort
send_end_req trans accepted s = ok (emit (transport_bw trans end_req 0) s)
send_end_req trans updated s = stop panicked
send_end_req trans completed s = stop panicked

-- The packet that travels: the one of the extension, or a new one.
abbrev pub packet_for : Option ℕ → ℕ → Payload → ScMasterPort → Outcome (ℕ × ScMasterPort)
packet_for (some pkt) fresh p s = ok (pkt, s)
packet_for none fresh p s = generate_packet fresh p s

-- `sent` is what `sendTimingReq` returns.
unfoldable pub handle_begin_req :
    ℕ → Payload → ℕ → Bool → Sync → ScMasterPort → Outcome ScMasterPort
unfolding generate_packet send_end_req
handle_begin_req trans p fresh sent answer s = do
  check (not s.wait_for_retry) assertion
  check (not (is_some s.pending_request)) assertion
  check (not (is_some s.pending_packet)) assertion
  (pkt, s') ← packet_for p.packet fresh p (emit (acquire trans) s)
  let asked = emit (send_timing_req pkt) (emit (push_sender_state pkt trans) s')
  if sent
      then (send_end_req trans answer asked >>= λ told. ok (emit (release trans) told))
      else ok (record asked {
        wait_for_retry = true;
        pending_request = some trans;
        pending_packet = some pkt;
      })

-- The `if (needToSendRetry)` of `handleEndResp`. `retry` is what gem5 does with the port inside
-- `sendRetryResp`: it may send a response at once.
unfoldable pub send_retry :
    Bool → (ScMasterPort → Outcome ScMasterPort) → ScMasterPort → Outcome ScMasterPort
send_retry true retry s = do
  s' ← retry (emit send_retry_resp s)
  ok (record s' { need_to_send_retry = false })
send_retry false retry s = ok s

unfoldable pub handle_end_resp :
    Bool → (ScMasterPort → Outcome ScMasterPort) → ScMasterPort → Outcome ScMasterPort
unfolding check_transaction
handle_end_resp error retry s = do
  check s.response_in_progress assertion
  check_transaction error
  send_retry s.need_to_send_retry retry (record s { response_in_progress = false })

-- The answer of the initiator to BEGIN_RESP: a status, and the phase as it left it.
abbrev on_begin_resp : Sync → Phase → ScMasterPort → Outcome ScMasterPort
on_begin_resp completed phase s = ok (record s { response_in_progress = false })
on_begin_resp updated phase s =
    if is_end_resp phase then ok (record s { response_in_progress = false }) else stop panicked
on_begin_resp accepted phase s = ok (record s { response_in_progress = true })

unfoldable pub send_begin_resp :
    (trans delay : ℕ) → Sync → Phase → ScMasterPort → Outcome ScMasterPort
send_begin_resp trans delay status phase s =
    on_begin_resp status phase
      (emit (transport_bw trans begin_resp delay) (emit (set_response_status trans ok_response) s))

-- What `recvTimingResp` reads of its packet: whether it is a response, the transaction of the
-- sender state on its top, if that is a `TlmSenderState`, whether that transaction carries an
-- extension, and the delay that the initiator is to pay.
pub record Response : Type 0 where
  pub pkt : ℕ
  pub is_response : Bool
  pub sender : Option ℕ
  pub piped : Bool
  pub payload_delay : ℕ

unfoldable pub recv_timing_resp :
    Response → Sync → Phase → ScMasterPort → Outcome (ScMasterPort × Bool)
unfolding send_begin_resp destroy_packet
recv_timing_resp r status phase s =
    if s.response_in_progress
    then check (not s.need_to_send_retry) assertion
      >> ok (record s { need_to_send_retry = true }, false)
    else do
      check r.is_response assertion
      trans ← need r.sender assertion
      let popped = emit (pop_sender_state r.pkt) (emit (reset_delays r.pkt) s)
      let s' = if r.piped then popped else destroy_packet r.pkt popped
      told ← send_begin_resp trans r.payload_delay status phase s'
      ok (emit (release trans) told, true)

-- `sent` is what `sendTimingReq` returns, `answer` what the initiator answers to END_REQ.
unfoldable pub recv_req_retry : Bool → Sync → ScMasterPort → Outcome ScMasterPort
unfolding send_end_req
recv_req_retry sent answer s = do
  check s.wait_for_retry assertion
  trans ← need s.pending_request assertion
  pkt ← need s.pending_packet assertion
  let asked = emit (send_timing_req pkt) s
  if sent
      then (send_end_req trans answer
            (record asked { wait_for_retry = false; pending_packet = none })
          >>= λ told. ok (record (emit (release trans) told) { pending_request = none }))
      else ok asked

-- What the callback of the payload event queue needs to know of gem5 and of the initiator.
pub record Answers : Type 0 where
  pub fresh : ℕ
  pub sent : Bool
  pub status : Sync
  pub error : Bool
  pub retry : ScMasterPort → Outcome ScMasterPort

abbrev pub on_phase : Phase → ℕ → Payload → Answers → ScMasterPort → Outcome ScMasterPort
on_phase begin_req trans p a s = handle_begin_req trans p a.fresh a.sent a.status s
on_phase end_resp trans p a s = handle_end_resp a.error a.retry s
on_phase end_req trans p a s = stop panicked
on_phase begin_resp trans p a s = stop panicked
on_phase other trans p a s = stop panicked

-- `catchup` makes gem5's time the time of SystemC, which the assertion after it states.
unfoldable pub peq_cb : ℕ → Payload → Phase → Answers → ScMasterPort → Outcome ScMasterPort
peq_cb trans p phase a s = do s' ← on_phase phase trans p a (emit catchup s); ok (emit notify s')
