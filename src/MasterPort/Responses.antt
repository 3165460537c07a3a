-- ===== src/MasterPort/Responses.antt =====
-- src/sc_master_port.cc, the response path: gem5's response becomes BEGIN_RESP, and END_RESP lets
-- the next one through.
use gem5_wrapper.Prelude.{
  ℕ, ◌≡◌, refl, Bool, true, false, some, List, ◌∷◌, arith, Outcome, ok, stop, assertion,
  if◌then◌else◌, ◌>>=◌,
}
use gem5_wrapper.Tlm.{
  Phase, begin_resp, Sync, accepted, updated, completed, ok_response, is_end_resp,
}
use gem5_wrapper.MasterPort.{
  Call, release, set_response_status, delete_packet, transport_bw, pop_sender_state, reset_delays,
  send_retry_resp, ScMasterPort, handle_end_resp, recv_timing_resp, Response, emit, send_retry,
}

-- Whether the initiator's answer to BEGIN_RESP leaves the response in progress.
abbrev goes_on : Sync → Bool
goes_on accepted = true
goes_on _ = false

abbrev is_expected : Sync → Phase → Bool
is_expected updated phase = is_end_resp phase
is_expected _ phase = true

-- A response of gem5 while none is in progress. The delays of the packet are taken, and the packet
-- is deleted unless it travels with the transaction; BEGIN_RESP goes out with the status set, and the reference is given back. Only if
-- the initiator accepts does the response stay in progress, to wait for END_RESP.
pub recv_timing_resp_sent :
    (r : Response) (t : ℕ) (status : Sync) (phase : Phase) (s : ScMasterPort)
    → s.response_in_progress ≡ false
    → r.is_response ≡ true
    → r.sender ≡ some t
    → is_expected status phase ≡ true
    → let deleted : List Call =
        if r.piped
        then pop_sender_state r.pkt ∷ reset_delays r.pkt ∷ s.calls
        else delete_packet r.pkt ∷ pop_sender_state r.pkt ∷ reset_delays r.pkt ∷ s.calls in
      recv_timing_resp r status phase s
      ≡ ok (
        record s {
          response_in_progress = goes_on status;
          calls =
              release t
              ∷ transport_bw t begin_resp r.payload_delay
              ∷ set_response_status t ok_response
              ∷ deleted;
        },
        true,
      )
unfolding recv_timing_resp
recv_timing_resp_sent r t accepted phase s f i k x = ground arith
recv_timing_resp_sent r t updated phase s f i k x = ground arith
recv_timing_resp_sent r t completed phase s f i k x = ground arith

-- The exclusion rule: a response that comes while another is in progress is refused, and noted for
-- a retry; nothing is called. If one was noted before, an assertion fails.
pub recv_timing_resp_refused :
    (r : Response) (status : Sync) (phase : Phase) (s : ScMasterPort)
    → s.response_in_progress ≡ true
    → recv_timing_resp r status phase s ≡ (
        if s.need_to_send_retry
        then stop assertion
        else ok (record s { need_to_send_retry = true }, false))
unfolding recv_timing_resp
recv_timing_resp_refused r status phase s p = ground arith

send_retry_lem :
    (owed : Bool) (retry : ScMasterPort → Outcome ScMasterPort) (s u : ScMasterPort)
    → retry (emit send_retry_resp s) ≡ ok u
    → send_retry owed retry s ≡ ok (if owed then record u { need_to_send_retry = false } else s)
unfolding send_retry
send_retry_lem true retry s u e = rw e
send_retry_lem false retry s u e = refl

-- END_RESP of a transaction without a response error. If a response was refused, gem5 is told to
-- retry, once; afterwards none is owed. `retry` is what gem5 does in between: here, nothing that
-- stops.
pub handle_end_resp_lem :
    (retry : ScMasterPort → Outcome ScMasterPort) (s u : ScMasterPort)
    → s.response_in_progress ≡ true
    → retry (record s { response_in_progress = false; calls = send_retry_resp ∷ s.calls }) ≡ ok u
    → handle_end_resp false retry s
      ≡ ok (
          if s.need_to_send_retry
          then record u { need_to_send_retry = false }
          else record s { response_in_progress = false })
unfolding handle_end_resp
handle_end_resp_lem retry s u p e =
    let free : ScMasterPort = record s { response_in_progress = false } in
    ground (arith, send_retry_lem s.need_to_send_retry retry free u e)

two_responses :
    (a b : Response) (t : ℕ) (status : Sync) (phase : Phase) (s : ScMasterPort)
    → s.need_to_send_retry ≡ true
    → s.response_in_progress ≡ false
    → a.is_response ≡ true
    → a.sender ≡ some t
    → send_retry s.need_to_send_retry
        (λ u. recv_timing_resp a accepted begin_resp u >>= λ v.
          recv_timing_resp b status phase v.0 >>= λ w. ok w.0)
        s
      ≡ stop assertion
unfolding send_retry recv_timing_resp
two_responses a b t status phase s n f i k = rw (n, f, i, k) (ground arith)

-- The flag is cleared only after gem5 was told to retry. So if gem5 answers the retry with a
-- response that stays in progress, and with a second one that has to wait, that second one fails
-- the assertion that no retry is owed yet.
pub handle_end_resp-second :
    (a b : Response) (t : ℕ) (status : Sync) (phase : Phase) (s : ScMasterPort)
    → s.response_in_progress ≡ true
    → s.need_to_send_retry ≡ true
    → a.is_response ≡ true
    → a.sender ≡ some t
    → handle_end_resp false
        (λ u. recv_timing_resp a accepted begin_resp u >>= λ v.
          recv_timing_resp b status phase v.0 >>= λ w. ok w.0)
        s
      ≡ stop assertion
unfolding handle_end_resp
handle_end_resp-second a b t status phase s p n i k =
    let free : ScMasterPort = record s { response_in_progress = false } in
    ground (arith, two_responses a b t status phase free n refl i k)
