-- ===== src/MasterPort/Runs.antt =====
-- Runs of the master port on concrete inputs.
use gem5_wrapper.Prelude.{◌≡◌, refl, true, false, none, some, [], ◌∷◌, ok}
use gem5_wrapper.Tlm.{begin_req, end_req, begin_resp, accepted, read, ok_response}
use gem5_wrapper.MasterPort.Blocking.{b_transport}
use gem5_wrapper.MasterPort.{
  Payload, read_req, acquire, release, set_response_status, new_packet, delete_packet,
  push_sender_state, send_timing_req, send_atomic, transport_bw, pop_sender_state, reset_delays,
  catchup, notify, ScMasterPort, new, handle_begin_req, recv_timing_resp, Response, recv_req_retry,
  Answers, peq_cb,
}

-- A read of 8 bytes without an extension.
abbrev pub read_8 : Payload
read_8 = record {
  address = 4096;
  data_length = 8;
  byte_enable_ptr = none;
  streaming_width = 8;
  command = read;
  data_ptr = 700;
  packet = none;
}

-- gem5 refuses the request, and does nothing at a retry.
abbrev pub refuses : Answers
refuses = record { fresh = 90; sent = false; status = accepted; error = false; retry = λ u. ok u }

-- The port that waits for the retry of the transaction 5.
abbrev pub waiting : ScMasterPort
waiting = record new {
  wait_for_retry = true;
  pending_request = some 5;
  pending_packet = some 90;
  calls =
      notify
      ∷ send_timing_req 90
      ∷ push_sender_state 90 5
      ∷ new_packet 90 read_req 4096 8 700
      ∷ acquire 5
      ∷ catchup
      ∷ [];
}

pub waiting_test : peq_cb 5 read_8 begin_req refuses new ≡ ok waiting
unfolding peq_cb handle_begin_req new
waiting_test = refl

-- gem5 has taken the request at its retry.
abbrev pub taken : ScMasterPort
taken = record waiting {
  wait_for_retry = false;
  pending_request = none;
  pending_packet = none;
  calls = release 5 ∷ transport_bw 5 end_req 0 ∷ send_timing_req 90 ∷ waiting.calls;
}

pub taken_test : recv_req_retry true accepted waiting ≡ ok taken
unfolding recv_req_retry new
taken_test = refl

abbrev pub reply : Response
reply = record { pkt = 90; is_response = true; sender = some 5; piped = false; payload_delay = 30 }

-- The response has begun.
abbrev pub responding : ScMasterPort
responding = record taken {
  response_in_progress = true;
  calls =
      release 5
      ∷ transport_bw 5 begin_resp 30
      ∷ set_response_status 5 ok_response
      ∷ delete_packet 90
      ∷ pop_sender_state 90
      ∷ reset_delays 90
      ∷ taken.calls;
}

-- A second response was refused.
abbrev pub owing : ScMasterPort
owing = record responding { need_to_send_retry = true }

pub responding_test : recv_timing_resp reply accepted begin_resp taken ≡ ok (responding, true)
unfolding recv_timing_resp new
responding_test = refl

pub owing_test : recv_timing_resp reply accepted begin_resp responding ≡ ok (owing, false)
unfolding recv_timing_resp new
owing_test = refl

b_transport_test :
    b_transport 5 read_8 90 4000 2 true true 10 new
    ≡ ok (
      record new {
        calls =
            set_response_status 5 ok_response
            ∷ delete_packet 90
            ∷ send_atomic 90
            ∷ new_packet 90 read_req 4096 8 700
            ∷ [];
      },
      2010,
    )
unfolding b_transport new
b_transport_test = refl
