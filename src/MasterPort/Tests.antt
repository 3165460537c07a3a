-- ===== src/MasterPort/Tests.antt =====
-- Runs of the master port, and the theorems about it at concrete inputs.
use gem5_wrapper.Prelude.{◌≡◌, refl, true, false, some, [], ◌∷◌, arith, ok, stop, assertion, ◌>>=◌}
use gem5_wrapper.Tlm.{begin_req, end_req, begin_resp, end_resp, accepted, ok_response}
use gem5_wrapper.MasterPort.{
  read_req, acquire, release, peq_notify, set_response_status, new_packet, delete_packet,
  push_sender_state, send_timing_req, send_retry_resp, transport_bw, pop_sender_state, reset_delays,
  ScMasterPort, new, nb_transport_fw, handle_begin_req, handle_end_resp, recv_timing_resp,
  recv_req_retry, send_retry,
}
use gem5_wrapper.MasterPort.Consistency.{
  IsConsistent, Reach, start, later, delivered, retried, responded, Reach-IsConsistent,
}
use gem5_wrapper.MasterPort.Requests.{handle_begin_req_lem, recv_req_retry_lem}
use gem5_wrapper.MasterPort.Responses.{
  recv_timing_resp_sent, handle_end_resp_lem, handle_end_resp-second,
}
use gem5_wrapper.MasterPort.References.{Life, Life-leaks, Moves}
use gem5_wrapper.MasterPort.Runs.{
  owing, owing_test, read_8, refuses, reply, responding, responding_test, taken, taken_test,
  waiting, waiting_test,
}

Reach-owing : Reach owing
Reach-owing =
    later
      (later
        (later
          (later start
            (delivered 5 read_8 begin_req refuses (λ u u' w e. ground (arith, e)) waiting_test))
          (retried true accepted taken_test))
        (responded reply accepted begin_resp responding_test))
      (responded reply accepted begin_resp owing_test)

Reach-IsConsistent_example : IsConsistent owing
Reach-IsConsistent_example = Reach-IsConsistent Reach-owing

handle_begin_req_lem_test :
    handle_begin_req 5 read_8 90 false accepted new
    ≡ ok (record new {
      wait_for_retry = true;
      pending_request = some 5;
      pending_packet = some 90;
      calls =
          send_timing_req 90
          ∷ push_sender_state 90 5
          ∷ new_packet 90 read_req 4096 8 700
          ∷ acquire 5
          ∷ [];
    })
unfolding new
handle_begin_req_lem_test =
    handle_begin_req_lem 5 read_8 90 false new (record { request = refl; packet = refl }) refl refl

recv_req_retry_test : recv_req_retry true accepted waiting ≡ ok taken
unfolding new
recv_req_retry_test =
    recv_req_retry_lem 5 90 true waiting (record { request = refl; packet = refl }) refl refl

recv_timing_resp_sent_test :
    recv_timing_resp reply accepted begin_resp taken ≡ ok (responding, true)
unfolding new
recv_timing_resp_sent_test =
    recv_timing_resp_sent reply 5 accepted begin_resp taken refl refl refl refl

-- gem5 does nothing inside `sendRetryResp`.
handle_end_resp_test :
    handle_end_resp false (λ u. ok u) owing
    ≡ ok (record owing {
      need_to_send_retry = false;
      response_in_progress = false;
      calls = send_retry_resp ∷ owing.calls;
    })
handle_end_resp_test = handle_end_resp_lem (λ u. ok u) owing _ refl refl

handle_end_resp_second_test :
    handle_end_resp false
      (λ u. recv_timing_resp reply accepted begin_resp u >>= λ v.
        recv_timing_resp reply accepted begin_resp v.0 >>= λ w. ok w.0)
      owing
    ≡ stop assertion
handle_end_resp_second_test =
    handle_end_resp-second reply reply 5 accepted begin_resp owing refl refl refl refl

-- The whole life of the transaction 5, taken by gem5 at once.
abbrev started : ScMasterPort
started = record new {
  calls =
      release 5
      ∷ transport_bw 5 end_req 0
      ∷ send_timing_req 90
      ∷ push_sender_state 90 5
      ∷ new_packet 90 read_req 4096 8 700
      ∷ acquire 5
      ∷ peq_notify 5 begin_req
      ∷ acquire 5
      ∷ [];
}

abbrev ended : ScMasterPort
ended = record started {
  calls =
      peq_notify 5 end_resp
      ∷ acquire 5
      ∷ release 5
      ∷ transport_bw 5 begin_resp 30
      ∷ set_response_status 5 ok_response
      ∷ delete_packet 90
      ∷ pop_sender_state 90
      ∷ reset_delays 90
      ∷ started.calls;
}

life : Life 5 new ended
unfolding nb_transport_fw handle_begin_req recv_timing_resp handle_end_resp send_retry new
life = record {
  payload = read_8;
  new = 90;
  sent = true;
  answer = accepted;
  response = reply;
  status = accepted;
  phase = begin_resp;
  retry = λ u. ok u;
  begun = started;
  taken = started;
  answered = record started {
    response_in_progress = true;
    calls =
        release 5
        ∷ transport_bw 5 begin_resp 30
        ∷ set_response_status 5 ok_response
        ∷ delete_packet 90
        ∷ pop_sender_state 90
        ∷ reset_delays 90
        ∷ started.calls;
  };
  queued = refl;
  begins = refl;
  takes = refl;
  sender = refl;
  answers = refl;
  queued_end = refl;
  none_owed = refl;
  ends = refl;
}

Life-leaks_example : Moves 5 new ended 3 2
Life-leaks_example = Life-leaks life
