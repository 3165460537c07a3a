-- ===== src/SlavePort/RetriedTests.antt =====
-- A request that is refused and sent again, at concrete inputs.
use gem5_wrapper.Prelude.{◌≡◌, refl, true, false, none, some, [], ◌∷◌, arith}
use gem5_wrapper.Prelude.Map.{find, assign, insert, find-assign}
use gem5_wrapper.Tlm.{begin_req}
use gem5_wrapper.Helper
use gem5_wrapper.Helper.{
  PktType, request, response, init, init_map, slots, get_blocking_trans, is_blocked_port,
  system_port_flag, need_to_send_request_retry,
}
use gem5_wrapper.Helper.Channels.{init-slot_free}
use gem5_wrapper.MemoryManager.{allocate}
use gem5_wrapper.SlavePort.State.{
  Packet, ScSlavePort, numbered, acquire, reset_delays, transport_fw, send_retry_req,
  packet2payload, socket_for,
}
use gem5_wrapper.SlavePort.Sockets.{get_socket_id, socket_in}
use gem5_wrapper.SlavePort.Request.{request_socket}
use gem5_wrapper.SlavePort.Event.{Answer}
use gem5_wrapper.SlavePort.Invariant.{IsUnused}
use gem5_wrapper.SlavePort.Exclusion.{IsRequest, IsSendable}
use gem5_wrapper.SlavePort.Retry.{IsBlocked, retrying}
use gem5_wrapper.SlavePort.Retried.{sends_again, refusing, end_req-retried}
use gem5_wrapper.SlavePort.Runs.{load, accepts, port, requested, requested-Inv}

-- A read of requestor 3, and so of core 0, which the request 9 blocks.
abbrev second_load : Packet
second_load = record load { requestor_id = 3 }

abbrev retries : Answer
retries = record {
  retry = sends_again second_load accepts;
  caught_up = true;
  needs_response = false;
  is_response = false;
  taken = false;
}

abbrev free_again : ScSlavePort
free_again = retrying 0 (refusing 0 requested)

free_again-IsUnused : IsUnused free_again.helper 11
free_again-IsUnused request c e = ground (
  arith,
  e,
  find-assign 0 c none (assign 0 (some 9) port.helper.blocking_request_map),
  find-assign 0 c (some 9) port.helper.blocking_request_map,
  init-slot_free 2 7 c (some 11) request,
)
free_again-IsUnused response c e = ground (arith, e, init-slot_free 2 7 c (some 11) response e)

second_load-IsSendable : IsSendable second_load accepts free_again
unfolding request_socket get_socket_id socket_in get_blocking_trans init init_map insert Helper.new
    find assign packet2payload socket_for allocate system_port_flag
second_load-IsSendable = record {
  is_request = record { in_time = refl; unanswered = refl; kind = refl };
  in_range = omega arith;
  free = refl;
  payload = _;
  converted = refl;
  target = numbered 0;
  bound = refl;
  unused = free_again-IsUnused;
}

socket_test : request_socket second_load requested ≡ 0
unfolding request_socket get_socket_id socket_in
socket_test = refl

requested-IsBlocked : IsBlocked requested 9 0
unfolding init init_map insert Helper.new find assign
requested-IsBlocked = record { in_range = omega arith; blocks = refl }

second_load-IsRequest : IsRequest second_load accepts
second_load-IsRequest = record { in_time = refl; unanswered = refl; kind = refl }

end_req-retried_example :
    (end_req-retried 9 0 second_load accepts retries requested requested-Inv requested-IsBlocked
      second_load-IsRequest socket_test refl refl refl second_load-IsSendable).1.calls
    ≡ transport_fw (numbered 0) 11 begin_req 20 ∷ reset_delays 60 ∷ acquire 11 ∷ send_retry_req ∷ []
unfolding allocate second_load-IsSendable
end_req-retried_example =
    (end_req-retried 9 0 second_load accepts retries requested requested-Inv requested-IsBlocked
      second_load-IsRequest socket_test refl refl refl second_load-IsSendable).5
