-- ===== src/SlavePort/DrivenTests.antt =====
-- A run of the slave port in which gem5 sends a request again inside `sendRetryReq`.
use gem5_wrapper.Prelude.{
  ◌≡◌, refl, ap, ◌∙◌, true, false, none, some, [], ◌∷◌, arith, ok, >>=-eq-ok,
}
use gem5_wrapper.Prelude.Map.{find, assign, insert, find-assign}
use gem5_wrapper.Tlm.{begin_req, end_req}
use gem5_wrapper.Helper
use gem5_wrapper.Helper.{
  request, response, init, init_map, get_blocking_trans, is_blocked_port, system_port_flag,
  need_to_send_request_retry, update_blocking_map, update_retry_map, write_retry, is_blocking_trans,
  holds,
}
use gem5_wrapper.Helper.Channels.{init-slot_free}
use gem5_wrapper.MemoryManager.{allocate}
use gem5_wrapper.SlavePort.State.{
  Payload, ScSlavePort, numbered, acquire, reset_delays, transport_fw, packet2payload, socket_for,
  update, get_extension,
}
use gem5_wrapper.SlavePort.Sockets.{get_socket_id, socket_in}
use gem5_wrapper.SlavePort.Request.{
  recv_timing_req, send_request, on_status, request_socket, refuse,
}
use gem5_wrapper.SlavePort.Request
use gem5_wrapper.SlavePort.Event.{Answer, pec, ends_request, end_request, end_core_request}
use gem5_wrapper.SlavePort.Invariant.{Inv, IsUnused}
use gem5_wrapper.SlavePort.Retry.{retrying}
use gem5_wrapper.SlavePort.Retried.{sends_again, refusing}
use gem5_wrapper.SlavePort.Driven.{Run, driven-Inv}
use gem5_wrapper.SlavePort.Runs.{
  blank, payloads, pool, cores, multi, port, port_test, load, accepts,
}

abbrev loaded : Payload
loaded = record blank {
  address = 4096;
  data_length = 8;
  streaming_width = 8;
  data_ptr = 700;
  extension = some (record { packet = 60; core_id = 1 });
}

-- The load blocks core 1.
abbrev first : ScSlavePort
first = record port {
  helper = Helper.updated 1 (some 11) request port.helper;
  payloads = update port.payloads 11 loaded;
  mm = record pool { number_of_allocations = 1 };
  calls = transport_fw (numbered 1) 11 begin_req 20 ∷ reset_delays 60 ∷ acquire 11 ∷ [];
}

-- gem5 loads once more, in vain; and again when it is told to.
abbrev next_accepts : Request.Answer
next_accepts = record accepts { fresh = 12 }

abbrev retries : Answer
retries = record {
  retry = sends_again load next_accepts;
  caught_up = true;
  needs_response = false;
  is_response = false;
  taken = false;
}

abbrev freed_port : ScSlavePort
freed_port = retrying 1 (refusing 1 first)

abbrev sent_again : ScSlavePort
sent_again = record freed_port {
  helper = Helper.updated 1 (some 12) request freed_port.helper;
  payloads = update first.payloads 12 loaded;
  mm = record pool { number_of_allocations = 2 };
  calls =
      transport_fw (numbered 1) 12 begin_req 20 ∷ reset_delays 60 ∷ acquire 12 ∷ freed_port.calls;
}

first_test : recv_timing_req load accepts port ≡ ok (first, true)
unfolding recv_timing_req get_socket_id socket_in is_blocked_port get_blocking_trans send_request
    packet2payload socket_for allocate init init_map insert Helper.new find on_status
    update_blocking_map system_port_flag
first_test = refl

refused_test : recv_timing_req load next_accepts first ≡ ok (refusing 1 first, false)
unfolding recv_timing_req get_socket_id socket_in is_blocked_port get_blocking_trans refuse
    update_retry_map init init_map insert Helper.new find assign system_port_flag
refused_test = refl

again_test : recv_timing_req load next_accepts freed_port ≡ ok (sent_again, true)
unfolding recv_timing_req get_socket_id socket_in is_blocked_port get_blocking_trans send_request
    packet2payload socket_for allocate init init_map insert Helper.new find on_status assign
    update_blocking_map system_port_flag write_retry
again_test = refl

end_req_test : pec 11 end_req retries (refusing 1 first) ≡ ok sent_again
unfolding pec ends_request end_request end_core_request get_extension is_blocking_trans holds
    update_blocking_map need_to_send_request_retry update_retry_map sends_again init init_map insert
    Helper.new find assign system_port_flag write_retry
end_req_test = rw again_test refl

port-IsUnused : IsUnused port.helper (allocate accepts.fresh port.mm).0
unfolding allocate
port-IsUnused type c e = ground (arith, e, init-slot_free 2 7 c (some 11) type)

first-IsUnused : IsUnused first.helper (allocate next_accepts.fresh first.mm).0
unfolding allocate
first-IsUnused request c e = ground (
  arith,
  e,
  find-assign 1 c (some 11) port.helper.blocking_request_map,
  init-slot_free 2 7 c (some 12) request,
)
first-IsUnused response c e = ground (arith, e, init-slot_free 2 7 c (some 12) response e)

freed_port-IsUnused : IsUnused freed_port.helper (allocate next_accepts.fresh freed_port.mm).0
unfolding allocate
freed_port-IsUnused request c e = ground (
  arith,
  e,
  find-assign 1 c none (assign 1 (some 11) port.helper.blocking_request_map),
  find-assign 1 c (some 11) port.helper.blocking_request_map,
  init-slot_free 2 7 c (some 12) request,
)
freed_port-IsUnused response c e = ground (arith, e, init-slot_free 2 7 c (some 12) response e)

-- What gem5 does inside `sendRetryReq` is a call of the port.
nested_run : (m : ScSlavePort) → sends_again load next_accepts freed_port ≡ ok m → Run freed_port m
unfolding sends_again
nested_run m d =
    let (x, sent, same) = >>=-eq-ok (recv_timing_req load next_accepts freed_port) _ d in
    let here : x.0 ≡ m = cc in
    Run.requested load next_accepts freed_port-IsUnused
      (sent ∙ ap (λ (y : ScSlavePort). ok (y, x.1)) here) Run.done

whole_run : Run port sent_again
whole_run = Run.requested load accepts port-IsUnused first_test (
    Run.requested load next_accepts first-IsUnused refused_test
      (Run.delivered 11 end_req retries nested_run end_req_test Run.done))

driven-Inv_example : Inv sent_again
driven-Inv_example = driven-Inv payloads pool 7 cores multi port_test whole_run
