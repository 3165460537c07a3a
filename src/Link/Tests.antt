-- ===== src/Link/Tests.antt =====
-- A run of a core's socket and its router, and the theorem about it at concrete inputs.
use gem5_wrapper.Prelude.{◌≡◌, refl, true, false, none, ok}
use gem5_wrapper.Helper
use gem5_wrapper.Helper.{response, init, init_map, get_blocking_trans, need_to_send_request_retry}
use gem5_wrapper.Prelude.Map.{insert, find}
use gem5_wrapper.SlavePort.Request.{request_socket}
use gem5_wrapper.SlavePort.Sockets.{get_socket_id, socket_in}
use gem5_wrapper.SlavePort.Event.{Answer}
use gem5_wrapper.SlavePort.Runs.{load, port, port-Inv}
use gem5_wrapper.SlavePort.Tests.{load-IsSendable}
use gem5_wrapper.Router.{new, to_mem}
use gem5_wrapper.Link.{Link}
use gem5_wrapper.Link.Served.{IsIdle}
use gem5_wrapper.Link.Transaction.{IsTaken, transact-completes}

-- A router of a memory of 64 KiB from 0 on.
abbrev link : Link
link = record { port = port; router = new 0 65536 }

-- gem5 takes the response.
abbrev takes : Answer
takes = record {
  retry = λ s. ok s;
  caught_up = true;
  needs_response = true;
  is_response = true;
  taken = true;
}

idle : IsIdle (new 0 65536)
unfolding new
idle = record { free = refl; quiet = refl; no_next = refl; none_waits = refl; asleep = refl }

takes-IsTaken : IsTaken takes
takes-IsTaken = record { in_time = refl; needs_response = refl; is_response = refl; taken = refl }

in_memory_test : to_mem link.router load.addr ≡ true
unfolding to_mem new
in_memory_test = refl

owed_test : need_to_send_request_retry (request_socket load port) port.helper ≡ ok false
unfolding need_to_send_request_retry request_socket get_socket_id socket_in init init_map insert
    find Helper.new
owed_test = refl

free_test : get_blocking_trans (request_socket load port) response port.helper ≡ ok none
unfolding get_blocking_trans request_socket get_socket_id socket_in init init_map insert find
    Helper.new
free_test = refl

transact-completes_example :
    IsIdle
      (transact-completes load 11 takes link port-Inv idle load-IsSendable in_memory_test owed_test
        free_test takes-IsTaken).0.router
transact-completes_example =
    (transact-completes load 11 takes link port-Inv idle load-IsSendable in_memory_test owed_test
      free_test takes-IsTaken).5
