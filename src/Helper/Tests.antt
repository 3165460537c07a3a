-- ===== src/Helper/Tests.antt =====
-- Runs of the helper, and the theorems about it at concrete inputs.
use gem5_wrapper.Prelude.{◌≤◌, ◌≡◌, refl, true, none, some, [], ◌∷◌, arith, ok, stop, assertion}
use gem5_wrapper.Prelude.Map.{find, assign, insert, keys}
use gem5_wrapper.Helper.{
  request, response, BlockingPacketHelper, new, init, init_map, updated, update_blocking_map,
  get_blocking_trans, is_blocked_port, is_blocking_trans, system_port_flag, get_blocking_response,
}
use gem5_wrapper.Helper.Channels.{IsReady, init-IsReady, update-refines, updated-IsReady}
use gem5_wrapper.Helper.Search.{
  update_retry_map-refines, is_blocking_trans_iff, get_blocking_response_lowest,
  last_socket_unreadable,
}

-- Two cores, nothing blocked.
abbrev two_cores : BlockingPacketHelper
two_cores = init 2 (new 7)

-- The response 9 blocks socket 1, the request 5 socket 0.
abbrev busy : BlockingPacketHelper
busy = updated 0 (some 5) request (updated 1 (some 9) response two_cores)

busy-IsReady : IsReady busy
busy-IsReady = updated-IsReady 0 _ request (updated-IsReady 1 _ response (init-IsReady 2 7))

slots_test : keys two_cores.blocking_request_map ≡ 0 ∷ 1 ∷ 2 ∷ []
unfolding init init_map insert new
slots_test = refl

blocked_test : is_blocked_port 0 request busy ≡ ok true
unfolding is_blocked_port get_blocking_trans init init_map insert new find assign system_port_flag
blocked_test = refl

out_of_range_test : update_blocking_map 3 none request two_cores ≡ stop assertion
unfolding update_blocking_map init new
out_of_range_test = refl

update-refines_example :
    IsReady (update-refines busy 1 (some 6) request busy-IsReady (unfold init new in omega arith)).0
unfolding init new
update-refines_example = (update-refines busy 1 (some 6) request busy-IsReady (omega arith)).2

update_retry_map_refines_test :
    IsReady (update_retry_map-refines busy 1 true busy-IsReady (unfold init new in omega arith)).0
unfolding init new
update_retry_map_refines_test = (update_retry_map-refines busy 1 true busy-IsReady (omega arith)).2

is_blocking_trans_iff_test : is_blocking_trans (some 5) response busy ≡ true
unfolding init init_map insert new find assign system_port_flag
is_blocking_trans_iff_test =
    (is_blocking_trans_iff busy 5 response busy-IsReady).1 (0, omega arith, refl)

get_blocking_response_lowest_test :
    (get_blocking_response_lowest busy 9 busy-IsReady (
      unfold get_blocking_response init init_map insert new find assign system_port_flag in refl)).0
    ≤ busy.socket_num
unfolding get_blocking_response init init_map insert new find assign system_port_flag
get_blocking_response_lowest_test = (get_blocking_response_lowest busy 9 busy-IsReady refl).1

last_socket_unreadable_test :
    get_blocking_trans two_cores.socket_num request two_cores ≡ stop assertion
unfolding init new
last_socket_unreadable_test =
    (last_socket_unreadable two_cores (some 4) request (init-IsReady 2 7) refl).1
