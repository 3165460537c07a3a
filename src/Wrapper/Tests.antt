-- ===== src/Wrapper/Tests.antt =====
-- Runs of the wrapper, and the theorems about it at concrete inputs.
use gem5_wrapper.Prelude.{◌≡◌, ◌<◌, refl, some, [], ◌∷◌, ◌++◌, arith, ok, stop, bad_access}
use gem5_wrapper.Prelude.Map.{find, insert}
use gem5_wrapper.Prelude.Decimal.{to_string, decimal, digit}
use gem5_wrapper.SlavePort.State.{update}
use gem5_wrapper.Transactor.{
  Transactor, new_multi, init_sockets, create_socket, get_name_for_new_socket,
}
use gem5_wrapper.Wrapper.{
  bind_socket, Gem5Wrapper, new, create_sim_control, create_transactor, create_txn_router,
  bind_sim_control2transactor, bind_txn_router2transactor, bind_txn_router2bus,
}
use gem5_wrapper.Wrapper.Steps.{
  Reach, begin, next, makes_control, makes_transactor, makes_router, binds_control, bound,
}
use gem5_wrapper.Wrapper.Binding.{Reach-IsBoundOnce}
use gem5_wrapper.Wrapper.Routers.{create_txn_router-binds}

abbrev blank : Transactor
blank = record {
  port_name = "";
  multi = record { socket_num = 0; socket_core_map = [] };
  count = 0;
  sockets = [];
}

abbrev two_sockets : Transactor
two_sockets = record {
  port_name = "cpu";
  multi = record { socket_num = 2; socket_core_map = [] };
  count = 2;
  sockets = "cpu0" ∷ "cpu1" ∷ [];
}

-- The control 9; then the transactor 20 as well; then the router 50 under the id 0.
abbrev controlled : Gem5Wrapper
controlled = create_sim_control 9 (new (λ p. blank))

abbrev equipped : Gem5Wrapper
equipped = record controlled { transactors = 20 ∷ []; objects = update (λ p. blank) 20 two_sockets }

abbrev routed : Gem5Wrapper
routed = (create_txn_router 50 0 equipped).1

equipped_test : create_transactor 20 "cpu" 2 controlled ≡ ok equipped
unfolding create_transactor new_multi init_sockets create_socket get_name_for_new_socket to_string
    decimal digit create_sim_control new
equipped_test = refl

routed-Reach : Reach routed
routed-Reach =
    next
      (next (next (begin (λ p. blank)) (makes_control 9))
        (makes_transactor 20 "cpu" 2 equipped_test))
      (makes_router 50 0)

Reach-IsBoundOnce_example :
    (bind_sim_control2transactor routed).transactors
    ≡ bound (bind_sim_control2transactor routed).calls
      ++ (Reach-IsBoundOnce (next routed-Reach binds_control)).late
Reach-IsBoundOnce_example = (Reach-IsBoundOnce (next routed-Reach binds_control)).parts

two_test : 1 < (routed.objects 20).multi.socket_num
unfolding create_txn_router create_sim_control new
two_test = omega arith

-- A second router under the id 0 is answered, and the first one is bound.
create_txn_router-binds_test :
    bind_txn_router2transactor 0 1 0 (create_txn_router 60 0 routed).1
    ≡ ok (record (create_txn_router 60 0 routed).1 { calls = bind_socket 20 1 50 ∷ [] })
unfolding create_txn_router insert find create_sim_control new
create_txn_router-binds_test =
    (create_txn_router-binds 60 0 0 1 0 20 routed routed-Reach refl two_test).1

-- The bus has two sockets for routers, which the index is not checked against.
bus_test :
    bind_txn_router2bus 0 2
      (record routed { bus_instance = some (record { ptr = 70; ports = [] }) })
    ≡ stop bad_access
unfolding bind_txn_router2bus create_txn_router insert find create_sim_control new
bus_test = refl
