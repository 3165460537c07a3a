-- ===== src/Transactor/Tests.antt =====
-- Runs of the transactors, and the theorems about them at concrete inputs.
use Prim.Native.String.{String}
use text.Mathlib.TextEquality.{eq_iff}
use gem5_wrapper.Prelude.{
  ◌≡◌, ◌≢◌, ◌<◌, ◌^◌, refl, true, false, [], ◌∷◌, arith, length, stop, sc_error,
}
use gem5_wrapper.Prelude.Decimal.{to_string, decimal, digit}
use gem5_wrapper.SimControl.{tlm_slave, tlm_master}
use gem5_wrapper.SimControl.Lifecycle.{Setup}
use gem5_wrapper.Transactor.{Transactor, new_multi}
use gem5_wrapper.Transactor.Names.{new_multi-sockets}

to_string_test : to_string 4096 ≡ "4096"
unfolding to_string decimal digit
to_string_test = refl

named : ◌≢◌ {A = String} "cpu" ""
named e = absurd (true_false ((eq_iff "cpu" "").1 e))
  where
    true_false : false ≡ true → ⊥
    true_false x = cc

small_test : 2 < 2 ^ 32
small_test = omega arith

new_multi-sockets_example : length (new_multi-sockets "cpu" 2 named small_test).0.sockets ≡ 2
new_multi-sockets_example = (new_multi-sockets "cpu" 2 named small_test).2

nameless_test : new_multi "" 2 ≡ stop sc_error
unfolding new_multi
nameless_test = refl

abbrev setup : Setup
setup = record {
  resolution_is_ps = true;
  queues = [];
  opens = true;
  external = tlm_slave "dma" 200 ∷ tlm_master "memory" 300 ∷ tlm_slave "cpu" 100 ∷ [];
  raises = false;
  cpu_names = "cpu1" ∷ "cpu0" ∷ [];
  requestors = record { inst = λ core. 5; data_id = λ core. 6 };
}

abbrev two_sockets : Transactor
two_sockets = record {
  port_name = "cpu";
  multi = record { socket_num = 2; socket_core_map = [] };
  count = 2;
  sockets = "cpu0" ∷ "cpu1" ∷ [];
}
