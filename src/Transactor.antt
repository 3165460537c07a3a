-- ===== src/Transactor.antt =====
-- include/slave_transactor.hh, src/slave_transactor.cc, include/master_transactor.hh and
-- src/master_transactor.cc: the modules that own the sockets, and how they bind themselves to the
-- ports of gem5.
pub mod Names
pub mod Elaboration
pub mod Tests
use Prim.Native.String.{String, ◌++◌ as append}
use text.Mathlib.Text.{◌==◌ as str_eq}
use gem5_wrapper.Prelude.{
  ℕ, zero, suc, ◌+◌, ◌%◌, ◌^◌, Option, none, some, List, [], ◌∷◌, ◌++◌, ltb, not, Outcome, ok,
  check, ◌>>=◌, ◌>>◌, assertion, sc_error,
}
use gem5_wrapper.Prelude.Map.{Map}
use gem5_wrapper.Prelude.Decimal.{to_string}
use gem5_wrapper.SlavePort.State.{ScSlavePort, Multi, update}
use gem5_wrapper.SlavePort.Sockets.{bind_single, bind_multi}
use gem5_wrapper.MasterPort.{ScMasterPort, Mode}
use gem5_wrapper.MasterPort.Blocking.{bind_to_transactor}
use gem5_wrapper.SimControl.{Gem5SimControl, get_slave_port, get_master_port}

-- `Gem5SlaveTransactor_Multi`: what the port reads of it, and what names the sockets.
pub record Transactor : Type 0 where
  pub port_name : String
  pub multi : Multi
  pub count : ℕ
  pub sockets : List String

unfoldable pub get_name_for_new_socket : String → Transactor → Outcome (String × Transactor)
get_name_for_new_socket name t = do
  check (ltb t.count t.multi.socket_num) assertion
  ok (append name (to_string t.count), record t { count = (t.count + 1) % 2 ^ 32 })

-- The socket is put behind those that `sc_vector` holds.
unfoldable pub create_socket : Transactor → Outcome Transactor
unfolding get_name_for_new_socket
create_socket t = do
  (name, t') ← get_name_for_new_socket t.port_name t
  ok (record t' { sockets = t'.sockets ++ name ∷ [] })

-- `sockets.init`: SystemC calls `create_socket` for each of the sockets.
unfoldable pub init_sockets : ℕ → Transactor → Outcome Transactor
unfolding create_socket
init_sockets zero t = ok t
init_sockets (suc rounds) t = create_socket t >>= λ t'. init_sockets rounds t'

unfoldable pub new_multi : String → ℕ → Outcome Transactor
unfolding init_sockets
new_multi port_name socket_num = do
  check (not (str_eq port_name "")) sc_error
  init_sockets socket_num (record {
    port_name = port_name;
    multi = record { socket_num = socket_num; socket_core_map = [] };
    count = 0;
    sockets = [];
  })

unfoldable pub set_socket_core_map : Map (List ℕ) → Transactor → Transactor
set_socket_core_map m t = record t {
  multi = record { socket_num = t.multi.socket_num; socket_core_map = m };
}

-- `getInstance`: a transactor that is there is answered, whatever the arguments are.
unfoldable pub get_instance : Option Transactor → String → ℕ → Outcome Transactor
unfolding new_multi
get_instance none port_name socket_num = new_multi port_name socket_num
get_instance (some t) port_name socket_num = ok t

-- The slave ports after the transactor has bound itself to the one of its name.
unfoldable pub before_end_of_elaboration :
    Gem5SimControl → (ℕ → ScSlavePort) → Transactor → Outcome (ℕ → ScSlavePort)
unfolding get_slave_port bind_multi
before_end_of_elaboration c store t = do
  (port, store') ← get_slave_port t.port_name c store
  s ← bind_multi t.multi (store' port)
  ok (update store' port s)

-- The constructor of `Gem5SlaveTransactor` and that of `Gem5MasterTransactor`: all that they keep
-- is the name of the port.
unfoldable pub new_single : String → Outcome String
new_single port_name = do check (not (str_eq port_name "")) sc_error; ok port_name

unfoldable pub new_master : String → Outcome String
new_master port_name = do check (not (str_eq port_name "")) sc_error; ok port_name

unfoldable pub before_end_of_elaboration_single :
    Gem5SimControl → (ℕ → ScSlavePort) → String → Outcome (ℕ → ScSlavePort)
unfolding get_slave_port bind_single
before_end_of_elaboration_single c store port_name = do
  (port, store') ← get_slave_port port_name c store
  s ← bind_single (store' port)
  ok (update store' port s)

unfoldable pub before_end_of_elaboration_master :
    Mode → Gem5SimControl → (ℕ → ScMasterPort) → String → Outcome (ℕ → ScMasterPort)
unfolding get_master_port bind_to_transactor
before_end_of_elaboration_master mode c store port_name = do
  port ← get_master_port port_name c
  s ← bind_to_transactor mode (store port)
  ok (update store port s)
