-- ===== src/SimControl.antt =====
-- include/sim_control.hh and src/sim_control.cc: the registry of the ports that gem5 creates, and
-- which requestors belong to which core. A port is a number (a pointer). Slave ports live in a
-- store, since a lookup changes the port that it finds.
pub mod Registry
pub mod Cores
pub mod Flags
pub mod Lifecycle
pub mod Tests
use Prim.Native.String.{String}
use text.Mathlib.Text.{◌==◌ as str_eq}
use gem5_wrapper.Prelude.{
  ℕ, ◌+◌, Option, none, some, List, [], ◌∷◌, ◌++◌, contains, if◌then◌else◌, is_some, not, Outcome,
  ok, check, need, ◌>>=◌, ◌>>◌, exited,
}
use gem5_wrapper.Prelude.Names.{Names, find_name, set_name}
use gem5_wrapper.SlavePort.State.{ScSlavePort, update}
use gem5_wrapper.SlavePort.Sockets.{update_core_port_map}

pub record Gem5SimControl : Type 0 where
  pub simulation_end : ℕ
  pub slave_ports : Names ℕ
  pub master_ports : Names ℕ
  pub cpu_ports : Names (List ℕ)

-- One of the two maps, before and after a registration.
unfoldable pub register : String → ℕ → Names ℕ → Outcome (Names ℕ)
register name port m = do check (not (is_some (find_name name m))) exited; ok (set_name name port m)

unfoldable pub register_slave_port : String → ℕ → Gem5SimControl → Outcome Gem5SimControl
unfolding register
register_slave_port name port c = do
  m ← register name port c.slave_ports
  ok (record c { slave_ports = m })

unfoldable pub register_master_port : String → ℕ → Gem5SimControl → Outcome Gem5SimControl
unfolding register
register_master_port name port c = do
  m ← register name port c.master_ports
  ok (record c { master_ports = m })

-- A port that gem5 asks the handler for slave ports or the one for master ports to make.
pub data External : Type 0 where
  tlm_slave tlm_master : String → ℕ → External

-- `getExternalPort` of the two handlers. `fresh` is a new slave port.
unfoldable pub get_external_port :
    ScSlavePort
    → External
    → Gem5SimControl × (ℕ → ScSlavePort)
    → Outcome (Gem5SimControl × (ℕ → ScSlavePort))
unfolding register_slave_port register_master_port
get_external_port fresh (tlm_slave name port) (c, store) = do
  c' ← register_slave_port name port c
  ok (c', update store port fresh)
get_external_port fresh (tlm_master name port) (c, store) = do
  c' ← register_master_port name port c
  ok (c', store)

-- gem5 makes the ports of its configuration one after the other.
unfoldable pub create_all :
    ScSlavePort
    → List External
    → Gem5SimControl × (ℕ → ScSlavePort)
    → Outcome (Gem5SimControl × (ℕ → ScSlavePort))
unfolding get_external_port
create_all fresh [] w = ok w
create_all fresh (port ∷ ports) w = do
  w' ← get_external_port fresh port w
  create_all fresh ports w'

-- The port, and the store after the port was told the requestors of the cores.
unfoldable pub get_slave_port :
    String → Gem5SimControl → (ℕ → ScSlavePort) → Outcome (ℕ × (ℕ → ScSlavePort))
unfolding update_core_port_map
get_slave_port name c store = do
  port ← need (find_name name c.slave_ports) exited
  ok (port, update store port (update_core_port_map c.cpu_ports (store port)))

unfoldable pub get_master_port : String → Gem5SimControl → Outcome ℕ
get_master_port name c = need (find_name name c.master_ports) exited

-- The loop of `addCoreID`; `none` if it comes to its end.
unfoldable pub append_core : String → ℕ → Names (List ℕ) → Option (Names (List ℕ))
append_core core id [] = none
append_core core id ((n, ids) ∷ m) =
    if str_eq n core
    then some ((n, ids ++ id ∷ []) ∷ m)
    else elim (append_core core id m) [ none ↦ none | some m' ↦ some ((n, ids) ∷ m') ]

unfoldable pub add_core_id : String → ℕ → Names (List ℕ) → Names (List ℕ)
add_core_id core id m = elim (append_core core id m) [
  | none ↦ set_name core (id ∷ []) m
  | some m' ↦ m'
]

-- gem5 knows the two requestors of a core by the core's name.
pub record Requestors : Type 0 where
  pub inst : String → ℕ
  pub data_id : String → ℕ

unfoldable pub init_core_info : Requestors → List String → Names (List ℕ) → Names (List ℕ)
init_core_info ids [] m = m
init_core_info ids (core ∷ cores) m =
    init_core_info ids cores
      (add_core_id core (ids.data_id core) (add_core_id core (ids.inst core) m))

-- The loop of `getCoreIDByRequestorID`.
unfoldable pub core_id_from : ℕ → Names (List ℕ) → ℕ → ℕ
core_id_from core_id [] id = 0
core_id_from core_id ((n, ids) ∷ m) id =
    if contains id ids then core_id else core_id_from (core_id + 1) m id

unfoldable pub get_core_id_by_requestor_id : Gem5SimControl → ℕ → ℕ
get_core_id_by_requestor_id c id = core_id_from 0 c.cpu_ports id
