-- ===== src/Wrapper.antt =====
-- include/gem5_wrapper.hh and src/gem5_wrapper.cc: the top that makes the control, the transactors,
-- the routers and the bus, and binds them. Objects are numbers (pointers); the pointer of a new one
-- is an argument. The bindings are written down in `calls`, newest first.
pub mod Steps
pub mod Binding
pub mod Routers
pub mod Tests
use Prim.Native.String.{String}
use gem5_wrapper.Prelude.{
  ℕ, Bool, true, false, ◌&&◌, Option, none, some, List, [], ◌∷◌, ◌++◌, length, get_elem?, ltb,
  is_some, if◌then◌else◌, Outcome, ok, check, need, ◌>>=◌, ◌>>◌, assertion, bad_access,
}
use gem5_wrapper.Prelude.Map.{Map, find, insert}
use gem5_wrapper.SlavePort.State.{update}
use gem5_wrapper.Transactor.{Transactor, new_multi}
use gem5_wrapper.Bus.{PortMapping, port_mapping}

-- `transactor.sim_control.bind (control)`, `transactor.sockets[socket].bind (router.tsock)` and
-- `router.isock_bus (bus.tsocks[socket])`
pub data Call : Type 0 where
  bind_control : (transactor control : ℕ) → Call
  bind_socket : (transactor socket router : ℕ) → Call
  bind_bus : (router bus socket : ℕ) → Call

pub record Bus : Type 0 where
  pub ptr : ℕ
  pub ports : List PortMapping

-- The wrapper; the transactor that its class holds as the only instance; and all transactors.
pub record Gem5Wrapper : Type 0 where
  pub sim_control : Option ℕ
  pub transactors : List ℕ
  pub txn_routers : Map ℕ
  pub bus_instance : Option Bus
  pub is_bus_created : Bool
  pub sim_control_binded : Bool
  pub singleton : Option ℕ
  pub objects : ℕ → Transactor
  pub calls : List Call

unfoldable pub new : (ℕ → Transactor) → Gem5Wrapper
new objects = record {
  sim_control = none;
  transactors = [];
  txn_routers = [];
  bus_instance = none;
  is_bus_created = false;
  sim_control_binded = false;
  singleton = none;
  objects = objects;
  calls = [];
}

-- `getInstance` of the wrapper: the one that is there, or a new one.
unfoldable pub get_instance : Option Gem5Wrapper → (ℕ → Transactor) → Gem5Wrapper
unfolding new
get_instance none objects = new objects
get_instance (some w) objects = w

-- `control` is what `Gem5SimControl::getInstance` answers.
unfoldable pub create_sim_control : ℕ → Gem5Wrapper → Gem5Wrapper
create_sim_control control w = elim w.sim_control [
  | none ↦ record w { sim_control = some control }
  | some c ↦ w
]

unfoldable pub create_transactor : ℕ → String → ℕ → Gem5Wrapper → Outcome Gem5Wrapper
unfolding new_multi
create_transactor fresh port_name socket_num w = do
  t ← new_multi port_name socket_num
  ok (record w { transactors = w.transactors ++ fresh ∷ []; objects = update w.objects fresh t })

-- The only instance of the class is made once, and pushed each time.
unfoldable pub create_singleton_transactor : ℕ → String → ℕ → Gem5Wrapper → Outcome Gem5Wrapper
unfolding create_transactor
create_singleton_transactor fresh port_name socket_num w = elim w.singleton [
  | none ↦ create_transactor fresh port_name socket_num (record w { singleton = some fresh })
  | some t ↦ ok (record w { transactors = w.transactors ++ t ∷ [] })
]

unfoldable pub get_transactor : ℕ → Gem5Wrapper → Outcome ℕ
get_transactor id w = need (get_elem? w.transactors id) assertion

-- The router that is made is answered, whether the map takes it or not.
unfoldable pub create_txn_router : (fresh id : ℕ) → Gem5Wrapper → ℕ × Gem5Wrapper
unfolding insert
create_txn_router fresh id w = (fresh, record w { txn_routers = insert id fresh w.txn_routers })

abbrev new_bus : (fresh mem_start mem_end : ℕ) → Gem5Wrapper → Outcome (Bus × Gem5Wrapper)
new_bus fresh mem_start mem_end w = do
  p ← port_mapping mem_start mem_end
  let bus : Bus = record { ptr = fresh; ports = p ∷ [] }
  ok (bus, record w { bus_instance = some bus; is_bus_created = true })

unfoldable pub create_simple_bus :
    (fresh mem_start mem_end : ℕ) → Gem5Wrapper → Outcome (Bus × Gem5Wrapper)
unfolding port_mapping
create_simple_bus fresh mem_start mem_end w = elim w.bus_instance [
  | none ↦ new_bus fresh mem_start mem_end w
  | some bus ↦ if w.is_bus_created then ok (bus, w) else new_bus fresh mem_start mem_end w
]

-- The loop over the transactors.
unfoldable pub bind_each : ℕ → List ℕ → List Call → List Call
bind_each control [] calls = calls
bind_each control (t ∷ transactors) calls =
    bind_each control transactors (bind_control t control ∷ calls)

unfoldable pub bind_sim_control2transactor : Gem5Wrapper → Gem5Wrapper
unfolding bind_each
bind_sim_control2transactor w = elim w.sim_control [
  | none ↦ w
  | some control ↦
      if w.sim_control_binded
      then w
      else record w { calls = bind_each control w.transactors w.calls; sim_control_binded = true }
]

unfoldable pub bind_txn_router2transactor :
    (txn_id socket_id transactor_id : ℕ) → Gem5Wrapper → Outcome Gem5Wrapper
unfolding find
bind_txn_router2transactor txn_id socket_id transactor_id w = do
  t ← need (get_elem? w.transactors transactor_id) assertion
  check (ltb socket_id (w.objects t).multi.socket_num) assertion
  elim (find txn_id w.txn_routers) [
    | none ↦ ok w
    | some router ↦ ok (record w { calls = bind_socket t socket_id router ∷ w.calls })
  ]

-- The bus has two target sockets; the index is not checked.
unfoldable pub bind_txn_router2bus : (txn_id socket_id : ℕ) → Gem5Wrapper → Outcome Gem5Wrapper
unfolding find
bind_txn_router2bus txn_id socket_id w = do
  bus ← need w.bus_instance assertion
  elim (find txn_id w.txn_routers) [
    | none ↦ ok w
    | some router ↦ do
      check (ltb socket_id 2) bad_access
      ok (record w { calls = bind_bus router bus.ptr socket_id ∷ w.calls })
  ]
