-- ===== src/Control.antt =====
-- include/sc_gem5_control.hh and src/sc_gem5_control.cc: gem5 systems that are made by name, and the
-- control that makes them. What gem5's configuration manager is asked is written down in a list of
-- calls, newest first; `throws` tells of such a list whether its newest call throws gem5's
-- exception.
pub mod Manager
pub mod Laws
pub mod Tests
use Prim.Native.String.{String, ◌++◌ as append}
use text.Mathlib.Text.{◌==◌ as str_eq}
use gem5_wrapper.Prelude.{
  ℕ, Bool, true, false, not, List, [], ◌∷◌, ◌++◌, if◌then◌else◌, Outcome, ok, check, ◌>>=◌, ◌>>◌,
  exited,
}
use gem5_wrapper.EventLoop.{EventQueue, Module}
use gem5_wrapper.EventLoop.Simulate.{setup_event_queues, simulate_start}
use gem5_wrapper.Control.Manager.{
  Call, add_renaming, set_param, set_param_vector, find_object, find_traversal_order, push_object,
  instantiate_objects, init_state, startup, ask, bind_all, caught,
}

pub record Gem5System : Type 0 where
  pub system_name : String
  pub instance_name : String
  pub calls : List Call

unfoldable pub new_system : String → String → Gem5System
new_system system_name instance_name = record {
  system_name = system_name;
  instance_name = instance_name;
  calls = add_renaming system_name instance_name ∷ [];
}

-- The name of an object of the system; the empty name is the system's own.
unfoldable pub object_name : Gem5System → String → String
object_name s object =
    append s.system_name (if not (str_eq object "") then append "." object else "")

abbrev asked : Call → Gem5System → Gem5System
asked c s = record s { calls = c ∷ s.calls }

unfoldable pub set_system_param : (object name value : String) → Gem5System → Gem5System
unfolding object_name
set_system_param object name value s = asked (set_param (object_name s object) name value) s

unfoldable pub set_system_param_vector :
    (object name : String) → List String → Gem5System → Gem5System
unfolding object_name
set_system_param_vector object name values s =
    asked (set_param_vector (object_name s object) name values) s

-- What stands in the `try` of `Gem5System::instantiate`. `objects` is what `objectsInOrder` holds.
unfoldable pub build :
    (throws : List Call → Bool) → List ℕ → String → List Call → Outcome (List Call)
unfolding ask bind_all
build throws objects system_name l = do
  l1 ← ask throws (find_object system_name true) l
  l2 ← ask throws (find_traversal_order system_name) l1
  l3 ← bind_all throws objects l2
  l4 ← ask throws (instantiate_objects false) l3
  l5 ← ask throws init_state l4
  ask throws startup l5

unfoldable pub instantiate : (throws : List Call → Bool) → List ℕ → Gem5System → Outcome Gem5System
unfolding build caught
instantiate throws objects s = do
  l ← caught (build throws objects s.system_name s.calls)
  ok (record s { calls = l })

-- `Gem5TopLevelModule`: the functions to call at the end of elaboration, what the manager of the
-- root object was asked, and gem5's event queues.
pub record TopLevel : Type 0 where
  pub end_of_elaboration_funcs : List ℕ
  pub root_calls : List Call
  pub queues : List String

unfoldable pub build_root :
    (throws : List Call → Bool) → (root : ℕ) → List Call → Outcome (List Call)
unfolding ask
build_root throws root l = do
  l1 ← ask throws (find_object "root" false) l
  l2 ← ask throws (instantiate_objects false) (push_object root ∷ l1)
  l3 ← ask throws init_state l2
  ask throws startup l3

-- `resolution_is_ps`, `opens` and `queues` are what SystemC, the configuration file and gem5 answer.
unfoldable pub new_top_level :
    (resolution_is_ps opens : Bool)
    → (queues : List String) → (throws : List Call → Bool) → (root : ℕ) → Outcome TopLevel
unfolding setup_event_queues build_root caught
new_top_level resolution_is_ps opens queues throws root = do
  made ← setup_event_queues "events" queues
  check resolution_is_ps exited
  check opens exited
  l ← caught (build_root throws root [])
  ok (record { end_of_elaboration_funcs = []; root_calls = l; queues = made })

unfoldable pub register_end_of_elaboration : ℕ → TopLevel → TopLevel
register_end_of_elaboration func m = record m {
  end_of_elaboration_funcs = m.end_of_elaboration_funcs ++ func ∷ [];
}

-- The loop over the functions; `apply` is what a function does to the state `S` of the program.
unfoldable pub apply_all {ℓ} : {S : Type ℓ} → (apply : ℕ → S → Outcome S) → List ℕ → S → Outcome S
apply_all apply [] s = ok s
apply_all apply (func ∷ funcs) s = apply func s >>= λ s'. apply_all apply funcs s'

unfoldable pub end_of_elaboration {ℓ} :
    {S : Type ℓ} → (apply : ℕ → S → Outcome S) → TopLevel → S → Outcome S
unfolding apply_all
end_of_elaboration apply m s = apply_all apply m.end_of_elaboration_funcs s

-- `run` up to the wait inside `simulate`, which has no limit but gem5's `MaxTick`.
unfoldable pub run_start : {Q : Type 0} → EventQueue Q → (max_tick : ℕ) → Module Q → Module Q
unfolding simulate_start
run_start eventq max_tick s = simulate_start eventq max_tick max_tick s

-- The calls that the control passes on to gem5.
pub data Setting : Type 0 where
  set_debug_flag clear_debug_flag : String → Setting
  set_remote_gdb_port : ℕ → Setting

pub record Gem5Control : Type 0 where
  pub top_level : TopLevel
  pub version : String
  pub settings : List Setting

-- `make_gem5_control`, too, is no more than the constructor.
unfoldable pub new_control :
    (resolution_is_ps opens : Bool)
    → (queues : List String) → (throws : List Call → Bool) → (root : ℕ) → Outcome Gem5Control
unfolding new_top_level
new_control resolution_is_ps opens queues throws root = do
  m ← new_top_level resolution_is_ps opens queues throws root
  ok (record { top_level = m; version = ""; settings = [] })

unfoldable pub set : Setting → Gem5Control → Gem5Control
set setting c = record c { settings = setting ∷ c.settings }

unfoldable pub make_system : String → String → Gem5Control → Gem5System
unfolding new_system
make_system system_name instance_name c = new_system system_name instance_name

unfoldable pub get_version : Gem5Control → String
get_version c = c.version

unfoldable pub set_version : String → Gem5Control → Outcome Gem5Control
set_version new_version c = do
  check (str_eq c.version "") exited
  ok (record c { version = new_version })
