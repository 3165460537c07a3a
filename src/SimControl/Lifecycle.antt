-- ===== src/SimControl/Lifecycle.antt =====
-- src/sim_control.cc: the constructor of the control, its singleton, and the phases of the
-- simulation. What gem5 and SystemC answer is a record. The set-up calls that answer nothing
-- (cxxConfigInit, initSignals, initSimStats, registerHandlers, Trace::enable, statsEnable, dump) are
-- left out.
use Prim.Native.String.{String}
use text.Mathlib.Text.{◌==◌ as str_eq}
use gem5_wrapper.Prelude.{
  ℕ, Bool, not, Option, none, some, List, [], ◌==◌, if◌then◌else◌, is_some, Outcome, ok, check,
  ◌>>=◌, ◌>>◌, assertion, panicked, exited,
}
use gem5_wrapper.SlavePort.State.{ScSlavePort}
use gem5_wrapper.EventLoop.{EventQueue, Module}
use gem5_wrapper.EventLoop.Simulate.{setup_event_queues, simulate_start}
use gem5_wrapper.SimControl.{Gem5SimControl, Requestors, External, create_all, init_core_info}
use gem5_wrapper.SimControl.Flags.{FlagCall, parse_debug_flags}

pub record Setup : Type 0 where
  pub resolution_is_ps : Bool
  pub queues : List String  -- gem5's main event queues
  pub opens : Bool  -- whether the configuration is loaded
  pub external : List External  -- the ports that `instantiate` asks for
  pub raises : Bool  -- whether `instantiate` then throws its exception
  pub cpu_names : List String
  pub requestors : Requestors

-- The control, the slave ports, and the calls for gem5's debug flags.
pub record Started : Type 0 where
  pub control : Gem5SimControl
  pub slaves : ℕ → ScSlavePort
  pub queues : List String
  pub flags : List FlagCall

unfoldable pub empty_control : ℕ → Gem5SimControl
empty_control simulation_end = record {
  simulation_end = simulation_end;
  slave_ports = [];
  master_ports = [];
  cpu_ports = [];
}

-- `debug_flags` is the text of the flags, byte by byte.
unfoldable pub construct :
    Option Gem5SimControl
    → Setup
    → ScSlavePort
    → (config_file : String) → ℕ
    → (debug_flags : List ℕ) → (ℕ → ScSlavePort)
    → Outcome Started
unfolding setup_event_queues parse_debug_flags create_all init_core_info empty_control
construct instance g fresh config_file simulation_end debug_flags slaves = do
  check (not (is_some instance)) panicked
  check g.resolution_is_ps assertion
  queues ← setup_event_queues "events" g.queues
  check (not (str_eq config_file "")) exited
  check g.opens exited
  flags ← parse_debug_flags debug_flags
  (c, slaves') ← create_all fresh g.external (empty_control simulation_end, slaves)
  check (not g.raises) exited
  ok (record {
    control = record c { cpu_ports = init_core_info g.requestors g.cpu_names c.cpu_ports };
    slaves = slaves';
    queues = queues;
    flags = flags;
  })

-- `getInstance`: an instance that is there is answered as it is, whatever the arguments are.
unfoldable pub get_instance :
    Option Started
    → Setup
    → ScSlavePort
    → (config_file : String) → ℕ
    → (debug_flags : List ℕ) → (ℕ → ScSlavePort)
    → Outcome Started
unfolding construct
get_instance none g fresh config_file simulation_end debug_flags slaves =
    construct none g fresh config_file simulation_end debug_flags slaves
get_instance (some started) g fresh config_file simulation_end debug_flags slaves = ok started

-- The two steps of gem5's start-up; whether each throws its exception.
unfoldable pub end_of_elaboration : (init_state_raises startup_raises : Bool) → Outcome (Unit {0})
end_of_elaboration init_state_raises startup_raises = do
  check (not init_state_raises) exited
  check (not startup_raises) exited
  ok tt

-- The argument of `simulate` in `run`: without an end it is the default of its declaration.
unfoldable pub cycles_to_run : (max_tick : ℕ) → Gem5SimControl → ℕ
cycles_to_run max_tick c = if c.simulation_end == 0 then max_tick else c.simulation_end

-- `run` up to the wait inside `simulate`; the two callbacks do nothing.
unfoldable pub run_start :
    {Q : Type 0} → EventQueue Q → (max_tick : ℕ) → Gem5SimControl → Module Q → Module Q
unfolding simulate_start cycles_to_run
run_start eventq max_tick c s = simulate_start eventq max_tick (cycles_to_run max_tick c) s
