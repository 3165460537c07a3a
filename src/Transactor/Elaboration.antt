-- ===== src/Transactor/Elaboration.antt =====
-- src/sim_control.cc, src/slave_transactor.cc and src/sc_slave_port.cc together: from the control's
-- constructor to the ports that are bound.
use Prim.Native.String.{String}
use text.Mathlib.Text.{◌==◌ as str_eq}
use gem5_wrapper.Prelude.{ℕ, ◌≡◌, true, false, List, [], ◌==◌, ok}
use gem5_wrapper.MemoryManager.{MemoryManager}
use gem5_wrapper.SimControl.Registry.{IsDistinct, slaves_of, masters_of}
use gem5_wrapper.SimControl.Flags.{FlagCall, parse_debug_flags}
use gem5_wrapper.SimControl.Lifecycle.{Setup}
use gem5_wrapper.Transactor.{Transactor}

-- What the constructor relies on: SystemC's time resolution is a picosecond, gem5 has no event
-- queue yet, a configuration is named and is loaded, its ports of a kind have distinct names, gem5
-- creates its objects without an exception, and the flags can be read.
pub record IsSound (g : Setup) (config_file : String) (debug_flags : List ℕ) : Type 0 where
  pub resolution : g.resolution_is_ps ≡ true
  pub no_queue : g.queues ≡ []
  pub named : str_eq config_file "" ≡ false
  pub opens : g.opens ≡ true
  pub quiet : g.raises ≡ false
  pub slaves : IsDistinct (slaves_of g.external)
  pub masters : IsDistinct (masters_of g.external)
  pub calls : List FlagCall
  pub readable : parse_debug_flags debug_flags ≡ ok calls
