-- ===== src/SimControl/Tests.antt =====
-- Runs of the control, and the theorems about it at concrete inputs.
use Prim.Native.String.{String}
use text.Mathlib.Text.{◌==◌ as str_eq}
use gem5_wrapper.Prelude.{
  ℕ, ◌≡◌, ◌≢◌, refl, if◌then◌else◌, List, [], ◌∷◌, arith, ok, stop, exited, thrown,
}
use gem5_wrapper.Prelude.Names.{find_name, set_name}
use gem5_wrapper.SlavePort.State.{ScSlavePort, new}
use gem5_wrapper.SlavePort.Sockets.{ports_of}
use gem5_wrapper.SlavePort.Runs.{payloads, pool}
use gem5_wrapper.SimControl.{
  Gem5SimControl, External, tlm_slave, tlm_master, Requestors, append_core, add_core_id,
  init_core_info, get_master_port, register_slave_port, core_id_from, get_core_id_by_requestor_id,
}
use gem5_wrapper.SimControl.Registry.{
  IsDistinct, slaves_of, masters_of, create_all-get, register_slave_port-twice,
}
use gem5_wrapper.SimControl.Cores.{requestors_of, init_core_info-ports_of}
use gem5_wrapper.SimControl.Flags.{
  FlagCall, set_debug_flag, clear_debug_flag, minus, IsSayable, AreSayable, spelled, fields,
  flag_call, flag_calls, parse_debug_flags, spelling, parse_debug_flags-spelled,
  parse_debug_flags-two_blanks,
}
use gem5_wrapper.SimControl.Lifecycle.{empty_control}

abbrev fresh : ScSlavePort
fresh = new payloads pool 7

-- Two slave ports and a master port.
abbrev ports : List External
ports = tlm_slave "cpu" 100 ∷ tlm_master "memory" 300 ∷ tlm_slave "dma" 200 ∷ []

slaves_distinct : IsDistinct (slaves_of ports)
unfolding IsDistinct slaves_of find_name
slaves_distinct = (refl, (refl, tt))

masters_distinct : IsDistinct (masters_of ports)
unfolding IsDistinct masters_of find_name
masters_distinct = (refl, tt)

create_all-get_example :
    get_master_port "disk"
      (create_all-get fresh ports
        (empty_control 5)
        (λ p. fresh)
        slaves_distinct
        masters_distinct
        (unfold empty_control in refl)
        (unfold empty_control in refl)).0
    ≡ stop exited
unfolding find_name masters_of empty_control
create_all-get_example =
    (create_all-get fresh ports (empty_control 5) (λ p. fresh) slaves_distinct masters_distinct refl
        refl).3
      "disk"

register_slave_port_twice_test :
    (c : Gem5SimControl)
    → register_slave_port "cpu" 100 (empty_control 5) ≡ ok c
    → register_slave_port "cpu" 400 c ≡ stop exited
register_slave_port_twice_test c e = register_slave_port-twice "cpu" 100 400 (empty_control 5) e

-- The requestors of two cores.
abbrev inst_of : String → ℕ
inst_of core = if str_eq core "cpu0" then 3 else 5

abbrev data_of : String → ℕ
data_of core = if str_eq core "cpu0" then 4 else 6

abbrev ids : Requestors
ids = record { inst = inst_of; data_id = data_of }

-- gem5 names the cores in another order than that of the map.
core_info_test :
    init_core_info ids ("cpu1" ∷ "cpu0" ∷ []) [] ≡ ("cpu0", 3 ∷ 4 ∷ []) ∷ ("cpu1", 5 ∷ 6 ∷ []) ∷ []
unfolding init_core_info add_core_id append_core set_name
core_info_test = refl

core_id_test :
    get_core_id_by_requestor_id
      (record (empty_control 5) { cpu_ports = ("cpu0", 3 ∷ 4 ∷ []) ∷ ("cpu1", 5 ∷ 6 ∷ []) ∷ [] })
      6
    ≡ 1
unfolding get_core_id_by_requestor_id core_id_from empty_control
core_id_test = refl

init_core_info-ports_of_example :
    ports_of "cpu1" (init_core_info ids ("cpu1" ∷ "cpu0" ∷ []) (("cpu1", 9 ∷ []) ∷ []))
    ≡ 9 ∷ 5 ∷ 6 ∷ []
unfolding requestors_of ports_of
init_core_info-ports_of_example =
    init_core_info-ports_of ids ("cpu1" ∷ "cpu0" ∷ []) (("cpu1", 9 ∷ []) ∷ []) "cpu1"

-- "Bus -Cache TLM", with one letter for each name.
abbrev later_calls : List FlagCall
later_calls = clear_debug_flag (67 ∷ []) ∷ set_debug_flag (84 ∷ []) ∷ []

plain_test : 66 ≢ minus
plain_test e = absurd (omega arith)

first-IsSayable : IsSayable (set_debug_flag (66 ∷ []))
unfolding IsSayable
first-IsSayable = (λ e. plain_test e, refl)

later-AreSayable : AreSayable later_calls
unfolding AreSayable IsSayable
later-AreSayable = (refl, ((λ e. absurd (omega (arith, e)), refl), tt))

parse_debug_flags-spelled_example :
    parse_debug_flags (66 ∷ 32 ∷ 45 ∷ 67 ∷ 32 ∷ 84 ∷ [])
    ≡ ok (set_debug_flag (66 ∷ []) ∷ later_calls)
unfolding spelled spelling
parse_debug_flags-spelled_example =
    parse_debug_flags-spelled (set_debug_flag (66 ∷ [])) later_calls first-IsSayable
      later-AreSayable

parse_debug_flags-two_blanks_test : parse_debug_flags (66 ∷ 32 ∷ 32 ∷ 67 ∷ []) ≡ stop thrown
parse_debug_flags-two_blanks_test = parse_debug_flags-two_blanks (66 ∷ []) (67 ∷ [])

-- A blank at the end does no harm.
last_blank_test : parse_debug_flags (66 ∷ 32 ∷ []) ≡ ok (set_debug_flag (66 ∷ []) ∷ [])
unfolding parse_debug_flags flag_calls flag_call fields
last_blank_test = refl
