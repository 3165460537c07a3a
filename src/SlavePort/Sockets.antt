-- ===== src/SlavePort/Sockets.antt =====
-- src/sc_slave_port.cc: which socket a requestor's packets go through, and how the port is bound.
use Prim.Native.String.{String}
use text.Mathlib.Text.{◌==◌ as str_eq}
use gem5_wrapper.Prelude.{
  ℕ, ◌+◌, Bool, true, false, not, none, some, List, [], ◌∷◌, ◌++◌, length, get_elem?, contains, ltb,
  ◌==◌, if◌then◌else◌, Outcome, ok, check, ◌>>◌, assertion,
}
use gem5_wrapper.Prelude.Map.{Map, insert}
use gem5_wrapper.Helper.{init, set_using_gem5_cache}
use gem5_wrapper.SlavePort.State.{ScSlavePort, Multi}

-- The loop of `getSocketId`.
unfoldable pub socket_in : Bool → Map (List ℕ) → ℕ → ℕ
socket_in using_gem5_cache [] id = 0
socket_in using_gem5_cache ((k, ids) ∷ m) id =
    if contains id ids
    then (if using_gem5_cache then k + 1 else k)
    else socket_in using_gem5_cache m id

unfoldable pub get_socket_id : ScSlavePort → ℕ → ℕ
get_socket_id s id = socket_in s.using_gem5_cache s.socket_map id

abbrev pub names : List (String × List ℕ) → List String
names [] = []
names ((n, ids) ∷ r) = n ∷ names r

-- The names of the map, in its order, are put behind those that the vector holds.
unfoldable pub update_core_port_map : List (String × List ℕ) → ScSlavePort → ScSlavePort
update_core_port_map m s = record s { cpu_port_map = m; cpu_vec = s.cpu_vec ++ names m }

-- The default configuration: the i-th core gets socket i.
unfoldable pub default_sockets : ℕ → List (String × List ℕ) → Map (List ℕ) → Map (List ℕ)
unfolding insert
default_sockets count [] m = m
default_sockets count ((n, ids) ∷ r) m = default_sockets (count + 1) r (insert count ids m)

-- `cpu_port_map[core_name]`
unfoldable pub ports_of : String → List (String × List ℕ) → List ℕ
ports_of name [] = []
ports_of name ((n, ids) ∷ r) = if str_eq n name then ids else ports_of name r

-- `m[k].insert(m[k].end(), ids)`: an entry that is not there is made.
unfoldable pub append_at : ℕ → List ℕ → Map (List ℕ) → Map (List ℕ)
append_at k ids [] = (k, ids) ∷ []
append_at k ids ((j, old) ∷ m) =
    if ltb k j
    then (k, ids) ∷ (j, old) ∷ m
    else if j == k
    then (j, old ++ ids) ∷ m
    else (j, old) ∷ append_at k ids m

-- The cores of one socket of the configuration; a number that is no core is passed over.
unfoldable pub configured_cores : ScSlavePort → ℕ → List ℕ → Map (List ℕ) → Map (List ℕ)
unfolding append_at ports_of
configured_cores s socket [] m = m
configured_cores s socket (core ∷ cores) m =
    let rest = configured_cores s socket cores in
    elim (get_elem? s.cpu_vec core) [
      | none ↦ rest m
      | some name ↦ rest (append_at socket (ports_of name s.cpu_port_map) m)
    ]

unfoldable pub configured_sockets : ScSlavePort → Map (List ℕ) → Map (List ℕ) → Map (List ℕ)
unfolding configured_cores
configured_sockets s [] m = m
configured_sockets s ((socket, cores) ∷ c) m =
    configured_sockets s c (configured_cores s socket cores m)

abbrev sockets_for : ScSlavePort → Map (List ℕ) → Map (List ℕ)
sockets_for s [] = default_sockets 0 s.cpu_port_map s.socket_map
sockets_for s (e ∷ c) = configured_sockets s (e ∷ c) s.socket_map

unfoldable pub init_socket_map : ScSlavePort → ScSlavePort
unfolding default_sockets configured_sockets
init_socket_map s = elim s.transactor_multi [
  | none ↦ s
  | some m ↦ record s { socket_map = sockets_for s m.socket_core_map }
]

unfoldable pub bind_single : ScSlavePort → Outcome ScSlavePort
bind_single s = do check (not s.transactor) assertion; ok (record s { transactor = true })

-- `isUsingGem5Cache` of the transactor returns false, always. The assertion is about the single
-- transactor.
unfoldable pub bind_multi : Multi → ScSlavePort → Outcome ScSlavePort
unfolding init_socket_map init set_using_gem5_cache
bind_multi m s = do
  check (not s.transactor) assertion
  let bound = record s { transactor_multi = some m; using_gem5_cache = false }
  let mapped = init_socket_map bound
  ok (record mapped {
    helper = init (length mapped.socket_map) (set_using_gem5_cache false s.helper);
  })
