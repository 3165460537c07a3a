-- ===== src/SimControl/Cores.antt =====
-- src/sim_control.cc: the requestors of the cores, and the socket that a slave port gives each of
-- them.
use Prim.Native.String.{String}
use text.Mathlib.Text.{◌==◌ as str_eq}
use text.Mathlib.TextEquality.{eq_iff}
use text.Mathlib.TextPositions.{eq_refl}
use mathlib.Core.List.{append-nil, append_assoc}
use gem5_wrapper.Prelude.{
  ℕ, ◌+◌, ◌≡◌, refl, sym, ◌∙◌, inl, inr, none, some, List, [], ◌∷◌, ◌++◌, arith, if◌then◌else◌, ok,
  Option-cases, Bool-cases, ap, ◌≤◌, ◌<◌, length,
}
use gem5_wrapper.Prelude.Names.{set_name}
use gem5_wrapper.MemoryManager.{MemoryManager}
use gem5_wrapper.SlavePort.State.{Payload, Packet, Multi, ScSlavePort, new, numbered, socket_for}
use gem5_wrapper.SlavePort.Request.{request_socket}
use gem5_wrapper.SlavePort.Sockets.{ports_of, update_core_port_map, bind_multi}
use gem5_wrapper.SlavePort.Invariant.{Inv}
use gem5_wrapper.SlavePort.Mapping.{Cores, first_core, or_zero, bind_multi-default, cluster_or}
use gem5_wrapper.SimControl.{
  Gem5SimControl, Requestors, append_core, add_core_id, init_core_info, core_id_from,
  get_core_id_by_requestor_id,
}

-- The requestors that a core is given, once for each time that gem5 names it.
unfoldable pub requestors_of : Requestors → String → List String → List ℕ
requestors_of ids q [] = []
requestors_of ids q (core ∷ cores) =
    let rest = requestors_of ids q cores in
    if str_eq core q then ids.inst core ∷ ids.data_id core ∷ rest else rest

append_core-ports_of :
    (core : String) (id : ℕ) (m : Cores) (q : String) {m' : Cores}
    → append_core core id m ≡ some m'
    → ports_of q m' ≡ (if str_eq core q then ports_of q m ++ id ∷ [] else ports_of q m)
unfolding append_core ports_of
append_core-ports_of core id [] q e = absurd (cc)
append_core-ports_of core id ((n, ids) ∷ m) q {m'} e = elim (Bool-cases (str_eq n core)) [
  | inl d ↦ let s : n ≡ core = (eq_iff n core).0 d in ground (arith, eq_refl core)
  | inr d ↦ elim (Option-cases (append_core core id m)) [
    | inl f ↦ absurd (ground arith)
    | inr (r, f) ↦
        ground (arith, eq_iff n q, eq_iff core q, eq_refl core, append_core-ports_of core id m q f)
  ]
]

append_core-none-ports_of :
    (core : String) (id : ℕ) (m : Cores) → append_core core id m ≡ none → ports_of core m ≡ []
unfolding append_core ports_of
append_core-none-ports_of core id [] e = refl
append_core-none-ports_of core id ((n, ids) ∷ m) e =
    ground (arith, append_core-none-ports_of core id m)

set_name-ports_of :
    (name : String) (v : List ℕ) (m : Cores) (q : String)
    → ports_of q (set_name name v m) ≡ (if str_eq name q then v else ports_of q m)
unfolding ports_of set_name
set_name-ports_of name v [] q = refl
set_name-ports_of name v ((n, w) ∷ m) q = elim (Bool-cases (str_eq n name)) [
  | inl e ↦ let d : n ≡ name = (eq_iff n name).0 e in ground (arith, eq_refl name)
  | inr e ↦ ground (arith, eq_iff n q, eq_iff name q, eq_refl name, set_name-ports_of name v m q)
]

add_core_id-ports_of :
    (core : String) (id : ℕ) (m : Cores) (q : String)
    → ports_of q (add_core_id core id m)
      ≡ (if str_eq core q then ports_of q m ++ id ∷ [] else ports_of q m)
unfolding add_core_id
add_core_id-ports_of core id m q = elim (Option-cases (append_core core id m)) [
  | inl e ↦ ground (
    arith,
    eq_iff core q,
    set_name-ports_of core (id ∷ []) m q,
    append_core-none-ports_of core id m e,
  )
  | inr (m', e) ↦ ground (arith, append_core-ports_of core id m q e)
]

-- After `initCoreInfo` a core has the requestors that it had and then, for each time that gem5
-- names it and in that order, its instruction and its data requestor; all other cores keep theirs.
pub init_core_info-ports_of :
    (ids : Requestors) (cores : List String) (m : Cores) (q : String)
    → ports_of q (init_core_info ids cores m) ≡ ports_of q m ++ requestors_of ids q cores
unfolding init_core_info requestors_of
init_core_info-ports_of ids [] m q = sym (append-nil (ports_of q m))
init_core_info-ports_of ids (core ∷ cores) m q =
    let m1 = add_core_id core (ids.inst core) m in
    let m2 = add_core_id core (ids.data_id core) m1 in
    init_core_info-ports_of ids cores m2 q
    ∙ grind (
      arith,
      add_core_id-ports_of core (ids.inst core) m q,
      add_core_id-ports_of core (ids.data_id core) m1 q,
      append_assoc,
    )

core_id_from-first_core :
    (n : ℕ) (m : Cores) (id : ℕ) → core_id_from n m id ≡ or_zero (first_core n m id)
unfolding core_id_from
core_id_from-first_core n [] id = refl
core_id_from-first_core n ((name, ids) ∷ m) id =
    ground (arith, core_id_from-first_core (n + 1) m id)

-- A slave port that is new, was told the cores by the control and is then bound in the default
-- configuration to a transactor with a socket for each core satisfies its invariant, and sends a
-- packet without a cluster through the socket whose number the control answers for its requestor.
pub get_core_id-request_socket :
    (c : Gem5SimControl) (payloads : ℕ → Payload) (mm : MemoryManager) (garbage socket_num : ℕ)
    → length c.cpu_ports ≤ socket_num
    → let m : Multi = record { socket_num = socket_num; socket_core_map = [] } in
      (s : ScSlavePort) × (bind_multi m (update_core_port_map c.cpu_ports (new payloads mm garbage))
        ≡ ok s)
      × Inv s
      × ((p : Packet)
          → request_socket p s
            ≡ cluster_or p.cpu_cluster_id (get_core_id_by_requestor_id c p.requestor_id))
      × ((k : ℕ) → k < length c.cpu_ports → socket_for s k ≡ ok (numbered k))
unfolding get_core_id_by_requestor_id
get_core_id-request_socket c payloads mm garbage socket_num fits =
    let (s, bound, good, count, socket, small, named) =
      bind_multi-default payloads mm garbage socket_num c.cpu_ports fits in
    (
      s,
      bound,
      good,
      λ p.
          socket p
          ∙ ap (cluster_or p.cpu_cluster_id)
              (sym (core_id_from-first_core 0 c.cpu_ports p.requestor_id)),
      named,
    )
