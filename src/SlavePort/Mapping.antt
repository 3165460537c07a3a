-- ===== src/SlavePort/Mapping.antt =====
-- src/sc_slave_port.cc: the default mapping of cores to sockets, and the port that is bound with
-- it.
use Prim.Native.String.{String}
use gem5_wrapper.Prelude.{
  ℕ, suc, ◌+◌, ◌≤◌, ◌<◌, ◌≡◌, refl, inl, inr, false, Option, none, some, List, [], ◌∷◌, ◌++◌, arith,
  range, length, contains, if◌then◌else◌, ok, lt→ltb, Option-cases, sym, ap, ◌∙◌,
}
use gem5_wrapper.Prelude.Map.{Map, insert, keys, insert_last, keys-insert}
use mathlib.Core.List.{append-nil, append_assoc}
use native.Mathlib.Nat.{zero-add}
use native.Mathlib.Numerals.{add-one}
use gem5_wrapper.Helper
use gem5_wrapper.Helper.{init, set_using_gem5_cache}
use gem5_wrapper.Helper.Channels.{init-IsReady, init-slot_free}
use gem5_wrapper.MemoryManager.{MemoryManager}
use gem5_wrapper.SlavePort.State.{Payload, Multi, Packet, ScSlavePort, new, numbered, socket_for}
use gem5_wrapper.SlavePort.Request.{request_socket}
use gem5_wrapper.SlavePort.Sockets.{
  socket_in, get_socket_id, default_sockets, update_core_port_map, bind_multi,
}
use gem5_wrapper.SlavePort.Invariant.{Inv, IsCoreHelper}

abbrev pub Cores : Type 0
Cores = List (String × List ℕ)

-- The cores' requestors, numbered from `n` on.
abbrev pub numbered_from : ℕ → Cores → Map (List ℕ)
numbered_from n [] = []
numbered_from n ((name, ids) ∷ r) = (n, ids) ∷ numbered_from (n + 1) r

default_sockets-append :
    (n : ℕ) (cores : Cores) (m : Map (List ℕ))
    → keys m ≡ range 0 n
    → default_sockets n cores m ≡ m ++ numbered_from n cores
unfolding default_sockets
default_sockets-append n [] m r = sym (append-nil m)
default_sockets-append n ((name, ids) ∷ cores) m r =
    let last : insert n ids m ≡ m ++ (n, ids) ∷ [] = rw zero-add at (insert_last 0 n ids m r) in
    let more : keys (insert n ids m) ≡ range 0 (n + 1) =
      rw add-one (rw zero-add at (keys-insert 0 n ids m r)) in
    default_sockets-append (n + 1) cores (insert n ids m) more
    ∙ ap (λ (l : Map (List ℕ)). l ++ numbered_from (n + 1) cores) last
    ∙ append_assoc m ((n, ids) ∷ []) (numbered_from (n + 1) cores)

-- The number of the first core, from `n` on, that has the requestor.
abbrev pub first_core : ℕ → Cores → ℕ → Option ℕ
first_core n [] id = none
first_core n ((name, ids) ∷ r) id = if contains id ids then some n else first_core (n + 1) r id

abbrev pub or_zero : Option ℕ → ℕ
or_zero none = 0
or_zero (some n) = n

socket_in-first_core :
    (n : ℕ) (cores : Cores) (id : ℕ)
    → socket_in false (numbered_from n cores) id ≡ or_zero (first_core n cores id)
unfolding socket_in
socket_in-first_core n [] id = refl
socket_in-first_core n ((name, ids) ∷ r) id = ground (arith, socket_in-first_core (n + 1) r id)

first_core-bounds :
    (n : ℕ) (cores : Cores) (id c : ℕ)
    → first_core n cores id ≡ some c
    → (n ≤ c) × (c < n + length cores)
first_core-bounds n [] id c e = absurd (cc)
first_core-bounds n ((name, ids) ∷ r) id c e = ground (arith, first_core-bounds (n + 1) r id c)

length-numbered : (n : ℕ) (cores : Cores) → length (numbered_from n cores) ≡ length cores
length-numbered n [] = refl
length-numbered n ((name, ids) ∷ r) = ap suc (length-numbered (n + 1) r)

first_core-lt :
    (cores : Cores) (id : ℕ) → 0 < length cores → or_zero (first_core 0 cores id) < length cores
first_core-lt cores id l = elim (Option-cases (first_core 0 cores id)) [
  | inl e ↦ rw e l
  | inr (c, e) ↦ rw e (omega (arith, first_core-bounds 0 cores id c e))
]

-- The mapping of a port without sockets.
default_sockets_lem : (cores : Cores) → default_sockets 0 cores [] ≡ numbered_from 0 cores
default_sockets_lem cores = default_sockets-append 0 cores [] refl

helper-Inv : (num garbage : ℕ) → IsCoreHelper (init num (Helper.new garbage))
unfolding init Helper.new
helper-Inv num garbage = record {
  ready = init-IsReady num garbage;
  no_cache = refl;
  no_flag = refl;
}

bound-Inv :
    (num garbage : ℕ) (s : ScSlavePort)
    → s.helper ≡ init num (Helper.new garbage)
    → s.using_gem5_cache ≡ false
    → s.blocking_request ≡ none
    → s.blocking_response ≡ none
    → s.need_to_send_request_retry ≡ false
    → Inv s
bound-Inv num garbage s h u q r n = record {
  core_helper = rw h (helper-Inv num garbage);
  no_cache = u;
  no_request = q;
  no_response = r;
  no_retry = n;
  owned = λ type c t e. absurd (none_some (init-slot_free num garbage c (some t) type (rw h at e)));
}
  where
    none_some : {t : ℕ} → ◌≡◌ {A = Option ℕ} (some t) none → ⊥
    none_some x = cc

-- Any configuration: a new port that is bound to a multi-socket transactor satisfies its
-- invariant.
pub bind_multi-Inv :
    (payloads : ℕ → Payload) (mm : MemoryManager) (garbage : ℕ) (cores : Cores) (m : Multi)
    {s : ScSlavePort}
    → bind_multi m (update_core_port_map cores (new payloads mm garbage)) ≡ ok s
    → Inv s
unfolding bind_multi update_core_port_map new set_using_gem5_cache Helper.new
bind_multi-Inv payloads mm garbage cores m {s} e =
    bound-Inv (length s.socket_map) garbage s (ground arith) (ground arith) (ground arith)
      (ground arith) (ground arith)

-- The packet's own cluster, if it has one.
abbrev pub cluster_or : Option ℕ → ℕ → ℕ
cluster_or none n = n
cluster_or (some c) n = c

-- The default configuration, at a transactor that has a socket for each core. The binding succeeds
-- and the port satisfies its invariant; its helper has as many sockets as there are cores. A timing
-- request is sent through the socket that its packet's cluster names, if the packet has one, and else
-- through the socket whose number is that of the first core that has the packet's requestor, or
-- through socket 0 if none has; for a core's number that is the transactor's socket of that number.
pub bind_multi-default :
    (payloads : ℕ → Payload) (mm : MemoryManager) (garbage socket_num : ℕ) (cores : Cores)
    → length cores ≤ socket_num
    → let m : Multi = record { socket_num = socket_num; socket_core_map = [] } in
      (s : ScSlavePort) × (bind_multi m (update_core_port_map cores (new payloads mm garbage))
        ≡ ok s)
      × Inv s
      × (s.helper.socket_num ≡ length cores)
      × ((p : Packet)
          → request_socket p s
            ≡ cluster_or p.cpu_cluster_id (or_zero (first_core 0 cores p.requestor_id)))
      × ((id : ℕ) → 0 < length cores → or_zero (first_core 0 cores id) < length cores)
      × ((c : ℕ) → c < length cores → socket_for s c ≡ ok (numbered c))
unfolding bind_multi update_core_port_map new get_socket_id request_socket socket_for
bind_multi-default payloads mm garbage socket_num cores fits =
    let num : ℕ = length (default_sockets 0 cores []) in
    let count : num ≡ length cores =
      ap length (default_sockets_lem cores) ∙ length-numbered 0 cores in
    let socket : (id : ℕ)
        → socket_in false (default_sockets 0 cores []) id ≡ or_zero (first_core 0 cores id) =
      λ id.
        ap (λ (m : Map (List ℕ)). socket_in false m id) (default_sockets_lem cores)
        ∙ socket_in-first_core 0 cores id in
    (
      _,
      refl,
      record {
        core_helper = helper-Inv num garbage;
        no_cache = refl;
        no_request = refl;
        no_response = refl;
        no_retry = refl;
        owned = λ type c t e. absurd (none_some (init-slot_free num garbage c (some t) type e));
      },
      count,
      λ p. chosen p.cpu_cluster_id (socket p.requestor_id),
      first_core-lt cores,
      λ c l. rw (lt→ltb c socket_num (omega arith)) refl,
    )
  where
    chosen : {m n : ℕ} (o : Option ℕ) → m ≡ n → (elim o [ none ↦ m | some c ↦ c ]) ≡ cluster_or o n
    chosen none e = e
    chosen (some c) e = refl

    none_some : {t : ℕ} → ◌≡◌ {A = Option ℕ} (some t) none → ⊥
    none_some x = cc
