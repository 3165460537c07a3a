-- ===== src/Bus/Decode.antt =====
-- include/simple_bus.h: `decode` finds the first target whose range holds the address.
use gem5_wrapper.Prelude.{
  ℕ, zero, suc, ◌+◌, ◌-◌, ◌≤◌, ◌<◌, ◌≡◌, refl, inl, inr, true, false, none, some, List, [], ◌∷◌,
  arith, get_elem?, Bool-cases, ok,
}
use gem5_wrapper.Bus.{
  PortMapping, port_mapping, contains, global_to_local, decode_from, decode, forward, address_error,
  transport, transport_dbg,
}

-- `id` is the first port that contains the address.
pub record IsFirst (ports : List PortMapping) (addr id : ℕ) : Type 0 where
  pub port : PortMapping
  pub at_id : get_elem? ports id ≡ some port
  pub hit : contains port addr ≡ true
  pub before :
      (j : ℕ) (p : PortMapping) → j < id → get_elem? ports j ≡ some p → contains p addr ≡ false

decode_from-IsFirst :
    (i id addr : ℕ) (ports : List PortMapping)
    → decode_from i ports addr ≡ some id
    → (k : ℕ) × (id ≡ i + k) × IsFirst ports addr k
unfolding decode_from
decode_from-IsFirst i id addr [] e = absurd (cc)
decode_from-IsFirst i id addr (p ∷ ports) e = elim (Bool-cases (contains p addr)) [
  | inl hit ↦ (
    0,
    ground arith,
    record { port = p; at_id = refl; hit = hit; before = λ j q l. absurd (omega arith) },
  )
  | inr miss ↦
      let (k, eq, f) = decode_from-IsFirst (i + 1) id addr ports (rw miss at e) in
      (
        suc k,
        omega arith,
        record { port = f.port; at_id = f.at_id; hit = f.hit; before = next k f miss },
      )
]
  where
    next :
        (k : ℕ) (f : IsFirst ports addr k)
        → contains p addr ≡ false
        → (j : ℕ) (q : PortMapping) → j < suc k
        → get_elem? (p ∷ ports) j ≡ some q
        → contains q addr ≡ false
    next k f miss zero q l at_j = ground arith
    next k f miss (suc j) q l at_j = f.before j q (omega arith) at_j

decode_from-none :
    (i addr : ℕ) (ports : List PortMapping)
    → decode_from i ports addr ≡ none
    → (j : ℕ) (p : PortMapping) → get_elem? ports j ≡ some p
    → contains p addr ≡ false
unfolding decode_from
decode_from-none i addr [] e j p at_j = cc
decode_from-none i addr (q ∷ ports) e zero p at_j = ground arith
decode_from-none i addr (q ∷ ports) e (suc j) p at_j =
    decode_from-none (i + 1) addr ports (ground arith) j p at_j

-- A transaction is forwarded to a target only if that is the first one whose range holds its
-- address.
pub transport-forward :
    (ports : List PortMapping) (addr id : ℕ)
    → transport ports addr ≡ forward id
    → IsFirst ports addr id
unfolding transport decode
transport-forward ports addr id e =
    let (k, eq, f) = decode_from-IsFirst 0 id addr ports (ground arith) in
    let same_id : k ≡ id = omega arith in rw same_id at f

-- An address error is answered only if no target's range holds the address.
pub transport-address_error :
    (ports : List PortMapping) (addr : ℕ)
    → transport ports addr ≡ address_error
    → (j : ℕ) (p : PortMapping) → get_elem? ports j ≡ some p
    → contains p addr ≡ false
unfolding transport decode
transport-address_error ports addr e = decode_from-none 0 addr ports (ground arith)

-- The debug transport takes the same route as the blocking one, and reports 0 bytes on an address
-- error.
pub transport_dbg-transport :
    (target : ℕ → ℕ) (ports : List PortMapping) (addr : ℕ)
    → ((transport_dbg target ports addr).0 ≡ transport ports addr)
      × (transport ports addr ≡ address_error → (transport_dbg target ports addr).1 ≡ 0)
unfolding transport transport_dbg
transport_dbg-transport target ports addr = (ground arith, λ e. ground arith)

-- A mapping that its constructor lets through contains both its ends, and the local address of
-- each address that it contains leads back to it.
pub port_mapping_lem :
    (start end : ℕ) {p : PortMapping}
    → port_mapping start end ≡ ok p
    → (contains p start ≡ true)
      × (contains p end ≡ true)
      × ((addr : ℕ)
          → contains p addr ≡ true
          → (p.start + global_to_local p addr ≡ addr) × (global_to_local p addr ≤ p.end - p.start))
unfolding port_mapping contains global_to_local
port_mapping_lem start end h = (ground arith, ground arith, λ addr c. ground arith)
