-- ===== src/Bus.antt =====
-- include/simple_bus.h: the bus that decodes an address to a target. The array of port mappings is
-- a list of `NR_OF_TARGETS` entries; `none` stands for the -1 that `decode` returns.
pub mod Decode
pub mod Tests
use gem5_wrapper.Prelude.{
  ℕ, zero, suc, ◌+◌, ◌-◌, ◌≡◌, Bool, true, false, ◌&&◌, Option, none, some, List, [], ◌∷◌, leb,
  if◌then◌else◌, Outcome, ok, check, ◌>>=◌, ◌>>◌, assertion,
}

pub record PortMapping : Type 0 where
  pub start : ℕ  -- uint64_t
  pub end : ℕ  -- uint64_t

-- The constructor, with its assertion.
unfoldable pub port_mapping : ℕ → ℕ → Outcome PortMapping
port_mapping start end = do
  check (leb start end) assertion
  ok (record { start = start; end = end })

unfoldable pub contains : PortMapping → ℕ → Bool
contains p addr = leb p.start addr && leb addr p.end

-- The source subtracts two uint64_t; the subtraction is exact where the port contains the address.
unfoldable pub global_to_local : PortMapping → ℕ → ℕ
global_to_local p addr = addr - p.start

-- The loop of `decode`, at index `i`.
unfoldable pub decode_from : ℕ → List PortMapping → ℕ → Option ℕ
unfolding contains
decode_from i [] addr = none
decode_from i (p ∷ ports) addr = if contains p addr then some i else decode_from (i + 1) ports addr

unfoldable pub decode : List PortMapping → ℕ → Option ℕ
unfolding decode_from
decode ports addr = decode_from 0 ports addr

-- What the bus does with a transaction: forward it on the initiator socket of a target, or set
-- `TLM_ADDRESS_ERROR_RESPONSE`.
pub data Route : Type 0 where
  forward : ℕ → Route
  address_error : Route

unfoldable pub transport : List PortMapping → ℕ → Route
unfolding decode
transport ports addr = elim (decode ports addr) [ none ↦ address_error | some id ↦ forward id ]

-- The debug transport also returns a number of bytes: the one that the target answers, or 0.
unfoldable pub transport_dbg : (ℕ → ℕ) → List PortMapping → ℕ → Route × ℕ
unfolding decode
transport_dbg target ports addr = elim (decode ports addr) [
  | none ↦ (address_error, 0)
  | some id ↦ (forward id, target id)
]
