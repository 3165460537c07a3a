-- ===== src/MemoryManager.antt =====
-- include/sc_mm.hh and src/sc_mm.cc: the pool of transaction payloads. A payload is a number; the
-- head of `free_payloads` is the back of the vector.
pub mod Pool
pub mod Tests
use gem5_wrapper.Prelude.{ℕ, ◌+◌, ◌%◌, ◌^◌, List, [], ◌∷◌, length}

pub record MemoryManager : Type 0 where
  pub number_of_allocations : ℕ  -- unsigned int
  pub number_of_frees : ℕ  -- unsigned int
  pub free_payloads : List ℕ

unfoldable pub new : MemoryManager
new = record { number_of_allocations = 0; number_of_frees = 0; free_payloads = [] }

abbrev pub u32 : ℕ → ℕ
u32 n = n % 2 ^ 32

abbrev allocate_from : List ℕ → ℕ → MemoryManager → ℕ × MemoryManager
allocate_from [] fresh m =
    (fresh, record m { number_of_allocations = u32 (m.number_of_allocations + 1) })
allocate_from (p ∷ rest) fresh m = (p, record m { free_payloads = rest })

-- `fresh` is the address that `new gp(this)` would return.
unfoldable pub allocate : ℕ → MemoryManager → ℕ × MemoryManager
allocate fresh m = allocate_from m.free_payloads fresh m

-- The payload is reset before it is kept; what `reset` does to it is TLM's.
unfoldable pub free : ℕ → MemoryManager → MemoryManager
free payload m = record m { free_payloads = payload ∷ m.free_payloads }

-- The loop of the destructor.
unfoldable pub destroy_all : List ℕ → MemoryManager → MemoryManager
destroy_all [] m = m
destroy_all (p ∷ rest) m =
    destroy_all rest (record m { number_of_frees = u32 (m.number_of_frees + 1) })

unfoldable pub destroy : MemoryManager → MemoryManager
unfolding destroy_all
destroy m = destroy_all m.free_payloads m
