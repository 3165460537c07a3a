-- ===== src/MemoryManager/Pool.antt =====
-- src/sc_mm.cc: the payloads that are handed out and those that are kept, over any sequence of
-- calls.
use gem5_wrapper.Prelude.{
  ℕ, suc, ◌+◌, ◌≤◌, ◌≡◌, refl, ap, List, [], ◌∷◌, arith, length, ◌==◌, if◌then◌else◌,
}
use gem5_wrapper.MemoryManager.{MemoryManager, new, u32, allocate, free, destroy_all, destroy}

abbrev pub count : ℕ → List ℕ → ℕ
count a [] = 0
count a (x ∷ xs) = (if x == a then 1 else 0) + count a xs

-- Without the first occurrence.
abbrev pub erase : ℕ → List ℕ → List ℕ
erase a [] = []
erase a (x ∷ xs) = if x == a then xs else x ∷ erase a xs

-- The manager with the payloads that are in use.
pub record Pool : Type 0 where
  pub manager : MemoryManager
  pub in_use : List ℕ

-- `new` returns an address that no payload has, and a payload is freed while it is in use, as TLM
-- does when its last reference is released.
pub data Step (p : Pool) : Pool → Type 0 where
  allocated :
      (fresh : ℕ)
      → count fresh p.in_use + count fresh p.manager.free_payloads ≡ 0
      → Step p (record {
        manager = (allocate fresh p.manager).1;
        in_use = (allocate fresh p.manager).0 ∷ p.in_use;
      })
  freed :
      (t : ℕ)
      → count t p.in_use ≡ 1
      → Step p (record { manager = free t p.manager; in_use = erase t p.in_use })

pub data Reach : Pool → Type 0 where
  empty : Reach (record { manager = new; in_use = [] })
  later : {p q : Pool} → Reach p → Step p q → Reach q

pub record IsPartition (p : Pool) : Type 0 where
  pub distinct : (t : ℕ) → count t p.in_use + count t p.manager.free_payloads ≤ 1
  pub counted :
      p.manager.number_of_allocations ≡ u32 (length p.in_use + length p.manager.free_payloads)

count-erase :
    (t a : ℕ) (l : List ℕ) → count t l ≡ 1 → count a l ≡ count a (erase t l) + count a (t ∷ [])
count-erase t a [] h = absurd (omega arith)
count-erase t a (x ∷ l) h = ground (arith, count-erase t a l)

length-erase : (t : ℕ) (l : List ℕ) → count t l ≡ 1 → length l ≡ suc (length (erase t l))
length-erase t [] h = absurd (omega arith)
length-erase t (x ∷ l) h = ground (arith, length-erase t l)

allocated-IsPartition :
    (fresh : ℕ) (m : MemoryManager) (kept in_use : List ℕ)
    → m.free_payloads ≡ kept
    → count fresh in_use + count fresh kept ≡ 0
    → ((t : ℕ) → count t in_use + count t kept ≤ 1)
    → m.number_of_allocations ≡ u32 (length in_use + length kept)
    → IsPartition
        (record { manager = (allocate fresh m).1; in_use = (allocate fresh m).0 ∷ in_use })
unfolding allocate
allocated-IsPartition fresh m [] in_use e f d c =
    rw e (record { distinct = λ t. ground (arith, d t); counted = omega arith })
allocated-IsPartition fresh m (p ∷ kept) in_use e f d c =
    rw e (record { distinct = λ t. omega (arith, d t); counted = omega arith })

-- At any time no payload is in use twice, kept twice, or in use and kept at once; and the counter
-- of allocations is the number of payloads that there are, modulo 2^32.
pub Reach-IsPartition : {p : Pool} → Reach p → IsPartition p
unfolding free new
Reach-IsPartition empty = record { distinct = λ t. omega arith; counted = refl }
Reach-IsPartition (later {p} r (allocated fresh f)) =
    allocated-IsPartition fresh p.manager p.manager.free_payloads p.in_use refl f
      (Reach-IsPartition r).distinct (Reach-IsPartition r).counted
Reach-IsPartition (later {p} r (freed t u)) =
    let v = Reach-IsPartition r in
    record {
      distinct = λ a. omega (arith, v.distinct a, count-erase t a p.in_use u);
      counted = omega (arith, v.counted, length-erase t p.in_use u);
    }

-- What is freed last is handed out first, and the manager is then as before.
pub allocate-free : (fresh t : ℕ) (m : MemoryManager) → allocate fresh (free t m) ≡ (t, m)
unfolding allocate free
allocate-free fresh t m = refl

-- A payload that is handed out is not in use.
pub allocate-unused :
    {p : Pool} (fresh : ℕ)
    → Reach p
    → count fresh p.in_use + count fresh p.manager.free_payloads ≡ 0
    → count (allocate fresh p.manager).0 p.in_use ≡ 0
allocate-unused {p} fresh r f =
    let v = Reach-IsPartition (later r (allocated fresh f)) in
    ground (arith, v.distinct (allocate fresh p.manager).0)

destroy_all-counts :
    (l : List ℕ) (m : MemoryManager)
    → u32 (destroy_all l m).number_of_frees ≡ u32 (m.number_of_frees + length l)
unfolding destroy_all
destroy_all-counts [] m = ap u32 (omega arith)
destroy_all-counts (x ∷ l) m =
    omega (arith, destroy_all-counts l (record m { number_of_frees = u32 (m.number_of_frees + 1) }))

-- The destructor counts every payload that is kept, and none that is still in use.
pub destroy-counts :
    (m : MemoryManager)
    → u32 (destroy m).number_of_frees ≡ u32 (m.number_of_frees + length m.free_payloads)
unfolding destroy
destroy-counts m = destroy_all-counts m.free_payloads m
