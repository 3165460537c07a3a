-- ===== src/MemoryManager/Tests.antt =====
-- Runs of the memory manager, and the theorems about it at concrete inputs.
use gem5_wrapper.Prelude.{◌≡◌, refl, [], ◌∷◌}
use gem5_wrapper.MemoryManager.{new, allocate, free}
use gem5_wrapper.MemoryManager.Pool.{
  Pool, allocated, freed, Reach, empty, later, count, IsPartition, Reach-IsPartition,
  allocate-unused,
}

-- Two payloads were allocated, and the first one freed.
abbrev used : Pool
used = record {
  manager = record { number_of_allocations = 2; number_of_frees = 0; free_payloads = 100 ∷ [] };
  in_use = 200 ∷ [];
}

Reach-used : Reach used
unfolding new allocate free
Reach-used = later (later (later empty (allocated 100 refl)) (allocated 200 refl)) (freed 100 refl)

again_test : (allocate 300 used.manager).0 ≡ 100
unfolding allocate
again_test = refl

Reach-IsPartition_example : IsPartition used
Reach-IsPartition_example = Reach-IsPartition Reach-used

allocate_unused_test : count (allocate 300 used.manager).0 used.in_use ≡ 0
allocate_unused_test = allocate-unused 300 Reach-used refl
