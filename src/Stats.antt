-- ===== src/Stats.antt =====
-- src/stats.cc: the dump of gem5's statistics. A statistic is a number (a pointer), the list of all
-- of them is gem5's, and so is the answer of each `dynamic_cast`. The calls stand in their order.
pub mod Visits
pub mod Tests
use gem5_wrapper.Prelude.{ℕ, Bool, ◌&&◌, List, [], ◌∷◌, ◌++◌, if◌then◌else◌}

-- Which casts of a statistic succeed.
pub record Casts : Type 0 where
  pub is_scalar : ℕ → Bool
  pub is_vector : ℕ → Bool
  pub is_vector2d : ℕ → Bool
  pub is_dist : ℕ → Bool
  pub is_vector_dist : ℕ → Bool
  pub is_sparse : ℕ → Bool
  pub is_info_proxy : ℕ → Bool
  pub is_formula : ℕ → Bool

pub data Kind : Type 0 where
  formula vector vector2d info_proxy vector_dist dist sparse scalar : Kind

pub data Call : Type 0 where
  init_text process_dump_queue process_reset_queue begin_output end_output : Call
  enable prepare : (as_vector : Bool) → ℕ → Call
  visit : Kind → ℕ → Call
  warn : ℕ → Call

unfoldable pub stats_prepare : Casts → List ℕ → List Call
stats_prepare casts [] = []
stats_prepare casts (stat ∷ stats) = prepare (casts.is_vector stat) stat ∷ stats_prepare casts stats

unfoldable pub stats_enable : Casts → List ℕ → List Call
stats_enable casts [] = []
stats_enable casts (stat ∷ stats) = enable (casts.is_vector stat) stat ∷ stats_enable casts stats

-- One round of the loop of `statsDump`. The cast to a 2d vector starts from the pointer to a vector,
-- which is null where the statistic is none.
unfoldable pub dump_stat : Casts → ℕ → Call
dump_stat casts stat =
    let is_vector2d = casts.is_vector stat && casts.is_vector2d stat in
    if casts.is_vector stat
    then (if casts.is_formula stat then visit formula stat else visit vector stat)
    else if is_vector2d
    then visit vector2d stat
    else if casts.is_info_proxy stat
    then visit info_proxy stat
    else if casts.is_vector_dist stat
    then visit vector_dist stat
    else if casts.is_dist stat
    then visit dist stat
    else if casts.is_sparse stat
    then visit sparse stat
    else if casts.is_scalar stat
    then visit scalar stat
    else warn stat

unfoldable pub dump_stats : Casts → List ℕ → List Call
unfolding dump_stat
dump_stats casts [] = []
dump_stats casts (stat ∷ stats) = dump_stat casts stat ∷ dump_stats casts stats

-- gem5's list of statistics is read once for the dump, and by each of the two helpers.
unfoldable pub stats_dump : Casts → List ℕ → List Call
unfolding stats_enable stats_prepare dump_stats
stats_dump casts stats =
    init_text
    ∷ process_dump_queue
    ∷ (stats_enable casts stats
        ++ stats_prepare casts stats
        ++ begin_output ∷ (dump_stats casts stats ++ end_output ∷ []))

unfoldable pub stats_reset : List Call
stats_reset = process_reset_queue ∷ []
