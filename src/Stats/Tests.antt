-- ===== src/Stats/Tests.antt =====
-- Runs of a dump, and the theorems about it at concrete inputs.
use gem5_wrapper.Prelude.{◌≡◌, refl, false, [], ◌∷◌, ◌==◌}
use gem5_wrapper.Stats.{Casts, visit, info_proxy, dump_stat, stats_dump}
use gem5_wrapper.Stats.Visits.{enabled, reached, before_output, stats_dump-reached}

-- The statistic 1 is a vector, 2 a 2d vector, and 3 of a kind that is not known.
abbrev casts : Casts
casts = record {
  is_scalar = λ s. false;
  is_vector = λ s. s == 1;
  is_vector2d = λ s. s == 2;
  is_dist = λ s. false;
  is_vector_dist = λ s. false;
  is_sparse = λ s. false;
  is_info_proxy = λ s. s == 2;
  is_formula = λ s. false;
}

vector2d_test : dump_stat casts 2 ≡ visit info_proxy 2
unfolding dump_stat
vector2d_test = refl

stats_dump-reached_example :
    reached enabled (before_output (stats_dump casts (1 ∷ 2 ∷ 3 ∷ []))) ≡ 1 ∷ 2 ∷ 3 ∷ []
stats_dump-reached_example = (stats_dump-reached casts (1 ∷ 2 ∷ 3 ∷ [])).0
