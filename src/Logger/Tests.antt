-- ===== src/Logger/Tests.antt =====
-- Runs of the logger, and the theorems about it at concrete inputs.
use gem5_wrapper.Prelude.{◌≡◌, ◌<◌, ◌^◌, refl, List, ℕ, [], ◌∷◌, ◌++◌, arith, length}
use gem5_wrapper.Logger.{write, sync, chop, find_last_not_of, erase, is_cut}
use gem5_wrapper.Logger.Chop.{chop_lem}
use gem5_wrapper.Logger.Stream.{AreLines, write-sync}

-- "a \n\nb": a line with a blank at its end, an empty line, and an unfinished one.
abbrev text : List ℕ
text = 97 ∷ 32 ∷ 10 ∷ 10 ∷ 98 ∷ []

text_lines : AreLines ((97 ∷ 32 ∷ []) ∷ [] ∷ [])
unfolding AreLines
text_lines = (refl, (refl, tt))

write-sync_example : sync (write text (record { line = []; reports = [] })) ≡ record {
  line = [];
  reports =
      record { name = "gem5"; message = 97 ∷ [] }
      ∷ record { name = "gem5"; message = [] }
      ∷ record { name = "gem5"; message = 98 ∷ [] }
      ∷ [];
}
unfolding chop find_last_not_of erase is_cut
write-sync_example = (write-sync ((97 ∷ 32 ∷ []) ∷ [] ∷ []) (98 ∷ []) [] text_lines refl).0

short_test : length text < 2 ^ 64
short_test = omega arith

chop_lem_example : text ≡ chop text ++ (chop_lem text short_test).0.0
chop_lem_example = (chop_lem text short_test).0.1
