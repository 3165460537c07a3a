-- ===== src/Prelude/Names.antt =====
-- `std::map` with `std::string` keys: an association list in ascending order of the names, which
-- `std::string` compares by their bytes.
use Prim.Native.String.{String, compare}
use text.Mathlib.Text.{◌==◌ as str_eq, is_lt}
use text.Mathlib.TextEquality.{eq_iff}
use text.Mathlib.TextPositions.{eq_refl}
use mathlib.Core.Path.{◌≡◌, refl}
use mathlib.Core.List.{List, [], ◌∷◌}
use mathlib.Core.Option.{Option, none, some}
use mathlib.Core.Logic.{inl, inr}
use native.Mathlib.Omega.{arith}
use gem5_wrapper.Prelude.Tests.{if◌then◌else◌, Bool-cases}

abbrev pub Names {ℓ} : Type ℓ → Type ℓ
Names V = List (String × V)

module _ {ℓ} {V : Type ℓ} where
  -- `it->second` for `it = m.find(name)`, unless `it` is the end
  unfoldable pub find_name : String → Names V → Option V
  find_name name [] = none
  find_name name ((n, v) ∷ m) = if str_eq n name then some v else find_name name m

  -- `m[name] = v`
  unfoldable pub set_name : String → V → Names V → Names V
  set_name name v [] = (name, v) ∷ []
  set_name name v ((n, w) ∷ m) =
      if str_eq n name
      then (n, v) ∷ m
      else if is_lt (compare name n)
      then (name, v) ∷ (n, w) ∷ m
      else (n, w) ∷ set_name name v m

  pub find-set_name :
      (q name : String) (v : V) (m : Names V)
      → find_name q (set_name name v m) ≡ (if str_eq name q then some v else find_name q m)
  unfolding find_name set_name
  find-set_name q name v [] = refl
  find-set_name q name v ((n, w) ∷ m) = elim (Bool-cases (str_eq n name)) [
    | inl e ↦ let d : n ≡ name = (eq_iff n name).0 e in ground (arith, eq_refl name)
    | inr e ↦ ground (arith, eq_iff n q, eq_iff name q, eq_refl name, find-set_name q name v m)
  ]
