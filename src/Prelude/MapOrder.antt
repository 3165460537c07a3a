-- ===== src/Prelude/MapOrder.antt =====
-- `std::map` keeps its keys in ascending order, and `insert` keeps the entries that are there.
use Prim.Native.Nat.{ℕ, ◌+◌, ◌≤◌, ◌<◌}
use mathlib.Core.Path.{◌≡◌, refl}
use mathlib.Core.Logic.{inl, inr}
use mathlib.Core.Bool.{false}
use mathlib.Core.List.{[], ◌∷◌}
use mathlib.Core.Option.{none, some}
use native.Mathlib.Omega.{arith}
use gem5_wrapper.Prelude.Tests.{◌==◌, ltb, if◌then◌else◌, is_some, Bool-cases}
use gem5_wrapper.Prelude.Map.{Map, find, insert}

module _ {V : Type 0} where
  -- The keys ascend, and are all at least `low`.
  abbrev pub AscendsFrom : ℕ → Map V → Type 0
  AscendsFrom low [] = Unit {0}
  AscendsFrom low ((k, v) ∷ m) = (low ≤ k) × AscendsFrom (k + 1) m

  pub insert-AscendsFrom :
      (low k : ℕ) (v : V) (m : Map V) → low ≤ k → AscendsFrom low m → AscendsFrom low (insert k v m)
  unfolding insert
  insert-AscendsFrom low k v [] l a = (l, tt)
  insert-AscendsFrom low k v ((j, w) ∷ m) l a = elim (Bool-cases (ltb k j)) [
    | inl e ↦ rw e (l, (ground arith, a.1))
    | inr e ↦ elim (Bool-cases (j == k)) [
      | inl d ↦ rw e (rw d a)
      | inr d ↦ rw e (rw d (a.0, insert-AscendsFrom (j + 1) k v m (ground arith) a.1))
    ]
  ]

  find_below : (low k : ℕ) (m : Map V) → AscendsFrom low m → k < low → find k m ≡ none
  unfolding find
  find_below low k [] a l = refl
  find_below low k ((j, w) ∷ m) a l =
      let other : (j == k) ≡ false = ground (arith, a.0) in
      rw other (find_below (j + 1) k m a.1 (omega (arith, a.0)))

  pub find-insert :
      (low k q : ℕ) (v : V) (m : Map V)
      → AscendsFrom low m
      → find q (insert k v m)
        ≡ (if is_some (find q m) then find q m else if k == q then some v else none)
  unfolding find insert
  find-insert low k q v [] a = ground arith
  find-insert low k q v ((j, w) ∷ m) a = elim (Bool-cases (ltb k j)) [
    | inl e ↦
        let none_here : find k m ≡ none = find_below (j + 1) k m a.1 (ground arith) in
        ground (arith, e, none_here)
    | inr e ↦ ground (arith, e, find-insert (j + 1) k q v m a.1)
  ]
