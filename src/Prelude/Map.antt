-- ===== src/Prelude/Map.antt =====
-- `std::map` with `uint32_t` keys: an association list in ascending order of the keys, which is the
-- order in which an iterator runs.
use Prim.Native.Nat.{ℕ, zero, suc, ◌+◌, ◌≤◌, ◌<◌}
use mathlib.Core.Path.{◌≡◌, refl}
use mathlib.Core.Bool.{false, ◌&&◌}
use mathlib.Core.List.{List, [], ◌∷◌, ◌++◌}
use mathlib.Core.Option.{Option, none, some}
use native.Mathlib.Omega.{arith}
use gem5_wrapper.Prelude.Tests.{◌==◌, ltb, if◌then◌else◌, is_some, Bool-cases}
use mathlib.Core.Logic.{inl, inr}
use native.Mathlib.Nat.{add-zero}
use gem5_wrapper.Prelude.Lists.{range}

abbrev pub Map {ℓ} : Type ℓ → Type ℓ
Map V = List (ℕ × V)

module _ {ℓ} {V : Type ℓ} where
  -- `it->second` for `it = m.find(k)`, unless `it` is the end
  unfoldable pub find : ℕ → Map V → Option V
  find k [] = none
  find k ((j, v) ∷ m) = if j == k then some v else find k m

  -- `it->second = v` for `it = m.find(k)`; the end is left alone
  unfoldable pub assign : ℕ → V → Map V → Map V
  assign k v [] = []
  assign k v ((j, w) ∷ m) = if j == k then (j, v) ∷ m else (j, w) ∷ assign k v m

  -- `m.insert(std::pair(k, v))`: an entry that is there stays
  unfoldable pub insert : ℕ → V → Map V → Map V
  insert k v [] = (k, v) ∷ []
  insert k v ((j, w) ∷ m) =
      if ltb k j then (k, v) ∷ (j, w) ∷ m else if j == k then (j, w) ∷ m else (j, w) ∷ insert k v m

  abbrev pub keys : Map V → List ℕ
  keys [] = []
  keys ((k, v) ∷ m) = k ∷ keys m

  pub find-assign :
      (k q : ℕ) (v : V) (m : Map V)
      → find q (assign k v m) ≡ (if k == q && is_some (find k m) then some v else find q m)
  unfolding find assign
  find-assign k q v [] = ground arith
  find-assign k q v ((j, w) ∷ m) = ground (arith, find-assign k q v m)

  pub keys-assign : (k : ℕ) (v : V) (m : Map V) → keys (assign k v m) ≡ keys m
  unfolding assign
  keys-assign k v [] = refl
  keys-assign k v ((j, w) ∷ m) = ground (arith, keys-assign k v m)

  -- A map whose keys are `n` numbers from `lo` on has an entry for each of them.
  pub find-range :
      (lo n k : ℕ) (m : Map V)
      → keys m ≡ range lo n
      → lo ≤ k
      → k < lo + n
      → (v : V) × (find k m ≡ some v)
  unfolding find
  find-range lo zero k m h a b = absurd (omega arith)
  find-range lo (suc n) k [] h a b = absurd (cc)
  find-range lo (suc n) k ((j, v) ∷ m) h a b = elim (Bool-cases (j == k)) [
    | inl e ↦ (v, rw e)
    | inr e ↦ rw e (find-range (lo + 1) n k m (cc) (later e) (omega arith))
  ]
    where
      later : (j == k) ≡ false → lo + 1 ≤ k
      later e = let d : j ≡ lo = cc in ground arith

  -- The next key in order is inserted at the end.
  pub keys-insert :
      (lo n : ℕ) (v : V) (m : Map V)
      → keys m ≡ range lo n
      → keys (insert (lo + n) v m) ≡ range lo (suc n)
  unfolding insert
  keys-insert lo zero v [] h = rw add-zero
  keys-insert lo zero v ((j, w) ∷ m) h = cc
  keys-insert lo (suc n) v [] h = cc
  keys-insert lo (suc n) v ((j, w) ∷ m) h =
      let d : j ≡ lo = cc in
      let rest : keys m ≡ range (lo + 1) n = cc in
      let e : lo + suc n ≡ lo + 1 + n = omega arith in
      ground (arith, e, keys-insert (lo + 1) n v m rest)

  pub insert_last :
      (lo n : ℕ) (v : V) (m : Map V)
      → keys m ≡ range lo n
      → insert (lo + n) v m ≡ m ++ (lo + n, v) ∷ []
  unfolding insert
  insert_last lo zero v [] h = refl
  insert_last lo zero v ((j, w) ∷ m) h = cc
  insert_last lo (suc n) v [] h = cc
  insert_last lo (suc n) v ((j, w) ∷ m) h =
      let d : j ≡ lo = cc in
      let rest : keys m ≡ range (lo + 1) n = cc in
      let e : lo + suc n ≡ lo + 1 + n = omega arith in
      ground (arith, e, insert_last (lo + 1) n v m rest)
