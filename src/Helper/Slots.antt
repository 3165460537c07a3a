-- ===== src/Helper/Slots.antt =====
-- The maps of blocking_packet_helper.cc as tables with one slot for each of 0, ..., socket_num:
-- what their loops do.
use gem5_wrapper.Prelude.{
  ℕ, zero, suc, ◌+◌, ◌≡◌, refl, inl, inr, Bool, true, Option, none, some, [], ◌∷◌, arith, range,
  ◌==◌, if◌then◌else◌, same, same_iff, Bool-cases, ◌≤◌, ◌<◌, ◌↔◌,
}
use gem5_wrapper.Prelude.Map.{Map, find, assign, insert, keys, keys-insert}
use native.Mathlib.Nat.{add-zero, zero-add}
use native.Mathlib.Numerals.{add-one}
use gem5_wrapper.Helper.{init_map, holds, write_retry, first_blocked}

-- Every value of the map is `v`.
abbrev pub AllAre {ℓ} : {V : Type ℓ} → V → Map V → Type ℓ
AllAre v [] = Unit
AllAre v ((k, w) ∷ m) = (w ≡ v) × AllAre v m

module _ {ℓ} {V : Type ℓ} where
  insert-AllAre : (k : ℕ) (v : V) (m : Map V) → AllAre v m → AllAre v (insert k v m)
  unfolding insert
  insert-AllAre k v [] h = (refl, tt)
  insert-AllAre k v ((j, w) ∷ m) h = ground (arith, insert-AllAre k v m h.1)

  pub init_map-AllAre :
      (v : V) (i rounds : ℕ) (m : Map V) → AllAre v m → AllAre v (init_map v i rounds m)
  unfolding init_map
  init_map-AllAre v i zero m h = h
  init_map-AllAre v i (suc r) m h =
      init_map-AllAre v (i + 1) r (insert i v m) (insert-AllAre i v m h)

  pub find-AllAre : (v w : V) (k : ℕ) (m : Map V) → AllAre v m → find k m ≡ some w → w ≡ v
  unfolding find
  find-AllAre v w k [] h e = cc
  find-AllAre v w k ((j, u) ∷ m) h e = elim (Bool-cases (j == k)) [
    | inl hit ↦ cc (rw hit at e)
    | inr miss ↦ find-AllAre v w k m h.1 (rw miss at e)
  ]

  -- The loop adds the next keys in order.
  pub keys-init_map :
      (v : V) (n rounds : ℕ) (m : Map V)
      → keys m ≡ range 0 n
      → keys (init_map v n rounds m) ≡ range 0 (n + rounds)
  unfolding init_map
  keys-init_map v n zero m h = rw add-zero h
  keys-init_map v n (suc r) m h =
      let e : n + suc r ≡ n + 1 + r = omega arith in
      let next : keys (insert (0 + n) v m) ≡ range 0 (suc n) = keys-insert 0 n v m h in
      rw e (keys-init_map v (n + 1) r (insert n v m) (rw add-one (rw zero-add at next)))

pub keys-write_retry : (c : ℕ) (s : Bool) (m : Map Bool) → keys (write_retry c s m) ≡ keys m
unfolding write_retry
keys-write_retry c s [] = refl
keys-write_retry c s ((k, b) ∷ m) = ground (arith, keys-write_retry c s m)

pub find-write_retry :
    (c q : ℕ) (s : Bool) (m : Map Bool) {old : Bool}
    → find q m ≡ some old
    → find q (write_retry c s m) ≡ some (if c == q then s else old)
unfolding write_retry find
find-write_retry c q s [] h = cc
find-write_retry c q s ((k, b) ∷ m) {old} h =
    ground (arith, λ (e : find q m ≡ some old). find-write_retry c q s m e)

-- The number of slots that hold a transaction.
abbrev pub occupied : Map (Option ℕ) → ℕ
occupied [] = 0
occupied ((k, none) ∷ m) = occupied m
occupied ((k, some t) ∷ m) = suc (occupied m)

-- To clear a slot that holds a transaction leaves one transaction less.
pub occupied-assign-none :
    (c t : ℕ) (m : Map (Option ℕ))
    → find c m ≡ some (some t)
    → occupied m ≡ suc (occupied (assign c none m))
unfolding find assign
occupied-assign-none c t [] h = cc
occupied-assign-none c t ((k, none) ∷ m) h =
    ground (arith, λ (e : find c m ≡ some (some t)). occupied-assign-none c t m e)
occupied-assign-none c t ((k, some u) ∷ m) h =
    ground (arith, λ (e : find c m ≡ some (some t)). occupied-assign-none c t m e)

pub holds_of_find :
    (t c : ℕ) (m : Map (Option ℕ)) → find c m ≡ some (some t) → holds (some t) m ≡ true
unfolding find holds
holds_of_find t c [] h = cc
holds_of_find t c ((k, o) ∷ m) h =
    ground (arith, same_iff o (some t), λ (e : find c m ≡ some (some t)). holds_of_find t c m e)

-- What the search finds is in a slot.
pub find_of_holds :
    (lo n t : ℕ) (m : Map (Option ℕ))
    → keys m ≡ range lo n
    → holds (some t) m ≡ true
    → (c : ℕ) × (lo ≤ c) × (c < lo + n) × (find c m ≡ some (some t))
unfolding find holds
find_of_holds lo n t [] h e = absurd (cc)
find_of_holds lo zero t ((k, o) ∷ m) h e = absurd (cc)
find_of_holds lo (suc n) t ((k, o) ∷ m) h e =
    let at_lo : k ≡ lo = cc in
    elim (Bool-cases (same o (some t))) [
      | inl hit ↦ (lo, omega arith, omega arith, ground (arith, same_iff o (some t)))
      | inr miss ↦
          let (c, above, below, found) = find_of_holds (lo + 1) n t m (cc) (rw miss at e) in
          (c, omega arith, omega arith, ground arith)
    ]

-- The loop of `getBlockingResponse` returns the transaction of the lowest occupied slot.
pub first_blocked-eq-some :
    (lo n t : ℕ) (m : Map (Option ℕ))
    → keys m ≡ range lo n
    → first_blocked m ≡ some t
    → (c : ℕ) × (lo ≤ c)
      × (c < lo + n)
      × (find c m ≡ some (some t))
      × ((q : ℕ) → lo ≤ q → q < c → find q m ≡ some none)
unfolding find first_blocked
first_blocked-eq-some lo n t [] h e = absurd (cc)
first_blocked-eq-some lo zero t ((k, o) ∷ m) h e = absurd (cc)
first_blocked-eq-some lo (suc n) t ((k, some u) ∷ m) h e =
    let at_lo : k ≡ lo = cc in
    (lo, omega arith, omega arith, ground arith, λ q a b. absurd (omega arith))
first_blocked-eq-some lo (suc n) t ((k, none) ∷ m) h e =
    let at_lo : k ≡ lo = cc in
    let (c, above, below, found, lower) = first_blocked-eq-some (lo + 1) n t m (cc) e in
    (c, omega arith, omega arith, ground arith, λ q a b. ground (arith, lower q))

pub first_blocked-eq-none : (m : Map (Option ℕ)) → (first_blocked m ≡ none) ↔ (occupied m ≡ 0)
unfolding first_blocked
first_blocked-eq-none [] = (λ _. refl, λ _. refl)
first_blocked-eq-none ((k, none) ∷ m) = first_blocked-eq-none m
first_blocked-eq-none ((k, some t) ∷ m) = (λ e. cc, λ e. absurd (omega arith))
