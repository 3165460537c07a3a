-- ===== src/Link/Places.antt =====
-- Three lists that together hold at most one element: a transaction is in one place at a time.
use gem5_wrapper.Prelude.{
  ℕ, ◌≡◌, ◌≢◌, ◌+◌, ap, arith, length, length-append, ◌⊎◌, inl, inr, refl, Bool, true, false,
  Option, none, some, List, [], ◌∷◌, ◌++◌,
}
use gem5_wrapper.Router.Order.{waiting, in_work}

pub append-eq-nil : (xs ys : List ℕ) → xs ++ ys ≡ [] → (xs ≡ []) × (ys ≡ [])
append-eq-nil [] ys e = (refl, e)
append-eq-nil (x ∷ xs) ys e = absurd (cc)

pub all_nil : (xs ys zs : List ℕ) → xs ++ ys ++ zs ≡ [] → (xs ≡ []) × (ys ≡ []) × (zs ≡ [])
all_nil xs ys zs e =
    let (p, z) = append-eq-nil (xs ++ ys) zs e in let (x, y) = append-eq-nil xs ys p in (x, y, z)

-- If the first list has an element, it is the only one.
pub in_first :
    (xs ys zs : List ℕ) (t : ℕ) {o : Option ℕ}
    → (t ∷ xs) ++ ys ++ zs ≡ waiting o
    → (xs ≡ []) × (ys ≡ []) × (zs ≡ []) × (o ≡ some t)
in_first xs ys zs t {o = none} e = absurd (cc)
in_first xs ys zs t {o = some u} e = let (x, y, z) = all_nil xs ys zs (cc) in (x, y, z, cc)

pub not_nil : {t : ℕ} {zs : List ℕ} → t ∷ zs ≢ []
not_nil e = cc

pub in_last :
    (xs ys zs : List ℕ) (t : ℕ) {o : Option ℕ}
    → xs ++ ys ++ t ∷ zs ≡ waiting o
    → (xs ≡ []) × (ys ≡ []) × (zs ≡ []) × (o ≡ some t)
in_last [] [] zs t {o = none} e = absurd (cc)
in_last [] [] zs t {o = some u} e = (refl, refl, cc, cc)
in_last [] (y ∷ ys) zs t {o = none} e = absurd (cc)
in_last [] (y ∷ ys) zs t {o = some u} e =
    let n = append-eq-nil ys (t ∷ zs) (cc) in absurd (not_nil n.1)
in_last (x ∷ xs) ys zs t {o = none} e = absurd (cc)
in_last (x ∷ xs) ys zs t {o = some u} e =
    let n = all_nil xs ys (t ∷ zs) (cc) in absurd (not_nil n.2)

pub in_middle :
    (xs zs : List ℕ) (t : ℕ) {o : Option ℕ}
    → xs ++ (t ∷ []) ++ zs ≡ waiting o
    → (xs ≡ []) × (zs ≡ []) × (o ≡ some t)
in_middle [] zs t {o = none} e = absurd (cc)
in_middle [] zs t {o = some u} e = (refl, cc, cc)
in_middle (x ∷ xs) zs t {o = none} e = absurd (cc)
in_middle (x ∷ xs) zs t {o = some u} e = let n = all_nil xs (t ∷ []) zs (cc) in absurd (not_nil n.1)

-- What a router responds to.
abbrev pub responded : Bool → Option ℕ → Option ℕ
responded true o = o
responded false o = none

pub in_work-eq : (b : Bool) (o : Option ℕ) → in_work b o ≡ waiting (responded b o)
in_work-eq true o = refl
in_work-eq false o = refl

pub responded-eq-some :
    (b : Bool) (o : Option ℕ) (t : ℕ) → responded b o ≡ some t → (b ≡ true) × (o ≡ some t)
responded-eq-some true o t e = (refl, e)
responded-eq-some false o t e = absurd (cc)

pub waiting-eq-nil : (o : Option ℕ) → waiting o ≡ [] → o ≡ none
waiting-eq-nil none e = refl
waiting-eq-nil (some t) e = absurd (cc)

pub list_cases : (l : List ℕ) → (l ≡ []) ⊎ ((t : ℕ) × (rest : List ℕ) × (l ≡ t ∷ rest))
list_cases [] = inl refl
list_cases (t ∷ rest) = inr (t, rest, refl)

abbrev pub one_if_some : Option ℕ → ℕ
one_if_some none = 0
one_if_some (some t) = 1

pub length-waiting : (o : Option ℕ) → length (waiting o) ≡ one_if_some o
length-waiting none = refl
length-waiting (some t) = refl

-- In all three lists there are as many as in the one that they make up.
pub length-places :
    (xs ys zs : List ℕ) (o : Option ℕ)
    → xs ++ ys ++ zs ≡ waiting o
    → length xs + length ys + length zs ≡ one_if_some o
length-places xs ys zs o e =
    omega (arith, ap length e, length-append (xs ++ ys) zs, length-append xs ys, length-waiting o)
