-- ===== src/Logger/Chop.antt =====
-- src/sc_logger.cc: what is cut off the end of a message.
use gem5_wrapper.Prelude.{
  ℕ, suc, ◌+◌, ◌%◌, ◌^◌, ◌<◌, ◌≡◌, ◌⊎◌, refl, ap, inl, inr, true, false, none, some, List, [], ◌∷◌,
  ◌++◌, arith, length, Option-cases,
}
use gem5_wrapper.Logger.{is_cut, find_last_not_of, erase, chop}

pub data AllCut : List ℕ → Type 0 where
  none_left : AllCut []
  one_more : {c : ℕ} {text : List ℕ} → is_cut c ≡ true → AllCut text → AllCut (c ∷ text)

find_last_not_of-AllCut : (text : List ℕ) → find_last_not_of text ≡ none → AllCut text
unfolding find_last_not_of
find_last_not_of-AllCut [] e = none_left
find_last_not_of-AllCut (c ∷ text) e =
    one_more (ground (arith, e)) (find_last_not_of-AllCut text (ground (arith, e)))

-- The text up to the place that was found, and the rest.
record IsFoundAt (text : List ℕ) (i : ℕ) : Type 0 where
  small : i < length text
  before : List ℕ
  last : ℕ
  rest : List ℕ
  parts : text ≡ erase (suc i) text ++ rest
  kept : erase (suc i) text ≡ before ++ last ∷ []
  stays : is_cut last ≡ false
  cut : AllCut rest

find_last_not_of-IsFoundAt :
    (text : List ℕ) (i : ℕ) → find_last_not_of text ≡ some i → IsFoundAt text i
unfolding find_last_not_of erase
find_last_not_of-IsFoundAt [] i e = absurd (cc)
find_last_not_of-IsFoundAt (c ∷ text) i e = elim (Option-cases (find_last_not_of text)) [
  | inl n ↦
      let here : i ≡ 0 = ground (arith, e, n) in
      rw here (record {
        small = omega arith;
        before = [];
        last = c;
        rest = text;
        parts = refl;
        kept = refl;
        stays = ground (arith, e, n);
        cut = find_last_not_of-AllCut text n;
      })
  | inr (j, f) ↦
      let there : i ≡ suc j = ground (arith, e, f) in
      let r = find_last_not_of-IsFoundAt text j f in
      rw there (record {
        small = omega (arith, r.small);
        before = c ∷ r.before;
        last = r.last;
        rest = r.rest;
        parts = ap (λ (l : List ℕ). c ∷ l) r.parts;
        kept = ap (λ (l : List ℕ). c ∷ l) r.kept;
        stays = r.stays;
        cut = r.cut;
      })
]

-- A text that is shorter than 2^64 bytes is reported without the blanks, newlines and carriage
-- returns at its end: what is reported is the text up to a rest of such bytes only, and it is
-- empty or ends in another byte.
pub chop_lem :
    (message : List ℕ)
    → length message < 2 ^ 64
    → ((rest : List ℕ) × (message ≡ chop message ++ rest) × AllCut rest)
      × ((chop message ≡ [])
          ⊎ ((before : List ℕ) × (last : ℕ) × (chop message ≡ before ++ last ∷ [])
              × (is_cut last ≡ false)))
unfolding chop erase
chop_lem message w = elim (Option-cases (find_last_not_of message)) [
  | inl n ↦ rw n ((message, refl, find_last_not_of-AllCut message n), inl refl)
  | inr (i, f) ↦
      let r = find_last_not_of-IsFoundAt message i f in
      let small : (i + 1) % 2 ^ 64 ≡ suc i = omega (arith, r.small, w) in
      rw f (rw small ((r.rest, r.parts, r.cut), inr (r.before, r.last, r.kept, r.stays)))
]
