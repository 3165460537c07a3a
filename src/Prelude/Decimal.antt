-- ===== src/Prelude/Decimal.antt =====
-- `std::to_string` of an unsigned number: its decimal digits.
use Prim.Native.String.{String, [], ◌∷◌, char_at}
use Prim.Native.Char.{Char, code}
use Prim.Native.Nat.{ℕ, zero, suc, ◌+◌, ◌-◌, ◌*◌, ◌/◌, ◌%◌, ◌≤◌, ◌<◌}
use mathlib.Core.Path.{◌≡◌, refl, sym, ap, ◌∙◌}
use mathlib.Core.Logic.{inl, inr}
use native.Mathlib.Omega.{arith}
use gem5_wrapper.Prelude.Tests.{ltb, if◌then◌else◌, Bool-cases}

-- The character of a digit.
unfoldable pub digit : ℕ → Char
digit d = char_at "0123456789" d

-- The digits of `n` in front of a text. With as much fuel as the number there is a round for each
-- digit.
unfoldable pub decimal : ℕ → ℕ → String → String
unfolding digit
decimal zero n text = digit n ∷ text
decimal (suc fuel) n text =
    let more = decimal fuel (n / 10) (digit (n % 10) ∷ text) in
    if ltb n 10 then digit n ∷ text else more

unfoldable pub to_string : ℕ → String
unfolding decimal
to_string n = decimal n n []

-- The number that a text of digits stands for, behind a number that was read.
value : ℕ → String → ℕ
value read [] = read
value read (c ∷ s) = value (read * 10 + (code c - 48)) s

digit-code : (d : ℕ) → d < 10 → code (digit d) ≡ d + 48
unfolding digit
digit-code zero l = refl
digit-code (suc zero) l = refl
digit-code (suc (suc zero)) l = refl
digit-code (suc (suc (suc zero))) l = refl
digit-code (suc (suc (suc (suc zero)))) l = refl
digit-code (suc (suc (suc (suc (suc zero))))) l = refl
digit-code (suc (suc (suc (suc (suc (suc zero)))))) l = refl
digit-code (suc (suc (suc (suc (suc (suc (suc zero))))))) l = refl
digit-code (suc (suc (suc (suc (suc (suc (suc (suc zero)))))))) l = refl
digit-code (suc (suc (suc (suc (suc (suc (suc (suc (suc zero))))))))) l = refl
digit-code (suc (suc (suc (suc (suc (suc (suc (suc (suc (suc d)))))))))) l = absurd (omega arith)

value-decimal :
    (fuel n : ℕ) (text : String) → n ≤ fuel → value 0 (decimal fuel n text) ≡ value n text
unfolding decimal value
value-decimal zero n text l = ground (arith, digit-code n (omega arith))
value-decimal (suc fuel) n text l = elim (Bool-cases (ltb n 10)) [
  | inl e ↦ rw e (ground (arith, digit-code n (ground arith)))
  | inr e ↦
      let d : n % 10 < 10 = omega arith in
      rw e (
        value-decimal fuel (n / 10) (digit (n % 10) ∷ text) (ground arith)
        ∙ ap (λ (k : ℕ). value k text) (omega (arith, digit-code (n % 10) d)))
]

-- Distinct numbers are written differently.
pub to_string_inj : (a b : ℕ) → to_string a ≡ to_string b → a ≡ b
unfolding to_string value
to_string_inj a b e =
    let left = value-decimal a a [] (omega arith) in
    let right = value-decimal b b [] (omega arith) in sym left ∙ ap (value 0) e ∙ right
