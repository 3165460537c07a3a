-- ===== src/Prelude/Outcomes.antt =====
-- What a call of the program comes to: a result, or a stop of the simulation. The source stops by
-- `assert` and `sc_assert`, by `SC_REPORT_FATAL` and `SC_REPORT_ERROR`, by gem5's `panic` and `fatal` and by
-- `std::exit`; `bad_access` is a read through a null or dangling pointer or past the end, and
-- `thrown` an exception that nothing catches.
use mathlib.Core.Path.{◌≡◌, refl}
use mathlib.Core.Bool.{Bool, true, false}
use mathlib.Core.Option.{Option, none, some}

pub data Fault : Type 0 where
  assertion sc_fatal panicked sc_error exited bad_access thrown : Fault

pub data Outcome {ℓ} (A : Type ℓ) : Type ℓ where
  ok : A → Outcome A
  stop : Fault → Outcome A

-- `assert (b)`, and any other check that stops the simulation unless `b` holds.
abbrev pub check : Bool → Fault → Outcome (Unit {0})
check true e = ok tt
check false e = stop e

-- A pointer or an entry that must be there.
abbrev pub need {ℓ} : {A : Type ℓ} → Option A → Fault → Outcome A
need none e = stop e
need (some a) e = ok a

infixl 5 ◌>>=◌ ◌>>◌
abbrev pub ◌>>=◌ {ℓ κ} :
    {S : Type ℓ} {T : Type κ} (first : Outcome S) (next : S → Outcome T) → Outcome T
(stop fault) >>= next = stop fault
(ok x) >>= next = next x

-- A statement before the rest.
abbrev pub ◌>>◌ {ℓ} : {T : Type ℓ} (first : Outcome (Unit {0})) (rest : Outcome T) → Outcome T
first >> rest = first >>= λ _. rest

-- Where a sequence has a result, its first part has one, and the rest ends with that of the
-- sequence.
pub >>=-eq-ok {ℓ κ} :
    {S : Type ℓ} {T : Type κ} (first : Outcome S) (next : S → Outcome T) {y : T}
    → (first >>= next) ≡ ok y
    → (x : S) × (first ≡ ok x) × (next x ≡ ok y)
>>=-eq-ok (stop fault) next e = cc
>>=-eq-ok (ok x) next e = (x, refl, e)
