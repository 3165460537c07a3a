-- ===== src/SimControl/Flags.antt =====
-- src/sim_control.cc: the string of gem5's debug flags. A text is the list of its bytes.
use mathlib.Core.List.{append-nil, append_assoc}
use gem5_wrapper.Prelude.{
  ℕ, ◌≡◌, ◌≢◌, refl, ap, inl, inr, false, List, [], ◌∷◌, ◌++◌, arith, ◌==◌, contains, if◌then◌else◌,
  Outcome, ok, stop, ◌>>=◌, thrown, Bool-cases,
}

-- The calls of gem5's `setDebugFlag` and `clearDebugFlag`.
pub data FlagCall : Type 0 where
  set_debug_flag clear_debug_flag : List ℕ → FlagCall

abbrev pub blank : ℕ
blank = 32

abbrev pub minus : ℕ
minus = 45

-- `std::getline (ss, flag, ' ')` until it fails; `flag` is what it has read of a field. At the end
-- of the text it fails if it has read no byte.
unfoldable pub fields : List ℕ → List ℕ → List (List ℕ)
fields [] [] = []
fields (b ∷ flag) [] = (b ∷ flag) ∷ []
fields flag (c ∷ text) =
    let after = fields [] text in
    let within = fields (flag ++ c ∷ []) text in if c == blank then flag ∷ after else within

-- `flag.at (0)` throws where the flag is empty.
unfoldable pub flag_call : List ℕ → Outcome FlagCall
flag_call [] = stop thrown
flag_call (c ∷ flag) =
    if c == minus then ok (clear_debug_flag flag) else ok (set_debug_flag (c ∷ flag))

unfoldable pub flag_calls : List (List ℕ) → Outcome (List FlagCall)
unfolding flag_call
flag_calls [] = ok []
flag_calls (flag ∷ flags) = do call ← flag_call flag; calls ← flag_calls flags; ok (call ∷ calls)

-- The loop of the constructor.
unfoldable pub parse_debug_flags : List ℕ → Outcome (List FlagCall)
unfolding fields flag_calls
parse_debug_flags text = flag_calls (fields [] text)

-- How a call is written in the string.
unfoldable pub spelling : FlagCall → List ℕ
spelling (set_debug_flag flag) = flag
spelling (clear_debug_flag flag) = minus ∷ flag

-- The string of some calls, with one blank between two of them.
unfoldable pub spelled : FlagCall → List FlagCall → List ℕ
unfolding spelling
spelled call [] = spelling call
spelled call (next ∷ calls) = spelling call ++ blank ∷ spelled next calls

-- A call that the string can say: no blank in the flag, and a flag to set is not empty and does
-- not begin with a minus sign.
unfoldable pub IsSayable : FlagCall → Type 0
IsSayable (set_debug_flag []) = ⊥
IsSayable (set_debug_flag (c ∷ flag)) = (c ≢ minus) × (contains blank (c ∷ flag) ≡ false)
IsSayable (clear_debug_flag flag) = contains blank flag ≡ false

unfoldable pub AreSayable : List FlagCall → Type 0
AreSayable [] = Unit {0}
AreSayable (call ∷ calls) = IsSayable call × AreSayable calls

-- A piece without blanks is read whole.
fields-word :
    (flag word text : List ℕ)
    → contains blank word ≡ false
    → fields flag (word ++ blank ∷ text) ≡ (flag ++ word) ∷ fields [] text
unfolding fields
fields-word [] [] text h = refl
fields-word (b ∷ flag) [] text h = rw (append-nil flag) refl
fields-word flag (c ∷ word) text h =
    ground (arith, fields-word (flag ++ c ∷ []) word text, append_assoc flag (c ∷ []) word)

fields-last :
    (b : ℕ) (flag word : List ℕ)
    → contains blank word ≡ false
    → fields (b ∷ flag) word ≡ (b ∷ flag ++ word) ∷ []
unfolding fields
fields-last b flag [] h = rw (append-nil flag) refl
fields-last b flag (c ∷ word) h =
    ground (arith, fields-last b (flag ++ c ∷ []) word, append_assoc flag (c ∷ []) word)

-- The spelling of a call that the string can say is a piece without blanks, and is read as the
-- call.
record IsWord (call : FlagCall) : Type 0 where
  first : ℕ
  others : List ℕ
  shape : spelling call ≡ first ∷ others
  no_blank : contains blank (spelling call) ≡ false
  reads : flag_call (spelling call) ≡ ok call

spelling-IsWord : (call : FlagCall) → IsSayable call → IsWord call
unfolding spelling flag_call IsSayable
spelling-IsWord (set_debug_flag []) s = absurd s
spelling-IsWord (set_debug_flag (c ∷ flag)) (plain, free) = record {
  first = c;
  others = flag;
  shape = refl;
  no_blank = free;
  reads = ground (arith, plain);
}
spelling-IsWord (clear_debug_flag flag) s = record {
  first = minus;
  others = flag;
  shape = refl;
  no_blank = s;
  reads = refl;
}

fields-one : {call : FlagCall} → IsWord call → fields [] (spelling call) ≡ spelling call ∷ []
unfolding fields
fields-one {call} w =
    let free : contains blank (w.first ∷ w.others) ≡ false = rw w.shape at w.no_blank in
    rw w.shape (ground (arith, free, fields-last w.first [] w.others))

-- The string that writes down some calls, with one blank between two of them, makes exactly these
-- calls, in their order.
pub parse_debug_flags-spelled :
    (call : FlagCall) (calls : List FlagCall)
    → IsSayable call
    → AreSayable calls
    → parse_debug_flags (spelled call calls) ≡ ok (call ∷ calls)
unfolding parse_debug_flags spelled AreSayable flag_calls
parse_debug_flags-spelled call [] s rest =
    let w = spelling-IsWord call s in rw (fields-one w) (rw w.reads refl)
parse_debug_flags-spelled call (next ∷ calls) s rest =
    let w = spelling-IsWord call s in
    rw (fields-word [] (spelling call) (spelled next calls) w.no_blank)
      (rw w.reads (rw (parse_debug_flags-spelled next calls rest.0 rest.1) refl))

-- Only an empty field stops the loop.
flag_calls-empty : (flags more : List (List ℕ)) → flag_calls (flags ++ [] ∷ more) ≡ stop thrown
unfolding flag_calls flag_call
flag_calls-empty [] more = refl
flag_calls-empty ([] ∷ flags) more = refl
flag_calls-empty ((c ∷ flag) ∷ flags) more = ground (arith, flag_calls-empty flags more)

fields-two_blanks :
    (flag text more : List ℕ)
    → (flags : List (List ℕ)) × (fields flag (text ++ blank ∷ blank ∷ more)
        ≡ flags ++ [] ∷ fields [] more)
unfolding fields
fields-two_blanks [] [] more = ([] ∷ [], refl)
fields-two_blanks (b ∷ flag) [] more = ((b ∷ flag) ∷ [], refl)
fields-two_blanks flag (c ∷ text) more = elim (Bool-cases (c == blank)) [
  | inl e ↦
      let (flags, shape) = fields-two_blanks [] text more in
      (flag ∷ flags, rw e (ap (λ (l : List (List ℕ)). flag ∷ l) shape))
  | inr e ↦ let (flags, shape) = fields-two_blanks (flag ++ c ∷ []) text more in (flags, rw e shape)
]

-- A string with two blanks next to each other, anywhere, ends the program by an exception that
-- nothing catches.
pub parse_debug_flags-two_blanks :
    (text more : List ℕ) → parse_debug_flags (text ++ blank ∷ blank ∷ more) ≡ stop thrown
unfolding parse_debug_flags
parse_debug_flags-two_blanks text more =
    let (flags, shape) = fields-two_blanks [] text more in
    rw shape (flag_calls-empty flags (fields [] more))
