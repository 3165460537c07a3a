-- ===== src/Control/Laws.antt =====
-- src/sc_gem5_control.cc: the start of a system, the version, and the functions that are called at
-- the end of elaboration.
use Prim.Native.String.{String}
use text.Mathlib.Text.{◌==◌ as str_eq}
use text.Mathlib.TextEquality.{eq_iff}
use gem5_wrapper.Prelude.{
  ℕ, ◌≡◌, ◌≢◌, refl, ◌∙◌, inl, inr, Bool, true, false, ◌||◌, List, [], ◌∷◌, ◌++◌, arith,
  if◌then◌else◌, Outcome, ok, stop, ◌>>=◌, exited, thrown, Bool-cases,
}
use gem5_wrapper.Control.{
  Gem5System, build, instantiate, TopLevel, register_end_of_elaboration, apply_all,
  end_of_elaboration, Gem5Control, get_version, set_version,
}
use gem5_wrapper.Control.Manager.{
  Call, find_object, find_traversal_order, bind_object_ports, instantiate_objects, init_state,
  startup, ask, bind_all, caught,
}

-- The list of calls after some more, which come in this order.
abbrev pub after : List Call → List Call → List Call
after [] l = l
after (c ∷ cs) l = after cs (c ∷ l)

-- Whether one of them throws.
abbrev pub throws_in : (throws : List Call → Bool) → List Call → List Call → Bool
throws_in throws [] l = false
throws_in throws (c ∷ cs) l = throws (c ∷ l) || throws_in throws cs (c ∷ l)

abbrev pub bindings : List ℕ → List Call
bindings [] = []
bindings (object ∷ objects) = bind_object_ports object ∷ bindings objects

-- gem5's start-up sequence for a system with some objects.
abbrev pub startup_sequence : String → List ℕ → List Call
startup_sequence name objects =
    find_object name true
    ∷ find_traversal_order name
    ∷ (bindings objects ++ instantiate_objects false ∷ init_state ∷ startup ∷ [])

bind_all_lem :
    (throws : List Call → Bool) (objects : List ℕ) (l : List Call)
    → bind_all throws objects l ≡ (
        if throws_in throws (bindings objects) l
        then stop thrown
        else ok (after (bindings objects) l))
unfolding bind_all ask
bind_all_lem throws [] l = refl
bind_all_lem throws (object ∷ objects) l =
    elim (Bool-cases (throws (bind_object_ports object ∷ l))) [
      | inl e ↦ rw e refl
      | inr e ↦ rw e (bind_all_lem throws objects (bind_object_ports object ∷ l))
    ]

after-append : (a b : List Call) (l : List Call) → after (a ++ b) l ≡ after b (after a l)
after-append [] b l = refl
after-append (c ∷ a) b l = after-append a b (c ∷ l)

throws_in-append :
    (throws : List Call → Bool) (a b l : List Call)
    → throws_in throws (a ++ b) l ≡ (throws_in throws a l || throws_in throws b (after a l))
throws_in-append throws [] b l = refl
throws_in-append throws (c ∷ a) b l = elim (Bool-cases (throws (c ∷ l))) [
  | inl e ↦ rw e refl
  | inr e ↦ rw e (throws_in-append throws a b (c ∷ l))
]

last_calls : List Call
last_calls = instantiate_objects false ∷ init_state ∷ startup ∷ []

-- The sequence from the bindings on.
tail_lem :
    (throws : List Call → Bool) (objects : List ℕ) (l : List Call)
    → (bind_all throws objects l >>= λ l3. ask throws (instantiate_objects false) l3 >>= λ l4.
        ask throws init_state l4 >>= λ l5. ask throws startup l5)
      ≡ (if throws_in throws (bindings objects ++ last_calls) l
          then stop thrown
          else ok (after (bindings objects ++ last_calls) l))
unfolding ask last_calls
tail_lem throws objects l = rw (bind_all_lem throws objects l) (
    rw (throws_in-append throws (bindings objects) last_calls l) (
      rw (after-append (bindings objects) last_calls l)
        (ends (throws_in throws (bindings objects) l) (after (bindings objects) l))))
  where
    ends :
        (b : Bool) (l : List Call)
        → ((if b then stop thrown else ok l) >>= λ l3.
            ask throws (instantiate_objects false) l3 >>= λ l4.
            ask throws init_state l4 >>= λ l5. ask throws startup l5)
          ≡ (if b || throws_in throws last_calls l then stop thrown else ok (after last_calls l))
    ends true l = refl
    ends false l = ground arith

build_lem :
    (throws : List Call → Bool) (objects : List ℕ) (name : String) (l : List Call)
    → build throws objects name l ≡ (
        if throws_in throws (startup_sequence name objects) l
        then stop thrown
        else ok (after (startup_sequence name objects) l))
unfolding build ask last_calls
build_lem throws objects name l =
    let l1 = find_object name true ∷ l in
    let l2 = find_traversal_order name ∷ l1 in
    elim (Bool-cases (throws l1)) [
      | inl e ↦ rw e refl
      | inr e ↦ elim (Bool-cases (throws l2)) [
        | inl f ↦ rw e (rw f refl)
        | inr f ↦ rw e (rw f (tail_lem throws objects l2))
      ]
    ]

-- A system asks gem5 for exactly the calls of the start-up sequence, each object's ports bound once
-- and in the traversal's order. If none of the calls throws, the system has made them all; if one
-- throws, the program ends by a reported error: the exception does not leave `instantiate`.
pub instantiate_lem :
    (throws : List Call → Bool) (objects : List ℕ) (s : Gem5System)
    → let calls = startup_sequence s.system_name objects in
      instantiate throws objects s ≡ (
        if throws_in throws calls s.calls
        then stop exited
        else ok (record s { calls = after calls s.calls }))
unfolding instantiate caught
instantiate_lem throws objects s =
    rw (build_lem throws objects s.system_name s.calls) (ground arith)

>>=-append {ℓ} :
    {S : Type ℓ} (o : Outcome S) (f g h : S → Outcome S)
    → ((s : S) → f s ≡ (g s >>= h))
    → (o >>= f) ≡ ((o >>= g) >>= h)
>>=-append (stop fault) f g h e = refl
>>=-append (ok s) f g h e = e s

apply_all-append {ℓ} :
    {S : Type ℓ} (apply : ℕ → S → Outcome S) (a b : List ℕ) (s : S)
    → apply_all apply (a ++ b) s ≡ (apply_all apply a s >>= λ s'. apply_all apply b s')
unfolding apply_all
apply_all-append apply [] b s = refl
apply_all-append apply (func ∷ a) b s =
    >>=-append (apply func s) (apply_all apply (a ++ b)) (apply_all apply a) (apply_all apply b)
      (λ s'. apply_all-append apply a b s')

>>=-ok {ℓ} : {S : Type ℓ} (o : Outcome S) → (o >>= λ s. ok s) ≡ o
>>=-ok (stop fault) = refl
>>=-ok (ok s) = refl

-- A function that is registered is called at the end of elaboration, after all that were
-- registered before it, and only if none of them stops the program.
pub end_of_elaboration-register {ℓ} :
    {S : Type ℓ} (apply : ℕ → S → Outcome S) (func : ℕ) (m : TopLevel) (s : S)
    → end_of_elaboration apply (register_end_of_elaboration func m) s
      ≡ (end_of_elaboration apply m s >>= apply func)
unfolding end_of_elaboration register_end_of_elaboration apply_all
end_of_elaboration-register {S = S} apply func m s =
    apply_all-append apply m.end_of_elaboration_funcs (func ∷ []) s
    ∙ last (apply_all apply m.end_of_elaboration_funcs s)
  where
    last : (o : Outcome S) → (o >>= λ s'. apply func s' >>= λ s''. ok s'') ≡ (o >>= apply func)
    last (stop fault) = refl
    last (ok s') = >>=-ok (apply func s')

-- The version can be set once to a text that is not empty: it is then answered, and any further
-- setting ends the program.
pub set_version-once :
    (v other : String) (c : Gem5Control)
    → get_version c ≡ ""
    → v ≢ ""
    → (c' : Gem5Control) × (set_version v c ≡ ok c')
      × (get_version c' ≡ v)
      × (set_version other c' ≡ stop exited)
unfolding set_version get_version
set_version-once v other c e n =
    let was_empty : str_eq c.version "" ≡ true = (eq_iff c.version "").1 e in
    let is_full : str_eq v "" ≡ false = ground (arith, eq_iff v "", n) in
    (record c { version = v }, rw was_empty refl, refl, rw is_full refl)
