-- ===== src/Wrapper/Binding.antt =====
-- src/gem5_wrapper.cc: which transactors are bound to the control, and how often.
use Prim.Native.String.{String}
use mathlib.Core.List.{append-nil, append_assoc}
use gem5_wrapper.Prelude.{
  ℕ, ◌≡◌, refl, sym, ap, ◌∙◌, inl, inr, true, false, some, List, [], ◌∷◌, ◌++◌, arith, ok,
  Option-cases,
}
use gem5_wrapper.Wrapper.{
  Call, Gem5Wrapper, new, create_transactor, create_singleton_transactor, create_txn_router,
  bind_sim_control2transactor,
}
use gem5_wrapper.Wrapper.Steps.{
  Step, makes_control, makes_transactor, makes_singleton, makes_router, makes_bus, binds_control,
  binds_socket, binds_bus, Reach, begin, next, bound, bind_sim_control2transactor_cases,
  binds_bus_cases, binds_socket_cases, bound-bind_each, create_transactor_cases, makes_bus_cases,
  makes_control_cases,
}

-- The transactors that are bound are those at the front of the vector, in its order and each as
-- often as it stands there; and before the control is bound it is none.
pub record IsBoundOnce (w : Gem5Wrapper) : Type 0 where
  pub late : List ℕ
  pub parts : w.transactors ≡ bound w.calls ++ late
  pub none_yet : w.sim_control_binded ≡ false → bound w.calls ≡ []

-- What leaves the transactors, the flag and the bindings of the control as they are.
same-IsBoundOnce :
    {w w' : Gem5Wrapper}
    → IsBoundOnce w
    → w'.transactors ≡ w.transactors
    → w'.sim_control_binded ≡ w.sim_control_binded
    → bound w'.calls ≡ bound w.calls
    → IsBoundOnce w'
same-IsBoundOnce i t b c = record {
  late = i.late;
  parts = t ∙ i.parts ∙ ap (λ (l : List ℕ). l ++ i.late) (sym c);
  none_yet = λ e. c ∙ i.none_yet (sym b ∙ e);
}

pushed-IsBoundOnce :
    {w w' : Gem5Wrapper} (t : ℕ)
    → IsBoundOnce w
    → w'.transactors ≡ w.transactors ++ t ∷ []
    → w'.sim_control_binded ≡ w.sim_control_binded
    → w'.calls ≡ w.calls
    → IsBoundOnce w'
pushed-IsBoundOnce {w} t i e b c = record {
  late = i.late ++ t ∷ [];
  parts =
      e
      ∙ ap (λ (l : List ℕ). l ++ t ∷ []) i.parts
      ∙ append_assoc (bound w.calls) i.late (t ∷ [])
      ∙ ap (λ (l : List Call). bound l ++ (i.late ++ t ∷ [])) (sym c);
  none_yet = λ f. ap bound c ∙ i.none_yet (sym b ∙ f);
}

binds_control-IsBoundOnce :
    {w : Gem5Wrapper} → IsBoundOnce w → IsBoundOnce (bind_sim_control2transactor w)
binds_control-IsBoundOnce {w} i = elim (bind_sim_control2transactor_cases w) [
  | inl (t, b, c) ↦ same-IsBoundOnce i t b (ap bound c)
  | inr (control, unbound, t, b, c) ↦
      let all = ap bound c ∙ bound-bind_each control w.transactors w.calls in
      record {
        late = [];
        parts =
            t
            ∙ ap (λ (l : List ℕ). l ++ w.transactors) (sym (i.none_yet unbound))
            ∙ sym all
            ∙ sym (append-nil (bound (bind_sim_control2transactor w).calls));
        none_yet = λ f. absurd (true_false (sym b ∙ f));
      }
]
  where
    true_false : true ≡ false → ⊥
    true_false x = cc

makes_singleton-IsBoundOnce :
    (fresh : ℕ) (name : String) (num : ℕ) {w w' : Gem5Wrapper}
    → IsBoundOnce w
    → create_singleton_transactor fresh name num w ≡ ok w'
    → IsBoundOnce w'
unfolding create_singleton_transactor
makes_singleton-IsBoundOnce fresh name num {w} {w'} i e = elim (Option-cases w.singleton) [
  | inl n ↦
      let (t, b, c, s) =
        create_transactor_cases fresh name num (record w { singleton = some fresh }) {w' = w'}
          (ground (arith, e, n)) in
      pushed-IsBoundOnce fresh i t b c
  | inr (p, n) ↦
      let shape : w' ≡ record w { transactors = w.transactors ++ p ∷ [] } = ground (arith, e, n) in
      pushed-IsBoundOnce p i (ap (λ (u : Gem5Wrapper). u.transactors) shape)
        (ap (λ (u : Gem5Wrapper). u.sim_control_binded) shape)
        (ap (λ (u : Gem5Wrapper). u.calls) shape)
]

step-IsBoundOnce : {w w' : Gem5Wrapper} → IsBoundOnce w → Step w w' → IsBoundOnce w'
unfolding create_txn_router
step-IsBoundOnce {w} i (makes_control control) =
    let (t, b, c) = makes_control_cases control w in same-IsBoundOnce i t b (ap bound c)
step-IsBoundOnce {w} i (makes_transactor fresh name num e) =
    let (t, b, c, s) = create_transactor_cases fresh name num w e in
    pushed-IsBoundOnce fresh i t b c
step-IsBoundOnce i (makes_singleton fresh name num e) =
    makes_singleton-IsBoundOnce fresh name num i e
step-IsBoundOnce i (makes_router fresh id) = same-IsBoundOnce i refl refl refl
step-IsBoundOnce {w} i (makes_bus fresh start end e) =
    let (t, b, c) = makes_bus_cases fresh start end w e in same-IsBoundOnce i t b (ap bound c)
step-IsBoundOnce i binds_control = binds_control-IsBoundOnce i
step-IsBoundOnce {w} i (binds_socket txn socket transactor e) =
    let (t, b, c) = binds_socket_cases txn socket transactor w e in same-IsBoundOnce i t b c
step-IsBoundOnce {w} i (binds_bus txn socket e) =
    let (t, b, c) = binds_bus_cases txn socket w e in same-IsBoundOnce i t b c

-- In every state that the wrapper's calls lead to, in any order, the transactors that are bound to
-- the control are those at the front of its vector, in that order and each as often as it stands
-- there; and no transactor is bound before `bindSimControl2Transactor` has found a control.
pub Reach-IsBoundOnce : {w : Gem5Wrapper} → Reach w → IsBoundOnce w
unfolding bound new
Reach-IsBoundOnce (begin objects) = record { late = []; parts = refl; none_yet = λ e. refl }
Reach-IsBoundOnce (next r s) = step-IsBoundOnce (Reach-IsBoundOnce r) s

-- Once the control is bound, a transactor that is made later stays unbound, however often
-- `bindSimControl2Transactor` is called again: the call does nothing.
pub bind_sim_control2transactor-late :
    (fresh : ℕ) (name : String) (num : ℕ) (w : Gem5Wrapper) {w' : Gem5Wrapper}
    → w.sim_control_binded ≡ true
    → create_transactor fresh name num w ≡ ok w'
    → (bound (bind_sim_control2transactor w').calls ≡ bound w.calls)
      × (w'.transactors ≡ w.transactors ++ fresh ∷ [])
bind_sim_control2transactor-late fresh name num w {w'} h e =
    let (t, b, c, s) = create_transactor_cases fresh name num w e in
    elim (bind_sim_control2transactor_cases w') [
      | inl (t', b', c') ↦ (ap bound c' ∙ ap bound c, t)
      | inr (control, unbound, t', b', c') ↦ absurd (true_false (sym (b ∙ h) ∙ unbound))
    ]
  where
    true_false : true ≡ false → ⊥
    true_false x = cc
