-- ===== src/Wrapper/Steps.antt =====
-- src/gem5_wrapper.cc: the calls of the wrapper as steps, and what each leaves of the transactors and
-- of the bindings to the control.
use Prim.Native.String.{String}
use mathlib.Core.List.{append-nil, append_assoc}
use gem5_wrapper.Prelude.{
  ℕ, ◌≡◌, ◌⊎◌, sym, ◌∙◌, inl, inr, true, false, List, [], ◌∷◌, ◌++◌, arith, ok, Option-cases,
  Bool-cases,
}
use gem5_wrapper.Transactor.{Transactor}
use gem5_wrapper.Wrapper.{
  Call, bind_control, bind_socket, bind_bus, Bus, Gem5Wrapper, new, create_sim_control,
  create_transactor, create_singleton_transactor, create_txn_router, create_simple_bus, bind_each,
  bind_sim_control2transactor, bind_txn_router2transactor, bind_txn_router2bus,
}

-- The calls of the wrapper that change it.
pub data Step : Gem5Wrapper → Gem5Wrapper → Type 0 where
  makes_control : (control : ℕ) {w : Gem5Wrapper} → Step w (create_sim_control control w)
  makes_transactor :
      (fresh : ℕ) (name : String) (num : ℕ) {w w' : Gem5Wrapper}
      → create_transactor fresh name num w ≡ ok w'
      → Step w w'
  makes_singleton :
      (fresh : ℕ) (name : String) (num : ℕ) {w w' : Gem5Wrapper}
      → create_singleton_transactor fresh name num w ≡ ok w'
      → Step w w'
  makes_router : (fresh id : ℕ) {w : Gem5Wrapper} → Step w (create_txn_router fresh id w).1
  makes_bus :
      (fresh start end : ℕ) {w w' : Gem5Wrapper} {bus : Bus}
      → create_simple_bus fresh start end w ≡ ok (bus, w')
      → Step w w'
  binds_control : {w : Gem5Wrapper} → Step w (bind_sim_control2transactor w)
  binds_socket :
      (txn socket transactor : ℕ) {w w' : Gem5Wrapper}
      → bind_txn_router2transactor txn socket transactor w ≡ ok w'
      → Step w w'
  binds_bus :
      (txn socket : ℕ) {w w' : Gem5Wrapper} → bind_txn_router2bus txn socket w ≡ ok w' → Step w w'

pub data Reach : Gem5Wrapper → Type 0 where
  begin : (objects : ℕ → Transactor) → Reach (new objects)
  next : {w w' : Gem5Wrapper} → Reach w → Step w w' → Reach w'

-- The transactors that were bound to the control, in the order of the bindings.
unfoldable pub bound : List Call → List ℕ
bound [] = []
bound (bind_control t c ∷ calls) = bound calls ++ t ∷ []
bound (bind_socket t s r ∷ calls) = bound calls
bound (bind_bus r b s ∷ calls) = bound calls

pub bound-bind_each :
    (control : ℕ) (ts : List ℕ) (calls : List Call)
    → bound (bind_each control ts calls) ≡ bound calls ++ ts
unfolding bind_each bound
bound-bind_each control [] calls = sym (append-nil (bound calls))
bound-bind_each control (t ∷ ts) calls =
    bound-bind_each control ts (bind_control t control ∷ calls)
    ∙ append_assoc (bound calls) (t ∷ []) ts

pub create_transactor_cases :
    (fresh : ℕ) (name : String) (num : ℕ) (w : Gem5Wrapper) {w' : Gem5Wrapper}
    → create_transactor fresh name num w ≡ ok w'
    → (w'.transactors ≡ w.transactors ++ fresh ∷ [])
      × (w'.sim_control_binded ≡ w.sim_control_binded)
      × (w'.calls ≡ w.calls)
      × (w'.sim_control ≡ w.sim_control)
unfolding create_transactor
create_transactor_cases fresh name num w e = ground (arith, e)

pub bind_sim_control2transactor_cases :
    (w : Gem5Wrapper)
    → let w' = bind_sim_control2transactor w in
      (w'.transactors ≡ w.transactors)
        × (w'.sim_control_binded ≡ w.sim_control_binded)
        × (w'.calls ≡ w.calls)
      ⊎ ((control : ℕ) × (w.sim_control_binded ≡ false)
          × (w'.transactors ≡ w.transactors)
          × (w'.sim_control_binded ≡ true)
          × (w'.calls ≡ bind_each control w.transactors w.calls))
unfolding bind_sim_control2transactor
bind_sim_control2transactor_cases w = elim (Option-cases w.sim_control) [
  | inl e ↦ inl (ground (arith, e), ground (arith, e), ground (arith, e))
  | inr (control, e) ↦ elim (Bool-cases w.sim_control_binded) [
    | inl b ↦ inl (ground (arith, e, b), ground (arith, e, b), ground (arith, e, b))
    | inr b ↦ inr (control, b, ground (arith, e, b), ground (arith, e, b), ground (arith, e, b))
  ]
]

-- The steps that bind something else.
pub binds_socket_cases :
    (txn socket transactor : ℕ) (w : Gem5Wrapper) {w' : Gem5Wrapper}
    → bind_txn_router2transactor txn socket transactor w ≡ ok w'
    → (w'.transactors ≡ w.transactors)
      × (w'.sim_control_binded ≡ w.sim_control_binded)
      × (bound w'.calls ≡ bound w.calls)
unfolding bind_txn_router2transactor bound
binds_socket_cases txn socket transactor w e = ground (arith, e)

pub binds_bus_cases :
    (txn socket : ℕ) (w : Gem5Wrapper) {w' : Gem5Wrapper}
    → bind_txn_router2bus txn socket w ≡ ok w'
    → (w'.transactors ≡ w.transactors)
      × (w'.sim_control_binded ≡ w.sim_control_binded)
      × (bound w'.calls ≡ bound w.calls)
unfolding bind_txn_router2bus bound
binds_bus_cases txn socket w e = ground (arith, e)

pub makes_control_cases :
    (control : ℕ) (w : Gem5Wrapper)
    → let w' = create_sim_control control w in
      (w'.transactors ≡ w.transactors)
      × (w'.sim_control_binded ≡ w.sim_control_binded)
      × (w'.calls ≡ w.calls)
unfolding create_sim_control
makes_control_cases control w = ground arith

pub makes_bus_cases :
    (fresh start end : ℕ) (w : Gem5Wrapper) {w' : Gem5Wrapper} {bus : Bus}
    → create_simple_bus fresh start end w ≡ ok (bus, w')
    → (w'.transactors ≡ w.transactors)
      × (w'.sim_control_binded ≡ w.sim_control_binded)
      × (w'.calls ≡ w.calls)
unfolding create_simple_bus
makes_bus_cases fresh start end w e = ground (arith, e)
