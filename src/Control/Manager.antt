-- ===== src/Control/Manager.antt =====
-- src/sc_gem5_control.cc: what the code asks gem5's configuration manager, call by call.
use Prim.Native.String.{String}
use gem5_wrapper.Prelude.{
  ℕ, Bool, not, List, [], ◌∷◌, Fault, assertion, sc_fatal, panicked, sc_error, exited, bad_access,
  thrown, Outcome, ok, stop, check, ◌>>=◌, ◌>>◌,
}

pub data Call : Type 0 where
  add_renaming : (system instance_name : String) → Call
  set_param : (object name value : String) → Call
  set_param_vector : (object name : String) → List String → Call
  find_object : String → (visit_children : Bool) → Call
  find_traversal_order : String → Call
  push_object : ℕ → Call  -- into `objectsInOrder`
  bind_object_ports : ℕ → Call
  instantiate_objects : (build_all : Bool) → Call
  init_state startup : Call

unfoldable pub ask : (throws : List Call → Bool) → Call → List Call → Outcome (List Call)
ask throws c l = do check (not (throws (c ∷ l))) thrown; ok (c ∷ l)

-- The loop over `objectsInOrder`.
unfoldable pub bind_all : (throws : List Call → Bool) → List ℕ → List Call → Outcome (List Call)
unfolding ask
bind_all throws [] l = ok l
bind_all throws (object ∷ objects) l =
    ask throws (bind_object_ports object) l >>= λ l'. bind_all throws objects l'

-- `fatal` where gem5's exception was caught.
abbrev fault_after : Fault → Fault
fault_after assertion = assertion
fault_after sc_fatal = sc_fatal
fault_after panicked = panicked
fault_after sc_error = sc_error
fault_after exited = exited
fault_after bad_access = bad_access
fault_after thrown = exited

unfoldable pub caught {ℓ} : {A : Type ℓ} → Outcome A → Outcome A
caught (ok a) = ok a
caught (stop fault) = stop (fault_after fault)
