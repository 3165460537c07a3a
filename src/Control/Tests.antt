-- ===== src/Control/Tests.antt =====
-- Runs of the control of gem5 systems, and the theorems about it at concrete inputs.
use gem5_wrapper.Prelude.{◌≡◌, refl, Bool, false, ◌==◌, List, [], ◌∷◌, stop, exited}
use gem5_wrapper.Control.{new_system, object_name, instantiate}
use gem5_wrapper.Control.Manager.{Call, bind_object_ports}
use gem5_wrapper.Control.Laws.{instantiate_lem}

-- Only the second object's ports cannot be bound.
abbrev second_fails : List Call → Bool
second_fails (bind_object_ports object ∷ calls) = object == 2
second_fails calls = false

path_test : object_name (new_system "system" "first") "cpu" ≡ "system.cpu"
unfolding object_name new_system
path_test = refl

own_path_test : object_name (new_system "system" "first") "" ≡ "system"
unfolding object_name new_system
own_path_test = refl

instantiate_lem_example :
    instantiate second_fails (1 ∷ 2 ∷ []) (new_system "system" "first") ≡ stop exited
unfolding new_system
instantiate_lem_example = instantiate_lem second_fails (1 ∷ 2 ∷ []) (new_system "system" "first")
