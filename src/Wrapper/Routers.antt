-- ===== src/Wrapper/Routers.antt =====
-- src/gem5_wrapper.cc: the routers under their ids, and the one bus.
use gem5_wrapper.Prelude.{
  ℕ, ◌<◌, ◌≡◌, refl, none, some, ◌∷◌, arith, ok, get_elem?, ◌==◌, if◌then◌else◌,
}
use gem5_wrapper.Prelude.Map.{find}
use gem5_wrapper.Prelude.MapOrder.{AscendsFrom, insert-AscendsFrom, find-insert}
use gem5_wrapper.Wrapper.{
  bind_socket, Bus, Gem5Wrapper, new, create_sim_control, create_transactor,
  create_singleton_transactor, create_txn_router, create_simple_bus, bind_sim_control2transactor,
  bind_txn_router2transactor, bind_txn_router2bus,
}
use gem5_wrapper.Wrapper.Steps.{
  Step, makes_control, makes_transactor, makes_singleton, makes_router, makes_bus, binds_control,
  binds_socket, binds_bus, Reach, begin, next,
}

step-routers :
    {w w' : Gem5Wrapper} → AscendsFrom 0 w.txn_routers → Step w w' → AscendsFrom 0 w'.txn_routers
unfolding create_sim_control create_transactor create_singleton_transactor create_txn_router
    create_simple_bus bind_sim_control2transactor bind_txn_router2transactor bind_txn_router2bus
step-routers a (makes_control c) = ground (arith, a)
step-routers a (makes_transactor f n k e) = ground (arith, a, e)
step-routers a (makes_singleton f n k e) = ground (arith, a, e)
step-routers a (makes_router f id) = insert-AscendsFrom 0 id f _ (omega arith) a
step-routers a (makes_bus f s e h) = ground (arith, a, h)
step-routers a binds_control = ground (arith, a)
step-routers a (binds_socket x s t e) = ground (arith, a, e)
step-routers a (binds_bus x s e) = ground (arith, a, e)

Reach-routers : {w : Gem5Wrapper} → Reach w → AscendsFrom 0 w.txn_routers
unfolding new
Reach-routers (begin objects) = tt
Reach-routers (next r s) = step-routers (Reach-routers r) s

-- The router that a binding under an id uses is the one that was made first under that id: after
-- `createTxnRouter` the new one if the id was unused, and otherwise still the old one, although
-- the call answers the new one.
pub create_txn_router-binds :
    (fresh id q socket transactor t : ℕ) (w : Gem5Wrapper)
    → Reach w
    → get_elem? w.transactors transactor ≡ some t
    → socket < (w.objects t).multi.socket_num
    → let w' = (create_txn_router fresh id w).1 in
      ((create_txn_router fresh id w).0 ≡ fresh)
      × (bind_txn_router2transactor q socket transactor w' ≡ elim (find q w.txn_routers) [
        | some old ↦ ok (record w' { calls = bind_socket t socket old ∷ w.calls })
        | none ↦
            if id == q
            then ok (record w' { calls = bind_socket t socket fresh ∷ w.calls })
            else ok w'
      ])
unfolding create_txn_router bind_txn_router2transactor
create_txn_router-binds fresh id q socket transactor t w r e l =
    (refl, ground (arith, e, l, find-insert 0 id q fresh w.txn_routers (Reach-routers r)))

-- The bus is made once: a second call answers the first bus, whatever range it asks for.
pub create_simple_bus-again :
    (fresh start end other start' end' : ℕ) (w : Gem5Wrapper) {w' : Gem5Wrapper} {bus : Bus}
    → create_simple_bus fresh start end w ≡ ok (bus, w')
    → create_simple_bus other start' end' w' ≡ ok (bus, w')
unfolding create_simple_bus
create_simple_bus-again fresh start end other start' end' w e = ground (arith, e)
