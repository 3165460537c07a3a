-- ===== src/Router/Address.antt =====
-- include/txn_router.h: which addresses `ToMem` takes for memory.
use gem5_wrapper.Prelude.{ℕ, ◌+◌, ◌^◌, ◌≤◌, ◌<◌, ◌≡◌, ◌↔◌, true, false, arith, stop, sc_fatal, ◌∷◌}
use gem5_wrapper.Tlm.{Phase}
use gem5_wrapper.Router.{
  TxnRouter, to_mem, b_transport, transport_dbg, nb_transport_fw, bus_transport,
}

-- Where the end of the region is a uint64_t, exactly the addresses of the region are memory.
pub to_mem_iff :
    (s : TxnRouter) (addr : ℕ)
    → s.mem_start_addr + s.mem_size < 2 ^ 64
    → (to_mem s addr ≡ true) ↔ ((s.mem_start_addr ≤ addr) × (addr < s.mem_start_addr + s.mem_size))
unfolding to_mem
to_mem_iff s addr h = (λ e. ground arith, λ b. ground arith)

-- A region that ends exactly at the top of the 64-bit space is not recognised at all: the sum wraps
-- to 0, no address is memory, and every timing and debug request stops the simulation.
pub to_mem_top :
    (s : TxnRouter) (trans addr bytes : ℕ) (phase : Phase)
    → s.mem_start_addr + s.mem_size ≡ 2 ^ 64
    → (to_mem s addr ≡ false)
      × (nb_transport_fw trans addr phase s ≡ stop sc_fatal)
      × (transport_dbg trans addr bytes s ≡ stop sc_fatal)
unfolding to_mem nb_transport_fw transport_dbg
to_mem_top s trans addr bytes phase h = (ground arith, ground arith, ground arith)

-- The three entries of the router at an address outside the region: a blocking transport goes to
-- the bus, a timing request and a debug request stop the simulation.
pub outside_memory :
    (s : TxnRouter) (trans addr bytes : ℕ) (phase : Phase)
    → to_mem s addr ≡ false
    → ((b_transport trans addr s).calls ≡ bus_transport trans ∷ s.calls)
      × (nb_transport_fw trans addr phase s ≡ stop sc_fatal)
      × (transport_dbg trans addr bytes s ≡ stop sc_fatal)
unfolding b_transport nb_transport_fw transport_dbg
outside_memory s trans addr bytes phase h = (ground arith, ground arith, ground arith)
