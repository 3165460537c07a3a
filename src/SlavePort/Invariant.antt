-- ===== src/SlavePort/Invariant.antt =====
-- src/sc_slave_port.cc: what holds between two calls of a port that is bound to a multi-socket
-- transactor. `isUsingGem5Cache` is false there, so all state of the system port is unused.
use gem5_wrapper.Prelude.{
  ℕ, ◌≡◌, ◌≢◌, inl, inr, Bool, false, Option, none, some, arith, ◌==◌, Bool-cases,
}
use gem5_wrapper.Prelude.Map.{find, find-assign}
use gem5_wrapper.Helper
use gem5_wrapper.Helper.{
  PktType, request, response, BlockingPacketHelper, slots, system_port_flag, update_blocking_map,
  update_retry_map, is_blocked_port,
}
use gem5_wrapper.Helper.Channels.{IsReady, updated-IsReady}
use gem5_wrapper.Helper.Search.{with_retry, with_retry-IsReady}
use gem5_wrapper.SlavePort.State.{Gem5Extension, Payload, ScSlavePort, update}

abbrev pub core_of : Option Gem5Extension → Option ℕ
core_of none = none
core_of (some e) = some e.core_id

-- The helper's part of the state: ready, and its system port never blocked.
pub record IsCoreHelper (h : BlockingPacketHelper) : Type 0 where
  pub ready : IsReady h
  pub no_cache : h.using_gem5_cache ≡ false
  pub no_flag : h.is_system_port_blocked ≡ false

-- A transaction that blocks a channel of a socket carries that socket in its extension.
abbrev pub IsOwned : BlockingPacketHelper → (ℕ → Payload) → Type 0
IsOwned h payloads =
    (type : PktType) (c t : ℕ)
    → find c (slots type h) ≡ some (some t)
    → core_of (payloads t).extension ≡ some c

pub record Inv (s : ScSlavePort) : Type 0 where
  pub core_helper : IsCoreHelper s.helper
  pub no_cache : s.using_gem5_cache ≡ false
  pub no_request : s.blocking_request ≡ none
  pub no_response : s.blocking_response ≡ none
  pub no_retry : s.need_to_send_request_retry ≡ false
  pub owned : IsOwned s.helper s.payloads

-- Updates of the helper.
pub updated-IsCoreHelper :
    {h : BlockingPacketHelper} (c : ℕ) (t : Option ℕ) (type : PktType)
    → IsCoreHelper h
    → IsCoreHelper (Helper.updated c t type h)
unfolding system_port_flag
updated-IsCoreHelper {h} c t request v = record {
  ready = updated-IsReady c t request v.ready;
  no_cache = v.no_cache;
  no_flag = ground arith;
}
updated-IsCoreHelper {h} c t response v = record {
  ready = updated-IsReady c t response v.ready;
  no_cache = v.no_cache;
  no_flag = ground arith;
}

pub with_retry-IsCoreHelper :
    {h : BlockingPacketHelper} (c : ℕ) (b : Bool) → IsCoreHelper h → IsCoreHelper (with_retry c b h)
with_retry-IsCoreHelper c b v = record {
  ready = with_retry-IsReady c b v.ready;
  no_cache = v.no_cache;
  no_flag = v.no_flag;
}

-- To block a channel with a transaction that carries its socket, or to free it.
pub updated-IsOwned :
    (h : BlockingPacketHelper) (payloads : ℕ → Payload) (c : ℕ) (t : Option ℕ) (type : PktType)
    → ((u : ℕ) → t ≡ some u → core_of (payloads u).extension ≡ some c)
    → IsOwned h payloads
    → IsOwned (Helper.updated c t type h) payloads
updated-IsOwned h payloads c t request k v request q u e =
    ground (arith, k u, v request q u, find-assign c q t h.blocking_request_map)
updated-IsOwned h payloads c t response k v response q u e =
    ground (arith, k u, v response q u, find-assign c q t h.blocking_response_map)
updated-IsOwned h payloads c t request k v response q u e = v response q u e
updated-IsOwned h payloads c t response k v request q u e = v request q u e

-- A payload that blocks nothing may be written.
abbrev pub IsUnused : BlockingPacketHelper → ℕ → Type 0
IsUnused h t = (type : PktType) (c : ℕ) → find c (slots type h) ≢ some (some t)

pub update-IsOwned :
    (h : BlockingPacketHelper) (payloads : ℕ → Payload) (t : ℕ) (p : Payload)
    → IsUnused h t
    → IsOwned h payloads
    → IsOwned h (update payloads t p)
update-IsOwned h payloads t p free v type c u e = elim (Bool-cases (t == u)) [
  | inl hit ↦ absurd (free type c (ground (arith, hit)))
  | inr miss ↦ rw miss (v type c u e)
]

pub with_retry-IsOwned :
    (h : BlockingPacketHelper) (payloads : ℕ → Payload) (c : ℕ) (b : Bool)
    → IsOwned h payloads
    → IsOwned (with_retry c b h) payloads
with_retry-IsOwned h payloads c b v request = v request
with_retry-IsOwned h payloads c b v response = v response
