-- ===== src/SlavePort/Preservation.antt =====
-- src/sc_slave_port.cc: every call of a port that is bound to a multi-socket transactor keeps its
-- invariant, on every branch.
use gem5_wrapper.Prelude.{
  ℕ, ◌<◌, ◌≡◌, ◌⊎◌, inl, inr, Bool, true, Option, none, some, List, arith, ok, >>=-eq-ok,
}
use gem5_wrapper.Tlm.{Sync, accepted, updated, completed}
use gem5_wrapper.Helper
use gem5_wrapper.Helper.{
  request, response, update_blocking_map, update_retry_map, is_blocked_port, get_blocking_trans,
}
use gem5_wrapper.Helper.Channels.{update_lem}
use gem5_wrapper.Helper.Search.{with_retry}
use gem5_wrapper.MemoryManager.{allocate}
use gem5_wrapper.SlavePort.State.{
  Gem5Extension, Payload, Packet, Socket, ScSlavePort, packet2payload, Call, socket_for,
}
use gem5_wrapper.SlavePort.Request.{
  Answer, request_socket, on_status, send_request, refuse, recv_timing_req,
}
use gem5_wrapper.SlavePort.Invariant.{
  Inv, IsCoreHelper, IsOwned, IsUnused, core_of, updated-IsCoreHelper, updated-IsOwned,
  update-IsOwned, with_retry-IsCoreHelper, with_retry-IsOwned,
}
use gem5_wrapper.SlavePort.Exclusion.{begun}

-- The parts of the state that the invariant reads.
pub with_helper-Inv :
    {s : ScSlavePort} (h : Helper.BlockingPacketHelper)
    → Inv s
    → IsCoreHelper h
    → IsOwned h s.payloads
    → Inv (record s { helper = h })
with_helper-Inv h v k o = record {
  core_helper = k;
  no_cache = v.no_cache;
  no_request = v.no_request;
  no_response = v.no_response;
  no_retry = v.no_retry;
  owned = o;
}

pub with_calls-Inv : {s : ScSlavePort} (l : List Call) → Inv s → Inv (record s { calls = l })
with_calls-Inv l v = ground arith

abbrev pub core : Option Gem5Extension → ℕ
core none = 0
core (some e) = e.core_id

pub begun-Inv :
    (p : Packet) (c fresh : ℕ) (payload : Payload) (target : Socket) {s : ScSlavePort}
    → Inv s
    → IsUnused s.helper (allocate fresh s.mm).0
    → Inv (begun p c fresh payload target s)
begun-Inv p c fresh payload target {s} v free = record {
  core_helper = v.core_helper;
  no_cache = v.no_cache;
  no_request = v.no_request;
  no_response = v.no_response;
  no_retry = v.no_retry;
  owned = update-IsOwned s.helper s.payloads (allocate fresh s.mm).0 _ free v.owned;
}

-- The two ends of a request that is not stopped.
pub recv_timing_req_cases :
    (p : Packet) (a : Answer) (s : ScSlavePort) {s' : ScSlavePort} {b : Bool}
    → Inv s
    → recv_timing_req p a s ≡ ok (s', b)
    → (s' ≡ record s { helper = with_retry (request_socket p s) true s.helper })
      ⊎ ((request_socket p s < s.helper.socket_num)
          × (send_request p (request_socket p s) a s ≡ ok s'))
unfolding recv_timing_req is_blocked_port get_blocking_trans refuse update_retry_map
recv_timing_req_cases p a s v e = ground arith

-- A request that is not stopped was sent, and the target's answer read.
pub send_request_cases :
    (p : Packet) (c : ℕ) (a : Answer) (s : ScSlavePort) {s' : ScSlavePort}
    → send_request p c a s ≡ ok s'
    → (payload : Payload) × (target : Socket) × (packet2payload p
          (s.payloads (allocate a.fresh s.mm).0)
        ≡ ok payload)
      × (socket_for s c ≡ ok target)
      × (on_status a.status a c (allocate a.fresh s.mm).0 (begun p c a.fresh payload target s)
          ≡ ok s')
unfolding send_request socket_for
send_request_cases p c a s e =
    let (payload, converted, e2) =
      >>=-eq-ok (packet2payload p (s.payloads (allocate a.fresh s.mm).0)) _ e in
    let (target, e3, e4) = >>=-eq-ok (socket_for s c) _ e2 in (payload, target, converted, e3, e4)

on_status-Inv :
    (status : Sync) (a : Answer) (c t : ℕ) (s : ScSlavePort) {s' : ScSlavePort}
    → Inv s
    → c < s.helper.socket_num
    → core_of (s.payloads t).extension ≡ some c
    → on_status status a c t s ≡ ok s'
    → Inv s'
unfolding on_status
on_status-Inv accepted a c t s {s'} v l k e =
    let done = update_lem c (some t) request v.core_helper.ready (omega (arith, l)) in
    let h = Helper.updated c (some t) request s.helper in
    let ended : s' ≡ record s { helper = h } = ground (arith, done) in
    rw ended (
      with_helper-Inv h v (updated-IsCoreHelper c (some t) request v.core_helper)
        (updated-IsOwned s.helper s.payloads c (some t) request (λ u x. ground (arith, x)) v.owned))
on_status-Inv updated a c t s v l k e = ground arith
on_status-Inv completed a c t s v l k e = ground arith

pub with_retry-Inv :
    {s : ScSlavePort} (c : ℕ) (b : Bool)
    → Inv s
    → Inv (record s { helper = with_retry c b s.helper })
with_retry-Inv {s} c b v =
    with_helper-Inv (with_retry c b s.helper) v (with_retry-IsCoreHelper c b v.core_helper)
      (with_retry-IsOwned s.helper s.payloads c b v.owned)

-- A timing request keeps the invariant, whatever the packet is and whatever the target answers, if
-- it is not stopped and the payload that the memory manager would hand out blocks nothing.
pub recv_timing_req-Inv :
    (p : Packet) (a : Answer) (s : ScSlavePort) {s' : ScSlavePort} {b : Bool}
    → Inv s
    → IsUnused s.helper (allocate a.fresh s.mm).0
    → recv_timing_req p a s ≡ ok (s', b)
    → Inv s'
recv_timing_req-Inv p a s {s'} v free e = elim (recv_timing_req_cases p a s v e) [
  | inl refused ↦ rw refused (with_retry-Inv (request_socket p s) true v)
  | inr (in_range, sent) ↦
      let c = request_socket p s in
      let t = (allocate a.fresh s.mm).0 in
      let (payload, target, converted, bound, answered) = send_request_cases p c a s sent in
      on_status-Inv a.status a c t (begun p c a.fresh payload target s)
        (begun-Inv p c a.fresh payload target v free) in_range (ground arith) answered
]
