-- ===== src/Link/Requested.antt =====
-- src/sc_slave_port.cc, `recvTimingReq`: what a request does to the channels of its socket.
use gem5_wrapper.Prelude.{
  ℕ, ◌<◌, ◌≡◌, ◌⊎◌, refl, sym, ◌∙◌, inl, inr, Bool, true, Option, none, some, arith, ok,
  Option-cases, lt→ltb, >>=-eq-ok,
}
use gem5_wrapper.Prelude.Map.{find, find-assign}
use gem5_wrapper.Helper
use gem5_wrapper.Helper.{request, response, get_blocking_trans}
use gem5_wrapper.Helper.Channels.{slot}
use gem5_wrapper.Helper.Search.{with_retry}
use gem5_wrapper.MemoryManager.{allocate}
use gem5_wrapper.Tlm.{accepted}
use gem5_wrapper.SlavePort.State.{Payload, Packet, numbered, Socket, ScSlavePort, socket_for}
use gem5_wrapper.SlavePort.Request.{request_socket, send_request, recv_timing_req}
use gem5_wrapper.SlavePort.Invariant.{Inv}
use gem5_wrapper.SlavePort.Exclusion.{
  IsRequest, begun, recv_timing_req_refused, recv_timing_req_free, on_status-accepted,
}
use gem5_wrapper.SlavePort.Preservation.{send_request_cases}
use gem5_wrapper.SlavePort.Retry.{IsBlocked}
use gem5_wrapper.SlavePort.Retried.{blocked_reads}
use gem5_wrapper.Link.{accepting}
use gem5_wrapper.Link.Wire.{held, request_slot, IsOpen}

-- The target's socket of an open port carries the number of the port's.
pub socket_bound : {c : ℕ} {s : ScSlavePort} → IsOpen c s → socket_for s c ≡ ok (numbered c)
unfolding socket_for
socket_bound {c} {s} o =
    rw
      (
        o.is_bound.no_single,
        o.is_bound.multi,
        lt→ltb c o.multi.socket_num (omega (arith, o.in_range, o.sockets)),
      )
      refl

pub socket_named :
    {c : ℕ} {s : ScSlavePort} (d : ℕ) {k : Socket}
    → IsOpen c s
    → socket_for s d ≡ ok k
    → k ≡ numbered d
unfolding socket_for
socket_named d o e = ground (arith, o.is_bound.no_single, o.is_bound.multi, e)

pub held-eq-some : (o : Option (Option ℕ)) (t : ℕ) → held o ≡ some t → o ≡ some (some t)
held-eq-some none t e = absurd (cc)
held-eq-some (some none) t e = absurd (cc)
held-eq-some (some (some u)) t e = ground arith

pub request_slot_blocks :
    (c t : ℕ) (s : ScSlavePort)
    → c < s.helper.socket_num
    → request_slot c s ≡ some t
    → IsBlocked s t c
request_slot_blocks c t s l e = record {
  in_range = l;
  blocks = held-eq-some (find c s.helper.blocking_request_map) t e;
}

pub request_slot_free :
    (c : ℕ) (s : ScSlavePort)
    → Inv s
    → c < s.helper.socket_num
    → request_slot c s ≡ none
    → get_blocking_trans c request s.helper ≡ ok none
unfolding get_blocking_trans
request_slot_free c s v l e =
    let (old, there) = slot request c v.core_helper.ready (omega (arith, l)) in
    ground (arith, there, v.core_helper.no_cache)

-- The port that has sent `p` as the transaction that a new payload gives, to a target that accepts.
abbrev pub sent_port : Packet → (c fresh : ℕ) → Payload → ScSlavePort → ScSlavePort
sent_port p c fresh payload s = record (begun p c fresh payload (numbered c) s) {
  helper = Helper.updated c (some (allocate fresh s.mm).0) request s.helper;
}

send_request_ends :
    (p : Packet) (c fresh : ℕ) (s : ScSlavePort) {s' : ScSlavePort}
    → IsOpen c s
    → send_request p c (accepting fresh) s ≡ ok s'
    → (payload : Payload) × (s' ≡ sent_port p c fresh payload s)
send_request_ends p c fresh s o e =
    let (payload, k, converted, through_k, answered) =
      send_request_cases p c (accepting fresh) s e in
    let t = (allocate fresh s.mm).0 in
    let done =
      on_status-accepted accepted (accepting fresh) c t (begun p c fresh payload k s) refl
        o.inv.no_cache refl o.inv.core_helper.ready (omega (arith, o.in_range)) in
    let at_c : k ≡ numbered c = socket_named c o through_k in
    (payload, ground (arith, done, answered, at_c))

-- A request that is not stopped was refused, as the channel is blocked; or it was sent.
pub recv_timing_req_ends :
    (p : Packet) (c fresh : ℕ) (s : ScSlavePort) {s' : ScSlavePort} {b : Bool}
    → IsOpen c s
    → IsRequest p (accepting fresh)
    → request_socket p s ≡ c
    → recv_timing_req p (accepting fresh) s ≡ ok (s', b)
    → (s' ≡ record s { helper = with_retry c true s.helper })
      ⊎ ((request_slot c s ≡ none) × (payload : Payload) × (s' ≡ sent_port p c fresh payload s))
recv_timing_req_ends p c fresh s {s'} {b} o r at_c e = elim (Option-cases (request_slot c s)) [
  | inr (t, full) ↦
      let reads = blocked_reads t c s o.inv (request_slot_blocks c t s o.in_range full) in
      let refused =
        recv_timing_req_refused p (accepting fresh) s c t o.inv r at_c o.in_range reads in
      inl (ground (arith, e, refused))
  | inl free ↦
      let reads = request_slot_free c s o.inv o.in_range free in
      let goes = recv_timing_req_free p (accepting fresh) s o.inv r (rw at_c reads) in
      let (q, sent, same) =
        >>=-eq-ok (send_request p c (accepting fresh) s) _ (sym (rw at_c at goes) ∙ e) in
      let (payload, ended) = send_request_ends p c fresh s o sent in
      inr (free, payload, ground (arith, ended, same))
]

-- What the request leaves as it was: the binding, and the blocked responses.
pub sent_port-IsOpen :
    (p : Packet) (c fresh : ℕ) (payload : Payload) {s : ScSlavePort}
    → IsOpen c s
    → Inv (sent_port p c fresh payload s)
    → IsOpen c (sent_port p c fresh payload s)
unfolding socket_for
sent_port-IsOpen p c fresh payload o v = record {
  inv = v;
  in_range = o.in_range;
  multi = o.multi;
  is_bound = record {
    no_single = o.is_bound.no_single;
    multi = o.is_bound.multi;
    in_range = o.is_bound.in_range;
  };
  sockets = o.sockets;
}

pub sent_port-blocks :
    (p : Packet) (c fresh : ℕ) (payload : Payload) (s : ScSlavePort)
    → Inv s
    → c < s.helper.socket_num
    → request_slot c (sent_port p c fresh payload s) ≡ some (allocate fresh s.mm).0
sent_port-blocks p c fresh payload s v l =
    let (old, there) = slot request c v.core_helper.ready (omega (arith, l)) in
    ground
      (arith, there, find-assign c c (some (allocate fresh s.mm).0) s.helper.blocking_request_map)
