-- ===== src/SlavePort/Updated.antt =====
-- src/sc_slave_port.cc: a target that ends a request at once, by TLM_UPDATED and END_REQ.
use gem5_wrapper.Prelude.{
  ℕ, ◌≡◌, inl, inr, Bool, true, false, some, arith, ok, stop, assertion, Bool-cases,
}
use gem5_wrapper.Tlm.{end_req, updated}
use gem5_wrapper.Helper.{request, is_blocking_trans}
use gem5_wrapper.Helper.Search.{is_blocking_trans_iff}
use gem5_wrapper.MemoryManager.{allocate}
use gem5_wrapper.SlavePort.State.{Packet, ScSlavePort}
use gem5_wrapper.SlavePort.Request.{Answer, request_socket, on_status, recv_timing_req}
use gem5_wrapper.SlavePort.Event.{pec, ends_request, end_request, end_core_request}
use gem5_wrapper.SlavePort.Event
use gem5_wrapper.SlavePort.Invariant.{Inv, IsUnused}
use gem5_wrapper.SlavePort.Preservation.{
  recv_timing_req_cases, send_request_cases, recv_timing_req-Inv,
}

-- A transaction that blocks nothing is not found in the request channels.
unused-is_blocking_trans :
    (t : ℕ) (s : ScSlavePort)
    → Inv s
    → IsUnused s.helper t
    → is_blocking_trans (some t) request s.helper ≡ false
unused-is_blocking_trans t s v unused =
    elim (Bool-cases (is_blocking_trans (some t) request s.helper)) [
      | inr miss ↦ miss
      | inl hit ↦
          let (c, l, found) =
            (is_blocking_trans_iff s.helper t request v.core_helper.ready).0 hit in
          absurd (unused request c found)
    ]

-- An END_REQ for a transaction that blocks nothing.
stray_end_req :
    (t : ℕ) (b : Event.Answer) (s : ScSlavePort)
    → Inv s
    → is_blocking_trans (some t) request s.helper ≡ false
    → pec t end_req b s ≡ stop assertion
unfolding pec end_request end_core_request
stray_end_req t b s v miss = ground (arith, miss)

same_requests :
    (p : Packet) (a : Answer) (s : ScSlavePort) {s' : ScSlavePort} {b : Bool}
    → Inv s
    → a.status ≡ updated
    → recv_timing_req p a s ≡ ok (s', b)
    → s'.helper.blocking_request_map ≡ s.helper.blocking_request_map
unfolding on_status
same_requests p a s {s'} v u e = elim (recv_timing_req_cases p a s v e) [
  | inl refused ↦ ground (arith, refused)
  | inr (l, sent) ↦
      let (payload, target, converted, bound, answered) =
        send_request_cases p (request_socket p s) a s sent in
      ground (arith, rw u at answered)
]

-- A request that the target ends at once, by TLM_UPDATED with END_REQ, is not noted in the helper;
-- so the END_REQ that is then scheduled fails an assertion, whatever gem5 does. Here the payload
-- that was handed out blocks nothing, as the memory manager sees to.
pub updated-stops :
    (p : Packet) (a : Answer) (s : ScSlavePort) {s' : ScSlavePort} (b : Event.Answer)
    → Inv s
    → IsUnused s.helper (allocate a.fresh s.mm).0
    → a.status ≡ updated
    → recv_timing_req p a s ≡ ok (s', true)
    → pec (allocate a.fresh s.mm).0 end_req b s' ≡ stop assertion
unfolding is_blocking_trans
updated-stops p a s {s'} b v unused u e =
    let t = (allocate a.fresh s.mm).0 in
    let miss = unused-is_blocking_trans t s v unused in
    let same = same_requests p a s v u e in
    stray_end_req t b s' (recv_timing_req-Inv p a s v unused e) (ground (arith, miss, same))
