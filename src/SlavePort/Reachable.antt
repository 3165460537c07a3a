-- ===== src/SlavePort/Reachable.antt =====
-- src/sc_slave_port.cc: the payload events and the retry of responses keep the invariant of a port
-- that is bound to a multi-socket transactor; and so do all its calls, in any order.
use gem5_wrapper.Prelude.{
  ℕ, ◌<◌, ◌≡◌, ◌⊎◌, inl, inr, false, none, some, arith, ok, >>=-eq-ok, Bool-cases, if◌then◌else◌,
}
use gem5_wrapper.Tlm.{Phase, is_begin_resp}
use gem5_wrapper.Helper
use gem5_wrapper.Helper.{
  request, response, slots, update_blocking_map, update_retry_map, is_blocking_trans,
  need_to_send_request_retry, get_blocking_trans, get_blocking_response,
}
use gem5_wrapper.Helper.Search.{with_retry}
use gem5_wrapper.SlavePort.State.{ScSlavePort, socket_for, get_extension, emit, send_retry_req}
use gem5_wrapper.SlavePort.Event.{
  Answer, ends_request, end_request, end_core_request, begin_response, pec, check_response_channel,
  block_response, send_end_resp,
}
use gem5_wrapper.SlavePort.Invariant.{Inv, core_of, updated-IsCoreHelper, updated-IsOwned}
use gem5_wrapper.SlavePort.Retry.{retrying}
use gem5_wrapper.SlavePort.Preservation.{with_helper-Inv, with_retry-Inv, with_calls-Inv, core}

-- What gem5 does with the port inside `sendRetryReq`, once END_REQ of `t` has freed its channel.
abbrev pub KeepsInv : ℕ → Answer → ScSlavePort → Type 0
KeepsInv t a s =
    let u = retrying (core (s.payloads t).extension) s in
    (u' : ScSlavePort) → Inv u → a.retry u ≡ ok u' → Inv u'

pub freed-Inv :
    {s : ScSlavePort} (c : ℕ)
    → Inv s
    → Inv (record s { helper = Helper.updated c none request s.helper })
freed-Inv {s} c v =
    with_helper-Inv (Helper.updated c none request s.helper) v
      (updated-IsCoreHelper c none request v.core_helper)
      (updated-IsOwned s.helper s.payloads c none request (λ u e. cc) v.owned)

emit-Inv : {s : ScSlavePort} {c : _} → Inv s → Inv (emit c s)
emit-Inv v = ground arith

-- The end of a request that is not stopped: its channel is free, and gem5 was told to retry or not.
pub end_core_request_cases :
    (t : ℕ) (a : Answer) (s : ScSlavePort) {s' : ScSlavePort}
    → Inv s
    → end_core_request t a s ≡ ok s'
    → let c = core (s.payloads t).extension in
      let free = Helper.updated c none request s.helper in
      (s' ≡ record s { helper = free })
      ⊎ (a.retry (emit send_retry_req (record s { helper = with_retry c false free })) ≡ ok s')
unfolding end_core_request need_to_send_request_retry update_retry_map get_extension
    update_blocking_map
end_core_request_cases t a s v e = ground arith

end_core_request-Inv :
    (t : ℕ) (a : Answer) (s : ScSlavePort) {s' : ScSlavePort}
    → KeepsInv t a s
    → Inv s
    → end_core_request t a s ≡ ok s'
    → Inv s'
end_core_request-Inv t a s {s'} k v e =
    let c = core (s.payloads t).extension in
    let w = freed-Inv c v in
    elim (end_core_request_cases t a s v e) [
      | inl quiet ↦ rw quiet w
      | inr retried ↦ k s' (emit-Inv (with_retry-Inv c false w)) retried
    ]

end_request-Inv :
    (t : ℕ) (a : Answer) (s : ScSlavePort) {s' : ScSlavePort}
    → KeepsInv t a s
    → Inv s
    → end_request t a s ≡ ok s'
    → Inv s'
unfolding end_request
end_request-Inv t a s k v e = end_core_request-Inv t a s k v (ground (arith, e))

-- The two ends of a response that is not stopped: the calls are made, or its channel is blocked.
begin_response_cases :
    (t : ℕ) (a : Answer) (s : ScSlavePort) {s' : ScSlavePort}
    → Inv s
    → begin_response t a s ≡ ok s'
    → let c = core (s.payloads t).extension in
      (s' ≡ record s { calls = s'.calls })
      ⊎ ((c < s.helper.socket_num)
          × (core_of (s.payloads t).extension ≡ some c)
          × (s' ≡ record s {
            calls = s'.calls;
            helper = Helper.updated c (some t) response s.helper;
          }))
unfolding begin_response get_extension check_response_channel get_blocking_trans block_response
    send_end_resp update_blocking_map socket_for
begin_response_cases t a s v e = ground arith

begin_response-Inv :
    (t : ℕ) (a : Answer) (s : ScSlavePort) {s' : ScSlavePort}
    → Inv s
    → begin_response t a s ≡ ok s'
    → Inv s'
begin_response-Inv t a s {s'} v e = elim (begin_response_cases t a s v e) [
  | inl done ↦ rw done (with_calls-Inv s'.calls v)
  | inr (l, owned, blocked) ↦
      let c = core (s.payloads t).extension in
      rw blocked (
        with_calls-Inv s'.calls (
          with_helper-Inv (Helper.updated c (some t) response s.helper) v
            (updated-IsCoreHelper c (some t) response v.core_helper)
            (updated-IsOwned s.helper s.payloads c (some t) response (λ u x. ground (arith, x))
              v.owned)))
]

-- A payload event keeps the invariant, whatever its phase, if it is not stopped and what gem5
-- does inside `sendRetryReq` keeps the invariant.
pub pec-Inv :
    (t : ℕ) (phase : Phase) (a : Answer) (s : ScSlavePort) {s' : ScSlavePort}
    → KeepsInv t a s
    → Inv s
    → pec t phase a s ≡ ok s'
    → Inv s'
unfolding pec
pec-Inv t phase a s {s'} k v e =
    let (m, e1, e2) = >>=-eq-ok (if ends_request t phase s then end_request t a s else ok s) _ e in
    let w : Inv m = elim (Bool-cases (ends_request t phase s)) [
      | inl ends ↦ end_request-Inv t a s k v (ground (arith, ends, e1))
      | inr goes ↦ ground (arith, goes, e1)
    ] in
    elim (Bool-cases (is_begin_resp phase)) [
      | inl begins ↦ begin_response-Inv t a m w (ground (arith, begins, e2))
      | inr other ↦ ground (arith, other, e2)
    ]
