-- ===== src/SlavePort/Calls.antt =====
-- src/sc_slave_port.cc: a port that is bound to a multi-socket transactor keeps its invariant
-- under all its calls, in any order.
use gem5_wrapper.Prelude.{
  ℕ, zero, suc, ◌≡◌, inl, inr, Bool, true, false, none, some, ◌∷◌, List, arith, ok, >>=-eq-ok,
  Option-cases, not, check, assertion, panicked, ◌||◌,
}
use gem5_wrapper.Helper
use gem5_wrapper.Helper.{
  request, response, slots, update_blocking_map, update_retry_map, is_blocking_trans,
  need_to_send_request_retry, get_blocking_trans, get_blocking_response,
}
use gem5_wrapper.MemoryManager.{allocate}
use gem5_wrapper.SlavePort.State.{
  Payload, Packet, acquire, packet2payload, update, ScSlavePort, Call, socket_for, get_extension,
}
use gem5_wrapper.SlavePort.Event.{send_end_resp}
use gem5_wrapper.SlavePort.Drain.{resend, drain_round, drain, recv_resp_retry}
use gem5_wrapper.SlavePort.Invariant.{
  Inv, IsUnused, updated-IsCoreHelper, updated-IsOwned, update-IsOwned,
}
use gem5_wrapper.SlavePort.Preservation.{with_helper-Inv, with_calls-Inv, core}
use gem5_wrapper.SlavePort.Blocking.{prepare, execute, recv_atomic, recv_functional}
use gem5_wrapper.SlavePort.Sockets.{get_socket_id}
use gem5_wrapper.MemoryManager.{MemoryManager}

drain_round_cases :
    (accepts : ℕ → Bool) (t : ℕ) (s : ScSlavePort) {s' : ScSlavePort}
    → drain_round accepts none (some t) s ≡ ok (some s')
    → let c = core (s.payloads t).extension in
      s' ≡ record s { calls = s'.calls; helper = Helper.updated c none response s.helper }
unfolding drain_round get_extension resend send_end_resp update_blocking_map socket_for
drain_round_cases accepts t s e = ground arith

drain_round-Inv :
    (accepts : ℕ → Bool) (t : ℕ) (s : ScSlavePort) {s' : ScSlavePort}
    → Inv s
    → drain_round accepts none (some t) s ≡ ok (some s')
    → Inv s'
drain_round-Inv accepts t s {s'} v e =
    let c = core (s.payloads t).extension in
    rw (drain_round_cases accepts t s e) (
      with_calls-Inv s'.calls (
        with_helper-Inv (Helper.updated c none response s.helper) v
          (updated-IsCoreHelper c none response v.core_helper)
          (updated-IsOwned s.helper s.payloads c none response (λ u x. cc) v.owned)))

drain-zero :
    (accepts : ℕ → Bool) (s : ScSlavePort) {s' : ScSlavePort}
    → drain zero accepts s ≡ ok (some s')
    → ⊥
unfolding drain
drain-zero accepts s e = cc

drain-none :
    (fuel : ℕ) (accepts : ℕ → Bool) (s : ScSlavePort) {s' : ScSlavePort}
    → s.blocking_response ≡ none
    → get_blocking_response s.helper ≡ none
    → drain (suc fuel) accepts s ≡ ok (some s')
    → s' ≡ s
unfolding drain drain_round
drain-none fuel accepts s n g e = ground (arith, n, g, e)

drain-some :
    (fuel t : ℕ) (accepts : ℕ → Bool) (s : ScSlavePort) {s' : ScSlavePort}
    → s.blocking_response ≡ none
    → get_blocking_response s.helper ≡ some t
    → drain (suc fuel) accepts s ≡ ok (some s')
    → (m : ScSlavePort) × (drain_round accepts none (some t) s ≡ ok (some m))
      × (drain fuel accepts m ≡ ok (some s'))
unfolding drain drain_round
drain-some fuel t accepts s n g e = ground (arith, n, g, e)

drain-Inv :
    (fuel : ℕ) (accepts : ℕ → Bool) (s : ScSlavePort) {s' : ScSlavePort}
    → Inv s
    → drain fuel accepts s ≡ ok (some s')
    → Inv s'
drain-Inv zero accepts s v e = absurd (drain-zero accepts s e)
drain-Inv (suc fuel) accepts s {s'} v e = elim (Option-cases (get_blocking_response s.helper)) [
  | inl empty ↦ rw (drain-none fuel accepts s v.no_response empty e) v
  | inr (t, found) ↦
      let (m, round, rest) = drain-some fuel t accepts s v.no_response found e in
      drain-Inv fuel accepts m (drain_round-Inv accepts t s v round) rest
]

pub recv_resp_retry-Inv :
    (fuel : ℕ) (caught_up : Bool) (accepts : ℕ → Bool) (s : ScSlavePort) {s' : ScSlavePort}
    → Inv s
    → recv_resp_retry fuel caught_up accepts s ≡ ok (some s')
    → Inv s'
unfolding recv_resp_retry
recv_resp_retry-Inv fuel true accepts s v e = drain-Inv fuel accepts s v e
recv_resp_retry-Inv fuel false accepts s v e = cc

written-Inv :
    (t : ℕ) (q : Payload) (m : MemoryManager) (l : List Call) (s : ScSlavePort)
    → Inv s
    → IsUnused s.helper t
    → Inv (record s { payloads = update s.payloads t q; mm = m; calls = l })
written-Inv t q m l s v unused = record {
  core_helper = v.core_helper;
  no_cache = v.no_cache;
  no_request = v.no_request;
  no_response = v.no_response;
  no_retry = v.no_retry;
  owned = update-IsOwned s.helper s.payloads t q unused v.owned;
}

prepare-Inv :
    (p : Packet) (c fresh : ℕ) (s : ScSlavePort) {r : ℕ × ScSlavePort}
    → Inv s
    → IsUnused s.helper (allocate fresh s.mm).0
    → prepare p c fresh s ≡ ok r
    → Inv r.1
unfolding prepare
prepare-Inv p c fresh s {r} v unused e =
    let t = (allocate fresh s.mm).0 in
    let (payload, e1, e2) = >>=-eq-ok (packet2payload p (s.payloads t)) _ e in
    let q : Payload = record payload {
      extension = some (record { packet = p.ptr; core_id = c });
    } in
    let done = written-Inv t q (allocate fresh s.mm).1 (acquire t ∷ s.calls) s v unused in
    let ended : r.1 ≡ record s {
      payloads = update s.payloads t q;
      mm = (allocate fresh s.mm).1;
      calls = acquire t ∷ s.calls;
    } =
      ground (arith, e2) in
    rw ended done

execute_calls :
    (p : Packet) (c t : ℕ) (s : ScSlavePort) {s' : ScSlavePort}
    → execute p c t s ≡ ok s'
    → s' ≡ record s { calls = s'.calls }
unfolding execute socket_for
execute_calls p c t s e = ground arith

-- An atomic access that is not stopped: the payload is made, and calls follow.
recv_atomic_cases :
    (p : Packet) (caught_up : Bool) (fresh delay : ℕ) (s : ScSlavePort) {r : ScSlavePort × ℕ}
    → recv_atomic p caught_up fresh delay s ≡ ok r
    → (q : ℕ × ScSlavePort) × (prepare p (get_socket_id s p.requestor_id) fresh s ≡ ok q)
      × (r.0 ≡ record q.1 { calls = r.0.calls })
unfolding recv_atomic
recv_atomic_cases p caught_up fresh delay s {r} e =
    let c = get_socket_id s p.requestor_id in
    let (u1, x1, e1) = >>=-eq-ok (check caught_up assertion) _ e in
    let (u2, x2, e2) = >>=-eq-ok (check (not p.cache_responding) panicked) _ e1 in
    let (u3, x3, e3) = >>=-eq-ok (check (p.is_read || p.is_write) panicked) _ e2 in
    let (q, made, e4) = >>=-eq-ok (prepare p c fresh s) _ e3 in
    let (done, executed, e5) = >>=-eq-ok (execute p c q.0 q.1) _ e4 in
    (q, made, ground (arith, execute_calls p c q.0 q.1 executed, e5))

recv_functional_cases :
    (p : Packet) (fresh bytes : ℕ) (s : ScSlavePort) {s' : ScSlavePort}
    → recv_functional p fresh bytes s ≡ ok s'
    → (q : ℕ × ScSlavePort) × (prepare p (get_socket_id s p.requestor_id) fresh s ≡ ok q)
      × (s' ≡ record q.1 { calls = s'.calls })
unfolding recv_functional socket_for
recv_functional_cases p fresh bytes s e =
    let (q, e1, e2) = >>=-eq-ok (prepare p (get_socket_id s p.requestor_id) fresh s) _ e in
    (q, e1, ground (arith, e2))

pub recv_atomic-Inv :
    (p : Packet) (caught_up : Bool) (fresh delay : ℕ) (s : ScSlavePort) {r : ScSlavePort × ℕ}
    → Inv s
    → IsUnused s.helper (allocate fresh s.mm).0
    → recv_atomic p caught_up fresh delay s ≡ ok r
    → Inv r.0
recv_atomic-Inv p caught_up fresh delay s {r} v unused e =
    let (q, made, ended) = recv_atomic_cases p caught_up fresh delay s e in
    rw ended (
      with_calls-Inv r.0.calls
        (prepare-Inv p (get_socket_id s p.requestor_id) fresh s v unused made))

pub recv_functional-Inv :
    (p : Packet) (fresh bytes : ℕ) (s : ScSlavePort) {s' : ScSlavePort}
    → Inv s
    → IsUnused s.helper (allocate fresh s.mm).0
    → recv_functional p fresh bytes s ≡ ok s'
    → Inv s'
recv_functional-Inv p fresh bytes s {s'} v unused e =
    let (q, made, ended) = recv_functional_cases p fresh bytes s e in
    rw ended (
      with_calls-Inv s'.calls
        (prepare-Inv p (get_socket_id s p.requestor_id) fresh s v unused made))
