-- ===== src/SlavePort/Draining.antt =====
-- src/sc_slave_port.cc, `recvRespRetry`: the loop ends, and sends every blocked response again,
-- once, in the order of the sockets.
use gem5_wrapper.Prelude.{
  ℕ, zero, suc, ◌≤◌, ◌<◌, ◌≡◌, refl, sym, inl, inr, Bool, true, false, Option, none, some, List, [],
  ◌∷◌, arith, ok, stop, lt→ltb, ◌∙◌, assertion, Option-cases,
}
use gem5_wrapper.Prelude.Map.{Map, find, find-assign}
use gem5_wrapper.Helper
use gem5_wrapper.Helper.{
  request, response, slots, update_blocking_map, get_blocking_response, first_blocked,
}
use gem5_wrapper.Helper.Slots.{occupied, occupied-assign-none}
use gem5_wrapper.Helper.Channels.{update_lem}
use gem5_wrapper.Helper.Search.{get_blocking_response_lowest}
use gem5_wrapper.SlavePort.State.{Payload, Multi, numbered, Call, ScSlavePort, socket_for}
use gem5_wrapper.SlavePort.Drain.{resend, drain_round, drain, recv_resp_retry}
use gem5_wrapper.SlavePort.Invariant.{Inv, updated-IsCoreHelper, updated-IsOwned}
use gem5_wrapper.SlavePort.Retry.{with_core}
use gem5_wrapper.SlavePort.Resent.{packet_of, resend_calls, resent, resent-assign}

-- The port is bound to a transactor with a socket for every blocked response.
pub record IsBound (m : Multi) (s : ScSlavePort) : Type 0 where
  pub no_single : s.transactor ≡ false
  pub multi : s.transactor_multi ≡ some m
  pub in_range :
      (c t : ℕ) → find c s.helper.blocking_response_map ≡ some (some t) → c < m.socket_num

socket_for_bound :
    (m : Multi) (s : ScSlavePort) (c t : ℕ)
    → IsBound m s
    → find c s.helper.blocking_response_map ≡ some (some t)
    → socket_for s c ≡ ok (numbered c)
unfolding socket_for
socket_for_bound m s c t b e = rw (b.no_single, b.multi, lt→ltb c m.socket_num (b.in_range c t e))

-- The port after one round, in which the response `t` of the socket `c` was sent.
abbrev pub rounded : ℕ → ℕ → ScSlavePort → ScSlavePort
rounded c t s = record s {
  helper = Helper.updated c none response s.helper;
  calls = resend_calls s.payloads c t s.calls;
}

pub drain_round_lem :
    (m : Multi) (s : ScSlavePort) (accepts : ℕ → Bool) (c t : ℕ)
    → Inv s
    → IsBound m s
    → ((p : ℕ) → accepts p ≡ true)
    → c ≤ s.helper.socket_num
    → find c s.helper.blocking_response_map ≡ some (some t)
    → drain_round accepts none (some t) s ≡ ok (some (rounded c t s))
unfolding drain_round resend
drain_round_lem m s accepts c t v b all l e =
    let (x, at_t, at_c) = with_core (s.payloads t).extension c (v.owned response c t e) in
    ground (
      arith,
      at_t,
      at_c,
      all x.packet,
      b.in_range c t e,
      update_lem c none response v.core_helper.ready l,
    )

pub rounded-Inv : (s : ScSlavePort) (c t : ℕ) → Inv s → Inv (rounded c t s)
rounded-Inv s c t v = record {
  core_helper = updated-IsCoreHelper c none response v.core_helper;
  no_cache = v.no_cache;
  no_request = v.no_request;
  no_response = v.no_response;
  no_retry = v.no_retry;
  owned = updated-IsOwned s.helper s.payloads c none response (λ u e. cc) v.owned;
}

pub rounded-IsBound :
    (m : Multi) (s : ScSlavePort) (c t : ℕ) → IsBound m s → IsBound m (rounded c t s)
rounded-IsBound m s c t b = record {
  no_single = b.no_single;
  multi = b.multi;
  in_range =
      λ q u e. ground (arith, b.in_range q u, find-assign c q none s.helper.blocking_response_map);
}

pub drain-none :
    (fuel : ℕ) (accepts : ℕ → Bool) (s : ScSlavePort)
    → s.blocking_response ≡ none
    → get_blocking_response s.helper ≡ none
    → drain (suc fuel) accepts s ≡ ok (some s)
unfolding drain drain_round
drain-none fuel accepts s r e = simp (r, e)

pub drain-some :
    (fuel : ℕ) (accepts : ℕ → Bool) (s q : ScSlavePort) (t : ℕ)
    → s.blocking_response ≡ none
    → get_blocking_response s.helper ≡ some t
    → drain_round accepts none (some t) s ≡ ok (some q)
    → drain (suc fuel) accepts s ≡ drain fuel accepts q
unfolding drain
drain-some fuel accepts s q t r e d = simp (r, e, d)

resent-none :
    (payloads : ℕ → Payload) (m : Map (Option ℕ)) (l : List Call)
    → first_blocked m ≡ none
    → resent payloads m l ≡ l
unfolding first_blocked
resent-none payloads [] l e = refl
resent-none payloads ((k, none) ∷ m) l e = resent-none payloads m l e
resent-none payloads ((k, some t) ∷ m) l e = cc

-- The loop with fuel above the number of blocked responses.
drain_lem :
    (fuel : ℕ) (m : Multi) (s : ScSlavePort) (accepts : ℕ → Bool)
    → Inv s
    → IsBound m s
    → ((p : ℕ) → accepts p ≡ true)
    → occupied s.helper.blocking_response_map < fuel
    → (s' : ScSlavePort) × (drain fuel accepts s ≡ ok (some s'))
      × Inv s'
      × (get_blocking_response s'.helper ≡ none)
      × (s'.calls ≡ resent s.payloads s.helper.blocking_response_map s.calls)
unfolding get_blocking_response
drain_lem zero m s accepts v b all l = absurd (omega arith)
drain_lem (suc fuel) m s accepts v b all l = elim (Option-cases (get_blocking_response s.helper)) [
  | inl e ↦ (
    s,
    drain-none fuel accepts s v.no_response e,
    v,
    e,
    sym (resent-none s.payloads s.helper.blocking_response_map s.calls e),
  )
  | inr (t, e) ↦
      let (c, in_range, at_c, lower) =
        get_blocking_response_lowest s.helper t v.core_helper.ready e in
      let less = occupied-assign-none c t s.helper.blocking_response_map at_c in
      let (s', done, v', empty, sent) =
        drain_lem fuel m (rounded c t s) accepts (rounded-Inv s c t v) (rounded-IsBound m s c t b)
          all (omega (arith, less)) in
      let round = drain_round_lem m s accepts c t v b all in_range at_c in
      (
        s',
        drain-some fuel accepts s (rounded c t s) t v.no_response e round ∙ done,
        v',
        empty,
        sent
            ∙ resent-assign s.payloads 0 (suc s.helper.socket_num) c t
                s.helper.blocking_response_map s.calls v.core_helper.ready.response_slots
                (omega arith) e at_c (λ q _ y. lower q y),
      )
]

-- gem5's retry of responses, with gem5 taking each. With fuel for one round more than there are
-- blocked responses the loop ends by its own test, no response is blocked afterwards, and each was
-- sent once, in the order of its socket: to gem5, END_RESP to the target, and a release.
pub recv_resp_retry_drains :
    (fuel : ℕ) (m : Multi) (s : ScSlavePort) (accepts : ℕ → Bool)
    → Inv s
    → IsBound m s
    → ((p : ℕ) → accepts p ≡ true)
    → occupied s.helper.blocking_response_map < fuel
    → (s' : ScSlavePort) × (recv_resp_retry fuel true accepts s ≡ ok (some s'))
      × Inv s'
      × (get_blocking_response s'.helper ≡ none)
      × (s'.calls ≡ resent s.payloads s.helper.blocking_response_map s.calls)
unfolding recv_resp_retry
recv_resp_retry_drains fuel m s accepts v b all l = drain_lem fuel m s accepts v b all l

refused_round :
    (t : ℕ) (s : ScSlavePort) (accepts : ℕ → Bool)
    → Inv s
    → get_blocking_response s.helper ≡ some t
    → accepts (packet_of (s.payloads t).extension) ≡ false
    → drain_round accepts none (some t) s ≡ stop assertion
unfolding drain_round
refused_round t s accepts v e refused =
    let (c, in_range, at_c, lower) =
      get_blocking_response_lowest s.helper t v.core_helper.ready e in
    let (x, at_t, at_core) = with_core (s.payloads t).extension c (v.owned response c t at_c) in
    ground (arith, at_t, at_core, update_lem c none response v.core_helper.ready in_range)

-- If gem5 refuses the response of the lowest blocked socket once more, an assertion fails.
pub recv_resp_retry_refused :
    (fuel t : ℕ) (s : ScSlavePort) (accepts : ℕ → Bool)
    → Inv s
    → get_blocking_response s.helper ≡ some t
    → accepts (packet_of (s.payloads t).extension) ≡ false
    → recv_resp_retry (suc fuel) true accepts s ≡ stop assertion
unfolding recv_resp_retry
recv_resp_retry_refused fuel t s accepts v e refused =
    simp (v.no_response, e, refused_round t s accepts v e refused)
