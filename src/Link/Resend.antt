-- ===== src/Link/Resend.antt =====
-- src/sc_slave_port.cc, `recvRespRetry`: what it does to the channels of one of the sockets.
use mathlib.Core.List.{append-nil}
use gem5_wrapper.Prelude.{
  ℕ, zero, suc, ◌≡◌, refl, sym, ap, ◌∙◌, inl, inr, true, none, some, List, [], ◌∷◌, ◌++◌, arith, ok,
  ◌==◌, ==_iff, Bool-cases, Option-cases,
}
use gem5_wrapper.Prelude.Map.{find, find-assign}
use gem5_wrapper.Helper.{get_blocking_response}
use gem5_wrapper.Helper.Slots.{first_blocked-eq-none, occupied, occupied-assign-none}
use gem5_wrapper.Helper.Search.{get_blocking_response_lowest}
use gem5_wrapper.SlavePort.State.{ScSlavePort}
use gem5_wrapper.SlavePort.Drain.{drain, recv_resp_retry}
use gem5_wrapper.SlavePort.Draining.{
  drain-none, drain-some, drain_round_lem, rounded, rounded-Inv, rounded-IsBound,
  recv_resp_retry_drains,
}
use gem5_wrapper.Router.Order.{waiting}
use gem5_wrapper.Link.Wire.{
  held, request_slot, response_slot, sent_requests, sent_ends, through-nil, IsOpen,
}
use gem5_wrapper.Link.Requested.{held-eq-some}

-- What the retry of responses does at the socket `c`: the response that waits there goes out, and
-- the rest is as before.
pub record IsResent (c : ℕ) (s s' : ScSlavePort) : Type 0 where
  pub is_open : IsOpen c s'
  pub same_request : request_slot c s' ≡ request_slot c s
  pub free : response_slot c s' ≡ none
  pub same_payloads : s'.payloads ≡ s.payloads
  pub requests : sent_requests c s'.calls ≡ sent_requests c s.calls
  pub ends : sent_ends c s'.calls ≡ sent_ends c s.calls ++ waiting (response_slot c s)

rounded-IsOpen : (t d : ℕ) {c : ℕ} {s : ScSlavePort} → IsOpen c s → IsOpen c (rounded d t s)
rounded-IsOpen t d {c} {s} o = record {
  inv = rounded-Inv s d t o.inv;
  in_range = o.in_range;
  multi = o.multi;
  is_bound = rounded-IsBound o.multi s d t o.is_bound;
  sockets = o.sockets;
}

-- A round at the socket itself, or at another one.
round_sends :
    (t d c : ℕ) (s : ScSlavePort)
    → find d s.helper.blocking_response_map ≡ some (some t)
    → sent_ends c (rounded d t s).calls ++ waiting (response_slot c (rounded d t s))
      ≡ sent_ends c s.calls ++ waiting (response_slot c s)
round_sends t d c s e =
    let after = find-assign d c none s.helper.blocking_response_map in
    elim (Bool-cases (d == c)) [
      | inl here ↦
          let same : d ≡ c = (==_iff d c).0 here in
          let before : response_slot c s ≡ some t =
            ap held (ap (λ (q : ℕ). find q s.helper.blocking_response_map) (sym same) ∙ e) in
          let gone : response_slot c (rounded d t s) ≡ none = ground (arith, after, here, e) in
          rw (here, gone, before) (append-nil (sent_ends c s.calls ++ t ∷ []))
      | inr apart ↦
          let still : response_slot c (rounded d t s) ≡ response_slot c s =
            ground (arith, after, apart) in
          rw (apart, still)
            (ap (λ (l : List ℕ). l ++ waiting (response_slot c s))
              (append-nil (sent_ends c s.calls)))
    ]

round_requests :
    (t d c : ℕ) (s : ScSlavePort) → sent_requests c (rounded d t s).calls ≡ sent_requests c s.calls
round_requests t d c s = through-nil (d == c) (sent_requests c s.calls)

-- No response of a socket waits if the search finds none.
none_waits :
    (c : ℕ) (s : ScSlavePort) → get_blocking_response s.helper ≡ none → response_slot c s ≡ none
unfolding get_blocking_response
none_waits c s e = elim (Option-cases (response_slot c s)) [
  | inl free ↦ free
  | inr (t, full) ↦
      let m = s.helper.blocking_response_map in
      let some_blocked = occupied-assign-none c t m (held-eq-some (find c m) t full) in
      absurd (omega (arith, some_blocked, (first_blocked-eq-none m).0 e))
]

drain_ends :
    (fuel c : ℕ) (s : ScSlavePort) {s' : ScSlavePort}
    → IsOpen c s
    → drain fuel (λ p. true) s ≡ ok (some s')
    → IsResent c s s'
unfolding drain
drain_ends zero c s o e = absurd (cc)
drain_ends (suc fuel) c s {s'} o e = elim (Option-cases (get_blocking_response s.helper)) [
  | inl n ↦
      let same : s' ≡ s = ground (arith, e, drain-none fuel (λ p. true) s o.inv.no_response n) in
      rw same (record {
        is_open = o;
        same_request = refl;
        free = none_waits c s n;
        same_payloads = refl;
        requests = refl;
        ends = rw (none_waits c s n) (sym (append-nil _));
      })
  | inr (t, b) ↦
      let (d, below, found, lower) =
        get_blocking_response_lowest s.helper t o.inv.core_helper.ready b in
      let q = rounded d t s in
      let round =
        drain_round_lem o.multi s (λ p. true) d t o.inv o.is_bound (λ p. refl) below found in
      let rest = drain-some fuel (λ p. true) s q t o.inv.no_response b round in
      let x = drain_ends fuel c q (rounded-IsOpen t d o) (sym rest ∙ e) in
      record {
        is_open = x.is_open;
        same_request = x.same_request;
        free = x.free;
        same_payloads = x.same_payloads;
        requests = x.requests ∙ round_requests t d c s;
        ends = x.ends ∙ round_sends t d c s found;
      }
]

pub recv_resp_retry_ends :
    (fuel c : ℕ) (s : ScSlavePort) {s' : ScSlavePort}
    → IsOpen c s
    → recv_resp_retry fuel true (λ p. true) s ≡ ok (some s')
    → IsResent c s s'
unfolding recv_resp_retry
recv_resp_retry_ends fuel c s o e = drain_ends fuel c s o e

-- With gem5 taking every response the loop comes to its end.
pub recv_resp_retry_runs :
    (c : ℕ) (s : ScSlavePort)
    → IsOpen c s
    → (fuel : ℕ) × (s' : ScSlavePort) × (recv_resp_retry fuel true (λ p. true) s ≡ ok (some s'))
recv_resp_retry_runs c s o =
    let fuel = suc (occupied s.helper.blocking_response_map) in
    let (s', done, v, free, calls) =
      recv_resp_retry_drains fuel o.multi s (λ p. true) o.inv o.is_bound (λ p. refl)
        (omega arith) in
    (fuel, s', done)
