-- ===== src/Link/Drained.antt =====
-- src/sc_slave_port.cc and include/txn_router.h together: what was begun is served to the end, in any
-- order of the events.
use gem5_wrapper.Prelude.{
  ℕ, suc, ◌+◌, ◌*◌, ◌≤◌, ◌≡◌, ◌⊎◌, refl, sym, ◌∙◌, inl, inr, false, Option, none, some, [], arith,
  Bool-cases, Option-cases,
}
use mathlib.Core.Bool.{false≢true}
use gem5_wrapper.Router.{TxnRouter}
use gem5_wrapper.Router.Invariant.{Inv}
use gem5_wrapper.Router.Order.{waiting}
use gem5_wrapper.Router.References.{Reach-invariant, one_if}
use gem5_wrapper.Link.Wire.{Wire, request_slot, response_slot, Step, Reach, later}
use gem5_wrapper.Link.Places.{
  list_cases, responded, waiting-eq-nil, not_nil, one_if_some, length-places, length-waiting,
}
use gem5_wrapper.Link.Linked.{IsLinked}
use gem5_wrapper.Link.Conserved.{Reach-IsLinked}
use gem5_wrapper.Link.Meanwhile.{IsAside, aside_work}
use gem5_wrapper.Link.Service.{IsService, work, serve_less}
use gem5_wrapper.Link.Runs.{
  Served, requests_run, accepts_run, responses_run, retry_run, ends_run, process_run,
}

-- Both channels of the socket are free, the router is idle, and nothing is under way.
pub record IsQuiet (c : ℕ) (w : Wire) : Type 0 where
  pub no_request : request_slot c w.port ≡ none
  pub no_response : response_slot c w.port ≡ none
  pub idle : w.router.transaction_in_progress ≡ none
  pub none_waits : w.router.end_req_pending ≡ none
  pub asleep : w.router.done_pending ≡ false
  pub requests : w.requests ≡ []
  pub accepts : w.accepts ≡ []
  pub responses : w.responses ≡ []
  pub ends : w.ends ≡ []

-- Services of the socket and its router, so many of them, and between them whatever the port does
-- for its other sockets.
pub data Run (c : ℕ) (w : Wire) : ℕ → Wire → Type 0 where
  start : Run c w 0 w
  next :
      {n : ℕ} {u u' : Wire} → Run c w n u → (st : Step c u u') → IsService st → Run c w (suc n) u'
  meanwhile : {n : ℕ} {u u' : Wire} → Run c w n u → (st : Step c u u') → IsAside st → Run c w n u'

Run-Reach :
    {c : ℕ} {begin size : ℕ} {w : Wire} {n : ℕ} {u : Wire}
    → Reach c begin size w
    → Run c w n u
    → Reach c begin size u
Run-Reach r start = r
Run-Reach r (next run st k) = later (Run-Reach r run) st
Run-Reach r (meanwhile run st k) = later (Run-Reach r run) st

Run-work :
    {c : ℕ} {begin size : ℕ} {w : Wire} {n : ℕ} {u : Wire}
    → Reach c begin size w
    → Run c w n u
    → n + work c u ≤ work c w
Run-work r start = omega arith
Run-work r (next run st k) =
    omega (arith, serve_less (Reach-IsLinked (Run-Reach r run)) st k, Run-work r run)
Run-work r (meanwhile run st k) =
    omega (arith, aside_work (Reach-IsLinked (Run-Reach r run)) st k, Run-work r run)

module _ {c : ℕ} {begin size : ℕ} {w : Wire} (i : IsLinked c begin size w) where
  -- If nothing is under way and nothing is blocked, the router is idle.
  idle_of :
      w.responses ≡ []
      → w.ends ≡ []
      → response_slot c w.port ≡ none
      → w.router.done_pending ≡ false
      → w.router.transaction_in_progress ≡ none
  idle_of z e f d = elim (Option-cases w.router.transaction_in_progress) [
    | inl idle ↦ idle
    | inr (u, busy) ↦
        let v = Reach-invariant i.reached in
        absurd (elim (v.busy (ground (arith, busy))) [
          | inl notified ↦ false≢true (sym d ∙ notified)
          | inr responds ↦ not_nil (sym (rw (z, e, f, busy, responds) at i.responses))
        ])
  ]

  rest_is_idle :
      w.requests ≡ []
      → w.accepts ≡ []
      → w.responses ≡ []
      → w.ends ≡ []
      → response_slot c w.port ≡ none
      → w.router.done_pending ≡ false
      → IsQuiet c w
  rest_is_idle x y z e f d =
      let idle = idle_of z e f d in
      let none_waits = i.served idle in
      record {
        no_request = waiting-eq-nil _ (sym i.requests ∙ rw (x, y, none_waits) refl);
        no_response = f;
        idle = idle;
        none_waits = none_waits;
        asleep = d;
        requests = x;
        accepts = y;
        responses = z;
        ends = e;
      }

  serves_or_ends : Served c w ⊎ IsQuiet c w
  serves_or_ends = elim (list_cases w.requests) [
    | inr (t, rest, e) ↦ inl (requests_run i t rest e)
    | inl x ↦ elim (list_cases w.accepts) [
      | inr (t, rest, e) ↦ inl (accepts_run i t rest e)
      | inl y ↦ elim (list_cases w.responses) [
        | inr (t, rest, e) ↦ inl (responses_run i t rest y e)
        | inl z ↦ elim (list_cases w.ends) [
          | inr (t, rest, e) ↦ inl (ends_run i t rest e)
          | inl e ↦ elim (Option-cases (response_slot c w.port)) [
            | inr (t, full) ↦ inl (retry_run i t full)
            | inl f ↦ elim (Bool-cases w.router.done_pending) [
              | inl d ↦ inl (process_run i d)
              | inr d ↦ inr (rest_is_idle x y z e f d)
            ]
          ]
        ]
      ]
    ]
  ]

one_at_most : (o : Option ℕ) → one_if_some o ≤ 1
one_at_most none = omega arith
one_at_most (some t) = omega arith

-- The router executes or responds.
not_both :
    (r : TxnRouter)
    → Inv r
    → 4 * one_if r.done_pending
        + 3 * one_if_some (responded r.response_in_progress r.transaction_in_progress)
      ≤ 4
not_both r v = ground (arith, v.unanswered)

-- The steps that one socket can need.
work_bounded : {c : ℕ} {begin size : ℕ} {w : Wire} → IsLinked c begin size w → work c w ≤ 11
work_bounded {c} {w = w} i =
    let r = w.router in
    let o = responded r.response_in_progress r.transaction_in_progress in
    let requests =
      length-places w.requests (waiting r.end_req_pending) w.accepts (request_slot c w.port)
        i.requests in
    let responses =
      length-places w.responses (waiting (response_slot c w.port)) w.ends o i.responses in
    omega (
      arith,
      requests,
      responses,
      length-waiting r.end_req_pending,
      length-waiting (response_slot c w.port),
      one_at_most (request_slot c w.port),
      not_both r (Reach-invariant i.reached),
    )

-- gem5 runs in timing mode, the port serves an END_REQ that is under way before a BEGIN_RESP, and no
-- payload is handed out that blocks a channel or that the router has in progress with no END_RESP
-- under way. From any state that gem5, the two queues and the router's process then bring about at a
-- socket and its router, where gem5 sends no further request through the socket: at most 11 services of the two
-- happen, in whatever order, and whatever the port does for its other sockets meanwhile. And as long
-- as a channel of the socket is blocked, a phase is under way or the router is busy, another service
-- can happen, which no assertion or fatal error stops.
pub serves_all :
    {c : ℕ} {begin size : ℕ} {w : Wire} {n : ℕ} {u : Wire}
    → Reach c begin size w
    → Run c w n u
    → (n ≤ 11) × (Served c u ⊎ IsQuiet c u)
serves_all {c} r run = (
  omega (arith, Run-work r run, work_bounded (Reach-IsLinked r)),
  serves_or_ends (Reach-IsLinked (Run-Reach r run)),
)
