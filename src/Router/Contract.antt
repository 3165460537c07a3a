-- ===== src/Router/Contract.antt =====
-- include/txn_router.h against its contract: a server of one transaction at a time, with room for
-- one request that waits, and with what it tells the initiator and the memory.
use gem5_wrapper.Prelude.{
  ℕ, ◌≡◌, refl, inl, inr, true, Option, none, some, List, [], ◌∷◌, ◌++◌, arith, Outcome, ok, stop,
  sc_fatal, Option-cases, Bool-cases,
}
use mathlib.Core.Bool.{false≢true}
use gem5_wrapper.Tlm.{Phase, begin_req, end_req, begin_resp, end_resp, accepted}
use gem5_wrapper.Router.{
  TxnRouter, Answer, Call, transport_bw, mem_transport, bus_transport, peq_cb,
  execute_transaction_process,
}
use gem5_wrapper.Router.Invariant.{Inv}
use gem5_wrapper.Router.Server.{Server, idle, serving, responding, view, IsServed}

-- What is seen from outside: END_REQ, the execution on the memory or elsewhere, and BEGIN_RESP.
pub data Event : Type 0 where
  ended executed strayed answered : ℕ → Event

abbrev of_phase : Phase → ℕ → List Event
of_phase end_req t = ended t ∷ []
of_phase begin_resp t = answered t ∷ []
of_phase _ t = []

-- The newest first.
abbrev pub events : List Call → List Event
events [] = []
events (transport_bw t phase ∷ l) = of_phase phase t ++ events l
events (mem_transport t ∷ l) = executed t ∷ events l
events (bus_transport t ∷ l) = strayed t ∷ events l
events (_ ∷ l) = events l

-- What the router serves, and what was seen of it.
abbrev pub Observed : Type 0
Observed = Server × List Event

abbrev pub observe : TxnRouter → Observed
observe s = (view s, events s.calls)

-- A request is taken at once, with END_REQ, or waits; there is room for one that waits.
abbrev pub on_begin_req : ℕ → Observed → Option Observed
on_begin_req t (idle, l) = some (serving t none, ended t ∷ l)
on_begin_req t (serving u none, l) = some (serving u (some t), l)
on_begin_req t (responding u none, l) = some (responding u (some t), l)
on_begin_req t (serving u (some w), l) = none
on_begin_req t (responding u (some w), l) = none

-- The transaction that is served is executed, and then BEGIN_RESP goes out for it.
abbrev pub on_done : Observed → Option Observed
on_done (serving u w, l) = some (responding u w, answered u ∷ executed u ∷ l)
on_done (idle, l) = none
on_done (responding u w, l) = none

-- At END_RESP the request that waits is taken, with END_REQ.
abbrev pub on_end_resp : Observed → Option Observed
on_end_resp (responding u none, l) = some (idle, l)
on_end_resp (responding u (some w), l) = some (serving w none, ended w ∷ l)
on_end_resp (idle, l) = none
on_end_resp (serving u w, l) = none

-- The code does what the contract allows, and what it forbids is a reported fatal error.
abbrev pub Implements : Option Observed → Outcome TxnRouter → Type 0
Implements none out = out ≡ stop sc_fatal
Implements (some o) out = (s : TxnRouter) × (out ≡ ok s) × (observe s ≡ o) × IsServed s

-- BEGIN_REQ at a router that satisfies its invariant, has no request waiting, as the exclusion rule
-- of TLM demands: the callback succeeds and does what the server does with a request. An idle router
-- takes it and sends END_REQ for it, a busy one lets it wait and is silent. At an idle router no
-- request is left waiting.
pub begin_req-refines :
    (t : ℕ) (a : Answer) (s : TxnRouter)
    → Inv s
    → s.end_req_pending ≡ none
    → (s' : TxnRouter) × (peq_cb t begin_req a s ≡ ok s')
      × (on_begin_req t (observe s) ≡ some (observe s'))
      × IsServed s'
unfolding peq_cb
begin_req-refines t a s v n = elim (Option-cases s.transaction_in_progress) [
  | inl e ↦ elim (Bool-cases s.response_in_progress) [
    | inl r ↦ absurd (false≢true (ground (arith, e, v.responding r)))
    | inr r ↦ rw (e, n, r) (_, refl, refl, λ x. refl)
  ]
  | inr (u, e) ↦ elim (Bool-cases s.response_in_progress) [
    | inl r ↦ rw (e, n, r) (_, refl, refl, λ x. cc)
    | inr r ↦ rw (e, n, r) (_, refl, refl, λ x. cc)
  ]
]

-- END_RESP at a router that satisfies its invariant and leaves no request waiting while it is idle:
-- where a response is in progress the callback succeeds and the server goes idle, silently, or sends
-- END_REQ for the request that waits and serves it; at any other router the callback is a reported
-- fatal error. At an idle router no request is left waiting.
pub end_resp-refines :
    (t : ℕ) (a : Answer) (s : TxnRouter)
    → Inv s
    → IsServed s
    → Implements (on_end_resp (observe s)) (peq_cb t end_resp a s)
unfolding peq_cb
end_resp-refines t a s v w = elim (Bool-cases s.response_in_progress) [
  | inl r ↦ elim (Option-cases s.transaction_in_progress) [
    | inl e ↦ absurd (false≢true (ground (arith, e, v.responding r)))
    | inr (u, e) ↦ elim (Option-cases s.end_req_pending) [
      | inl p ↦ rw (r, e, p, v.no_next) (_, refl, refl, λ x. refl)
      | inr (q, p) ↦ rw (r, e, p, v.no_next) (_, refl, refl, λ x. refl)
    ]
  ]
  | inr r ↦ elim (Option-cases s.transaction_in_progress) [
    | inl e ↦ rw (r, e) refl
    | inr (u, e) ↦ rw (r, e) refl
  ]
]

-- The process, woken by its event, where the initiator accepts BEGIN_RESP: the round succeeds, the
-- transaction that is served is executed once on the memory and then BEGIN_RESP goes out for it, and
-- nothing else is seen; the request that waits still waits, and none is left waiting at an idle
-- router.
pub process-refines :
    (a : Answer) (s : TxnRouter)
    → Inv s
    → IsServed s
    → s.done_pending ≡ true
    → a.status ≡ accepted
    → (s' : TxnRouter) × (execute_transaction_process a s ≡ ok s')
      × (on_done (observe s) ≡ some (observe s'))
      × IsServed s'
unfolding execute_transaction_process
process-refines a s v w d c = elim (Option-cases s.transaction_in_progress) [
  | inl e ↦ absurd (false≢true (ground (arith, e, v.executing d)))
  | inr (u, e) ↦ rw (e, v.unanswered d, c) (_, refl, refl, λ x. cc)
]
