-- ===== src/Link/Runs.antt =====
-- src/sc_slave_port.cc and include/txn_router.h together: a phase that is under way can be served.
use gem5_wrapper.SlavePort.State.{ScSlavePort}
use gem5_wrapper.Prelude.{
  ◌∙◌, ℕ, ◌≡◌, refl, sym, inl, inr, true, some, List, [], ◌∷◌, arith, ok, Option-cases,
}
use mathlib.Core.List.{append-nil}
use gem5_wrapper.Tlm.{begin_req, end_resp}
use gem5_wrapper.SlavePort.Event.{Answer}
use gem5_wrapper.SlavePort.Retry.{freed, retrying}
use gem5_wrapper.Router.{TxnRouter, peq_cb, execute_transaction_process}
use gem5_wrapper.Router.Invariant.{Inv}
use gem5_wrapper.Router.Order.{waiting, accepted_requests}
use gem5_wrapper.Router.References.{Reach-invariant}
use gem5_wrapper.Link.{from_port}
use gem5_wrapper.Link.Wire.{
  Wire, through_own, IsForward, IsBackward, later_on, response_slot, sent_requests, sent_ends,
  sent_responses, Step, begin_req_served, end_req_served, woken, begin_resp_served,
  responses_retried, end_resp_served,
}
use gem5_wrapper.Link.Places.{in_first, in_last, waiting-eq-nil, responded-eq-some}
use gem5_wrapper.Link.Ended.{responded_port, end_req_runs, begin_resp_runs}
use gem5_wrapper.Link.Resend.{recv_resp_retry_ends, recv_resp_retry_runs}
use gem5_wrapper.Link.Linked.{IsLinked}
use gem5_wrapper.Link.Service.{IsService}

-- A step that serves something.
abbrev pub Served : ℕ → Wire → Type 0
Served c w = (w' : Wire) × (st : Step c w w') × IsService st

-- gem5 takes the response, and does nothing at once when it is told to retry.
abbrev pub taking : Answer
taking = record {
  retry = λ s. ok s;
  caught_up = true;
  needs_response = true;
  is_response = true;
  taken = true;
}

begin_req_runs :
    (t : ℕ) (r : TxnRouter)
    → (r' : TxnRouter) × (a : List ℕ) × (b : List ℕ) × (peq_cb t begin_req from_port r ≡ ok r')
      × IsBackward r r' a b
unfolding peq_cb
begin_req_runs t r = elim (Option-cases r.transaction_in_progress) [
  | inl idle ↦ rw idle (_, t ∷ [], [], refl, record { ended = refl; begun = refl })
  | inr (u, busy) ↦ rw busy (
    _,
    [],
    [],
    refl,
    record {
      ended = sym (append-nil (accepted_requests r.calls));
      begun = sym (append-nil (sent_responses r.calls));
    },
  )
]

end_resp_runs :
    (t : ℕ) (r : TxnRouter)
    → Inv r
    → r.response_in_progress ≡ true
    → (r' : TxnRouter) × (a : List ℕ) × (b : List ℕ) × (peq_cb t end_resp from_port r ≡ ok r')
      × IsBackward r r' a b
unfolding peq_cb
end_resp_runs t r v d = elim (Option-cases r.end_req_pending) [
  | inl free ↦
      rw (d, v.no_next, free)
        (
          _,
          [],
          [],
          refl,
          record {
            ended = sym (append-nil (accepted_requests r.calls));
            begun = sym (append-nil (sent_responses r.calls));
          },
        )
  | inr (u, waits) ↦
      rw (d, v.no_next, waits) (_, u ∷ [], [], refl, record { ended = refl; begun = refl })
]

process_runs :
    (r : TxnRouter)
    → Inv r
    → r.done_pending ≡ true
    → (r' : TxnRouter) × (a : List ℕ) × (b : List ℕ) × (execute_transaction_process from_port r
        ≡ ok r')
      × IsBackward r r' a b
unfolding execute_transaction_process
process_runs r v d = elim (Option-cases r.transaction_in_progress) [
  | inl idle ↦ absurd (ground (arith, v.executing d, idle))
  | inr (u, busy) ↦
      rw (busy, v.unanswered d) (_, [], u ∷ [], refl, record { ended = refl; begun = refl })
]

responded_port-IsForward :
    (t c pkt : ℕ) (s : ScSlavePort) → IsForward c s (responded_port t c pkt taking s) [] (t ∷ [])
responded_port-IsForward t c pkt s = record {
  begun = through_own c (sent_requests c s.calls) [];
  ended = through_own c (sent_ends c s.calls) (t ∷ []);
}

module _ {c : ℕ} {start size : ℕ} {w : Wire} (i : IsLinked c start size w) where
  pub requests_run : (t : ℕ) (rest : List ℕ) → w.requests ≡ t ∷ rest → Served c w
  requests_run t rest at_t =
      let (r, a, b, e, f) = begin_req_runs t w.router in (_, begin_req_served at_t e f, tt)

  pub process_run : w.router.done_pending ≡ true → Served c w
  process_run d =
      let (r, a, b, e, f) = process_runs w.router (Reach-invariant i.reached) d in
      (_, woken d e f, tt)

  pub ends_run : (t : ℕ) (rest : List ℕ) → w.ends ≡ t ∷ rest → Served c w
  ends_run t rest at_t =
      let (no_response, none_blocked, no_rest, serves) =
        in_last w.responses (waiting (response_slot c w.port)) rest t (rw at_t at i.responses) in
      let (responds, in_progress) = responded-eq-some _ _ t serves in
      let (r, a, b, e, f) = end_resp_runs t w.router (Reach-invariant i.reached) responds in
      (_, end_resp_served at_t e f, tt)

  pub accepts_run : (t : ℕ) (rest : List ℕ) → w.accepts ≡ t ∷ rest → Served c w
  accepts_run t rest at_t =
      let (no_request, no_pending, no_rest, blocks) =
        in_last w.requests (waiting w.router.end_req_pending) rest t (rw at_t at i.requests) in
      let sent : IsForward c w.port (freed c w.port) [] [] = record {
        begun = sym (append-nil (sent_requests c w.port.calls));
        ended = sym (append-nil (sent_ends c w.port.calls));
      } in
      let told_and_sent : IsForward c w.port (retrying c w.port) [] [] = record {
        begun = sent.begun;
        ended = sent.ended;
      } in
      elim (end_req_runs t c taking w.port i.open_port blocks (λ q. refl)) [
        | inl done ↦ (_, end_req_served taking at_t (later_on (λ q. refl)) done sent, tt)
        | inr told ↦ (_, end_req_served taking at_t (later_on (λ q. refl)) told told_and_sent, tt)
      ]

  pub responses_run : (t : ℕ) (rest : List ℕ) → w.accepts ≡ [] → w.responses ≡ t ∷ rest → Served c w
  responses_run t rest n at_t =
      let (no_rest, no_response, no_end, serves) =
        in_first rest (waiting (response_slot c w.port)) w.ends t (rw at_t at i.responses) in
      let (responds, in_progress) = responded-eq-some _ _ t serves in
      let (pkt, done) =
        begin_resp_runs t c taking w.port i.open_port (i.owned t in_progress no_end)
          (i.apart t in_progress n no_end) (waiting-eq-nil _ no_response) refl refl in
      (
        _,
        begin_resp_served taking {a = []} {b = t ∷ []} at_t n done
            (responded_port-IsForward t c pkt w.port),
        tt,
      )

  pub retry_run : (t : ℕ) → response_slot c w.port ≡ some t → Served c w
  retry_run t full =
      let (fuel, s, done) = recv_resp_retry_runs c w.port i.open_port in
      let x = recv_resp_retry_ends fuel c w.port i.open_port done in
      (
        _,
        responses_retried fuel done (record {
          begun = x.requests ∙ sym (append-nil (sent_requests c w.port.calls));
          ended = x.ends;
        }),
        λ free. ground (arith, full, free),
      )
