-- ===== src/Link/Meanwhile.antt =====
-- src/sc_slave_port.cc: what the port does for its other sockets leaves a socket nothing more to do.
use mathlib.Core.List.{append-nil}
use gem5_wrapper.Prelude.{ℕ, ◌≡◌, sym, ◌∙◌, inl, inr, none, List, [], arith}
use gem5_wrapper.SlavePort.State.{ScSlavePort}
use gem5_wrapper.Link.Wire.{
  Wire, IsForward, with_port, response_slot, sent_requests, sent_ends, Step, requested,
  begin_req_served, end_req_served, woken, begin_resp_served, responses_retried, end_resp_served,
  requested_elsewhere, end_req_elsewhere, begin_resp_elsewhere,
}
use gem5_wrapper.Link.Resend.{recv_resp_retry_ends}
use gem5_wrapper.Link.Linked.{IsLinked, forward_lem}
use gem5_wrapper.Link.Elsewhere.{IsElsewhere, request-IsElsewhere}
use gem5_wrapper.Link.Aside.{
  freed-IsElsewhere, retrying-IsElsewhere, end_req_aside, begin_resp_aside,
}
use gem5_wrapper.Link.Told.{IsApart, retry-IsElsewhere, retrying-IsRetry, retrying-IsApart}
use gem5_wrapper.Link.Service.{work}

-- What the port does for the others, while gem5 sends nothing through the socket.
abbrev pub IsAside : {c : ℕ} {w w' : Wire} → Step c w w' → Type 0
IsAside (requested_elsewhere p q n k e f) = Unit
IsAside (end_req_elsewhere e t x at_t n k d f) = IsApart k
IsAside (begin_resp_elsewhere e t x at_t n quiet d f) = Unit
IsAside {c} {w} (responses_retried fuel e f) = response_slot c w.port ≡ none
IsAside _ = ⊥

module _ {c : ℕ} {start size : ℕ} {w : Wire} (i : IsLinked c start size w) where
  work_same :
      {s : ScSlavePort} {a b : List ℕ}
      → response_slot c s ≡ response_slot c w.port
      → sent_requests c s.calls ≡ sent_requests c w.port.calls
      → sent_ends c s.calls ≡ sent_ends c w.port.calls
      → IsForward c w.port s a b
      → work c (with_port s a b w) ≡ work c w
  work_same p q r f =
      let (x, y) = forward_lem [] [] f (q ∙ sym (append-nil _)) (r ∙ sym (append-nil _)) in
      ground (arith, p, x, y, append-nil w.requests, append-nil w.ends)

  elsewhere_work :
      {s : ScSlavePort} {a b : List ℕ}
      → IsElsewhere c w.port s
      → IsForward c w.port s a b
      → work c (with_port s a b w) ≡ work c w
  elsewhere_work x f = work_same x.same_response x.requests x.ends f

pub aside_work :
    {c : ℕ} {start size : ℕ} {w w' : Wire}
    → IsLinked c start size w
    → (st : Step c w w') → IsAside st
    → work c w' ≡ work c w
aside_work i (requested_elsewhere p q n k e f) l =
    elsewhere_work i (request-IsElsewhere i.open_port p q n k.unused e) f
aside_work {c} {w} i (end_req_elsewhere e t x {s} at_t n k d f) l =
    let o = i.open_port in
    elim (end_req_aside o t e x at_t d) [
      | inl done ↦ rw done (elsewhere_work i (freed-IsElsewhere o x.core_id n) (rw done at f))
      | inr told ↦
          let base = retrying-IsElsewhere o x.core_id n in
          let y =
            retry-IsElsewhere e base.is_open (retrying-IsRetry x.core_id k)
              (retrying-IsApart x.core_id k l) told in
          work_same i (y.same_response) y.requests y.ends f
    ]
aside_work i (begin_resp_elsewhere e t x at_t n quiet d f) l =
    elsewhere_work i (begin_resp_aside i.open_port t e x at_t n quiet d).0 f
aside_work {c} {w} i (responses_retried fuel e f) free =
    let x = recv_resp_retry_ends fuel c w.port i.open_port e in
    work_same i (x.free ∙ sym free) x.requests (x.ends ∙ rw free (append-nil _)) f
aside_work i (requested p fresh q e f) l = absurd l
aside_work i (begin_req_served at_t e f) l = absurd l
aside_work i (end_req_served e at_t k d f) l = absurd l
aside_work i (woken d e f) l = absurd l
aside_work i (begin_resp_served e at_t n d f) l = absurd l
aside_work i (end_resp_served at_t e f) l = absurd l
