-- ===== src/MasterPort/Consistency.antt =====
-- src/sc_master_port.cc: what holds of the port between two of its calls, however it is driven.
use gem5_wrapper.Prelude.{ℕ, ◌≡◌, refl, Bool, true, false, arith, is_some, Outcome, ok, >>=-eq-ok}
use gem5_wrapper.Tlm.{Phase, begin_req, end_resp, Sync}
use gem5_wrapper.MasterPort.{
  Payload, ScMasterPort, new, handle_begin_req, handle_end_resp, recv_timing_resp, Response,
  recv_req_retry, Answers, peq_cb, catchup, emit, send_retry, send_retry_resp,
}

-- The port waits for gem5's retry exactly while it keeps a request and its packet.
pub record IsWaiting (s : ScMasterPort) : Type 0 where
  pub request : is_some s.pending_request ≡ s.wait_for_retry
  pub packet : is_some s.pending_packet ≡ s.wait_for_retry

-- And it owes gem5 a retry only while a response is in progress.
pub record IsConsistent (s : ScMasterPort) : Type 0 where
  pub waiting : IsWaiting s
  pub owed : s.need_to_send_retry ≡ true → s.response_in_progress ≡ true

new-IsConsistent : IsConsistent new
unfolding new
new-IsConsistent = ground arith

handle_begin_req-IsConsistent :
    (t : ℕ) (p : Payload) (fresh : ℕ) (sent : Bool) (a : Sync) (s : ScMasterPort)
    {s' : ScMasterPort}
    → IsConsistent s
    → handle_begin_req t p fresh sent a s ≡ ok s'
    → IsConsistent s'
unfolding handle_begin_req
handle_begin_req-IsConsistent t p fresh sent a s v e = ground arith

recv_req_retry-IsConsistent :
    (sent : Bool) (a : Sync) (s : ScMasterPort) {s' : ScMasterPort}
    → IsConsistent s
    → recv_req_retry sent a s ≡ ok s'
    → IsConsistent s'
unfolding recv_req_retry
recv_req_retry-IsConsistent sent a s v e = ground arith

recv_timing_resp-IsConsistent :
    (r : Response) (status : Sync) (phase : Phase) (s : ScMasterPort) {s' : ScMasterPort} {b : Bool}
    → IsConsistent s
    → recv_timing_resp r status phase s ≡ ok (s', b)
    → IsConsistent s'
unfolding recv_timing_resp
recv_timing_resp-IsConsistent r status phase s v e = ground arith

-- What gem5 does with the port inside `sendRetryResp` may be any calls that keep `IsWaiting`.
abbrev pub IsTame : (ScMasterPort → Outcome ScMasterPort) → Type 0
IsTame retry = (u u' : ScMasterPort) → IsWaiting u → retry u ≡ ok u' → IsWaiting u'

send_retry-IsConsistent :
    (owed : Bool) (retry : ScMasterPort → Outcome ScMasterPort) (s : ScMasterPort)
    {s' : ScMasterPort}
    → IsTame retry
    → IsWaiting s
    → s.need_to_send_retry ≡ owed
    → send_retry owed retry s ≡ ok s'
    → IsConsistent s'
unfolding send_retry
send_retry-IsConsistent true retry s k w o e =
    let (m, e1, e2) = >>=-eq-ok (retry (emit send_retry_resp s)) _ e in
    let w' : IsWaiting (emit send_retry_resp s) = ground arith in
    ground (arith, k (emit send_retry_resp s) m w' e1)
send_retry-IsConsistent false retry s k w o e = ground arith

handle_end_resp-IsConsistent :
    (error : Bool) (retry : ScMasterPort → Outcome ScMasterPort) (s : ScMasterPort)
    {s' : ScMasterPort}
    → IsTame retry
    → IsConsistent s
    → handle_end_resp error retry s ≡ ok s'
    → IsConsistent s'
unfolding handle_end_resp
handle_end_resp-IsConsistent error retry s {s'} k v e =
    let free : ScMasterPort = record s { response_in_progress = false } in
    let w : IsWaiting free = ground arith in
    ground (
      arith,
      λ (x : send_retry s.need_to_send_retry retry free ≡ ok s').
          send_retry-IsConsistent s.need_to_send_retry retry free k w refl x,
    )

pub data Step (s : ScMasterPort) : ScMasterPort → Type 0 where
  delivered :
      (t : ℕ) (p : Payload) (phase : Phase) (a : Answers) {s' : ScMasterPort}
      → IsTame a.retry
      → peq_cb t p phase a s ≡ ok s'
      → Step s s'
  retried :
      (sent : Bool) (a : Sync) {s' : ScMasterPort} → recv_req_retry sent a s ≡ ok s' → Step s s'
  responded :
      (r : Response) (status : Sync) (phase : Phase) {s' : ScMasterPort} {b : Bool}
      → recv_timing_resp r status phase s ≡ ok (s', b)
      → Step s s'

pub data Reach : ScMasterPort → Type 0 where
  start : Reach new
  later : {s s' : ScMasterPort} → Reach s → Step s s' → Reach s'

peq_cb-IsConsistent :
    (t : ℕ) (p : Payload) (phase : Phase) (a : Answers) (s : ScMasterPort) {s' : ScMasterPort}
    → IsTame a.retry
    → IsConsistent s
    → peq_cb t p phase a s ≡ ok s'
    → IsConsistent s'
unfolding peq_cb
peq_cb-IsConsistent t p begin_req a s k v e =
    let w : IsConsistent (emit catchup s) = ground arith in
    let (m, e1, e2) =
      >>=-eq-ok (handle_begin_req t p a.fresh a.sent a.status (emit catchup s)) _ e in
    ground (arith, handle_begin_req-IsConsistent t p a.fresh a.sent a.status (emit catchup s) w e1)
peq_cb-IsConsistent t p end_resp a s k v e =
    let w : IsConsistent (emit catchup s) = ground arith in
    let (m, e1, e2) = >>=-eq-ok (handle_end_resp a.error a.retry (emit catchup s)) _ e in
    ground (arith, handle_end_resp-IsConsistent a.error a.retry (emit catchup s) k w e1)
peq_cb-IsConsistent t p _ a s k v e = cc

-- However the initiator and gem5 drive a new port, it keeps a request and its packet exactly while
-- it waits for a retry, and owes a retry only while a response is in progress.
pub Reach-IsConsistent : {s : ScMasterPort} → Reach s → IsConsistent s
Reach-IsConsistent start = new-IsConsistent
Reach-IsConsistent (later {s} r (delivered t p phase a k e)) =
    peq_cb-IsConsistent t p phase a s k (Reach-IsConsistent r) e
Reach-IsConsistent (later {s} r (retried sent a e)) =
    recv_req_retry-IsConsistent sent a s (Reach-IsConsistent r) e
Reach-IsConsistent (later {s} r (responded x status phase e)) =
    recv_timing_resp-IsConsistent x status phase s (Reach-IsConsistent r) e
