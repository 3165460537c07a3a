-- ===== src/MasterPort/References.antt =====
-- src/sc_master_port.cc: the references that the port takes on a transaction and gives back, from
-- its BEGIN_REQ to its END_RESP.
use gem5_wrapper.Prelude.{
  ℕ, ◌+◌, ◌≡◌, refl, Bool, true, false, not, some, List, [], ◌∷◌, arith, ◌==◌, Outcome, ok,
  if◌then◌else◌,
}
use gem5_wrapper.Tlm.{Phase, begin_req, end_resp, Sync, accepted}
use gem5_wrapper.MasterPort.{
  Payload, Call, acquire, release, ScMasterPort, nb_transport_fw, handle_begin_req, handle_end_resp,
  recv_timing_resp, Response, recv_req_retry, send_retry,
}

abbrev one_if : Bool → ℕ
one_if true = 1
one_if false = 0

abbrev pub acquires : ℕ → List Call → ℕ
acquires t [] = 0
acquires t (acquire u ∷ l) = one_if (u == t) + acquires t l
acquires t (_ ∷ l) = acquires t l

abbrev pub releases : ℕ → List Call → ℕ
releases t [] = 0
releases t (release u ∷ l) = one_if (u == t) + releases t l
releases t (_ ∷ l) = releases t l

-- From `s` to `s'` the port took `n` references on `t` and gave back `m`.
abbrev pub Moves : ℕ → ScMasterPort → ScMasterPort → ℕ → ℕ → Type 0
Moves t s s' n m =
    (acquires t s'.calls ≡ acquires t s.calls + n) × (releases t s'.calls ≡ releases t s.calls + m)

nb_transport_fw-Moves :
    (t : ℕ) (p : Payload) (phase : Phase) (s : ScMasterPort)
    → (nb_transport_fw t p phase s).1 ≡ accepted
    → Moves t s (nb_transport_fw t p phase s).0 1 0
unfolding nb_transport_fw
nb_transport_fw-Moves t p phase s e = ground arith

handle_begin_req-Moves :
    (t : ℕ) (p : Payload) (new : ℕ) (sent : Bool) (a : Sync) (s s' : ScMasterPort)
    → handle_begin_req t p new sent a s ≡ ok s'
    → Moves t s s' 1 (one_if sent)
      × (s'.pending_request ≡ (if sent then s.pending_request else some t))
unfolding handle_begin_req
handle_begin_req-Moves t p new sent a s s' e = ground arith

recv_req_retry-Moves :
    (t : ℕ) (a : Sync) (s s' : ScMasterPort)
    → s.pending_request ≡ some t
    → recv_req_retry true a s ≡ ok s'
    → Moves t s s' 0 1
unfolding recv_req_retry
recv_req_retry-Moves t a s s' k e = ground arith

recv_timing_resp-Moves :
    (t : ℕ) (r : Response) (status : Sync) (phase : Phase) (s s' : ScMasterPort)
    → r.sender ≡ some t
    → recv_timing_resp r status phase s ≡ ok (s', true)
    → Moves t s s' 0 1
unfolding recv_timing_resp
recv_timing_resp-Moves t r status phase s s' k e = ground arith

handle_end_resp-Moves :
    (t : ℕ) (error : Bool) (retry : ScMasterPort → Outcome ScMasterPort) (s s' : ScMasterPort)
    → s.need_to_send_retry ≡ false
    → handle_end_resp error retry s ≡ ok s'
    → Moves t s s' 0 0
unfolding handle_end_resp send_retry
handle_end_resp-Moves t error retry s s' k e = ground arith

-- The life of a transaction: BEGIN_REQ is queued and delivered, gem5 takes the request at once or
-- at its retry, its response is sent, and END_RESP is queued and delivered.
pub record Life (t : ℕ) (s s' : ScMasterPort) : Type 0 where
  pub payload : Payload
  pub new : ℕ
  pub sent : Bool
  pub answer : Sync
  pub response : Response
  pub status : Sync
  pub phase : Phase
  pub retry : ScMasterPort → Outcome ScMasterPort
  pub begun : ScMasterPort
  pub taken : ScMasterPort
  pub answered : ScMasterPort
  pub queued : (nb_transport_fw t payload begin_req s).1 ≡ accepted
  pub begins :
      handle_begin_req t payload new sent answer (nb_transport_fw t payload begin_req s).0
      ≡ ok begun
  pub takes : (if sent then ok begun else recv_req_retry true answer begun) ≡ ok taken
  pub sender : response.sender ≡ some t
  pub answers : recv_timing_resp response status phase taken ≡ ok (answered, true)
  pub queued_end : (nb_transport_fw t payload end_resp answered).1 ≡ accepted
  pub none_owed : (nb_transport_fw t payload end_resp answered).0.need_to_send_retry ≡ false
  pub ends : handle_end_resp false retry (nb_transport_fw t payload end_resp answered).0 ≡ ok s'

takes-Moves :
    (t : ℕ) (sent : Bool) (a : Sync) (s s' : ScMasterPort)
    → (sent ≡ false → s.pending_request ≡ some t)
    → (if sent then ok s else recv_req_retry true a s) ≡ ok s'
    → Moves t s s' 0 (one_if (not sent))
takes-Moves t true a s s' k e = ground arith
takes-Moves t false a s s' k e = recv_req_retry-Moves t a s s' (k refl) e

-- Over its whole life the port takes three references on a transaction and gives back two. The one
-- taken when END_RESP is queued is never released, so the payload is never freed.
pub Life-leaks : {t : ℕ} {s s' : ScMasterPort} → Life t s s' → Moves t s s' 3 2
Life-leaks {t} {s} {s'} l =
    let s1 : ScMasterPort = (nb_transport_fw t l.payload begin_req s).0 in
    let s2 : ScMasterPort = (nb_transport_fw t l.payload end_resp l.answered).0 in
    let a = nb_transport_fw-Moves t l.payload begin_req s l.queued in
    let b = handle_begin_req-Moves t l.payload l.new l.sent l.answer s1 l.begun l.begins in
    let c = takes-Moves t l.sent l.answer l.begun l.taken (λ e. ground arith) l.takes in
    let d =
      recv_timing_resp-Moves t l.response l.status l.phase l.taken l.answered l.sender l.answers in
    let e = nb_transport_fw-Moves t l.payload end_resp l.answered l.queued_end in
    let f = handle_end_resp-Moves t false l.retry s2 s' l.none_owed l.ends in ground arith
