-- ===== src/SlavePort/Retried.antt =====
-- src/sc_slave_port.cc: `recvTimingReq`, `pec` and again `recvTimingReq`: a request that is refused,
-- the END_REQ of the one before it, and the same request again.
use gem5_wrapper.Prelude.{
  ℕ, ◌<◌, ◌≡◌, refl, sym, true, false, some, ◌∷◌, Outcome, ok, ◌>>=◌, ap, ◌∙◌, arith, ◌==◌, ==_iff,
}
use gem5_wrapper.Tlm.{begin_req, end_req, accepted}
use gem5_wrapper.Helper.{
  BlockingPacketHelper, request, get_blocking_trans, need_to_send_request_retry,
}
use gem5_wrapper.Helper.Search.{with_retry, update_retry_map_lem, update_retry_map-refines}
use gem5_wrapper.MemoryManager.{allocate}
use gem5_wrapper.SlavePort.State.{
  Packet, ScSlavePort, acquire, reset_delays, transport_fw, send_retry_req,
}
use gem5_wrapper.SlavePort.Request.{request_socket, recv_timing_req}
use gem5_wrapper.SlavePort.Request
use gem5_wrapper.SlavePort.Sockets.{get_socket_id}
use gem5_wrapper.SlavePort.Event.{Answer, pec}
use gem5_wrapper.SlavePort.Invariant.{Inv}
use gem5_wrapper.SlavePort.Exclusion.{
  IsRequest, IsSendable, recv_timing_req_refused, recv_timing_req_accepted, blocked_port,
  blocked_port-Inv, blocked_port-blocks,
}
use gem5_wrapper.SlavePort.Retry.{IsBlocked, retrying, end_req_frees}
use gem5_wrapper.SlavePort.Reachable.{freed-Inv}
use gem5_wrapper.SlavePort.Preservation.{with_retry-Inv, with_calls-Inv}

-- What gem5 does inside `sendRetryReq`: it sends the request once more.
unfoldable pub sends_again : Packet → Request.Answer → ScSlavePort → Outcome ScSlavePort
sends_again q b s = recv_timing_req q b s >>= λ r. ok r.0

-- The port that has refused a request through the socket `c`.
abbrev pub refusing : ℕ → ScSlavePort → ScSlavePort
refusing c s = record s { helper = with_retry c true s.helper }

pub blocked_reads :
    (t c : ℕ) (s : ScSlavePort)
    → Inv s
    → IsBlocked s t c
    → get_blocking_trans c request s.helper ≡ ok (some t)
unfolding get_blocking_trans
blocked_reads t c s v b = ground (arith, b.blocks, b.in_range, v.core_helper.no_cache)

-- The flag that a refusal writes is read.
pub owed_after :
    (c : ℕ) (s : ScSlavePort)
    → Inv s
    → c < s.helper.socket_num
    → need_to_send_request_retry c (with_retry c true s.helper) ≡ ok true
owed_after c s v l =
    let (h, done, ready, reads) = update_retry_map-refines s.helper c true v.core_helper.ready l in
    let same : h ≡ with_retry c true s.helper =
      ok_inj (sym done ∙ update_retry_map_lem s.helper c true l) in
    let here : (c == c) ≡ true = (==_iff c c).1 refl in
    ap (need_to_send_request_retry c) (sym same) ∙ reads c l ∙ rw here refl
  where
    ok_inj :
        {x y : BlockingPacketHelper} → ◌≡◌ {A = Outcome BlockingPacketHelper} (ok x) (ok y) → x ≡ y
    ok_inj e = cc

socket_again :
    (c : ℕ) (q : Packet) (s : ScSlavePort)
    → request_socket q s ≡ c
    → request_socket q (retrying c (refusing c s)) ≡ c
unfolding request_socket get_socket_id
socket_again c q s e = e

-- A transaction blocks a socket, and gem5 sends another request through it. The request is refused
-- and nothing is called. If it can be sent once the socket is free, the target takes it, and gem5
-- sends it again when it is told to, then END_REQ of the first transaction sends it: the port has
-- told gem5 to retry, and after that sent BEGIN_REQ with the new transaction, which blocks the
-- socket now; and the port satisfies its invariant.
pub end_req-retried :
    (t c : ℕ) (q : Packet) (b : Request.Answer) (a : Answer) (s : ScSlavePort)
    → Inv s
    → IsBlocked s t c
    → IsRequest q b
    → request_socket q s ≡ c
    → b.status ≡ accepted
    → b.phase ≡ begin_req
    → a.retry ≡ sends_again q b
    → (k : IsSendable q b (retrying c (refusing c s)))
    → let u = (allocate b.fresh s.mm).0 in
      (recv_timing_req q b s ≡ ok (refusing c s, false))
      × (s' : ScSlavePort) × (pec t end_req a (refusing c s) ≡ ok s')
      × Inv s'
      × (get_blocking_trans c request s'.helper ≡ ok (some u))
      × (s'.calls
          ≡ transport_fw k.target u begin_req q.payload_delay
            ∷ reset_delays q.ptr
            ∷ acquire u
            ∷ send_retry_req
            ∷ s.calls)
unfolding sends_again
end_req-retried t c q b a s v i r at_c st ph again k =
    let w = with_retry-Inv c true v in
    let free = retrying c (refusing c s) in
    let free-Inv : Inv free = with_calls-Inv _ (with_retry-Inv c false (freed-Inv c w)) in
    let held : IsBlocked (refusing c s) t c = record { in_range = i.in_range; blocks = i.blocks } in
    let ended = end_req_frees t c true a (refusing c s) w held (owed_after c s v i.in_range) in
    (
      recv_timing_req_refused q b s c t v r at_c i.in_range (blocked_reads t c s v i),
      blocked_port q b k.payload k.target free,
      ended ∙ rw again (rw (recv_timing_req_accepted q b free free-Inv st ph k) refl),
      blocked_port-Inv q b free free-Inv k,
      ap (λ (d : ℕ). get_blocking_trans d request (blocked_port q b k.payload k.target free).helper)
            (sym (socket_again c q s at_c))
          ∙ blocked_port-blocks q b free free-Inv k,
      refl,
    )
