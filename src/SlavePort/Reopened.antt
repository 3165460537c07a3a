-- ===== src/SlavePort/Reopened.antt =====
-- src/sc_slave_port.cc: `recvTimingReq` after `pec`: END_REQ opens the socket again.
use gem5_wrapper.Prelude.{ℕ, ◌≡◌, true, false, none, arith, ok, lt→ltb, ◌>>=◌, ap, ◌∙◌}
use gem5_wrapper.Tlm.{end_req}
use gem5_wrapper.Helper.{request, get_blocking_trans, need_to_send_request_retry}
use gem5_wrapper.Helper.Channels.{update_lem, get_blocking_trans-update}
use gem5_wrapper.SlavePort.State.{Packet, ScSlavePort}
use gem5_wrapper.SlavePort.Request.{request_socket, send_request, recv_timing_req}
use gem5_wrapper.SlavePort.Request
use gem5_wrapper.SlavePort.Event.{Answer, pec}
use gem5_wrapper.SlavePort.Invariant.{Inv}
use gem5_wrapper.SlavePort.Exclusion.{IsRequest, recv_timing_req_free}
use gem5_wrapper.SlavePort.Retry.{IsBlocked, freed, end_req_frees}
use gem5_wrapper.SlavePort.Reachable.{freed-Inv}

pub freed-is_free :
    (t c : ℕ) (s : ScSlavePort)
    → Inv s
    → IsBlocked s t c
    → get_blocking_trans c request (freed c s).helper ≡ ok none
freed-is_free t c s v b =
    let e = update_lem c none request v.core_helper.ready (omega (arith, b.in_range)) in
    rw
      (
        get_blocking_trans-update s.helper _ c c none request request e,
        lt→ltb c s.helper.socket_num b.in_range,
      )
      (ground arith)

-- A transaction blocks a socket and no retry is owed there. After its END_REQ the port satisfies
-- its invariant, and every request through that socket is sent, by the same path as any other,
-- where it was refused before.
pub end_req-reopens :
    (t c : ℕ) (a : Answer) (s : ScSlavePort)
    → Inv s
    → IsBlocked s t c
    → need_to_send_request_retry c s.helper ≡ ok false
    → (s' : ScSlavePort) × (pec t end_req a s ≡ ok s')
      × Inv s'
      × ((q : Packet) (b : Request.Answer)
          → IsRequest q b
          → request_socket q s' ≡ c
          → recv_timing_req q b s' ≡ (send_request q c b s' >>= λ u. ok (u, true)))
end_req-reopens t c a s v b o =
    let v' = freed-Inv c v in
    let free = freed-is_free t c s v b in
    (
      freed c s,
      end_req_frees t c false a s v b o,
      v',
      λ q x r at_c.
          recv_timing_req_free q x (freed c s) v' r
            (ap (λ (d : ℕ). get_blocking_trans d request (freed c s).helper) at_c ∙ free)
          ∙ ap (λ (d : ℕ). send_request q d x (freed c s) >>= λ u. ok (u, true)) at_c,
    )
