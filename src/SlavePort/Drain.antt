-- ===== src/SlavePort/Drain.antt =====
-- src/sc_slave_port.cc, `recvRespRetry`: the responses that gem5 did not take are sent again.
use gem5_wrapper.Prelude.{
  ℕ, zero, suc, Bool, Option, none, some, Outcome, ok, check, ◌>>=◌, ◌>>◌, assertion,
}
use gem5_wrapper.Helper.{response, update_blocking_map, get_blocking_response}
use gem5_wrapper.SlavePort.State.{Gem5Extension, send_timing_resp, ScSlavePort, emit, get_extension}
use gem5_wrapper.SlavePort.Event.{send_end_resp}

-- From `sendTimingResp` to the end of the body. `accepts` is what gem5 answers for a packet.
unfoldable pub resend : (ℕ → Bool) → ℕ → Gem5Extension → ScSlavePort → Outcome ScSlavePort
unfolding send_end_resp
resend accepts trans e s = do
  check (accepts e.packet) assertion
  send_end_resp e.core_id trans (emit (send_timing_resp e.packet) s)

-- One round of the loop; `none` at the end of it. The system port's response comes first.
unfoldable pub drain_round :
    (ℕ → Bool) → Option ℕ → Option ℕ → ScSlavePort → Outcome (Option ScSlavePort)
unfolding get_extension resend
drain_round accepts (some trans) next s = do
  let s' = record s { blocking_response = none }
  e ← get_extension s' trans
  done ← resend accepts trans e s'
  ok (some done)
drain_round accepts none (some trans) s = do
  e ← get_extension s trans
  h ← update_blocking_map e.core_id none response s.helper
  done ← resend accepts trans e (record s { helper = h })
  ok (some done)
drain_round accepts none none s = ok none

-- The loop, on fuel; `none` means that the fuel ran out.
unfoldable pub drain : ℕ → (ℕ → Bool) → ScSlavePort → Outcome (Option ScSlavePort)
drain zero accepts s = ok none
drain (suc fuel) accepts s =
    drain_round accepts s.blocking_response (get_blocking_response s.helper) s
    >>= elim [ none ↦ ok (some s) | some s' ↦ drain fuel accepts s' ]

-- `caught_up` is the time check at the start.
unfoldable pub recv_resp_retry : ℕ → Bool → (ℕ → Bool) → ScSlavePort → Outcome (Option ScSlavePort)
unfolding drain
recv_resp_retry fuel caught_up accepts s = do check caught_up assertion; drain fuel accepts s
