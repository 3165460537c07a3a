-- ===== src/SlavePort/Retry.antt =====
-- src/sc_slave_port.cc, `pec`: END_REQ frees the request channel of a socket, and a request that was
-- refused meanwhile is retried; BEGIN_RESP brings the response to gem5.
use gem5_wrapper.Prelude.{
  ℕ, ◌≤◌, ◌<◌, ◌≡◌, refl, Bool, true, false, not, ◌&&◌, Option, none, some, ◌∷◌, arith,
  if◌then◌else◌, ok, ◌∙◌,
}
use gem5_wrapper.Prelude.Map.{find}
use gem5_wrapper.Tlm.{end_req, end_resp}
use gem5_wrapper.Helper
use gem5_wrapper.Helper.{
  PktType, request, response, slots, is_blocked_port, get_blocking_trans, update_retry_map,
  is_blocking_trans, need_to_send_request_retry, update_blocking_map,
}
use gem5_wrapper.Helper.Channels.{update_lem}
use gem5_wrapper.Helper.Search.{with_retry, update_retry_map_lem, is_blocking_trans_iff}
use gem5_wrapper.SlavePort.State.{
  Gem5Extension, Socket, ScSlavePort, socket_for, get_extension, release, make_response,
  transport_fw, send_retry_req, send_timing_resp, emit,
}
use gem5_wrapper.SlavePort.Event.{
  Answer, end_request, end_core_request, begin_response, pec, check_response_channel,
  block_response, send_end_resp,
}
use gem5_wrapper.SlavePort.Invariant.{Inv, core_of}

-- The transaction `t` blocks the request channel of the socket `c`, and carries it.
pub record IsBlocked (s : ScSlavePort) (t c : ℕ) : Type 0 where
  pub in_range : c < s.helper.socket_num
  pub blocks : find c s.helper.blocking_request_map ≡ some (some t)

-- The port whose request channel is free again.
abbrev pub freed : ℕ → ScSlavePort → ScSlavePort
freed c s = record s { helper = Helper.updated c none request s.helper }

-- And which owes no retry on that socket any more.
abbrev pub retrying : ℕ → ScSlavePort → ScSlavePort
retrying c s = record s {
  helper = with_retry c false (Helper.updated c none request s.helper);
  calls = send_retry_req ∷ s.calls;
}

owed-updated :
    (c : ℕ) (s : ScSlavePort)
    → need_to_send_request_retry c (Helper.updated c none request s.helper)
      ≡ need_to_send_request_retry c s.helper
unfolding need_to_send_request_retry
owed-updated c s = refl

pub with_core :
    (o : Option Gem5Extension) (c : ℕ)
    → core_of o ≡ some c
    → (e : Gem5Extension) × (o ≡ some e) × (e.core_id ≡ c)
with_core none c h = absurd (cc)
with_core (some e) c h = (e, refl, ground arith)

end_core_request_lem :
    (t c : ℕ) (owed : Bool) (a : Answer) (s : ScSlavePort)
    → Inv s
    → IsBlocked s t c
    → need_to_send_request_retry c s.helper ≡ ok owed
    → end_core_request t a s ≡ (if owed then a.retry (retrying c s) else ok (freed c s))
unfolding end_core_request
end_core_request_lem t c owed a s v b o =
    let r = v.core_helper.ready in
    let l : c ≤ s.helper.socket_num = omega (arith, b.in_range) in
    let held = (is_blocking_trans_iff s.helper t request r).1 (c, l, b.blocks) in
    let (e, at_t, at_c) = with_core (s.payloads t).extension c (v.owned request c t b.blocks) in
    let cleared = update_lem c none request r l in
    let still = owed-updated c s ∙ o in
    let forgot = update_retry_map_lem (Helper.updated c none request s.helper) c false b.in_range in
    rw (held, at_t, at_c, cleared, still) (ground (arith, forgot))

end_req-core :
    (t : ℕ) (a : Answer) (s : ScSlavePort) → Inv s → end_request t a s ≡ end_core_request t a s
unfolding end_request
end_req-core t a s v = ground arith

-- END_REQ of the transaction that blocks a socket. The request channel of that socket is free
-- afterwards. If a request was refused on it, that is forgotten and gem5 is told to retry, once the
-- channel is free; what gem5 does then is the rest. If none was, nothing is called.
pub end_req_frees :
    (t c : ℕ) (owed : Bool) (a : Answer) (s : ScSlavePort)
    → Inv s
    → IsBlocked s t c
    → need_to_send_request_retry c s.helper ≡ ok owed
    → pec t end_req a s ≡ (if owed then a.retry (retrying c s) else ok (freed c s))
unfolding pec
end_req_frees t c owed a s v b o =
    ground (arith, end_core_request_lem t c owed a s v b o, end_req-core t a s v)

-- BEGIN_RESP of a transaction whose request has ended, at a core whose response channel is free.
abbrev pub made : Answer → ℕ → ScSlavePort → ScSlavePort
made a pkt s = if a.needs_response then emit (make_response pkt) s else s

abbrev pub answered : Answer → ℕ → ScSlavePort → ScSlavePort
answered a pkt s =
    if a.is_response then emit (send_timing_resp pkt) (made a pkt s) else made a pkt s

-- The response of a core whose response channel is free. A response is made of the packet if it
-- needs one, and a packet that is one goes to gem5. If gem5 takes it, or there is none, END_RESP
-- goes to the target and the payload is released; if gem5 refuses it, the transaction blocks the
-- response channel, and neither is called.
pub begin_response_lem :
    (t : ℕ) (a : Answer) (s : ScSlavePort) (e : Gem5Extension) {target : Socket}
    → Inv s
    → a.caught_up ≡ true
    → (s.payloads t).extension ≡ some e
    → e.core_id < s.helper.socket_num
    → get_blocking_trans e.core_id response s.helper ≡ ok none
    → socket_for s e.core_id ≡ ok target
    → let s' = answered a e.packet s in
      begin_response t a s
      ≡ ok (
          if a.is_response && not a.taken
          then record s' { helper = Helper.updated e.core_id (some t) response s'.helper }
          else record s' { calls = release t ∷ transport_fw target t end_resp 0 ∷ s'.calls })
unfolding begin_response get_extension check_response_channel block_response send_end_resp
    socket_for
begin_response_lem t a s e v u x l f k =
    ground (arith, update_lem e.core_id (some t) response v.core_helper.ready (omega (arith, l)))
