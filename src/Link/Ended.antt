-- ===== src/Link/Ended.antt =====
-- src/sc_slave_port.cc, `pec`: what END_REQ and BEGIN_RESP do to the channels of a socket.
use gem5_wrapper.Prelude.{
  ℕ, suc, ◌<◌, ◌≡◌, ◌≢◌, ◌⊎◌, sym, ap, ◌∙◌, inl, inr, Bool, true, false, none, some, ◌∷◌, arith, ok,
  Bool-cases,
}
use gem5_wrapper.Prelude.Map.{find, find-range}
use gem5_wrapper.Tlm.{end_req, begin_resp, end_resp}
use gem5_wrapper.Helper
use gem5_wrapper.Helper.{
  BlockingPacketHelper, request, response, get_blocking_trans, is_blocking_trans,
  need_to_send_request_retry, get_blocking_response,
}
use gem5_wrapper.Helper.Channels.{IsReady, slot}
use gem5_wrapper.Helper.Search.{is_blocking_trans_iff}
use gem5_wrapper.SlavePort.State.{
  Gem5Extension, numbered, ScSlavePort, socket_for, release, transport_fw,
}
use gem5_wrapper.SlavePort.Event.{Answer, pec, begin_response}
use gem5_wrapper.SlavePort.Invariant.{Inv, core_of}
use gem5_wrapper.SlavePort.Retry.{
  freed, retrying, end_req_frees, begin_response_lem, answered, with_core,
}
use gem5_wrapper.Link.Answered.{pec-begin_resp}
use gem5_wrapper.Link.Wire.{held, request_slot, response_slot, IsOpen}
use gem5_wrapper.Link.Requested.{request_slot_blocks, socket_bound}

owed-total :
    (c : ℕ) (h : BlockingPacketHelper)
    → IsReady h
    → c < h.socket_num
    → (b : Bool) × (need_to_send_request_retry c h ≡ ok b)
unfolding need_to_send_request_retry
owed-total c h r l =
    let (b, there) =
      find-range 0 (suc h.socket_num) c h.need_to_send_request_retry_map r.retry_slots (omega arith)
        (omega arith) in
    (b, ground (arith, there))

-- END_REQ of the transaction that blocks the channel frees it; if a retry is owed, gem5 is told.
pub end_req_ends :
    (t c : ℕ) (e : Answer) (s : ScSlavePort) {s' : ScSlavePort}
    → IsOpen c s
    → request_slot c s ≡ some t
    → pec t end_req e s ≡ ok s'
    → (s' ≡ freed c s) ⊎ (e.retry (retrying c s) ≡ ok s')
end_req_ends t c e s o full d =
    let (owed, reads) = owed-total c s.helper o.inv.core_helper.ready o.in_range in
    let done = end_req_frees t c owed e s o.inv (request_slot_blocks c t s o.in_range full) reads in
    elim (Bool-cases owed) [
      | inl it ↦ inr (sym (rw it at done) ∙ d)
      | inr none_owed ↦ inl (ground (arith, rw none_owed at done, d))
    ]

response_slot_free :
    (c : ℕ) (s : ScSlavePort)
    → Inv s
    → c < s.helper.socket_num
    → response_slot c s ≡ none
    → get_blocking_trans c response s.helper ≡ ok none
unfolding get_blocking_trans
response_slot_free c s v l e =
    let (old, there) = slot response c v.core_helper.ready (omega (arith, l)) in
    ground (arith, there, v.core_helper.no_cache)

-- A transaction of the socket that does not block it blocks nothing.
not_blocking :
    (t c : ℕ) (s : ScSlavePort)
    → Inv s
    → core_of (s.payloads t).extension ≡ some c
    → request_slot c s ≢ some t
    → is_blocking_trans (some t) request s.helper ≡ false
not_blocking t c s v o n = elim (Bool-cases (is_blocking_trans (some t) request s.helper)) [
  | inr e ↦ e
  | inl e ↦
      let (d, below, found) = (is_blocking_trans_iff s.helper t request v.core_helper.ready).0 e in
      let same : d ≡ c = ground (arith, v.owned request d t found, o) in
      absurd (n (ap held (ap (λ (q : ℕ). find q s.helper.blocking_request_map) (sym same) ∙ found)))
]

-- What BEGIN_RESP leaves: the response blocks the channel, or END_RESP was sent.
abbrev pub refused_port : (t c pkt : ℕ) → Answer → ScSlavePort → ScSlavePort
refused_port t c pkt e s = record s {
  helper = Helper.updated c (some t) response s.helper;
  calls = (answered e pkt s).calls;
}

abbrev pub responded_port : (t c pkt : ℕ) → Answer → ScSlavePort → ScSlavePort
responded_port t c pkt e s = record s {
  calls = release t ∷ transport_fw (numbered c) t end_resp 0 ∷ (answered e pkt s).calls;
}

caught_up_of :
    (t : ℕ) (e : Answer) (s : ScSlavePort) {s' : ScSlavePort}
    → begin_response t e s ≡ ok s'
    → e.caught_up ≡ true
unfolding begin_response
caught_up_of t e s d = ground (arith, d)

pub begin_response_ends :
    (t c : ℕ) (e : Answer) (s : ScSlavePort) (x : Gem5Extension) {s' : ScSlavePort}
    → Inv s
    → (s.payloads t).extension ≡ some x
    → x.core_id < s.helper.socket_num
    → get_blocking_trans x.core_id response s.helper ≡ ok none
    → socket_for s x.core_id ≡ ok (numbered c)
    → begin_response t e s ≡ ok s'
    → (s' ≡ refused_port t x.core_id x.packet e s) ⊎ (s' ≡ responded_port t c x.packet e s)
begin_response_ends t c e s x v at_t l free k d =
    ground (arith, d, begin_response_lem t e s x v (caught_up_of t e s d) at_t l free k)

-- BEGIN_RESP of a transaction of the socket, after its END_REQ, where no response waits: gem5 takes
-- the response, or it blocks the channel.
pub begin_resp_ends :
    (t c : ℕ) (e : Answer) (s : ScSlavePort) {s' : ScSlavePort}
    → IsOpen c s
    → core_of (s.payloads t).extension ≡ some c
    → request_slot c s ≢ some t
    → response_slot c s ≡ none
    → pec t begin_resp e s ≡ ok s'
    → (pkt : ℕ) × ((s' ≡ refused_port t c pkt e s) ⊎ (s' ≡ responded_port t c pkt e s))
begin_resp_ends t c e s {s'} o own n free d =
    let begun = sym (pec-begin_resp t e s o.inv (not_blocking t c s o.inv own n)) ∙ d in
    let (x, at_t, at_c) = with_core (s.payloads t).extension c own in
    let reads = response_slot_free c s o.inv o.in_range free in
    (
      x.packet,
      rw at_c at (
          begin_response_ends t c e s x o.inv at_t (rw at_c o.in_range) (rw at_c reads)
            (rw at_c (socket_bound o)) begun),
    )

-- Both can be served: END_REQ if gem5's retry returns, and BEGIN_RESP at SystemC's time.
pub end_req_runs :
    (t c : ℕ) (e : Answer) (s : ScSlavePort)
    → IsOpen c s
    → request_slot c s ≡ some t
    → ((q : ScSlavePort) → e.retry q ≡ ok q)
    → (pec t end_req e s ≡ ok (freed c s)) ⊎ (pec t end_req e s ≡ ok (retrying c s))
end_req_runs t c e s o full h =
    let (owed, reads) = owed-total c s.helper o.inv.core_helper.ready o.in_range in
    let done = end_req_frees t c owed e s o.inv (request_slot_blocks c t s o.in_range full) reads in
    elim (Bool-cases owed) [
      | inl it ↦ inr (rw it at done ∙ h (retrying c s))
      | inr none_owed ↦ inl (rw none_owed at done)
    ]

pub begin_resp_runs :
    (t c : ℕ) (e : Answer) (s : ScSlavePort)
    → IsOpen c s
    → core_of (s.payloads t).extension ≡ some c
    → request_slot c s ≢ some t
    → response_slot c s ≡ none
    → e.caught_up ≡ true
    → e.taken ≡ true
    → (pkt : ℕ) × (pec t begin_resp e s ≡ ok (responded_port t c pkt e s))
begin_resp_runs t c e s o own n free u k =
    let (x, at_t, at_c) = with_core (s.payloads t).extension c own in
    let reads = response_slot_free c s o.inv o.in_range free in
    let done =
      begin_response_lem t e s x {target = numbered c} o.inv u at_t (rw at_c o.in_range)
        (rw at_c reads) (rw at_c (socket_bound o)) in
    (
      x.packet,
      pec-begin_resp t e s o.inv (not_blocking t c s o.inv own n) ∙ ground (arith, done, k),
    )
