-- ===== src/SlavePort/Tests.antt =====
-- Runs of the slave port, and the theorems about it at concrete inputs.
use gem5_wrapper.Prelude.{
  List, ℕ, ◌<◌, ◌≡◌, ◌≢◌, refl, true, false, Option, none, some, [], ◌∷◌, arith, ok, stop,
  assertion,
}
use gem5_wrapper.Prelude.Map.{find, assign, insert}
use gem5_wrapper.Tlm.{end_req, end_resp, read}
use gem5_wrapper.Helper
use gem5_wrapper.Helper.{
  request, response, init, init_map, slots, get_blocking_trans, is_blocked_port,
  get_blocking_response, system_port_flag, need_to_send_request_retry, BlockingPacketHelper,
}
use gem5_wrapper.Helper.Slots.{occupied}
use gem5_wrapper.Helper.Channels.{init-slot_free}
use gem5_wrapper.MemoryManager.{allocate}
use gem5_wrapper.SlavePort.State.{
  Packet, numbered, release, transport_fw, send_timing_resp, make_response, packet2payload,
  socket_for,
}
use gem5_wrapper.SlavePort.Sockets.{get_socket_id, socket_in}
use gem5_wrapper.SlavePort.Request.{send_request, recv_timing_req, request_socket}
use gem5_wrapper.SlavePort.Event.{pec, begin_response}
use gem5_wrapper.SlavePort.Drain.{recv_resp_retry}
use gem5_wrapper.SlavePort.Invariant.{Inv, IsUnused}
use gem5_wrapper.SlavePort.Mapping.{bind_multi-default}
use gem5_wrapper.SlavePort.Exclusion.{IsSendable}
use gem5_wrapper.SlavePort.Request.{Answer as Target}
use gem5_wrapper.SlavePort.Refusals.{recv_all, AllAt, noted, exclusion}
use gem5_wrapper.SlavePort.Retry.{IsBlocked, freed, end_req_frees, begin_response_lem}
use gem5_wrapper.SlavePort.Draining.{IsBound, recv_resp_retry_drains, recv_resp_retry_refused}
use gem5_wrapper.SlavePort.Reopened.{end_req-reopens}
use gem5_wrapper.SlavePort.Stale.{recv_timing_req-stale}
use gem5_wrapper.SlavePort.Updated.{updated-stops}
use gem5_wrapper.SlavePort.Single.{bind_single-no_timing}
use gem5_wrapper.SlavePort.Runs.{
  accepts, cores, load, multi, payloads, pool, port, port-Inv, ends, scheduled, scheduled_test,
  quiet, refused, refused-Inv, requested, requested-Inv,
}

bind_multi-default_example :
    request_socket load (bind_multi-default payloads pool 7 2 cores (omega arith)).0 ≡ 1
bind_multi-default_example = (bind_multi-default payloads pool 7 2 cores (omega arith)).4 load

bind_single-no_timing_example :
    recv_timing_req load accepts (bind_single-no_timing payloads pool 7).0 ≢ ok (port, true)
bind_single-no_timing_example = (bind_single-no_timing payloads pool 7).2 load accepts (port, true)

pub load-IsSendable : IsSendable load accepts port
unfolding request_socket get_socket_id socket_in get_blocking_trans init init_map insert Helper.new
    find packet2payload socket_for allocate
load-IsSendable = record {
  is_request = record { in_time = refl; unanswered = refl; kind = refl };
  in_range = omega arith;
  free = refl;
  payload = _;
  converted = refl;
  target = numbered 1;
  bound = refl;
  unused = λ type c e. absurd (none_some (init-slot_free 2 7 c (some 11) type e));
}
  where
    none_some : {t : ℕ} → ◌≡◌ {A = Option ℕ} (some t) none → ⊥
    none_some x = cc

-- gem5 sends the load twice more.
abbrev again : List (Packet × Target)
again = (load, accepts) ∷ (load, accepts) ∷ []

again-AllAt : AllAt (request_socket load port) port again
again-AllAt = (load-IsSendable.is_request, refl, (load-IsSendable.is_request, refl, tt))

exclusion_example :
    let s = (exclusion load accepts port again port-Inv refl refl load-IsSendable again-AllAt).0 in
    recv_all again s ≡ ok (noted (request_socket load port) again s, false)
exclusion_example =
    (exclusion load accepts port again port-Inv refl refl load-IsSendable again-AllAt).5

end_req_frees_test : pec 9 end_req quiet requested ≡ ok (freed 0 requested)
unfolding need_to_send_request_retry init init_map insert Helper.new find assign
end_req_frees_test =
    end_req_frees 9 0 false quiet requested requested-Inv
      (record { in_range = omega arith; blocks = refl }) refl

begin_response_lem_example :
    begin_response 8 quiet port
    ≡ ok (record port {
      calls =
          release 8
          ∷ transport_fw (numbered 1) 8 end_resp 0
          ∷ send_timing_resp 80
          ∷ make_response 80
          ∷ [];
    })
unfolding get_blocking_trans socket_for init init_map insert Helper.new find
begin_response_lem_example =
    begin_response_lem 8 quiet port (record { packet = 80; core_id = 1 }) port-Inv refl refl
      (omega arith) refl refl

refused-IsBound : IsBound multi refused
unfolding init init_map insert Helper.new find assign
refused-IsBound = record { no_single = refl; multi = refl; in_range = λ c t e. ground (arith, e) }

refused_two : occupied refused.helper.blocking_response_map < 3
unfolding init init_map insert Helper.new assign
refused_two = omega arith

recv_resp_retry_drains_example :
    (recv_resp_retry_drains 3 multi refused
      (λ p. true)
      refused-Inv
      refused-IsBound
      (λ p. refl)
      refused_two).0.calls
    ≡ release 8
      ∷ transport_fw (numbered 1) 8 end_resp 0
      ∷ send_timing_resp 80
      ∷ release 9
      ∷ transport_fw (numbered 0) 9 end_resp 0
      ∷ send_timing_resp 70
      ∷ []
unfolding init init_map insert Helper.new assign
recv_resp_retry_drains_example =
    (recv_resp_retry_drains 3 multi refused (λ p. true) refused-Inv refused-IsBound (λ p. refl)
      refused_two).4

recv_resp_retry-refused_test : recv_resp_retry 3 true (λ p. false) refused ≡ stop assertion
unfolding get_blocking_response init init_map insert Helper.new assign
recv_resp_retry-refused_test =
    recv_resp_retry_refused 2 9 refused (λ p. false) refused-Inv refl refl

-- A write that invalidates, on a payload that was a read.
abbrev clean : Packet
clean = record load { is_read = false; is_write = true; is_invalidate = true }

clean_test : recv_timing_req clean ends port ≡ ok (scheduled, true)
unfolding recv_timing_req get_socket_id socket_in is_blocked_port get_blocking_trans send_request
    packet2payload socket_for allocate init init_map insert Helper.new find
clean_test = refl

recv_timing_req-stale_example : (scheduled.payloads 11).command ≡ read
unfolding allocate
recv_timing_req-stale_example =
    recv_timing_req-stale clean ends port port-Inv refl refl refl clean_test

requested-IsBlocked : IsBlocked requested 9 0
unfolding init init_map insert Helper.new find assign
requested-IsBlocked = record { in_range = omega arith; blocks = refl }

requested_quiet_test : need_to_send_request_retry 0 requested.helper ≡ ok false
unfolding need_to_send_request_retry init init_map insert Helper.new find assign
requested_quiet_test = refl

end_req_reopens_test :
    Inv
      (end_req-reopens 9 0 quiet requested requested-Inv requested-IsBlocked requested_quiet_test).0
end_req_reopens_test =
    (end_req-reopens 9 0 quiet requested requested-Inv requested-IsBlocked requested_quiet_test).2

load-IsUnused : IsUnused port.helper 11
load-IsUnused type c e = absurd (none_some (init-slot_free 2 7 c (some 11) type e))
  where
    none_some : {t : ℕ} → ◌≡◌ {A = Option ℕ} (some t) none → ⊥
    none_some x = cc

updated-stops_example : pec 11 end_req quiet scheduled ≡ stop assertion
unfolding allocate
updated-stops_example =
    updated-stops load ends port quiet port-Inv load-IsUnused refl scheduled_test
