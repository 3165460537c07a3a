-- ===== src/SlavePort/Runs.antt =====
-- Runs of the slave port on concrete inputs.
use gem5_wrapper.Prelude.{
  ℕ, ◌≡◌, refl, true, false, Option, none, some, [], ◌∷◌, arith, ok, if◌then◌else◌, ◌==◌,
}
use gem5_wrapper.Prelude.Map.{insert, find}
use gem5_wrapper.Tlm.{begin_req, end_req, accepted, updated, read}
use gem5_wrapper.Helper
use gem5_wrapper.Helper.{
  request, response, init, init_map, slots, get_blocking_trans, is_blocked_port,
  get_blocking_response, system_port_flag, need_to_send_request_retry, BlockingPacketHelper,
}
use gem5_wrapper.Helper.Channels.{init-IsReady, init-slot_free}
use gem5_wrapper.MemoryManager.{MemoryManager, allocate}
use gem5_wrapper.SlavePort.State.{
  Payload, Packet, Multi, ScSlavePort, new, update, packet2payload, socket_for, schedule,
  transport_fw, reset_delays, acquire, numbered,
}
use gem5_wrapper.SlavePort.Sockets.{bind_multi, update_core_port_map, get_socket_id, socket_in}
use gem5_wrapper.SlavePort.Request.{send_request, recv_timing_req, request_socket}
use gem5_wrapper.SlavePort.Request
use gem5_wrapper.SlavePort.Event.{Answer}
use gem5_wrapper.SlavePort.Invariant.{Inv, updated-IsCoreHelper, updated-IsOwned}
use gem5_wrapper.SlavePort.Mapping.{Cores}

abbrev pub blank : Payload
blank = record {
  address = 0;
  data_length = 0;
  streaming_width = 0;
  data_ptr = 0;
  command = read;
  extension = none;
}

-- The payload 9 belongs to a packet of core 0, the payload 8 to one of core 1.
abbrev pub payloads : ℕ → Payload
payloads t =
    if t == 9
    then record blank { extension = some (record { packet = 70; core_id = 0 }) }
    else if t == 8
    then record blank { extension = some (record { packet = 80; core_id = 1 }) }
    else blank

abbrev pub pool : MemoryManager
pool = record { number_of_allocations = 0; number_of_frees = 0; free_payloads = [] }

-- Two cores: the requestors 3 and 4, and 5.
abbrev pub cores : Cores
cores = ("cpu0", 3 ∷ 4 ∷ []) ∷ ("cpu1", 5 ∷ []) ∷ []

abbrev pub multi : Multi
multi = record { socket_num = 2; socket_core_map = [] }

abbrev pub port : ScSlavePort
port = record {
  blocking_request = none;
  need_to_send_request_retry = false;
  blocking_response = none;
  using_gem5_cache = false;
  transactor = false;
  transactor_multi = some multi;
  helper = init 2 (Helper.new 7);
  cpu_port_map = cores;
  socket_map = (0, 3 ∷ 4 ∷ []) ∷ (1, 5 ∷ []) ∷ [];
  cpu_vec = "cpu0" ∷ "cpu1" ∷ [];
  payloads = payloads;
  mm = pool;
  calls = [];
}

pub port_test : bind_multi multi (update_core_port_map cores (new payloads pool 7)) ≡ ok port
unfolding bind_multi update_core_port_map new insert Helper.new init
port_test = refl

pub port-Inv : Inv port
unfolding init Helper.new
port-Inv = record {
  core_helper = record { ready = init-IsReady 2 7; no_cache = refl; no_flag = refl };
  no_cache = refl;
  no_request = refl;
  no_response = refl;
  no_retry = refl;
  owned = λ type c t e. absurd (none_some (init-slot_free 2 7 c (some t) type e));
}
  where
    none_some : {t : ℕ} → ◌≡◌ {A = Option ℕ} (some t) none → ⊥
    none_some x = cc

-- A read of requestor 5, and so of core 1.
abbrev pub load : Packet
load = record {
  ptr = 60;
  addr = 4096;
  size = 8;
  data_ptr = 700;
  is_read = true;
  is_write = false;
  is_invalidate = false;
  is_swap = false;
  cache_responding = false;
  needs_response = true;
  requestor_id = 5;
  cpu_cluster_id = none;
  payload_delay = 20;
}

abbrev pub accepts : Request.Answer
accepts = record { caught_up = true; fresh = 11; status = accepted; phase = begin_req; delay = 0 }

pub load_test : request_socket load port ≡ 1
unfolding request_socket get_socket_id socket_in
load_test = refl

-- The request 9 blocks core 0.
abbrev pub requested : ScSlavePort
requested = record port { helper = Helper.updated 0 (some 9) request port.helper }

pub requested-Inv : Inv requested
requested-Inv = record {
  core_helper = updated-IsCoreHelper 0 (some 9) request port-Inv.core_helper;
  no_cache = refl;
  no_request = refl;
  no_response = refl;
  no_retry = refl;
  owned =
      updated-IsOwned port.helper payloads 0 (some 9) request (λ u e. ground (arith, e))
        port-Inv.owned;
}

-- gem5 took neither the response 9 of core 0 nor 8 of core 1.
abbrev pub refused : ScSlavePort
refused = record port {
  helper = Helper.updated 1 (some 8) response (Helper.updated 0 (some 9) response port.helper);
}

pub refused-Inv : Inv refused
refused-Inv = record {
  core_helper =
      updated-IsCoreHelper 1 (some 8) response
        (updated-IsCoreHelper 0 (some 9) response port-Inv.core_helper);
  no_cache = refl;
  no_request = refl;
  no_response = refl;
  no_retry = refl;
  owned =
      updated-IsOwned (Helper.updated 0 (some 9) response port.helper) payloads 1 (some 8) response
        (λ u e. ground (arith, e))
        (updated-IsOwned port.helper payloads 0 (some 9) response (λ u e. ground (arith, e))
          port-Inv.owned);
}

abbrev pub quiet : Answer
quiet = record {
  retry = λ u. ok u;
  caught_up = true;
  needs_response = true;
  is_response = true;
  taken = true;
}

-- A target that ends the request of `load` at once.
abbrev pub ends : Request.Answer
ends = record { caught_up = true; fresh = 11; status = updated; phase = end_req; delay = 40 }

abbrev pub scheduled : ScSlavePort
scheduled = record port {
  payloads = update port.payloads 11 (record blank {
    address = 4096;
    data_length = 8;
    streaming_width = 8;
    data_ptr = 700;
    extension = some (record { packet = 60; core_id = 1 });
  });
  mm = record pool { number_of_allocations = 1 };
  calls =
      schedule 11 end_req 40
      ∷ transport_fw (numbered 1) 11 begin_req 20
      ∷ reset_delays 60
      ∷ acquire 11
      ∷ [];
}

pub scheduled_test : recv_timing_req load ends port ≡ ok (scheduled, true)
unfolding recv_timing_req get_socket_id socket_in is_blocked_port get_blocking_trans send_request
    packet2payload socket_for allocate init init_map insert Helper.new find
scheduled_test = refl
