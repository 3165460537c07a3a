-- ===== src/Link/WireTests.antt =====
-- A run of the steps between a core's socket and its router.
use gem5_wrapper.SlavePort.Request.{request_socket}
use gem5_wrapper.Link.Connection.{at_first, bind_multi-Reach}
use gem5_wrapper.Link.Requested.{socket_named}
use gem5_wrapper.Prelude.{
  ap, ◌∙◌, arith, ℕ, ◌≤◌, ◌<◌, ◌≡◌, ◌⊎◌, refl, Option, none, some, [], ◌∷◌, ◌++◌,
}
use gem5_wrapper.Prelude.Map.{find}
use gem5_wrapper.Helper
use gem5_wrapper.Helper.{init, init_map}
use gem5_wrapper.Helper.Channels.{init-slot_free}
use gem5_wrapper.MemoryManager.{allocate}
use gem5_wrapper.SlavePort.State.{numbered}
use gem5_wrapper.SlavePort.Exclusion.{blocked_port, recv_timing_req_accepted}
use gem5_wrapper.SlavePort.Runs.{
  load, load_test, multi, payloads, pool, cores, port_test, port, port-Inv,
}
use gem5_wrapper.SlavePort.Tests.{load-IsSendable}
use gem5_wrapper.Router.{new}
use gem5_wrapper.Router.Order.{executed, in_work, waiting}
use gem5_wrapper.Link.{accepting}
use gem5_wrapper.Link.Wire.{Wire, with_port, IsSent, requested, IsOpen, Reach, later, sent_requests}
use gem5_wrapper.Link.Linked.{IsLinked}
use gem5_wrapper.Link.Conserved.{Reach-IsLinked}
use gem5_wrapper.Link.Ordered.{executes_in_order}
use gem5_wrapper.Link.Runs.{Served, requests_run}
use gem5_wrapper.Link.Drained.{IsQuiet, start, next, serves_all}

none_waits_test :
    (d t : ℕ) → find d port.helper.blocking_response_map ≡ some (some t) → d < multi.socket_num
none_waits_test d t e = absurd (none_some (init-slot_free 2 7 d (some t) Helper.response e))
  where
    none_some : {t : ℕ} → ◌≡◌ {A = Option ℕ} (some t) none → ⊥
    none_some x = cc

port-IsOpen : IsOpen 1 port
unfolding init Helper.new
port-IsOpen = record {
  inv = port-Inv;
  in_range = omega arith;
  multi = multi;
  is_bound = record { no_single = refl; multi = refl; in_range = none_waits_test };
  sockets = omega arith;
}

connected_test : Reach 1 0 65536 (at_first port 0 65536)
unfolding init Helper.new
connected_test =
    bind_multi-Reach payloads pool 7 cores multi 0 65536 1 port_test (omega arith) (omega arith)

-- gem5 loads.
abbrev trans : ℕ
trans = (allocate 11 port.mm).0

abbrev sent_wire : Wire
sent_wire =
    with_port (blocked_port load (accepting 11) load-IsSendable.payload load-IsSendable.target port)
      (trans ∷ []) [] (at_first port 0 65536)

load-IsSent : IsSent 1 load 11 port (new 0 65536) []
unfolding new
load-IsSent = record {
  is_request = load-IsSendable.is_request;
  at_socket = load_test;
  is_fresh = record { unused = load-IsSendable.unused; unserved = λ e. cc };
}

socket_test : load-IsSendable.target ≡ numbered 1
socket_test =
    socket_named (request_socket load port) port-IsOpen load-IsSendable.bound
    ∙ ap numbered load_test

sent_test : Reach 1 0 65536 sent_wire
sent_test = later connected_test (
    requested load 11 load-IsSent
      (recv_timing_req_accepted load (accepting 11) port port-Inv refl refl load-IsSendable)
      (record { begun = rw socket_test refl; ended = rw socket_test refl }))

Reach-IsLinked_example : IsLinked 1 0 65536 sent_wire
Reach-IsLinked_example = Reach-IsLinked sent_test

executes_in_order_example :
    sent_requests 1 sent_wire.port.calls
    ≡ executed sent_wire.router.calls
      ++ in_work sent_wire.router.done_pending sent_wire.router.transaction_in_progress
      ++ waiting sent_wire.router.end_req_pending
      ++ sent_wire.requests
executes_in_order_example = executes_in_order sent_test

-- The router serves the BEGIN_REQ.
served_test : Served 1 sent_wire
served_test = requests_run (Reach-IsLinked sent_test) trans [] refl

serves_all_example : (1 ≤ 11) × (Served 1 served_test.0 ⊎ IsQuiet 1 served_test.0)
serves_all_example = serves_all sent_test (next start served_test.1 served_test.2)
