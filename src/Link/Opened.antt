-- ===== src/Link/Opened.antt =====
-- src/sc_slave_port.cc: the ports that a step leads to are open, and what blocks them.
use gem5_wrapper.Prelude.{ℕ, ◌≡◌, Bool, false, none, some, arith}
use gem5_wrapper.Prelude.Map.{find-assign}
use gem5_wrapper.Helper.{response}
use gem5_wrapper.Helper.Channels.{slot}
use gem5_wrapper.Helper.Search.{with_retry}
use gem5_wrapper.SlavePort.State.{ScSlavePort, socket_for}
use gem5_wrapper.SlavePort.Event.{Answer}
use gem5_wrapper.SlavePort.Invariant.{core_of, updated-IsCoreHelper, updated-IsOwned}
use gem5_wrapper.SlavePort.Preservation.{with_retry-Inv, with_calls-Inv}
use gem5_wrapper.SlavePort.Retry.{freed, retrying}
use gem5_wrapper.SlavePort.Reachable.{freed-Inv}
use gem5_wrapper.Link.Wire.{IsOpen, request_slot, response_slot}
use gem5_wrapper.Link.Ended.{refused_port, responded_port}

-- The ports that the steps lead to are open.
pub with_retry-IsOpen :
    {c : ℕ} {s : ScSlavePort} (b : Bool)
    → IsOpen c s
    → IsOpen c (record s { helper = with_retry c b s.helper })
unfolding socket_for
with_retry-IsOpen {c} b o = record {
  inv = with_retry-Inv c b o.inv;
  in_range = o.in_range;
  multi = o.multi;
  is_bound = record {
    no_single = o.is_bound.no_single;
    multi = o.is_bound.multi;
    in_range = o.is_bound.in_range;
  };
  sockets = o.sockets;
}

pub freed-IsOpen : {c : ℕ} {s : ScSlavePort} → IsOpen c s → IsOpen c (freed c s)
unfolding socket_for
freed-IsOpen {c} o = record {
  inv = freed-Inv c o.inv;
  in_range = o.in_range;
  multi = o.multi;
  is_bound = record {
    no_single = o.is_bound.no_single;
    multi = o.is_bound.multi;
    in_range = o.is_bound.in_range;
  };
  sockets = o.sockets;
}

pub retrying-IsOpen : {c : ℕ} {s : ScSlavePort} → IsOpen c s → IsOpen c (retrying c s)
unfolding socket_for
retrying-IsOpen {c} o = record {
  inv = with_calls-Inv _ (with_retry-Inv c false (freed-Inv c o.inv));
  in_range = o.in_range;
  multi = o.multi;
  is_bound = record {
    no_single = o.is_bound.no_single;
    multi = o.is_bound.multi;
    in_range = o.is_bound.in_range;
  };
  sockets = o.sockets;
}

pub responded_port-IsOpen :
    {c : ℕ} {s : ScSlavePort} (t pkt : ℕ) (e : Answer)
    → IsOpen c s
    → IsOpen c (responded_port t c pkt e s)
unfolding socket_for
responded_port-IsOpen t pkt e o = record {
  inv = with_calls-Inv _ o.inv;
  in_range = o.in_range;
  multi = o.multi;
  is_bound = record {
    no_single = o.is_bound.no_single;
    multi = o.is_bound.multi;
    in_range = o.is_bound.in_range;
  };
  sockets = o.sockets;
}

pub refused_port-IsOpen :
    {c : ℕ} {s : ScSlavePort} (t pkt : ℕ) (e : Answer)
    → IsOpen c s
    → core_of (s.payloads t).extension ≡ some c
    → IsOpen c (refused_port t c pkt e s)
unfolding socket_for
refused_port-IsOpen {c} {s} t pkt e o own = record {
  inv = record {
    core_helper = updated-IsCoreHelper c (some t) response o.inv.core_helper;
    no_cache = o.inv.no_cache;
    no_request = o.inv.no_request;
    no_response = o.inv.no_response;
    no_retry = o.inv.no_retry;
    owned =
        updated-IsOwned s.helper s.payloads c (some t) response (λ u h. ground (arith, own, h))
          o.inv.owned;
  };
  in_range = o.in_range;
  multi = o.multi;
  is_bound = record {
    no_single = o.is_bound.no_single;
    multi = o.is_bound.multi;
    in_range = λ d u h. ground (
      arith,
      o.is_bound.in_range d u,
      o.in_range,
      o.sockets,
      find-assign c d (some t) s.helper.blocking_response_map,
    );
  };
  sockets = o.sockets;
}

pub refused_port-blocks :
    {c : ℕ} {s : ScSlavePort} (t pkt : ℕ) (e : Answer)
    → IsOpen c s
    → response_slot c (refused_port t c pkt e s) ≡ some t
refused_port-blocks {c} {s} t pkt e o =
    let (old, there) = slot response c o.inv.core_helper.ready (omega (arith, o.in_range)) in
    ground (arith, there, find-assign c c (some t) s.helper.blocking_response_map)

pub freed-slot : (c : ℕ) (s : ScSlavePort) → request_slot c (freed c s) ≡ none
freed-slot c s = ground (arith, find-assign c c none s.helper.blocking_request_map)
