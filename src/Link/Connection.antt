-- ===== src/Link/Connection.antt =====
-- src/sc_slave_port.cc, `bindToTransactor`, and include/txn_router.h: a port that was bound and a new
-- router behind one of its sockets.
use gem5_wrapper.Prelude.{
  ℕ, ◌≤◌, ◌<◌, ◌≡◌, refl, sym, Option, none, some, [], arith, ok, ap, ◌∙◌, false,
}
use gem5_wrapper.Prelude.Map.{find}
use gem5_wrapper.Helper
use gem5_wrapper.Helper.{PktType, request, response, init, set_using_gem5_cache, slots}
use gem5_wrapper.Helper.Channels.{init-slot_free}
use gem5_wrapper.MemoryManager.{MemoryManager}
use gem5_wrapper.SlavePort.State.{Payload, Multi, ScSlavePort, new}
use gem5_wrapper.SlavePort.Sockets.{update_core_port_map, bind_multi}
use gem5_wrapper.SlavePort.Mapping.{Cores, bind_multi-Inv}
use gem5_wrapper.Link.Wire.{held, response_slot, Wire, Reach, connected}
use gem5_wrapper.Router

-- What the binding leaves in the fields that the rest reads.
record IsNew (garbage : ℕ) (m : Multi) (s : ScSlavePort) : Type 0 where
  helper : s.helper ≡ init s.helper.socket_num (Helper.new garbage)
  no_single : s.transactor ≡ false
  multi : s.transactor_multi ≡ some m
  no_calls : s.calls ≡ []

bind_multi-IsNew :
    (payloads : ℕ → Payload) (mm : MemoryManager) (garbage : ℕ) (cores : Cores) (m : Multi)
    {s : ScSlavePort}
    → bind_multi m (update_core_port_map cores (new payloads mm garbage)) ≡ ok s
    → IsNew garbage m s
unfolding bind_multi update_core_port_map new set_using_gem5_cache Helper.new init
bind_multi-IsNew payloads mm garbage cores m {s} e = record {
  helper = ground (arith, e);
  no_single = ground (arith, e);
  multi = ground (arith, e);
  no_calls = ground (arith, e);
}

slot_of_new :
    (type : PktType) (num garbage c : ℕ)
    → held (find c (slots type (init num (Helper.new garbage)))) ≡ none
slot_of_new type num garbage c =
    free (find c (slots type (init num (Helper.new garbage))))
      (λ t e. init-slot_free num garbage c t type e)
  where
    free : (o : Option (Option ℕ)) → ((t : Option ℕ) → o ≡ some t → t ≡ none) → held o ≡ none
    free none h = refl
    free (some t) h = h t refl

-- A router that is new and a port where nothing is under way.
abbrev pub at_first : ScSlavePort → (start size : ℕ) → Wire
at_first s start size = record {
  port = s;
  router = Router.new start size;
  requests = [];
  accepts = [];
  responses = [];
  ends = [];
}

-- A new port that was bound, in any configuration, to a transactor with a socket for each socket of
-- the helper, and a new router behind one of the sockets: gem5 may begin.
pub bind_multi-Reach :
    (payloads : ℕ → Payload) (mm : MemoryManager) (garbage : ℕ) (cores : Cores) (m : Multi)
    (start size c : ℕ) {s : ScSlavePort}
    → bind_multi m (update_core_port_map cores (new payloads mm garbage)) ≡ ok s
    → s.helper.socket_num ≤ m.socket_num
    → c < s.helper.socket_num
    → Reach c start size (at_first s start size)
bind_multi-Reach payloads mm garbage cores m start size c {s} e l below =
    let x = bind_multi-IsNew payloads mm garbage cores m e in
    let num = s.helper.socket_num in
    let free : (d : ℕ) → response_slot d s ≡ none = λ d.
      ap (λ (h : Helper.BlockingPacketHelper). held (find d h.blocking_response_map)) x.helper
      ∙ slot_of_new response num garbage d in
    connected s x.no_calls
      (record {
        inv = bind_multi-Inv payloads mm garbage cores m e;
        in_range = below;
        multi = m;
        is_bound = record {
          no_single = x.no_single;
          multi = x.multi;
          in_range = λ d t blocks. absurd (none_some (sym (free d) ∙ ap held blocks));
        };
        sockets = l;
      })
      (ap (λ (h : Helper.BlockingPacketHelper). held (find c h.blocking_request_map)) x.helper
        ∙ slot_of_new request num garbage c)
      (free c)
  where
    none_some : {t : ℕ} → ◌≡◌ {A = Option ℕ} none (some t) → ⊥
    none_some x = cc
