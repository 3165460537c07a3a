-- ===== src/SlavePort/State.antt =====
-- The state of `SCSlavePort`, gem5's packets as it reads them, and payloads as it fills them. A
-- transaction and a packet are numbers (pointers), `none` a null pointer. The calls that leave the
-- port are written down in `calls`, newest first.
use Prim.Native.String.{String}
use gem5_wrapper.Prelude.{
  ℕ, Bool, false, Option, none, some, List, [], ◌∷◌, ltb, ◌==◌, if◌then◌else◌, Outcome, ok, stop,
  need, ◌>>=◌, sc_fatal, bad_access, assertion,
}
use gem5_wrapper.Prelude.Map.{Map}
use gem5_wrapper.Tlm.{Phase, Command, read, write}
use gem5_wrapper.Helper.{BlockingPacketHelper}
use gem5_wrapper.Helper
use gem5_wrapper.MemoryManager.{MemoryManager}

-- include/sc_ext.hh
pub record Gem5Extension : Type 0 where
  pub packet : ℕ
  pub core_id : ℕ

-- The attributes of a payload that the port writes.
pub record Payload : Type 0 where
  pub address : ℕ
  pub data_length : ℕ
  pub streaming_width : ℕ
  pub data_ptr : ℕ
  pub command : Command
  pub extension : Option Gem5Extension

-- A packet: its address in memory, and what the port reads of it. `has_cpu_cluster_id` and
-- `cpu_cluster_id` are one option.
pub record Packet : Type 0 where
  pub ptr : ℕ
  pub addr : ℕ
  pub size : ℕ
  pub data_ptr : ℕ
  pub is_read : Bool
  pub is_write : Bool
  pub is_invalidate : Bool
  pub is_swap : Bool
  pub cache_responding : Bool
  pub needs_response : Bool
  pub requestor_id : ℕ
  pub cpu_cluster_id : Option ℕ
  pub payload_delay : ℕ

-- A multi-socket transactor: the number of its sockets, and its map from sockets to core numbers.
pub record Multi : Type 0 where
  pub socket_num : ℕ
  pub socket_core_map : Map (List ℕ)

-- The socket that a call goes through: that of a single transactor, or one of several.
pub data Socket : Type 0 where
  single : Socket
  numbered : ℕ → Socket

pub data Call : Type 0 where
  acquire : ℕ → Call
  release : ℕ → Call
  make_response : ℕ → Call
  reset_delays : ℕ → Call
  transport_fw : Socket → ℕ → Phase → (delay : ℕ) → Call
  b_transport : Socket → ℕ → Call
  transport_dbg : Socket → ℕ → Call
  schedule : ℕ → Phase → (delay : ℕ) → Call  -- a new `PayloadEvent` and its `notify`
  send_retry_req : Call
  send_timing_resp : ℕ → Call

pub record ScSlavePort : Type 0 where
  pub blocking_request : Option ℕ
  pub need_to_send_request_retry : Bool
  pub blocking_response : Option ℕ
  pub using_gem5_cache : Bool
  pub transactor : Bool  -- whether it is bound
  pub transactor_multi : Option Multi
  pub helper : BlockingPacketHelper
  pub cpu_port_map : List (String × List ℕ)
  pub socket_map : Map (List ℕ)
  pub cpu_vec : List String
  pub payloads : ℕ → Payload
  pub mm : MemoryManager
  pub calls : List Call

-- The constructor. It leaves `transactor_multi` and the helper's `socket_num` without a value:
-- `garbage` is what the memory held. (A garbage pointer would stop the first use of it; here it
-- starts as null, the value that is kindest to the code.)
unfoldable pub new : (ℕ → Payload) → MemoryManager → ℕ → ScSlavePort
unfolding Helper.new
new payloads mm garbage = record {
  blocking_request = none;
  need_to_send_request_retry = false;
  blocking_response = none;
  using_gem5_cache = false;
  transactor = false;
  transactor_multi = none;
  helper = Helper.new garbage;
  cpu_port_map = [];
  socket_map = [];
  cpu_vec = [];
  payloads = payloads;
  mm = mm;
  calls = [];
}

abbrev pub emit : Call → ScSlavePort → ScSlavePort
emit c s = record s { calls = c ∷ s.calls }

abbrev pub update {ℓ} : {A : Type ℓ} → (ℕ → A) → ℕ → A → ℕ → A
update f k v q = if k == q then v else f q

-- The command that `packet2payload` sets; `old` is the one that the payload has.
abbrev pub command_for : Packet → Command → Outcome Command
command_for p old =
    if p.is_read
    then ok read
    else if p.is_invalidate
    then ok old
    else if p.is_write
    then ok write
    else stop sc_fatal

-- The payload keeps its extension.
unfoldable pub packet2payload : Packet → Payload → Outcome Payload
packet2payload p t = do
  command ← command_for p t.command
  ok (record t {
    address = p.addr;
    data_length = p.size;
    streaming_width = p.size;
    data_ptr = p.data_ptr;
    command = command;
  })

-- The choice between the two kinds of transactor, for the socket `id`.
unfoldable pub socket_for : ScSlavePort → ℕ → Outcome Socket
socket_for s id = if s.transactor then ok single else elim s.transactor_multi [
  | none ↦ stop sc_fatal
  | some m ↦ if ltb id m.socket_num then ok (numbered id) else stop bad_access
]

-- `Gem5Extension::getExtension`
unfoldable pub get_extension : ScSlavePort → ℕ → Outcome Gem5Extension
get_extension s trans = need (s.payloads trans).extension assertion
