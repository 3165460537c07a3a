-- ===== src/Helper.antt =====
-- include/blocking_packet_helper.hh and src/blocking_packet_helper.cc: which transaction blocks the
-- request and the response channel of each socket, and which sockets owe gem5 a retry. A pointer to
-- a transaction is a number, or `none` where it is null.
pub mod Slots
pub mod Channels
pub mod Search
pub mod Tests
use gem5_wrapper.Prelude.{
  ℕ, zero, suc, ◌+◌, ◌≡◌, Bool, true, false, ◌&&◌, Option, none, some, [], ◌∷◌, leb, ltb, ◌==◌,
  if◌then◌else◌, is_some, same, Outcome, ok, check, need, ◌>>=◌, ◌>>◌, assertion, sc_fatal,
}
use gem5_wrapper.Prelude.Map.{Map, find, assign, insert}

pub data PktType : Type 0 where
  request response : PktType

-- `blockingRequest` and `needToSendRequestRetry_` of the class are never read or written.
pub record BlockingPacketHelper : Type 0 where
  pub socket_num : ℕ
  pub blocking_request_map : Map (Option ℕ)
  pub blocking_response_map : Map (Option ℕ)
  pub need_to_send_request_retry_map : Map Bool
  pub is_system_port_blocked : Bool
  pub using_gem5_cache : Bool

-- The constructor leaves `socket_num` without a value: it is whatever the memory held.
unfoldable pub new : ℕ → BlockingPacketHelper
new garbage = record {
  socket_num = garbage;
  blocking_request_map = [];
  blocking_response_map = [];
  need_to_send_request_retry_map = [];
  is_system_port_blocked = false;
  using_gem5_cache = false;
}

unfoldable pub set_using_gem5_cache : Bool → BlockingPacketHelper → BlockingPacketHelper
set_using_gem5_cache state h = record h { using_gem5_cache = state }

-- The loop of `init` with `rounds` rounds left, over one of the three maps.
unfoldable pub init_map {ℓ} : {V : Type ℓ} → V → ℕ → ℕ → Map V → Map V
init_map v i zero m = m
init_map v i (suc rounds) m = init_map v (i + 1) rounds (insert i v m)

-- The loop runs over 0, ..., `num`, which is `num + 1` rounds.
unfoldable pub init : ℕ → BlockingPacketHelper → BlockingPacketHelper
init num h = record h {
  socket_num = num;
  blocking_request_map = init_map none 0 (suc num) h.blocking_request_map;
  blocking_response_map = init_map none 0 (suc num) h.blocking_response_map;
  need_to_send_request_retry_map = init_map false 0 (suc num) h.need_to_send_request_retry_map;
}

-- The map that the `switch (type)` chooses.
abbrev pub slots : PktType → BlockingPacketHelper → Map (Option ℕ)
slots request h = h.blocking_request_map
slots response h = h.blocking_response_map

abbrev pub with_slots : PktType → Map (Option ℕ) → BlockingPacketHelper → BlockingPacketHelper
with_slots request m h = record h { blocking_request_map = m }
with_slots response m h = record h { blocking_response_map = m }

-- The system port's flag after the test at the top of `updateBlockingMap`.
unfoldable pub system_port_flag : ℕ → Option ℕ → BlockingPacketHelper → Bool
system_port_flag core_id trans h =
    if core_id == 0 && h.using_gem5_cache then is_some trans else h.is_system_port_blocked

-- The two writes of `updateBlockingMap`.
abbrev pub updated : ℕ → Option ℕ → PktType → BlockingPacketHelper → BlockingPacketHelper
updated core_id trans type h =
    with_slots type (assign core_id trans (slots type h))
      (record h { is_system_port_blocked = system_port_flag core_id trans h })

unfoldable pub update_blocking_map :
    ℕ → Option ℕ → PktType → BlockingPacketHelper → Outcome BlockingPacketHelper
update_blocking_map core_id trans type h = do
  check (leb core_id h.socket_num) assertion
  old ← need (find core_id (slots type h)) sc_fatal
  ok (updated core_id trans type h)

unfoldable pub get_blocking_trans : ℕ → PktType → BlockingPacketHelper → Outcome (Option ℕ)
get_blocking_trans core_id type h = do
  check (ltb core_id h.socket_num) assertion
  need (find core_id (slots type h)) sc_fatal

unfoldable pub is_blocked_port : ℕ → PktType → BlockingPacketHelper → Outcome Bool
is_blocked_port core_id type h =
    if h.is_system_port_blocked
    then ok true
    else (get_blocking_trans core_id type h >>= λ trans. ok (is_some trans))

-- The loop of `isBlockingTrans`.
unfoldable pub holds : Option ℕ → Map (Option ℕ) → Bool
holds trans [] = false
holds trans ((k, t) ∷ m) = if same t trans then true else holds trans m

-- The type is not read: the request map is searched for both.
unfoldable pub is_blocking_trans : Option ℕ → PktType → BlockingPacketHelper → Bool
unfolding holds
is_blocking_trans none type h = false
is_blocking_trans (some t) type h = holds (some t) h.blocking_request_map

unfoldable pub need_to_send_request_retry : ℕ → BlockingPacketHelper → Outcome Bool
need_to_send_request_retry core_id h = do
  check (ltb core_id h.socket_num) assertion
  need (find core_id h.need_to_send_request_retry_map) sc_fatal

-- The loop of `updateRetryMap`: it goes on after the entry that it writes.
unfoldable pub write_retry : ℕ → Bool → Map Bool → Map Bool
write_retry core_id state [] = []
write_retry core_id state ((k, b) ∷ m) =
    (k, if k == core_id then state else b) ∷ write_retry core_id state m

unfoldable pub update_retry_map : ℕ → Bool → BlockingPacketHelper → Outcome BlockingPacketHelper
unfolding write_retry
update_retry_map core_id state h = do
  check (ltb core_id h.socket_num) assertion
  ok (record h {
    need_to_send_request_retry_map = write_retry core_id state h.need_to_send_request_retry_map;
  })

-- The loop of `getBlockingResponse`.
unfoldable pub first_blocked : Map (Option ℕ) → Option ℕ
first_blocked [] = none
first_blocked ((k, none) ∷ m) = first_blocked m
first_blocked ((k, some t) ∷ m) = some t

unfoldable pub get_blocking_response : BlockingPacketHelper → Option ℕ
unfolding first_blocked
get_blocking_response h = first_blocked h.blocking_response_map
