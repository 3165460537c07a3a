-- ===== src/Helper/Search.antt =====
-- blocking_packet_helper.cc: the retry flags, the searches over all sockets, and the last socket.
use gem5_wrapper.Prelude.{
  ℕ, suc, ◌≤◌, ◌<◌, ◌≡◌, ◌↔◌, Bool, true, false, Option, none, some, arith, ◌==◌, if◌then◌else◌, ok,
  stop, assertion,
}
use gem5_wrapper.Prelude.Map.{find, find-range}
use gem5_wrapper.Helper.Slots.{
  keys-write_retry, find-write_retry, holds_of_find, find_of_holds, first_blocked-eq-some,
}
use gem5_wrapper.Helper.Channels.{IsReady, update_lem}
use gem5_wrapper.Helper.{
  PktType, BlockingPacketHelper, updated, update_blocking_map, get_blocking_trans, is_blocked_port,
  is_blocking_trans, write_retry, need_to_send_request_retry, update_retry_map,
  get_blocking_response,
}

-- The write of `updateRetryMap`.
abbrev pub with_retry : ℕ → Bool → BlockingPacketHelper → BlockingPacketHelper
with_retry c s h = record h {
  need_to_send_request_retry_map = write_retry c s h.need_to_send_request_retry_map;
}

pub update_retry_map_lem :
    (h : BlockingPacketHelper) (c : ℕ) (s : Bool)
    → c < h.socket_num
    → update_retry_map c s h ≡ ok (with_retry c s h)
unfolding update_retry_map
update_retry_map_lem h c s b = ground arith

pub with_retry-IsReady :
    {h : BlockingPacketHelper} (c : ℕ) (s : Bool) → IsReady h → IsReady (with_retry c s h)
with_retry-IsReady {h} c s r = ground (arith, keys-write_retry c s h.need_to_send_request_retry_map)

-- A socket of the helper has a retry flag. To write it succeeds, keeps the helper ready, and
-- changes the flag of that socket alone.
pub update_retry_map-refines :
    (h : BlockingPacketHelper) (c : ℕ) (s : Bool)
    → IsReady h
    → c < h.socket_num
    → (h' : BlockingPacketHelper) × (update_retry_map c s h ≡ ok h')
      × IsReady h'
      × ((q : ℕ)
          → q < h.socket_num
          → need_to_send_request_retry q h'
            ≡ (if c == q then ok s else need_to_send_request_retry q h))
unfolding need_to_send_request_retry
update_retry_map-refines h c s r b = (
  with_retry c s h,
  update_retry_map_lem h c s b,
  with_retry-IsReady c s r,
  λ q l.
      let (old, e) =
        find-range 0 (suc h.socket_num) q h.need_to_send_request_retry_map r.retry_slots
          (omega arith) (omega arith) in
      ground (arith, e, find-write_retry c q s h.need_to_send_request_retry_map e),
)

-- A transaction is found to block a request channel exactly if it stands in the request slot of
-- one of the sockets 0, ..., socket_num. The type that is asked for makes no difference.
pub is_blocking_trans_iff :
    (h : BlockingPacketHelper) (t : ℕ) (type : PktType)
    → IsReady h
    → (is_blocking_trans (some t) type h ≡ true)
      ↔ ((c : ℕ) × (c ≤ h.socket_num) × (find c h.blocking_request_map ≡ some (some t)))
unfolding is_blocking_trans
is_blocking_trans_iff h t type r = (
  λ e.
      let (c, above, below, found) =
        find_of_holds 0 (suc h.socket_num) t h.blocking_request_map r.request_slots e in
      (c, omega arith, found),
  λ s. holds_of_find t s.0 h.blocking_request_map s.2,
)

-- `getBlockingResponse` returns the blocked response of the lowest socket that has one.
pub get_blocking_response_lowest :
    (h : BlockingPacketHelper) (t : ℕ)
    → IsReady h
    → get_blocking_response h ≡ some t
    → (c : ℕ) × (c ≤ h.socket_num)
      × (find c h.blocking_response_map ≡ some (some t))
      × ((q : ℕ) → q < c → find q h.blocking_response_map ≡ some none)
unfolding get_blocking_response
get_blocking_response_lowest h t r e =
    let (c, above, below, found, lower) =
      first_blocked-eq-some 0 (suc h.socket_num) t h.blocking_response_map r.response_slots e in
    (c, omega arith, found, λ q l. lower q (omega arith) l)

-- `init` makes a slot for socket `socket_num` and `updateBlockingMap` writes it, but the reads
-- assert an id below `socket_num`: what is written there stops every later read of that socket.
pub last_socket_unreadable :
    (h : BlockingPacketHelper) (t : Option ℕ) (type : PktType)
    → IsReady h
    → h.is_system_port_blocked ≡ false
    → (update_blocking_map h.socket_num t type h ≡ ok (updated h.socket_num t type h))
      × (get_blocking_trans h.socket_num type h ≡ stop assertion)
      × (is_blocked_port h.socket_num type h ≡ stop assertion)
      × (need_to_send_request_retry h.socket_num h ≡ stop assertion)
      × ((s : Bool) → update_retry_map h.socket_num s h ≡ stop assertion)
unfolding get_blocking_trans is_blocked_port need_to_send_request_retry update_retry_map
last_socket_unreadable h t type r e = (
  update_lem h.socket_num t type r (omega arith),
  ground arith,
  ground arith,
  ground arith,
  λ s. ground arith,
)
