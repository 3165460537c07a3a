-- ===== src/Helper/Channels.antt =====
-- blocking_packet_helper.cc as a pair of channels for each socket: the helper that `init` has set
-- up is a function from sockets to the transactions that block them, and each update changes that
-- function at one socket.
use gem5_wrapper.Prelude.{
  ℕ, suc, ◌+◌, ◌≤◌, ◌<◌, ◌≡◌, refl, Bool, true, false, ◌&&◌, Option, none, some, [], arith, range,
  ltb, ◌==◌, if◌then◌else◌, ok, lt→ltb, Outcome, ◌>>=◌, is_some,
}
use gem5_wrapper.Prelude.Map.{find, keys, find-range, find-assign, keys-assign}
use native.Mathlib.Nat.{zero-add}
use gem5_wrapper.Helper.Slots.{init_map-AllAre, find-AllAre, keys-init_map}
use gem5_wrapper.Helper.{
  PktType, request, response, BlockingPacketHelper, new, init, init_map, slots, updated,
  update_blocking_map, get_blocking_trans, need_to_send_request_retry, is_blocked_port,
  system_port_flag,
}

-- One slot for each of the sockets 0, ..., socket_num in each of the three maps.
pub record IsReady (h : BlockingPacketHelper) : Type 0 where
  pub request_slots : keys h.blocking_request_map ≡ range 0 (suc h.socket_num)
  pub response_slots : keys h.blocking_response_map ≡ range 0 (suc h.socket_num)
  pub retry_slots : keys h.need_to_send_request_retry_map ≡ range 0 (suc h.socket_num)

pub slots-IsReady :
    {h : BlockingPacketHelper} (type : PktType)
    → IsReady h
    → keys (slots type h) ≡ range 0 (suc h.socket_num)
slots-IsReady request r = r.request_slots
slots-IsReady response r = r.response_slots

filled {ℓ} : {V : Type ℓ} (num : ℕ) (v : V) → keys (init_map v 0 (suc num) []) ≡ range 0 (suc num)
filled {V} num v =
    let all : keys (init_map v 0 (suc num) []) ≡ range 0 (0 + suc num) =
      keys-init_map v 0 (suc num) [] refl in
    rw zero-add at all

pub init-IsReady : (num garbage : ℕ) → IsReady (init num (new garbage))
unfolding init new
init-IsReady num garbage = record {
  request_slots = filled num none;
  response_slots = filled num none;
  retry_slots = filled num false;
}

-- The entry of a socket in a helper that is ready.
pub slot :
    {h : BlockingPacketHelper} (type : PktType) (c : ℕ)
    → IsReady h
    → c ≤ h.socket_num
    → (t : Option ℕ) × (find c (slots type h) ≡ some t)
slot {h} type c r b =
    find-range 0 (suc h.socket_num) c (slots type h) (slots-IsReady type r) (omega arith)
      (omega arith)

-- Two values of `pktType`.
abbrev pub same_type : PktType → PktType → Bool
same_type request request = true
same_type response response = true
same_type _ _ = false

pub init-slot_free :
    (num garbage c : ℕ) (t : Option ℕ) (type : PktType)
    → find c (slots type (init num (new garbage))) ≡ some t
    → t ≡ none
unfolding init new
init-slot_free num garbage c t request e =
    find-AllAre none t c _ (init_map-AllAre none 0 (suc num) [] tt) e
init-slot_free num garbage c t response e =
    find-AllAre none t c _ (init_map-AllAre none 0 (suc num) [] tt) e

-- A helper is set up by `init`: it is ready, and no socket is blocked or owes a retry.
pub init-free :
    (num garbage c : ℕ) (type : PktType)
    → c < num
    → (get_blocking_trans c type (init num (new garbage)) ≡ ok none)
      × (need_to_send_request_retry c (init num (new garbage)) ≡ ok false)
unfolding get_blocking_trans need_to_send_request_retry init new
init-free num garbage c type b =
    let r = init-IsReady num garbage in
    let (t, found) = slot type c r (omega arith) in
    let (s, owed) = find-range 0 (suc num) c _ r.retry_slots (omega arith) (omega arith) in
    ground (
      arith,
      found,
      owed,
      init-slot_free num garbage c t type found,
      find-AllAre false s c _ (init_map-AllAre false 0 (suc num) [] tt),
    )

-- An update at a socket that has a slot succeeds.
pub update_lem :
    {h : BlockingPacketHelper} (c : ℕ) (t : Option ℕ) (type : PktType)
    → IsReady h
    → c ≤ h.socket_num
    → update_blocking_map c t type h ≡ ok (updated c t type h)
unfolding update_blocking_map
update_lem {h} c t type r b = let (old, e) = slot type c r b in rw e (ground arith)

pub updated-IsReady :
    {h : BlockingPacketHelper} (c : ℕ) (t : Option ℕ) (type : PktType)
    → IsReady h
    → IsReady (updated c t type h)
updated-IsReady {h} c t request r = ground (arith, keys-assign c t h.blocking_request_map)
updated-IsReady {h} c t response r = ground (arith, keys-assign c t h.blocking_response_map)

pub get_blocking_trans-update :
    (h h' : BlockingPacketHelper) (c q : ℕ) (t : Option ℕ) (type type' : PktType)
    → update_blocking_map c t type h ≡ ok h'
    → get_blocking_trans q type' h' ≡ (
        if c == q && same_type type type' && ltb q h.socket_num
        then ok t
        else get_blocking_trans q type' h)
unfolding update_blocking_map get_blocking_trans
get_blocking_trans-update h h' c q t request request e =
    ground (arith, find-assign c q t h.blocking_request_map)
get_blocking_trans-update h h' c q t response response e =
    ground (arith, find-assign c q t h.blocking_response_map)
get_blocking_trans-update h h' c q t request response e = ground arith
get_blocking_trans-update h h' c q t response request e = ground arith

-- What is read of a channel after an update of one.
abbrev pub reads : ℕ → Option ℕ → PktType → BlockingPacketHelper → ℕ → PktType → Outcome (Option ℕ)
reads c t type h q type' =
    if c == q && same_type type type' then ok t else get_blocking_trans q type' h

-- An update at a socket of the helper, in a helper that has a slot for each socket, succeeds and
-- keeps these slots. At that socket of that channel the new transaction is read, and at all others
-- what was read before; no owed retry changes. A port counts as blocked if something is read at it,
-- or if the system port is blocked, which an update changes only at socket 0 where gem5's cache is
-- used: there it is blocked if the update blocks it.
pub update-refines :
    (h : BlockingPacketHelper) (c : ℕ) (t : Option ℕ) (type : PktType)
    → IsReady h
    → c ≤ h.socket_num
    → (h' : BlockingPacketHelper) × (update_blocking_map c t type h ≡ ok h')
      × IsReady h'
      × ((q : ℕ) (type' : PktType)
          → q < h.socket_num
          → get_blocking_trans q type' h' ≡ reads c t type h q type')
      × ((q : ℕ) → need_to_send_request_retry q h' ≡ need_to_send_request_retry q h)
      × ((q : ℕ) (type' : PktType)
          → q < h.socket_num
          → is_blocked_port q type' h' ≡ (
              if (if c == 0 && h.using_gem5_cache then is_some t else h.is_system_port_blocked)
              then ok true
              else (reads c t type h q type' >>= λ r. ok (is_some r))))
unfolding is_blocked_port system_port_flag need_to_send_request_retry
update-refines h c t type r b =
    let e = update_lem c t type r b in
    let read : (q : ℕ) (type' : PktType)
        → q < h.socket_num
        → get_blocking_trans q type' (updated c t type h) ≡ reads c t type h q type' =
      λ q type' l.
        rw
          (
            get_blocking_trans-update h (updated c t type h) c q t type type' e,
            lt→ltb q h.socket_num l,
          )
          (ground arith) in
    (
      updated c t type h,
      e,
      updated-IsReady c t type r,
      read,
      λ q. owed q type,
      λ q type' l. rw (read q type' l) (flag type q type'),
    )
  where
    owed :
        (q : ℕ) (type : PktType)
        → need_to_send_request_retry q (updated c t type h) ≡ need_to_send_request_retry q h
    owed q request = refl
    owed q response = refl

    flag :
        (type : PktType) (q : ℕ) (type' : PktType)
        → (if (updated c t type h).is_system_port_blocked
            then ok true
            else (reads c t type h q type' >>= λ r. ok (is_some r)))
          ≡ (if (if c == 0 && h.using_gem5_cache then is_some t else h.is_system_port_blocked)
              then ok true
              else (reads c t type h q type' >>= λ r. ok (is_some r)))
    flag request q type' = refl
    flag response q type' = refl
