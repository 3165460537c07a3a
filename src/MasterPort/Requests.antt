-- ===== src/MasterPort/Requests.antt =====
-- src/sc_master_port.cc, the request path: BEGIN_REQ becomes a timing request to gem5, and END_REQ
-- goes back when gem5 has taken it, at once or after a retry.
use gem5_wrapper.Prelude.{
  ℕ, ◌≤◌, ◌<◌, ◌≡◌, ◌≢◌, ◌⊎◌, ◌||◌, if◌then◌else◌, Bool, true, false, not, Option, none, some, [],
  ◌∷◌, arith, is_some, ok, stop, assertion, ◌++◌, List, sc_fatal,
}
use gem5_wrapper.Tlm.{
  Phase, end_req, Sync, accepted, completed, Command, read, write, ignore, byte_enable_error,
  burst_error,
}
use gem5_wrapper.MasterPort.{
  read_req, write_req, Payload, Call, acquire, release, peq_notify, set_response_status, new_packet,
  push_sender_state, send_timing_req, transport_bw, ScMasterPort, nb_transport_fw, handle_begin_req,
  recv_req_retry,
}
use gem5_wrapper.MasterPort.Consistency.{IsWaiting}

-- The calls that make a packet for a transaction, if its extension does not carry one.
abbrev packet_calls : Option ℕ → ℕ → Command → Payload → List Call
packet_calls (some pkt) fresh c p = []
packet_calls none fresh read p = new_packet fresh read_req p.address p.data_length p.data_ptr ∷ []
packet_calls none fresh write p = new_packet fresh write_req p.address p.data_length p.data_ptr ∷ []
packet_calls none fresh ignore p = []

abbrev packet_of : Option ℕ → ℕ → ℕ
packet_of (some pkt) fresh = pkt
packet_of none fresh = fresh

abbrev is_ignore : Command → Bool
is_ignore ignore = true
is_ignore _ = false

-- A transaction with an extension, or with a read or write command, has a packet.
abbrev pub HasPacket : Payload → Type 0
HasPacket p = (is_some p.packet || not (is_ignore p.command)) ≡ true

-- BEGIN_REQ at a port that waits for nothing. The packet that the transaction carries, or a new one
-- with its command, address, length and data, goes to gem5 with the transaction as its sender state.
-- If gem5 takes it, END_REQ is sent at once and the reference given back; if not, the port keeps
-- both and sends no END_REQ. Nothing else changes.
pub handle_begin_req_lem :
    (t : ℕ) (p : Payload) (fresh : ℕ) (sent : Bool) (s : ScMasterPort)
    → IsWaiting s
    → s.wait_for_retry ≡ false
    → HasPacket p
    → let pkt = packet_of p.packet fresh in
      let asked : List Call =
        send_timing_req pkt ∷ push_sender_state pkt t ∷ packet_calls p.packet fresh p.command p
        ++ acquire t ∷ s.calls in
      handle_begin_req t p fresh sent accepted s
      ≡ ok (record s {
        wait_for_retry = not sent;
        pending_request = if sent then none else some t;
        pending_packet = if sent then none else some pkt;
        calls = if sent then release t ∷ transport_bw t end_req 0 ∷ asked else asked;
      })
unfolding handle_begin_req
handle_begin_req_lem t p fresh sent s w f h = ground arith

-- A transaction with no packet and a command that is neither read nor write stops the simulation.
pub handle_begin_req-ignore :
    (t : ℕ) (p : Payload) (fresh : ℕ) (sent : Bool) (a : Sync) (s : ScMasterPort)
    → IsWaiting s
    → s.wait_for_retry ≡ false
    → p.packet ≡ none
    → p.command ≡ ignore
    → handle_begin_req t p fresh sent a s ≡ stop sc_fatal
unfolding handle_begin_req
handle_begin_req-ignore t p fresh sent a s w f n i = ground arith

-- gem5's retry. The same packet is sent again; if it is taken, END_REQ goes out for the request that
-- waited, its reference is given back and the port waits no more; if not, all stays as it was.
pub recv_req_retry_lem :
    (t pkt : ℕ) (sent : Bool) (s : ScMasterPort)
    → IsWaiting s
    → s.pending_request ≡ some t
    → s.pending_packet ≡ some pkt
    → recv_req_retry sent accepted s
      ≡ ok (record s {
        wait_for_retry = not sent;
        pending_request = if sent then none else some t;
        pending_packet = if sent then none else some pkt;
        calls =
            if sent
            then release t ∷ transport_bw t end_req 0 ∷ send_timing_req pkt ∷ s.calls
            else send_timing_req pkt ∷ s.calls;
      })
unfolding recv_req_retry
recv_req_retry_lem t pkt sent s w r k = ground arith

-- A second BEGIN_REQ while a request waits for gem5's retry fails an assertion.
pub handle_begin_req-waiting :
    (t : ℕ) (p : Payload) (fresh : ℕ) (sent : Bool) (a : Sync) (s : ScMasterPort)
    → s.wait_for_retry ≡ true
    → handle_begin_req t p fresh sent a s ≡ stop assertion
unfolding handle_begin_req
handle_begin_req-waiting t p fresh sent a s w = ground arith

-- The checks at the door. A transaction with byte enables, or whose streaming width is below its
-- length, is completed with the error response of that fault and is not queued; any other is held
-- and queued with its phase.
pub nb_transport_fw_cases :
    (t : ℕ) (p : Payload) (phase : Phase) (s : ScMasterPort)
    → ((p.byte_enable_ptr ≢ none)
        × (nb_transport_fw t p phase s
            ≡ (record s { calls = set_response_status t byte_enable_error ∷ s.calls }, completed)))
      ⊎ ((p.byte_enable_ptr ≡ none)
          × (p.streaming_width < p.data_length)
          × (nb_transport_fw t p phase s
              ≡ (record s { calls = set_response_status t burst_error ∷ s.calls }, completed)))
      ⊎ ((p.byte_enable_ptr ≡ none)
          × (p.data_length ≤ p.streaming_width)
          × (nb_transport_fw t p phase s
              ≡ (record s { calls = peq_notify t phase ∷ acquire t ∷ s.calls }, accepted)))
unfolding nb_transport_fw
nb_transport_fw_cases t p phase s = ground arith
