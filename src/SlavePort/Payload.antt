-- ===== src/SlavePort/Payload.antt =====
-- src/sc_slave_port.cc, `packet2payload`: what a payload says of its packet.
use gem5_wrapper.Prelude.{◌≡◌, true, false, ◌||◌, arith, ok, if◌then◌else◌}
use gem5_wrapper.Tlm.{read, write}
use gem5_wrapper.SlavePort.State.{Packet, Payload, packet2payload}

-- A packet that reads, or that writes and does not invalidate, gives a payload with its address,
-- size and data and the command of the packet, whatever the payload held before; its extension is
-- kept.
pub packet2payload_lem :
    (p : Packet) (t : Payload)
    → (p.is_read || p.is_write) ≡ true
    → p.is_invalidate ≡ false
    → packet2payload p t
      ≡ ok (record {
        address = p.addr;
        data_length = p.size;
        streaming_width = p.size;
        data_ptr = p.data_ptr;
        command = if p.is_read then read else write;
        extension = t.extension;
      })
unfolding packet2payload
packet2payload_lem p t k i = ground arith

-- A packet that writes and invalidates and does not read is converted without a command: the
-- payload keeps the one that it had, and so an old read command of a payload that is used again.
pub packet2payload-stale :
    (p : Packet) (t u : Payload)
    → p.is_read ≡ false
    → p.is_write ≡ true
    → p.is_invalidate ≡ true
    → packet2payload p t ≡ ok u
    → u.command ≡ t.command
unfolding packet2payload
packet2payload-stale p t u r w i e = ground arith
