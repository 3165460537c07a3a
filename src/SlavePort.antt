-- ===== src/SlavePort.antt =====
-- include/sc_slave_port.hh and src/sc_slave_port.cc: gem5 packets become TLM transactions. State
-- and payloads; the mapping of requestors to sockets; the timing request; the payload events; the
-- retry of responses; the blocking and debug transports. Then what is proved of them.
pub mod State
pub mod Sockets
pub mod Request
pub mod Event
pub mod Drain
pub mod Blocking
pub mod Payload
pub mod Extension
pub mod Mapping
pub mod Invariant
pub mod Exclusion
pub mod Retry
pub mod Draining
pub mod Single
pub mod Preservation
pub mod Reachable
pub mod Calls
pub mod Driven
pub mod DrivenTests
pub mod Refusals
pub mod Updated
pub mod Reopened
pub mod Retried
pub mod Stale
pub mod Resent
pub mod Runs
pub mod RetriedTests
pub mod Tests
