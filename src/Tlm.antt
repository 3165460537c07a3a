-- ===== src/Tlm.antt =====
-- The enumerations of TLM-2.0 that the wrapper names, with the tests that it makes. `other` stands
-- for the values of the extensible `tlm_phase` that it does not name.
use gem5_wrapper.Prelude.{Bool, true, false}

pub data Phase : Type 0 where
  begin_req end_req begin_resp end_resp other : Phase

-- `tlm_sync_enum`
pub data Sync : Type 0 where
  accepted updated completed : Sync

pub data Command : Type 0 where
  read write ignore : Command

pub data ResponseStatus : Type 0 where
  ok_response incomplete_response address_error byte_enable_error burst_error : ResponseStatus

abbrev pub is_begin_req : Phase → Bool
is_begin_req begin_req = true
is_begin_req _ = false

abbrev pub is_end_req : Phase → Bool
is_end_req end_req = true
is_end_req _ = false

abbrev pub is_begin_resp : Phase → Bool
is_begin_resp begin_resp = true
is_begin_resp _ = false

abbrev pub is_end_resp : Phase → Bool
is_end_resp end_resp = true
is_end_resp _ = false
