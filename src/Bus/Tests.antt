-- ===== src/Bus/Tests.antt =====
-- Runs of the bus, and the theorems about it at concrete inputs.
use gem5_wrapper.Prelude.{◌+◌, ◌≡◌, refl, false, List, [], ◌∷◌}
use gem5_wrapper.Bus.{
  PortMapping, port_mapping, contains, global_to_local, decode, forward, transport,
}
use gem5_wrapper.Bus.Decode.{IsFirst, transport-forward, transport-address_error, port_mapping_lem}

abbrev rom : PortMapping
rom = record { start = 0; end = 4095 }

abbrev ram : PortMapping
ram = record { start = 4000; end = 8191 }

abbrev memories : List PortMapping
memories = rom ∷ ram ∷ []

-- Where two ranges overlap the first one is taken.
overlap_test : transport memories 4000 ≡ forward 0
unfolding transport decode contains
overlap_test = refl

transport-forward_example : IsFirst memories 5000 1
unfolding transport decode contains
transport-forward_example = transport-forward memories 5000 1 refl

transport_address_error_test : contains ram 9000 ≡ false
unfolding transport decode contains
transport_address_error_test = transport-address_error memories 9000 refl 1 ram refl

port_mapping_test : ram.start + global_to_local ram 5000 ≡ 5000
unfolding port_mapping contains
port_mapping_test = ((port_mapping_lem 4000 8191 {p = ram} refl).2 5000 refl).0
