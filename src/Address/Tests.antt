-- ===== src/Address/Tests.antt =====
-- The text of an address (src/sampler.rs) at concrete addresses.
use profiler_rs.Address.{ProcessMemoryAddress, as_string}
use profiler_rs.Address.Hex.{read_address, read_address-as_string}
use profiler_rs.Prelude.{◌≡◌, refl, arith}

abbrev code_address : ProcessMemoryAddress
code_address = record { value = 0x7fff20a3 }

as_string_of_code : as_string code_address ≡ "0x7fff20a3"
unfolding as_string
as_string_of_code = refl

read_address-as_string_example : read_address "0x7fff20a3" ≡ 0x7fff20a3
unfolding as_string
read_address-as_string_example = read_address-as_string code_address (omega arith)
