-- ===== src/Tests/Format.antt =====
-- The texts of OIDs and values at concrete values.
use open_wrt_sdk.Common.{◌-◌, ◌≤◌, ◌≡◌, refl, [], ◌∷◌, length, take, zeros, length-zeros, arith}
use open_wrt_sdk.Types.{max_nr_subids, Data}
use open_wrt_sdk.Outcome.{ok, fault, byte_at, Safely}
use open_wrt_sdk.Decode.{is_element_type, decode_length, decode_snmp_element_type_length}
use open_wrt_sdk.Format.{ntoa_size, oid_ntoa, oid_aton}
use open_wrt_sdk.Format.Print.{dotted, oid_ntoa_lem}
use open_wrt_sdk.Format.Back.{oid_aton-oid_ntoa, oid_aton_ends}
use open_wrt_sdk.Format.Element.{Printf, snmp_element_as_string}
use open_wrt_sdk.Format.Element.Hex.{snmp_element_as_string_overrun}
use open_wrt_sdk.Tests.Samples.{sys_descr}
use open_wrt_sdk.Tests.Tallies.{tally, read_tally, tally-IsStrtoul}

oid_ntoa_lem_example :
    oid_ntoa tally sys_descr ≡ take (ntoa_size - 1) (dotted tally sys_descr.subid_list)
oid_ntoa_lem_example = oid_ntoa_lem tally sys_descr

oid_aton-oid_ntoa_example :
    oid_aton read_tally (oid_ntoa tally sys_descr)
    ≡ ok (record { subid_list = sys_descr.subid_list; encoded_length = 0 })
oid_aton-oid_ntoa_example =
    oid_aton-oid_ntoa tally read_tally sys_descr tally-IsStrtoul (omega arith) (omega arith)
      (ground arith) (omega arith) (omega arith)

-- A text without a dot.
oid_aton_ends_example :
    Safely
      (λ oid. (2 ≤ length oid.subid_list) × (length oid.subid_list ≤ max_nr_subids))
      (oid_aton read_tally (0x31 ∷ 0x31 ∷ []))
oid_aton_ends_example = oid_aton_ends read_tally (0x31 ∷ 0x31 ∷ [])

abbrev printf : Printf
printf = record { signed = tally; unsigned = tally; hex = λ byte. 0x30 ∷ tally byte }

-- A sequence of four bytes.
abbrev sequence_value : Data
sequence_value = record {
  buffer = 0x30 ∷ 0x04 ∷ 0x01 ∷ 0x02 ∷ 0x03 ∷ 0x04 ∷ [];
  max_length = 6;
  encoded_length = 6;
}

sequence_value_header :
    decode_snmp_element_type_length sequence_value.buffer sequence_value.encoded_length 0
    ≡ ok (0x30, 4, 2)
unfolding decode_snmp_element_type_length is_element_type byte_at decode_length
sequence_value_header = refl

snmp_element_as_string_overrun_example :
    snmp_element_as_string printf sequence_value (zeros 11) ≡ fault
snmp_element_as_string_overrun_example =
    snmp_element_as_string_overrun printf sequence_value 0x30 4 2 (zeros 11) sequence_value_header
      refl (omega arith) (omega (arith, length-zeros 11)) (omega (arith, length-zeros 11))
      (omega (arith, length-zeros 11))
