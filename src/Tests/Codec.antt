-- ===== src/Tests/Codec.antt =====
-- The codecs on small packets.
use open_wrt_sdk.Common.{ℕ, ◌+◌, ◌≤◌, ◌≡◌, refl, List, [], ◌∷◌, true, ℤ, arith}
use open_wrt_sdk.Types.{Oid}
use open_wrt_sdk.Ber
use open_wrt_sdk.Outcome.{ok, fault, Ensures, Safely, byte_at}
use open_wrt_sdk.Outcome.Holds.{Holds}
use open_wrt_sdk.Decode.{
  is_element_type, is_one_of, has_room, decode_snmp_element_type_length,
  decode_snmp_element_value_integer, decode_snmp_element_value_oid,
}
use open_wrt_sdk.Decode.Header.{HeaderFits, type_length_safe}
use open_wrt_sdk.Decode.Values.{integer_overrun}
use open_wrt_sdk.Decode.Oids.{IsOid, oid_ends}
use open_wrt_sdk.Message.{decode_integer_element, decode_oid_element}
use open_wrt_sdk.Encode.{
  encode_snmp_integer, get_integer_length, integer_length, integer_bytes, encode_snmp_oid,
  length_field, subid_length, subid_group, subid_bytes, subids_length, subids_bytes,
  get_sequence_header_length, encode_snmp_sequence_header,
}
use open_wrt_sdk.Encode.Headers.{decode-encode_header}
use open_wrt_sdk.Encode.Integers.{decode-encode_integer}
use open_wrt_sdk.Encode.Oids.{decode-encode_oid}

-- -2 as an integer element.
abbrev minus_two : List ℕ
minus_two = 0x02 ∷ 0x01 ∷ 0xfe ∷ []

minus_two-Holds : Holds minus_two 0 (encode_snmp_integer (ℤ.negsuc 1)).1
unfolding encode_snmp_integer integer_length integer_bytes byte_at
minus_two-Holds = (refl, (refl, (refl, tt)))

decode-encode_integer_example : decode_integer_element minus_two 3 0 ≡ ok (ℤ.negsuc 1, 3)
unfolding get_integer_length
decode-encode_integer_example =
    decode-encode_integer minus_two 3 0 (ℤ.negsuc 1) (omega arith) (omega arith) (omega arith)
      minus_two-Holds

-- 1.3.6.1.200: the last subid takes two bytes.
abbrev two_byte_oid : Oid
two_byte_oid = record { subid_list = 1 ∷ 3 ∷ 6 ∷ 1 ∷ 200 ∷ []; encoded_length = 7 }

abbrev oid_packet : List ℕ
oid_packet = 0x06 ∷ 0x05 ∷ 0x2b ∷ 0x06 ∷ 0x01 ∷ 0x81 ∷ 0x48 ∷ []

oid_bytes : (encode_snmp_oid two_byte_oid).1 ≡ oid_packet
unfolding encode_snmp_oid length_field subid_length subid_group subid_bytes subids_length
    subids_bytes
oid_bytes = refl

oid_packet-Holds : Holds oid_packet 0 oid_packet
unfolding byte_at
oid_packet-Holds = (refl, (refl, (refl, (refl, (refl, (refl, (refl, tt)))))))

decode-encode_oid_example : decode_oid_element oid_packet 7 0 ≡ ok (two_byte_oid, 7)
unfolding encode_snmp_oid length_field subid_length subid_group subid_bytes subids_length
    subids_bytes
decode-encode_oid_example =
    decode-encode_oid oid_packet 7 0 two_byte_oid (omega arith) (omega arith) (omega arith)
      oid_packet-Holds

-- A sequence of 300 bytes.
abbrev long_header : List ℕ
long_header = 0x30 ∷ 0x82 ∷ 0x01 ∷ 0x2c ∷ []

long_header-Holds : Holds long_header 0 (encode_snmp_sequence_header 300 Ber.sequence).1
unfolding encode_snmp_sequence_header length_field byte_at
long_header-Holds = (refl, (refl, (refl, (refl, tt))))

sequence_known : is_element_type Ber.sequence ≡ true
unfolding is_element_type is_one_of
sequence_known = refl

decode-encode_header_example :
    decode_snmp_element_type_length long_header 4 0 ≡ ok (Ber.sequence, 300, 4)
unfolding get_sequence_header_length
decode-encode_header_example =
    decode-encode_header long_header 4 0 Ber.sequence 300 sequence_known (omega arith) (omega arith)
      long_header-Holds

type_length_safe_example : Safely (HeaderFits 4 0) (decode_snmp_element_type_length long_header 4 0)
type_length_safe_example = type_length_safe long_header 4 (omega arith) (omega arith) 0

-- A length of 200 in a packet of three bytes.
integer_overrun_example : decode_snmp_element_value_integer minus_two 3 2 200 ≡ fault
integer_overrun_example =
    integer_overrun minus_two (omega arith) 3 2 200 (omega arith) (omega arith) (omega arith)
      (omega arith) (omega arith)

oid_ends_example :
    Ensures
      (λ (r : Oid × ℕ).
        IsOid r.0
        × (r.1 ≡ 2 + 5)
        × (r.1 ≤ 7)
        × (r.0.encoded_length ≤ 9)
        × (7 ≤ r.0.encoded_length)
        × (has_room 7 2 5 ≡ true))
      (decode_snmp_element_value_oid oid_packet 7 2 5)
oid_ends_example = oid_ends oid_packet (omega arith) 7 2 5
