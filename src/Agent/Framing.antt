-- ===== src/Agent/Framing.antt =====
-- What `snmp_packet_complete` answers for the front of a message.
use open_wrt_sdk.Common.{ℕ, ◌-◌, ◌≤◌, ◌<◌, ◌≡◌, refl, ltb, ◌==◌, if◌then◌else◌, arith, true, false}
use open_wrt_sdk.Types.{size_mod, Client}
use open_wrt_sdk.Ber
use open_wrt_sdk.Outcome.{ok, fail}
use open_wrt_sdk.Outcome.Holds.{Holds}
use open_wrt_sdk.Decode.{is_element_type, decode_snmp_element_type_length}
use open_wrt_sdk.Encode.{get_sequence_header_length, encode_snmp_sequence_header}
use open_wrt_sdk.Encode.Headers.{decode-encode_header}
use open_wrt_sdk.Message.{bytes_left}
use native.Mathlib.Nat.{zero-add}
use open_wrt_sdk.Agent.{snmp_packet_complete}

bytes_left_inside : (size pos : ℕ) → pos ≤ size → size < size_mod → bytes_left size pos ≡ size - pos
bytes_left_inside size pos h k = omega arith

known : is_element_type Ber.sequence ≡ true
unfolding is_element_type
known = refl

-- Of a client that has received the front of a message, with the whole header of a sequence of
-- `len` bytes (1 to 65535): with fewer than 25 bytes the message is incomplete; with 25 or more it
-- is a failure, and not an incomplete message, as long as the bytes behind the header are fewer
-- than `len`; and it is complete when they are exactly `len`.
pub snmp_packet_complete_lem :
    (client : Client) (len : ℕ)
    → 0 < len
    → len ≤ 0xffff
    → client.size < size_mod
    → get_sequence_header_length len ≤ client.size
    → Holds client.packet 0 (encode_snmp_sequence_header len Ber.sequence).1
    → snmp_packet_complete client ≡ (
        if ltb client.size 25
        then ok false
        else if ltb (client.size - get_sequence_header_length len) len
        then fail
        else ok ((client.size - get_sequence_header_length len) == len))
unfolding snmp_packet_complete
snmp_packet_complete_lem client len h hl hs hf holds =
    let header : decode_snmp_element_type_length client.packet client.size 0
        ≡ ok (Ber.sequence, len, get_sequence_header_length len) =
      rw zero-add at (
        decode-encode_header client.packet client.size 0 Ber.sequence len known hl
          (omega (arith, hf)) holds) in
    ground (arith, header, bytes_left_inside client.size (get_sequence_header_length len) hf hs)
