-- ===== src/Mib/Element.antt =====
-- The helpers of src/mib.c that write a value into its buffer, `encode_snmp_element_*`. The buffer
-- is written from its front without a test of its length, so a buffer that is too short is a
-- fault. Where a helper fails, what it has written by then is left out. The computations of
-- lengths and bytes are those that src/protocol.c repeats for its own encoders.
pub mod Back
use open_wrt_sdk.Common.{
  ℕ, ◌+◌, ◌*◌, ◌%◌, bit_and, List, [], ◌∷◌, ◌++◌, length, ltb, ◌==◌, not, if◌then◌else◌, ℤ,
  to_unsigned, drop, get_or, Option, none, some,
}
use open_wrt_sdk.Types.{Oid, Data, Value}
use open_wrt_sdk.Ber
use open_wrt_sdk.Outcome.{Outcome, ok, fail, ◌>>=◌, write_at}
use open_wrt_sdk.Encode.{integer_length, integer_bytes, length_field, subids_length, subids_bytes}

-- `buffer = value->data.buffer; *buffer++ = …; value->data.encoded_length = buffer - …;`
unfoldable pub fill_buffer : Value → List ℕ → Outcome Value
fill_buffer value bytes = do
  buffer ← write_at value.content.buffer 0 bytes
  ok (record value {
    content = record {
      buffer = buffer;
      max_length = value.content.max_length;
      encoded_length = length bytes;
    };
  })

unfoldable pub encode_snmp_element_integer : Value → ℤ → Outcome Value
encode_snmp_element_integer value v =
    fill_buffer value
      (Ber.integer ∷ integer_length v ∷ integer_bytes (integer_length v) (to_unsigned v))

unfoldable pub encode_snmp_element_string : Value → List ℕ → Outcome Value
encode_snmp_element_string value text =
    if ltb 0xffff (length text)
    then fail
    else fill_buffer value (Ber.octet_string ∷ length_field (length text) ++ text)

-- `none` is the null pointer. The test of the length comes behind the write of the type.
unfoldable pub encode_snmp_element_oid : Value → Option Oid → Outcome Value
encode_snmp_element_oid value none = fail
encode_snmp_element_oid value (some oid) =
    let subids = oid.subid_list in
    let len = 1 + subids_length (drop 2 subids) in
    if ltb 0xffff len
    then fail
    else fill_buffer value (
        Ber.oid ∷ length_field len
        ++ (get_or subids 0 0 * 40 + get_or subids 1 0) % 256 ∷ subids_bytes (drop 2 subids))

-- How many bytes an unsigned value takes: those from the highest that is not 0.
unfoldable pub unsigned_length : ℕ → ℕ
unsigned_length ticks =
    if not (bit_and ticks 0xff00_0000 == 0)
    then 4
    else if not (bit_and ticks 0x00ff_0000 == 0)
    then 3
    else if not (bit_and ticks 0x0000_ff00 == 0)
    then 2
    else 1

unfoldable pub encode_snmp_element_unsigned : Value → ℕ → ℕ → Outcome Value
encode_snmp_element_unsigned value type ticks =
    fill_buffer value (type ∷ unsigned_length ticks ∷ integer_bytes (unsigned_length ticks) ticks)
