-- ===== src/Format/Element.antt =====
-- `snmp_element_as_string` of src/protocol.c: a value as text.
pub mod Hex
use open_wrt_sdk.Common.{
  ℕ, zero, suc, ◌+◌, ◌-◌, ◌*◌, ◌/◌, ◌%◌, ◌||◌, ◌≤◌, ◌<◌, ◌^◌, ◌≡◌, refl, Bool, ltb, leb, ◌==◌,
  if◌then◌else◌, List, [], ◌∷◌, ◌++◌, length, take, drop, set, ℤ, to_unsigned, min,
}
use open_wrt_sdk.Types.{size_mod, Data, Oid}
use open_wrt_sdk.Ber
use open_wrt_sdk.Outcome.{Outcome, ok, fail, fault, ◌>>=◌, byte_at, write_at}
use open_wrt_sdk.Decode.{
  decode_snmp_element_type_length, decode_snmp_element_value_integer,
  decode_snmp_element_value_unsigned, decode_snmp_element_value_oid, read_string,
}
use open_wrt_sdk.Format.{oid_ntoa}

-- What `snprintf` prints: "%d" and "%u" of a word, and "%02X" of a byte.
pub record Printf : Type 0 where
  pub signed : ℕ → List ℕ
  pub unsigned : ℕ → List ℕ
  pub hex : ℕ → List ℕ

-- `snprintf(buffer, size, …)` with the whole buffer: as much as it holds, and a NUL.
unfoldable pub print_to : List ℕ → List ℕ → Outcome (List ℕ)
print_to buffer text =
    if length buffer == 0
    then ok buffer
    else write_at buffer 0 (take (length buffer - 1) text ++ 0 ∷ [])

-- `noSuchObject`, `noSuchInstance` and `endOfMibView`
abbrev pub no_such_object_text : List ℕ
no_such_object_text =
    0x6e ∷ 0x6f ∷ 0x53 ∷ 0x75 ∷ 0x63 ∷ 0x68 ∷ 0x4f ∷ 0x62 ∷ 0x6a ∷ 0x65 ∷ 0x63 ∷ 0x74 ∷ []

abbrev pub no_such_instance_text : List ℕ
no_such_instance_text =
    0x6e ∷ 0x6f ∷ 0x53 ∷ 0x75 ∷ 0x63 ∷ 0x68 ∷ 0x49 ∷ 0x6e ∷ 0x73 ∷ 0x74 ∷ 0x61 ∷ 0x6e ∷ 0x63 ∷ 0x65
    ∷ []

abbrev pub end_of_mib_view_text : List ℕ
end_of_mib_view_text =
    0x65 ∷ 0x6e ∷ 0x64 ∷ 0x4f ∷ 0x66 ∷ 0x4d ∷ 0x69 ∷ 0x62 ∷ 0x56 ∷ 0x69 ∷ 0x65 ∷ 0x77 ∷ []

-- The loop over the bytes from index `i` on, by the rounds that are left: each writes two digits, a
-- space and a NUL.
unfoldable pub hex_from : (ℕ → List ℕ) → List ℕ → ℕ → ℕ → ℕ → List ℕ → Outcome (List ℕ)
hex_from hex bytes pos zero i buffer = ok buffer
hex_from hex bytes pos (suc rounds) i buffer = do
  byte ← byte_at bytes (pos + i)
  buffer' ← write_at buffer (3 * i) (take 3 (hex byte ++ 0x20 ∷ []) ++ 0 ∷ [])
  hex_from hex bytes pos rounds (i + 1) buffer'

-- The branch of the other types: the loop, and the NUL behind the last digit.
unfoldable pub hex_text : (ℕ → List ℕ) → List ℕ → ℕ → ℕ → List ℕ → Outcome (List ℕ)
hex_text hex bytes pos len buffer = do
  shown ← hex_from hex bytes pos (min len ((length buffer + size_mod - 1) % size_mod / 3)) 0 buffer
  write_at shown (if len == 0 then 0 else 3 * len - 1) (0 ∷ [])

-- The text in the buffer. `type`, `len` and `pos` are those of the header of the element.
unfoldable pub element_text : Printf → Data → ℕ × ℕ × ℕ → List ℕ → Outcome (List ℕ)
element_text printf d (type, len, pos) buffer =
    if type == Ber.integer
    then (do
      (value, _) ← decode_snmp_element_value_integer d.buffer d.encoded_length pos len
      print_to buffer (printf.signed (to_unsigned value)))
    else if type == Ber.octet_string
    then read_string d.buffer len pos >>= print_to buffer
    else if type == Ber.oid
    then (do
      (oid, _) ← decode_snmp_element_value_oid d.buffer d.encoded_length pos len
      print_to buffer (oid_ntoa printf.signed oid))
    else if type == Ber.counter || (type == Ber.gauge || type == Ber.time_ticks)
    then (do
      (value, _) ← decode_snmp_element_value_unsigned d.buffer d.encoded_length pos len
      print_to buffer (printf.unsigned value))
    else if type == Ber.no_such_object
    then print_to buffer no_such_object_text
    else if type == Ber.no_such_instance
    then print_to buffer no_such_instance_text
    else if type == Ber.end_of_mib_view
    then print_to buffer end_of_mib_view_text
    else hex_text printf.hex d.buffer pos len buffer

unfoldable pub snmp_element_as_string : Printf → Data → List ℕ → Outcome (List ℕ)
snmp_element_as_string printf d buffer =
    decode_snmp_element_type_length d.buffer d.encoded_length 0 >>= λ header.
    element_text printf d header buffer
