-- ===== src/Mib/Element/Back.antt =====
-- What `encode_snmp_element_*` leave in a buffer, by the decoders of src/protocol.c.
use open_wrt_sdk.Common.{
  ℕ, ◌+◌, ◌≤◌, ◌<◌, ◌^◌, ◌≡◌, refl, ◌∙◌, List, [], ◌∷◌, ◌++◌, length, length-append, length-drop, ℤ,
  IsInt, drop, arith, some,
}
use open_wrt_sdk.Types.{Oid, Value}
use native.Mathlib.Nat.{zero-add}
use open_wrt_sdk.Outcome.{ok}
use open_wrt_sdk.Outcome.Holds.{Holds, Holds-piece}
use open_wrt_sdk.Encode.{get_integer_length, encode_snmp_integer, encode_snmp_oid}
use open_wrt_sdk.Encode.Write.{write_front}
use open_wrt_sdk.Encode.Integers.{decode-encode_integer, length-encode_snmp_integer}
use open_wrt_sdk.Encode.Subids.{IsEncodable, subids_length-le}
use open_wrt_sdk.Encode.Oids.{decode-encode_oid}
use open_wrt_sdk.Message.{decode_integer_element, decode_oid_element}
use open_wrt_sdk.Mib.Element.{fill_buffer, encode_snmp_element_integer, encode_snmp_element_oid}

-- The value with these bytes in front of its buffer.
abbrev pub filled : Value → List ℕ → Value
filled value bytes = record value {
  content = record {
    buffer = bytes ++ drop (length bytes) value.content.buffer;
    max_length = value.content.max_length;
    encoded_length = length bytes;
  };
}

get_integer_length-le : (v : ℤ) → get_integer_length v ≤ 6
unfolding get_integer_length
get_integer_length-le v = ground arith

module _ (value : Value) where
  fill_buffer_room :
      (bytes : List ℕ)
      → length bytes ≤ length value.content.buffer
      → fill_buffer value bytes ≡ ok (filled value bytes)
  unfolding fill_buffer
  fill_buffer_room bytes h = rw (write_front value.content.buffer bytes h) refl

  filled-Holds : (bytes : List ℕ) → Holds (filled value bytes).content.buffer 0 bytes
  filled-Holds bytes = Holds-piece [] bytes (drop (length bytes) value.content.buffer) 0 refl

  pub length-filled :
      (bytes : List ℕ)
      → length bytes ≤ length value.content.buffer
      → length (filled value bytes).content.buffer ≡ length value.content.buffer
  length-filled bytes h = omega (
    arith,
    length-append bytes (drop (length bytes) value.content.buffer),
    length-drop (length bytes) value.content.buffer,
  )

  pub length_le_six : (v : ℤ) → length (encode_snmp_integer v).1 ≤ 6
  length_le_six v = omega (arith, length-encode_snmp_integer v, get_integer_length-le v)

  pub encode_snmp_element_integer-filled :
      (v : ℤ)
      → 6 ≤ length value.content.buffer
      → encode_snmp_element_integer value v ≡ ok (filled value (encode_snmp_integer v).1)
  unfolding encode_snmp_element_integer encode_snmp_integer
  encode_snmp_element_integer-filled v room =
      fill_buffer_room (encode_snmp_integer v).1 (omega (arith, length_le_six v, room))

  pub decode-filled :
      (v : ℤ)
      → IsInt v
      → decode_integer_element
          (filled value (encode_snmp_integer v).1).content.buffer
          (filled value (encode_snmp_integer v).1).content.encoded_length
          0
        ≡ ok (v, (filled value (encode_snmp_integer v).1).content.encoded_length)
  decode-filled v int =
      let bytes = (encode_snmp_integer v).1 in
      let size = length-encode_snmp_integer v in
      let all : 0 + get_integer_length v ≡ length bytes = omega (arith, size) in
      rw all at (
        decode-encode_integer (filled value bytes).content.buffer (length bytes) 0 v int
          (omega (arith, length_le_six v)) (omega (arith, size)) (filled-Holds bytes))

  -- An integer entry of the MIB whose buffer has the 6 bytes that the longest element takes reads
  -- back, by the decoder of requests, as the `int` that was written, and `encoded_length` is the
  -- end of the element.
  pub decode-element_integer :
      (v : ℤ)
      → IsInt v
      → 6 ≤ length value.content.buffer
      → (w : Value) × (encode_snmp_element_integer value v ≡ ok w)
        × (decode_integer_element w.content.buffer w.content.encoded_length 0
            ≡ ok (v, w.content.encoded_length))
  decode-element_integer v int room = (
    filled value (encode_snmp_integer v).1,
    encode_snmp_element_integer-filled v room,
    decode-filled v int,
  )

  oid_fills :
      (subids : List ℕ) (n : ℕ)
      → IsEncodable subids
      → encode_snmp_element_oid value (some (record { subid_list = subids; encoded_length = n }))
        ≡ fill_buffer value (encode_snmp_oid (record { subid_list = subids; encoded_length = n })).1
  unfolding encode_snmp_element_oid encode_snmp_oid
  oid_fills [] n h = absurd h
  oid_fills (s₀ ∷ []) n h = absurd h
  oid_fills (s₀ ∷ s₁ ∷ rest) n h = let bound = subids_length-le rest in ground arith

  -- An OID entry of the MIB that has room for it, in a buffer of less than 2 ^ 31 bytes, reads
  -- back as its subids, with the length of the element, for every OID of 2 to 16 subids of 32
  -- bits, the second of them below 40 and the first two below 128 when put in one byte.
  decode-element_oid :
      (oid : Oid)
      → IsEncodable oid.subid_list
      → length (encode_snmp_oid oid).1 ≤ length value.content.buffer
      → length value.content.buffer < 2 ^ 31
      → (w : Value) × (encode_snmp_element_oid value (some oid) ≡ ok w)
        × (decode_oid_element w.content.buffer w.content.encoded_length 0
            ≡ ok (
              record oid { encoded_length = w.content.encoded_length },
              w.content.encoded_length,
            ))
  decode-element_oid oid h room small =
      let bytes = (encode_snmp_oid oid).1 in
      (
        filled value bytes,
        oid_fills oid.subid_list oid.encoded_length h ∙ fill_buffer_room bytes room,
        rw zero-add at (
            decode-encode_oid (filled value bytes).content.buffer (length bytes) 0 oid h
              (omega (arith, room, small)) (omega arith) (filled-Holds bytes)),
      )
