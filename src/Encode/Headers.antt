-- ===== src/Encode/Headers.antt =====
-- Element headers: the encoders against `decode_snmp_element_type_length`.
use open_wrt_sdk.Common.{
  ℕ, ◌+◌, ◌*◌, ◌/◌, ◌%◌, ◌^◌, ◌≤◌, ◌<◌, ◌≡◌, List, [], ◌∷◌, length, arith, true, ltb, tests,
  Bool-cases, inl, inr,
}
use open_wrt_sdk.Common.Bits.{bit_and_7f, bit_and_ff, bit_and_80}
use open_wrt_sdk.Outcome.{ok, byte_at}
use open_wrt_sdk.Outcome.Holds.{Holds}
use open_wrt_sdk.Decode.{
  decode_length_bytes, decode_length, decode_snmp_element_type_length, is_element_type,
}
use open_wrt_sdk.Encode.{length_field, get_sequence_header_length, encode_snmp_sequence_header}

-- The three forms of a length.
pub length_field_short : (len : ℕ) → len ≤ 0x7f → length_field len ≡ len ∷ []
unfolding length_field
length_field_short len h = ground (arith, bit_and_7f len)

length_field_medium : (len : ℕ) → 0x7f < len → len ≤ 0xff → length_field len ≡ 0x81 ∷ len ∷ []
unfolding length_field
length_field_medium len h k = ground (arith, bit_and_ff len)

length_field_long :
    (len : ℕ) → 0xff < len → len ≤ 0xffff → length_field len ≡ 0x82 ∷ len / 256 ∷ len % 256 ∷ []
unfolding length_field
length_field_long len h k = ground (arith, bit_and_ff len, bit_and_ff (len / 2 ^ 8))

pub length-length_field :
    (len : ℕ) → len ≤ 0xffff → length (length_field len) + 1 ≡ get_sequence_header_length len
unfolding length_field get_sequence_header_length
length-length_field len h = ground arith

pub encode_header :
    (len type : ℕ)
    → len ≤ 0xffff
    → (encode_snmp_sequence_header len type).1 ≡ type ∷ length_field len
unfolding encode_snmp_sequence_header
encode_header len type h = ground arith

module _ (packet : List ℕ) (size pos : ℕ) where
  decode_length_short :
      (len : ℕ)
      → len ≤ 0x7f
      → pos < size
      → byte_at packet pos ≡ ok len
      → decode_length packet size pos ≡ ok (len, pos + 1)
  unfolding decode_length
  decode_length_short len h hp e = ground (arith, bit_and_80 len)

  decode_length_medium :
      (len : ℕ)
      → pos + 1 < size
      → byte_at packet pos ≡ ok 0x81
      → byte_at packet (pos + 1) ≡ ok len
      → decode_length packet size pos ≡ ok (len, pos + 2)
  unfolding decode_length decode_length_bytes
  decode_length_medium len hp e e₁ = ground arith

  decode_length_long :
      (hi lo : ℕ)
      → pos + 2 < size
      → byte_at packet pos ≡ ok 0x82
      → byte_at packet (pos + 1) ≡ ok hi
      → byte_at packet (pos + 1 + 1) ≡ ok lo
      → decode_length packet size pos ≡ ok (hi * 256 + lo, pos + 3)
  unfolding decode_length decode_length_bytes
  decode_length_long hi lo hp e e₁ e₂ = ground arith

  decode_length-length_field :
      (len : ℕ)
      → len ≤ 0xffff
      → pos + length (length_field len) ≤ size
      → Holds packet pos (length_field len)
      → decode_length packet size pos ≡ ok (len, pos + length (length_field len))
  decode_length-length_field len h hp holds = elim (Bool-cases (ltb 0x7f len)) [
    | inr short ↦
        let e = length_field_short len (omega (tests, short)) in
        let one : pos + 1 ≤ size = rw e at hp in
        let fits : pos < size = omega arith in
        rw e (decode_length_short len (omega (tests, short)) fits (rw e at holds).0)
    | inl more ↦ elim (Bool-cases (ltb 0xff len)) [
      | inr medium ↦
          let e = length_field_medium len (omega (tests, more)) (omega (tests, medium)) in
          let fits : pos + 2 ≤ size = rw e at hp in
          let held = rw e at holds in rw e (decode_length_medium len (omega arith) held.0 held.1.0)
      | inl long ↦
          let e = length_field_long len (omega (tests, long)) h in
          let fits : pos + 3 ≤ size = rw e at hp in
          let held = rw e at holds in
          let whole : len / 256 * 256 + len % 256 ≡ len = omega arith in
          rw e (
            rw whole at
              (decode_length_long (len / 256) (len % 256) (omega arith) held.0 held.1.0 held.1.1.0))
    ]
  ]

module _ (packet : List ℕ) (size pos type len : ℕ) (known : is_element_type type ≡ true)
    (short : len ≤ 0xffff) where
  -- The same for whatever wrote the type and the length field.
  pub type_length-length_field :
      pos + get_sequence_header_length len ≤ size
      → Holds packet pos (type ∷ length_field len)
      → decode_snmp_element_type_length packet size pos
        ≡ ok (type, len, pos + get_sequence_header_length len)
  unfolding decode_snmp_element_type_length
  type_length-length_field hp holds = ground (
    arith,
    length-length_field len short,
    decode_length-length_field packet size (pos + 1) len short
        (omega (arith, length-length_field len short)) holds.1,
  )

  -- A header that the encoder writes, of a supported type and a length of at most 65535, is read
  -- back where it stands inside the used part: the type, the length, and the place behind it.
  pub decode-encode_header :
      pos + get_sequence_header_length len ≤ size
      → Holds packet pos (encode_snmp_sequence_header len type).1
      → decode_snmp_element_type_length packet size pos
        ≡ ok (type, len, pos + get_sequence_header_length len)
  decode-encode_header hp holds =
      type_length-length_field hp (rw (encode_header len type short) at holds)
