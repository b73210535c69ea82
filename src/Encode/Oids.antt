-- ===== src/Encode/Oids.antt =====
-- OIDs: what the encoder writes is what the decoder reads.
use open_wrt_sdk.Common.{
  ℕ, ◌+◌, ◌*◌, ◌/◌, ◌%◌, ◌^◌, ◌≤◌, ◌<◌, ◌≡◌, refl, List, [], ◌∷◌, drop, length, arith, true,
}
use open_wrt_sdk.Common.Bits.{bit_and_80}
use open_wrt_sdk.Types.{Oid}
use open_wrt_sdk.Ber
use open_wrt_sdk.Outcome.{ok}
use open_wrt_sdk.Outcome.Holds.{Holds}
use open_wrt_sdk.Decode.{
  decode_subids, decode_snmp_element_value_oid, oid_encoded_length, decode_snmp_element_type_length,
  is_element_type,
}
use open_wrt_sdk.Encode.{subids_length, subids_bytes, encode_snmp_oid, get_sequence_header_length}
use open_wrt_sdk.Encode.Headers.{length_field_short, type_length-length_field}
use open_wrt_sdk.Encode.Integers.{has_room-true}
use open_wrt_sdk.Message.{decode_oid_element}
use open_wrt_sdk.Encode.Subids.{
  decode_subids_back, IsEncodable, subids_length-le, length-subids_bytes,
}

module _ (s₀ s₁ : ℕ) (rest : List ℕ) (e : ℕ) where
  abbrev oid : Oid
  oid = record { subid_list = s₀ ∷ s₁ ∷ rest; encoded_length = e }

  abbrev content : List ℕ
  content = (s₀ * 40 + s₁) % 256 ∷ subids_bytes rest

  encode_oid_bytes :
      IsEncodable (s₀ ∷ s₁ ∷ rest)
      → (encode_snmp_oid oid).1 ≡ Ber.oid ∷ (1 + subids_length rest) ∷ content
  unfolding encode_snmp_oid
  encode_oid_bytes h =
      ground (arith, length_field_short (1 + subids_length rest), subids_length-le rest)

  -- The content is read back.
  oid_value_back :
      (packet : List ℕ) (size at : ℕ)
      → IsEncodable (s₀ ∷ s₁ ∷ rest)
      → size < 2 ^ 31
      → at + (1 + subids_length rest) ≤ size
      → Holds packet at content
      → decode_snmp_element_value_oid packet size at (1 + subids_length rest)
        ≡ ok (
          record { subid_list = s₀ ∷ s₁ ∷ rest; encoded_length = 1 + subids_length rest + 2 },
          at + (1 + subids_length rest),
        )
  unfolding decode_snmp_element_value_oid oid_encoded_length
  oid_value_back packet size at h small fits holds = ground (
    arith,
    has_room-true size at (1 + subids_length rest) small fits,
    bit_and_80 (s₀ * 40 + s₁),
    subids_length-le rest,
    tail_back,
    front_back,
    holds,
  )
    where
      front_back : ((s₀ * 40 + s₁) / 40 ≡ s₀) × ((s₀ * 40 + s₁) % 40 ≡ s₁)
      front_back = (omega arith, omega arith)

      tail_back :
          decode_subids 17 packet (subids_length rest) (at + 1) (s₀ ∷ s₁ ∷ [])
          ≡ ok (s₀ ∷ s₁ ∷ rest, at + 1 + subids_length rest)
      tail_back =
          decode_subids_back 17 packet (subids_length rest) (at + 1) (s₀ ∷ s₁ ∷ []) rest refl
            (omega arith) (omega arith) h.3 holds.1

-- How many bytes an OID takes that can be encoded.
pub length-encode_snmp_oid :
    (subids : List ℕ) (e : ℕ)
    → IsEncodable subids
    → length (encode_snmp_oid (record { subid_list = subids; encoded_length = e })).1
      ≡ 3 + subids_length (drop 2 subids)
length-encode_snmp_oid [] e h = absurd h
length-encode_snmp_oid (s₀ ∷ []) e h = absurd h
length-encode_snmp_oid (s₀ ∷ s₁ ∷ rest) e h =
    rw (encode_oid_bytes s₀ s₁ rest e h) (omega (arith, length-subids_bytes rest))

oid_type : is_element_type Ber.oid ≡ true
oid_type = unfold is_element_type in refl

short_oid_header :
    (rest : List ℕ) → length rest ≤ 14 → get_sequence_header_length (1 + subids_length rest) ≡ 2
unfolding get_sequence_header_length
short_oid_header rest h = ground (arith, subids_length-le rest)

oid_element_back :
    (packet : List ℕ) (size at s₀ s₁ : ℕ) (rest : List ℕ)
    → IsEncodable (s₀ ∷ s₁ ∷ rest)
    → size < 2 ^ 31
    → at + (3 + subids_length rest) ≤ size
    → Holds packet at (Ber.oid ∷ (1 + subids_length rest) ∷ content s₀ s₁ rest 0)
    → decode_oid_element packet size at
      ≡ ok (
        record { subid_list = s₀ ∷ s₁ ∷ rest; encoded_length = 3 + subids_length rest },
        at + (3 + subids_length rest),
      )
unfolding decode_oid_element
oid_element_back packet size at s₀ s₁ rest h small fits holds = ground (
  arith,
  header,
  oid_value_back s₀ s₁ rest 0 packet size (at + 2) h small (omega arith)
      (let e : at + 1 + 1 ≡ at + 2 = omega arith in rw e at holds.1.1),
)
  where
    len : ℕ
    len = 1 + subids_length rest

    two : get_sequence_header_length len ≡ 2
    two = short_oid_header rest (omega arith)

    header : decode_snmp_element_type_length packet size at ≡ ok (Ber.oid, len, at + 2)
    header =
        let bound = subids_length-le rest in
        rw two at (
          type_length-length_field packet size at Ber.oid len oid_type (omega arith)
            (rw two (omega arith))
            (holds.0, rw (length_field_short len (omega arith)) (holds.1.0, tt)))

-- For every OID of 2 to 16 subids of 32 bits, the second of them below 40 and the first two below
-- 128 when put in one byte: where a packet holds what `encode_snmp_oid` writes, inside the used
-- part (of less than 2 ^ 31 bytes), the decoder of an OID element returns the same subids, the
-- number of bytes written as `encoded_length`, and the place behind them.
pub decode-encode_oid :
    (packet : List ℕ) (size at : ℕ) (oid : Oid)
    → IsEncodable oid.subid_list
    → size < 2 ^ 31
    → at + length (encode_snmp_oid oid).1 ≤ size
    → Holds packet at (encode_snmp_oid oid).1
    → decode_oid_element packet size at
      ≡ ok (
        record oid { encoded_length = length (encode_snmp_oid oid).1 },
        at + length (encode_snmp_oid oid).1,
      )
decode-encode_oid packet size at oid h small fits holds =
    go oid.subid_list oid.encoded_length h fits holds
  where
    go :
        (subids : List ℕ) (e : ℕ)
        → IsEncodable subids
        → at + length (encode_snmp_oid (record { subid_list = subids; encoded_length = e })).1
          ≤ size
        → Holds packet at (encode_snmp_oid (record { subid_list = subids; encoded_length = e })).1
        → decode_oid_element packet size at
          ≡ ok (
            record {
              subid_list = subids;
              encoded_length =
                  length (encode_snmp_oid (record { subid_list = subids; encoded_length = e })).1;
            },
            at + length (encode_snmp_oid (record { subid_list = subids; encoded_length = e })).1,
          )
    go [] e h f k = absurd h
    go (s₀ ∷ []) e h f k = absurd h
    go (s₀ ∷ s₁ ∷ rest) e h f k =
        let bytes = encode_oid_bytes s₀ s₁ rest e h in
        let three : length (Ber.oid ∷ (1 + subids_length rest) ∷ content s₀ s₁ rest e)
            ≡ 3 + subids_length rest =
          omega (arith, length-subids_bytes rest) in
        rw (bytes, three)
          (oid_element_back packet size at s₀ s₁ rest h small (rw (bytes, three) at f)
            (rw bytes at k))
