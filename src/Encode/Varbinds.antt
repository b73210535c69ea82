-- ===== src/Encode/Varbinds.antt =====
-- The variable bindings of a response, which `encode_snmp_varbind` of src/protocol.c writes.
use open_wrt_sdk.Common.{
  ℕ, ◌+◌, ◌≤◌, ◌<◌, ◌≡◌, sym, List, [], ◌∷◌, ◌++◌, append_assoc, length, length-append, take, arith,
  leb, Bool-cases, inl, inr, All, not-leb→lt, le→leb,
}
use open_wrt_sdk.Types.{max_packet_size, Value}
use open_wrt_sdk.Ber
use open_wrt_sdk.Outcome.{ok, Answers, Answers-bind}
use open_wrt_sdk.Encode.{
  put, read_bytes, encode_snmp_varbind, put_varbind, encode_varbinds, encode_snmp_sequence_header,
  encode_snmp_oid, get_sequence_header_length,
}
use open_wrt_sdk.Encode.Write.{Written, put-Answers, length-take_le}
use open_wrt_sdk.Encode.Reply.{varbind_bytes, varbinds_bytes, IsEncoded, length-header}

read_bytes_inside :
    (buffer : List ℕ) (n : ℕ) → n ≤ length buffer → read_bytes buffer n ≡ ok (take n buffer)
unfolding read_bytes
read_bytes_inside buffer n h = rw (le→leb n (length buffer) h)

module _ (v : Value) (encoded : IsEncoded v) (body : List ℕ) where
  abbrev data_bytes : List ℕ
  data_bytes = take v.content.encoded_length v.content.buffer

  abbrev oid_bytes : List ℕ
  oid_bytes = (encode_snmp_oid v.oid).1

  data_length : length data_bytes ≡ v.content.encoded_length
  data_length = length-take_le v.content.encoded_length v.content.buffer encoded.content

  inner_length : v.oid.encoded_length + v.content.encoded_length ≡ length (oid_bytes ++ data_bytes)
  inner_length = omega (arith, data_length, encoded.oid, length-append oid_bytes data_bytes)

  -- The three parts in front of `body`, and the binding in front of it.
  parts :
      varbind_bytes v ++ body
      ≡ (encode_snmp_sequence_header (length (oid_bytes ++ data_bytes)) Ber.sequence).1
        ++ (oid_bytes ++ (data_bytes ++ body))
  parts = simp append_assoc

  varbind_length-le : length (data_bytes ++ body) ≤ length (varbind_bytes v ++ body)
  varbind_length-le = rw parts (
      omega (
        arith,
        length-append
            (encode_snmp_sequence_header (length (oid_bytes ++ data_bytes)) Ber.sequence).1
            (oid_bytes ++ (data_bytes ++ body)),
        length-append oid_bytes (data_bytes ++ body),
      ))

  oid_length-le : length (oid_bytes ++ (data_bytes ++ body)) ≤ length (varbind_bytes v ++ body)
  oid_length-le = rw parts (
      omega (
        arith,
        length-append
            (encode_snmp_sequence_header (length (oid_bytes ++ data_bytes)) Ber.sequence).1
            (oid_bytes ++ (data_bytes ++ body)),
      ))

  put_outer :
      (at : List ℕ × ℕ)
      → Written (oid_bytes ++ (data_bytes ++ body)) at
      → Answers
          (Written (varbind_bytes v ++ body))
          (max_packet_size < length (varbind_bytes v ++ body))
          (put
            (get_sequence_header_length (v.oid.encoded_length + v.content.encoded_length))
            (encode_snmp_sequence_header
              (v.oid.encoded_length + v.content.encoded_length)
              Ber.sequence).1
            at)
  put_outer at w =
      rw (inner_length, parts)
        (put-Answers (get_sequence_header_length (length (oid_bytes ++ data_bytes)))
          (encode_snmp_sequence_header (length (oid_bytes ++ data_bytes)) Ber.sequence).1
          (oid_bytes ++ (data_bytes ++ body)) at
          (length-header (length (oid_bytes ++ data_bytes)) Ber.sequence (
            omega (
              arith,
              w.3,
              length-append oid_bytes data_bytes,
              length-append oid_bytes (data_bytes ++ body),
              length-append data_bytes body,
            )))
          w)

  put_varbind-Answers :
      (at : List ℕ × ℕ)
      → Written body at
      → Answers
          (Written (varbind_bytes v ++ body))
          (max_packet_size < length (varbind_bytes v ++ body))
          (put_varbind v data_bytes at)
  unfolding put_varbind
  put_varbind-Answers at w =
      Answers-bind (Written (data_bytes ++ body)) _ (max_packet_size < length (data_bytes ++ body))
        _ (put v.content.encoded_length data_bytes at) _
        (put-Answers v.content.encoded_length data_bytes body at data_length w)
        (λ q. omega (arith, q, varbind_length-le))
        λ at₁ w₁.
          Answers-bind (Written (oid_bytes ++ (data_bytes ++ body))) _
            (max_packet_size < length (oid_bytes ++ (data_bytes ++ body))) _
            (put v.oid.encoded_length oid_bytes at₁) _
            (put-Answers v.oid.encoded_length oid_bytes (data_bytes ++ body) at₁ (sym encoded.oid)
              w₁)
            (λ q. omega (arith, q, oid_length-le)) put_outer

  -- A binding is written in front of what is there if it fits, and the encoder fails if not.
  varbind-Answers :
      (at : List ℕ × ℕ)
      → Written body at
      → Answers
          (Written (varbind_bytes v ++ body))
          (max_packet_size < length (varbind_bytes v ++ body))
          (encode_snmp_varbind v at)
  unfolding encode_snmp_varbind
  varbind-Answers at w = elim (Bool-cases (leb v.content.encoded_length at.1)) [
    | inr full ↦ rw full (
        omega (
          arith,
          not-leb→lt _ _ full,
          varbind_length-le,
          w.2,
          w.3,
          data_length,
          length-append data_bytes body,
        ))
    | inl room ↦
        rw (room, read_bytes_inside v.content.buffer v.content.encoded_length encoded.content)
          (put_varbind-Answers at w)
  ]

-- All the bindings, the last one first.
pub varbinds-Answers :
    (vs : List Value) (at : List ℕ × ℕ)
    → All IsEncoded vs
    → Written [] at
    → Answers
        (Written (varbinds_bytes vs))
        (max_packet_size < length (varbinds_bytes vs))
        (encode_varbinds vs at)
unfolding encode_varbinds
varbinds-Answers [] at h w = w
varbinds-Answers (v ∷ vs) at h w =
    Answers-bind (Written (varbinds_bytes vs)) _ (max_packet_size < length (varbinds_bytes vs)) _
      (encode_varbinds vs at) _ (varbinds-Answers vs at h.1 w)
      (λ q. omega (arith, q, length-append (varbind_bytes v) (varbinds_bytes vs)))
      (varbind-Answers v h.0 (varbinds_bytes vs))
