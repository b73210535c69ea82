-- ===== src/Encode/Integers.antt =====
-- Integers: what the encoder writes is what the decoder reads, for every `int`.
use open_wrt_sdk.Common.{
  ℕ, zero, suc, ◌+◌, ◌-◌, ◌*◌, ◌/◌, ◌%◌, ◌^◌, ◌≤◌, ◌<◌, ◌≡◌, refl, ap, ◌∙◌, List, ◌∷◌, length,
  arith, true, tests, ℤ, IsInt, to_int, to_unsigned, to_int-to_unsigned,
}
use open_wrt_sdk.Ber
use open_wrt_sdk.Outcome.{ok, byte_at}
use open_wrt_sdk.Outcome.Holds.{Holds}
use open_wrt_sdk.Decode.{
  decode_bytes, decode_snmp_element_value_integer, decode_snmp_element_type_length, is_element_type,
  has_room,
}
use open_wrt_sdk.Decode.Values.{has_room_exact}
use open_wrt_sdk.Message.{decode_integer_element}
use open_wrt_sdk.Encode.{
  integer_length, integer_bytes, get_integer_length, encode_snmp_integer,
  get_sequence_header_length,
}
use open_wrt_sdk.Encode.Headers.{type_length-length_field, length_field_short}
use open_wrt_sdk.Encode.Digits.{
  decode_bytes-join, fill, join-join_sum, bytes_of, integer_bytes-bytes_of, bytes_of-IsByte,
  length-integer_bytes, length-bytes_of, magnitude, integer_length_enough, pattern_back,
}

pub has_room-true :
    (size at len : ℕ) → size < 2 ^ 31 → at + len ≤ size → has_room size at len ≡ true
has_room-true size at len hs h = has_room_exact size at len hs (omega arith) ∙ omega tests

module _ (packet : List ℕ) (size at : ℕ) (small : size < 2 ^ 31) (v : ℤ) (int : IsInt v) where
  value_back :
      (n : ℕ)
      → suc n ≤ 4
      → magnitude v < 2 ^ (8 * suc n - 1)
      → at + suc n ≤ size
      → Holds packet at (integer_bytes (suc n) (to_unsigned v))
      → decode_snmp_element_value_integer packet size at (suc n) ≡ ok (v, at + suc n)
  unfolding decode_snmp_element_value_integer
  value_back n h4 h fits holds =
      rw (has_room-true size at (suc n) small fits, held.0, joined, back) refl
    where
      u : ℕ
      u = to_unsigned v

      first : ℕ
      first = u / 2 ^ (8 * n) % 256

      held : Holds packet at (bytes_of (suc n) u)
      held = rw (integer_bytes-bytes_of (suc n) u) at holds

      joined : decode_bytes packet (suc n) at (fill first) ≡ ok (u, at + suc n)
      joined =
          rw (length-bytes_of (suc n) u) at
            (decode_bytes-join packet (bytes_of (suc n) u) at (fill first) held)
          ∙ ap (λ w. ok (w, at + suc n))
              (join-join_sum (fill first) (bytes_of (suc n) u) (bytes_of-IsByte (suc n) u)
                ∙ pattern_back n v h4 h)

      back : to_int u ≡ v
      back = to_int-to_unsigned v int

  value_back_at :
      (n : ℕ)
      → 0 < n
      → n ≤ 4
      → magnitude v < 2 ^ (8 * n - 1)
      → at + n ≤ size
      → Holds packet at (integer_bytes n (to_unsigned v))
      → decode_snmp_element_value_integer packet size at n ≡ ok (v, at + n)
  value_back_at zero h0 h4 h fits holds = absurd (omega arith)
  value_back_at (suc n) h0 h4 h fits holds = value_back n h4 h fits holds

get_integer_length-integer_length : (v : ℤ) → get_integer_length v ≡ integer_length v + 2
unfolding get_integer_length integer_length
get_integer_length-integer_length v = ground arith

-- `get_integer_length` is the number of bytes that the encoder writes.
pub length-encode_snmp_integer : (v : ℤ) → length (encode_snmp_integer v).1 ≡ get_integer_length v
unfolding encode_snmp_integer
length-encode_snmp_integer v = omega (
  arith,
  get_integer_length-integer_length v,
  length-integer_bytes (integer_length v) (to_unsigned v),
)

integer_type : is_element_type Ber.integer ≡ true
integer_type = unfold is_element_type in refl

short_header : (n : ℕ) → n ≤ 4 → get_sequence_header_length n ≡ 2
unfolding get_sequence_header_length
short_header n h = ground arith

module _ (packet : List ℕ) (size at : ℕ) (small : size < 2 ^ 31) (v : ℤ) (int : IsInt v) where
  element_header :
      (n : ℕ)
      → n ≤ 4
      → at + 2 ≤ size
      → byte_at packet at ≡ ok Ber.integer
      → byte_at packet (at + 1) ≡ ok n
      → decode_snmp_element_type_length packet size at ≡ ok (Ber.integer, n, at + 2)
  element_header n h4 fits e e₁ = rw (short_header n h4) at (
      type_length-length_field packet size at Ber.integer n integer_type (omega arith)
        (rw (short_header n h4) fits) (e, rw (length_field_short n (omega arith)) (e₁, tt)))

  element_back :
      (n : ℕ)
      → (0 < n) × (n ≤ 4) × (magnitude v < 2 ^ (8 * n - 1))
      → at + (n + 2) ≤ size
      → Holds packet at (Ber.integer ∷ n ∷ integer_bytes n (to_unsigned v))
      → decode_integer_element packet size at ≡ ok (v, at + (n + 2))
  unfolding decode_integer_element
  element_back n h fits holds = ground (
    arith,
    element_header n h.1 (omega arith) holds.0 holds.1.0,
    value_back_at packet size (at + 2) small v int n h.0 h.1 h.2 (omega arith)
        (let e : at + 1 + 1 ≡ at + 2 = omega arith in rw e at holds.1.1),
  )

-- For every `int`: where a packet holds what `encode_snmp_integer` writes, inside the used part
-- (of less than 2 ^ 31 bytes), the decoder of an integer element returns that `int` and the place
-- behind the element.
pub decode-encode_integer :
    (packet : List ℕ) (size at : ℕ) (v : ℤ)
    → IsInt v
    → size < 2 ^ 31
    → at + get_integer_length v ≤ size
    → Holds packet at (encode_snmp_integer v).1
    → decode_integer_element packet size at ≡ ok (v, at + get_integer_length v)
unfolding encode_snmp_integer
decode-encode_integer packet size at v int small fits holds =
    let e = get_integer_length-integer_length v in
    rw e (
      element_back packet size at small v int (integer_length v) (integer_length_enough v int)
        (rw e at fits) holds)
