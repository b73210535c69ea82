-- ===== src/Decode/Header.antt =====
-- `decode_snmp_element_type_length`: where it stays, and what it returns.
use open_wrt_sdk.Common.{
  ℕ, zero, suc, ◌+◌, ◌^◌, ◌≤◌, ◌<◌, ◌≡◌, bit_and, List, All, IsByte, byte-lt, length, arith, true,
  get_or,
}
use open_wrt_sdk.Outcome.{byte_at, Safely}
use open_wrt_sdk.Decode.{
  decode_length_bytes, decode_length, decode_snmp_element_type_length, is_element_type,
}

-- The new position and the length of an element that begins at `pos`.
abbrev pub HeaderFits : ℕ → ℕ → ℕ × ℕ × ℕ → Type 0
HeaderFits size pos (type, len, pos') =
    (is_element_type type ≡ true)
    × (pos + 2 ≤ pos')
    × (pos' ≤ pos + 4)
    × (pos' ≤ size)
    × (len < 2 ^ 16)

module _ (packet : List ℕ) (size : ℕ) (inside : size ≤ length packet)
    (bytes : All IsByte packet) where
  decode_length_bytes_safe :
      (n pos : ℕ)
      → n ≤ 2
      → pos ≤ size
      → Safely
          (λ (r : ℕ × ℕ). (r.1 ≤ pos + 2) × (pos ≤ r.1) × (r.1 ≤ size) × (r.0 < 2 ^ 16))
          (decode_length_bytes packet size n pos 0)
  unfolding decode_length_bytes byte_at
  decode_length_bytes_safe zero pos hn hp = omega arith
  decode_length_bytes_safe (suc zero) pos hn hp = ground (arith, byte-lt packet pos bytes)
  decode_length_bytes_safe (suc (suc zero)) pos hn hp =
      ground (arith, byte-lt packet pos bytes, byte-lt packet (pos + 1) bytes)
  decode_length_bytes_safe (suc (suc (suc n))) pos hn hp = absurd (omega arith)

  decode_length_safe :
      (pos : ℕ)
      → Safely
          (λ (r : ℕ × ℕ). (pos + 1 ≤ r.1) × (r.1 ≤ pos + 3) × (r.1 ≤ size) × (r.0 < 2 ^ 16))
          (decode_length packet size pos)
  unfolding decode_length byte_at
  decode_length_safe pos = ground (
    arith,
    byte-lt packet pos bytes,
    decode_length_bytes_safe (bit_and (get_or packet pos 0) 0x7f) (pos + 1),
  )

  -- On any packet of which `size` bytes are used, the decoder of an element's header reads inside
  -- the array, ends, and, if it succeeds, has taken 2 to 4 bytes of the used part: the type is one
  -- that is supported, and the length fits 16 bits.
  pub type_length_safe :
      (pos : ℕ) → Safely (HeaderFits size pos) (decode_snmp_element_type_length packet size pos)
  unfolding decode_snmp_element_type_length byte_at
  type_length_safe pos = ground (arith, decode_length_safe (pos + 1))
