-- ===== src/Decode/Values.antt =====
-- The decoders of integers, texts and opaque values: where they stay, and what they return.
use open_wrt_sdk.Common.{
  ℕ, take_all, zero, suc, ◌+◌, ◌-◌, ◌*◌, ◌%◌, ◌^◌, ◌≤◌, ◌<◌, ◌≡◌, ◌≢◌, ◌∙◌, refl, sym, tests,
  bit_and, bit_or, List, All, IsByte, byte-lt, length, arith, true, get_or, ap, ltb, ℤ, IsInt,
  to_int-IsInt, take, if◌then◌else◌, ◌==◌,
}
use open_wrt_sdk.Common.Bits.{bit_or_shift8}
use open_wrt_sdk.Outcome.{
  fault, byte_at, Safely, Ensures, Ensures-bind, Ensures-require, Ensures-weaken, Safely-of_Ensures,
}
use open_wrt_sdk.Decode.{
  has_room, decode_bytes, decode_snmp_element_value_integer, decode_snmp_element_value_unsigned,
  read_string, decode_snmp_element_value_string, decode_snmp_element_value_void,
}

-- A byte shifted into an `unsigned int` from below.
pub shift_in : (acc b : ℕ) → b < 256 → bit_or (acc * 2 ^ 8 % 2 ^ 32) b ≡ acc * 256 % 2 ^ 32 + b
shift_in acc b h =
    let e : acc * 2 ^ 8 % 2 ^ 32 ≡ acc % 2 ^ 24 * 256 = omega arith in
    rw e (bit_or_shift8 (acc % 2 ^ 24) b h ∙ omega arith)

-- The guard is exact as long as the length does not pass the size.
pub has_room_exact :
    (size pos len : ℕ)
    → size < 2 ^ 31
    → len ≤ size
    → has_room size pos len ≡ ltb pos (size - len + 1)
unfolding has_room
has_room_exact size pos len hs hl = ap (λ k. ltb pos k) (omega arith)

-- Beyond, it wraps round and lets everything pass.
pub has_room_wraps :
    (size pos len : ℕ) → pos < 2 ^ 31 → len < 2 ^ 31 → size + 1 < len → has_room size pos len ≡ true
unfolding has_room
has_room_wraps size pos len hp hl h = ground arith

-- Within the size the guard keeps all the bytes inside.
pub has_room_inside :
    (size pos len : ℕ)
    → size < 2 ^ 31
    → len ≤ size
    → has_room size pos len ≡ true
    → pos + len ≤ size
has_room_inside size pos len hs hl h = omega (tests, sym (has_room_exact size pos len hs hl) ∙ h)

pub byte_at_ends :
    (packet : List ℕ) (pos : ℕ)
    → All IsByte packet
    → Ensures (λ b. IsByte b × (pos < length packet)) (byte_at packet pos)
unfolding byte_at
byte_at_ends packet pos bytes = ground (arith, byte-lt packet pos bytes)

module _ (packet : List ℕ) (bytes : All IsByte packet) where
  decode_bytes_ends :
      (len pos acc : ℕ)
      → acc < 2 ^ 32
      → Ensures
          (λ (r : ℕ × ℕ). (r.1 ≡ pos + len) × (r.0 < 2 ^ 32))
          (decode_bytes packet len pos acc)
  unfolding decode_bytes byte_at
  decode_bytes_ends zero pos acc h = omega arith
  decode_bytes_ends (suc len) pos acc h = ground (
    arith,
    byte-lt packet pos bytes,
    shift_in acc (get_or packet pos 0),
    decode_bytes_ends len (pos + 1) (bit_or (acc * 2 ^ 8 % 2 ^ 32) (get_or packet pos 0)),
  )

  decode_bytes-ne-fault :
      (len pos acc : ℕ) → pos + len ≤ length packet → decode_bytes packet len pos acc ≢ fault
  unfolding decode_bytes byte_at
  decode_bytes-ne-fault zero pos acc h = λ e. cc
  decode_bytes-ne-fault (suc len) pos acc h = ground (
    arith,
    decode_bytes-ne-fault len (pos + 1) (bit_or (acc * 2 ^ 8 % 2 ^ 32) (get_or packet pos 0)),
  )

  pub decode_bytes_fault :
      (len pos acc : ℕ)
      → length packet < pos + len
      → pos ≤ length packet
      → decode_bytes packet len pos acc ≡ fault
  unfolding decode_bytes byte_at
  decode_bytes_fault zero pos acc h hp = absurd (omega arith)
  decode_bytes_fault (suc len) pos acc h hp = ground (
    arith,
    decode_bytes_fault len (pos + 1) (bit_or (acc * 2 ^ 8 % 2 ^ 32) (get_or packet pos 0)),
  )

  -- The integer decoder returns an `int`, and takes `length` bytes.
  pub integer_ends :
      (size pos len : ℕ)
      → Ensures
          (λ (r : ℤ × ℕ). IsInt r.0 × (r.1 ≡ pos + len) × (has_room size pos len ≡ true))
          (decode_snmp_element_value_integer packet size pos len)
  unfolding decode_snmp_element_value_integer
  integer_ends size pos len = Ensures-require _ (has_room size pos len) _ λ room.
      Ensures-bind _ _ (byte_at packet pos) _ (byte_at_ends packet pos bytes) λ b _.
        Ensures-bind _ _ (decode_bytes packet len pos (fill b)) _
          (decode_bytes_ends len pos (fill b) (ground arith))
          λ r h. (to_int-IsInt r.0 h.1, h.0, room)
    where
      fill : ℕ → ℕ
      fill b = if bit_and b 0x80 == 0 then 0 else 0xffff_ffff

  integer-ne-fault :
      (size pos len : ℕ)
      → size ≤ length packet
      → size < 2 ^ 31
      → len ≤ size
      → 0 < len
      → decode_snmp_element_value_integer packet size pos len ≢ fault
  unfolding decode_snmp_element_value_integer byte_at
  integer-ne-fault size pos len hi hs hl h = ground (
    arith,
    has_room_inside size pos len,
    decode_bytes-ne-fault len pos 0,
    decode_bytes-ne-fault len pos 0xffff_ffff,
  )

  unsigned-ne-fault :
      (size pos len : ℕ)
      → size ≤ length packet
      → size < 2 ^ 31
      → len ≤ size
      → decode_snmp_element_value_unsigned packet size pos len ≢ fault
  unfolding decode_snmp_element_value_unsigned
  unsigned-ne-fault size pos len hi hs hl =
      ground (arith, has_room_inside size pos len, decode_bytes-ne-fault len pos 0)

  -- The texts that `%.*s` may read hold no NUL.
  read_string_ends :
      (len pos : ℕ)
      → Ensures
          (λ (text : List ℕ). (length text ≤ len) × All (λ b. 0 < b) text × All IsByte text)
          (read_string packet len pos)
  unfolding read_string byte_at
  read_string_ends zero pos = (omega arith, tt, tt)
  read_string_ends (suc len) pos =
      ground (arith, byte-lt packet pos bytes, read_string_ends len (pos + 1))

  -- While a length of at least 1 does not pass the size (below 2 ^ 31), the integer decoder reads
  -- inside the array, ends, and, if it succeeds, returns an `int` and has taken `length` bytes of
  -- the used part.
  pub integer_safe :
      (size pos len : ℕ)
      → size ≤ length packet
      → size < 2 ^ 31
      → len ≤ size
      → 0 < len
      → Safely
          (λ (r : ℤ × ℕ). IsInt r.0 × (r.1 ≡ pos + len) × (r.1 ≤ size))
          (decode_snmp_element_value_integer packet size pos len)
  integer_safe size pos len hi hs hl h =
      Safely-of_Ensures _ _ (Ensures-weaken _ (Inside) _ within (integer_ends size pos len))
        (integer-ne-fault size pos len hi hs hl h)
    where
      Inside : ℤ × ℕ → Type 0
      Inside r = IsInt r.0 × (r.1 ≡ pos + len) × (r.1 ≤ size)

      within :
          (r : ℤ × ℕ) → IsInt r.0 × (r.1 ≡ pos + len) × (has_room size pos len ≡ true) → Inside r
      within r p = (p.0, p.1, omega (arith, p.1, has_room_inside size pos len hs hl p.2))

  -- A length of more than `size + 1` passes the guard: then the decoder reads on behind the array,
  -- for every packet of bytes that ends before the place and the length together, whatever it
  -- holds (place and length below 2 ^ 31, and the place inside the array).
  pub integer_overrun :
      (size pos len : ℕ)
      → pos ≤ length packet
      → length packet < pos + len
      → pos < 2 ^ 31
      → len < 2 ^ 31
      → size + 1 < len
      → decode_snmp_element_value_integer packet size pos len ≡ fault
  unfolding decode_snmp_element_value_integer byte_at
  integer_overrun size pos len hp hf hb hl h = ground (
    arith,
    has_room_wraps size pos len,
    decode_bytes_fault len pos 0,
    decode_bytes_fault len pos 0xffff_ffff,
  )

  pub string_ends :
      (size pos len value_size : ℕ)
      → 0 < value_size
      → len < value_size
      → Ensures
          (λ (r : List ℕ × ℕ). (length r.0 ≤ len) × All (λ b. 0 < b) r.0 × (r.1 ≡ pos + len))
          (decode_snmp_element_value_string packet size pos len value_size)
  unfolding decode_snmp_element_value_string
  string_ends size pos len value_size hv hl = Ensures-require _ (has_room size pos len) _ λ _.
      Ensures-bind _ _ (read_string packet len pos) _ (read_string_ends len pos) λ text h.
        let e : take (value_size - 1) text ≡ text = take_all (value_size - 1) text (omega arith) in
        rw e (h.0, h.1, refl)

pub void_ends :
    (size pos len : ℕ)
    → Ensures
        (λ p. (p ≡ pos + len) × (has_room size pos len ≡ true))
        (decode_snmp_element_value_void size pos len)
unfolding decode_snmp_element_value_void
void_ends size pos len = Ensures-require _ (has_room size pos len) _ λ room. (refl, room)
