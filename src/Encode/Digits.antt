-- ===== src/Encode/Digits.antt =====
-- The bytes of an `int`, most significant first, and the number that they stand for.
use open_wrt_sdk.Common.{
  ℕ, zero, suc, ◌+◌, ◌-◌, ◌*◌, ◌/◌, ◌%◌, ◌^◌, ◌≤◌, ◌<◌, ◌≡◌, refl, ap, bit_and, bit_or, List, [],
  ◌∷◌, length, arith, ◌==◌, ℤ, pos, negsuc, IsInt, to_unsigned, if◌then◌else◌, All, IsByte,
}
use open_wrt_sdk.Common.Bits.{bit_and_ff, bit_and_80}
use open_wrt_sdk.Outcome.{ok}
use open_wrt_sdk.Outcome.Holds.{Holds}
use open_wrt_sdk.Decode.{decode_bytes}
use open_wrt_sdk.Decode.Values.{shift_in}
use open_wrt_sdk.Encode.{integer_length, integer_bytes}

-- What the decoder's loop makes of a list of bytes.
pub join : ℕ → List ℕ → ℕ
join acc [] = acc
join acc (b ∷ bs) = join (bit_or (acc * 2 ^ 8 % 2 ^ 32) b) bs

pub decode_bytes-join :
    (packet bs : List ℕ) (at acc : ℕ)
    → Holds packet at bs
    → decode_bytes packet (length bs) at acc ≡ ok (join acc bs, at + length bs)
unfolding decode_bytes join
decode_bytes-join packet [] at acc h = ground arith
decode_bytes-join packet (b ∷ bs) at acc h =
    ground (arith, decode_bytes-join packet bs (at + 1) (bit_or (acc * 2 ^ 8 % 2 ^ 32) b) h.1)

-- The decoder fills up with the sign of the first byte.
abbrev pub fill : ℕ → ℕ
fill b = if bit_and b 0x80 == 0 then 0 else 0xffff_ffff

fill_positive : (b : ℕ) → b < 128 → fill b ≡ 0
fill_positive b h = ground (arith, bit_and_80 b)

fill_negative : (b : ℕ) → 128 ≤ b → b < 256 → fill b ≡ 0xffff_ffff
fill_negative b h k = ground (arith, bit_and_80 b)

-- The loop in plain arithmetic.
abbrev join_sum : ℕ → List ℕ → ℕ
join_sum acc [] = acc
join_sum acc (b ∷ bs) = join_sum (acc * 256 % 2 ^ 32 + b) bs

pub join-join_sum : (acc : ℕ) (bs : List ℕ) → All IsByte bs → join acc bs ≡ join_sum acc bs
unfolding join
join-join_sum acc [] h = refl
join-join_sum acc (b ∷ bs) h =
    rw (shift_in acc b h.0) (join-join_sum (acc * 256 % 2 ^ 32 + b) bs h.1)

-- The bytes that the encoder writes, for each length.
abbrev pub bytes_of : ℕ → ℕ → List ℕ
bytes_of zero u = []
bytes_of (suc n) u = u / 2 ^ (8 * n) % 256 ∷ bytes_of n u

pub integer_bytes-bytes_of : (n u : ℕ) → integer_bytes n u ≡ bytes_of n u
unfolding integer_bytes
integer_bytes-bytes_of zero u = refl
integer_bytes-bytes_of (suc n) u = cc (bit_and_ff (u / 2 ^ (8 * n)), integer_bytes-bytes_of n u)

pub bytes_of-IsByte : (n u : ℕ) → All IsByte (bytes_of n u)
bytes_of-IsByte zero u = tt
bytes_of-IsByte (suc n) u = (omega arith, bytes_of-IsByte n u)

pub length-integer_bytes : (n u : ℕ) → length (integer_bytes n u) ≡ n
unfolding integer_bytes
length-integer_bytes zero u = refl
length-integer_bytes (suc n) u = omega (arith, length-integer_bytes n u)

pub length-bytes_of : (n u : ℕ) → length (bytes_of n u) ≡ n
length-bytes_of zero u = refl
length-bytes_of (suc n) u = ap suc (length-bytes_of n u)

-- The bytes give the number back, if their sign is that of the number.
positive_back : (n k : ℕ) → n ≤ 4 → 0 < n → k < 2 ^ (8 * n - 1) → join_sum 0 (bytes_of n k) ≡ k
positive_back zero k h4 h0 h = absurd (omega arith)
positive_back (suc zero) k h4 h0 h = omega arith
positive_back (suc (suc zero)) k h4 h0 h = omega arith
positive_back (suc (suc (suc zero))) k h4 h0 h = omega arith
positive_back (suc (suc (suc (suc zero)))) k h4 h0 h = omega arith
positive_back (suc (suc (suc (suc (suc n))))) k h4 h0 h = absurd (omega arith)

negative_back :
    (n k : ℕ)
    → n ≤ 4
    → 0 < n
    → k < 2 ^ (8 * n - 1)
    → join_sum 0xffff_ffff (bytes_of n (2 ^ 32 - 1 - k)) ≡ 2 ^ 32 - 1 - k
negative_back zero k h4 h0 h = absurd (omega arith)
negative_back (suc zero) k h4 h0 h = omega arith
negative_back (suc (suc zero)) k h4 h0 h = omega arith
negative_back (suc (suc (suc zero))) k h4 h0 h = omega arith
negative_back (suc (suc (suc (suc zero)))) k h4 h0 h = omega arith
negative_back (suc (suc (suc (suc (suc n))))) k h4 h0 h = absurd (omega arith)

abbrev pub magnitude : ℤ → ℕ
magnitude (pos k) = k
magnitude (negsuc k) = k

-- The length that the encoder chooses: one of four, and enough for the magnitude and the sign.
pub integer_length_enough :
    (v : ℤ)
    → IsInt v
    → (0 < integer_length v)
      × (integer_length v ≤ 4)
      × (magnitude v < 2 ^ (8 * integer_length v - 1))
unfolding integer_length
integer_length_enough (pos k) h = ground arith
integer_length_enough (negsuc k) h = ground arith

-- The first byte shows the sign.
top_positive : (n k : ℕ) → suc n ≤ 4 → k < 2 ^ (8 * suc n - 1) → k / 2 ^ (8 * n) % 256 < 128
top_positive zero k h4 h = omega arith
top_positive (suc zero) k h4 h = omega arith
top_positive (suc (suc zero)) k h4 h = omega arith
top_positive (suc (suc (suc zero))) k h4 h = omega arith
top_positive (suc (suc (suc (suc n)))) k h4 h = absurd (omega arith)

top_negative :
    (n k : ℕ) → suc n ≤ 4 → k < 2 ^ (8 * suc n - 1) → 128 ≤ (2 ^ 32 - 1 - k) / 2 ^ (8 * n) % 256
top_negative zero k h4 h = omega arith
top_negative (suc zero) k h4 h = omega arith
top_negative (suc (suc zero)) k h4 h = omega arith
top_negative (suc (suc (suc zero))) k h4 h = omega arith
top_negative (suc (suc (suc (suc n)))) k h4 h = absurd (omega arith)

-- The sign filled up and the bytes joined give the bit pattern.
pub pattern_back :
    (n : ℕ) (v : ℤ)
    → suc n ≤ 4
    → magnitude v < 2 ^ (8 * suc n - 1)
    → join_sum (fill (to_unsigned v / 2 ^ (8 * n) % 256)) (bytes_of (suc n) (to_unsigned v))
      ≡ to_unsigned v
pattern_back n (pos k) h4 h =
    rw (fill_positive _ (top_positive n k h4 h)) (positive_back (suc n) k h4 (omega arith) h)
pattern_back n (negsuc k) h4 h =
    rw (fill_negative _ (top_negative n k h4 h) (omega arith))
      (negative_back (suc n) k h4 (omega arith) h)
