-- ===== src/Encode/Subids.antt =====
-- The groups of seven bits of a subid: the decoder reads back what the encoder of OIDs writes.
use open_wrt_sdk.Common.{
  ℕ, zero, suc, ◌+◌, ◌*◌, ◌/◌, ◌%◌, ◌^◌, ◌≤◌, ◌<◌, ◌≡◌, refl, ap, ◌∙◌, bit_and, bit_or, List, [],
  ◌∷◌, ◌++◌, length, length-append, append-nil, append_assoc, arith, true, ltb, tests, All,
}
use open_wrt_sdk.Common.Bits.{bit_and_7f, bit_and_80, bit_or_80}
use open_wrt_sdk.Types.{max_nr_subids}
use open_wrt_sdk.Outcome.{ok}
use open_wrt_sdk.Outcome.Holds.{Holds, Holds-append}
use open_wrt_sdk.Decode.{decode_subid, decode_subids}
use open_wrt_sdk.Decode.Oids.{IsSubid}
use open_wrt_sdk.Encode.{subid_length, subid_group, subid_bytes, subids_length, subids_bytes}
use native.Mathlib.Nat.{add-zero}

-- One byte of a subid, in plain arithmetic.
last_group : (s : ℕ) → (subid_group 0 s ≡ s % 128) × (bit_and (s % 128) 0x80 ≡ 0)
unfolding subid_group
last_group s = (bit_and_7f s, omega (arith, bit_and_80 (s % 128)))

inner_group : (n s : ℕ) → subid_group (suc n) s ≡ s / 2 ^ (7 * suc n) % 128 + 128
unfolding subid_group
inner_group n s =
    let g = s / 2 ^ (7 * suc n) in
    ap (λ k. bit_or k 0x80) (bit_and_7f g) ∙ bit_or_80 (g % 128) (omega arith)

-- What the decoder's inner loop makes of the bytes.
abbrev subid_sum : ℕ → ℕ → ℕ → ℕ
subid_sum acc zero s = acc
subid_sum acc (suc n) s = subid_sum ((acc * 2 ^ 7 % 2 ^ 32 + s / 2 ^ (7 * n) % 128) % 2 ^ 32) n s

decode_subid_back :
    (packet : List ℕ) (n l extra at acc s : ℕ)
    → l ≡ n + extra
    → Holds packet at (subid_bytes (suc n) s)
    → decode_subid packet (suc l) at acc ≡ ok (subid_sum acc (suc n) s, extra, at + suc n)
unfolding decode_subid subid_bytes
decode_subid_back packet zero l extra at acc s e holds =
    ground (arith, last_group s, bit_and_7f (s % 128))
decode_subid_back packet (suc n) zero extra at acc s e holds = absurd (omega arith)
decode_subid_back packet (suc n) (suc l) extra at acc s e holds = ground (
  arith,
  inner_group n s,
  bit_and_7f (s / 2 ^ (7 * suc n) % 128 + 128),
  bit_and_80 (s / 2 ^ (7 * suc n) % 128 + 128),
  decode_subid_back packet n l extra (at + 1)
      ((acc * 2 ^ 7 % 2 ^ 32 + s / 2 ^ (7 * suc n) % 128) % 2 ^ 32) s (omega arith) holds.1,
)

subid_sum_back : (n s : ℕ) → n ≤ 5 → s < 2 ^ (7 * n) → s < 2 ^ 32 → subid_sum 0 n s ≡ s
subid_sum_back zero s h5 h hs = omega arith
subid_sum_back (suc zero) s h5 h hs = omega arith
subid_sum_back (suc (suc zero)) s h5 h hs = omega arith
subid_sum_back (suc (suc (suc zero))) s h5 h hs = omega arith
subid_sum_back (suc (suc (suc (suc zero)))) s h5 h hs = omega arith
subid_sum_back (suc (suc (suc (suc (suc zero))))) s h5 h hs = omega arith
subid_sum_back (suc (suc (suc (suc (suc (suc n)))))) s h5 h hs = absurd (omega arith)

subid_length_enough :
    (s : ℕ)
    → s < 2 ^ 32
    → (0 < subid_length s) × (subid_length s ≤ 5) × (s < 2 ^ (7 * subid_length s))
unfolding subid_length
subid_length_enough s h = ground arith

-- One subid of the encoding is read back.
subid_back :
    (packet : List ℕ) (s k l extra at : ℕ)
    → s < 2 ^ 32
    → subid_length s ≡ k
    → suc l ≡ k + extra
    → Holds packet at (subid_bytes k s)
    → decode_subid packet (suc l) at 0 ≡ ok (s, extra, at + k)
subid_back packet s zero l extra at hs hk hl holds =
    absurd (omega (arith, subid_length_enough s hs))
subid_back packet s (suc n) l extra at hs hk hl holds =
    decode_subid_back packet n l extra at 0 s (omega arith) holds
    ∙ ap (λ w. ok (w, extra, at + suc n))
        (subid_sum_back (suc n) s (omega (arith, subid_length_enough s hs))
          (rw hk at (subid_length_enough s hs).2) hs)

length-subid_bytes : (n s : ℕ) → length (subid_bytes n s) ≡ n
unfolding subid_bytes
length-subid_bytes zero s = refl
length-subid_bytes (suc n) s = ap suc (length-subid_bytes n s)

pub decode_subids_back :
    (rounds : ℕ) (packet : List ℕ) (len at : ℕ) (subids rest : List ℕ)
    → len ≡ subids_length rest
    → length rest < rounds
    → length subids + length rest ≤ max_nr_subids
    → All IsSubid rest
    → Holds packet at (subids_bytes rest)
    → decode_subids rounds packet len at subids ≡ ok (subids ++ rest, at + len)
unfolding decode_subids subids_length subids_bytes
decode_subids_back rounds packet zero at subids [] e hr h16 hs holds = rw (append-nil, add-zero)
decode_subids_back rounds packet (suc len) at subids [] e hr h16 hs holds = absurd (omega arith)
decode_subids_back rounds packet zero at subids (s ∷ rest) e hr h16 hs holds =
    absurd (omega (arith, subid_length_enough s hs.0))
decode_subids_back zero packet (suc len) at subids (s ∷ rest) e hr h16 hs holds =
    absurd (omega arith)
decode_subids_back (suc rounds) packet (suc len) at subids (s ∷ rest) e hr h16 hs holds =
    let k = subid_length s in
    let (held, after) = Holds-append packet at (subid_bytes k s) (subids_bytes rest) holds in
    let after' = rw (length-subid_bytes k s) at after in
    let room : ltb (length subids) max_nr_subids ≡ true = omega tests in
    let longer = length-append subids (s ∷ []) in
    let ends : at + k + subids_length rest ≡ at + suc len = omega arith in
    rw (room, subid_back packet s k len (subids_length rest) at hs.0 refl e held)
      (decode_subids_back rounds packet (subids_length rest) (at + k) (subids ++ s ∷ []) rest refl
          (omega arith) (omega (arith, longer)) hs.1 after'
        ∙ cc (append_assoc subids (s ∷ []) rest, ends))

-- The OIDs that BER can carry and the decoder reads: at least two subids, the first two of which
-- share a byte below 128, and at most 16 in all.
abbrev pub IsEncodable : List ℕ → Type 0
IsEncodable [] = ⊥
IsEncodable (s₀ ∷ []) = ⊥
IsEncodable (s₀ ∷ s₁ ∷ rest) =
    (s₁ < 40) × (s₀ * 40 + s₁ < 128) × (length rest + 2 ≤ max_nr_subids) × All IsSubid rest

pub subids_length-le : (rest : List ℕ) → subids_length rest ≤ 5 * length rest
unfolding subids_length
subids_length-le [] = omega arith
subids_length-le (s ∷ rest) = omega (arith, five s, subids_length-le rest)
  where
    five : (s : ℕ) → subid_length s ≤ 5
    five s = unfold subid_length in ground arith

pub length-subids_bytes : (rest : List ℕ) → length (subids_bytes rest) ≡ subids_length rest
unfolding subids_length subids_bytes
length-subids_bytes [] = refl
length-subids_bytes (s ∷ rest) = omega (
  arith,
  length-append (subid_bytes (subid_length s) s) (subids_bytes rest),
  length-subid_bytes (subid_length s) s,
  length-subids_bytes rest,
)
