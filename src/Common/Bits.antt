-- ===== src/Common/Bits.antt =====
-- The bit operations of the codecs as arithmetic, for every number.
use Prim.Native.Nat.{
  ℕ, zero, suc, ◌+◌, ◌*◌, ◌/◌, ◌%◌, ◌≤◌, ◌<◌, min, max, bit_and, bit_or, digits, bit_and-bitwise,
  bit_or-bitwise,
}
use mathlib.Core.Path.{◌≡◌, refl}
use native.Mathlib.Omega.{arith}

-- Both operations recur on the binary digits of the first number; more fuel changes nothing.
module _ (rest : ℕ → ℕ) (digit : ℕ → ℕ → ℕ) where
  digits_enough : (n m a b : ℕ) → a ≤ n → a ≤ m → digits rest digit n a b ≡ digits rest digit m a b
  digits_enough zero zero a b p q = refl
  digits_enough zero (suc m) zero b p q = refl
  digits_enough zero (suc m) (suc a) b p q = absurd (omega arith)
  digits_enough (suc n) zero zero b p q = refl
  digits_enough (suc n) zero (suc a) b p q = absurd (omega arith)
  digits_enough (suc n) (suc m) zero b p q = refl
  digits_enough (suc n) (suc m) (suc a) b p q =
      omega (arith, digits_enough n m (suc a / 2) (b / 2) (omega arith) (omega arith))

pub zero-bit_and : (b : ℕ) → bit_and 0 b ≡ 0
zero-bit_and b = bit_and-bitwise 0 b

pub zero-bit_or : (b : ℕ) → bit_or 0 b ≡ b
zero-bit_or b = bit_or-bitwise 0 b

-- The lowest digit apart.
bit_and_halve : (a b : ℕ) → bit_and a b ≡ bit_and (a / 2) (b / 2) * 2 + min (a % 2) (b % 2)
bit_and_halve zero b = omega (arith, zero-bit_and b, zero-bit_and (b / 2))
bit_and_halve (suc a) b = omega (
  arith,
  bit_and-bitwise (suc a) b,
  bit_and-bitwise (suc a / 2) (b / 2),
  digits_enough (λ b. zero) min a (suc a / 2) (suc a / 2) (b / 2) (omega arith) (omega arith),
)

bit_or_halve : (a b : ℕ) → bit_or a b ≡ bit_or (a / 2) (b / 2) * 2 + max (a % 2) (b % 2)
bit_or_halve zero b = omega (arith, zero-bit_or b, zero-bit_or (b / 2))
bit_or_halve (suc a) b = omega (
  arith,
  bit_or-bitwise (suc a) b,
  bit_or-bitwise (suc a / 2) (b / 2),
  digits_enough (λ b. b) max a (suc a / 2) (suc a / 2) (b / 2) (omega arith) (omega arith),
)

bit_and-zero_below : (n a : ℕ) → a ≤ n → bit_and a 0 ≡ 0
bit_and-zero_below n zero h = refl
bit_and-zero_below zero (suc a) h = absurd (omega arith)
bit_and-zero_below (suc n) (suc a) h =
    omega (arith, bit_and_halve (suc a) 0, bit_and-zero_below n (suc a / 2) (omega arith))

pub bit_and-zero : (a : ℕ) → bit_and a 0 ≡ 0
bit_and-zero a = bit_and-zero_below a a (omega arith)

bit_or-zero_below : (n a : ℕ) → a ≤ n → bit_or a 0 ≡ a
bit_or-zero_below n zero h = refl
bit_or-zero_below zero (suc a) h = absurd (omega arith)
bit_or-zero_below (suc n) (suc a) h =
    omega (arith, bit_or_halve (suc a) 0, bit_or-zero_below n (suc a / 2) (omega arith))

pub bit_or-zero : (a : ℕ) → bit_or a 0 ≡ a
bit_or-zero a = bit_or-zero_below a a (omega arith)

-- `& 0x7F` and `& 0xFF` keep the low digits, and each mask adds one.
bit_and-one : (a : ℕ) → bit_and a 1 ≡ a % 2
bit_and-one a = omega (arith, bit_and_halve a 1, bit_and-zero (a / 2))

bit_and_3 : (a : ℕ) → bit_and a 0x3 ≡ a % 4
bit_and_3 a = omega (arith, bit_and_halve a 0x3, bit_and-one (a / 2))

bit_and_7 : (a : ℕ) → bit_and a 0x7 ≡ a % 8
bit_and_7 a = omega (arith, bit_and_halve a 0x7, bit_and_3 (a / 2))

bit_and_f : (a : ℕ) → bit_and a 0xf ≡ a % 16
bit_and_f a = omega (arith, bit_and_halve a 0xf, bit_and_7 (a / 2))

bit_and_1f : (a : ℕ) → bit_and a 0x1f ≡ a % 32
bit_and_1f a = omega (arith, bit_and_halve a 0x1f, bit_and_f (a / 2))

bit_and_3f : (a : ℕ) → bit_and a 0x3f ≡ a % 64
bit_and_3f a = omega (arith, bit_and_halve a 0x3f, bit_and_1f (a / 2))

pub bit_and_7f : (a : ℕ) → bit_and a 0x7f ≡ a % 128
bit_and_7f a = omega (arith, bit_and_halve a 0x7f, bit_and_3f (a / 2))

pub bit_and_ff : (a : ℕ) → bit_and a 0xff ≡ a % 256
bit_and_ff a = omega (arith, bit_and_halve a 0xff, bit_and_7f (a / 2))

-- A mask that begins 8 places up sees the number shifted down.
bit_and_double : (a b : ℕ) → bit_and a (b * 2) ≡ bit_and (a / 2) b * 2
bit_and_double a b =
    let half : b * 2 / 2 ≡ b = omega arith in omega (arith, rw half at (bit_and_halve a (b * 2)))

pub bit_and_shift8 : (a b : ℕ) → bit_and a (b * 256) ≡ bit_and (a / 256) b * 256
bit_and_shift8 a b =
    let grow : b * 256 ≡ b * 2 * 2 * 2 * 2 * 2 * 2 * 2 * 2 = omega arith in
    let shrink : a / 2 / 2 / 2 / 2 / 2 / 2 / 2 / 2 ≡ a / 256 = omega arith in
    rw grow (simp (bit_and_double, shrink) (omega arith))

-- `& 0x80` tests the digit of 128.
bit_and_shift7 : (a b : ℕ) → bit_and a (b * 128) ≡ bit_and (a / 128) b * 128
bit_and_shift7 a b =
    let grow : b * 128 ≡ b * 2 * 2 * 2 * 2 * 2 * 2 * 2 = omega arith in
    let shrink : a / 2 / 2 / 2 / 2 / 2 / 2 / 2 ≡ a / 128 = omega arith in
    rw grow (simp (bit_and_double, shrink) (omega arith))

pub bit_and_80 : (a : ℕ) → bit_and a 0x80 ≡ a / 128 % 2 * 128
bit_and_80 a = omega (arith, bit_and_shift7 a 1, bit_and-one (a / 128))

-- `| 0x80` on a group of seven digits.
bit_or_even : (a b : ℕ) → bit_or a (b * 2) ≡ bit_or (a / 2) b * 2 + a % 2
bit_or_even a b =
    let half : b * 2 / 2 ≡ b = omega arith in omega (arith, rw half at (bit_or_halve a (b * 2)))

bit_or_shift7 : (a b : ℕ) → a < 128 → bit_or a (b * 128) ≡ b * 128 + a
bit_or_shift7 a b h =
    let grow : b * 128 ≡ b * 2 * 2 * 2 * 2 * 2 * 2 * 2 = omega arith in
    let none_left : a / 2 / 2 / 2 / 2 / 2 / 2 / 2 ≡ 0 = omega arith in
    rw grow (simp (bit_or_even, none_left, zero-bit_or) (omega arith))

pub bit_or_80 : (a : ℕ) → a < 128 → bit_or a 0x80 ≡ a + 128
bit_or_80 a h = omega (arith, bit_or_shift7 a 1 h)

-- A byte joins a number that was shifted up by 8.
bit_or_double : (a b : ℕ) → bit_or (a * 2) b ≡ bit_or a (b / 2) * 2 + b % 2
bit_or_double a b =
    let half : a * 2 / 2 ≡ a = omega arith in omega (arith, rw half at (bit_or_halve (a * 2) b))

pub bit_or_shift8 : (a b : ℕ) → b < 256 → bit_or (a * 256) b ≡ a * 256 + b
bit_or_shift8 a b h =
    let grow : a * 256 ≡ a * 2 * 2 * 2 * 2 * 2 * 2 * 2 * 2 = omega arith in
    let none_left : b / 2 / 2 / 2 / 2 / 2 / 2 / 2 / 2 ≡ 0 = omega arith in
    rw grow (simp (bit_or_double, none_left, bit_or-zero) (omega arith))
