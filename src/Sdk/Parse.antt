-- ===== src/Sdk/Parse.antt =====
-- The parsing of a status answer in src/parser_sdk.c. A `char` of the answer is a word of 32 bits.
-- `strtol` is a parameter: it is given the array at the place of its argument, and reads it as far
-- as it has to.
use open_wrt_sdk.Common.{
  ℕ, zero, suc, ◌+◌, ◌^◌, ◌≤◌, ◌<◌, ◌≡◌, ◌==◌, leb, ◌&&◌, ◌||◌, Bool, false, refl, List, [], ◌∷◌,
  length, arith, All, lt→ltb, get_or,
}
use open_wrt_sdk.Outcome.{Outcome, ok, fault, ◌>>=◌, byte_at}
use open_wrt_sdk.Sdk.{SdkParam}

-- The two characters that go to `tmp_buf`.
unfoldable pub two_chars : List ℕ → ℕ → Outcome (List ℕ)
two_chars answer i = do
  first ← byte_at answer i
  second ← byte_at answer (i + 1)
  ok (first ∷ second ∷ [])

-- The characters from place `i` on, by the rounds that are left.
unfoldable pub read_chars : ℕ → ℕ → List ℕ → Outcome (List ℕ)
read_chars zero i answer = ok []
read_chars (suc rounds) i answer = do
  char ← byte_at answer i
  rest ← read_chars rounds (i + 1) answer
  ok (char ∷ rest)

-- `ascii_to_int(tmp_buf)`
unfoldable pub read_hex : (List ℕ → Outcome ℕ) → List ℕ → ℕ → Outcome ℕ
read_hex strtol answer i = two_chars answer i >>= strtol

unfoldable pub parse_status : (List ℕ → Outcome ℕ) → List ℕ → SdkParam → Outcome SdkParam
parse_status strtol answer sdk = do
  self_temp ← read_hex strtol answer 40
  hw ← read_hex strtol answer 6
  sw ← read_hex strtol answer 8
  relay ← byte_at answer 19
  dry_contact ← read_chars 20 20 answer
  ok (record sdk {
    self_temp = self_temp;
    hw = hw;
    sw = sw;
    relay = relay;
    dry_contact = dry_contact;
  })

-- A digit that is one in base 16 and base 10.
abbrev pub IsDigit : ℕ → Type 0
IsDigit b = (0x30 ≤ b) × (b ≤ 0x39)

-- The character is between two others.
abbrev pub between : ℕ → ℕ → ℕ → Bool
between low high c = leb low c && leb c high

-- The characters that `strtol` reads on at in base 16: white space, a sign, `x` or `X`, a digit.
unfoldable pub reads_on : ℕ → Bool
reads_on c =
    between 0x09 0x0d c
    || c == 0x20
    || c == 0x2b
    || c == 0x2d
    || c == 0x58
    || c == 0x78
    || between 0x30 0x39 c
    || between 0x41 0x46 c
    || between 0x61 0x66 c

-- What ISO C says of `strtol` where it is given the characters of an array: digits up to the end of
-- the array make it read behind it, and it reads no further than a character that cannot be one of
-- a number; its result, as an `int`, is a word.
pub record ReadsNumbers (strtol : List ℕ → Outcome ℕ) : Type 0 where
  pub overrun : (digits : List ℕ) → All IsDigit digits → strtol digits ≡ fault
  pub ends :
      (first second : ℕ)
      → reads_on second ≡ false
      → (n : ℕ) × (strtol (first ∷ second ∷ []) ≡ ok n) × (n < 2 ^ 32)

pub byte_at-get_or :
    (answer : List ℕ) (i : ℕ) → i < length answer → byte_at answer i ≡ ok (get_or answer i 0)
unfolding byte_at
byte_at-get_or answer i h = rw (lt→ltb i (length answer) h) refl

-- A temperature of two digits makes `strtol` read behind `tmp_buf`.
pub parse_status_overrun :
    (strtol : List ℕ → Outcome ℕ) (answer : List ℕ) (sdk : SdkParam)
    → ReadsNumbers strtol
    → 42 ≤ length answer
    → IsDigit (get_or answer 40 0)
    → IsDigit (get_or answer 41 0)
    → parse_status strtol answer sdk ≡ fault
unfolding parse_status read_hex two_chars
parse_status_overrun strtol answer sdk is long first second =
    rw (byte_at-get_or answer 40 (omega arith)) (
      rw (byte_at-get_or answer 41 (omega arith))
        (rw (is.overrun (get_or answer 40 0 ∷ get_or answer 41 0 ∷ []) (first, (second, tt))) refl))
