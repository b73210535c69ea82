-- ===== src/Linux/Values.antt =====
-- `read_values` reads back a line of numbers.
use open_wrt_sdk.Common.{
  ℕ, zero, suc, ◌≤◌, ◌<◌, ◌^◌, ◌%◌, ◌≡◌, refl, ap, sym, ◌∙◌, true, false, List, [], ◌∷◌, ◌++◌,
  length, take, drop-append, All, zeros, arith, some, append-nil,
}
use open_wrt_sdk.Linux.{Strings, skip_space, number_at, next_values, read_values}

-- What `isspace` and `strtoul` do on numbers behind blanks: a blank is a space, a printed number
-- begins with none, and is read up to the next blank or the end.
pub record IsStrings (print : ℕ → List ℕ) (s : Strings) : Type 0 where
  pub blank : s.is_space 0x20 ≡ true
  pub first :
      (n : ℕ) → (c : ℕ) × (digits : List ℕ) × (print n ≡ c ∷ digits) × (s.is_space c ≡ false)
  pub at_end : (n : ℕ) → s.strtoul (print n) ≡ (n, [])
  pub at_blank : (n : ℕ) (rest : List ℕ) → s.strtoul (print n ++ 0x20 ∷ rest) ≡ (n, 0x20 ∷ rest)

-- A line: a blank and the number, for each number.
abbrev pub line : (ℕ → List ℕ) → List ℕ → List ℕ
line print [] = []
line print (n ∷ numbers) = 0x20 ∷ (print n ++ line print numbers)

take-zeros : (count missing : ℕ) → count ≤ missing → take count (zeros missing) ≡ zeros count
unfolding zeros
take-zeros zero missing le = refl
take-zeros (suc count) zero le = absurd (omega arith)
take-zeros (suc count) (suc missing) le = ap (◌∷◌ 0) (take-zeros count missing (omega arith))

module _ (print : ℕ → List ℕ) (s : Strings) (is : IsStrings print s) where
  number_at-line :
      (n : ℕ) (numbers : List ℕ)
      → n < 2 ^ 32
      → number_at s (skip_space s.is_space (line print (n ∷ numbers))) ≡ (n, line print numbers)
  unfolding skip_space number_at
  number_at-line n numbers small =
      let (c, digits, shown, visible) = is.first n in
      let as_read =
        ap (λ text. s.strtoul (text ++ line print numbers)) (sym shown) ∙ read n numbers in
      let fits : n % 2 ^ 32 ≡ n = omega arith in
      rw is.blank (rw (shown, visible, as_read) (rw fits refl))
    where
      read :
          (n : ℕ) (numbers : List ℕ)
          → s.strtoul (print n ++ line print numbers) ≡ (n, line print numbers)
      read n [] = rw append-nil (is.at_end n)
      read n (m ∷ numbers) = is.at_blank n (print m ++ line print numbers)

  next_values_end : (count : ℕ) → next_values s count [] ≡ zeros count
  unfolding next_values number_at skip_space zeros
  next_values_end zero = refl
  next_values_end (suc count) = ap (◌∷◌ 0) (next_values_end count)

  next_values_lem :
      (count missing : ℕ) (numbers : List ℕ)
      → All (λ n. n < 2 ^ 32) numbers
      → count ≤ missing
      → next_values s count (line print numbers) ≡ take count (numbers ++ zeros missing)
  unfolding next_values
  next_values_lem zero missing numbers small le = refl
  next_values_lem (suc count) missing [] small le =
      next_values_end (suc count) ∙ sym (take-zeros (suc count) missing le)
  next_values_lem (suc count) missing (n ∷ numbers) small le =
      rw (number_at-line n numbers small.0)
        (ap (◌∷◌ n) (next_values_lem count missing numbers small.1 (omega arith)))

-- Where the text has the prefix, and behind its first place a line of 32-bit numbers,
-- `read_values` returns
-- the first `count` of them, and 0 for each that is missing.
pub read_values_lem :
    (print : ℕ → List ℕ) (s : Strings) (text prefix numbers : List ℕ) (count : ℕ)
    → IsStrings print s
    → All (λ n. n < 2 ^ 32) numbers
    → s.strstr text prefix ≡ some (prefix ++ line print numbers)
    → read_values s text prefix count ≡ take count (numbers ++ zeros count)
unfolding read_values
read_values_lem print s text prefix numbers count is small h =
    rw (read_values, h)
      (rw (drop-append prefix (line print numbers) (length prefix) refl)
        (next_values_lem print s is count count numbers small (omega arith)))
