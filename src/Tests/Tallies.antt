-- ===== src/Tests/Tallies.antt =====
-- Numbers as tallies, a text that can be read back: the stroke is the character '1', and a number
-- has one more.
use open_wrt_sdk.Common.{
  ℕ, zero, suc, ◌-◌, ◌≡◌, refl, ◌==◌, if◌then◌else◌, List, [], ◌∷◌, ◌++◌, append-nil, arith, Bool,
  true, false, Option, some, none,
}
use open_wrt_sdk.Linux.{Strings}
use open_wrt_sdk.Linux.Values.{IsStrings}
use open_wrt_sdk.Format.Back.{IsStrtoul}

abbrev strokes : ℕ → List ℕ
strokes zero = []
strokes (suc n) = 0x31 ∷ strokes n

abbrev pub tally : ℕ → List ℕ
tally n = 0x31 ∷ strokes n

abbrev count : List ℕ → ℕ × List ℕ
count [] = (0, [])
count (c ∷ text) =
    let rest = count text in if c == 0x31 then (suc rest.0, rest.1) else (0, c ∷ text)

abbrev pub read_tally : List ℕ → ℕ × List ℕ
read_tally text = ((count text).0 - 1, (count text).1)

count-strokes :
    (n : ℕ) (rest : List ℕ) → count rest ≡ (0, rest) → count (strokes n ++ rest) ≡ (n, rest)
count-strokes zero rest h = h
count-strokes (suc n) rest h = rw (count-strokes n rest h) refl

read-tally :
    (n : ℕ) (rest : List ℕ) → count rest ≡ (0, rest) → read_tally (tally n ++ rest) ≡ (n, rest)
read-tally n rest h =
    let less : suc n - 1 ≡ n = omega arith in rw (count-strokes n rest h) (rw less refl)

read-tally_end : (n : ℕ) → read_tally (tally n) ≡ (n, [])
read-tally_end n = rw append-nil at (read-tally n [] refl)

pub tally-IsStrtoul : IsStrtoul tally read_tally
tally-IsStrtoul = record {
  printed = λ s h. omega arith;
  at_end = λ s h. read-tally_end s;
  at_dot = λ s rest h. read-tally s (0x2e ∷ rest) refl;
}

-- The first place of a text where another begins.
abbrev begins : List ℕ → List ℕ → Bool
begins [] text = true
begins (p ∷ prefix) [] = false
begins (p ∷ prefix) (c ∷ text) = let rest = begins prefix text in if p == c then rest else false

abbrev find_text : List ℕ → List ℕ → Option (List ℕ)
find_text [] prefix = if begins prefix [] then some [] else none
find_text (c ∷ text) prefix =
    let rest = find_text text prefix in if begins prefix (c ∷ text) then some (c ∷ text) else rest

abbrev pub strings : Strings
strings = record { strstr = find_text; is_space = λ c. c == 0x20; strtoul = read_tally }

strings-IsStrings : IsStrings tally strings
strings-IsStrings = record {
  blank = refl;
  first = λ n. (0x31, strokes n, refl, refl);
  at_end = read-tally_end;
  at_blank = λ n rest. read-tally n (0x20 ∷ rest) refl;
}
