-- ===== src/Linux.antt =====
-- The readings of src/linux.c, and `read_file`, `read_value` and `read_values` of src/utils.c. What
-- a file holds and what the system calls return are arguments; `strstr`, `isspace` and `strtoul` are
-- parameters.
pub mod Values
pub mod System
pub mod Network
use open_wrt_sdk.Common.{
  ℕ, zero, suc, ◌+◌, ◌-◌, ◌^◌, ◌%◌, Bool, ◌==◌, if◌then◌else◌, List, [], ◌∷◌, ◌++◌, map, length,
  take, drop, zeros, get_or, Option, none, some,
}

-- `strstr` gives the text from the first match on, `strtoul` the number and what it leaves.
pub record Strings : Type 0 where
  pub strstr : List ℕ → List ℕ → Option (List ℕ)
  pub is_space : ℕ → Bool
  pub strtoul : List ℕ → ℕ × List ℕ

-- The text in the buffer; `none` is a result of -1. A file that cannot be opened is `none`.
unfoldable pub read_file : Option (List ℕ) → ℕ → Option (List ℕ)
read_file file size = elim file [
  | none ↦ none
  | some content ↦
      if length (take (size - 1) content) == 0 then none else some (take (size - 1) content)
]

unfoldable pub skip_space : (ℕ → Bool) → List ℕ → List ℕ
skip_space is_space [] = []
skip_space is_space (c ∷ text) =
    let rest = skip_space is_space text in if is_space c then rest else c ∷ text

-- The number at the front of a text as an `unsigned int`, 0 at its end, and the text behind it.
unfoldable pub number_at : Strings → List ℕ → ℕ × List ℕ
number_at s [] = (0, [])
number_at s (c ∷ text) = let (value, rest) = s.strtoul (c ∷ text) in (value % 2 ^ 32, rest)

unfoldable pub read_value : Strings → List ℕ → List ℕ → ℕ
read_value s text prefix = elim (s.strstr text prefix) [
  | none ↦ 0
  | some found ↦ (number_at s (skip_space s.is_space (drop (length prefix) found))).0
]

-- The loop over the values, by the rounds that are left.
unfoldable pub next_values : Strings → ℕ → List ℕ → List ℕ
next_values s zero text = []
next_values s (suc count) text =
    let (value, rest) = number_at s (skip_space s.is_space text) in value ∷ next_values s count rest

unfoldable pub read_values : Strings → List ℕ → List ℕ → ℕ → List ℕ
read_values s text prefix count = elim (s.strstr text prefix) [
  | none ↦ zeros count
  | some found ↦ next_values s count (drop (length prefix) found)
]
