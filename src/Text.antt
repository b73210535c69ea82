-- ===== src/Text.antt =====
-- The text server of src/server.c: what a thread answers to the message that it reads. `sprintf` is
-- the parameter `print`; the values are words of 32 bits.
pub mod Number
pub mod Lists
pub mod Accept
use open_wrt_sdk.Common.{
  ℕ, zero, suc, ◌+◌, ◌-◌, ◌%◌, Bool, List, [], ◌∷◌, ◌++◌, length, ltb, ◌==◌, if◌then◌else◌, take,
  set, zeros, bytes_eq, get_elem?, Option, none, some,
}
use open_wrt_sdk.Outcome.{Outcome, ok, fault, ◌>>=◌}
use open_wrt_sdk.Sdk.{SdkParam}
use open_wrt_sdk.Server.{Received, failed, bytes, overwrite}

abbrev pub buffer_size : ℕ
buffer_size = 256

-- "get_hw", "get_sw", "get_temp", "get_relay", "get_dry" and "get_optical"
abbrev pub get_hw : List ℕ
get_hw = 0x67 ∷ 0x65 ∷ 0x74 ∷ 0x5f ∷ 0x68 ∷ 0x77 ∷ []

abbrev pub get_sw : List ℕ
get_sw = 0x67 ∷ 0x65 ∷ 0x74 ∷ 0x5f ∷ 0x73 ∷ 0x77 ∷ []

abbrev pub get_temp : List ℕ
get_temp = 0x67 ∷ 0x65 ∷ 0x74 ∷ 0x5f ∷ 0x74 ∷ 0x65 ∷ 0x6d ∷ 0x70 ∷ []

abbrev pub get_relay : List ℕ
get_relay = 0x67 ∷ 0x65 ∷ 0x74 ∷ 0x5f ∷ 0x72 ∷ 0x65 ∷ 0x6c ∷ 0x61 ∷ 0x79 ∷ []

abbrev pub get_dry : List ℕ
get_dry = 0x67 ∷ 0x65 ∷ 0x74 ∷ 0x5f ∷ 0x64 ∷ 0x72 ∷ 0x79 ∷ []

abbrev pub get_optical : List ℕ
get_optical = 0x67 ∷ 0x65 ∷ 0x74 ∷ 0x5f ∷ 0x6f ∷ 0x70 ∷ 0x74 ∷ 0x69 ∷ 0x63 ∷ 0x61 ∷ 0x6c ∷ []

-- The string at the front of an array: what `printf` and `strlen` read.
unfoldable pub text : List ℕ → Outcome (List ℕ)
text [] = fault
text (b ∷ buffer) = let rest = text buffer in if b == 0 then ok [] else rest >>= λ s. ok (b ∷ s)

-- `strcmp(buffer, name) == 0`
abbrev pub is_command : List ℕ → List ℕ → Bool
is_command name buffer = bytes_eq (take (suc (length name)) buffer) (name ++ 0 ∷ [])

-- `bzero` and `sprintf`.
unfoldable pub print_into : List ℕ → Outcome (List ℕ)
print_into printed =
    if ltb (length printed) buffer_size
    then ok (printed ++ zeros (buffer_size - length printed))
    else fault

unfoldable pub answer_number : (ℕ → List ℕ) → List ℕ → ℕ → List ℕ → Outcome (List ℕ)
answer_number print name word buffer =
    if is_command name buffer then print_into (print word) else ok buffer

-- The loop from index `i` on, by the rounds that are left; a `char` takes the low byte.
unfoldable pub copy_chars : ℕ → ℕ → List ℕ → List ℕ → Outcome (List ℕ)
copy_chars zero i values buffer = ok buffer
copy_chars (suc rounds) i values buffer = elim (get_elem? values i) [
  | none ↦ fault
  | some word ↦ copy_chars rounds (i + 1) values (set buffer i (word % 256))
]

unfoldable pub answer_list : List ℕ → List ℕ → List ℕ → Outcome (List ℕ)
answer_list name values buffer =
    if is_command name buffer then copy_chars 20 0 values (zeros buffer_size) else ok buffer

-- The six tests, each on what the one before left in the buffer.
unfoldable pub answer_buffer : (ℕ → List ℕ) → SdkParam → List ℕ → Outcome (List ℕ)
answer_buffer print sdk buffer = do
  b₁ ← answer_number print get_hw sdk.hw buffer
  b₂ ← answer_number print get_sw sdk.sw b₁
  b₃ ← answer_number print get_temp sdk.self_temp b₂
  b₄ ← answer_number print get_relay sdk.relay b₃
  b₅ ← answer_list get_optical sdk.optical_relay b₄
  answer_list get_dry sdk.dry_contact b₅

-- The buffer after `bzero` and `read`.
abbrev pub received : List ℕ → List ℕ
received input = overwrite (zeros buffer_size) 0 (take buffer_size input)

-- What the thread writes, unless the read fails.
unfoldable pub threadworker : (ℕ → List ℕ) → SdkParam → Received → Outcome (Option (List ℕ))
threadworker print sdk failed = ok none
threadworker print sdk (bytes input) = do
  shown ← text (received input)
  buffer ← answer_buffer print sdk (received input)
  reply ← text buffer
  ok (some reply)
