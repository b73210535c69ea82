-- ===== src/Text/Number.antt =====
-- The commands that ask for a number.
use open_wrt_sdk.Common.{
  ℕ, suc, ◌-◌, ◌≤◌, ◌<◌, ◌≡◌, refl, List, [], ◌∷◌, ◌++◌, length, arith, All, true, false, lt→ltb,
  ◌==◌, zeros, bytes_eq, some,
}
use open_wrt_sdk.Outcome.{ok, ◌>>=◌}
use open_wrt_sdk.Server.{bytes, overwrite}
use open_wrt_sdk.Sdk.{SdkParam}
use open_wrt_sdk.Text.{
  buffer_size, get_hw, get_sw, get_temp, get_relay, get_optical, get_dry, text, is_command,
  print_into, answer_number, answer_list, answer_buffer, received, threadworker,
}

-- What `sprintf` writes for "%d": digits and the sign.
abbrev pub IsPrinted : ℕ → Type 0
IsPrinted b = (0x2d ≤ b) × (b ≤ 0x39)

pub record IsPrint (print : ℕ → List ℕ) : Type 0 where
  pub printed : (word : ℕ) → All IsPrinted (print word)
  pub short : (word : ℕ) → length (print word) ≤ 11

pub text-append : (s : List ℕ) (n : ℕ) → All (λ b. 0 < b) s → text (s ++ zeros (suc n)) ≡ ok s
unfolding text zeros
text-append [] n h = refl
text-append (b ∷ s) n h = rw (positive b h.0) (rw (text-append s n h.1) refl)
  where
    positive : (b : ℕ) → 0 < b → (b == 0) ≡ false
    positive b h = ground arith

-- A command begins with a letter, and a number does not.
abbrev IsName : List ℕ → Type 0
IsName [] = ⊥
IsName (c ∷ name) = c ≡ 0x67

not_command :
    (name s : List ℕ) (n : ℕ)
    → IsName name
    → All IsPrinted s
    → is_command name (s ++ zeros (suc n)) ≡ false
unfolding bytes_eq zeros
not_command [] s n h is = absurd h
not_command (c ∷ name) [] n h is = rw h refl
not_command (c ∷ name) (b ∷ s) n h is = rw h (rw (other b is.0) refl)
  where
    other : (b : ℕ) → IsPrinted b → (b == 0x67) ≡ false
    other b h = ground arith

answer_number-hit :
    (print : ℕ → List ℕ) (name buffer : List ℕ) (word : ℕ)
    → IsPrint print
    → is_command name buffer ≡ true
    → answer_number print name word buffer
      ≡ ok (print word ++ zeros (suc (255 - length (print word))))
unfolding answer_number print_into
answer_number-hit print name buffer word is h =
    rw (h, lt→ltb (length (print word)) buffer_size (omega (arith, is.short word)))
      (rw (room (length (print word)) (is.short word)) refl)
  where
    room : (n : ℕ) → n ≤ 11 → 256 - n ≡ suc (255 - n)
    room n h = omega arith

pub answer_number-miss :
    (print : ℕ → List ℕ) (name buffer : List ℕ) (word : ℕ)
    → is_command name buffer ≡ false
    → answer_number print name word buffer ≡ ok buffer
unfolding answer_number
answer_number-miss print name buffer word h = rw h refl

pub answer_list-miss :
    (name values buffer : List ℕ)
    → is_command name buffer ≡ false
    → answer_list name values buffer ≡ ok buffer
unfolding answer_list
answer_list-miss name values buffer h = rw h refl

-- Behind a number, none of the tests that are left finds a command.
module _ (print : ℕ → List ℕ) (sdk : SdkParam) (s : List ℕ) (n : ℕ) (is : All IsPrinted s) where
  number_missed :
      (name : List ℕ) (word : ℕ)
      → IsName name
      → answer_number print name word (s ++ zeros (suc n)) ≡ ok (s ++ zeros (suc n))
  number_missed name word h =
      answer_number-miss print name (s ++ zeros (suc n)) word (not_command name s n h is)

  lists_missed :
      (answer_list get_optical sdk.optical_relay (s ++ zeros (suc n))
        >>= answer_list get_dry sdk.dry_contact)
      ≡ ok (s ++ zeros (suc n))
  lists_missed =
      rw
        (answer_list-miss get_optical sdk.optical_relay (s ++ zeros (suc n))
          (not_command get_optical s n refl is))
        (answer_list-miss get_dry sdk.dry_contact (s ++ zeros (suc n))
          (not_command get_dry s n refl is))

-- What the thread writes, by what the tests leave in the buffer.
threadworker-answer_buffer :
    (print : ℕ → List ℕ) (sdk : SdkParam) (command s : List ℕ) (n : ℕ)
    → text (received command) ≡ ok command
    → All IsPrinted s
    → answer_buffer print sdk (received command) ≡ ok (s ++ zeros (suc n))
    → threadworker print sdk (bytes command) ≡ ok (some s)
unfolding threadworker
threadworker-answer_buffer print sdk command s n shown is run =
    rw shown (rw run (rw (text-append s n (positive s is)) refl))
  where
    positive : (s : List ℕ) → All IsPrinted s → All (λ b. 0 < b) s
    positive [] is = tt
    positive (b ∷ s) is = (omega (arith, is.0), positive s is.1)

-- The commands for a number, with the value that each asks for.
abbrev pub numbers : SdkParam → List (List ℕ × ℕ)
numbers sdk =
    (get_hw, sdk.hw) ∷ (get_sw, sdk.sw) ∷ (get_temp, sdk.self_temp) ∷ (get_relay, sdk.relay) ∷ []

-- What each of the four tests finds, command by command.
number_tests :
    (is_command get_hw (received get_hw) ≡ true)
    × (is_command get_hw (received get_sw) ≡ false)
    × (is_command get_sw (received get_sw) ≡ true)
    × (is_command get_hw (received get_temp) ≡ false)
    × (is_command get_sw (received get_temp) ≡ false)
    × (is_command get_temp (received get_temp) ≡ true)
    × (is_command get_hw (received get_relay) ≡ false)
    × (is_command get_sw (received get_relay) ≡ false)
    × (is_command get_temp (received get_relay) ≡ false)
    × (is_command get_relay (received get_relay) ≡ true)
unfolding overwrite zeros bytes_eq
number_tests = (refl, refl, refl, refl, refl, refl, refl, refl, refl, refl)

shown :
    (text (received get_hw) ≡ ok get_hw)
    × (text (received get_sw) ≡ ok get_sw)
    × (text (received get_temp) ≡ ok get_temp)
    × (text (received get_relay) ≡ ok get_relay)
unfolding overwrite zeros text
shown = (refl, refl, refl, refl)

module _ (print : ℕ → List ℕ) (sdk : SdkParam) (is : IsPrint print) where
  abbrev room : ℕ → ℕ
  room word = 255 - length (print word)

  hit :
      (name buffer : List ℕ) (word : ℕ)
      → is_command name buffer ≡ true
      → answer_number print name word buffer ≡ ok (print word ++ zeros (suc (room word)))
  hit name buffer word h = answer_number-hit print name buffer word is h

  missed :
      (word : ℕ) (name : List ℕ) (other : ℕ)
      → IsName name
      → answer_number print name other (print word ++ zeros (suc (room word)))
        ≡ ok (print word ++ zeros (suc (room word)))
  missed word = number_missed print sdk (print word) (room word) (is.printed word)

  end :
      (word : ℕ)
      → (answer_list get_optical sdk.optical_relay (print word ++ zeros (suc (room word)))
          >>= answer_list get_dry sdk.dry_contact)
        ≡ ok (print word ++ zeros (suc (room word)))
  end word = lists_missed print sdk (print word) (room word) (is.printed word)

  passes :
      (name command : List ℕ) (word : ℕ)
      → is_command name (received command) ≡ false
      → answer_number print name word (received command) ≡ ok (received command)
  passes name command word h = answer_number-miss print name (received command) word h

  reads_hw :
      answer_buffer print sdk (received get_hw) ≡ ok (print sdk.hw ++ zeros (suc (room sdk.hw)))
  unfolding answer_buffer
  reads_hw = rw (hit get_hw (received get_hw) sdk.hw number_tests.0) (
      rw (missed sdk.hw get_sw sdk.sw refl) (
        rw (missed sdk.hw get_temp sdk.self_temp refl)
          (rw (missed sdk.hw get_relay sdk.relay refl) (end sdk.hw))))

  reads_sw :
      answer_buffer print sdk (received get_sw) ≡ ok (print sdk.sw ++ zeros (suc (room sdk.sw)))
  unfolding answer_buffer
  reads_sw = rw (passes get_hw get_sw sdk.hw number_tests.1) (
      rw (hit get_sw (received get_sw) sdk.sw number_tests.2) (
        rw (missed sdk.sw get_temp sdk.self_temp refl)
          (rw (missed sdk.sw get_relay sdk.relay refl) (end sdk.sw))))

  reads_temp :
      answer_buffer print sdk (received get_temp)
      ≡ ok (print sdk.self_temp ++ zeros (suc (room sdk.self_temp)))
  unfolding answer_buffer
  reads_temp = rw (passes get_hw get_temp sdk.hw number_tests.3) (
      rw (passes get_sw get_temp sdk.sw number_tests.4) (
        rw (hit get_temp (received get_temp) sdk.self_temp number_tests.5)
          (rw (missed sdk.self_temp get_relay sdk.relay refl) (end sdk.self_temp))))

  reads_relay :
      answer_buffer print sdk (received get_relay)
      ≡ ok (print sdk.relay ++ zeros (suc (room sdk.relay)))
  unfolding answer_buffer
  reads_relay = rw (passes get_hw get_relay sdk.hw number_tests.6) (
      rw (passes get_sw get_relay sdk.sw number_tests.7) (
        rw (passes get_temp get_relay sdk.self_temp number_tests.8)
          (rw (hit get_relay (received get_relay) sdk.relay number_tests.9) (end sdk.relay))))

-- Each command for a number is answered by that number as `sprintf` prints it, and by nothing else;
-- `sprintf` writes only digits and a sign, at most 11 of them.
pub threadworker-numbers :
    (print : ℕ → List ℕ) (sdk : SdkParam)
    → IsPrint print
    → All (λ c. threadworker print sdk (bytes c.0) ≡ ok (some (print c.1))) (numbers sdk)
threadworker-numbers print sdk is = (
  threadworker-answer_buffer print sdk get_hw (print sdk.hw) _ shown.0 (is.printed sdk.hw)
      (reads_hw print sdk is),
  (
    threadworker-answer_buffer print sdk get_sw (print sdk.sw) _ shown.1 (is.printed sdk.sw)
        (reads_sw print sdk is),
    (
      threadworker-answer_buffer print sdk get_temp (print sdk.self_temp) _ shown.2
          (is.printed sdk.self_temp) (reads_temp print sdk is),
      (
        threadworker-answer_buffer print sdk get_relay (print sdk.relay) _ shown.3
            (is.printed sdk.relay) (reads_relay print sdk is),
        tt,
      ),
    ),
  ),
)
