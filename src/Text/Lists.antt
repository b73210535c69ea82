-- ===== src/Text/Lists.antt =====
-- The commands that ask for a list.
use open_wrt_sdk.Common.{
  ℕ, zero, suc, ◌+◌, ◌%◌, ◌≤◌, ◌<◌, ◌≡◌, refl, sym, List, [], ◌∷◌, ◌++◌, map, length, length-append,
  arith, All, true, false, zeros, bytes_eq, none, some, get_elem?, get_elem?_between,
  get_elem?-length, Option, set, set_between, append_assoc,
}
use open_wrt_sdk.Outcome.{ok, fault, ◌>>=◌}
use open_wrt_sdk.Server.{bytes, overwrite}
use open_wrt_sdk.Sdk.{SdkParam}
use open_wrt_sdk.Text.{
  buffer_size, get_hw, get_sw, get_temp, get_relay, get_optical, get_dry, text, is_command,
  copy_chars, answer_number, answer_list, answer_buffer, received, threadworker,
}
use open_wrt_sdk.Text.Number.{text-append, answer_number-miss, answer_list-miss}

-- The loop of 20 rounds leaves a list that is shorter.
copy_chars_short :
    (rounds i : ℕ) (values buffer : List ℕ)
    → i ≤ length values
    → length values < i + rounds
    → copy_chars rounds i values buffer ≡ fault
unfolding copy_chars
copy_chars_short zero i values buffer h k = absurd (omega arith)
copy_chars_short (suc rounds) i values buffer h k = round (get_elem? values i) refl λ word e.
    copy_chars_short rounds (i + 1) values (set buffer i (word % 256))
      (omega (arith, get_elem?-length values i e)) (omega arith)
  where
    round :
        (value : Option ℕ)
        → get_elem? values i ≡ value
        → ((word : ℕ)
            → get_elem? values i ≡ some word
            → copy_chars rounds (i + 1) values (set buffer i (word % 256)) ≡ fault)
        → copy_chars (suc rounds) i values buffer ≡ fault
    round none e rest = rw (copy_chars, e) refl
    round (some word) e rest = rw (copy_chars, e) (rest word e)

abbrev low : ℕ → ℕ
low word = word % 256

zeros-suc : (k n : ℕ) → zeros (suc k + n) ≡ 0 ∷ zeros (k + n)
unfolding zeros
zeros-suc k n = rw (shift k n) refl
  where
    shift : (k n : ℕ) → suc k + n ≡ suc (k + n)
    shift k n = omega arith

copy_chars_whole :
    (done left front : List ℕ) (n : ℕ)
    → length front ≡ length done
    → copy_chars (length left) (length done) (done ++ left) (front ++ zeros (length left + n))
      ≡ ok (front ++ (map low left ++ zeros n))
unfolding copy_chars
copy_chars_whole done [] front n e = let same : 0 + n ≡ n = omega arith in rw same refl
copy_chars_whole done (x ∷ left) front n e =
    let longer = length-append done (x ∷ []) in
    let longer' = length-append front (low x ∷ []) in
    let ih =
      copy_chars_whole (done ++ x ∷ []) left (front ++ low x ∷ []) n
        (omega (arith, longer, longer', e)) in
    rw (copy_chars, get_elem?_between done left x)
      (rw written (
        rw
          (
            append_assoc done (x ∷ []) left,
            append_assoc front (low x ∷ []) (map low left ++ zeros n),
            longer,
          )
          at ih))
  where
    written :
        set (front ++ zeros (suc (length left) + n)) (length done) (x % 256)
        ≡ (front ++ low x ∷ []) ++ zeros (length left + n)
    written =
        rw (← e, zeros-suc (length left) n, set_between front (zeros (length left + n)) 0 (x % 256))
          (sym (append_assoc front (low x ∷ []) (zeros (length left + n))))

-- No command for a number is one for a list.
list_tests :
    All
      (λ name.
        (is_command name (received get_optical) ≡ false)
        × (is_command name (received get_dry) ≡ false))
      (get_hw ∷ get_sw ∷ get_temp ∷ get_relay ∷ [])
unfolding overwrite zeros bytes_eq
list_tests = ((refl, refl), ((refl, refl), ((refl, refl), ((refl, refl), tt))))

optical_test : is_command get_optical (received get_optical) ≡ true
unfolding overwrite zeros bytes_eq
optical_test = refl

dry_tests :
    (is_command get_optical (received get_dry) ≡ false)
    × (is_command get_dry (received get_dry) ≡ true)
unfolding overwrite zeros bytes_eq
dry_tests = (refl, refl)

shown : (text (received get_optical) ≡ ok get_optical) × (text (received get_dry) ≡ ok get_dry)
unfolding overwrite zeros text
shown = (refl, refl)

module _ (print : ℕ → List ℕ) (sdk : SdkParam) where
  passes :
      (name buffer : List ℕ) (word : ℕ)
      → is_command name buffer ≡ false
      → answer_number print name word buffer ≡ ok buffer
  passes name buffer word h = answer_number-miss print name buffer word h

  -- The four tests for a number leave the buffer as it is.
  numbers_passed :
      (buffer : List ℕ)
      → All (λ name. is_command name buffer ≡ false) (get_hw ∷ get_sw ∷ get_temp ∷ get_relay ∷ [])
      → answer_buffer print sdk buffer
        ≡ (answer_list get_optical sdk.optical_relay buffer >>= answer_list get_dry sdk.dry_contact)
  unfolding answer_buffer
  numbers_passed buffer (h₀, (h₁, (h₂, (h₃, _)))) = rw (passes get_hw buffer sdk.hw h₀) (
      rw (passes get_sw buffer sdk.sw h₁) (
        rw (passes get_temp buffer sdk.self_temp h₂)
          (rw (passes get_relay buffer sdk.relay h₃) refl)))

answer_list-hit :
    (name values buffer : List ℕ)
    → is_command name buffer ≡ true
    → answer_list name values buffer ≡ copy_chars 20 0 values (zeros buffer_size)
unfolding answer_list
answer_list-hit name values buffer h = rw h refl

-- "get_optical" makes the thread read behind the array of the optical relays, which has four
-- entries.
pub threadworker_optical :
    (print : ℕ → List ℕ) (sdk : SdkParam)
    → length sdk.optical_relay ≡ 4
    → threadworker print sdk (bytes get_optical) ≡ fault
unfolding threadworker
threadworker_optical print sdk four =
    let h = list_tests in
    rw shown.0 (
      rw
        (numbers_passed print sdk (received get_optical)
          (h.0.0, (h.1.0.0, (h.1.1.0.0, (h.1.1.1.0.0, tt)))))
        (rw (answer_list-hit get_optical sdk.optical_relay (received get_optical) optical_test) (
          rw
            (copy_chars_short 20 0 sdk.optical_relay (zeros buffer_size) (omega arith)
              (omega (arith, four)))
            refl)))

-- "get_dry" is answered by the low bytes of the 20 dry contacts, in their order, where none of them
-- is zero.
threadworker_dry :
    (print : ℕ → List ℕ) (sdk : SdkParam)
    → length sdk.dry_contact ≡ 20
    → All (λ b. 0 < b) (map low sdk.dry_contact)
    → threadworker print sdk (bytes get_dry) ≡ ok (some (map low sdk.dry_contact))
unfolding threadworker
threadworker_dry print sdk twenty chars =
    let h = list_tests in
    rw shown.1 (
      rw
        (numbers_passed print sdk (received get_dry)
          (h.0.1, (h.1.0.1, (h.1.1.0.1, (h.1.1.1.0.1, tt)))))
        (rw (answer_list-miss get_optical sdk.optical_relay (received get_dry) dry_tests.0) (
          rw (answer_list-hit get_dry sdk.dry_contact (received get_dry) dry_tests.1)
            (rw copied (rw (text-append (map low sdk.dry_contact) 235 chars) refl)))))
  where
    copied :
        copy_chars 20 0 sdk.dry_contact (zeros buffer_size)
        ≡ ok (map low sdk.dry_contact ++ zeros (suc 235))
    copied = rw twenty at (copy_chars_whole [] sdk.dry_contact [] 236 refl)
