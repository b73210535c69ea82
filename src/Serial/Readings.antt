-- ===== src/Serial/Readings.antt =====
-- From an answer of the device to the readings of the MIB.
use open_wrt_sdk.Common.{
  ℕ, zero, suc, ◌+◌, ◌≤◌, ◌<◌, ◌^◌, ◌≡◌, refl, ap, ◌∙◌, List, [], ◌∷◌, ◌++◌, map, length,
  length-drop, All, take-append_long, drop-append_long, drop-append_drop, get_or-append_front, take,
  drop, get_or, lt→ltb, arith, false,
}
use open_wrt_sdk.Outcome.{Outcome, ok, fault, ◌>>=◌, byte_at}
use open_wrt_sdk.Server.{bytes, overwrite}
use open_wrt_sdk.Sdk.{SdkParam, contact, get_sdkinfo}
use open_wrt_sdk.Sdk.Parse.{
  IsDigit, parse_status_overrun, reads_on, ReadsNumbers, two_chars, read_chars, read_hex,
  parse_status, byte_at-get_or,
}
use open_wrt_sdk.Server.Buffers.{length-overwrite}
use open_wrt_sdk.Serial.{answer_size, buffer_size, Exchange, ready, poll}
use open_wrt_sdk.Serial.Polls.{Fails, poll_lem}

drop_from : (i : ℕ) (xs : List ℕ) → i < length xs → drop i xs ≡ get_or xs i 0 ∷ drop (suc i) xs
drop_from i [] h = absurd (omega arith)
drop_from zero (x ∷ xs) h = refl
drop_from (suc i) (x ∷ xs) h = drop_from i xs (omega arith)

read_chars_lem :
    (rounds i : ℕ) (answer : List ℕ)
    → i + rounds ≤ length answer
    → read_chars rounds i answer ≡ ok (take rounds (drop i answer))
unfolding read_chars byte_at
read_chars_lem zero i answer h = refl
read_chars_lem (suc rounds) i answer h =
    let next : i + 1 ≡ suc i = omega arith in
    rw (lt→ltb i (length answer) (omega arith)) (
      rw (drop_from i answer (omega arith))
        (rw (next, read_chars_lem rounds (suc i) answer (omega arith)) refl))

-- What the parser takes from an answer.
pub record IsParsed (strtol : List ℕ → Outcome ℕ) (answer : List ℕ) (sdk sdk' : SdkParam)
    : Type 0 where
  pub self_temp : strtol (get_or answer 40 0 ∷ get_or answer 41 0 ∷ []) ≡ ok sdk'.self_temp
  pub hw : strtol (get_or answer 6 0 ∷ get_or answer 7 0 ∷ []) ≡ ok sdk'.hw
  pub sw : strtol (get_or answer 8 0 ∷ get_or answer 9 0 ∷ []) ≡ ok sdk'.sw
  pub relay : sdk'.relay ≡ get_or answer 19 0
  pub dry_contact : sdk'.dry_contact ≡ take 20 (drop 20 answer)
  pub optical_relay : sdk'.optical_relay ≡ sdk.optical_relay
  pub small : All (λ w. w < 2 ^ 32) (sdk'.self_temp ∷ sdk'.hw ∷ sdk'.sw ∷ [])

-- What `strtol` makes of the two characters at a place, a word of 32 bits.
abbrev pub Read : (List ℕ → Outcome ℕ) → List ℕ → ℕ → Type 0
Read strtol answer i =
    (n : ℕ) × (strtol (get_or answer i 0 ∷ get_or answer (i + 1) 0 ∷ []) ≡ ok n) × (n < 2 ^ 32)

read_hex_lem :
    (strtol : List ℕ → Outcome ℕ) (answer : List ℕ) (i : ℕ)
    → i + 1 < length answer
    → read_hex strtol answer i ≡ strtol (get_or answer i 0 ∷ get_or answer (i + 1) 0 ∷ [])
unfolding read_hex two_chars byte_at
read_hex_lem strtol answer i h =
    rw (lt→ltb i (length answer) (omega arith)) (rw (lt→ltb (i + 1) (length answer) h) refl)

pub parse_status_lem :
    (strtol : List ℕ → Outcome ℕ) (answer : List ℕ) (sdk : SdkParam)
    → length answer ≡ answer_size
    → Read strtol answer 40
    → Read strtol answer 6
    → Read strtol answer 8
    → (sdk' : SdkParam) × (parse_status strtol answer sdk ≡ ok sdk')
      × IsParsed strtol answer sdk sdk'
unfolding parse_status
parse_status_lem strtol answer sdk full temp hw sw = (
  record {
    hw = hw.0;
    sw = sw.0;
    self_temp = temp.0;
    relay = get_or answer 19 0;
    optical_relay = sdk.optical_relay;
    dry_contact = take 20 (drop 20 answer);
  },
  rw (read_hex_lem strtol answer 40 (omega (arith, full)), temp.1)
      (rw (read_hex_lem strtol answer 6 (omega (arith, full)), hw.1)
        (rw (read_hex_lem strtol answer 8 (omega (arith, full)), sw.1)
          (rw (byte_at-get_or answer 19 (omega (arith, full)))
            (rw (read_chars_lem 20 20 answer (omega (arith, full))) refl)))),
  record {
    self_temp = temp.1;
    hw = hw.1;
    sw = sw.1;
    relay = refl;
    dry_contact = refl;
    optical_relay = refl;
    small = (temp.2, (hw.2, (sw.2, tt)));
  },
)

pub overwrite-front :
    (answer input : List ℕ) → overwrite answer 0 input ≡ input ++ drop (length input) answer
unfolding overwrite
overwrite-front answer input =
    let same : 0 + length input ≡ length input = omega arith in rw same refl

pub length-answer :
    (answer input : List ℕ)
    → length answer ≡ answer_size
    → length input ≤ buffer_size
    → length (overwrite answer 0 input) ≡ answer_size
length-answer answer input full fits = length-overwrite answer input 0 (omega (arith, full)) ∙ full

-- An answer that reaches place 40 sets every contact and the relay.
pub IsParsed-input :
    (strtol : List ℕ → Outcome ℕ) (answer input : List ℕ) (sdk sdk' : SdkParam)
    → 40 ≤ length input
    → IsParsed strtol (overwrite answer 0 input) sdk sdk'
    → (sdk'.dry_contact ≡ take 20 (drop 20 input)) × (sdk'.relay ≡ get_or input 19 0)
IsParsed-input strtol answer input sdk sdk' long parsed =
    let rest = drop (length input) answer in
    let front = overwrite-front answer input in
    let dropped = drop-append_long 20 input rest (omega arith) in
    let size = length-drop 20 input in
    let taken = take-append_long 20 (drop 20 input) rest (omega (arith, size)) in
    let at_relay = get_or-append_front input rest 19 (omega arith) in
    (parsed.dry_contact ∙ rw front (rw dropped taken), parsed.relay ∙ rw front at_relay)

-- The number that ends at a place of the answer ends there.
abbrev pub Ends : List ℕ → ℕ → Type 0
Ends input i = reads_on (get_or input i 0) ≡ false

-- A number of an answer, and its end, reach the array.
pub Read-input :
    (strtol : List ℕ → Outcome ℕ)
    → ReadsNumbers strtol
    → (answer input : List ℕ) (i : ℕ) → i + 1 < length input
    → Ends input (i + 1)
    → Read strtol (overwrite answer 0 input) i
Read-input strtol is answer input i inside ends =
    let rest = drop (length input) answer in
    let second = get_or-append_front input rest (i + 1) inside in
    is.ends (get_or (overwrite answer 0 input) i 0) (get_or (overwrite answer 0 input) (i + 1) 0)
      (rw (overwrite-front answer input, second) ends)

-- The status requests up to the first answer, and what the parser takes from it.
abbrev pub update_status :
    (List ℕ → Outcome ℕ) → List Exchange → List ℕ → SdkParam → Outcome SdkParam
update_status strtol exchanges answer sdk =
    poll exchanges answer >>= λ r. parse_status strtol r.1 sdk

module _ (strtol : List ℕ → Outcome ℕ) (failures later : List Exchange) (input answer : List ℕ)
    (sdk : SdkParam) (fails : All Fails failures) (fits : length input ≤ buffer_size)
    (full : length answer ≡ answer_size) where
  pub update_status-IsParsed :
      0 < length input
      → Read strtol (overwrite answer 0 input) 40
      → Read strtol (overwrite answer 0 input) 6
      → Read strtol (overwrite answer 0 input) 8
      → (sdk' : SdkParam) × (update_status strtol
            (failures ++ ready (bytes input) ∷ later)
            answer
            sdk
          ≡ ok sdk')
        × IsParsed strtol (overwrite answer 0 input) sdk sdk'
  update_status-IsParsed some_bytes temp hw sw =
      let (sdk', run, parsed) =
        parse_status_lem strtol (overwrite answer 0 input) sdk
          (length-answer answer input full fits) temp hw sw in
      (sdk', rw (poll_lem failures later input answer fails some_bytes fits) run, parsed)

  -- Behind any number of requests without an answer, an answer of 40 to 55 bytes that `strtol` can
  -- read sets the values: the MIB's dry contacts are then the 20 characters of the answer from place
  -- 20 on, less '0' each, and its relay is the character at place 19; the optical relays keep what
  -- they were.
  update_status_lem :
      40 ≤ length input
      → Read strtol (overwrite answer 0 input) 40
      → Read strtol (overwrite answer 0 input) 6
      → Read strtol (overwrite answer 0 input) 8
      → (sdk' : SdkParam) × (update_status strtol
            (failures ++ ready (bytes input) ∷ later)
            answer
            sdk
          ≡ ok sdk')
        × ((get_sdkinfo sdk').dry_contacts ≡ map contact (take 20 (drop 20 input)))
        × ((get_sdkinfo sdk').sdk_relay ≡ get_or input 19 0)
        × ((get_sdkinfo sdk').optical_relays ≡ sdk.optical_relay)
  unfolding get_sdkinfo
  update_status_lem long temp hw sw =
      let (sdk', run, parsed) = update_status-IsParsed (omega arith) temp hw sw in
      let (contacts, relay) = IsParsed-input strtol answer input sdk sdk' long parsed in
      (sdk', run, ap (map contact) contacts, relay, parsed.optical_relay)

  -- Behind any number of requests without an answer, where an answer has 1 to 20 bytes and
  -- `strtol` can read what then stands in the array of 256, the dry contacts are set to characters
  -- that stood in the array before.
  pub update_status_short :
      0 < length input
      → length input ≤ 20
      → Read strtol (overwrite answer 0 input) 40
      → Read strtol (overwrite answer 0 input) 6
      → Read strtol (overwrite answer 0 input) 8
      → (sdk' : SdkParam) × (update_status strtol
            (failures ++ ready (bytes input) ∷ later)
            answer
            sdk
          ≡ ok sdk')
        × (sdk'.dry_contact ≡ take 20 (drop 20 answer))
  update_status_short some_bytes short temp hw sw =
      let (sdk', run, parsed) = update_status-IsParsed some_bytes temp hw sw in
      let front = overwrite-front answer input in
      let old = drop-append_drop 20 input answer short (omega (arith, full)) in
      (sdk', run, parsed.dry_contact ∙ rw front (ap (take 20) old))

  -- Behind any number of requests without an answer, an answer of 42 to 55 bytes with a temperature
  -- of two decimal digits makes the thread leave an array: the two digits go to `strtol` without an
  -- end, and `strtol` reads as far as there are digits. The array of the answer has its 256 bytes.
  pub update_status_overrun :
      ReadsNumbers strtol
      → 42 ≤ length input
      → IsDigit (get_or input 40 0)
      → IsDigit (get_or input 41 0)
      → update_status strtol (failures ++ ready (bytes input) ∷ later) answer sdk ≡ fault
  update_status_overrun is long first second =
      let rest = drop (length input) answer in
      let at_first = get_or-append_front input rest 40 (omega arith) in
      let at_second = get_or-append_front input rest 41 (omega arith) in
      let front = overwrite-front answer input in
      let size = length-answer answer input full fits in
      rw (poll_lem failures later input answer fails (omega arith) fits) (
        parse_status_overrun strtol (overwrite answer 0 input) sdk is (omega (arith, size))
          (rw (front, at_first) first) (rw (front, at_second) second))
