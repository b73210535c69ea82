-- ===== src/System/Status.antt =====
-- The serial thread from its requests for the status to the last write of the answer's fields:
-- src/serial.c and src/parser_sdk.c, step by step, on the state that the threads share.
use open_wrt_sdk.Common.{
  ℕ, ◌≤◌, ◌<◌, ◌≡◌, refl, sym, ap, fun_ext, ◌∙◌, List, [], ◌∷◌, ◌++◌, length, take, drop, get_or,
  get_or-append_front, All, ℤ, arith,
}
use open_wrt_sdk.Outcome.{Outcome, ok, ◌>>=◌, >>=-assoc}
use open_wrt_sdk.Sdk.{SdkParam}
use open_wrt_sdk.Sdk.Parse.{ReadsNumbers}
use open_wrt_sdk.Server.{bytes, overwrite}
use open_wrt_sdk.Serial.{answer_size, buffer_size, Exchange, ready, Meets}
use open_wrt_sdk.Serial.Polls.{Fails, poll_lem}
use open_wrt_sdk.Serial.Readings.{
  Ends, Read-input, IsParsed, IsParsed-input, parse_status_lem, overwrite-front, length-answer,
}
use open_wrt_sdk.Serial.Fields.{Field, write_field, write_fields, fields, write_fields-parse_status}
use open_wrt_sdk.System.{System, asking, writing, serial_at, serial_steps}

-- What the struct holds of an answer: at each place that the protocol gives to a value.
pub record Holds (strtol : List ℕ → Outcome ℕ) (input : List ℕ) (before after : SdkParam)
    : Type 0 where
  pub self_temp : strtol (get_or input 40 0 ∷ get_or input 41 0 ∷ []) ≡ ok after.self_temp
  pub hw : strtol (get_or input 6 0 ∷ get_or input 7 0 ∷ []) ≡ ok after.hw
  pub sw : strtol (get_or input 8 0 ∷ get_or input 9 0 ∷ []) ≡ ok after.sw
  pub relay : after.relay ≡ get_or input 19 0
  pub dry_contact : after.dry_contact ≡ take 20 (drop 20 input)
  pub optical_relay : after.optical_relay ≡ before.optical_relay

IsParsed-Holds :
    (strtol : List ℕ → Outcome ℕ) (answer input : List ℕ) (sdk sdk' : SdkParam)
    → 42 ≤ length input
    → IsParsed strtol (overwrite answer 0 input) sdk sdk'
    → Holds strtol input sdk sdk'
IsParsed-Holds strtol answer input sdk sdk' long parsed =
    let rest = drop (length input) answer in
    let front = overwrite-front answer input in
    let (contacts, relay) = IsParsed-input strtol answer input sdk sdk' (omega arith) parsed in
    let char_at : (i : ℕ) → i < length input → get_or (input ++ rest) i 0 ≡ get_or input i 0 =
      λ i h. get_or-append_front input rest i h in
    record {
      self_temp =
          rw (front, char_at 40 (omega arith), char_at 41 (omega arith)) at parsed.self_temp;
      hw = rw (front, char_at 6 (omega arith), char_at 7 (omega arith)) at parsed.hw;
      sw = rw (front, char_at 8 (omega arith), char_at 9 (omega arith)) at parsed.sw;
      relay = relay;
      dry_contact = contacts;
      optical_relay = parsed.optical_relay;
    }

module _ (strtol : List ℕ → Outcome ℕ) (m : Meets) where
  -- The writes of some fields in a row.
  serial_steps-writes :
      (fs : List Field) (len : ℤ) (s : System)
      → serial_steps strtol m (length fs) (record s { place = writing fs len }) ≡ (
          write_fields strtol s.answer fs s.sdk >>= λ sdk.
          ok (record s { sdk = sdk; place = writing [] len }))
  unfolding serial_steps serial_at write_fields
  serial_steps-writes [] len s = refl
  serial_steps-writes (f ∷ fs) len s =
      >>=-assoc (write_field strtol s.answer f s.sdk) _ (serial_steps strtol m (length fs))
      ∙ ap (λ k. write_field strtol s.answer f s.sdk >>= k)
          (fun_ext λ sdk. serial_steps-writes fs len (record s { sdk = sdk }))
      ∙ sym (>>=-assoc (write_field strtol s.answer f s.sdk) (write_fields strtol s.answer fs) _)

  asking_step :
      (s : System)
      → serial_steps strtol m 25 (record s { place = asking })
        ≡ (serial_at strtol m asking (record s { place = asking }) >>= serial_steps strtol m 24)
  unfolding serial_steps
  asking_step s = refl

  answered_step :
      (s : System) (failures later : List Exchange) (input : List ℕ)
      → m.status ≡ failures ++ ready (bytes input) ∷ later
      → All Fails failures
      → 42 ≤ length input
      → length input ≤ buffer_size
      → serial_at strtol m asking (record s { place = asking })
        ≡ ok (record s {
          answer = overwrite s.answer 0 input;
          place = writing fields (ℤ.pos (length input));
        })
  unfolding serial_at
  answered_step s failures later input met fails long fits =
      rw (met, poll_lem failures later input s.answer fails (omega arith) fits) refl

  -- From where the serial thread stands in front of its requests, its next 25 steps, if nothing
  -- comes between them: behind any number of requests without an answer, an answer of 42 to 55
  -- bytes, in which the second character of each number (at 41, 7 and 9) is one at which `strtol`
  -- stops, sets every value of the struct from its place: the temperature from 40, the versions
  -- from 6 and 8, the relay from 19, and the 20 contacts from 20 on; the optical relays stay as they
  -- were. The answer then stands in front of what is left of the array, and nothing else of the
  -- system changes. The array has its 256 bytes and the struct its 20 contacts; `strtol` stops where
  -- ISO C says.
  pub serial_steps-Holds :
      (s : System) (failures later : List Exchange) (input : List ℕ)
      → ReadsNumbers strtol
      → m.status ≡ failures ++ ready (bytes input) ∷ later
      → All Fails failures
      → 42 ≤ length input
      → length input ≤ buffer_size
      → Ends input 41
      → Ends input 7
      → Ends input 9
      → length s.answer ≡ answer_size
      → length s.sdk.dry_contact ≡ 20
      → (sdk : SdkParam) × Holds strtol input s.sdk sdk
        × (serial_steps strtol m 25 (record s { place = asking })
            ≡ ok (record s {
              sdk = sdk;
              answer = input ++ drop (length input) s.answer;
              place = writing [] (ℤ.pos (length input));
            }))
  serial_steps-Holds s failures later input is met fails long fits temp hw sw full size =
      let answer = overwrite s.answer 0 input in
      let (sdk, run, parsed) =
        parse_status_lem strtol answer s.sdk (length-answer s.answer input full fits)
          (Read-input strtol is s.answer input 40 long temp)
          (Read-input strtol is s.answer input 6 (omega arith) hw)
          (Read-input strtol is s.answer input 8 (omega arith) sw) in
      let written =
        serial_steps-writes fields (ℤ.pos (length input)) (record s { answer = answer }) in
      (
        sdk,
        IsParsed-Holds strtol s.answer input s.sdk sdk long parsed,
        asking_step s
            ∙ ap (λ x. x >>= serial_steps strtol m 24)
                (answered_step s failures later input met fails long fits)
            ∙ written
            ∙ rw
                (
                  write_fields-parse_status strtol answer s.sdk size,
                  run,
                  overwrite-front s.answer input,
                )
                refl,
      )
