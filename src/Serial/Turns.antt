-- ===== src/Serial/Turns.antt =====
-- The invariant of the serial thread: its values are readings that the MIB can show.
use open_wrt_sdk.Common.{
  ℕ, zero, suc, ◌+◌, ◌≤◌, ◌<◌, ◌^◌, ◌≡◌, refl, ap, ◌∙◌, List, [], ◌∷◌, length, take, All,
  All-append, All-take, All-drop, All-get_or, arith, tests, ltb, leb, not-leb→lt, Bool-cases, inl,
  inr, zeros, length-zeros, drop, take-append, ◌==◌, ℤ, ◌<ℤ◌,
}
use open_wrt_sdk.Outcome.{
  Outcome, ok, ◌>>=◌, write_at, byte_at, Whenever, Whenever-any, Whenever-bind, Whenever-if,
  Whenever-weaken,
}
use open_wrt_sdk.Mib.Build.{DemoInfo, demo_words}
use open_wrt_sdk.Mib.Build.Table.{IsReadings}
use open_wrt_sdk.Server.{failed, bytes, overwrite}
use open_wrt_sdk.Server.Buffers.{length-overwrite}
use open_wrt_sdk.Encode.Write.{write_front}
use open_wrt_sdk.Serial.Polls.{write_at_overrun}
use open_wrt_sdk.Sdk.{SdkParam, IsSdkParam, get_sdkinfo, get_sdkinfo-IsReadings}
use open_wrt_sdk.Sdk.Parse.{two_chars, read_chars, read_hex, parse_status}
use open_wrt_sdk.Serial.{
  answer_size, buffer_size, read_size, Exchange, select_failed, not_ready, ready, request_port,
  poll, show_answer, turn, turns, Meets,
}

abbrev pub AreWords : List ℕ → Type 0
AreWords words = All (λ w. w < 2 ^ 32) words

-- The characters that come are words of 32 bits.
abbrev pub IsExchange : Exchange → Type 0
IsExchange (ready (bytes input)) = AreWords input
IsExchange _ = Unit

pub record IsAnswer (answer : List ℕ) : Type 0 where
  pub size : length answer ≡ answer_size
  pub words : AreWords answer

overwrite-IsAnswer :
    (answer input : List ℕ)
    → IsAnswer answer
    → AreWords input
    → length input ≤ buffer_size
    → IsAnswer (overwrite answer 0 input)
unfolding overwrite
overwrite-IsAnswer answer input is words fits = record {
  size = length-overwrite answer input 0 (omega (arith, is.size)) ∙ is.size;
  words =
      All-append _ input _ words (All-drop (λ w. w < 2 ^ 32) (0 + length input) answer is.words);
}

pub request_port-IsAnswer :
    (e : Exchange) (answer : List ℕ)
    → IsExchange e
    → IsAnswer answer
    → Whenever (λ r. IsAnswer r.1) (request_port e answer)
unfolding request_port
request_port-IsAnswer select_failed answer h is = is
request_port-IsAnswer (not_ready found) answer h is = is
request_port-IsAnswer (ready failed) answer h is = is
request_port-IsAnswer (ready (bytes input)) answer h is =
    Whenever-if _ (length (take read_size input) == 0) _ _ (λ _. is)
      λ _. copied (take read_size input) (All-take (λ w. w < 2 ^ 32) read_size input h)
  where
    copied :
        (got : List ℕ)
        → AreWords got
        → Whenever
            (λ (r : ℤ × List ℕ). IsAnswer r.1)
            (write_at (zeros buffer_size) 0 got >>= λ buffer.
              ok (ℤ.pos (length got), overwrite answer 0 (take (length got) buffer)))
    copied got words = elim (Bool-cases (leb (length got) buffer_size)) [
      | inl fits ↦
          let room =
            write_front (zeros buffer_size) got (omega (tests, fits, length-zeros buffer_size)) in
          rw (room, take-append got (drop (length got) (zeros buffer_size)) (length got) refl)
            (overwrite-IsAnswer answer got is words (omega (tests, fits)))
      | inr long ↦
          rw
            (write_at_overrun got (zeros buffer_size) 0 (omega arith)
              (omega (arith, not-leb→lt _ _ long, length-zeros buffer_size)))
            tt
    ]

pub poll-IsAnswer :
    (exchanges : List Exchange) (answer : List ℕ)
    → All IsExchange exchanges
    → IsAnswer answer
    → Whenever (λ r. IsAnswer r.1) (poll exchanges answer)
unfolding poll
poll-IsAnswer [] answer h is = tt
poll-IsAnswer (e ∷ exchanges) answer h is =
    Whenever-bind (λ r. IsAnswer r.1) _ (request_port e answer) _
      (request_port-IsAnswer e answer h.0 is)
      λ (len, answer') is'.
        Whenever-if _ (ℤ.pos 0 <ℤ len) _ _ (λ _. is') λ _. poll-IsAnswer exchanges answer' h.1 is'

pub byte_at-small :
    (answer : List ℕ) (i : ℕ) → AreWords answer → Whenever (λ c. c < 2 ^ 32) (byte_at answer i)
unfolding byte_at
byte_at-small answer i h =
    Whenever-if _ (ltb i (length answer)) _ _
      (λ _. All-get_or (λ c. c < 2 ^ 32) answer i 0 (omega arith) h) λ _. tt

length-read_chars :
    (rounds i : ℕ) (answer : List ℕ)
    → Whenever (λ chars. length chars ≡ rounds) (read_chars rounds i answer)
unfolding read_chars
length-read_chars zero i answer = refl
length-read_chars (suc rounds) i answer =
    Whenever-bind _ _ (byte_at answer i) _ (Whenever-any (byte_at answer i)) λ char _.
      Whenever-bind _ _ (read_chars rounds (i + 1) answer) _
        (length-read_chars rounds (i + 1) answer) λ chars size. ap suc size

abbrev pub IsMeets : Meets → Type 0
IsMeets m = All IsExchange m.status × IsExchange m.second × IsExchange m.third

-- What holds of the thread's values and of its array between two turns: both have their sizes and
-- hold words of 32 bits.
abbrev pub IsThread : SdkParam × List ℕ → Type 0
IsThread (sdk, answer) = IsSdkParam sdk × IsAnswer answer

-- `strtol`, as an `int`, is a word.
abbrev pub IsStrtol : (List ℕ → Outcome ℕ) → Type 0
IsStrtol strtol = (chars : List ℕ) → Whenever (λ n. n < 2 ^ 32) (strtol chars)

module _ (strtol : List ℕ → Outcome ℕ) (is_strtol : IsStrtol strtol) where
  pub read_hex-small :
      (answer : List ℕ) (i : ℕ) → Whenever (λ n. n < 2 ^ 32) (read_hex strtol answer i)
  unfolding read_hex
  read_hex-small answer i =
      Whenever-bind _ _ (two_chars answer i) _ (Whenever-any (two_chars answer i))
        λ chars _. is_strtol chars

  parse_status-IsSdkParam :
      (answer : List ℕ) (sdk : SdkParam)
      → AreWords answer
      → IsSdkParam sdk
      → Whenever IsSdkParam (parse_status strtol answer sdk)
  unfolding parse_status
  parse_status-IsSdkParam answer sdk words is =
      let (_, (_, (_, (_, optical)))) = is.words in
      Whenever-bind _ _ (read_hex strtol answer 40) _ (read_hex-small answer 40) λ temp small_temp.
        Whenever-bind _ _ (read_hex strtol answer 6) _ (read_hex-small answer 6) λ hw small_hw.
          Whenever-bind _ _ (read_hex strtol answer 8) _ (read_hex-small answer 8) λ sw small_sw.
            Whenever-bind _ _ (byte_at answer 19) _ (byte_at-small answer 19 words) λ relay small.
              Whenever-bind _ _ (read_chars 20 20 answer) _ (length-read_chars 20 20 answer)
                λ contacts size. record {
                  optical_relays = is.optical_relays;
                  dry_contacts = size;
                  words = (small_temp, (small_hw, (small_sw, (small, optical))));
                }

  turn-IsThread :
      (m : Meets) (sdk : SdkParam) (answer : List ℕ)
      → IsMeets m
      → IsThread (sdk, answer)
      → Whenever IsThread (turn strtol m.status m.second m.third sdk answer)
  unfolding turn
  turn-IsThread m sdk answer (status, second, third) (is, array) =
      Whenever-bind (λ r. IsAnswer r.1) _ (poll m.status answer) _
        (poll-IsAnswer m.status answer status array)
        λ (len, a₁, _) is₁.
          Whenever-bind _ _ (parse_status strtol a₁ sdk) _
            (parse_status-IsSdkParam a₁ sdk is₁.words is)
            λ sdk' is'.
              Whenever-bind _ _ (show_answer len a₁) _ (Whenever-any (show_answer len a₁)) λ _ _.
                Whenever-bind (λ r. IsAnswer r.1) _ (request_port m.second a₁) _
                  (request_port-IsAnswer m.second a₁ second is₁)
                  λ (len₂, a₂) is₂.
                    Whenever-bind _ _ (show_answer len₂ a₂) _ (Whenever-any (show_answer len₂ a₂))
                      λ _ _.
                        Whenever-bind (λ r. IsAnswer r.1) _ (request_port m.third a₂) _
                          (request_port-IsAnswer m.third a₂ third is₂) λ (_, a₃) is₃. (is', is₃)

  turns-IsThread :
      (ms : List Meets) (state : SdkParam × List ℕ)
      → All IsMeets ms
      → IsThread state
      → Whenever IsThread (turns strtol ms state)
  unfolding turns
  turns-IsThread [] state h is = is
  turns-IsThread (m ∷ ms) (sdk, answer) h is =
      Whenever-bind IsThread IsThread (turn strtol m.status m.second m.third sdk answer)
        (turns strtol ms) (turn-IsThread m sdk answer h.0 is)
        λ state is'. turns-IsThread ms state h.1 is'

  -- After any number of turns that return, whatever the device sends, the values that the thread
  -- keeps are readings that the MIB can show: 20 contacts and 4 relays, all words of 32 bits. The
  -- characters that come, what `strtol` returns, and the random numbers are words of 32 bits; the
  -- values and the array were words, and of these sizes, at the start.
  turns-IsReadings :
      (ms : List Meets) (sdk : SdkParam) (answer : List ℕ) (demo : DemoInfo)
      → All IsMeets ms
      → IsThread (sdk, answer)
      → All (λ w. w < 2 ^ 32) (demo_words demo)
      → Whenever (λ r. IsReadings demo (get_sdkinfo r.0)) (turns strtol ms (sdk, answer))
  turns-IsReadings ms sdk answer demo h is random =
      Whenever-weaken IsThread _ (turns strtol ms (sdk, answer))
        (λ r thread. get_sdkinfo-IsReadings demo r.0 thread.0 random)
        (turns-IsThread ms (sdk, answer) h is)
