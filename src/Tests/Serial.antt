-- ===== src/Tests/Serial.antt =====
-- The exchange with the device at concrete values.
use open_wrt_sdk.Common.{
  ℕ, zero, suc, ◌+◌, ◌<◌, ◌^◌, ◌%◌, ◌≡◌, refl, true, List, [], ◌∷◌, ◌++◌, length, take, drop, zeros,
  length-zeros, All, arith, ℤ, to_int, Option, some, none, false, ◌-◌, ◌*◌, if◌then◌else◌,
}
use open_wrt_sdk.Outcome.{Outcome, ok, fault, Whenever}
use open_wrt_sdk.Sdk.Parse.{between, IsDigit, reads_on, ReadsNumbers}
use open_wrt_sdk.Server.{failed, bytes, overwrite}
use open_wrt_sdk.Types.{Oid, Value}
use open_wrt_sdk.Handle.{found, get_answer}
use open_wrt_sdk.Mib.Build.{Cell, m_sdk_oid, mib_update}
use open_wrt_sdk.Mib.Build.Entry.{Reads}
use open_wrt_sdk.Sdk.{SdkParam, IsSdkParam, contact, get_sdkinfo}
use open_wrt_sdk.Serial.Turns.{IsMeets, IsStrtol, IsAnswer}
use open_wrt_sdk.Serial.Shown.{get_answer-update_status}
use open_wrt_sdk.Tests.Mib.{built, built-HasCells, demo}
use open_wrt_sdk.Serial.{
  answer_size, Exchange, select_failed, not_ready, ready, request_port, poll, Meets,
}
use open_wrt_sdk.Serial.Polls.{Fails, poll_lem, request_port_overrun}
use open_wrt_sdk.Serial.Readings.{update_status, update_status_short, update_status_overrun}

abbrev pub failures : List Exchange
failures = select_failed ∷ not_ready (ℤ.negsuc 0) ∷ ready failed ∷ ready (bytes []) ∷ []

pub fails : All Fails failures
fails = (tt, (refl, (tt, (refl, tt))))

-- An answer whose three numbers have one digit and an end.
abbrev pub status : List ℕ
status =
    0x21 ∷ 0x53 ∷ 0x43 ∷ 0x31 ∷ 0x30 ∷ 0x31 ∷ 0x35 ∷ 0x00 ∷ 0x33 ∷ 0x00 ∷ 0x30 ∷ 0x30 ∷ 0x30 ∷ 0x30
    ∷ 0x30 ∷ 0x30 ∷ 0x30 ∷ 0x30 ∷ 0x30 ∷ 0x30 ∷ 0x30 ∷ 0x31 ∷ 0x30 ∷ 0x30 ∷ 0x30 ∷ 0x31 ∷ 0x30
    ∷ 0x30 ∷ 0x30 ∷ 0x31 ∷ 0x30 ∷ 0x30 ∷ 0x30 ∷ 0x30 ∷ 0x30 ∷ 0x31 ∷ 0x30 ∷ 0x30 ∷ 0x30 ∷ 0x31
    ∷ 0x37 ∷ 0x00 ∷ 0x0d ∷ 0x0a ∷ []

abbrev pub short_answer : List ℕ
short_answer = 0x21 ∷ 0x53 ∷ 0x43 ∷ []

unfoldable pub answer : List ℕ
answer = zeros answer_size

answer-length : length answer ≡ answer_size
unfolding answer
answer-length = length-zeros answer_size

-- The digits up to the first character that is none, without signs and white space.
unfoldable pub digit : ℕ → Option ℕ
digit c =
    if between 0x30 0x39 c
    then some (c - 0x30)
    else if between 0x41 0x46 c
    then some (c - 0x37)
    else if between 0x61 0x66 c
    then some (c - 0x57)
    else none

unfoldable pub strtol_from : ℕ → List ℕ → Outcome ℕ
strtol_from n [] = fault
strtol_from n (c ∷ chars) = elim (digit c) [
  | some d ↦ strtol_from (16 * n + d) chars
  | none ↦ ok (n % 2 ^ 32)
]

abbrev pub strtol : List ℕ → Outcome ℕ
strtol chars = strtol_from 0 chars

strtol_from-overrun : (n : ℕ) (digits : List ℕ) → All IsDigit digits → strtol_from n digits ≡ fault
unfolding strtol_from
strtol_from-overrun n [] h = refl
strtol_from-overrun n (c ∷ digits) h =
    let at : digit c ≡ some (c - 0x30) = unfold digit in ground (arith, h.0) in
    rw (strtol_from, at, strtol_from-overrun (16 * n + (c - 0x30)) digits h.1) refl

digit-none : (c : ℕ) → reads_on c ≡ false → digit c ≡ none
unfolding reads_on digit
digit-none c h = ground arith

strtol_from-ends :
    (n c : ℕ) (rest : List ℕ) → digit c ≡ none → strtol_from n (c ∷ rest) ≡ ok (n % 2 ^ 32)
unfolding strtol_from
strtol_from-ends n c rest h = rw (strtol_from, h) refl

strtol-ends :
    (first second : ℕ)
    → reads_on second ≡ false
    → (n : ℕ) × (strtol (first ∷ second ∷ []) ≡ ok n) × (n < 2 ^ 32)
unfolding strtol_from
strtol-ends first second h = go (digit first) refl
  where
    go :
        (d : Option ℕ)
        → digit first ≡ d
        → (n : ℕ) × (strtol (first ∷ second ∷ []) ≡ ok n) × (n < 2 ^ 32)
    go none e = (0, strtol_from-ends 0 first (second ∷ []) e, omega arith)
    go (some d) e = (
      (16 * 0 + d) % 2 ^ 32,
      rw (strtol_from, e, strtol_from-ends (16 * 0 + d) second [] (digit-none second h)) refl,
      omega arith,
    )

pub strtol-ReadsNumbers : ReadsNumbers strtol
strtol-ReadsNumbers = record { overrun = strtol_from-overrun 0; ends = strtol-ends }

abbrev pub sdk : SdkParam
sdk = record {
  hw = 5;
  sw = 3;
  self_temp = 27;
  relay = 48;
  optical_relay = 0 ∷ 1 ∷ 0 ∷ 1 ∷ [];
  dry_contact =
      48 ∷ 49 ∷ 48 ∷ 48 ∷ 48 ∷ 49 ∷ 48 ∷ 48 ∷ 48 ∷ 48 ∷ 48 ∷ 49 ∷ 48 ∷ 48 ∷ 48 ∷ 48 ∷ 48 ∷ 48 ∷ 48
      ∷ 49 ∷ [];
}

poll_lem_example :
    poll (failures ++ ready (bytes status) ∷ []) answer
    ≡ ok (ℤ.pos (length status), overwrite answer 0 status, [])
poll_lem_example = poll_lem failures [] status answer fails (omega arith) (omega arith)

request_port_overrun_example : request_port (ready (bytes (status ++ status))) answer ≡ fault
request_port_overrun_example = request_port_overrun (status ++ status) answer (omega arith)

update_status_short_example :
    (sdk' : SdkParam) × (update_status strtol
        (failures ++ ready (bytes short_answer) ∷ [])
        answer
        sdk
      ≡ ok sdk')
    × (sdk'.dry_contact ≡ take 20 (drop 20 answer))
unfolding strtol_from digit overwrite answer zeros
update_status_short_example =
    update_status_short strtol failures [] short_answer answer sdk fails (omega arith) answer-length
      (omega arith) (omega arith) (_, refl, omega arith) (_, refl, omega arith)
      (_, refl, omega arith)

-- An answer with a temperature of two digits.
abbrev warm : List ℕ
warm = take 40 status ++ 0x32 ∷ 0x37 ∷ 0x0d ∷ 0x0a ∷ []

update_status_overrun_example :
    update_status strtol (failures ++ ready (bytes warm) ∷ []) answer sdk ≡ fault
update_status_overrun_example =
    update_status_overrun strtol failures [] warm answer sdk fails (omega arith) answer-length
      strtol-ReadsNumbers (omega arith) (omega arith) (omega arith)

-- The sixth contact.
abbrev contact_cell : Cell
contact_cell = record { prefix = m_sdk_oid; column = 1; row = 5 }

abbrev contact_oid : Oid
contact_oid = record { subid_list = m_sdk_oid ++ 1 ∷ 5 ∷ []; encoded_length = 11 }

pub sdk-IsSdkParam : IsSdkParam sdk
sdk-IsSdkParam = record { optical_relays = refl; dry_contacts = refl; words = ground arith }

get_answer-update_status_example :
    (sdk' : SdkParam) × (update_status strtol (failures ++ ready (bytes status) ∷ []) answer sdk
      ≡ ok sdk')
    × (mib' : List Value) × (mib_update true demo (get_sdkinfo sdk') built ≡ ok mib')
    × (v : Value) × (get_answer mib' contact_oid ≡ found v)
    × Reads v (to_int (contact 0x31))
get_answer-update_status_example =
    unfold reads_on in
    get_answer-update_status strtol failures [] status answer sdk demo built 5 contact_cell
      contact_oid fails strtol-ReadsNumbers (omega arith) (omega arith) (ground arith) answer-length
      refl refl refl sdk-IsSdkParam (ground arith) built-HasCells (omega arith) refl refl

abbrev pub meets : Meets
meets = record {
  status = failures ++ ready (bytes status) ∷ [];
  second = ready (bytes short_answer);
  third = select_failed;
}

strtol_from-small : (n : ℕ) (chars : List ℕ) → Whenever (λ m. m < 2 ^ 32) (strtol_from n chars)
unfolding strtol_from
strtol_from-small n [] = tt
strtol_from-small n (c ∷ chars) =
    elim (digit c)
      as (λ d.
        Whenever (λ (m : ℕ). m < 2 ^ 32)
          (elim d [ some d ↦ strtol_from (16 * n + d) chars | none ↦ ok (n % 2 ^ 32) ])) [
            | some d ↦ strtol_from-small (16 * n + d) chars
            | none ↦ omega arith
          ]

pub strtol-IsStrtol : IsStrtol strtol
strtol-IsStrtol chars = strtol_from-small 0 chars

pub status-IsMeets : IsMeets meets
status-IsMeets = ((tt, (tt, (tt, (tt, (ground arith, tt))))), ground arith, tt)

zeros_small : (n : ℕ) → All (λ w. w < 2 ^ 32) (zeros n)
unfolding zeros
zeros_small zero = tt
zeros_small (suc n) = (omega arith, zeros_small n)

pub answer-IsAnswer : IsAnswer answer
unfolding answer
answer-IsAnswer = record { size = answer-length; words = zeros_small answer_size }
