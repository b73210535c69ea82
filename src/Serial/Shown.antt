-- ===== src/Serial/Shown.antt =====
-- From an answer of the device to a GET of a client: the serial thread, `get_sdkinfo`, the update of
-- the MIB and its search.
use open_wrt_sdk.Common.{
  ℕ, zero, suc, ◌+◌, ◌≤◌, ◌<◌, ◌^◌, ◌≡◌, refl, ap, ◌∙◌, List, [], ◌∷◌, ◌++◌, map, length,
  length-drop, take, drop, get_or, get_elem?, All, All-get_or, arith, to_int, some, true,
}
use open_wrt_sdk.Types.{Oid, Value}
use open_wrt_sdk.Outcome.{Outcome, ok}
use open_wrt_sdk.Server.{bytes, overwrite}
use open_wrt_sdk.Server.Buffers.{length-take_at}
use open_wrt_sdk.Handle.{found, get_answer}
use open_wrt_sdk.Mib.Build.{Cell, DemoInfo, demo_words, sdk_words, mib_update}
use open_wrt_sdk.Mib.Build.Entry.{subids_of, Reads}
use open_wrt_sdk.Mib.Build.Update.{HasCells}
use open_wrt_sdk.Mib.Build.Table.{cells}
use open_wrt_sdk.Mib.Build.Get.{get_answer-mib_update}
use open_wrt_sdk.Sdk.{SdkParam, IsSdkParam, contact, get_sdkinfo, get_sdkinfo-IsReadings}
use open_wrt_sdk.Sdk.Parse.{ReadsNumbers}
use open_wrt_sdk.Serial.{answer_size, buffer_size, Exchange, ready}
use open_wrt_sdk.Serial.Polls.{Fails}
use open_wrt_sdk.Serial.Readings.{
  Ends, Read-input, IsParsed, update_status, IsParsed-input, update_status-IsParsed,
}

get_or-take : (n : ℕ) (xs : List ℕ) (i : ℕ) → i < n → get_or (take n xs) i 0 ≡ get_or xs i 0
get_or-take zero xs i h = absurd (omega arith)
get_or-take (suc n) [] i h = refl
get_or-take (suc n) (x ∷ xs) zero h = refl
get_or-take (suc n) (x ∷ xs) (suc i) h = get_or-take n xs i (omega arith)

get_or-drop : (n : ℕ) (xs : List ℕ) (i : ℕ) → get_or (drop n xs) i 0 ≡ get_or xs (n + i) 0
get_or-drop zero xs i = ap (λ k. get_or xs k 0) (omega arith)
get_or-drop (suc n) [] i = refl
get_or-drop (suc n) (x ∷ xs) i =
    let next : suc n + i ≡ suc (n + i) = omega arith in rw next (get_or-drop n xs i)

contact_at :
    (chars rest : List ℕ) (i : ℕ)
    → i < length chars
    → get_elem? (map contact chars ++ rest) i ≡ some (contact (get_or chars i 0))
contact_at [] rest i h = absurd (omega arith)
contact_at (c ∷ chars) rest zero h = refl
contact_at (c ∷ chars) rest (suc i) h = contact_at chars rest i (omega arith)

-- What the parser makes of a long answer is what `get_sdkinfo` and the update may meet.
IsParsed-IsSdkParam :
    (strtol : List ℕ → Outcome ℕ) (answer input : List ℕ) (sdk sdk' : SdkParam)
    → 40 ≤ length input
    → All (λ w. w < 2 ^ 32) input
    → IsSdkParam sdk
    → IsParsed strtol (overwrite answer 0 input) sdk sdk'
    → IsSdkParam sdk'
IsParsed-IsSdkParam strtol answer input sdk sdk' long small is parsed =
    let (contacts, relay) = IsParsed-input strtol answer input sdk sdk' long parsed in
    let size = length-drop 20 input in
    let (_, (_, (_, (_, optical)))) = is.words in
    let (temp, (hw, (sw, _))) = parsed.small in
    let at_relay : sdk'.relay < 2 ^ 32 =
      rw relay (All-get_or (λ w. w < 2 ^ 32) input 19 0 (omega arith) small) in
    let relays : All (λ w. w < 2 ^ 32) sdk'.optical_relay = rw parsed.optical_relay optical in
    record {
      optical_relays = ap length parsed.optical_relay ∙ is.optical_relays;
      dry_contacts = ap length contacts ∙ length-take_at 20 (drop 20 input) (omega (arith, size));
      words = (temp, (hw, (sw, (at_relay, relays))));
    }

word_at :
    (demo : DemoInfo) (sdk : SdkParam) (input : List ℕ) (i : ℕ)
    → sdk.dry_contact ≡ take 20 (drop 20 input)
    → length sdk.dry_contact ≡ 20
    → i < 20
    → get_elem? (demo_words demo ++ sdk_words (get_sdkinfo sdk)) (2 + i)
      ≡ some (contact (get_or input (20 + i) 0))
unfolding get_sdkinfo
word_at demo sdk input i contacts size lt =
    let rest = sdk.self_temp ∷ sdk.hw ∷ sdk.sw ∷ sdk.relay ∷ sdk.optical_relay in
    let behind : 2 + i ≡ suc (suc i) = omega arith in
    let char : get_or sdk.dry_contact i 0 ≡ get_or input (20 + i) 0 =
      rw contacts (get_or-take 20 (drop 20 input) i lt ∙ get_or-drop 20 input i) in
    rw behind
      (contact_at sdk.dry_contact rest i (omega (arith, size)) ∙ ap (λ c. some (contact c)) char)

-- Behind any number of requests without an answer, an answer of 42 to 55 characters, in which the
-- second character of each of the three numbers (at 41, 7 and 9) is one at which `strtol` stops,
-- sets the values so that the next full update of the MIB succeeds, and a GET of the OID of the
-- `i`-th dry contact then finds an entry whose bytes decode to the character of the answer at place
-- 20 + `i`, less '0', as an `int`. The characters, the values from before and the random numbers
-- are words of 32 bits, the arrays have their sizes, and the MIB has the entries of the table;
-- `strtol` stops where ISO C says.
pub get_answer-update_status :
    (strtol : List ℕ → Outcome ℕ) (failures later : List Exchange) (input answer : List ℕ)
    (sdk : SdkParam) (demo : DemoInfo) (mib : List Value) (i : ℕ) (cell : Cell) (oid : Oid)
    → All Fails failures
    → ReadsNumbers strtol
    → 42 ≤ length input
    → length input ≤ buffer_size
    → All (λ w. w < 2 ^ 32) input
    → length answer ≡ answer_size
    → Ends input 41
    → Ends input 7
    → Ends input 9
    → IsSdkParam sdk
    → All (λ w. w < 2 ^ 32) (demo_words demo)
    → HasCells cells mib
    → i < 20
    → get_elem? cells (2 + i) ≡ some cell
    → oid.subid_list ≡ subids_of cell
    → (sdk' : SdkParam) × (update_status strtol (failures ++ ready (bytes input) ∷ later) answer sdk
        ≡ ok sdk')
      × (mib' : List Value) × (mib_update true demo (get_sdkinfo sdk') mib ≡ ok mib')
      × (v : Value) × (get_answer mib' oid ≡ found v)
      × Reads v (to_int (contact (get_or input (20 + i) 0)))
get_answer-update_status strtol failures later input answer sdk demo mib i cell oid fails is_strtol
      long fits small full temp hw sw is random has lt at_cell same =
    let (sdk', run, parsed) =
      update_status-IsParsed strtol failures later input answer sdk fails fits full (omega arith)
        (Read-input strtol is_strtol answer input 40 long temp)
        (Read-input strtol is_strtol answer input 6 (omega arith) hw)
        (Read-input strtol is_strtol answer input 8 (omega arith) sw) in
    let (contacts, relay) = IsParsed-input strtol answer input sdk sdk' (omega arith) parsed in
    let is' = IsParsed-IsSdkParam strtol answer input sdk sdk' (omega arith) small is parsed in
    let readings = get_sdkinfo-IsReadings demo sdk' is' random in
    let word = word_at demo sdk' input i contacts is'.dry_contacts lt in
    let (mib', updated, v, answered, _, reads) =
      get_answer-mib_update demo (get_sdkinfo sdk') mib (2 + i) cell
        (contact (get_or input (20 + i) 0)) oid has readings at_cell word same in
    (sdk', run, mib', updated, v, answered, reads)
