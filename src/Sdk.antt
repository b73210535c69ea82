-- ===== src/Sdk.antt =====
-- The values that the serial thread keeps (src/parser_sdk.h), and how `get_sdkinfo` of src/utils.c
-- hands them to the MIB. All are words of 32 bits.
pub mod Parse
use open_wrt_sdk.Common.{
  ℕ, ◌+◌, ◌-◌, ◌%◌, ◌^◌, ◌<◌, ◌≡◌, refl, List, [], ◌∷◌, map, length, arith, All, All-append,
}
use open_wrt_sdk.Mib.Build.{DemoInfo, SdkInfo, demo_words, sdk_words}
use open_wrt_sdk.Mib.Build.Table.{IsReadings}

-- `struct sdk_param`
pub record SdkParam : Type 0 where
  pub hw : ℕ
  pub sw : ℕ
  pub self_temp : ℕ
  pub relay : ℕ
  pub optical_relay : List ℕ
  pub dry_contact : List ℕ

-- `dry_contact[i] - '0'`
abbrev pub contact : ℕ → ℕ
contact word = (word + (2 ^ 32 - 0x30)) % 2 ^ 32

unfoldable pub get_sdkinfo : SdkParam → SdkInfo
get_sdkinfo sdk = record {
  dry_contacts = map contact sdk.dry_contact;
  sdk_temp = sdk.self_temp;
  sdk_hw = sdk.hw;
  sdk_sw = sdk.sw;
  sdk_relay = sdk.relay;
  optical_relays = sdk.optical_relay;
}

-- The sizes of the arrays, and words of 32 bits.
pub record IsSdkParam (sdk : SdkParam) : Type 0 where
  pub optical_relays : length sdk.optical_relay ≡ 4
  pub dry_contacts : length sdk.dry_contact ≡ 20
  pub words :
      All (λ w. w < 2 ^ 32) (sdk.self_temp ∷ sdk.hw ∷ sdk.sw ∷ sdk.relay ∷ sdk.optical_relay)

length-contacts : (words : List ℕ) → length (map contact words) ≡ length words
length-contacts [] = refl
length-contacts (w ∷ words) = omega (arith, length-contacts words)

contacts_small : (words : List ℕ) → All (λ w. w < 2 ^ 32) (map contact words)
contacts_small [] = tt
contacts_small (w ∷ words) = (omega arith, contacts_small words)

-- What `get_sdkinfo` returns are readings that `mib_update` can show.
pub get_sdkinfo-IsReadings :
    (demo : DemoInfo) (sdk : SdkParam)
    → IsSdkParam sdk
    → All (λ w. w < 2 ^ 32) (demo_words demo)
    → IsReadings demo (get_sdkinfo sdk)
unfolding get_sdkinfo
get_sdkinfo-IsReadings demo sdk is random = record {
  dry_contacts = omega (arith, length-contacts sdk.dry_contact, is.dry_contacts);
  optical_relays = is.optical_relays;
  small =
      All-append (λ w. w < 2 ^ 32) (demo_words demo) (sdk_words (get_sdkinfo sdk)) random
        (All-append (λ w. w < 2 ^ 32) (map contact sdk.dry_contact) _
          (contacts_small sdk.dry_contact) is.words);
}
