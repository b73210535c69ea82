-- ===== src/Tests/Mib.antt =====
-- The table of the MIB at concrete readings.
use open_wrt_sdk.Common.{◌-◌, ◌^◌, ◌≡◌, refl, List, [], ◌∷◌, ◌++◌, map, arith, zeros}
use open_wrt_sdk.Types.{Oid, Value}
use open_wrt_sdk.Mib.Build.{Cell, m_sdk_oid, DemoInfo, SdkInfo}
use open_wrt_sdk.Mib.Build.Update.{HasCells, Shows-HasCells}
use open_wrt_sdk.Mib.Build.Table.{cells, no_words, mib_build_lem, IsReadings}
use open_wrt_sdk.Mib.Search.{comes_after}
use open_wrt_sdk.Mib.Walk.{IsKey, subids, select, IsAscending}
use open_wrt_sdk.Mib.Walk.Whole.{walk, walk_lem}
use open_wrt_sdk.Tests.Samples.{sys_descr, mib}

-- The cell of `sdk_temp`.
abbrev pub temp_cell : Cell
temp_cell = record { prefix = m_sdk_oid; column = 2; row = 0 }

-- The MIB after the start.
abbrev pub built : List Value
built = (mib_build_lem [] (omega arith)).0

pub built-HasCells : HasCells cells built
built-HasCells = Shows-HasCells cells (no_words cells) built (mib_build_lem [] (omega arith)).2

abbrev pub demo : DemoInfo
demo = record { random_value_1 = 7; random_value_2 = 9 }

abbrev pub sdk : SdkInfo
sdk = record {
  dry_contacts = zeros 19 ++ 1 ∷ [];
  sdk_temp = 25;
  sdk_hw = 53;
  sdk_sw = 2;
  sdk_relay = 2 ^ 32 - 1;
  optical_relays = zeros 4;
}

pub demo_sdk-IsReadings : IsReadings demo sdk
unfolding zeros
demo_sdk-IsReadings = record { dry_contacts = refl; optical_relays = refl; small = ground arith }

abbrev pub temp_oid : Oid
temp_oid = record { subid_list = m_sdk_oid ++ 2 ∷ 0 ∷ []; encoded_length = 11 }

sys_descr-IsKey : IsKey sys_descr.subid_list
sys_descr-IsKey = record { short = omega arith; small = ground arith }

mib-IsAscending : IsAscending (map subids mib)
mib-IsAscending =
    (sys_descr-IsKey, (refl, tt), (record { short = omega arith; small = ground arith }, tt, tt))

walk_lem_example : walk 3 mib sys_descr ≡ select (comes_after sys_descr) mib
walk_lem_example = walk_lem 3 mib sys_descr mib-IsAscending sys_descr-IsKey (omega arith)
