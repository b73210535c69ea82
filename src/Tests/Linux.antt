-- ===== src/Tests/Linux.antt =====
-- The readings of files at concrete values.
use open_wrt_sdk.Common.{ℕ, refl, true, List, [], ◌∷◌, ◌++◌, some}
use open_wrt_sdk.Linux.Values.{line}
use open_wrt_sdk.Linux.System.{net_info}
use open_wrt_sdk.Linux.Network.{IsCounters, net_info_cut}
use open_wrt_sdk.Tests.Tallies.{tally, strings}

-- A line with three numbers.
abbrev times : List ℕ
times = 4 ∷ 0 ∷ 2 ∷ []

-- A name of 15 characters.
abbrev long_name : List ℕ
long_name =
    0x77 ∷ 0x6c ∷ 0x61 ∷ 0x6e ∷ 0x2d ∷ 0x67 ∷ 0x75 ∷ 0x65 ∷ 0x73 ∷ 0x74 ∷ 0x2d ∷ 0x6e ∷ 0x65 ∷ 0x74
    ∷ 0x30 ∷ []

net_info_cut_example :
    IsCounters []
      (net_info strings (some (long_name ++ 0x3a ∷ line tally times)) long_name (some (true, true)))
net_info_cut_example =
    net_info_cut strings (long_name ++ 0x3a ∷ line tally times) long_name (line tally times)
      (some (true, true)) refl refl refl refl
