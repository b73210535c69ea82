-- ===== src/Linux/Network.antt =====
-- The counters of an interface, `get_netinfo` of src/linux.c, from its line of /proc/net/dev.
use open_wrt_sdk.Common.{
  ℕ, zero, suc, ◌≤◌, ◌<◌, ◌^◌, ◌≡◌, refl, sym, ap, ◌∙◌, Bool, false, List, [], ◌∷◌, ◌++◌, length,
  take, drop-append, take-append, take_all, length-append, get_or, All, zeros, arith, Option, some,
}
use open_wrt_sdk.Linux.{Strings, skip_space, number_at, next_values, read_values}
use open_wrt_sdk.Linux.Values.{IsStrings, line, read_values_lem}
use open_wrt_sdk.Linux.System.{NetInfo, device_name, values_of, net_info}

-- The line holds what the struct does: packets, bytes, errors and drops both ways.
abbrev pub IsCounters : List ℕ → NetInfo → Type 0
IsCounters numbers info =
    (info.rx_bytes ≡ get_or numbers 0 0)
    × (info.rx_packets ≡ get_or numbers 1 0)
    × (info.rx_errors ≡ get_or numbers 2 0)
    × (info.rx_drops ≡ get_or numbers 3 0)
    × (info.tx_bytes ≡ get_or numbers 8 0)
    × (info.tx_packets ≡ get_or numbers 9 0)
    × (info.tx_errors ≡ get_or numbers 10 0)
    × (info.tx_drops ≡ get_or numbers 11 0)

get_or-zeros : (count missing i : ℕ) → get_or (take count (zeros missing)) i 0 ≡ 0
unfolding zeros
get_or-zeros zero missing i = refl
get_or-zeros (suc count) zero i = refl
get_or-zeros (suc count) (suc missing) zero = refl
get_or-zeros (suc count) (suc missing) (suc i) = get_or-zeros count missing i

get_or_padded :
    (count missing : ℕ) (numbers : List ℕ) (i : ℕ)
    → i < count
    → get_or (take count (numbers ++ zeros missing)) i 0 ≡ get_or numbers i 0
get_or_padded zero missing numbers i h = absurd (omega arith)
get_or_padded count missing [] i h = get_or-zeros count missing i
get_or_padded (suc count) missing (n ∷ numbers) zero h = refl
get_or_padded (suc count) missing (n ∷ numbers) (suc i) h =
    get_or_padded count missing numbers i (omega arith)

net_info-IsCounters :
    (s : Strings) (text interface numbers : List ℕ) (flags : Option (Bool × Bool))
    → values_of s (some text) interface ≡ take 16 (numbers ++ zeros 16)
    → IsCounters numbers (net_info s (some text) interface flags)
unfolding net_info
net_info-IsCounters s text interface numbers flags e = (
  at 0 (omega arith),
  at 1 (omega arith),
  at 2 (omega arith),
  at 3 (omega arith),
  at 8 (omega arith),
  at 9 (omega arith),
  at 10 (omega arith),
  at 11 (omega arith),
)
  where
    at : (i : ℕ) → i < 16 → get_or (values_of s (some text) interface) i 0 ≡ get_or numbers i 0
    at i h = ap (λ values. get_or values i 0) e ∙ get_or_padded 16 16 numbers i h

-- Where the line of an interface is found, with a name of at most 14 characters, the entry has its
-- counters, 0 for those that the line does not have.
net_info_lem :
    (print : ℕ → List ℕ) (s : Strings) (text interface numbers : List ℕ)
    (flags : Option (Bool × Bool))
    → IsStrings print s
    → All (λ n. n < 2 ^ 32) numbers
    → length interface ≤ 14
    → s.strstr text (interface ++ 0x3a ∷ []) ≡ some ((interface ++ 0x3a ∷ []) ++ line print numbers)
    → IsCounters numbers (net_info s (some text) interface flags)
unfolding values_of device_name
net_info_lem print s text interface numbers flags is small short found =
    net_info-IsCounters s text interface numbers flags (
      rw (take_all 15 (interface ++ 0x3a ∷ []) fits)
        (read_values_lem print s text (interface ++ 0x3a ∷ []) numbers 16 is small found))
  where
    fits : length (interface ++ 0x3a ∷ []) ≤ 15
    fits = omega (arith, length-append interface (0x3a ∷ []))

cut_values :
    (s : Strings) (rest : List ℕ) (count : ℕ)
    → s.is_space 0x3a ≡ false
    → s.strtoul (0x3a ∷ rest) ≡ (0, 0x3a ∷ rest)
    → next_values s count (0x3a ∷ rest) ≡ zeros count
unfolding next_values skip_space number_at zeros
cut_values s rest zero visible none_read = refl
cut_values s rest (suc count) visible none_read =
    rw (visible, none_read) (ap (◌∷◌ 0) (cut_values s rest count visible none_read))

device_name_cut : (interface : List ℕ) → length interface ≡ 15 → device_name interface ≡ interface
unfolding device_name
device_name_cut interface long = take-append interface (0x3a ∷ []) 15 (sym long)

-- A name of 15 characters, the most that the system has, loses its colon: where the text has the
-- name, with a colon behind its first place, every counter is 0, whatever the line holds. A colon
-- is no space, and `strtoul` reads no number at it.
pub net_info_cut :
    (s : Strings) (text interface rest : List ℕ) (flags : Option (Bool × Bool))
    → s.is_space 0x3a ≡ false
    → s.strtoul (0x3a ∷ rest) ≡ (0, 0x3a ∷ rest)
    → length interface ≡ 15
    → s.strstr text interface ≡ some (interface ++ 0x3a ∷ rest)
    → IsCounters [] (net_info s (some text) interface flags)
unfolding values_of read_values zeros
net_info_cut s text interface rest flags visible none_read long found =
    net_info-IsCounters s text interface [] flags (
      ap (λ name. read_values s text name 16) (device_name_cut interface long)
      ∙ rw (read_values, found)
          (rw (drop-append interface (0x3a ∷ rest) (length interface) refl)
            (cut_values s rest 16 visible none_read)))
