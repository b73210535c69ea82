-- ===== src/Mib.antt =====
-- The MIB: the comparison of OIDs (`oid_cmp` of src/utils.c) and the searches of src/mib.c.
-- `mib` is the used part of `g_mib`.
pub mod Search
pub mod Order
pub mod Element
pub mod Build
pub mod Walk
use open_wrt_sdk.Common.{
  ℕ, zero, suc, ◌+◌, Bool, ◌&&◌, List, [], ◌∷◌, length, ltb, leb, if◌then◌else◌, ℤ, ◌<ℤ◌, ◌=ℤ◌,
  to_int, take, get_or, bytes_eq,
}
use open_wrt_sdk.Types.{max_nr_oids, Oid, Value}

-- The subid at place `i` as an `int`, and -1 behind the last.
abbrev pub subid_at : Oid → ℕ → ℤ
subid_at oid i =
    if ltb i (length oid.subid_list) then to_int (get_or oid.subid_list i 0) else ℤ.negsuc 0

-- `for (i = …; i < MAX_NR_OIDS; i++)`, by the rounds that are left.
unfoldable pub oid_cmp_from : ℕ → ℕ → Oid → Oid → ℤ
oid_cmp_from zero i a b = ℤ.pos 0
oid_cmp_from (suc rounds) i a b =
    let rest = oid_cmp_from rounds (i + 1) a b in
    if subid_at a i =ℤ ℤ.negsuc 0 && subid_at b i =ℤ ℤ.negsuc 0
    then ℤ.pos 0
    else if subid_at b i <ℤ subid_at a i
    then ℤ.pos 1
    else if subid_at a i <ℤ subid_at b i
    then ℤ.negsuc 0
    else rest

unfoldable pub oid_cmp : Oid → Oid → ℤ
oid_cmp a b = oid_cmp_from max_nr_oids 0 a b

-- The entry has the OID, or one below it.
unfoldable pub is_below : Oid → Value → Bool
is_below oid entry =
    leb (length oid.subid_list) (length entry.oid.subid_list)
    && bytes_eq (take (length oid.subid_list) entry.oid.subid_list) oid.subid_list

-- The index of the first entry that fits, or `g_mib_length`.
unfoldable pub mib_find : List Value → Oid → ℕ
mib_find [] oid = 0
mib_find (entry ∷ mib) oid = if is_below oid entry then 0 else suc (mib_find mib oid)

unfoldable pub mib_findnext : List Value → Oid → ℕ
mib_findnext [] oid = 0
mib_findnext (entry ∷ mib) oid =
    if ℤ.pos 0 <ℤ oid_cmp entry.oid oid then 0 else suc (mib_findnext mib oid)
