-- ===== src/Mib/Walk/Whole.antt =====
-- A client that repeats GETNEXT gets every entry behind the first OID, once and in order.
use open_wrt_sdk.Common.{
  ℕ, zero, suc, ◌<◌, ◌≡◌, refl, sym, ap, ◌∙◌, List, [], ◌∷◌, ◌++◌, map, length, ℤ, arith, All, none,
  some, append_assoc, append-nil, length-append,
}
use open_wrt_sdk.Types.{Oid, Value}
use open_wrt_sdk.Mib.Order.{lexicographic}
use open_wrt_sdk.Mib.Search.{comes_after}
use open_wrt_sdk.Handle.{next_entry}
use open_wrt_sdk.Mib.Walk.{
  IsKey, subids, IsAscending, select, select-append, NotBehind, Behind, lexicographic_refl,
  lexicographic_flip, next_entry_found, next_entry_end, select_front, select_rest, ascending_split,
}

-- The client: at most `rounds` requests, each for the OID that the one before returned.
abbrev pub walk : ℕ → List Value → Oid → List Value
walk zero mib oid = []
walk (suc rounds) mib oid = elim (next_entry mib oid) [
  | none ↦ []
  | some v ↦ v ∷ walk rounds mib v.oid
]

All_at :
    (P : List ℕ → Type 0) (front rest : List Value) (v : Value)
    → All P (map subids (front ++ v ∷ rest))
    → P (subids v)
All_at P [] rest v h = h.0
All_at P (u ∷ front) rest v h = All_at P front rest v h.1

Behind-all :
    (v : Value) (rest : List Value)
    → All (λ y. lexicographic (subids v) y ≡ ℤ.negsuc 0) (map subids rest)
    → IsAscending (map subids rest)
    → All (Behind v.oid) rest
Behind-all v [] below h = tt
Behind-all v (w ∷ rest) below h =
    ((h.0, lexicographic_flip (subids v) (subids w) below.0), Behind-all v rest below.1 h.2)

-- How the entries stand to one of them.
ascending_at :
    (front rest : List Value) (v : Value)
    → IsAscending (map subids (front ++ v ∷ rest))
    → IsKey (subids v) × All (NotBehind v.oid) (front ++ v ∷ []) × All (Behind v.oid) rest
ascending_at [] rest v h =
    (h.0, ((h.0, rw (lexicographic_refl (subids v)) refl), tt), Behind-all v rest h.1 h.2)
ascending_at (u ∷ front) rest v h =
    let (key, before, after) = ascending_at front rest v h.2 in
    let less = All_at (λ y. lexicographic (subids u) y ≡ ℤ.negsuc 0) front rest v h.1 in
    (key, ((h.0, rw less refl), before), after)

walk_split :
    (rounds : ℕ) (front rest : List Value) (oid : Oid)
    → IsAscending (map subids (front ++ rest))
    → IsKey oid.subid_list
    → All (NotBehind oid) front
    → All (Behind oid) rest
    → length rest < rounds
    → walk rounds (front ++ rest) oid ≡ rest
walk_split zero front rest oid asc key before after enough = absurd (omega arith)
walk_split (suc rounds) front [] oid asc key before after enough =
    rw (append-nil front) (rw (walk, next_entry_end oid key front before) refl)
walk_split (suc rounds) front (v ∷ rest) oid asc key before after enough =
    let (key', before', after') = ascending_at front rest v asc in
    let split = append_assoc front (v ∷ []) rest in
    rw (walk, next_entry_found oid key front rest v before after.0)
      (ap (◌∷◌ v) (
        rw split at (
          walk_split rounds (front ++ v ∷ []) rest v.oid (rw split asc) key' before' after'
            (omega arith))))

-- In a MIB in ascending order, GETNEXT from any OID and then from every OID that it returns gives
-- the entries that come behind the first OID, all of them, each once and in their order, and then
-- ends, within one request more than there are entries. The subids are below 2 ^ 31, and no OID
-- has more than 16.
pub walk_lem :
    (rounds : ℕ) (mib : List Value) (oid : Oid)
    → IsAscending (map subids mib)
    → IsKey oid.subid_list
    → length mib < rounds
    → walk rounds mib oid ≡ select (comes_after oid) mib
walk_lem rounds mib oid asc key enough =
    let (front, rest, e, before, after) = ascending_split oid key mib asc in
    let few = length-append front rest in
    let size : length mib ≡ length (front ++ rest) = ap length e in
    rw e (
      walk_split rounds front rest oid (rw e at asc) key before after
        (omega (arith, few, size, enough))
      ∙ sym (
          select-append (comes_after oid) front rest
          ∙ rw (select_front oid key front before, select_rest oid key rest after) refl))
