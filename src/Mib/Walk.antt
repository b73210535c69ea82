-- ===== src/Mib/Walk.antt =====
-- A MIB in ascending order, as GETNEXT walks it.
pub mod Whole
use open_wrt_sdk.Common.{
  ℕ, zero, suc, ◌+◌, ◌*◌, ◌≤◌, ◌<◌, ◌^◌, ◌≡◌, ◌≢◌, refl, sym, ap, ◌∙◌, List, [], ◌∷◌, ◌++◌, map,
  length, length-append, ℤ, ◌<ℤ◌, arith, All, true, false, Bool, ◌&&◌, ltb, leb, tests,
  if◌then◌else◌, Option, none, some, get_elem?, inl, inr, ◌⊎◌, append_assoc, append-nil,
  get_elem?_between, get_elem?_out, Bool-cases,
}
use open_wrt_sdk.Types.{max_nr_oids, Oid, Value}
use open_wrt_sdk.Mib.{oid_cmp, mib_findnext}
use open_wrt_sdk.Mib.Order.{lexicographic, IsSmall, oid_cmp-lexicographic}
use open_wrt_sdk.Mib.Search.{comes_after}
use open_wrt_sdk.Handle.{next_entry}

-- Subids that `oid_cmp` compares rightly.
pub record IsKey (subids : List ℕ) : Type 0 where
  pub short : length subids ≤ max_nr_oids
  pub small : All IsSmall subids

abbrev pub subids : Value → List ℕ
subids v = v.oid.subid_list

-- The entries that pass a test.
abbrev pub select : (Value → Bool) → List Value → List Value
select test [] = []
select test (v ∷ mib) = let rest = select test mib in if test v then v ∷ rest else rest

pub select-append :
    (test : Value → Bool) (front rest : List Value)
    → select test (front ++ rest) ≡ select test front ++ select test rest
select-append test [] rest = refl
select-append test (v ∷ front) rest = ground (arith, select-append test front rest)

-- The OIDs stand in ascending order, each below all that follow.
abbrev pub IsAscending : List (List ℕ) → Type 0
IsAscending [] = Unit
IsAscending (x ∷ xs) = IsKey x × All (λ y. lexicographic x y ≡ ℤ.negsuc 0) xs × IsAscending xs

pub lexicographic_refl : (xs : List ℕ) → lexicographic xs xs ≡ ℤ.pos 0
lexicographic_refl [] = refl
lexicographic_refl (x ∷ xs) = ground (arith, lexicographic_refl xs)

-- The two orders of the arguments give opposite answers.
pub lexicographic_flip :
    (xs ys : List ℕ) → lexicographic xs ys ≡ ℤ.negsuc 0 → lexicographic ys xs ≡ ℤ.pos 1
lexicographic_flip [] [] h = cc
lexicographic_flip [] (y ∷ ys) h = refl
lexicographic_flip (x ∷ xs) [] h = cc
lexicographic_flip (x ∷ xs) (y ∷ ys) h = ground (arith, lexicographic_flip xs ys)

lexicographic_unflip :
    (xs ys : List ℕ) → lexicographic xs ys ≡ ℤ.pos 1 → lexicographic ys xs ≡ ℤ.negsuc 0
lexicographic_unflip [] [] h = cc
lexicographic_unflip [] (y ∷ ys) h = cc
lexicographic_unflip (x ∷ xs) [] h = refl
lexicographic_unflip (x ∷ xs) (y ∷ ys) h = ground (arith, lexicographic_unflip xs ys)

lexicographic_trans :
    (xs ys zs : List ℕ)
    → lexicographic xs ys ≡ ℤ.negsuc 0
    → lexicographic ys zs ≡ ℤ.negsuc 0
    → lexicographic xs zs ≡ ℤ.negsuc 0
lexicographic_trans [] [] zs h k = cc
lexicographic_trans [] (y ∷ ys) [] h k = cc
lexicographic_trans [] (y ∷ ys) (z ∷ zs) h k = refl
lexicographic_trans (x ∷ xs) [] zs h k = cc
lexicographic_trans (x ∷ xs) (y ∷ ys) [] h k = cc
lexicographic_trans (x ∷ xs) (y ∷ ys) (z ∷ zs) h k = ground (arith, lexicographic_trans xs ys zs)

lexicographic_after :
    (xs ys : List ℕ) → (ℤ.pos 0 <ℤ lexicographic xs ys) ≡ true → lexicographic xs ys ≡ ℤ.pos 1
lexicographic_after [] [] h = cc
lexicographic_after [] (y ∷ ys) h = cc
lexicographic_after (x ∷ xs) [] h = refl
lexicographic_after (x ∷ xs) (y ∷ ys) h = ground (arith, lexicographic_after xs ys)

-- The entry does not come behind the OID, or does.
abbrev pub NotBehind : Oid → Value → Type 0
NotBehind oid v = IsKey (subids v) × ((ℤ.pos 0 <ℤ lexicographic (subids v) oid.subid_list) ≡ false)

abbrev pub Behind : Oid → Value → Type 0
Behind oid v = IsKey (subids v) × (lexicographic (subids v) oid.subid_list ≡ ℤ.pos 1)

module _ (oid : Oid) (key : IsKey oid.subid_list) where
  comes_after-NotBehind : (v : Value) → NotBehind oid v → comes_after oid v ≡ false
  comes_after-NotBehind v h =
      rw (oid_cmp-lexicographic v.oid oid h.0.short key.short h.0.small key.small) h.1

  comes_after-Behind : (v : Value) → Behind oid v → comes_after oid v ≡ true
  comes_after-Behind v h =
      rw (oid_cmp-lexicographic v.oid oid h.0.short key.short h.0.small key.small, h.1) refl

  -- Entries that do not come behind the OID are passed over.
  findnext_passes :
      (front rest : List Value)
      → All (NotBehind oid) front
      → mib_findnext (front ++ rest) oid ≡ length front + mib_findnext rest oid
  unfolding mib_findnext
  findnext_passes [] rest h = omega arith
  findnext_passes (v ∷ front) rest h =
      rw (comes_after-NotBehind v h.0, findnext_passes front rest h.1) (omega arith)

  findnext_stops : (v : Value) (rest : List Value) → Behind oid v → mib_findnext (v ∷ rest) oid ≡ 0
  unfolding mib_findnext
  findnext_stops v rest h = rw (comes_after-Behind v h) refl

  findnext_end : mib_findnext [] oid ≡ 0
  findnext_end = unfold mib_findnext in refl

  -- The entry that GETNEXT finds.
  pub next_entry_found :
      (front rest : List Value) (v : Value)
      → All (NotBehind oid) front
      → Behind oid v
      → next_entry (front ++ v ∷ rest) oid ≡ some v
  unfolding next_entry
  next_entry_found front rest v h k =
      let e : length front + 0 ≡ length front = omega arith in
      rw (findnext_passes front (v ∷ rest) h, findnext_stops v rest k, e)
        (get_elem?_between front rest v)

  pub next_entry_end :
      (front : List Value) → All (NotBehind oid) front → next_entry front oid ≡ none
  unfolding next_entry
  next_entry_end front h =
      let whole : mib_findnext front oid ≡ length front + 0 =
        rw (append-nil front, findnext_end) at (findnext_passes front [] h) in
      rw whole (get_elem?_out front (length front + 0) (omega arith))

  -- The entries behind the OID, one after the other.
  pub select_front :
      (front : List Value) → All (NotBehind oid) front → select (comes_after oid) front ≡ []
  select_front [] h = refl
  select_front (v ∷ front) h = rw (comes_after-NotBehind v h.0) (select_front front h.1)

  pub select_rest :
      (rest : List Value) → All (Behind oid) rest → select (comes_after oid) rest ≡ rest
  select_rest [] h = refl
  select_rest (v ∷ rest) h = rw (comes_after-Behind v h.0, select_rest rest h.1) refl

  -- An ascending MIB falls into what is not behind the OID, and what is.
  pub ascending_split :
      (mib : List Value)
      → IsAscending (map subids mib)
      → (front : List Value) × (rest : List Value) × (mib ≡ front ++ rest)
        × All (NotBehind oid) front
        × All (Behind oid) rest
  ascending_split [] h = ([], [], refl, tt, tt)
  ascending_split (v ∷ mib) (k, below, h) =
      elim (Bool-cases (ℤ.pos 0 <ℤ lexicographic (subids v) oid.subid_list)) [
        | inr fails ↦
            let (front, rest, e, before, after) = ascending_split mib h in
            (v ∷ front, rest, ap (◌∷◌ v) e, ((k, fails), before), after)
        | inl passes ↦
            let e = lexicographic_after (subids v) oid.subid_list passes in
            ([], v ∷ mib, refl, tt, ((k, e), all_behind mib below h e))
      ]
    where
      all_behind :
          (mib : List Value)
          → All (λ y. lexicographic (subids v) y ≡ ℤ.negsuc 0) (map subids mib)
          → IsAscending (map subids mib)
          → lexicographic (subids v) oid.subid_list ≡ ℤ.pos 1
          → All (Behind oid) mib
      all_behind [] below h e = tt
      all_behind (w ∷ mib) below h e =
          let start = lexicographic_unflip (subids v) oid.subid_list e in
          (
            (
              h.0,
              lexicographic_flip oid.subid_list (subids w)
                  (lexicographic_trans oid.subid_list (subids v) (subids w) start below.0),
            ),
            all_behind mib below.1 h.2 e,
          )
