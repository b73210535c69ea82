-- ===== src/Mib/Search.antt =====
-- The searches of src/mib.c return the first entry that fits.
use open_wrt_sdk.Common.{
  ℕ, suc, ◌≤◌, ◌≡◌, refl, List, [], ◌∷◌, length, arith, Bool, true, false, if◌then◌else◌,
  Bool-cases, inl, inr, ℤ, ◌<ℤ◌, All, take, drop,
}
use open_wrt_sdk.Types.{Oid, Value}
use open_wrt_sdk.Mib.{is_below, mib_find, oid_cmp, mib_findnext}

-- The index of the first entry that passes a test, or the length.
module _ (test : Value → Bool) where
  first_index : List Value → ℕ
  first_index [] = 0
  first_index (v ∷ mib) = if test v then 0 else suc (first_index mib)

  -- The list starts with an entry that passes, where it is not empty.
  abbrev pub Starts : List Value → Type 0
  Starts [] = Unit
  Starts (v ∷ mib) = test v ≡ true

  abbrev pub IsFirst : List Value → ℕ → Type 0
  IsFirst mib i = (i ≤ length mib) × All (λ v. test v ≡ false) (take i mib) × Starts (drop i mib)

  first_index-IsFirst : (mib : List Value) → IsFirst mib (first_index mib)
  unfolding first_index
  first_index-IsFirst [] = (omega arith, tt, tt)
  first_index-IsFirst (v ∷ mib) = elim (Bool-cases (test v)) [
    | inl passes ↦ rw passes (omega arith, tt, passes)
    | inr fails ↦
        let ih = first_index-IsFirst mib in rw fails (omega (arith, ih.0), (fails, ih.1), ih.2)
  ]

mib_find-first_index :
    (mib : List Value) (oid : Oid) → mib_find mib oid ≡ first_index (is_below oid) mib
unfolding mib_find first_index
mib_find-first_index [] oid = refl
mib_find-first_index (v ∷ mib) oid = rw (mib_find-first_index mib oid)

-- `mib_find` returns the place of the first entry that has the OID or one below it, and
-- `g_mib_length` where there is none.
mib_find-IsFirst : (mib : List Value) (oid : Oid) → IsFirst (is_below oid) mib (mib_find mib oid)
mib_find-IsFirst mib oid =
    rw (mib_find-first_index mib oid) (first_index-IsFirst (is_below oid) mib)

-- The entry comes after the OID, by `oid_cmp`.
abbrev pub comes_after : Oid → Value → Bool
comes_after oid v = ℤ.pos 0 <ℤ oid_cmp v.oid oid

mib_findnext-first_index :
    (mib : List Value) (oid : Oid) → mib_findnext mib oid ≡ first_index (comes_after oid) mib
unfolding mib_findnext first_index
mib_findnext-first_index [] oid = refl
mib_findnext-first_index (v ∷ mib) oid = rw (mib_findnext-first_index mib oid)

-- `mib_findnext` returns the place of the first entry behind the OID, by `oid_cmp`, and
-- `g_mib_length` where there is none.
mib_findnext-IsFirst :
    (mib : List Value) (oid : Oid) → IsFirst (comes_after oid) mib (mib_findnext mib oid)
mib_findnext-IsFirst mib oid =
    rw (mib_findnext-first_index mib oid) (first_index-IsFirst (comes_after oid) mib)
