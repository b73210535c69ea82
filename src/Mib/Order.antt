-- ===== src/Mib/Order.antt =====
-- `oid_cmp` of src/utils.c against the lexicographic order of OIDs.
use open_wrt_sdk.Common.{
  ℕ, zero, suc, ◌+◌, ◌≤◌, ◌<◌, ◌^◌, ◌≡◌, refl, ◌∙◌, List, [], ◌∷◌, ◌++◌, length, arith, ℤ, ltb,
  if◌then◌else◌, All,
}
use open_wrt_sdk.Types.{Oid, max_nr_oids}
use open_wrt_sdk.Mib.{subid_at, oid_cmp_from, oid_cmp}

-- The order of the standard: by the first subid that differs, and a prefix comes first.
abbrev pub lexicographic : List ℕ → List ℕ → ℤ
lexicographic [] [] = ℤ.pos 0
lexicographic [] (y ∷ ys) = ℤ.negsuc 0
lexicographic (x ∷ xs) [] = ℤ.pos 1
lexicographic (x ∷ xs) (y ∷ ys) =
    let rest = lexicographic xs ys in
    if ltb y x then ℤ.pos 1 else if ltb x y then ℤ.negsuc 0 else rest

-- Subids that stay positive as an `int`.
abbrev pub IsSmall : ℕ → Type 0
IsSmall s = s < 2 ^ 31

abbrev oid_of : List ℕ → Oid
oid_of xs = record { subid_list = xs; encoded_length = 0 }

-- The comparison does not read the encoded length.
oid_cmp_from_subids :
    (rounds i : ℕ) (a b : Oid)
    → oid_cmp_from rounds i a b ≡ oid_cmp_from rounds i (oid_of a.subid_list) (oid_of b.subid_list)
unfolding oid_cmp_from
oid_cmp_from_subids zero i a b = refl
oid_cmp_from_subids (suc rounds) i a b = rw (oid_cmp_from_subids rounds (i + 1) a b)

subid_at-suc :
    (x : ℕ) (xs : List ℕ) (i : ℕ) → subid_at (oid_of (x ∷ xs)) (suc i) ≡ subid_at (oid_of xs) i
subid_at-suc x xs i = ground arith

-- One subid in front of both moves the comparison up by one.
oid_cmp_from-suc :
    (rounds i x y : ℕ) (xs ys : List ℕ)
    → oid_cmp_from rounds (suc i) (oid_of (x ∷ xs)) (oid_of (y ∷ ys))
      ≡ oid_cmp_from rounds i (oid_of xs) (oid_of ys)
unfolding oid_cmp_from
oid_cmp_from-suc zero i x y xs ys = refl
oid_cmp_from-suc (suc rounds) i x y xs ys =
    let up : suc i + 1 ≡ suc (i + 1) = omega arith in
    rw (subid_at-suc x xs i, subid_at-suc y ys i, up, oid_cmp_from-suc rounds (i + 1) x y xs ys)

oid_cmp_from-lexicographic :
    (rounds : ℕ) (xs ys : List ℕ)
    → length xs ≤ rounds
    → length ys ≤ rounds
    → All IsSmall xs
    → All IsSmall ys
    → oid_cmp_from rounds 0 (oid_of xs) (oid_of ys) ≡ lexicographic xs ys
unfolding oid_cmp_from
oid_cmp_from-lexicographic zero [] [] hx hy sx sy = refl
oid_cmp_from-lexicographic zero [] (y ∷ ys) hx hy sx sy = absurd (omega arith)
oid_cmp_from-lexicographic zero (x ∷ xs) ys hx hy sx sy = absurd (omega arith)
oid_cmp_from-lexicographic (suc rounds) [] [] hx hy sx sy = ground arith
oid_cmp_from-lexicographic (suc rounds) [] (y ∷ ys) hx hy sx sy = ground arith
oid_cmp_from-lexicographic (suc rounds) (x ∷ xs) [] hx hy sx sy = ground arith
oid_cmp_from-lexicographic (suc rounds) (x ∷ xs) (y ∷ ys) hx hy sx sy =
    ground (arith, oid_cmp_from-suc rounds 0 x y xs ys, oid_cmp_from-lexicographic rounds xs ys)

-- On OIDs of at most 16 subids, all below 2 ^ 31, `oid_cmp` is the lexicographic comparison.
pub oid_cmp-lexicographic :
    (a b : Oid)
    → length a.subid_list ≤ max_nr_oids
    → length b.subid_list ≤ max_nr_oids
    → All IsSmall a.subid_list
    → All IsSmall b.subid_list
    → oid_cmp a b ≡ lexicographic a.subid_list b.subid_list
unfolding oid_cmp
oid_cmp-lexicographic a b ha hb sa sb =
    oid_cmp_from_subids 16 0 a b
    ∙ oid_cmp_from-lexicographic 16 a.subid_list b.subid_list ha hb sa sb

oid_cmp_from_inverted :
    (rounds : ℕ) (front xs ys : List ℕ) (x y : ℕ)
    → length front < rounds
    → All IsSmall front
    → x < 2 ^ 31
    → 2 ^ 31 ≤ y
    → y < 2 ^ 32
    → oid_cmp_from rounds 0 (oid_of (front ++ x ∷ xs)) (oid_of (front ++ y ∷ ys)) ≡ ℤ.pos 1
unfolding oid_cmp_from
oid_cmp_from_inverted zero front xs ys x y h s hx hy hz = absurd (omega arith)
oid_cmp_from_inverted (suc rounds) [] xs ys x y h s hx hy hz = ground arith
oid_cmp_from_inverted (suc rounds) (p ∷ front) xs ys x y h s hx hy hz = ground (
  arith,
  oid_cmp_from-suc rounds 0 p p (front ++ x ∷ xs) (front ++ y ∷ ys),
  oid_cmp_from_inverted rounds front xs ys x y,
)

-- Two OIDs that first differ (within 16 subids, those before below 2 ^ 31) where one subid is below
-- 2 ^ 31 and the other is not come out in the wrong order: the smaller one counts as the greater.
pub oid_cmp_inverted :
    (a b : Oid) (front xs ys : List ℕ) (x y : ℕ)
    → a.subid_list ≡ front ++ x ∷ xs
    → b.subid_list ≡ front ++ y ∷ ys
    → length front < max_nr_oids
    → All IsSmall front
    → x < 2 ^ 31
    → 2 ^ 31 ≤ y
    → y < 2 ^ 32
    → oid_cmp a b ≡ ℤ.pos 1
unfolding oid_cmp
oid_cmp_inverted a b front xs ys x y ea eb h s hx hy hz =
    oid_cmp_from_subids 16 0 a b
    ∙ rw (ea, eb) (oid_cmp_from_inverted 16 front xs ys x y h s hx hy hz)
