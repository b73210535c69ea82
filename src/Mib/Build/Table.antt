-- ===== src/Mib/Build/Table.antt =====
-- The whole table: `mib_build` makes it, and every `mib_update` keeps it and shows the readings.
use open_wrt_sdk.Common.{
  ℕ, ◌+◌, ◌≤◌, ◌<◌, ◌^◌, ◌≡◌, refl, sym, ap, fun_ext, map, ◌&&◌, ltb, leb, ◌=ℤ◌, =ℤ_iff, ltb→lt,
  leb→le, Bool, ◌∙◌, List, [], ◌∷◌, ◌++◌, length, length-append, ℤ, arith, All, true, bytes_eq,
  append_assoc, append-nil, to_int,
}
use open_wrt_sdk.Types.{max_nr_values, Value}
use open_wrt_sdk.Outcome.{Outcome, ok, ◌>>=◌, >>=-assoc}
use open_wrt_sdk.Mib.Build.{
  Cell, integer, build_cells, mib_build_entry, mib_build, mib_update_entry, update_cells,
  mib_update, demo_cells, sdk_cells, DemoInfo, SdkInfo, demo_words, sdk_words, zip,
}
use open_wrt_sdk.Mib.Order.{lexicographic, IsSmall}
use open_wrt_sdk.Mib.Walk.{subids, IsAscending}
use open_wrt_sdk.Mib.Build.Entry.{subids_of, mib_build_entry-integer}
use open_wrt_sdk.Mib.Build.Update.{HasCells, Shows, AreNames, AreNames-tail, update_cells_lem}

abbrev pub cells : List Cell
cells = demo_cells ++ sdk_cells

cells-AreNames : AreNames cells
unfolding bytes_eq
cells-AreNames = ground arith

-- Two runs, one behind the other, are one over both lists.
build_cells-append :
    (front back : List Cell) (mib : List Value)
    → (build_cells front mib >>= build_cells back) ≡ build_cells (front ++ back) mib
unfolding build_cells
build_cells-append [] back mib = refl
build_cells-append (cell ∷ front) back mib =
    >>=-assoc (mib_build_entry cell.prefix cell.column cell.row (integer (ℤ.pos 0)) mib)
      (build_cells front) (build_cells back)
    ∙ ap (λ k. mib_build_entry cell.prefix cell.column cell.row (integer (ℤ.pos 0)) mib >>= k)
        (fun_ext λ mib'. build_cells-append front back mib')

zip-append :
    {A B : Type 0} (xs xs' : List A) (ys ys' : List B)
    → length xs ≡ length ys
    → zip (xs ++ xs') (ys ++ ys') ≡ zip xs ys ++ zip xs' ys'
zip-append [] xs' [] ys' h = refl
zip-append [] xs' (y ∷ ys) ys' h = absurd (omega arith)
zip-append (x ∷ xs) xs' [] ys' h = absurd (omega arith)
zip-append (x ∷ xs) xs' (y ∷ ys) ys' h = ap (◌∷◌ (x, y)) (zip-append xs xs' ys ys' (omega arith))

update_cells-append :
    (front back : List (Cell × ℕ)) (at : List Value × ℕ)
    → (update_cells front at >>= update_cells back) ≡ update_cells (front ++ back) at
unfolding update_cells
update_cells-append [] back at = refl
update_cells-append ((cell, word) ∷ front) back at =
    >>=-assoc (mib_update_entry cell.prefix cell.column cell.row (integer (to_int word)) at)
      (update_cells front) (update_cells back)
    ∙ ap (λ k. mib_update_entry cell.prefix cell.column cell.row (integer (to_int word)) at >>= k)
        (fun_ext λ at'. update_cells-append front back at')

abbrev pub no_words : List Cell → List ℕ
no_words [] = []
no_words (cell ∷ cells) = 0 ∷ no_words cells

build_cells_lem :
    (cs : List Cell) (mib : List Value)
    → AreNames cs
    → length mib + length cs ≤ max_nr_values
    → (vs : List Value) × (build_cells cs mib ≡ ok (mib ++ vs)) × Shows cs (no_words cs) vs
unfolding build_cells
build_cells_lem [] mib names room = ([], rw append-nil refl, tt)
build_cells_lem (cell ∷ cs) mib names room =
    let (name, names') = AreNames-tail cell cs names in
    let (v, run, is, reads) =
      mib_build_entry-integer cell (ℤ.pos 0) mib name (omega arith) (omega arith) in
    let longer = length-append mib (v ∷ []) in
    let (vs, run', shows) =
      build_cells_lem cs (mib ++ v ∷ []) names' (omega (arith, longer, room)) in
    (v ∷ vs, rw run (rw (append_assoc mib (v ∷ []) vs) at run'), (is, reads, shows))

-- Where the MIB has room for them, `mib_build` adds the entries of the table behind those that are
-- there: each under its OID, with lengths that are those of its bytes, and holding 0.
pub mib_build_lem :
    (mib : List Value)
    → length mib + length cells ≤ max_nr_values
    → (vs : List Value) × (mib_build mib ≡ ok (mib ++ vs)) × Shows cells (no_words cells) vs
unfolding mib_build
mib_build_lem mib room =
    let (vs, run, shows) = build_cells_lem cells mib cells-AreNames room in
    (vs, build_cells-append demo_cells sdk_cells mib ∙ run, shows)

-- The readings have the fields of the structs, words of 32 bits.
pub record IsReadings (demo : DemoInfo) (sdk : SdkInfo) : Type 0 where
  pub dry_contacts : length sdk.dry_contacts ≡ 20
  pub optical_relays : length sdk.optical_relays ≡ 4
  pub small : All (λ w. w < 2 ^ 32) (demo_words demo ++ sdk_words sdk)

-- A full update of a MIB with the entries of the table succeeds, whatever the readings, which are
-- words of 32 bits: every entry stays in its place and then holds its reading, as an `int`.
pub mib_update_lem :
    (demo : DemoInfo) (sdk : SdkInfo) (mib : List Value)
    → HasCells cells mib
    → IsReadings demo sdk
    → (mib' : List Value) × (mib_update true demo sdk mib ≡ ok mib')
      × Shows cells (demo_words demo ++ sdk_words sdk) mib'
mib_update_lem demo sdk mib has readings =
    let count = length_words sdk readings in
    let (mib', pos, run, shows) =
      update_cells_lem cells (demo_words demo ++ sdk_words sdk) [] [] mib cells-AreNames has
        (omega (arith, count)) readings.small tt in
    let joined = zip-append demo_cells sdk_cells (demo_words demo) (sdk_words sdk) refl in
    let both =
      update_cells-append (zip demo_cells (demo_words demo)) (zip sdk_cells (sdk_words sdk))
        (mib, 0) in
    (mib', finish (both ∙ rw joined at run), shows)
  where
    length_words : (sdk : SdkInfo) → IsReadings demo sdk → length (sdk_words sdk) ≡ 28
    length_words sdk readings =
        let rest = sdk.sdk_temp ∷ sdk.sdk_hw ∷ sdk.sdk_sw ∷ sdk.sdk_relay ∷ sdk.optical_relays in
        omega (
          arith,
          length-append sdk.dry_contacts rest,
          readings.dry_contacts,
          readings.optical_relays,
        )

    first : Outcome (List Value × ℕ)
    first = update_cells (zip demo_cells (demo_words demo)) (mib, 0)

    second : List Value × ℕ → Outcome (List Value × ℕ)
    second = update_cells (zip sdk_cells (sdk_words sdk))

    split : mib_update true demo sdk mib ≡ ((first >>= second) >>= λ r. ok r.0)
    split = unfold mib_update in sym (>>=-assoc first second (λ r. ok r.0))

    finish :
        {mib' : List Value} {pos : ℕ}
        → (first >>= second) ≡ ok (mib', pos)
        → mib_update true demo sdk mib ≡ ok mib'
    finish e = split ∙ ap (λ m. m >>= λ r. ok r.0) e

HasCells-subids :
    (cs : List Cell) (mib : List Value) → HasCells cs mib → map subids mib ≡ map subids_of cs
HasCells-subids [] [] h = refl
HasCells-subids [] (v ∷ mib) h = absurd h
HasCells-subids (cell ∷ cs) [] h = absurd h
HasCells-subids (cell ∷ cs) (v ∷ mib) h = rw (h.0.subids, HasCells-subids cs mib h.1) refl

-- The order as a test.
abbrev all_small : List ℕ → Bool
all_small [] = true
all_small (x ∷ xs) = ltb x (2 ^ 31) && all_small xs

abbrev all_above : List ℕ → List (List ℕ) → Bool
all_above x [] = true
all_above x (y ∷ ys) = lexicographic x y =ℤ ℤ.negsuc 0 && all_above x ys

abbrev is_ascending : List (List ℕ) → Bool
is_ascending [] = true
is_ascending (x ∷ xs) = leb (length x) 16 && all_small x && all_above x xs && is_ascending xs

all_small-IsSmall : (xs : List ℕ) → all_small xs ≡ true → All IsSmall xs
all_small-IsSmall [] h = tt
all_small-IsSmall (x ∷ xs) h = ground (arith, ltb→lt x (2 ^ 31), all_small-IsSmall xs)

all_above-All :
    (x : List ℕ) (ys : List (List ℕ))
    → all_above x ys ≡ true
    → All (λ y. lexicographic x y ≡ ℤ.negsuc 0) ys
all_above-All x [] h = tt
all_above-All x (y ∷ ys) h =
    ground (arith, =ℤ_iff (lexicographic x y) (ℤ.negsuc 0), all_above-All x ys)

is_ascending-IsAscending : (xs : List (List ℕ)) → is_ascending xs ≡ true → IsAscending xs
is_ascending-IsAscending [] h = tt
is_ascending-IsAscending (x ∷ xs) h = ground (
  arith,
  leb→le (length x) 16,
  all_small-IsSmall x,
  all_above-All x xs,
  is_ascending-IsAscending xs,
)

cells-IsAscending : IsAscending (map subids_of cells)
cells-IsAscending = is_ascending-IsAscending (map subids_of cells) refl

-- A MIB with the entries of the table is in ascending order of the OIDs, which GETNEXT needs.
HasCells-IsAscending : (mib : List Value) → HasCells cells mib → IsAscending (map subids mib)
HasCells-IsAscending mib h = rw (HasCells-subids cells mib h) cells-IsAscending
