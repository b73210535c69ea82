-- ===== src/Mib/Build/Get.antt =====
-- What GET answers from the table: each cell's reading under the cell's OID.
use open_wrt_sdk.Common.{
  ℕ, zero, suc, ◌+◌, ◌≡◌, refl, ap, List, [], ◌∷◌, ◌++◌, length, take, arith, All, All-get_elem?,
  Bool, true, false, ◌&&◌, not, ◌==◌, ==_refl, leb, bytes_eq, to_int, some, get_elem?,
}
use open_wrt_sdk.Types.{Oid, Value}
use open_wrt_sdk.Outcome.{ok}
use open_wrt_sdk.Mib.{is_below, mib_find}
use open_wrt_sdk.Handle.{found, get_answer}
use open_wrt_sdk.Mib.Build.{Cell, DemoInfo, SdkInfo, demo_words, sdk_words, mib_update}
use open_wrt_sdk.Mib.Build.Entry.{subids_of, IsCell, Reads}
use open_wrt_sdk.Mib.Build.Update.{HasCells, Shows, bytes_eq_refl}
use open_wrt_sdk.Mib.Build.Table.{cells, IsReadings, mib_update_lem}

-- The test of `mib_find`, on the subids alone.
abbrev pub extends : List ℕ → List ℕ → Bool
extends subids longer =
    leb (length subids) (length longer) && bytes_eq (take (length subids) longer) subids

-- No cell is below one that comes later.
abbrev pub AreApart : List Cell → Type 0
AreApart [] = Unit
AreApart (cell ∷ cs) =
    All (λ later. extends (subids_of later) (subids_of cell) ≡ false) cs × AreApart cs

abbrev extends_none : Cell → List Cell → Bool
extends_none cell [] = true
extends_none cell (later ∷ cs) =
    not (extends (subids_of later) (subids_of cell)) && extends_none cell cs

abbrev are_apart : List Cell → Bool
are_apart [] = true
are_apart (cell ∷ cs) = extends_none cell cs && are_apart cs

extends_none-All :
    (cell : Cell) (cs : List Cell)
    → extends_none cell cs ≡ true
    → All (λ later. extends (subids_of later) (subids_of cell) ≡ false) cs
extends_none-All cell [] h = tt
extends_none-All cell (later ∷ cs) h = let rest = extends_none-All cell cs in ground (arith, rest)

are_apart-AreApart : (cs : List Cell) → are_apart cs ≡ true → AreApart cs
are_apart-AreApart [] h = tt
are_apart-AreApart (cell ∷ cs) h = ground (arith, extends_none-All cell cs, are_apart-AreApart cs)

pub cells-AreApart : AreApart cells
unfolding bytes_eq
cells-AreApart = are_apart-AreApart cells refl

take_all : (xs : List ℕ) → take (length xs) xs ≡ xs
take_all [] = refl
take_all (x ∷ xs) = ap (◌∷◌ x) (take_all xs)

is_below-extends :
    (oid : Oid) (v : Value) (subids longer : List ℕ)
    → oid.subid_list ≡ subids
    → v.oid.subid_list ≡ longer
    → is_below oid v ≡ extends subids longer
unfolding is_below
is_below-extends oid v subids longer e f = rw (e, f) refl

extends_refl : (subids : List ℕ) → extends subids subids ≡ true
extends_refl subids = rw (take_all subids, bytes_eq_refl subids) (ground arith)

-- The search goes on behind an entry that does not fit.
mib_find_next :
    (v : Value) (mib : List Value) (oid : Oid)
    → is_below oid v ≡ false
    → mib_find (v ∷ mib) oid ≡ suc (mib_find mib oid)
unfolding mib_find
mib_find_next v mib oid h = rw h refl

pub mib_find_here :
    (v : Value) (mib : List Value) (oid : Oid) → is_below oid v ≡ true → mib_find (v ∷ mib) oid ≡ 0
unfolding mib_find
mib_find_here v mib oid h = rw h refl

pub get_answer_next :
    (v : Value) (mib : List Value) (oid : Oid)
    → is_below oid v ≡ false
    → get_answer (v ∷ mib) oid ≡ get_answer mib oid
unfolding get_answer
get_answer_next v mib oid h = rw (get_answer, mib_find_next v mib oid h) refl

get_answer_here :
    (v : Value) (mib : List Value) (oid : Oid)
    → is_below oid v ≡ true
    → length v.oid.subid_list ≡ length oid.subid_list
    → get_answer (v ∷ mib) oid ≡ found v
unfolding get_answer
get_answer_here v mib oid h e =
    rw (get_answer, mib_find_here v mib oid h)
      (rw (e, not_longer (length oid.subid_list), ==_refl (length oid.subid_list)) refl)
  where
    not_longer : (n : ℕ) → (n == n + 1) ≡ false
    not_longer n = ground arith

-- The entry of a cell is what the search finds.
pub get_answer-Shows :
    (cs : List Cell) (words : List ℕ) (mib : List Value) (i : ℕ) (cell : Cell) (word : ℕ)
    (oid : Oid)
    → AreApart cs
    → Shows cs words mib
    → get_elem? cs i ≡ some cell
    → get_elem? words i ≡ some word
    → oid.subid_list ≡ subids_of cell
    → (v : Value) × (get_answer mib oid ≡ found v) × IsCell cell v × Reads v (to_int word)
get_answer-Shows [] words mib i cell word oid apart shows at_cell at_word e = cc
get_answer-Shows (c ∷ cs) [] mib i cell word oid apart shows at_cell at_word e = cc
get_answer-Shows (c ∷ cs) (w ∷ words) [] i cell word oid apart shows at_cell at_word e =
    absurd shows
get_answer-Shows (c ∷ cs) (w ∷ words) (v ∷ mib) zero cell word oid apart shows at_cell at_word e =
    let same : c ≡ cell = cc in
    let same_word : w ≡ word = cc in
    let is : IsCell cell v = rw same at shows.0 in
    let below : is_below oid v ≡ true =
      rw (is_below-extends oid v (subids_of cell) (subids_of cell) e is.subids)
        (extends_refl (subids_of cell)) in
    (v, get_answer_here v mib oid below (rw (e, is.subids) refl), is, rw same_word at shows.1)
get_answer-Shows (c ∷ cs) (w ∷ words) (v ∷ mib) (suc i) cell word oid apart shows at_cell at_word
      e =
    let (u, run, is, reads) =
      get_answer-Shows cs words mib i cell word oid apart.1 shows.2 at_cell at_word e in
    let other = All-get_elem? _ cs i cell apart.0 at_cell in
    let above : is_below oid v ≡ false =
      rw (is_below-extends oid v (subids_of cell) (subids_of c) e shows.0.subids) other in
    (u, rw (get_answer_next v mib oid above) run, is, reads)

-- After a full update of a MIB with the entries of the table, from readings that are words of 32
-- bits, a GET of the OID of the `i`-th cell finds the cell's entry, and the bytes that it answers
-- decode to the `i`-th reading as an `int`.
pub get_answer-mib_update :
    (demo : DemoInfo) (sdk : SdkInfo) (mib : List Value) (i : ℕ) (cell : Cell) (word : ℕ)
    (oid : Oid)
    → HasCells cells mib
    → IsReadings demo sdk
    → get_elem? cells i ≡ some cell
    → get_elem? (demo_words demo ++ sdk_words sdk) i ≡ some word
    → oid.subid_list ≡ subids_of cell
    → (mib' : List Value) × (mib_update true demo sdk mib ≡ ok mib')
      × (v : Value) × (get_answer mib' oid ≡ found v)
      × IsCell cell v
      × Reads v (to_int word)
get_answer-mib_update demo sdk mib i cell word oid has readings at_cell at_word e =
    let (mib', run, shows) = mib_update_lem demo sdk mib has readings in
    let words = demo_words demo ++ sdk_words sdk in
    let (v, answer, is, reads) =
      get_answer-Shows cells words mib' i cell word oid cells-AreApart shows at_cell at_word e in
    (mib', run, v, answer, is, reads)
