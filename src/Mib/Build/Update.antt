-- ===== src/Mib/Build/Update.antt =====
-- An update finds the entries of its cells one behind the other, and writes each in its place.
use open_wrt_sdk.Common.{
  ℕ, suc, ◌+◌, ◌≤◌, ◌<◌, ◌^◌, ◌≡◌, refl, sym, ap, ◌∙◌, List, [], ◌∷◌, ◌++◌, length, length-append,
  ℤ, drop, arith, All, true, false, bytes_eq, get_elem?_between, set_between, append_assoc,
  drop-append, to_int, to_int-IsInt,
}
use open_wrt_sdk.Types.{Value}
use open_wrt_sdk.Outcome.{ok}
use open_wrt_sdk.Encode.{encode_snmp_integer}
use open_wrt_sdk.Mib.Element.Back.{filled, encode_snmp_element_integer-filled, decode-filled}
use open_wrt_sdk.Mib.Build.{
  Cell, integer, index_of, update_at, update_content, mib_update_entry, update_cells, zip,
}
use open_wrt_sdk.Mib.Build.Entry.{
  subids_of, IsCell, Reads, IsCellName, cell_subids-ok, filled-IsCell,
}

pub bytes_eq_refl : (xs : List ℕ) → bytes_eq xs xs ≡ true
unfolding bytes_eq
bytes_eq_refl [] = refl
bytes_eq_refl (x ∷ xs) = ground (arith, bytes_eq_refl xs)

-- No entry here is the cell's.
abbrev pub Passed : Cell → List Value → Type 0
Passed cell passed = All (λ (v : Value). bytes_eq v.oid.subid_list (subids_of cell) ≡ false) passed

index_of-append :
    (cell : Cell) (passed rest : List Value) (v : Value)
    → Passed cell passed
    → v.oid.subid_list ≡ subids_of cell
    → index_of (subids_of cell) (passed ++ v ∷ rest) ≡ length passed
unfolding index_of
index_of-append cell [] rest v h e = rw (e, bytes_eq_refl (subids_of cell)) refl
index_of-append cell (u ∷ passed) rest v h e =
    rw h.0 (ap suc (index_of-append cell passed rest v h.1 e))

update_at_lem :
    (front rest : List Value) (v : Value) (n : ℤ)
    → length v.content.buffer ≡ 6
    → update_at (front ++ v ∷ rest) (length front) (integer n)
      ≡ ok (front ++ filled v (encode_snmp_integer n).1 ∷ rest, length front)
unfolding update_at update_content
update_at_lem front rest v n room =
    rw (update_at, get_elem?_between front rest v)
      (rw (encode_snmp_element_integer-filled v n (omega (arith, room)))
        (rw (set_between front rest v (filled v (encode_snmp_integer n).1)) refl))

-- The value of a cell is written where its entry stands.
mib_update_entry_lem :
    (cell : Cell) (n : ℤ) (before passed rest : List Value) (v : Value)
    → length cell.prefix ≤ 14
    → IsCell cell v
    → Passed cell passed
    → mib_update_entry cell.prefix cell.column cell.row
        (integer n)
        ((before ++ passed) ++ v ∷ rest, length before)
      ≡ ok (
        (before ++ passed) ++ filled v (encode_snmp_integer n).1 ∷ rest,
        length (before ++ passed),
      )
mib_update_entry_lem cell n before passed rest v short is h =
    searched ∙ rw found (update_at_lem (before ++ passed) rest v n is.room)
  where
    mib : List Value
    mib = (before ++ passed) ++ v ∷ rest

    searched :
        mib_update_entry cell.prefix cell.column cell.row (integer n) (mib, length before)
        ≡ update_at mib
            (length before + index_of (subids_of cell) (drop (length before) mib))
            (integer n)
    searched = unfold mib_update_entry in rw (cell_subids-ok cell short) refl

    found :
        length before
          + index_of (subids_of cell) (drop (length before) ((before ++ passed) ++ v ∷ rest))
        ≡ length (before ++ passed)
    found =
        let split = append_assoc before passed (v ∷ rest) in
        let place = drop-append before (passed ++ v ∷ rest) (length before) refl in
        rw (split, place, index_of-append cell passed rest v h is.subids)
          (sym (length-append before passed))

-- The entries are those of the cells, one for one.
abbrev pub HasCells : List Cell → List Value → Type 0
HasCells [] [] = Unit
HasCells [] (v ∷ vs) = ⊥
HasCells (cell ∷ cells) [] = ⊥
HasCells (cell ∷ cells) (v ∷ vs) = IsCell cell v × HasCells cells vs

-- And each holds its word, as an `int`.
abbrev pub Shows : List Cell → List ℕ → List Value → Type 0
Shows [] [] [] = Unit
Shows (cell ∷ cells) (word ∷ words) (v ∷ vs) =
    IsCell cell v × Reads v (to_int word) × Shows cells words vs
Shows _ _ _ = ⊥

pub Shows-HasCells :
    (cells : List Cell) (words : List ℕ) (vs : List Value)
    → Shows cells words vs
    → HasCells cells vs
Shows-HasCells [] [] [] h = tt
Shows-HasCells [] [] (v ∷ vs) h = absurd h
Shows-HasCells [] (word ∷ words) vs h = absurd h
Shows-HasCells (cell ∷ cells) [] vs h = absurd h
Shows-HasCells (cell ∷ cells) (word ∷ words) [] h = absurd h
Shows-HasCells (cell ∷ cells) (word ∷ words) (v ∷ vs) h = (h.0, Shows-HasCells cells words vs h.2)

-- Every cell can be named, and differs from the one before it.
abbrev pub AreNames : List Cell → Type 0
AreNames [] = Unit
AreNames (cell ∷ []) = IsCellName cell
AreNames (cell ∷ next ∷ cells) =
    IsCellName cell × (bytes_eq (subids_of cell) (subids_of next) ≡ false) × AreNames (next ∷ cells)

-- The names behind the first one.
pub AreNames-tail :
    (cell : Cell) (cells : List Cell) → AreNames (cell ∷ cells) → IsCellName cell × AreNames cells
AreNames-tail cell [] h = (h, tt)
AreNames-tail cell (next ∷ cells) h = (h.0, h.2)

-- The entries passed over are none of the first cell.
abbrev NotFirst : List Cell → List Value → Type 0
NotFirst [] passed = Unit
NotFirst (cell ∷ cells) passed = Passed cell passed

written_NotFirst :
    (cell : Cell) (cells : List Cell) (v : Value)
    → AreNames (cell ∷ cells)
    → IsCell cell v
    → NotFirst cells (v ∷ [])
written_NotFirst cell [] v h is = tt
written_NotFirst cell (next ∷ cells) v h is = (rw is.subids h.1, tt)

-- All the values are written, whatever stands in front of the entries.
pub update_cells_lem :
    (cells : List Cell) (words : List ℕ) (before passed vs : List Value)
    → AreNames cells
    → HasCells cells vs
    → length words ≡ length cells
    → All (λ w. w < 2 ^ 32) words
    → NotFirst cells passed
    → (vs' : List Value) × (pos : ℕ) × (update_cells
          (zip cells words)
          ((before ++ passed) ++ vs, length before)
        ≡ ok ((before ++ passed) ++ vs', pos))
      × Shows cells words vs'
unfolding update_cells
update_cells_lem [] [] before passed [] names has same small first = ([], length before, refl, tt)
update_cells_lem [] [] before passed (v ∷ vs) names has same small first = absurd has
update_cells_lem [] (w ∷ words) before passed vs names has same small first = absurd (omega arith)
update_cells_lem (cell ∷ cells) [] before passed vs names has same small first =
    absurd (omega arith)
update_cells_lem (cell ∷ cells) (w ∷ words) before passed [] names has same small first = absurd has
update_cells_lem (cell ∷ cells) (w ∷ words) before passed (v ∷ vs) names has same small first =
    let (name, names') = AreNames-tail cell cells names in
    let is = filled-IsCell cell v (to_int w) has.0.subids has.0.encoded.oid has.0.room in
    let v' = filled v (encode_snmp_integer (to_int w)).1 in
    let (vs', pos, run, shows) =
      update_cells_lem cells words (before ++ passed) (v' ∷ []) vs names' has.1 (omega arith)
        small.1 (written_NotFirst cell cells v' names is) in
    (
      v' ∷ vs',
      pos,
      rw (mib_update_entry_lem cell (to_int w) before passed vs v name.short has.0 first) (
          rw
            (
              append_assoc (before ++ passed) (v' ∷ []) vs,
              append_assoc (before ++ passed) (v' ∷ []) vs',
            )
            at run),
      (is, decode-filled v (to_int w) (to_int-IsInt w small.0), shows),
    )
