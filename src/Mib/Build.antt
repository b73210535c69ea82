-- ===== src/Mib/Build.antt =====
-- How src/mib.c builds and updates the MIB. `mib` is the used part of `g_mib`; where a build
-- fails, the entry that it has begun is left out, since the program ends then.
pub mod Entry
pub mod Update
pub mod Table
pub mod Get
use open_wrt_sdk.Common.{
  ℕ, zero, suc, ◌+◌, ◌*◌, Bool, true, false, List, [], ◌∷◌, ◌++◌, map, length, ltb, ◌&&◌, ◌==◌,
  if◌then◌else◌, ℤ, to_int, get_elem?, set, drop, bytes_eq, zeros, Option, none, some,
}
use open_wrt_sdk.Types.{max_nr_values, max_nr_subids, Oid, Data, Value}
use open_wrt_sdk.Outcome.{Outcome, ok, fail, ◌>>=◌, ◌>>◌, require}
use open_wrt_sdk.Decode.{oid_encoded_length}
use open_wrt_sdk.Encode.{subids_length}
use open_wrt_sdk.Mib.Element.{
  encode_snmp_element_integer, encode_snmp_element_string, encode_snmp_element_oid,
  encode_snmp_element_unsigned,
}

-- The argument `type` with what the code makes of the pointer under that type: an `int`, a string
-- or `none` for the null pointer, what `oid_aton` returns for the string, or an `unsigned int`.
pub data Content : Type 0 where
  integer : ℤ → Content
  octet_string : Option (List ℕ) → Content
  object : Option Oid → Content
  unsigned : ℕ → ℕ → Content
  unsupported : Content

-- The OID of a cell: the prefix, the column and the row.
unfoldable pub cell_subids : List ℕ → ℕ → ℕ → Outcome (List ℕ)
cell_subids prefix column row = do
  require (ltb (length prefix) max_nr_subids)
  require (ltb (length (prefix ++ column ∷ [])) max_nr_subids)
  ok ((prefix ++ column ∷ []) ++ row ∷ [])

-- An entry with a cleared buffer.
abbrev pub fresh_value : Oid → ℕ → Value
fresh_value oid size = record {
  oid = oid;
  content = record { buffer = zeros size; max_length = size; encoded_length = 0 };
}

-- The `switch` on the type: the buffer that `malloc` gives, and the default value in it.
unfoldable pub build_content : Oid → Content → Outcome Value
build_content oid (integer v) = encode_snmp_element_integer (fresh_value oid (4 + 2)) v
build_content oid (octet_string none) = fail
build_content oid (octet_string (some text)) =
    encode_snmp_element_string (fresh_value oid (length text + 4)) text
build_content oid (object value) =
    encode_snmp_element_oid (fresh_value oid (max_nr_subids * 5 + 4)) value
build_content oid (unsigned type v) = encode_snmp_element_unsigned (fresh_value oid (4 + 2)) type v
build_content oid unsupported = fail

unfoldable pub mib_build_entry : List ℕ → ℕ → ℕ → Content → List Value → Outcome (List Value)
mib_build_entry prefix column row default_value mib = do
  require (ltb (length mib) max_nr_values)
  subids ← cell_subids prefix column row
  encoded_length ← oid_encoded_length (1 + subids_length (drop 2 subids))
  value ←
      build_content (record { subid_list = subids; encoded_length = encoded_length }) default_value
  ok (mib ++ value ∷ [])

-- A cell of the MIB.
pub record Cell : Type 0 where
  pub prefix : List ℕ
  pub column : ℕ
  pub row : ℕ

abbrev pub m_demo_oid : List ℕ
m_demo_oid = 1 ∷ 3 ∷ 6 ∷ 1 ∷ 4 ∷ 1 ∷ 125 ∷ []

abbrev pub m_sdk_oid : List ℕ
m_sdk_oid = 1 ∷ 3 ∷ 6 ∷ 1 ∷ 4 ∷ 1 ∷ 126 ∷ 3 ∷ []

-- `count` rows of a column, from `row` on.
abbrev pub rows_from : ℕ → ℕ → ℕ → List Cell
rows_from column row zero = []
rows_from column row (suc count) =
    record { prefix = m_sdk_oid; column = column; row = row } ∷ rows_from column (suc row) count

abbrev pub demo_cells : List Cell
demo_cells =
    record { prefix = m_demo_oid; column = 1; row = 0 }
    ∷ record { prefix = m_demo_oid; column = 2; row = 0 }
    ∷ []

abbrev pub sdk_cells : List Cell
sdk_cells =
    rows_from 1 0 20
    ++ (rows_from 2 0 1
        ++ (rows_from 3 0 1 ++ (rows_from 4 0 1 ++ (rows_from 5 0 1 ++ rows_from 6 0 4))))

-- `mib_build_entry(…) == -1 || …`: the calls up to the first that fails.
unfoldable pub build_cells : List Cell → List Value → Outcome (List Value)
build_cells [] mib = ok mib
build_cells (cell ∷ cells) mib = do
  mib' ← mib_build_entry cell.prefix cell.column cell.row (integer (ℤ.pos 0)) mib
  build_cells cells mib'

unfoldable pub mib_build : List Value → Outcome (List Value)
mib_build mib = do mib' ← build_cells demo_cells mib; build_cells sdk_cells mib'

-- The index of the first entry with these subids, or the length.
unfoldable pub index_of : List ℕ → List Value → ℕ
index_of subids [] = 0
index_of subids (v ∷ mib) =
    if bytes_eq v.oid.subid_list subids then 0 else suc (index_of subids mib)

-- The second `switch` on the type.
unfoldable pub update_content : Value → Content → Outcome Value
update_content value (integer v) = encode_snmp_element_integer value v
update_content value (octet_string none) = fail
update_content value (octet_string (some text)) = encode_snmp_element_string value text
update_content value (object oid) = encode_snmp_element_oid value oid
update_content value (unsigned type v) = encode_snmp_element_unsigned value type v
update_content value unsupported = fail

-- What follows the search: the entry at `pos`, if there is one, takes the value.
unfoldable pub update_at : List Value → ℕ → Content → Outcome (List Value × ℕ)
update_at mib pos new_value = elim (get_elem? mib pos) [
  | none ↦ fail
  | some value ↦ (do value' ← update_content value new_value; ok (set mib pos value', pos))
]

-- `*pos` is passed on with the MIB; a search goes on from the place of the last one.
unfoldable pub mib_update_entry :
    List ℕ → ℕ → ℕ → Content → List Value × ℕ → Outcome (List Value × ℕ)
mib_update_entry prefix column row new_value (mib, pos) = do
  subids ← cell_subids prefix column row
  update_at mib (pos + index_of subids (drop pos mib)) new_value

-- The values for the cells, as `unsigned int` or `int`: both are cast to a pointer, and from it
-- to an `int`.
unfoldable pub update_cells : List (Cell × ℕ) → List Value × ℕ → Outcome (List Value × ℕ)
update_cells [] at = ok at
update_cells ((cell, word) ∷ cells) at = do
  at' ← mib_update_entry cell.prefix cell.column cell.row (integer (to_int word)) at
  update_cells cells at'

-- `demoinfo_t`
pub record DemoInfo : Type 0 where
  pub random_value_1 : ℕ
  pub random_value_2 : ℕ

-- `sdkinfo_t`, as words of 32 bits; a list stands for the fields that are numbered.
pub record SdkInfo : Type 0 where
  pub dry_contacts : List ℕ
  pub sdk_temp : ℕ
  pub sdk_hw : ℕ
  pub sdk_sw : ℕ
  pub sdk_relay : ℕ
  pub optical_relays : List ℕ

abbrev pub zip : {A B : Type 0} → List A → List B → List (A × B)
zip [] ys = []
zip (x ∷ xs) [] = []
zip (x ∷ xs) (y ∷ ys) = (x, y) ∷ zip xs ys

abbrev pub demo_words : DemoInfo → List ℕ
demo_words demo = demo.random_value_1 ∷ demo.random_value_2 ∷ []

abbrev pub sdk_words : SdkInfo → List ℕ
sdk_words sdk =
    sdk.dry_contacts
    ++ (sdk.sdk_temp ∷ sdk.sdk_hw ∷ sdk.sdk_sw ∷ sdk.sdk_relay ∷ sdk.optical_relays)

-- The readings are those that `get_demoinfo` and `get_sdkinfo` return.
unfoldable pub mib_update : Bool → DemoInfo → SdkInfo → List Value → Outcome (List Value)
mib_update full demo sdk mib =
    if full
    then (do
      at ← update_cells (zip demo_cells (demo_words demo)) (mib, 0)
      (mib', pos) ← update_cells (zip sdk_cells (sdk_words sdk)) at
      ok mib')
    else ok mib
