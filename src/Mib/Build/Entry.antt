-- ===== src/Mib/Build/Entry.antt =====
-- One entry of the MIB: what `mib_build_entry` adds for an integer.
use open_wrt_sdk.Common.{
  ℕ, ◌+◌, ◌≤◌, ◌<◌, ◌≡◌, refl, List, [], ◌∷◌, ◌++◌, length, length-append, ℤ, IsInt, drop, arith,
  length-zeros, lt→ltb,
}
use open_wrt_sdk.Types.{max_nr_values, Oid, Value}
use open_wrt_sdk.Outcome.{ok}
use open_wrt_sdk.Decode.{oid_encoded_length}
use open_wrt_sdk.Message.{decode_integer_element}
use open_wrt_sdk.Encode.{encode_snmp_oid, encode_snmp_integer, subids_length}
use open_wrt_sdk.Encode.Subids.{IsEncodable, subids_length-le}
use open_wrt_sdk.Encode.Oids.{length-encode_snmp_oid}
use open_wrt_sdk.Encode.Reply.{IsEncoded}
use open_wrt_sdk.Mib.Element.Back.{
  filled, length-filled, length_le_six, encode_snmp_element_integer-filled, decode-filled,
}
use open_wrt_sdk.Mib.Build.{Cell, integer, cell_subids, build_content, mib_build_entry, fresh_value}

abbrev pub subids_of : Cell → List ℕ
subids_of cell = (cell.prefix ++ cell.column ∷ []) ++ cell.row ∷ []

-- The entry of a cell: its OID, lengths that are those of its bytes, and room for an integer.
pub record IsCell (cell : Cell) (v : Value) : Type 0 where
  pub subids : v.oid.subid_list ≡ subids_of cell
  pub encoded : IsEncoded v
  pub room : length v.content.buffer ≡ 6

-- The bytes of the entry are an integer element.
abbrev pub Reads : Value → ℤ → Type 0
Reads v n =
    decode_integer_element v.content.buffer v.content.encoded_length 0
    ≡ ok (n, v.content.encoded_length)

-- A cell that the encoder of OIDs can express.
pub record IsCellName (cell : Cell) : Type 0 where
  pub encodable : IsEncodable (subids_of cell)
  pub short : length cell.prefix ≤ 14

pub cell_subids-ok :
    (cell : Cell)
    → length cell.prefix ≤ 14
    → cell_subids cell.prefix cell.column cell.row ≡ ok (subids_of cell)
unfolding cell_subids
cell_subids-ok cell h = ground (arith, length-append cell.prefix (cell.column ∷ []))

subids_length_short : (subids : List ℕ) → IsEncodable subids → subids_length (drop 2 subids) ≤ 70
subids_length_short [] h = absurd h
subids_length_short (s₀ ∷ []) h = absurd h
subids_length_short (s₀ ∷ s₁ ∷ rest) h = omega (arith, subids_length-le rest, h)

oid_encoded_length-encode :
    (subids : List ℕ) (n : ℕ)
    → IsEncodable subids
    → oid_encoded_length (1 + subids_length (drop 2 subids))
      ≡ ok (length (encode_snmp_oid (record { subid_list = subids; encoded_length = n })).1)
unfolding oid_encoded_length
oid_encoded_length-encode subids n h =
    let size = length-encode_snmp_oid subids n h in ground (arith, subids_length_short subids h)

-- What an entry has once a number is written into it.
pub filled-IsCell :
    (cell : Cell) (v : Value) (n : ℤ)
    → v.oid.subid_list ≡ subids_of cell
    → v.oid.encoded_length ≡ length (encode_snmp_oid v.oid).1
    → length v.content.buffer ≡ 6
    → IsCell cell (filled v (encode_snmp_integer n).1)
filled-IsCell cell v n e size room =
    let kept = length-filled v (encode_snmp_integer n).1 (omega (arith, room, length_le_six v n)) in
    record {
      subids = e;
      encoded = record { oid = size; content = omega (arith, kept, room, length_le_six v n) };
      room = omega (arith, kept, room);
    }

-- For a cell that can be named and a MIB that has room, `mib_build_entry` adds the cell's entry
-- with the integer in it, and nothing else.
pub mib_build_entry-integer :
    (cell : Cell) (n : ℤ) (mib : List Value)
    → IsCellName cell
    → IsInt n
    → length mib < max_nr_values
    → (v : Value) × (mib_build_entry cell.prefix cell.column cell.row (integer n) mib
        ≡ ok (mib ++ v ∷ []))
      × IsCell cell v
      × Reads v n
unfolding mib_build_entry build_content
mib_build_entry-integer cell n mib name int room =
    let oid : Oid = record {
      subid_list = subids_of cell;
      encoded_length =
          length (encode_snmp_oid (record { subid_list = subids_of cell; encoded_length = 0 })).1;
    } in
    let bare = fresh_value oid 6 in
    let six = length-zeros 6 in
    let size = length-encode_snmp_oid (subids_of cell) 0 name.encodable in
    let size' = length-encode_snmp_oid (subids_of cell) oid.encoded_length name.encodable in
    (
      filled bare (encode_snmp_integer n).1,
      rw
          (
            lt→ltb (length mib) max_nr_values room,
            cell_subids-ok cell name.short,
            oid_encoded_length-encode (subids_of cell) 0 name.encodable,
            encode_snmp_element_integer-filled bare n (omega (arith, six)),
          )
          refl,
      filled-IsCell cell bare n refl (omega (arith, size, size')) six,
      decode-filled bare n int,
    )
