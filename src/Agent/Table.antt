-- ===== src/Agent/Table.antt =====
-- The agent over the table: what a GET of its cells is answered.
use open_wrt_sdk.Common.{
  ℕ, ◌≤◌, ◌<◌, ◌≡◌, sym, ◌∙◌, List, [], ◌∷◌, length, All, IsByte, bytes_eq, true, to_int, get_elem?,
  some,
}
use open_wrt_sdk.Types.{max_packet_size, snmp_version_2c, Oid, Value, Request, Client}
use open_wrt_sdk.Ber
use open_wrt_sdk.Outcome.{ok, Answers}
use open_wrt_sdk.Message.{decode_snmp_request}
use open_wrt_sdk.Handle.{get_answer}
use open_wrt_sdk.Handle.Replies.{values_of, extended}
use open_wrt_sdk.Encode.Reply.{message_bytes, IsEncoded, Carries}
use open_wrt_sdk.Mib.Build.{Cell}
use open_wrt_sdk.Mib.Build.Entry.{subids_of, Reads}
use open_wrt_sdk.Mib.Build.Update.{Shows}
use open_wrt_sdk.Mib.Build.Table.{cells}
use open_wrt_sdk.Mib.Build.Get.{cells-AreApart, get_answer-Shows}
use open_wrt_sdk.Agent.{Globals, snmp, empty_response}
use open_wrt_sdk.Agent.Access.{snmp_get-Answers}

-- The OID is that of a cell, and the word is the cell's.
pub record Asks (words : List ℕ) (oid : Oid) : Type 0 where
  pub index : ℕ
  pub cell : Cell
  pub word : ℕ
  pub at_cell : get_elem? cells index ≡ some cell
  pub at_word : get_elem? words index ≡ some word
  pub subids : oid.subid_list ≡ subids_of cell

-- Every OID has its entry, and the entry holds the word that the OID asks for.
abbrev pub AreReadings :
    (words : List ℕ) (oids : List Oid) → All (Asks words) oids → List Value → Type 0
AreReadings words [] asks [] = Unit
AreReadings words [] asks (v ∷ vs) = ⊥
AreReadings words (oid ∷ oids) asks [] = ⊥
AreReadings words (oid ∷ oids) asks (v ∷ vs) =
    (v.oid.subid_list ≡ oid.subid_list)
    × Reads v (to_int asks.0.word)
    × AreReadings words oids asks.1 vs

values_of-AreReadings :
    (words : List ℕ) (mib : List Value) (oids : List Oid) (asks : All (Asks words) oids)
    → Shows cells words mib
    → All IsEncoded (values_of (get_answer mib) oids)
      × AreReadings words oids asks (values_of (get_answer mib) oids)
values_of-AreReadings words mib [] asks shows = (tt, tt)
values_of-AreReadings words mib (oid ∷ oids) (a, asks) shows =
    let (v, run, is, reads) =
      get_answer-Shows cells words mib a.index a.cell a.word oid cells-AreApart shows a.at_cell
        a.at_word a.subids in
    let (encoded, rest) = values_of-AreReadings words mib oids asks shows in
    rw run ((is.encoded, encoded), (is.subids ∙ sym a.subids, reads, rest))

-- Where the MIB is the table and shows the words, a GET of version 2c with the right community that
-- asks for cells of the table is answered by the message that binds each OID, in order, to an entry
-- of that OID whose bytes decode to the cell's word as an `int`; or the agent fails, and then that
-- message does not fit the packet. The packet holds 2048 bytes, of which the request is decoded.
pub snmp_get-AreReadings :
    (g : Globals) (client : Client) (request : Request) (words : List ℕ)
    → client.size ≤ length client.packet
    → All IsByte client.packet
    → length client.packet ≡ max_packet_size
    → decode_snmp_request client ≡ ok request
    → request.version ≡ snmp_version_2c
    → bytes_eq g.community request.community ≡ true
    → request.type ≡ Ber.snmp_get
    → Shows cells words g.mib
    → (asks : All (Asks words) request.oid_list)
    → (values : List Value) × AreReadings words request.oid_list asks values
      × Answers
          (Carries (message_bytes request (extended empty_response values) values))
          (max_packet_size < length (message_bytes request (extended empty_response values) values))
          (snmp g client)
snmp_get-AreReadings g client request words inside octets full decoded version allowed get shows
      asks =
    let (encoded, readings) = values_of-AreReadings words g.mib request.oid_list asks shows in
    (
      values_of (get_answer g.mib) request.oid_list,
      readings,
      snmp_get-Answers g client request inside octets full decoded version allowed get encoded,
    )
