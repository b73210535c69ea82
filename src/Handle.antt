-- ===== src/Handle.antt =====
-- The request handlers of src/protocol.c. The searches never return -1, so the branch for that
-- has no counterpart; an index at or behind `g_mib_length` is one at which `mib` has no entry.
pub mod Lookup
pub mod Replies
pub mod Bulk
use open_wrt_sdk.Common.{
  ℕ, true, false, zero, suc, ◌+◌, List, [], ◌∷◌, ◌++◌, length, ltb, ◌==◌, if◌then◌else◌, ℤ,
  pos_part, ◌=ℤ◌, take, drop, get_elem?, some, none, Option,
}
use open_wrt_sdk.Types.{
  max_nr_values, snmp_version_1, status_no_such_name, status_no_access, Oid, Data, Value, Request,
  Response,
}
use open_wrt_sdk.Outcome.{Outcome, ok, ◌>>=◌, ◌>>◌, require}
use open_wrt_sdk.Mib.{mib_find, mib_findnext}

abbrev pub m_no_such_object : Data
m_no_such_object = record { buffer = 0x80 ∷ 0x00 ∷ []; max_length = 2; encoded_length = 2 }

abbrev pub m_no_such_instance : Data
m_no_such_instance = record { buffer = 0x81 ∷ 0x00 ∷ []; max_length = 2; encoded_length = 2 }

abbrev pub m_end_of_mib_view : Data
m_end_of_mib_view = record { buffer = 0x82 ∷ 0x00 ∷ []; max_length = 2; encoded_length = 2 }

-- `if (response->value_list_length < MAX_NR_VALUES) …; else return -1;`
unfoldable pub add_value : Value → Response → Outcome Response
add_value v response = do
  require (ltb (length response.value_list) max_nr_values)
  ok (record response { value_list = response.value_list ++ v ∷ [] })

-- The answer to one OID of a GET: an entry of the MIB, or what stands for its absence.
pub data Answer : Type 0 where
  found : Value → Answer
  missing : Data → Answer

unfoldable pub get_answer : List Value → Oid → Answer
get_answer mib oid = elim (get_elem? mib (mib_find mib oid)) [
  | none ↦ missing m_no_such_object
  | some entry ↦
      if length entry.oid.subid_list == length oid.subid_list + 1
      then missing m_no_such_instance
      else if length entry.oid.subid_list == length oid.subid_list
      then found entry
      else missing m_no_such_object
]

-- The loop from index `i` on, over the OIDs that are left.
unfoldable pub get_loop : List Value → ℤ → ℕ → List Oid → Response → Outcome Response
get_loop mib version i [] response = ok response
get_loop mib version i (oid ∷ oids) response = elim (get_answer mib oid) [
  | found entry ↦ (do
    response' ← add_value entry response
    get_loop mib version (i + 1) oids response')
  | missing content ↦
      if version =ℤ snmp_version_1
      then ok (record response { error_status = status_no_such_name; error_index = ℤ.pos i })
      else (do
        response' ← add_value (record { oid = oid; content = content }) response
        get_loop mib version (i + 1) oids response')
]

unfoldable pub handle_snmp_get : List Value → Request → Response → Outcome Response
handle_snmp_get mib request response = get_loop mib request.version 0 request.oid_list response

-- The entry behind an OID, if there is one.
unfoldable pub next_entry : List Value → Oid → Option Value
next_entry mib oid = get_elem? mib (mib_findnext mib oid)

-- What stands for an OID with no entry behind it.
abbrev pub end_value : Oid → Value
end_value oid = record { oid = oid; content = m_end_of_mib_view }

unfoldable pub getnext_loop : List Value → ℤ → ℕ → List Oid → Response → Outcome Response
getnext_loop mib version i [] response = ok response
getnext_loop mib version i (oid ∷ oids) response = elim (next_entry mib oid) [
  | some entry ↦ (do
    response' ← add_value entry response
    getnext_loop mib version (i + 1) oids response')
  | none ↦
      if version =ℤ snmp_version_1
      then ok (record response { error_status = status_no_such_name; error_index = ℤ.pos i })
      else (do
        response' ← add_value (end_value oid) response
        getnext_loop mib version (i + 1) oids response')
]

unfoldable pub handle_snmp_getnext : List Value → Request → Response → Outcome Response
handle_snmp_getnext mib request response =
    getnext_loop mib request.version 0 request.oid_list response

unfoldable pub handle_snmp_set : Request → Response → Outcome Response
handle_snmp_set request response = ok (record response {
  error_status =
      (if request.version =ℤ snmp_version_1 then status_no_such_name else status_no_access);
  error_index = ℤ.pos 0;
})

-- The loop over the non-repeaters.
unfoldable pub bulk_once : List Value → List Oid → Response → Outcome Response
bulk_once mib [] response = ok response
bulk_once mib (oid ∷ oids) response = do
  response' ← add_value (elim (next_entry mib oid) [ some e ↦ e | none ↦ end_value oid ]) response
  bulk_once mib oids response'

-- One repetition: the OIDs to go on from, the response, and how many entries were found.
unfoldable pub bulk_round : List Value → List Oid → Response → Outcome (List Oid × Response × ℕ)
bulk_round mib [] response = ok ([], response, 0)
bulk_round mib (oid ∷ oids) response = elim (next_entry mib oid) [
  | none ↦ (do
    response' ← add_value (end_value oid) response
    (oids', response'', n) ← bulk_round mib oids response'
    ok (oid ∷ oids', response'', n))
  | some entry ↦ (do
    response' ← add_value entry response
    (oids', response'', n) ← bulk_round mib oids response'
    ok (entry.oid ∷ oids', response'', suc n))
]

-- `for (j = 0; j < max_repetitions; j++)`, by the repetitions that are left.
unfoldable pub bulk_repeat : List Value → ℕ → List Oid → Response → Outcome Response
bulk_repeat mib zero oids response = ok response
bulk_repeat mib (suc left) oids response = do
  (oids', response', n) ← bulk_round mib oids response
  elim (n == 0) [ true ↦ ok response' | false ↦ bulk_repeat mib left oids' response' ]

-- `pos_part` is the limit to zero.
unfoldable pub handle_snmp_getbulk : List Value → Request → Response → Outcome Response
handle_snmp_getbulk mib request response = do
  let non_repeaters = pos_part request.non_repeaters
  response' ← bulk_once mib (take non_repeaters request.oid_list) response
  bulk_repeat mib (pos_part request.max_repetitions) (drop non_repeaters request.oid_list) response'
