-- ===== src/Tests/Handlers.antt =====
-- The handlers and the searches on the small MIB.
use open_wrt_sdk.Common.{ℕ, ◌≡◌, refl, List, [], ◌∷◌, ◌++◌, map, ℤ, arith, bytes_eq}
use open_wrt_sdk.Types.{snmp_version_1, snmp_version_2c, status_no_such_name, Oid, Value, Request}
use open_wrt_sdk.Ber
use open_wrt_sdk.Outcome.{ok}
use open_wrt_sdk.Mib.{is_below, mib_find, mib_findnext, oid_cmp, oid_cmp_from}
use open_wrt_sdk.Mib.Order.{oid_cmp-lexicographic, oid_cmp_inverted}
use open_wrt_sdk.Handle.{
  m_no_such_object, get_answer, next_entry, handle_snmp_get, handle_snmp_getbulk,
}
use open_wrt_sdk.Handle.Replies.{values_of, extended, handle_snmp_get_v1_missing}
use open_wrt_sdk.Handle.Bulk.{next_value, rows, handle_snmp_getbulk_lem}
use open_wrt_sdk.Agent.{empty_response}
use open_wrt_sdk.Tests.Samples.{sys_descr, sys_descr_value, mib, request}

-- An OID behind the whole MIB.
abbrev enterprise : Oid
enterprise = record { subid_list = 1 ∷ 3 ∷ 6 ∷ 1 ∷ 4 ∷ 1 ∷ []; encoded_length = 7 }

abbrev both : ℕ → ℤ → Request
both type version = request type version (sys_descr ∷ enterprise ∷ [])

get_values : values_of (get_answer mib) (sys_descr ∷ []) ≡ sys_descr_value ∷ []
unfolding get_answer mib_find is_below bytes_eq
get_values = refl

handle_snmp_get_v1_missing_example :
    handle_snmp_get mib (both Ber.snmp_get snmp_version_1) empty_response
    ≡ ok (record {
      error_status = status_no_such_name;
      error_index = ℤ.pos 1;
      value_list = values_of (get_answer mib) (sys_descr ∷ []);
    })
unfolding get_answer mib_find is_below bytes_eq
handle_snmp_get_v1_missing_example =
    handle_snmp_get_v1_missing mib (both Ber.snmp_get snmp_version_1) empty_response
      (sys_descr ∷ []) [] enterprise m_no_such_object refl refl (omega arith) (tt, tt) refl

-- One non-repeater and two repetitions.
abbrev bulk : Request
bulk = record (both Ber.snmp_getbulk snmp_version_2c) {
  non_repeaters = ℤ.pos 1;
  max_repetitions = ℤ.pos 2;
}

abbrev bulk_values : List Value
bulk_values = map (next_value mib) (sys_descr ∷ []) ++ rows mib 2 (enterprise ∷ [])

handle_snmp_getbulk_lem_example :
    handle_snmp_getbulk mib bulk empty_response ≡ ok (extended empty_response bulk_values)
unfolding next_entry mib_findnext oid_cmp oid_cmp_from
handle_snmp_getbulk_lem_example = handle_snmp_getbulk_lem mib bulk empty_response (omega arith)

oid_cmp-lexicographic_example : oid_cmp enterprise sys_descr ≡ ℤ.pos 1
oid_cmp-lexicographic_example =
    oid_cmp-lexicographic enterprise sys_descr (omega arith) (omega arith) (omega arith)
      (omega arith)

-- 1.3.1 against 1.3.4294967295.
abbrev lowest : Oid
lowest = record { subid_list = 1 ∷ 3 ∷ 1 ∷ []; encoded_length = 4 }

abbrev highest : Oid
highest = record { subid_list = 1 ∷ 3 ∷ 0xffff_ffff ∷ []; encoded_length = 8 }

oid_cmp_inverted_example : oid_cmp lowest highest ≡ ℤ.pos 1
oid_cmp_inverted_example =
    oid_cmp_inverted lowest highest (1 ∷ 3 ∷ []) [] [] 1 0xffff_ffff refl refl (omega arith)
      (omega arith) (omega arith) (omega arith) (omega arith)
