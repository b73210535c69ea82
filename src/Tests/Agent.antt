-- ===== src/Tests/Agent.antt =====
-- The agent on whole packets.
use open_wrt_sdk.Common.{
  ℕ, ◌<◌, ◌≡◌, refl, inl, bytes_eq, List, [], ◌∷◌, length, length-append, All, All-append, IsByte,
  true, false, arith, zeros, length-zeros, zeros-IsByte,
}
use open_wrt_sdk.Types.{max_packet_size, snmp_version_2c, Value, Client}
use open_wrt_sdk.Ber
use open_wrt_sdk.Decode.{
  is_one_of, is_element_type, decode_length_bytes, decode_length, decode_snmp_element_type_length,
  has_room, decode_bytes, decode_snmp_element_value_integer, read_string,
  decode_snmp_element_value_string, decode_subid, decode_subids, oid_encoded_length,
  decode_snmp_element_value_oid, decode_snmp_element_value_void,
}
use open_wrt_sdk.Outcome.{byte_at, ok, fail, Answers, Ensures}
use open_wrt_sdk.Message.{
  decode_snmp_request, decode_integer_element, decode_version, decode_community, decode_oid_element,
  decode_varbind, decode_varbinds,
}
use open_wrt_sdk.Message.Ends.{IsRequest, decode_snmp_request_ends}
use open_wrt_sdk.Encode.{
  encode_snmp_oid, length_field, subid_length, subid_group, subid_bytes, subids_length,
  subids_bytes, error_values, encode_snmp_response, get_sequence_header_length,
  encode_snmp_sequence_header,
}
use open_wrt_sdk.Outcome.Holds.{Holds}
use open_wrt_sdk.Mib.{mib_findnext, oid_cmp, oid_cmp_from}
use open_wrt_sdk.Handle.{next_entry}
use open_wrt_sdk.Encode.Reply.{message_bytes, IsEncoded, Carries}
use open_wrt_sdk.Encode.Whole.{encode_snmp_response-Answers}
use open_wrt_sdk.Handle.Replies.{values_of, next_answer, extended}
use open_wrt_sdk.Agent.{Globals, snmp, empty_response, snmp_packet_complete}
use open_wrt_sdk.Agent.Access.{snmp_refused, snmp_getnext-Answers}
use open_wrt_sdk.Agent.Lookup.{snmp_get-AreAnswers}
use open_wrt_sdk.Handle.Lookup.{AreAnswers}
use open_wrt_sdk.Agent.Framing.{snmp_packet_complete_lem}
use open_wrt_sdk.Tests.Samples.{
  community, sys_descr, sys_descr_value, sys_up_time_value, mib, globals, request, get_bytes,
  getnext_bytes, received,
}

get_decoded :
    decode_snmp_request (received get_bytes)
    ≡ ok (request Ber.snmp_get snmp_version_2c (sys_descr ∷ []))
unfolding decode_snmp_request zeros is_one_of is_element_type decode_length_bytes decode_length
    decode_snmp_element_type_length has_room decode_bytes decode_snmp_element_value_integer
    read_string decode_snmp_element_value_string decode_subid decode_subids oid_encoded_length
    decode_snmp_element_value_oid decode_snmp_element_value_void decode_integer_element
    decode_version decode_community decode_oid_element decode_varbind decode_varbinds byte_at
get_decoded = refl

get_full : length (received get_bytes).packet ≡ max_packet_size
get_full = omega (arith, length-append get_bytes (zeros 2008), length-zeros 2008)

get_IsByte : All IsByte (received get_bytes).packet
get_IsByte = All-append IsByte get_bytes (zeros 2008) (omega arith) (zeros-IsByte 2008)

getnext_decoded :
    decode_snmp_request (received getnext_bytes)
    ≡ ok (request Ber.snmp_getnext snmp_version_2c (sys_descr ∷ []))
unfolding decode_snmp_request zeros is_one_of is_element_type decode_length_bytes decode_length
    decode_snmp_element_type_length has_room decode_bytes decode_snmp_element_value_integer
    read_string decode_snmp_element_value_string decode_subid decode_subids oid_encoded_length
    decode_snmp_element_value_oid decode_snmp_element_value_void decode_integer_element
    decode_version decode_community decode_oid_element decode_varbind decode_varbinds byte_at
getnext_decoded = refl

getnext_full : length (received getnext_bytes).packet ≡ max_packet_size
getnext_full = omega (arith, length-append getnext_bytes (zeros 2008), length-zeros 2008)

getnext_IsByte : All IsByte (received getnext_bytes).packet
getnext_IsByte = All-append IsByte getnext_bytes (zeros 2008) (omega arith) (zeros-IsByte 2008)

sys_descr-IsEncoded : IsEncoded sys_descr_value
unfolding encode_snmp_oid length_field subid_length subid_group subid_bytes subids_length
    subids_bytes
sys_descr-IsEncoded = record { oid = refl; content = omega arith }

sys_up_time-IsEncoded : IsEncoded sys_up_time_value
unfolding encode_snmp_oid length_field subid_length subid_group subid_bytes subids_length
    subids_bytes
sys_up_time-IsEncoded = record { oid = refl; content = omega arith }

allowed : bytes_eq community community ≡ true
allowed = unfold bytes_eq in refl

getnext_values : All IsEncoded (values_of (next_answer mib) (sys_descr ∷ []))
unfolding next_entry mib_findnext oid_cmp oid_cmp_from
getnext_values = (sys_up_time-IsEncoded, tt)

-- What the two answers carry.
abbrev answered : ℕ → List Value → List ℕ
answered type values =
    message_bytes (request type snmp_version_2c (sys_descr ∷ [])) (extended empty_response values)
      values

snmp_get-AreAnswers_example :
    (values : List Value) × AreAnswers mib (sys_descr ∷ []) values
    × Answers
        (Carries (answered Ber.snmp_get values))
        (max_packet_size < length (answered Ber.snmp_get values))
        (snmp globals (received get_bytes))
snmp_get-AreAnswers_example =
    snmp_get-AreAnswers globals (received get_bytes)
      (request Ber.snmp_get snmp_version_2c (sys_descr ∷ [])) (omega (arith, get_full)) get_IsByte
      get_full get_decoded refl allowed refl (sys_descr-IsEncoded, (sys_up_time-IsEncoded, tt))
      (sys_descr-IsEncoded.oid, tt)

snmp_getnext-Answers_example :
    Answers
      (Carries (answered Ber.snmp_getnext (values_of (next_answer mib) (sys_descr ∷ []))))
      (max_packet_size
        < length (answered Ber.snmp_getnext (values_of (next_answer mib) (sys_descr ∷ []))))
      (snmp globals (received getnext_bytes))
snmp_getnext-Answers_example =
    snmp_getnext-Answers globals (received getnext_bytes)
      (request Ber.snmp_getnext snmp_version_2c (sys_descr ∷ [])) (omega (arith, getnext_full))
      getnext_IsByte getnext_full getnext_decoded refl allowed refl getnext_values

-- An agent with another community refuses the request.
abbrev strict : List Value → Globals
strict values = record { community = 0x78 ∷ []; auth = false; mib = values }

snmp_refused_example :
    snmp (strict mib) (received get_bytes) ≡ snmp (strict []) (received get_bytes)
snmp_refused_example =
    snmp_refused (strict mib) (strict []) (received get_bytes)
      (request Ber.snmp_get snmp_version_2c (sys_descr ∷ [])) refl refl get_decoded
      (inl (refl, (unfold bytes_eq in refl)))

decode_snmp_request_ends_example : Ensures IsRequest (decode_snmp_request (received get_bytes))
decode_snmp_request_ends_example =
    decode_snmp_request_ends (received get_bytes) (omega (arith, get_full)) get_IsByte

encode_snmp_response-Answers_example :
    Answers
      (Carries (answered Ber.snmp_get (sys_descr_value ∷ [])))
      (max_packet_size < length (answered Ber.snmp_get (sys_descr_value ∷ [])))
      (encode_snmp_response
        (request Ber.snmp_get snmp_version_2c (sys_descr ∷ []))
        (extended empty_response (sys_descr_value ∷ []))
        (received get_bytes))
encode_snmp_response-Answers_example =
    encode_snmp_response-Answers (request Ber.snmp_get snmp_version_2c (sys_descr ∷ []))
      (extended empty_response (sys_descr_value ∷ [])) (received get_bytes) (sys_descr_value ∷ [])
      (unfold error_values in refl) (sys_descr-IsEncoded, tt) (omega arith) get_full

-- All of 40 bytes, and the first 30 of them.
abbrev partial : Client
partial = record { packet = get_bytes; size = 30 }

get_front : Holds get_bytes 0 (encode_snmp_sequence_header 38 Ber.sequence).1
unfolding encode_snmp_sequence_header length_field byte_at
get_front = (refl, (refl, tt))

snmp_packet_complete_lem_example : snmp_packet_complete partial ≡ fail
unfolding get_sequence_header_length
snmp_packet_complete_lem_example =
    snmp_packet_complete_lem partial 38 (omega arith) (omega arith) (omega arith) (omega arith)
      get_front
