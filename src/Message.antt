-- ===== src/Message.antt =====
-- `decode_snmp_request` of src/protocol.c: the syntax of an SNMP request.
pub mod Ends
use open_wrt_sdk.Common.{
  ℕ, zero, suc, ◌+◌, ◌-◌, ◌%◌, Bool, true, false, ◌||◌, ◌&&◌, not, List, [], ◌∷◌, ◌++◌, length, ltb,
  ◌==◌, if◌then◌else◌, ℤ, ◌=ℤ◌,
}
use open_wrt_sdk.Types.{
  size_mod, max_nr_oids, max_string_size, snmp_version_1, snmp_version_2c, Oid, Request, Client,
}
use open_wrt_sdk.Ber
use open_wrt_sdk.Outcome.{Outcome, ok, hang, ◌>>=◌, ◌>>◌, require}
use open_wrt_sdk.Decode.{
  decode_snmp_element_type_length, decode_snmp_element_value_integer,
  decode_snmp_element_value_string, decode_snmp_element_value_oid, decode_snmp_element_value_void,
}

-- `size - pos` in `size_t`
abbrev pub bytes_left : ℕ → ℕ → ℕ
bytes_left size pos = (size + size_mod - pos) % size_mod

-- An element that must be an integer of at least one byte.
unfoldable pub decode_integer_element : List ℕ → ℕ → ℕ → Outcome (ℤ × ℕ)
decode_integer_element packet size pos = do
  (type, len, pos') ← decode_snmp_element_type_length packet size pos
  require (type == Ber.integer && not (len == 0))
  decode_snmp_element_value_integer packet size pos' len

-- The version: an integer of one byte, 0 or 1.
abbrev pub is_version : ℤ → Bool
is_version v = v =ℤ snmp_version_1 || v =ℤ snmp_version_2c

unfoldable pub decode_version : List ℕ → ℕ → ℕ → Outcome (ℤ × ℕ)
decode_version packet size pos = do
  (type, len, pos') ← decode_snmp_element_type_length packet size pos
  require (type == Ber.integer && len == 1)
  (version, pos'') ← decode_snmp_element_value_integer packet size pos' len
  require (is_version version)
  ok (version, pos'')

abbrev pub is_empty {ℓ} : {A : Type ℓ} → List A → Bool
is_empty [] = true
is_empty (x ∷ xs) = false

unfoldable pub decode_community : List ℕ → ℕ → ℕ → Outcome (List ℕ × ℕ)
decode_community packet size pos = do
  (type, len, pos') ← decode_snmp_element_type_length packet size pos
  require (type == Ber.octet_string && ltb len max_string_size)
  (community, pos'') ← decode_snmp_element_value_string packet size pos' len max_string_size
  require (not (is_empty community))
  ok (community, pos'')

-- An element that must be an OID.
unfoldable pub decode_oid_element : List ℕ → ℕ → ℕ → Outcome (Oid × ℕ)
decode_oid_element packet size at = do
  (type, len, at') ← decode_snmp_element_type_length packet size at
  require (type == Ber.oid && not (len == 0))
  decode_snmp_element_value_oid packet size at' len

-- One round of the loop over the variable bindings: the OID, and the position behind the value.
unfoldable pub decode_varbind : List ℕ → ℕ → ℕ → Outcome (Oid × ℕ)
decode_varbind packet size at = do
  (type, len, at₁) ← decode_snmp_element_type_length packet size at
  require (type == Ber.sequence && not (len == 0))
  (oid, at₂) ← decode_oid_element packet size at₁
  (value_type, value_len, at₃) ← decode_snmp_element_type_length packet size at₂
  require (if value_type == Ber.null then value_len == 0 else not (value_len == 0))
  at₄ ← decode_snmp_element_value_void size at₃ value_len
  ok (oid, at₄)

-- `while (pos < client->size)`: a round adds an OID, so `max_nr_oids` rounds and one more are
-- enough.
unfoldable pub decode_varbinds : ℕ → List ℕ → ℕ → ℕ → List Oid → Outcome (List Oid)
decode_varbinds zero packet size pos oids = hang
decode_varbinds (suc rounds) packet size pos oids =
    if ltb pos size
    then (do
      require (ltb (length oids) max_nr_oids)
      (oid, pos') ← decode_varbind packet size pos
      decode_varbinds rounds packet size pos' (oids ++ oid ∷ []))
    else ok oids

unfoldable pub decode_snmp_request : Client → Outcome Request
decode_snmp_request client = do
  let packet = client.packet
  let size = client.size
  (outer, outer_len, pos₁) ← decode_snmp_element_type_length packet size 0
  require (outer == Ber.sequence && outer_len == bytes_left size pos₁)
  (version, pos₂) ← decode_version packet size pos₁
  (community, pos₃) ← decode_community packet size pos₂
  (type, pdu_len, pos₄) ← decode_snmp_element_type_length packet size pos₃
  require (pdu_len == bytes_left size pos₄)
  (id, pos₅) ← decode_integer_element packet size pos₄
  (non_repeaters, pos₆) ← decode_integer_element packet size pos₅
  (max_repetitions, pos₇) ← decode_integer_element packet size pos₆
  (list_type, list_len, pos₈) ← decode_snmp_element_type_length packet size pos₇
  require (list_type == Ber.sequence && list_len == bytes_left size pos₈)
  oid_list ← decode_varbinds (max_nr_oids + 1) packet size pos₈ []
  ok (record {
    community = community;
    type = type;
    version = version;
    id = id;
    non_repeaters = non_repeaters;
    max_repetitions = max_repetitions;
    oid_list = oid_list;
  })
