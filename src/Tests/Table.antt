-- ===== src/Tests/Table.antt =====
-- A GET of a cell of the table.
use open_wrt_sdk.Common.{
  ℕ, ◌≡◌, refl, bytes_eq, List, [], ◌∷◌, ◌++◌, true, false, arith, zeros, zeros-IsByte, ℤ, Option,
}
use open_wrt_sdk.Types.{max_packet_size, snmp_version_2c, Value}
use open_wrt_sdk.Ber
use open_wrt_sdk.Decode.{
  is_one_of, is_element_type, decode_length_bytes, decode_length, decode_snmp_element_type_length,
  has_room, decode_bytes, decode_snmp_element_value_integer, read_string,
  decode_snmp_element_value_string, decode_subid, decode_subids, oid_encoded_length,
  decode_snmp_element_value_oid, decode_snmp_element_value_void,
}
use open_wrt_sdk.Outcome.{byte_at, ok}
use open_wrt_sdk.Message.{
  decode_snmp_request, decode_integer_element, decode_version, decode_community, decode_oid_element,
  decode_varbind, decode_varbinds,
}
use open_wrt_sdk.Encode.Reply.{message_bytes}
use open_wrt_sdk.Handle.Replies.{extended}
use open_wrt_sdk.Mib.Build.{demo_words, sdk_words}
use open_wrt_sdk.Mib.Build.Table.{mib_update_lem}
use open_wrt_sdk.Agent.{Globals, empty_response}
use open_wrt_sdk.Agent.Table.{Asks, AreReadings}
use open_wrt_sdk.Server.{Connection, Arrival, bytes, overwrite, receive, handle_udp_client}
use open_wrt_sdk.Server.Datagram.{Sends, handle_udp_client-AreReadings}
use open_wrt_sdk.Tests.Server.{started, empty_full}
use open_wrt_sdk.Tests.Samples.{community, request}
use open_wrt_sdk.Tests.Mib.{
  temp_cell, temp_oid, built, built-HasCells, demo, sdk, demo_sdk-IsReadings,
}

-- The bytes of the request for the cell of `sdk_temp`.
abbrev temp_bytes : List ℕ
temp_bytes =
    0x30 ∷ 0x27 ∷ 0x02 ∷ 0x01 ∷ 0x01 ∷ 0x04 ∷ 0x06 ∷ community
    ++ (0xa0 ∷ 0x1a ∷ 0x02 ∷ 0x01 ∷ 0x2a ∷ 0x02 ∷ 0x01 ∷ 0x00 ∷ 0x02 ∷ 0x01 ∷ 0x00 ∷ 0x30 ∷ 0x0f
        ∷ 0x30 ∷ 0x0d ∷ 0x06 ∷ 0x09 ∷ 0x2b ∷ 0x06 ∷ 0x01 ∷ 0x04 ∷ 0x01 ∷ 0x7e ∷ 0x03 ∷ 0x02 ∷ 0x00
        ∷ 0x05 ∷ 0x00 ∷ [])

-- The packet arrives at the client of the start.
abbrev arrival : Arrival
arrival = record { now = 300; sockfd = ℤ.pos 3; addr = 2; port = 6000; received = bytes temp_bytes }

temp_decoded :
    decode_snmp_request (receive arrival.received started.udp.client)
    ≡ ok (request Ber.snmp_get snmp_version_2c (temp_oid ∷ []))
unfolding receive overwrite decode_snmp_request zeros is_one_of is_element_type decode_length_bytes
    decode_length decode_snmp_element_type_length has_room decode_bytes
    decode_snmp_element_value_integer read_string decode_snmp_element_value_string decode_subid
    decode_subids oid_encoded_length decode_snmp_element_value_oid decode_snmp_element_value_void
    decode_integer_element decode_version decode_community decode_oid_element decode_varbind
    decode_varbinds byte_at
temp_decoded = refl

abbrev words : List ℕ
words = demo_words demo ++ sdk_words sdk

-- The agent after the first update.
abbrev updated : Globals
updated = record {
  community = community;
  auth = false;
  mib = (mib_update_lem demo sdk built built-HasCells demo_sdk-IsReadings).0;
}

temp-Asks : Asks words temp_oid
unfolding zeros
temp-Asks = record {
  index = 22;
  cell = temp_cell;
  word = 25;
  at_cell = refl;
  at_word = refl;
  subids = refl;
}

allowed : bytes_eq community community ≡ true
unfolding bytes_eq
allowed = refl

handle_udp_client-AreReadings_example :
    (values : List Value) × AreReadings words (temp_oid ∷ []) (temp-Asks, tt) values
    × (r : Connection × Option (List ℕ)) × (handle_udp_client updated arrival started.udp ≡ ok r)
    × Sends
        (message_bytes
          (request Ber.snmp_get snmp_version_2c (temp_oid ∷ []))
          (extended empty_response values)
          values)
        r
handle_udp_client-AreReadings_example =
    handle_udp_client-AreReadings updated arrival started.udp temp_bytes
      (request Ber.snmp_get snmp_version_2c (temp_oid ∷ [])) words refl (omega arith)
      (zeros-IsByte max_packet_size) empty_full (ground arith) temp_decoded refl allowed refl
      (mib_update_lem demo sdk built built-HasCells demo_sdk-IsReadings).2 (temp-Asks, tt)
