-- ===== src/Encode.antt =====
-- The encoding helpers of src/protocol.c. An encoder returns whether it ends with `return 0`, and
-- the bytes that it writes from `buffer` on.
pub mod Headers
pub mod Digits
pub mod Subids
pub mod Integers
pub mod Oids
pub mod Reply
pub mod Varbinds
pub mod Whole
pub mod Write
use open_wrt_sdk.Common.{
  ℕ, zero, suc, ◌+◌, ◌-◌, ◌*◌, ◌/◌, ◌%◌, ◌^◌, bit_and, bit_or, Bool, true, false, ◌||◌, not, List,
  [], ◌∷◌, ◌++◌, length, ltb, leb, if◌then◌else◌, ℤ, ◌=ℤ◌, ◌<ℤ◌, to_unsigned, take, drop, map,
  get_or,
}
use open_wrt_sdk.Types.{
  max_packet_size, max_nr_values, status_ok, Oid, Data, Value, Request, Response, Client,
}
use open_wrt_sdk.Ber
use open_wrt_sdk.Outcome.{Outcome, ok, fail, fault, ◌>>=◌, ◌>>◌, require, write_at}

unfoldable pub get_integer_length : ℤ → ℕ
get_integer_length v =
    if v <ℤ ℤ.negsuc 8388607 || ℤ.pos 8388607 <ℤ v
    then 6
    else if v <ℤ ℤ.negsuc 32767 || ℤ.pos 32767 <ℤ v
    then 5
    else if v <ℤ ℤ.negsuc 127 || ℤ.pos 127 <ℤ v
    then 4
    else 3

-- The text has no NUL, so `strlen` is its length.
unfoldable pub get_string_length : List ℕ → ℕ
get_string_length text =
    if ltb 0xffff (length text)
    then max_packet_size
    else if ltb 0xff (length text)
    then length text + 4
    else if ltb 0x7f (length text)
    then length text + 3
    else length text + 2

unfoldable pub get_sequence_header_length : ℕ → ℕ
get_sequence_header_length len =
    if ltb 0xffff len
    then max_packet_size
    else if ltb 0xff len
    then 4
    else if ltb 0x7f len
    then 3
    else 2

-- How many bytes the value of an integer takes.
unfoldable pub integer_length : ℤ → ℕ
integer_length v =
    if v <ℤ ℤ.negsuc 8388607 || ℤ.pos 8388607 <ℤ v
    then 4
    else if v <ℤ ℤ.negsuc 32767 || ℤ.pos 32767 <ℤ v
    then 3
    else if v <ℤ ℤ.negsuc 127 || ℤ.pos 127 <ℤ v
    then 2
    else 1

-- `while (length--) *buffer++ = (value >> (8 * length)) & 0xFF;`
unfoldable pub integer_bytes : ℕ → ℕ → List ℕ
integer_bytes zero u = []
integer_bytes (suc n) u = bit_and (u / 2 ^ (8 * n)) 0xff ∷ integer_bytes n u

unfoldable pub encode_snmp_integer : ℤ → Bool × List ℕ
encode_snmp_integer v =
    (true, Ber.integer ∷ integer_length v ∷ integer_bytes (integer_length v) (to_unsigned v))

-- The length field that the next three encoders write.
unfoldable pub length_field : ℕ → List ℕ
length_field len =
    if ltb 0xff len
    then 0x82 ∷ bit_and (len / 2 ^ 8) 0xff ∷ bit_and len 0xff ∷ []
    else if ltb 0x7f len
    then 0x81 ∷ bit_and len 0xff ∷ []
    else bit_and len 0x7f ∷ []

unfoldable pub encode_snmp_string : List ℕ → Bool × List ℕ
encode_snmp_string text =
    if ltb 0xffff (length text)
    then (false, [])
    else (true, Ber.octet_string ∷ length_field (length text) ++ text)

unfoldable pub encode_snmp_sequence_header : ℕ → ℕ → Bool × List ℕ
encode_snmp_sequence_header len type =
    if ltb 0xffff len then (false, []) else (true, type ∷ length_field len)

-- How many bytes a subid takes.
unfoldable pub subid_length : ℕ → ℕ
subid_length s =
    if leb (2 ^ 28) s
    then 5
    else if leb (2 ^ 21) s
    then 4
    else if leb (2 ^ 14) s
    then 3
    else if leb (2 ^ 7) s
    then 2
    else 1

-- `while (length--)`: seven bits a byte, and the top bit on every byte but the last.
unfoldable pub subid_group : ℕ → ℕ → ℕ
subid_group zero s = bit_and s 0x7f
subid_group (suc n) s = bit_or (bit_and (s / 2 ^ (7 * suc n)) 0x7f) 0x80

unfoldable pub subid_bytes : ℕ → ℕ → List ℕ
subid_bytes zero s = []
subid_bytes (suc n) s = subid_group n s ∷ subid_bytes n s

-- The loops over the subids from the third on: their length, and their bytes.
unfoldable pub subids_length : List ℕ → ℕ
subids_length [] = 0
subids_length (s ∷ ss) = subid_length s + subids_length ss

unfoldable pub subids_bytes : List ℕ → List ℕ
subids_bytes [] = []
subids_bytes (s ∷ ss) = subid_bytes (subid_length s) s ++ subids_bytes ss

unfoldable pub encode_snmp_oid : Oid → Bool × List ℕ
encode_snmp_oid oid =
    let subids = oid.subid_list in
    let len = 1 + subids_length (drop 2 subids) in
    if ltb 0xffff len then (false, Ber.oid ∷ []) else (
      true,
      Ber.oid ∷ length_field len
          ++ (get_or subids 0 0 * 40 + get_or subids 1 0) % 256 ∷ subids_bytes (drop 2 subids),
    )

-- `pos - length`, which is a place of the array where it is not negative.
unfoldable pub place_behind : ℕ → ℕ → Outcome ℕ
place_behind len pos = if ltb pos len then fault else ok (pos - len)

-- `if (pos >= length) { encode(&packet[pos - length], …); pos = pos - length; } else return -1;`
-- The place is never in front of the array: without the test, a write there is a fault.
unfoldable pub put : ℕ → List ℕ → List ℕ × ℕ → Outcome (List ℕ × ℕ)
put len bytes (packet, pos) = do
  require (leb len pos)
  at ← place_behind len pos
  packet' ← write_at packet at bytes
  ok (packet', at)

-- What `memcpy` reads: `n` bytes, all inside the array.
unfoldable pub read_bytes : List ℕ → ℕ → Outcome (List ℕ)
read_bytes buffer n = if leb n (length buffer) then ok (take n buffer) else fault

-- The value's bytes, the OID and the header, each in front of the one before.
unfoldable pub put_varbind : Value → List ℕ → List ℕ × ℕ → Outcome (List ℕ × ℕ)
put_varbind value bytes at₀ = do
  let data_len = value.content.encoded_length
  let oid_len = value.oid.encoded_length
  at₁ ← put data_len bytes at₀
  at₂ ← put oid_len (encode_snmp_oid value.oid).1 at₁
  put (get_sequence_header_length (oid_len + data_len))
      (encode_snmp_sequence_header (oid_len + data_len) Ber.sequence).1 at₂

-- `memcpy` reads the value only where there is room for it.
unfoldable pub encode_snmp_varbind : Value → List ℕ × ℕ → Outcome (List ℕ × ℕ)
encode_snmp_varbind value at₀ = do
  require (leb value.content.encoded_length at₀.1)
  bytes ← read_bytes value.content.buffer value.content.encoded_length
  put_varbind value bytes at₀

-- `for (i = value_list_length - 1; i >= 0; i--)`: the last value first.
unfoldable pub encode_varbinds : List Value → List ℕ × ℕ → Outcome (List ℕ × ℕ)
encode_varbinds [] at = ok at
encode_varbinds (v ∷ vs) at = do at' ← encode_varbinds vs at; encode_snmp_varbind v at'

abbrev pub m_null : Data
m_null = record { buffer = 0x05 ∷ 0x00 ∷ []; max_length = 2; encoded_length = 2 }

-- An error response carries the OIDs of the request, each with a NULL value.
unfoldable pub error_values : Request → Response → Outcome (List Value)
error_values request response =
    if not (response.error_status =ℤ status_ok)
    then (if ltb max_nr_values (length request.oid_list)
        then fail
        else ok (map (λ oid. record { oid = oid; content = m_null }) request.oid_list))
    else ok response.value_list

-- A sequence header over all that stands from `pos` on.
unfoldable pub put_header : ℕ → List ℕ × ℕ → Outcome (List ℕ × ℕ)
put_header type (packet, pos) =
    put (get_sequence_header_length (max_packet_size - pos))
      (encode_snmp_sequence_header (max_packet_size - pos) type).1 (packet, pos)

unfoldable pub put_integer : ℤ → List ℕ × ℕ → Outcome (List ℕ × ℕ)
put_integer v at = put (get_integer_length v) (encode_snmp_integer v).1 at

-- The packet moves to the start of the buffer: `memmove`, and the new size.
unfoldable pub move_to_start : List ℕ × ℕ → Client
move_to_start (packet, at) = record {
  packet = drop at packet ++ drop (max_packet_size - at) packet;
  size = max_packet_size - at;
}

-- The packet is written backwards from the end of the buffer, and then moved to its start.
unfoldable pub encode_snmp_response : Request → Response → Client → Outcome Client
encode_snmp_response request response client = do
  values ← error_values request response
  at₁ ← encode_varbinds values (client.packet, max_packet_size)
  at₂ ← put_header Ber.sequence at₁
  at₃ ← put_integer response.error_index at₂
  at₄ ← put_integer response.error_status at₃
  at₅ ← put_integer request.id at₄
  at₆ ← put_header Ber.snmp_response at₅
  at₇ ← put (get_string_length request.community) (encode_snmp_string request.community).1 at₆
  at₈ ← put_integer request.version at₇
  at₉ ← put_header Ber.sequence at₈
  ok (move_to_start at₉)
