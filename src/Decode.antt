-- ===== src/Decode.antt =====
-- The decoding helpers of src/protocol.c. `packet` is the whole array that the C pointer refers
-- to, `size` is how much of it is used; a function returns the new `*pos` beside its results.
pub mod Header
pub mod Values
pub mod Oids
use open_wrt_sdk.Common.{
  ℕ, zero, suc, ◌+◌, ◌-◌, ◌*◌, ◌/◌, ◌%◌, ◌^◌, bit_and, bit_or, Bool, false, ◌||◌, not, List, [],
  ◌∷◌, ◌++◌, length, ltb, ◌==◌, if◌then◌else◌, ℤ, to_int, take,
}
use open_wrt_sdk.Types.{size_mod, max_nr_subids, Oid}
use open_wrt_sdk.Ber
use open_wrt_sdk.Outcome.{Outcome, ok, fail, hang, ◌>>=◌, ◌>>◌, require, byte_at}

-- The types that the `switch` accepts.
abbrev pub element_types : List ℕ
element_types =
    Ber.boolean ∷ Ber.integer ∷ Ber.bit_string ∷ Ber.octet_string ∷ Ber.null ∷ Ber.oid
    ∷ Ber.sequence ∷ Ber.counter ∷ Ber.gauge ∷ Ber.time_ticks ∷ Ber.no_such_object
    ∷ Ber.no_such_instance ∷ Ber.end_of_mib_view ∷ Ber.snmp_get ∷ Ber.snmp_getnext
    ∷ Ber.snmp_response ∷ Ber.snmp_set ∷ Ber.snmp_getbulk ∷ Ber.snmp_inform ∷ Ber.snmp_trap ∷ []

unfoldable pub is_one_of : List ℕ → ℕ → Bool
is_one_of [] t = false
is_one_of (x ∷ xs) t = t == x || is_one_of xs t

unfoldable pub is_element_type : ℕ → Bool
unfolding is_one_of
is_element_type t = is_one_of element_types t

-- `while (length_of_length--)`: the bytes of a long length.
unfoldable pub decode_length_bytes : List ℕ → ℕ → ℕ → ℕ → ℕ → Outcome (ℕ × ℕ)
decode_length_bytes packet size zero pos acc = ok (acc, pos)
decode_length_bytes packet size (suc n) pos acc = do
  require (ltb pos size)
  b ← byte_at packet pos
  decode_length_bytes packet size n (pos + 1) (acc * 2 ^ 8 + b)

-- The second half of the next function: the element length.
unfoldable pub decode_length : List ℕ → ℕ → ℕ → Outcome (ℕ × ℕ)
decode_length packet size pos = do
  require (ltb pos size)
  b ← byte_at packet pos
  if bit_and b 0x80 == 0 then ok (b, pos + 1) else (do
    let length_of_length = bit_and b 0x7f
    require (not (ltb 2 length_of_length))
    decode_length_bytes packet size length_of_length (pos + 1) 0)

-- The type, the length and the new position.
unfoldable pub decode_snmp_element_type_length : List ℕ → ℕ → ℕ → Outcome (ℕ × ℕ × ℕ)
decode_snmp_element_type_length packet size pos = do
  require (ltb pos size)
  type ← byte_at packet pos
  require (is_element_type type)
  (len, pos') ← decode_length packet size (pos + 1)
  ok (type, len, pos')

-- `*pos < (size - length + 1)` in `size_t`: the difference wraps round.
unfoldable pub has_room : ℕ → ℕ → ℕ → Bool
has_room size pos len = ltb pos ((size + size_mod - len + 1) % size_mod)

-- `while (length--) { tmp_value = (tmp_value << 8) | packet[*pos]; … }` in `unsigned int`.
unfoldable pub decode_bytes : List ℕ → ℕ → ℕ → ℕ → Outcome (ℕ × ℕ)
decode_bytes packet zero pos acc = ok (acc, pos)
decode_bytes packet (suc len) pos acc = do
  b ← byte_at packet pos
  decode_bytes packet len (pos + 1) (bit_or (acc * 2 ^ 8 % 2 ^ 32) b)

unfoldable pub decode_snmp_element_value_integer : List ℕ → ℕ → ℕ → ℕ → Outcome (ℤ × ℕ)
decode_snmp_element_value_integer packet size pos len = do
  require (has_room size pos len)
  b ← byte_at packet pos
  (value, pos') ← decode_bytes packet len pos (if bit_and b 0x80 == 0 then 0 else 0xffff_ffff)
  ok (to_int value, pos')

unfoldable pub decode_snmp_element_value_unsigned : List ℕ → ℕ → ℕ → ℕ → Outcome (ℕ × ℕ)
decode_snmp_element_value_unsigned packet size pos len = do
  require (has_room size pos len)
  decode_bytes packet len pos 0

-- What `%.*s` reads: up to `length` bytes, and none after a NUL.
unfoldable pub read_string : List ℕ → ℕ → ℕ → Outcome (List ℕ)
read_string packet zero pos = ok []
read_string packet (suc len) pos = do
  b ← byte_at packet pos
  if b == 0 then ok [] else (do rest ← read_string packet len (pos + 1); ok (b ∷ rest))

-- `snprintf` cuts the text to the `value_size` bytes that there are, a NUL included.
unfoldable pub decode_snmp_element_value_string : List ℕ → ℕ → ℕ → ℕ → ℕ → Outcome (List ℕ × ℕ)
decode_snmp_element_value_string packet size pos len value_size = do
  require (has_room size pos len)
  text ← read_string packet len pos
  ok (take (value_size - 1) text, pos + len)

-- The inner loop of the next functions: one subid, the bytes left and the new position.
unfoldable pub decode_subid : List ℕ → ℕ → ℕ → ℕ → Outcome (ℕ × ℕ × ℕ)
decode_subid packet zero pos subid = ok (subid, zero, pos)
decode_subid packet (suc len) pos subid = do
  b ← byte_at packet pos
  let subid' = (subid * 2 ^ 7 % 2 ^ 32 + bit_and b 0x7f) % 2 ^ 32
  if bit_and b 0x80 == 0
      then ok (subid', len, pos + 1)
      else (do require (not (len == 0)); decode_subid packet len (pos + 1) subid')

-- `while (length)`: a round adds a subid, so `max_nr_subids` rounds and one more are enough.
unfoldable pub decode_subids : ℕ → List ℕ → ℕ → ℕ → List ℕ → Outcome (List ℕ × ℕ)
decode_subids rounds packet zero pos subids = ok (subids, pos)
decode_subids zero packet (suc len) pos subids = hang
decode_subids (suc rounds) packet (suc len) pos subids = do
  require (ltb (length subids) max_nr_subids)
  (subid, len', pos') ← decode_subid packet (suc len) pos 0
  decode_subids rounds packet len' pos' (subids ++ subid ∷ [])

-- How many bytes the header of an element of `length` bytes takes.
unfoldable pub oid_encoded_length : ℕ → Outcome ℕ
oid_encoded_length len =
    if ltb 0xffff len
    then fail
    else if ltb 0xff len
    then ok (len + 4)
    else if ltb 0x7f len
    then ok (len + 3)
    else ok (len + 2)

-- The last branch reads the first byte; `length` is not 0 there.
unfoldable pub decode_snmp_element_value_oid : List ℕ → ℕ → ℕ → ℕ → Outcome (Oid × ℕ)
decode_snmp_element_value_oid packet size pos len = do
  require (has_room size pos len)
  encoded_length ← oid_encoded_length len
  require (not (len == 0))
  b ← byte_at packet pos
  require (bit_and b 0x80 == 0)
  (subids, pos') ←
      decode_subids (max_nr_subids + 1) packet (len - 1) (pos + 1) (b / 40 ∷ b % 40 ∷ [])
  ok (record { subid_list = subids; encoded_length = encoded_length }, pos')

unfoldable pub decode_snmp_element_value_void : ℕ → ℕ → ℕ → Outcome ℕ
decode_snmp_element_value_void size pos len = do require (has_room size pos len); ok (pos + len)
