-- ===== src/Format/Element/Hex.antt =====
-- Where the text of an element of another type leaves the buffer.
use open_wrt_sdk.Common.{
  ℕ, zero, suc, ◌+◌, ◌-◌, ◌*◌, ◌/◌, ◌%◌, ◌≤◌, ◌<◌, ◌≡◌, refl, ◌∙◌, List, [], ◌∷◌, ◌++◌, length,
  length-append, length-set, take, set, get_or, arith, Bool, true, false, lt→ltb, le→not-ltb, ◌==◌,
  ◌||◌, not, min,
}
use open_wrt_sdk.Types.{Data, size_mod}
use open_wrt_sdk.Ber
use open_wrt_sdk.Outcome.{ok, fault, byte_at, write_at}
use open_wrt_sdk.Decode.{decode_snmp_element_type_length}
use open_wrt_sdk.Format.Element.{Printf, hex_from, hex_text, element_text, snmp_element_as_string}

write_at-ok :
    (bytes packet : List ℕ) (i : ℕ)
    → i + length bytes ≤ length packet
    → (p : List ℕ) × (write_at packet i bytes ≡ ok p) × (length p ≡ length packet)
unfolding write_at
write_at-ok [] packet i h = (packet, refl, refl)
write_at-ok (b ∷ bytes) packet i h =
    let same = length-set packet i b in
    let (p, run, e) = write_at-ok bytes (set packet i b) (i + 1) (omega (arith, same)) in
    (p, rw (lt→ltb i (length packet) (omega arith)) run, e ∙ same)

byte_at-ok : (bytes : List ℕ) (i : ℕ) → i < length bytes → byte_at bytes i ≡ ok (get_or bytes i 0)
unfolding byte_at
byte_at-ok bytes i h = rw (lt→ltb i (length bytes) h) refl

length-take_short : (n : ℕ) (xs : List ℕ) → length (take n xs) ≤ n
length-take_short zero xs = omega arith
length-take_short (suc n) [] = omega arith
length-take_short (suc n) (x ∷ xs) = omega (arith, length-take_short n xs)

-- The loop stays inside the buffer.
hex_from-ok :
    (hex : ℕ → List ℕ) (bytes : List ℕ) (pos rounds i : ℕ) (buffer : List ℕ)
    → pos + (i + rounds) ≤ length bytes
    → 3 * (i + rounds) < length buffer
    → (b : List ℕ) × (hex_from hex bytes pos rounds i buffer ≡ ok b) × (length b ≡ length buffer)
unfolding hex_from
hex_from-ok hex bytes pos zero i buffer h k = (buffer, refl, refl)
hex_from-ok hex bytes pos (suc rounds) i buffer h k =
    let item = take 3 (hex (get_or bytes (pos + i) 0) ++ 0x20 ∷ []) ++ 0 ∷ [] in
    let small = length-take_short 3 (hex (get_or bytes (pos + i) 0) ++ 0x20 ∷ []) in
    let size = length-append (take 3 (hex (get_or bytes (pos + i) 0) ++ 0x20 ∷ [])) (0 ∷ []) in
    let (b, run, e) = write_at-ok item buffer (3 * i) (omega (arith, small, size)) in
    let (b', run', e') =
      hex_from-ok hex bytes pos rounds (i + 1) b (omega arith) (omega (arith, e)) in
    (b', rw (byte_at-ok bytes (pos + i) (omega arith)) (rw run run'), e' ∙ e)

write_at-fault :
    (packet : List ℕ) (i b : ℕ) → length packet ≤ i → write_at packet i (b ∷ []) ≡ fault
unfolding write_at
write_at-fault packet i b h = rw (le→not-ltb i (length packet) h) refl

-- A type that is printed byte by byte.
abbrev pub is_other : ℕ → Bool
is_other type = not (
    type == Ber.integer
    || (type == Ber.octet_string
        || (type == Ber.oid
            || (type == Ber.counter
                || (type == Ber.gauge
                    || (type == Ber.time_ticks
                        || (type == Ber.no_such_object
                            || (type == Ber.no_such_instance || type == Ber.end_of_mib_view))))))))

hex_text-fault :
    (hex : ℕ → List ℕ) (bytes : List ℕ) (pos len : ℕ) (buffer : List ℕ)
    → pos + len ≤ length bytes
    → 0 < length buffer
    → length buffer < size_mod
    → length buffer < 3 * len
    → hex_text hex bytes pos len buffer ≡ fault
unfolding hex_text
hex_text-fault hex bytes pos len buffer inside some_room small long =
    let rounds = min len ((length buffer + size_mod - 1) % size_mod / 3) in
    let (b, run, e) = hex_from-ok hex bytes pos rounds 0 buffer (omega arith) (omega arith) in
    let some_bytes : (len == 0) ≡ false = ground arith in
    rw run (rw some_bytes (write_at-fault b (3 * len - 1) 0 (omega (arith, e))))

element_text-other :
    (printf : Printf) (d : Data) (type len pos : ℕ) (buffer : List ℕ)
    → is_other type ≡ true
    → element_text printf d (type, len, pos) buffer ≡ hex_text printf.hex d.buffer pos len buffer
unfolding element_text
element_text-other printf d type len pos buffer h = ground arith

-- For an element of a type without a text of its own, whose bytes are all there: where the bytes take
-- more than a third of the buffer, `snmp_element_as_string` writes behind the buffer.
pub snmp_element_as_string_overrun :
    (printf : Printf) (d : Data) (type len pos : ℕ) (buffer : List ℕ)
    → decode_snmp_element_type_length d.buffer d.encoded_length 0 ≡ ok (type, len, pos)
    → is_other type ≡ true
    → pos + len ≤ length d.buffer
    → 0 < length buffer
    → length buffer < size_mod
    → length buffer < 3 * len
    → snmp_element_as_string printf d buffer ≡ fault
unfolding snmp_element_as_string
snmp_element_as_string_overrun printf d type len pos buffer decoded other inside some_room small
      long =
    rw decoded (
      element_text-other printf d type len pos buffer other
      ∙ hex_text-fault printf.hex d.buffer pos len buffer inside some_room small long)
