-- ===== src/Encode/Reply.antt =====
-- `encode_snmp_response` against the nested form of the message that it writes backwards.
use open_wrt_sdk.Common.{
  ℕ, ◌-◌, ◌≤◌, ◌<◌, ◌≡◌, refl, sym, ◌∙◌, List, [], ◌∷◌, ◌++◌, length, length-append, drop, take,
  arith, ℤ, drop-append, take-append, length-drop,
}
use open_wrt_sdk.Types.{max_packet_size, Value, Request, Response, Client}
use open_wrt_sdk.Ber
use open_wrt_sdk.Outcome.{Answers}
use open_wrt_sdk.Encode.{
  put, put_header, put_integer, move_to_start, encode_snmp_sequence_header, encode_snmp_integer,
  encode_snmp_string, encode_snmp_oid, get_sequence_header_length, get_integer_length,
  get_string_length, length_field,
}
use open_wrt_sdk.Encode.Headers.{length-length_field, encode_header}
use open_wrt_sdk.Encode.Integers.{length-encode_snmp_integer}
use open_wrt_sdk.Encode.Write.{Written, put-Answers}

-- An element: the header, then what it encloses.
abbrev pub element : ℕ → List ℕ → List ℕ
element type body = (encode_snmp_sequence_header (length body) type).1 ++ body

abbrev pub varbind_bytes : Value → List ℕ
varbind_bytes v =
    element Ber.sequence
      ((encode_snmp_oid v.oid).1 ++ take v.content.encoded_length v.content.buffer)

abbrev pub varbinds_bytes : List Value → List ℕ
varbinds_bytes [] = []
varbinds_bytes (v ∷ vs) = varbind_bytes v ++ varbinds_bytes vs

-- The message as a term: version, community, and the response with its list of bindings.
abbrev pub pdu_bytes : Request → Response → List Value → List ℕ
pdu_bytes request response values =
    (encode_snmp_integer request.id).1
    ++ ((encode_snmp_integer response.error_status).1
        ++ ((encode_snmp_integer response.error_index).1
            ++ element Ber.sequence (varbinds_bytes values)))

abbrev pub message_bytes : Request → Response → List Value → List ℕ
message_bytes request response values = element Ber.sequence (
    (encode_snmp_integer request.version).1
    ++ ((encode_snmp_string request.community).1
        ++ element Ber.snmp_response (pdu_bytes request response values)))

-- A value whose lengths are those of its bytes.
pub record IsEncoded (v : Value) : Type 0 where
  pub oid : v.oid.encoded_length ≡ length (encode_snmp_oid v.oid).1
  pub content : v.content.encoded_length ≤ length v.content.buffer

pub length-header :
    (len type : ℕ)
    → len ≤ 0xffff
    → length (encode_snmp_sequence_header len type).1 ≡ get_sequence_header_length len
length-header len type h = rw (encode_header len type h) (omega (arith, length-length_field len h))

pub put_header-Answers :
    (type : ℕ) (body : List ℕ) (at : List ℕ × ℕ)
    → Written body at
    → Answers
        (Written (element type body))
        (max_packet_size < length (element type body))
        (put_header type at)
unfolding put_header
put_header-Answers type body (packet, at) w =
    let e : max_packet_size - at ≡ length body = omega (arith, w.2, w.3) in
    rw e (
      put-Answers (get_sequence_header_length (length body))
        (encode_snmp_sequence_header (length body) type).1 body (packet, at)
        (length-header (length body) type (omega (arith, w.3))) w)

pub put_integer-Answers :
    (v : ℤ) (body : List ℕ) (at : List ℕ × ℕ)
    → Written body at
    → Answers
        (Written ((encode_snmp_integer v).1 ++ body))
        (max_packet_size < length ((encode_snmp_integer v).1 ++ body))
        (put_integer v at)
unfolding put_integer
put_integer-Answers v body at w =
    put-Answers (get_integer_length v) (encode_snmp_integer v).1 body at
      (length-encode_snmp_integer v) w

length-encode_snmp_string :
    (text : List ℕ)
    → length text ≤ 0xffff
    → length (encode_snmp_string text).1 ≡ get_string_length text
unfolding encode_snmp_string get_string_length length_field
length-encode_snmp_string text h = ground (arith, length-append (length_field (length text)) text)

pub put_string-Answers :
    (text body : List ℕ) (at : List ℕ × ℕ)
    → length text ≤ 0xffff
    → Written body at
    → Answers
        (Written ((encode_snmp_string text).1 ++ body))
        (max_packet_size < length ((encode_snmp_string text).1 ++ body))
        (put (get_string_length text) (encode_snmp_string text).1 at)
put_string-Answers text body at h w =
    put-Answers (get_string_length text) (encode_snmp_string text).1 body at
      (length-encode_snmp_string text h) w

-- What the client holds at the end: the message in front, in a buffer of full size.
abbrev pub Carries : List ℕ → Client → Type 0
Carries message client =
    (take client.size client.packet ≡ message)
    × (client.size ≡ length message)
    × (length client.packet ≡ max_packet_size)

pub move_to_start-Carries :
    (body : List ℕ) (at : List ℕ × ℕ) → Written body at → Carries body (move_to_start at)
unfolding move_to_start
move_to_start-Carries body (packet, at) w =
    let size : max_packet_size - at ≡ length body = omega (arith, w.2, w.3) in
    let here : drop at packet ≡ body = rw w.1 (drop-append w.0 body at (sym w.2)) in
    let full : length packet ≡ max_packet_size = rw w.1 (length-append w.0 body ∙ w.3) in
    (
      rw (here, size) (take-append body _ (length body) refl),
      size,
      omega (
        arith,
        full,
        length-append (drop at packet) (drop (max_packet_size - at) packet),
        length-drop at packet,
        length-drop (max_packet_size - at) packet,
        w.2,
        w.3,
      ),
    )

pub length-le-append : (xs ys : List ℕ) → length ys ≤ length (xs ++ ys)
length-le-append xs ys = omega (arith, length-append xs ys)
