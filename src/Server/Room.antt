-- ===== src/Server/Room.antt =====
-- The reply stays in the packet's array: `snmp` keeps the array, and a size within it.
use open_wrt_sdk.Common.{
  ℕ, ◌+◌, ◌-◌, ◌≤◌, ◌≡◌, refl, ◌∙◌, List, [], ◌∷◌, length, length-append, length-set, length-drop,
  arith, ltb, leb, Bool-cases, inl, inr, set, drop, ℤ, ◌==◌, ◌=ℤ◌, bytes_eq,
}
use open_wrt_sdk.Types.{
  max_packet_size, snmp_version_2c, status_no_access, status_gen_err, Value, Request, Response,
  Client,
}
use open_wrt_sdk.Ber
use open_wrt_sdk.Outcome.{
  Outcome, ◌>>=◌, write_at, Whenever, Whenever-bind, Whenever-require, Whenever-any, Whenever-if,
}
use open_wrt_sdk.Encode.{
  place_behind, put, read_bytes, put_varbind, encode_snmp_varbind, encode_varbinds, put_header,
  put_integer, move_to_start, error_values, encode_snmp_response, get_string_length,
  encode_snmp_string, encode_snmp_oid,
}
use open_wrt_sdk.Message.{decode_snmp_request}
use open_wrt_sdk.Agent.{Globals, reply, handle_request, snmp, error_response}

-- A place inside an array of full size.
abbrev Inside : List ℕ × ℕ → Type 0
Inside (packet, at) = (length packet ≡ max_packet_size) × (at ≤ max_packet_size)

-- The array has its full size, and the packet ends inside it.
pub record HasRoom (client : Client) : Type 0 where
  pub full : length client.packet ≡ max_packet_size
  pub inside : client.size ≤ max_packet_size

write_at-length :
    (bytes packet : List ℕ) (i : ℕ)
    → Whenever (λ (p : List ℕ). length p ≡ length packet) (write_at packet i bytes)
unfolding write_at
write_at-length [] packet i = refl
write_at-length (b ∷ bytes) packet i = elim (Bool-cases (ltb i (length packet))) [
  | inl inside ↦
      rw inside (rw (length-set packet i b) at (write_at-length bytes (set packet i b) (i + 1)))
  | inr outside ↦ rw outside tt
]

place_behind-le : (len at : ℕ) → Whenever (λ i. i ≤ at) (place_behind len at)
unfolding place_behind
place_behind-le len at = Whenever-if _ (ltb at len) _ _ (λ _. tt) λ _. omega arith

put-Inside :
    (len : ℕ) (bytes : List ℕ) (at : List ℕ × ℕ) → Inside at → Whenever Inside (put len bytes at)
unfolding put
put-Inside len bytes (packet, at) h = Whenever-require Inside (leb len at) _ λ room.
    Whenever-bind (λ i. i ≤ at) Inside (place_behind len at) _ (place_behind-le len at)
      λ i inside.
        Whenever-bind _ Inside (write_at packet i bytes) _ (write_at-length bytes packet i)
          λ p e. (e ∙ h.0, omega (arith, h.1, inside))

put_header-Inside : (type : ℕ) (at : List ℕ × ℕ) → Inside at → Whenever Inside (put_header type at)
unfolding put_header
put_header-Inside type (packet, at) h = put-Inside _ _ (packet, at) h

put_integer-Inside : (v : ℤ) (at : List ℕ × ℕ) → Inside at → Whenever Inside (put_integer v at)
unfolding put_integer
put_integer-Inside v at h = put-Inside _ _ at h

encode_snmp_varbind-Inside :
    (v : Value) (at : List ℕ × ℕ) → Inside at → Whenever Inside (encode_snmp_varbind v at)
unfolding encode_snmp_varbind put_varbind
encode_snmp_varbind-Inside v at h =
    Whenever-require Inside (leb v.content.encoded_length at.1) _ λ _.
      Whenever-bind _ Inside (read_bytes v.content.buffer v.content.encoded_length) _
        (Whenever-any (read_bytes v.content.buffer v.content.encoded_length))
        λ bytes _.
          Whenever-bind Inside Inside (put v.content.encoded_length bytes at) _
            (put-Inside v.content.encoded_length bytes at h)
            λ at₁ h₁.
              Whenever-bind Inside Inside (put v.oid.encoded_length (encode_snmp_oid v.oid).1 at₁) _
                (put-Inside v.oid.encoded_length (encode_snmp_oid v.oid).1 at₁ h₁)
                λ at₂ h₂. put-Inside _ _ at₂ h₂

encode_varbinds-Inside :
    (vs : List Value) (at : List ℕ × ℕ) → Inside at → Whenever Inside (encode_varbinds vs at)
unfolding encode_varbinds
encode_varbinds-Inside [] at h = h
encode_varbinds-Inside (v ∷ vs) at h =
    Whenever-bind Inside Inside (encode_varbinds vs at) _ (encode_varbinds-Inside vs at h)
      (encode_snmp_varbind-Inside v)

move_to_start-HasRoom : (at : List ℕ × ℕ) → Inside at → HasRoom (move_to_start at)
unfolding move_to_start
move_to_start-HasRoom (packet, at) h = record {
  full = omega (
    arith,
    h.0,
    h.1,
    length-append (drop at packet) (drop (max_packet_size - at) packet),
    length-drop at packet,
    length-drop (max_packet_size - at) packet,
  );
  inside = omega arith;
}

-- What the encoder of responses returns ends inside the array, for every response.
pub encode_snmp_response-HasRoom :
    (request : Request) (response : Response) (client : Client)
    → length client.packet ≡ max_packet_size
    → Whenever HasRoom (encode_snmp_response request response client)
unfolding encode_snmp_response
encode_snmp_response-HasRoom request response client full =
    Whenever-bind _ HasRoom (error_values request response) _
      (Whenever-any (error_values request response))
      λ values _.
        Whenever-bind Inside HasRoom (encode_varbinds values (client.packet, max_packet_size)) _
          (encode_varbinds-Inside values (client.packet, max_packet_size) (full, omega arith))
          λ a₁ h₁.
            Whenever-bind Inside HasRoom (put_header Ber.sequence a₁) _ (put_header-Inside _ a₁ h₁)
              λ a₂ h₂.
                Whenever-bind Inside HasRoom (put_integer response.error_index a₂) _
                  (put_integer-Inside _ a₂ h₂)
                  λ a₃ h₃.
                    Whenever-bind Inside HasRoom (put_integer response.error_status a₃) _
                      (put_integer-Inside _ a₃ h₃)
                      λ a₄ h₄.
                        Whenever-bind Inside HasRoom (put_integer request.id a₄) _
                          (put_integer-Inside _ a₄ h₄)
                          λ a₅ h₅.
                            Whenever-bind Inside HasRoom (put_header Ber.snmp_response a₅) _
                              (put_header-Inside _ a₅ h₅)
                              λ a₆ h₆.
                                Whenever-bind Inside HasRoom
                                  (put (get_string_length request.community)
                                    (encode_snmp_string request.community).1 a₆)
                                  _ (put-Inside _ _ a₆ h₆)
                                  λ a₇ h₇.
                                    Whenever-bind Inside HasRoom (put_integer request.version a₇) _
                                      (put_integer-Inside _ a₇ h₇)
                                      λ a₈ h₈.
                                        Whenever-bind Inside HasRoom (put_header Ber.sequence a₈) _
                                          (put_header-Inside _ a₈ h₈)
                                          λ a₉ h₉. move_to_start-HasRoom a₉ h₉

reply-HasRoom :
    (request : Request) (client : Client) (m : Outcome Response)
    → length client.packet ≡ max_packet_size
    → Whenever HasRoom (m >>= reply request client)
reply-HasRoom request client m full =
    Whenever-bind _ HasRoom m (reply request client) (Whenever-any m)
      λ response _. encode_snmp_response-HasRoom request response client full

handle_request-HasRoom :
    (g : Globals) (request : Request) (client : Client)
    → length client.packet ≡ max_packet_size
    → Whenever HasRoom (handle_request g request client)
unfolding handle_request
handle_request-HasRoom g request client full =
    Whenever-if HasRoom (request.type == Ber.snmp_get) _ _
      (λ _. reply-HasRoom request client _ full)
      λ _.
        Whenever-if HasRoom (request.type == Ber.snmp_getnext) _ _
          (λ _. reply-HasRoom request client _ full)
          λ _.
            Whenever-if HasRoom (request.type == Ber.snmp_set) _ _
              (λ _. reply-HasRoom request client _ full)
              λ _.
                Whenever-if HasRoom (request.type == Ber.snmp_getbulk) _ _
                  (λ _. reply-HasRoom request client _ full)
                  λ _. record { full = full; inside = omega arith }

-- Where the packet's array has its 2048 bytes: whatever the bytes in it, the size the client gives
-- and the MIB, a call of the agent that returns leaves an array of 2048 bytes and a packet that
-- ends inside it.
pub snmp-HasRoom :
    (g : Globals) (client : Client)
    → length client.packet ≡ max_packet_size
    → Whenever HasRoom (snmp g client)
unfolding snmp
snmp-HasRoom g client full =
    Whenever-bind _ HasRoom (decode_snmp_request client) _
      (Whenever-any (decode_snmp_request client))
      λ request _.
        Whenever-if HasRoom (request.version =ℤ snmp_version_2c) _ _
          (λ _.
            Whenever-if HasRoom (bytes_eq g.community request.community) _ _
              (λ _. handle_request-HasRoom g request client full)
              λ _.
                encode_snmp_response-HasRoom request (error_response status_no_access) client full)
          λ _.
            Whenever-if HasRoom g.auth _ _
              (λ _.
                encode_snmp_response-HasRoom request (error_response status_gen_err) client full)
              λ _. handle_request-HasRoom g request client full
