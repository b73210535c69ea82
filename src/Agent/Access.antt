-- ===== src/Agent/Access.antt =====
-- Which requests `snmp` answers from the MIB, and what it answers.
use open_wrt_sdk.Common.{
  ◌≤◌, ◌<◌, ◌≡◌, refl, inl, inr, ◌⊎◌, List, bytes_eq, true, false, ◌=ℤ◌, All, IsByte, length, arith,
  ◌==◌,
}
use open_wrt_sdk.Types.{max_packet_size, snmp_version_1, snmp_version_2c, Value, Request, Client}
use open_wrt_sdk.Ber
use open_wrt_sdk.Outcome.{ok, ◌>>=◌, Answers}
use open_wrt_sdk.Message.{decode_snmp_request}
use open_wrt_sdk.Message.Ends.{IsRequest, decode_snmp_request_ends}
use open_wrt_sdk.Encode.{error_values}
use open_wrt_sdk.Encode.Reply.{message_bytes, IsEncoded, Carries}
use open_wrt_sdk.Encode.Whole.{encode_snmp_response-Answers}
use open_wrt_sdk.Handle.{get_answer, handle_snmp_get, handle_snmp_getnext}
use open_wrt_sdk.Handle.Replies.{
  values_of, next_answer, handle_snmp_get_v2c, handle_snmp_getnext_v2c, extended,
}
use open_wrt_sdk.Agent.{Globals, snmp, handle_request, reply, empty_response}

-- The request may not see the MIB: the wrong community in version 2c, and in version 1 an agent
-- that asks for authentication.
abbrev pub IsRefused : Globals → Request → Type 0
IsRefused g request =
    ((request.version ≡ snmp_version_2c) × (bytes_eq g.community request.community ≡ false))
    ⊎ ((request.version ≡ snmp_version_1) × (g.auth ≡ true))

-- A refused request (in version 2c with the wrong community, in version 1 to an agent that asks
-- for authentication) learns nothing of the MIB: two agents with the same community and the same
-- setting of authentication answer it alike, whatever their MIBs hold.
pub snmp_refused :
    (g g' : Globals) (client : Client) (request : Request)
    → g'.community ≡ g.community
    → g'.auth ≡ g.auth
    → decode_snmp_request client ≡ ok request
    → IsRefused g request
    → snmp g client ≡ snmp g' client
unfolding snmp
snmp_refused g g' client request c a e (inl (v, wrong)) = rw (e, v, c, wrong) refl
snmp_refused g g' client request c a e (inr (v, auth)) = rw (e, v, a, auth) refl

-- A request that is decoded is well formed.
decoded-IsRequest :
    (client : Client) (request : Request)
    → client.size ≤ length client.packet
    → All IsByte client.packet
    → decode_snmp_request client ≡ ok request
    → IsRequest request
decoded-IsRequest client request inside bytes e =
    rw e at (decode_snmp_request_ends client inside bytes)

error_values_ok :
    (request : Request) (values : List Value)
    → error_values request (extended empty_response values) ≡ ok values
unfolding error_values
error_values_ok request values = refl

module _ (g : Globals) (client : Client) (request : Request)
    (inside : client.size ≤ length client.packet) (bytes : All IsByte client.packet)
    (full : length client.packet ≡ max_packet_size)
    (decoded : decode_snmp_request client ≡ ok request)
    (version : request.version ≡ snmp_version_2c)
    (allowed : bytes_eq g.community request.community ≡ true) where
  -- What is left of `snmp` once the response is known.
  replied :
      (values : List Value)
      → All IsEncoded values
      → Answers
          (Carries (message_bytes request (extended empty_response values) values))
          (max_packet_size < length (message_bytes request (extended empty_response values) values))
          (reply request client (extended empty_response values))
  replied values h =
      let r = decoded-IsRequest client request inside bytes decoded in
      encode_snmp_response-Answers request (extended empty_response values) client values
        (error_values_ok request values) h (omega (arith, r.community.1)) full

  handled : snmp g client ≡ handle_request g request client
  unfolding snmp
  handled =
      let is_2c : (request.version =ℤ snmp_version_2c) ≡ true = rw version refl in
      rw (decoded, is_2c, allowed) refl

  handled_get :
      request.type ≡ Ber.snmp_get
      → handle_request g request client
        ≡ (handle_snmp_get g.mib request empty_response >>= reply request client)
  unfolding handle_request
  handled_get get =
      let is_get : (request.type == Ber.snmp_get) ≡ true = rw get refl in rw is_get refl

  handled_getnext :
      request.type ≡ Ber.snmp_getnext
      → handle_request g request client
        ≡ (handle_snmp_getnext g.mib request empty_response >>= reply request client)
  unfolding handle_request
  handled_getnext next =
      let is_get : (request.type == Ber.snmp_get) ≡ false = rw next refl in
      let is_next : (request.type == Ber.snmp_getnext) ≡ true = rw next refl in
      rw (is_get, is_next) refl

  -- A GET of version 2c with the right community is answered by the message that binds every OID
  -- of the request, in order, to the value of its entry or to the reason why there is none; or the
  -- agent fails, and then that message does not fit the packet. The packet holds 2048 bytes, of
  -- which the request is decoded, and the values have the lengths of their bytes.
  pub snmp_get-Answers :
      request.type ≡ Ber.snmp_get
      → All IsEncoded (values_of (get_answer g.mib) request.oid_list)
      → Answers
          (Carries (
            message_bytes request
              (extended empty_response (values_of (get_answer g.mib) request.oid_list))
              (values_of (get_answer g.mib) request.oid_list)))
          (max_packet_size
            < length (
                message_bytes request
                  (extended empty_response (values_of (get_answer g.mib) request.oid_list))
                  (values_of (get_answer g.mib) request.oid_list)))
          (snmp g client)
  snmp_get-Answers get h =
      let few = (decoded-IsRequest client request inside bytes decoded).few in
      rw
        (
          handled,
          handled_get get,
          handle_snmp_get_v2c g.mib request empty_response version (omega (arith, few)),
        )
        (replied (values_of (get_answer g.mib) request.oid_list) h)

  pub snmp_getnext-Answers :
      request.type ≡ Ber.snmp_getnext
      → All IsEncoded (values_of (next_answer g.mib) request.oid_list)
      → Answers
          (Carries (
            message_bytes request
              (extended empty_response (values_of (next_answer g.mib) request.oid_list))
              (values_of (next_answer g.mib) request.oid_list)))
          (max_packet_size
            < length (
                message_bytes request
                  (extended empty_response (values_of (next_answer g.mib) request.oid_list))
                  (values_of (next_answer g.mib) request.oid_list)))
          (snmp g client)
  snmp_getnext-Answers next h =
      let few = (decoded-IsRequest client request inside bytes decoded).few in
      rw
        (
          handled,
          handled_getnext next,
          handle_snmp_getnext_v2c g.mib request empty_response version (omega (arith, few)),
        )
        (replied (values_of (next_answer g.mib) request.oid_list) h)
