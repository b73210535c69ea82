-- ===== src/Agent/Lookup.antt =====
-- A GET from the packet to the reply, in terms of the entries of the MIB.
use open_wrt_sdk.Common.{◌≤◌, ◌<◌, ◌≡◌, List, [], ◌∷◌, bytes_eq, true, All, IsByte, length, arith}
use open_wrt_sdk.Types.{max_packet_size, snmp_version_2c, Oid, Value, Request, Client}
use open_wrt_sdk.Ber
use open_wrt_sdk.Outcome.{ok, Answers}
use open_wrt_sdk.Message.{decode_snmp_request}
use open_wrt_sdk.Encode.{encode_snmp_oid}
use open_wrt_sdk.Encode.Reply.{message_bytes, IsEncoded, Carries}
use open_wrt_sdk.Handle.{get_answer}
use open_wrt_sdk.Handle.Replies.{values_of, extended}
use open_wrt_sdk.Handle.Lookup.{
  IsAnswer, nothing, behind, entry, instance_above, object_above, AreAnswers, values_of-AreAnswers,
}
use open_wrt_sdk.Agent.{Globals, snmp, empty_response}
use open_wrt_sdk.Agent.Access.{snmp_get-Answers}

-- An OID whose length is that of its bytes.
abbrev pub HasLength : Oid → Type 0
HasLength oid = oid.encoded_length ≡ length (encode_snmp_oid oid).1

IsAnswer-IsEncoded :
    (oid : Oid) (mib : List Value) (v : Value)
    → HasLength oid
    → All IsEncoded mib
    → IsAnswer oid mib v
    → IsEncoded v
IsAnswer-IsEncoded oid mib v h encoded nothing = record { oid = h; content = omega arith }
IsAnswer-IsEncoded oid (u ∷ mib) v h encoded (behind _ answer) =
    IsAnswer-IsEncoded oid mib v h encoded.1 answer
IsAnswer-IsEncoded oid (u ∷ mib) v h encoded (entry _) = encoded.0
IsAnswer-IsEncoded oid (u ∷ mib) v h encoded (instance_above _ _) = record {
  oid = h;
  content = omega arith;
}
IsAnswer-IsEncoded oid (u ∷ mib) v h encoded (object_above _ _ _ _) = record {
  oid = h;
  content = omega arith;
}

AreAnswers-IsEncoded :
    (mib : List Value) (oids : List Oid) (values : List Value)
    → All IsEncoded mib
    → All HasLength oids
    → AreAnswers mib oids values
    → All IsEncoded values
AreAnswers-IsEncoded mib [] [] encoded h answers = tt
AreAnswers-IsEncoded mib [] (v ∷ vs) encoded h answers = absurd answers
AreAnswers-IsEncoded mib (oid ∷ oids) [] encoded h answers = absurd answers
AreAnswers-IsEncoded mib (oid ∷ oids) (v ∷ vs) encoded h answers = (
  IsAnswer-IsEncoded oid mib v h.0 encoded answers.0,
  AreAnswers-IsEncoded mib oids vs encoded h.1 answers.1,
)

-- A GET of version 2c with the right community is answered by the message that binds every OID of
-- the request, in order, by the first entry of the MIB whose OID is that OID or lies below it: to
-- that entry where it has the OID itself; to noSuchInstance (0x81) where its OID has one subid
-- more; to noSuchObject (0x80) where it has several more, or where there is no such entry. Or the
-- agent fails, and then that message does not fit the packet. The packet holds 2048 bytes, of which
-- the request is decoded, and the entries of the MIB and the OIDs of the request have the lengths of
-- their bytes.
pub snmp_get-AreAnswers :
    (g : Globals) (client : Client) (request : Request)
    → client.size ≤ length client.packet
    → All IsByte client.packet
    → length client.packet ≡ max_packet_size
    → decode_snmp_request client ≡ ok request
    → request.version ≡ snmp_version_2c
    → bytes_eq g.community request.community ≡ true
    → request.type ≡ Ber.snmp_get
    → All IsEncoded g.mib
    → All HasLength request.oid_list
    → (values : List Value) × AreAnswers g.mib request.oid_list values
      × Answers
          (Carries (message_bytes request (extended empty_response values) values))
          (max_packet_size < length (message_bytes request (extended empty_response values) values))
          (snmp g client)
snmp_get-AreAnswers g client request inside octets full decoded version allowed get encoded
      lengths =
    let values = values_of (get_answer g.mib) request.oid_list in
    let answers = values_of-AreAnswers g.mib request.oid_list in
    let h = AreAnswers-IsEncoded g.mib request.oid_list values encoded lengths answers in
    (
      values,
      answers,
      snmp_get-Answers g client request inside octets full decoded version allowed get h,
    )
