-- ===== src/Server/Datagram.antt =====
-- What the server sends for a UDP packet that asks for cells of the table.
use open_wrt_sdk.Common.{
  ℕ, ◌+◌, ◌-◌, ◌≤◌, ◌<◌, ◌≡◌, ◌≢◌, refl, ap, ◌⊎◌, inl, inr, List, ◌++◌, length, length-append, take,
  drop, All, All-append, All-take, All-drop, IsByte, bytes_eq, true, false, ◌==◌, arith, Option,
  some, none,
}
use open_wrt_sdk.Types.{max_packet_size, size_mod, snmp_version_2c, Value, Request, Client}
use open_wrt_sdk.Ber
use open_wrt_sdk.Outcome.{Outcome, ok, fail, fault, hang, Answers}
use open_wrt_sdk.Message.{decode_snmp_request}
use open_wrt_sdk.Handle.Replies.{extended}
use open_wrt_sdk.Encode.{encode_snmp_integer, encode_snmp_string, encode_snmp_sequence_header}
use open_wrt_sdk.Encode.Reply.{message_bytes, element, pdu_bytes, Carries}
use open_wrt_sdk.Mib.Build.Update.{Shows}
use open_wrt_sdk.Mib.Build.Table.{cells}
use open_wrt_sdk.Agent.{Globals, snmp, empty_response}
use open_wrt_sdk.Agent.Table.{Asks, AreReadings, snmp_get-AreReadings}
use open_wrt_sdk.Server.{
  Connection, bytes, overwrite, caught, Arrival, receive, arrived, udp_reply, handle_udp_client,
}
use open_wrt_sdk.Server.Buffers.{length-receive, length-take}

receive-IsByte :
    (input : List ℕ) (client : Client)
    → All IsByte input
    → All IsByte client.packet
    → All IsByte (receive (bytes input) client).packet
unfolding receive overwrite
receive-IsByte input client octets old =
    let got = take max_packet_size input in
    All-append IsByte got (drop (0 + length got) client.packet)
      (All-take IsByte max_packet_size input octets)
      (All-drop IsByte (0 + length got) client.packet old)

receive_inside :
    (input : List ℕ) (client : Client)
    → length client.packet ≡ max_packet_size
    → (receive (bytes input) client).size ≤ length (receive (bytes input) client).packet
receive_inside input client full =
    let size = length-take max_packet_size input in
    let whole = length-receive (bytes input) client full in
    unfold receive in omega (arith, size, whole)

-- The message is sent, or there is no room for it and nothing is sent.
abbrev pub Sends : List ℕ → Connection × Option (List ℕ) → Type 0
Sends message (udp, sent) =
    (sent ≡ some message) ⊎ ((sent ≡ none) × (max_packet_size < length message))

caught-Sends :
    (message : List ℕ) (m : Outcome Client) (udp : Connection)
    → Answers (Carries message) (max_packet_size < length message) m
    → 0 < length message
    → (r : Option Client) × (caught m ≡ ok r) × Sends message (udp_reply udp r)
caught-Sends message (ok client) udp (front, size, full) long =
    let some_bytes : (client.size == 0) ≡ false = ground arith in
    (some client, refl, rw some_bytes (inl (ap some front)))
caught-Sends message fail udp h long = (none, refl, inr (refl, h))
caught-Sends message fault udp h long = absurd h
caught-Sends message hang udp h long = absurd h

message_some :
    (request : Request) (values : List Value)
    → 0 < length (message_bytes request (extended empty_response values) values)
unfolding encode_snmp_integer
message_some request values =
    let version = encode_snmp_integer request.version in
    let rest =
      (encode_snmp_string request.community).1
      ++ element Ber.snmp_response (pdu_bytes request (extended empty_response values) values) in
    let header = (encode_snmp_sequence_header (length (version.1 ++ rest)) Ber.sequence).1 in
    omega (arith, length-append header (version.1 ++ rest), length-append version.1 rest)

handle_udp_client_alive :
    (g : Globals) (a : Arrival) (udp : Connection) (r : Option Client)
    → udp.client.size ≢ size_mod - 1
    → caught (snmp g (arrived a udp).client) ≡ ok r
    → handle_udp_client g a udp ≡ ok (udp_reply (arrived a udp) r)
unfolding handle_udp_client
handle_udp_client_alive g a udp r alive run =
    let listening : (udp.client.size == size_mod - 1) ≡ false = ground (arith, alive) in
    rw listening (rw run refl)

-- Where the MIB is the table and shows the words, a UDP packet with a GET of version 2c and the
-- right community that asks for cells of the table is answered by one packet: the message that
-- binds each OID, in order, to an entry of that OID whose bytes decode to the cell's word as an
-- `int`. Where that message does not fit 2048 bytes, nothing is sent. The request is decoded from
-- the packet, the array of the UDP client has its 2048 bytes, and no earlier `recvfrom` has
-- failed.
pub handle_udp_client-AreReadings :
    (g : Globals) (a : Arrival) (udp : Connection) (input : List ℕ) (request : Request)
    (words : List ℕ)
    → a.received ≡ bytes input
    → All IsByte input
    → All IsByte udp.client.packet
    → length udp.client.packet ≡ max_packet_size
    → udp.client.size ≢ size_mod - 1
    → decode_snmp_request (receive (bytes input) udp.client) ≡ ok request
    → request.version ≡ snmp_version_2c
    → bytes_eq g.community request.community ≡ true
    → request.type ≡ Ber.snmp_get
    → Shows cells words g.mib
    → (asks : All (Asks words) request.oid_list)
    → (values : List Value) × AreReadings words request.oid_list asks values
      × (r : Connection × Option (List ℕ)) × (handle_udp_client g a udp ≡ ok r)
      × Sends (message_bytes request (extended empty_response values) values) r
handle_udp_client-AreReadings g a udp input request words got octets old full alive decoded version
      allowed get shows asks =
    let client = receive a.received udp.client in
    let (values, readings, answers) =
      snmp_get-AreReadings g client request words (rw got (receive_inside input udp.client full))
        (rw got (receive-IsByte input udp.client octets old))
        (length-receive a.received udp.client full) (rw got decoded) version allowed get shows
        asks in
    let message = message_bytes request (extended empty_response values) values in
    let (r, run, sends) =
      caught-Sends message (snmp g client) (arrived a udp) answers (message_some request values) in
    (
      values,
      readings,
      udp_reply (arrived a udp) r,
      handle_udp_client_alive g a udp r alive run,
      sends,
    )
