-- ===== src/Server/Tcp.antt =====
-- The handlers of src/mini_snmpd.c for a connected client, and the loop over the clients.
use open_wrt_sdk.Common.{
  ℕ, ◌+◌, ◌-◌, true, false, List, [], ◌∷◌, length, ◌==◌, if◌then◌else◌, ℤ, take, Option, none, some,
}
use open_wrt_sdk.Types.{max_packet_size, Client}
use open_wrt_sdk.Outcome.{Outcome, ok, ◌>>=◌}
use open_wrt_sdk.Agent.{Globals, snmp, snmp_packet_complete}
use open_wrt_sdk.Server.{Connection, Received, failed, bytes, overwrite, caught}

-- What `send` returns.
pub data Sent : Type 0 where
  unsent : Sent
  count : ℕ → Sent

-- `close(client->sockfd); client->sockfd = -1;`
abbrev pub close_client : Connection → Connection
close_client c = record c { sockfd = ℤ.negsuc 0 }

unfoldable pub handle_tcp_client_write : Sent → Connection → Connection
handle_tcp_client_write unsent c = close_client c
handle_tcp_client_write (count n) c =
    if n == c.client.size
    then record c { client = record c.client { size = 0 }; outgoing = false }
    else close_client c

-- What follows the call of `snmp`.
abbrev pub tcp_reply : Connection → Option Client → Connection
tcp_reply c none = close_client c
tcp_reply c (some client) =
    if client.size == 0
    then close_client (record c { client = client })
    else record c { client = client; outgoing = true }

-- What follows the read of some bytes.
unfoldable pub handle_packet : Globals → Connection → Outcome Connection
handle_packet g c = do
  complete ← caught (snmp_packet_complete c.client)
  elim complete [
    | none ↦ ok (close_client c)
    | some whole ↦ elim whole [
      | false ↦ ok c
      | true ↦ (do
        reply ← caught (snmp g c.client)
        ok (tcp_reply (record c { outgoing = false }) reply))
    ]
  ]

-- `read` returns what there is, as far as the array has room.
unfoldable pub handle_tcp_client_read : Globals → ℕ → Received → Connection → Outcome Connection
handle_tcp_client_read g now failed c = ok (close_client c)
handle_tcp_client_read g now (bytes input) c =
    let got = take (max_packet_size - c.client.size) input in
    if length got == 0
    then ok (close_client c)
    else handle_packet g (record c {
      timestamp = now;
      client = record {
        packet = overwrite c.client.packet c.client.size got;
        size = c.client.size + length got;
      };
    })

-- Whether `select` found the socket of a client ready, and what the call then returns.
pub data Ready : Type 0 where
  idle : Ready
  reads : ℕ → Received → Ready
  writes : Sent → Ready

unfoldable pub serve_client : Globals → Ready → Connection → Outcome Connection
serve_client g idle c = ok c
serve_client g (reads now received) c =
    if c.outgoing then ok c else handle_tcp_client_read g now received c
serve_client g (writes sent) c = if c.outgoing then ok (handle_tcp_client_write sent c) else ok c

-- The loop over the clients; one that is not named is idle.
unfoldable pub serve_clients : Globals → List Ready → List Connection → Outcome (List Connection)
serve_clients g ready [] = ok []
serve_clients g [] (c ∷ list) = ok (c ∷ list)
serve_clients g (r ∷ ready) (c ∷ list) = do
  c' ← serve_client g r c
  list' ← serve_clients g ready list
  ok (c' ∷ list')
