-- ===== src/Server/Clients.antt =====
-- What the handlers keep of the connected clients.
use open_wrt_sdk.Common.{
  ℕ, suc, ◌+◌, ◌-◌, ◌≤◌, ◌<◌, ◌≡◌, ◌⊎◌, refl, ap, ◌∙◌, List, [], ◌∷◌, length, arith, All, true,
  false, Bool, Option, none, some, Bool-cases, inl, inr, take, ◌==◌, ==_iff,
}
use open_wrt_sdk.Types.{max_nr_clients, max_packet_size, Client}
use open_wrt_sdk.Outcome.{
  ok, ◌>>=◌, Whenever, Whenever-bind, Whenever-any, Whenever-weaken, Whenever-if,
}
use open_wrt_sdk.Agent.{Globals, snmp, snmp_packet_complete}
use open_wrt_sdk.Server.{Connection, Received, failed, bytes, caught}
use open_wrt_sdk.Server.Tcp.{
  Sent, unsent, count, close_client, handle_tcp_client_write, tcp_reply, handle_packet,
  handle_tcp_client_read, Ready, idle, reads, writes, serve_client, serve_clients,
}
use open_wrt_sdk.Server.Room.{HasRoom, snmp-HasRoom}
use open_wrt_sdk.Server.Buffers.{OrNone, caught-Whenever, length-take, length-overwrite}

-- A client's packet ends inside its array, and a client that waits for the write has a packet.
pub record IsConnection (c : Connection) : Type 0 where
  pub room : HasRoom c.client
  pub sends : (c.outgoing ≡ false) ⊎ (0 < c.client.size)

close-IsConnection : (c : Connection) → IsConnection c → IsConnection (close_client c)
close-IsConnection c h = record { room = h.room; sends = h.sends }

handle_tcp_client_write-IsConnection :
    (sent : Sent) (c : Connection) → IsConnection c → IsConnection (handle_tcp_client_write sent c)
unfolding handle_tcp_client_write
handle_tcp_client_write-IsConnection unsent c h = close-IsConnection c h
handle_tcp_client_write-IsConnection (count n) c h = elim (Bool-cases (n == c.client.size)) [
  | inl whole ↦
      rw whole
        (record { room = record { full = h.room.full; inside = omega arith }; sends = inl refl })
  | inr part ↦ rw part (close-IsConnection c h)
]

tcp_reply-IsConnection :
    (c : Connection) (r : Option Client)
    → c.outgoing ≡ false
    → IsConnection c
    → OrNone HasRoom r
    → IsConnection (tcp_reply c r)
tcp_reply-IsConnection c none quiet h k = close-IsConnection c h
tcp_reply-IsConnection c (some client) quiet h k = elim (Bool-cases (client.size == 0)) [
  | inl empty ↦ rw empty (record { room = k; sends = inl quiet })
  | inr full ↦ rw full (record { room = k; sends = inr (ground (arith, ==_iff client.size 0)) })
]

handle_packet-IsConnection :
    (g : Globals) (c : Connection) → IsConnection c → Whenever IsConnection (handle_packet g c)
unfolding handle_packet
handle_packet-IsConnection g c h =
    Whenever-bind _ IsConnection (caught (snmp_packet_complete c.client)) _
      (Whenever-any (caught (snmp_packet_complete c.client))) λ complete _. answered complete
  where
    answered :
        (complete : Option Bool)
        → Whenever IsConnection (elim complete [
          | none ↦ ok (close_client c)
          | some whole ↦ elim whole [
            | false ↦ ok c
            | true ↦ (do
              reply ← caught (snmp g c.client)
              ok (tcp_reply (record c { outgoing = false }) reply))
          ]
        ])
    answered none = close-IsConnection c h
    answered (some false) = h
    answered (some true) =
        Whenever-bind (OrNone HasRoom) IsConnection (caught (snmp g c.client)) _
          (caught-Whenever HasRoom (snmp g c.client) (snmp-HasRoom g c.client h.room.full))
          λ reply k.
            tcp_reply-IsConnection (record c { outgoing = false }) reply refl
              (record { room = h.room; sends = inl refl }) k

handle_tcp_client_read-IsConnection :
    (g : Globals) (now : ℕ) (received : Received) (c : Connection)
    → c.outgoing ≡ false
    → IsConnection c
    → Whenever IsConnection (handle_tcp_client_read g now received c)
unfolding handle_tcp_client_read
handle_tcp_client_read-IsConnection g now failed c quiet h = close-IsConnection c h
handle_tcp_client_read-IsConnection g now (bytes input) c quiet h =
    let got = take (max_packet_size - c.client.size) input in
    let fits : c.client.size + length got ≤ max_packet_size =
      omega (arith, length-take (max_packet_size - c.client.size) input, h.room.inside) in
    let kept =
      length-overwrite c.client.packet got c.client.size (omega (arith, fits, h.room.full)) in
    elim (Bool-cases (length got == 0)) [
      | inl gone ↦ rw gone (close-IsConnection c h)
      | inr more ↦ rw more (
          handle_packet-IsConnection g _ (record {
            room = record { full = kept ∙ h.room.full; inside = fits };
            sends = inl quiet;
          }))
    ]

serve_client-IsConnection :
    (g : Globals) (ready : Ready) (c : Connection)
    → IsConnection c
    → Whenever IsConnection (serve_client g ready c)
unfolding serve_client
serve_client-IsConnection g idle c h = h
serve_client-IsConnection g (reads now received) c h =
    Whenever-if IsConnection c.outgoing (ok c) (handle_tcp_client_read g now received c) (λ _. h)
      λ quiet. handle_tcp_client_read-IsConnection g now received c quiet h
serve_client-IsConnection g (writes sent) c h =
    Whenever-if IsConnection c.outgoing (ok (handle_tcp_client_write sent c)) (ok c)
      (λ _. handle_tcp_client_write-IsConnection sent c h) λ _. h

-- What holds of the list of clients.
pub record AreClients (list : List Connection) : Type 0 where
  pub connections : All IsConnection list
  pub few : length list ≤ max_nr_clients

serve_clients-All :
    (g : Globals) (ready : List Ready) (list : List Connection)
    → All IsConnection list
    → Whenever
        (λ (l : List Connection). All IsConnection l × (length l ≡ length list))
        (serve_clients g ready list)
unfolding serve_clients
serve_clients-All g ready [] h = (tt, refl)
serve_clients-All g [] (c ∷ list) h = (h, refl)
serve_clients-All g (r ∷ ready) (c ∷ list) h =
    Whenever-bind IsConnection _ (serve_client g r c) _ (serve_client-IsConnection g r c h.0)
      λ c' k.
        Whenever-bind (λ (l : List Connection). All IsConnection l × (length l ≡ length list)) _
          (serve_clients g ready list) _ (serve_clients-All g ready list h.1)
          λ list' ks. ((k, ks.0), ap suc ks.1)

pub serve_clients-AreClients :
    (g : Globals) (ready : List Ready) (list : List Connection)
    → AreClients list
    → Whenever AreClients (serve_clients g ready list)
serve_clients-AreClients g ready list h =
    Whenever-weaken _ AreClients (serve_clients g ready list)
      (λ l k. record { connections = k.0; few = omega (arith, k.1, h.few) })
      (serve_clients-All g ready list h.connections)
