-- ===== src/Server/Slots.antt =====
-- What a connection keeps of the list of clients.
use open_wrt_sdk.Common.{
  ℕ, zero, suc, ◌≡◌, refl, List, [], ◌∷◌, ◌++◌, length, length-append, length-set, arith, All,
  All-append, All-get_elem?, false, Option, none, some, Bool-cases, inl, inr, set, get_elem?, leb,
  not-leb→lt,
}
use open_wrt_sdk.Types.{max_nr_clients, max_packet_size}
use open_wrt_sdk.Outcome.{ok, fail, fault, Whenever, Whenever-bind, Whenever-any}
use open_wrt_sdk.Server.{
  Connection, find_oldest_client, fd_setsize, Accepted, refused, accepted, Connect, connected,
  add_client, handle_tcp_connect,
}
use open_wrt_sdk.Server.Loop.{connect_part}
use open_wrt_sdk.Server.Clients.{IsConnection, AreClients}

-- `malloc` gives an array of full size, or nothing.
abbrev pub HasMemory : Option (List ℕ) → Type 0
HasMemory none = Unit
HasMemory (some packet) = length packet ≡ max_packet_size

All-set :
    (list : List Connection) (i : ℕ) (c : Connection)
    → IsConnection c
    → All IsConnection list
    → All IsConnection (set list i c)
All-set [] i c h k = tt
All-set (d ∷ list) zero c h k = (h, k.1)
All-set (d ∷ list) (suc i) c h k = (k.0, All-set list i c h k.1)

connected-IsConnection :
    (a : Connect) (fd : ℕ) (packet : List ℕ)
    → length packet ≡ max_packet_size
    → IsConnection (connected a fd packet)
connected-IsConnection a fd packet full = record {
  room = record { full = full; inside = omega arith };
  sends = inl refl;
}

add_client-AreClients :
    (a : Connect) (fd : ℕ) (list : List Connection)
    → HasMemory a.memory
    → AreClients list
    → Whenever AreClients (add_client a fd list)
unfolding add_client
add_client-AreClients a fd list memory h = elim (Bool-cases (leb max_nr_clients (length list))) [
  | inl full ↦ rw full (
      Whenever-bind _ AreClients (find_oldest_client list) _
        (Whenever-any (find_oldest_client list)) λ oldest _. replaced oldest)
  | inr room ↦ rw room (added a.memory memory room)
]
  where
    slot :
        (i : ℕ) (old : Option Connection)
        → get_elem? list i ≡ old
        → Whenever AreClients
            (elim old [ none ↦ fault | some c ↦ ok (set list i (connected a fd c.client.packet)) ])
    slot i none e = tt
    slot i (some c) e =
        let full = (All-get_elem? IsConnection list i c h.connections e).room.full in
        record {
          connections =
              All-set list i (connected a fd c.client.packet)
                (connected-IsConnection a fd c.client.packet full) h.connections;
          few = omega (arith, length-set list i (connected a fd c.client.packet), h.few);
        }

    replaced :
        (oldest : Option ℕ)
        → Whenever AreClients (elim oldest [
          | none ↦ fail
          | some i ↦ elim (get_elem? list i) [
            | none ↦ fault
            | some c ↦ ok (set list i (connected a fd c.client.packet))
          ]
        ])
    replaced none = tt
    replaced (some i) = slot i (get_elem? list i) refl

    added :
        (memory : Option (List ℕ))
        → HasMemory memory
        → leb max_nr_clients (length list) ≡ false
        → Whenever AreClients
            (elim memory [ none ↦ fail | some packet ↦ ok (list ++ connected a fd packet ∷ []) ])
    added none m room = tt
    added (some packet) m room = record {
      connections =
          All-append IsConnection list (connected a fd packet ∷ []) h.connections
            (connected-IsConnection a fd packet m, tt);
      few = omega (
        arith,
        length-append list (connected a fd packet ∷ []),
        not-leb→lt max_nr_clients (length list) room,
      );
    }

-- The memory of a connection request.
abbrev pub IsConnect : Option Connect → Type 0
IsConnect none = Unit
IsConnect (some a) = HasMemory a.memory

pub connect_part-AreClients :
    (a : Option Connect) (list : List Connection)
    → IsConnect a
    → AreClients list
    → Whenever AreClients (connect_part a list)
unfolding connect_part handle_tcp_connect
connect_part-AreClients none list m h = h
connect_part-AreClients (some a) list m h = connect a.accepted refl
  where
    connect : (r : Accepted) → a.accepted ≡ r → Whenever AreClients (handle_tcp_connect a list)
    connect refused e = rw (handle_tcp_connect, e) h
    connect (accepted fd) e = elim (Bool-cases (leb fd_setsize fd)) [
      | inl big ↦ rw (handle_tcp_connect, e, big) h
      | inr small ↦ rw (handle_tcp_connect, e, small) (add_client-AreClients a fd list m h)
    ]
