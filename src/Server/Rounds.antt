-- ===== src/Server/Rounds.antt =====
-- The invariant of the server, from its start on and through every round.
use open_wrt_sdk.Server.Timer.{Time, Timer, tick, first_timer}
use open_wrt_sdk.Common.{ℕ, Option, ◌≡◌, refl, List, [], ◌++◌, arith, true, false, Bool}
use open_wrt_sdk.Types.{Value}
use open_wrt_sdk.Outcome.{ok, Whenever, Whenever-bind, Whenever-any}
use open_wrt_sdk.Agent.{Globals}
use open_wrt_sdk.Mib.Build.{DemoInfo, SdkInfo, demo_words, sdk_words, mib_update}
use open_wrt_sdk.Mib.Build.Update.{HasCells, Shows, Shows-HasCells}
use open_wrt_sdk.Mib.Build.Table.{cells, no_words, IsReadings, mib_build_lem, mib_update_lem}
use open_wrt_sdk.Server.{Connection}
use open_wrt_sdk.Server.Tcp.{serve_clients}
use open_wrt_sdk.Server.Loop.{
  remove_closed, watch, Server, Round, udp_part, connect_part, round, start,
}
use open_wrt_sdk.Server.Clients.{AreClients, IsConnection, serve_clients-AreClients}
use open_wrt_sdk.Server.Slots.{IsConnect, connect_part-AreClients}
use open_wrt_sdk.Server.Buffers.{IsUdp, IsUdpPart, udp_part-IsUdp}
use open_wrt_sdk.Server.Closed.{length-remove_closed, All-remove_closed}

-- What holds of the server between two rounds: the MIB is the table, the arrays have their full
-- size, the packets of TCP clients end inside them, a TCP client that waits for the write has a
-- packet, there are at most 16 of them, and the packet of the UDP client ends inside its array or
-- has the size of -1 that a failed `recvfrom` leaves.
pub record IsServer (s : Server) : Type 0 where
  pub mib : HasCells cells s.globals.mib
  pub udp : IsUdp s.udp.client
  pub tcp : AreClients s.tcp

-- What a round may meet: readings that are words, and memory of full size for a new client.
pub record IsRound (r : Round) : Type 0 where
  pub readings : IsReadings r.demo r.sdk
  pub connection : IsConnect r.connection

mib_update-HasCells :
    (full : Bool) (demo : DemoInfo) (sdk : SdkInfo) (mib : List Value)
    → HasCells cells mib
    → IsReadings demo sdk
    → Whenever (HasCells cells) (mib_update full demo sdk mib)
mib_update-HasCells true demo sdk mib has readings =
    let (mib', run, shows) = mib_update_lem demo sdk mib has readings in
    rw run (Shows-HasCells cells (demo_words demo ++ sdk_words sdk) mib' shows)
mib_update-HasCells false demo sdk mib has readings = unfold mib_update in has

remove_closed-AreClients :
    (list : List Connection) → AreClients list → AreClients (remove_closed list)
remove_closed-AreClients list h = record {
  connections = All-remove_closed IsConnection list h.connections;
  few = omega (arith, length-remove_closed list, h.few);
}

pub round-IsServer :
    (float : ℕ → ℕ) (r : Round) (s : Server)
    → IsRound r
    → IsServer s
    → Whenever IsServer (round float r s)
unfolding round
round-IsServer float r s hr hs =
    Whenever-bind _ IsServer (watch s.tcp) _ (Whenever-any (watch s.tcp)) λ _ _.
      Whenever-bind _ IsServer (tick float r.clock s.timer) _
        (Whenever-any (tick float r.clock s.timer))
        λ (full, timer) _.
          Whenever-bind (HasCells cells) IsServer (mib_update full r.demo r.sdk s.globals.mib) _
            (mib_update-HasCells full r.demo r.sdk s.globals.mib hs.mib hr.readings)
            λ mib hm.
              Whenever-bind IsUdpPart IsServer
                (udp_part (record s.globals { mib = mib }) r.datagram s.udp) _
                (udp_part-IsUdp (record s.globals { mib = mib }) r.datagram s.udp hs.udp)
                λ u hu.
                  Whenever-bind AreClients IsServer (connect_part r.connection s.tcp) _
                    (connect_part-AreClients r.connection s.tcp hr.connection hs.tcp)
                    λ list hl.
                      Whenever-bind AreClients IsServer
                        (serve_clients (record s.globals { mib = mib }) r.ready list) _
                        (serve_clients-AreClients (record s.globals { mib = mib }) r.ready list hl)
                        λ list' hl'. record {
                          mib = hm;
                          udp = hu;
                          tcp = remove_closed-AreClients list' hl';
                        }

-- A round that does not leave an array or the program.
data Step : Server → Server → Type 0 where
  turn : {s t : Server} (float : ℕ → ℕ) (r : Round) → IsRound r → round float r s ≡ ok t → Step s t

data Reach (s : Server) : Server → Type 0 where
  here : Reach s s
  next : {t u : Server} → Reach s t → Step t u → Reach s u

Step-IsServer : {s t : Server} → Step s t → IsServer s → IsServer t
Step-IsServer {s = s} (turn float r hr run) hs = rw run at (round-IsServer float r s hr hs)

-- A server that satisfies the invariant satisfies it after any number of rounds that return,
-- whatever packets and connections they meet. The readings are words of 32 bits, and memory for a
-- new client has its 2048 bytes.
Reach-IsServer : {s t : Server} → IsServer s → Reach s t → IsServer t
Reach-IsServer h here = h
Reach-IsServer h (next reach step) = Step-IsServer step (Reach-IsServer h reach)

-- Where the readings are words of 32 bits and the UDP client has its array of 2048 bytes, with a
-- packet inside it or the size -1, the part of the start in front of the sockets (the time, the
-- build of the MIB and its first full update) succeeds, and the server then satisfies the
-- invariant: the table is built, and its entries show the readings.
pub start-IsServer :
    (g : Globals) (clock : Option Time) (timer : Timer) (demo : DemoInfo) (sdk : SdkInfo)
    (udp : Connection)
    → IsReadings demo sdk
    → IsUdp udp.client
    → (s : Server) × (start g clock timer demo sdk udp ≡ ok s)
      × IsServer s
      × Shows cells (demo_words demo ++ sdk_words sdk) s.globals.mib
start-IsServer g clock timer demo sdk udp readings is_udp =
    let (built, run, zero_shows) = mib_build_lem [] (omega arith) in
    let has = Shows-HasCells cells (no_words cells) built zero_shows in
    let (mib, run', shows) = mib_update_lem demo sdk built has readings in
    (
      record {
        globals = record g { mib = mib };
        udp = udp;
        tcp = [];
        timer = first_timer clock timer;
      },
      unfold start in rw run (rw run' refl),
      record {
        mib = Shows-HasCells cells (demo_words demo ++ sdk_words sdk) mib shows;
        udp = is_udp;
        tcp = record { connections = tt; few = omega arith };
      },
      shows,
    )
