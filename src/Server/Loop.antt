-- ===== src/Server/Loop.antt =====
-- The loop of `run_snmpd` in src/mini_snmpd.c: what stands in front of it, and one round.
use open_wrt_sdk.Common.{ℕ, Bool, true, List, [], ◌∷◌, if◌then◌else◌, ℤ, ◌=ℤ◌, Option, none, some}
use open_wrt_sdk.Outcome.{Outcome, ok, fault, ◌>>=◌}
use open_wrt_sdk.Agent.{Globals}
use open_wrt_sdk.Mib.Build.{DemoInfo, SdkInfo, mib_build, mib_update}
use open_wrt_sdk.Server.{Connection, Arrival, handle_udp_client, Connect, handle_tcp_connect}
use open_wrt_sdk.Server.Timer.{Time, Timer, tick, first_timer}
use open_wrt_sdk.Server.Tcp.{Ready, serve_clients}

abbrev pub is_closed : Connection → Bool
is_closed c = c.sockfd =ℤ ℤ.negsuc 0

-- The last loop: `memmove` brings the next client to the index of one that is removed, and the
-- loop goes on behind it.
unfoldable pub remove_closed : List Connection → List Connection
remove_closed [] = []
remove_closed (c ∷ []) = if is_closed c then [] else c ∷ []
remove_closed (c ∷ d ∷ list) =
    let next = remove_closed (d ∷ list) in
    let behind = remove_closed list in if is_closed c then d ∷ behind else c ∷ next

-- The loop that fills the sets for `select`: `FD_SET` with the descriptor -1 writes outside the set.
unfoldable pub watch : List Connection → Outcome (Unit {0})
watch [] = ok tt
watch (c ∷ list) = let rest = watch list in if is_closed c then fault else rest

-- The globals of the server, and the times that the loop keeps.
pub record Server : Type 0 where
  pub globals : Globals
  pub udp : Connection
  pub tcp : List Connection
  pub timer : Timer

-- What a round finds: the time, the readings for an update of the MIB, a UDP packet, a connection,
-- and what the clients are ready for.
pub record Round : Type 0 where
  pub clock : Option Time
  pub demo : DemoInfo
  pub sdk : SdkInfo
  pub datagram : Option Arrival
  pub connection : Option Connect
  pub ready : List Ready

unfoldable pub udp_part :
    Globals → Option Arrival → Connection → Outcome (Connection × Option (List ℕ))
udp_part g none udp = ok (udp, none)
udp_part g (some a) udp = handle_udp_client g a udp

unfoldable pub connect_part : Option Connect → List Connection → Outcome (List Connection)
connect_part none list = ok list
connect_part (some a) list = handle_tcp_connect a list

-- One round of `while (!g_quit)`.
unfoldable pub round : (ℕ → ℕ) → Round → Server → Outcome Server
round float r s = do
  tt ← watch s.tcp
  (full, timer) ← tick float r.clock s.timer
  mib ← mib_update full r.demo r.sdk s.globals.mib
  (udp, sent) ← udp_part (record s.globals { mib = mib }) r.datagram s.udp
  list ← connect_part r.connection s.tcp
  list' ← serve_clients (record s.globals { mib = mib }) r.ready list
  ok (record {
    globals = record s.globals { mib = mib };
    udp = udp;
    tcp = remove_closed list';
    timer = timer;
  })

-- What stands in front of the loop and of the sockets: the time, then the MIB is built and updated,
-- and there is no client. `Server.Sockets.open_sockets` comes next.
unfoldable pub start :
    Globals → Option Time → Timer → DemoInfo → SdkInfo → Connection → Outcome Server
start g clock timer demo sdk udp = do
  mib ← mib_build []
  mib' ← mib_update true demo sdk mib
  ok (record {
    globals = record g { mib = mib' };
    udp = udp;
    tcp = [];
    timer = first_timer clock timer;
  })
