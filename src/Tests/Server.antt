-- ===== src/Tests/Server.antt =====
-- The server at concrete clients and rounds.
use open_wrt_sdk.Common.{
  inl, ◌+◌, Bool, true, if◌then◌else◌, ℕ, ◌≡◌, refl, List, [], ◌∷◌, ◌++◌, length, ℤ, arith, zeros,
  length-zeros, length-append, zeros-IsByte, none, some, false,
}
use open_wrt_sdk.Types.{max_packet_size, Client}
use open_wrt_sdk.Outcome.{ok, fail, fault}
use open_wrt_sdk.Mib.Build.{demo_words, sdk_words}
use open_wrt_sdk.Mib.Build.Table.{cells}
use open_wrt_sdk.Mib.Build.Update.{Shows}
use open_wrt_sdk.Server.{
  Connection, Arrival, failed, accepted, Connect, connected, handle_tcp_connect,
}
use open_wrt_sdk.Server.Timer.{Time, Timer, sleep_of, g_timeout, tick}
use open_wrt_sdk.Server.Timer.Exact.{age, ticks_of, tick_lem}
use open_wrt_sdk.Server.Loop.{remove_closed, Server, Round, round, start}
use open_wrt_sdk.Server.Oldest.{handle_tcp_connect_full}
use open_wrt_sdk.Server.Closed.{open_clients, open_clients-remove_closed, round_adjacent}
use open_wrt_sdk.Server.Udp.{replies, silence, replies_failed}
use open_wrt_sdk.Server.Prepare.{prepare, prepare-IsServer}
use open_wrt_sdk.Server.Sockets.{Call, bind_to_device, Settings, all_succeed, socket_calls}
use open_wrt_sdk.Server.Buffers.{IsUdp}
use open_wrt_sdk.Server.Rounds.{IsServer, start-IsServer}
use open_wrt_sdk.Tests.Samples.{globals, received, get_bytes}
use open_wrt_sdk.Tests.Mib.{built, built-HasCells, demo, sdk, demo_sdk-IsReadings}

abbrev empty_packet : Client
empty_packet = record { packet = zeros max_packet_size; size = 0 }

-- A client on a socket, since a time.
abbrev client_on : ℤ → ℕ → Connection
client_on sockfd timestamp = record {
  timestamp = timestamp;
  sockfd = sockfd;
  addr = 1;
  port = 5000;
  client = empty_packet;
  outgoing = false;
}

abbrev alive : Connection
alive = client_on (ℤ.pos 5) 100

abbrev closed : Connection
closed = client_on (ℤ.negsuc 0) 90

pub empty_full : length empty_packet.packet ≡ max_packet_size
empty_full = length-zeros max_packet_size

open_clients-remove_closed_example :
    open_clients (remove_closed (alive ∷ closed ∷ closed ∷ alive ∷ []))
    ≡ open_clients (alive ∷ closed ∷ closed ∷ alive ∷ [])
open_clients-remove_closed_example =
    open_clients-remove_closed (alive ∷ closed ∷ closed ∷ alive ∷ [])

abbrev pub on_time : Time
on_time = record { tv_sec = 1000; tv_usec = 0 }

-- The times behind a full update.
abbrev quiet : Timer
quiet = record { last = on_time; now = on_time; sleep = sleep_of g_timeout }

-- Two clients that were closed in one round.
abbrev half_closed : Server
half_closed = record {
  globals = globals;
  udp = client_on (ℤ.pos 3) 0;
  tcp = remove_closed ((alive ∷ []) ++ closed ∷ closed ∷ []);
  timer = quiet;
}

-- A round with a connection, half a second behind the last full update.
abbrev pub connects : Connect
connects = record {
  now = 200;
  accepted = accepted 6;
  addr = 2;
  port = 6000;
  memory = some (zeros max_packet_size);
}

abbrev one_round : Round
one_round = record {
  clock = some (record { tv_sec = 1000; tv_usec = 500000 });
  demo = demo;
  sdk = sdk;
  datagram = none;
  connection = some connects;
  ready = [];
}

round_adjacent_example : round (λ n. n) one_round half_closed ≡ fault
round_adjacent_example =
    round_adjacent (λ n. n) one_round half_closed (alive ∷ []) [] closed closed refl (refl, tt) refl
      refl

-- Fifteen clients more.
abbrev fifteen : List Connection
fifteen =
    alive ∷ alive ∷ alive ∷ alive ∷ alive ∷ alive ∷ alive ∷ alive ∷ alive ∷ alive ∷ alive ∷ alive
    ∷ alive ∷ alive ∷ alive ∷ []

handle_tcp_connect_full_example : handle_tcp_connect connects (fifteen ++ alive ∷ []) ≡ fault
handle_tcp_connect_full_example =
    handle_tcp_connect_full connects 6 fifteen [] alive refl (omega arith) (omega arith)
      (omega arith)

abbrev lost : Arrival
lost = record { now = 300; sockfd = ℤ.pos 3; addr = 2; port = 6000; received = failed }

replies_failed_example :
    replies globals (lost ∷ lost ∷ []) (client_on (ℤ.pos 3) 0) ≡ ok (none ∷ silence (lost ∷ []))
replies_failed_example =
    replies_failed globals lost (lost ∷ []) (client_on (ℤ.pos 3) 0) refl empty_full
      (zeros-IsByte max_packet_size)

get_full : length (received get_bytes).packet ≡ max_packet_size
get_full = omega (arith, length-append get_bytes (zeros 2008), length-zeros 2008)

empty-IsUdp : IsUdp (client_on (ℤ.pos 3) 0).client
empty-IsUdp = record { full = empty_full; size = inl (omega arith) }

start-IsServer_example :
    (s : Server) × (start globals (some on_time) quiet demo sdk (client_on (ℤ.pos 3) 0) ≡ ok s)
    × IsServer s
    × Shows cells (demo_words demo ++ sdk_words sdk) s.globals.mib
start-IsServer_example =
    start-IsServer globals (some on_time) quiet demo sdk (client_on (ℤ.pos 3) 0) demo_sdk-IsReadings
      empty-IsUdp

abbrev pub started : Server
started = record {
  globals = record globals { mib = built };
  udp = client_on (ℤ.pos 3) 0;
  tcp = [];
  timer = quiet;
}

pub started-IsServer : IsServer started
started-IsServer = record {
  mib = built-HasCells;
  udp = empty-IsUdp;
  tcp = record { connections = tt; few = omega arith };
}

abbrev pub later : Server
later = record started {
  tcp = connected connects 6 (zeros max_packet_size) ∷ [];
  timer = record {
    last = on_time;
    now = record { tv_sec = 1000; tv_usec = 500000 };
    sleep = sleep_of 50;
  };
}

-- Half a second behind the last full update.
tick_lem_example :
    (t' : Timer) × (tick (λ n. n) (some (record { tv_sec = 1000; tv_usec = 500000 })) quiet
      ≡ ok (false, t'))
    × (t'.last ≡ on_time)
    × (age t'.last (record { tv_sec = 1000; tv_usec = 500000 }) + ticks_of t'.sleep ≡ g_timeout)
tick_lem_example =
    tick_lem (λ n. n) (record { tv_sec = 1000; tv_usec = 500000 }) quiet
      (record { exact = λ n h. refl }) (record { usec = omega arith })
      (record { usec = omega arith }) (omega arith) (omega arith)

abbrev settings : Settings
settings = record {
  inet = true;
  udp_port = 161;
  tcp_port = 162;
  device = 0x65 ∷ 0x74 ∷ 0x68 ∷ 0x30 ∷ [];
  c = 7;
}

-- All calls succeed but that of the device.
abbrev no_device : Call → Bool
no_device (bind_to_device kind name) = false
no_device _ = true

prepare-IsServer_example :
    (s : Server) × IsServer s
    × Shows cells (demo_words demo ++ sdk_words sdk) s.globals.mib
    × (prepare globals (some on_time) quiet demo sdk (client_on (ℤ.pos 3) 0) no_device settings ≡ (
        if all_succeed no_device (socket_calls settings)
        then ok (s, socket_calls settings)
        else fail))
prepare-IsServer_example =
    prepare-IsServer globals (some on_time) quiet demo sdk (client_on (ℤ.pos 3) 0) no_device
      settings demo_sdk-IsReadings empty-IsUdp
