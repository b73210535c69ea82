-- ===== src/Server.antt =====
-- The clients of src/mini_snmpd.c, its handlers for UDP packets and connections, and
-- `find_oldest_client` of src/utils.c. What the system calls return is an argument; `fail` is the
-- exit of the program. The calls of `close` are not recorded: the code sets `sockfd` to -1 right
-- behind each, or drops the descriptor.
pub mod Tcp
pub mod Timer
pub mod Loop
pub mod Oldest
pub mod Closed
pub mod Udp
pub mod Datagram
pub mod Prepare
pub mod Sockets
pub mod Room
pub mod Buffers
pub mod Clients
pub mod Slots
pub mod Rounds
use open_wrt_sdk.Common.{
  ℕ, zero, suc, ◌+◌, ◌-◌, ◌^◌, Bool, true, false, List, [], ◌∷◌, ◌++◌, length, ltb, leb, ◌==◌,
  if◌then◌else◌, ℤ, ◌=ℤ◌, take, drop, set, get_elem?, Option, none, some,
}
use open_wrt_sdk.Types.{max_nr_clients, max_packet_size, size_mod, Client}
use open_wrt_sdk.Outcome.{Outcome, ok, fail, fault, hang, ◌>>=◌}
use open_wrt_sdk.Agent.{Globals, snmp, snmp_packet_complete}
use open_wrt_sdk.Mib.Build.{DemoInfo, SdkInfo, mib_build, mib_update}

-- `client_t`: the packet and its size are those of `Client`.
pub record Connection : Type 0 where
  pub timestamp : ℕ
  pub sockfd : ℤ
  pub addr : ℕ
  pub port : ℕ
  pub client : Client
  pub outgoing : Bool

-- `LONG_MAX` of a `long` of 32 bits.
abbrev pub long_max : ℕ
long_max = 2 ^ 31 - 1

-- The loop of `find_oldest_client`, from index `i` on: `none` is a `pos` of -1.
unfoldable pub oldest_from : ℕ → ℕ → Option ℕ → List Connection → Option ℕ
oldest_from i timestamp pos [] = pos
oldest_from i timestamp pos (c ∷ list) =
    let newer = oldest_from (i + 1) c.timestamp (some i) list in
    let same = oldest_from (i + 1) timestamp pos list in
    if ltb c.timestamp timestamp then newer else same

-- `g_tcp_client_list[i]`: behind the used part there is no client.
unfoldable pub slot_at : List Connection → ℕ → Outcome ℕ
slot_at list i = elim (get_elem? list i) [ none ↦ fault | some c ↦ ok i ]

-- The slot of the client that it returns. After the loop, `i` is the length of the list.
unfoldable pub find_oldest_client : List Connection → Outcome (Option ℕ)
find_oldest_client list = elim (oldest_from 0 long_max none list) [
  | none ↦ ok none
  | some pos ↦ (do slot ← slot_at list (length list); ok (some slot))
]

-- What `recvfrom` or `read` finds at the socket.
pub data Received : Type 0 where
  failed : Received
  bytes : List ℕ → Received

-- Bytes that a system call puts into an array from `pos` on.
unfoldable pub overwrite : List ℕ → ℕ → List ℕ → List ℕ
overwrite packet pos input = take pos packet ++ (input ++ drop (pos + length input) packet)

-- A call whose -1 the caller handles.
abbrev pub caught : {A : Type 0} → Outcome A → Outcome (Option A)
caught (ok a) = ok (some a)
caught fail = ok none
caught fault = fault
caught hang = hang

-- The peer of a UDP packet, and when and on what socket it came.
pub record Arrival : Type 0 where
  pub now : ℕ
  pub sockfd : ℤ
  pub addr : ℕ
  pub port : ℕ
  pub received : Received

-- The array and `rv` as a `size_t` after `recvfrom`.
unfoldable pub receive : Received → Client → Client
receive failed client = record client { size = size_mod - 1 }
receive (bytes input) client = record {
  packet = overwrite client.packet 0 (take max_packet_size input);
  size = length (take max_packet_size input);
}

abbrev pub arrived : Arrival → Connection → Connection
arrived a udp = record {
  timestamp = a.now;
  sockfd = a.sockfd;
  addr = a.addr;
  port = a.port;
  client = receive a.received udp.client;
  outgoing = false;
}

-- What follows the call of `snmp`: the reply, if there is one.
abbrev pub udp_reply : Connection → Option Client → Connection × Option (List ℕ)
udp_reply udp none = (udp, none)
udp_reply udp (some client) =
    if client.size == 0
    then (record udp { client = client }, none)
    else (record udp { client = client; outgoing = true }, some (take client.size client.packet))

-- `g_udp_client` and the packet that is sent. The size is tested before it is set. Where `snmp`
-- fails, what the encoder has written into the packet by then is left out.
unfoldable pub handle_udp_client :
    Globals → Arrival → Connection → Outcome (Connection × Option (List ℕ))
handle_udp_client g a udp =
    if udp.client.size == size_mod - 1
    then ok (
      record udp { client = record udp.client { packet = (receive a.received udp.client).packet } },
      none,
    )
    else (do reply ← caught (snmp g (arrived a udp).client); ok (udp_reply (arrived a udp) reply))

-- `FD_SETSIZE`
abbrev pub fd_setsize : ℕ
fd_setsize = 1024

-- What `accept` returns, and the memory that `malloc` gives for a packet.
pub data Accepted : Type 0 where
  refused : Accepted
  accepted : ℕ → Accepted

pub record Connect : Type 0 where
  pub now : ℕ
  pub accepted : Accepted
  pub addr : ℕ
  pub port : ℕ
  pub memory : Option (List ℕ)

abbrev pub connected : Connect → ℕ → List ℕ → Connection
connected a fd packet = record {
  timestamp = a.now;
  sockfd = ℤ.pos fd;
  addr = a.addr;
  port = a.port;
  client = record { packet = packet; size = 0 };
  outgoing = false;
}

-- The new client takes the slot of the oldest one where the list is full.
unfoldable pub add_client : Connect → ℕ → List Connection → Outcome (List Connection)
add_client a fd list =
    if leb max_nr_clients (length list)
    then (do
      oldest ← find_oldest_client list
      elim oldest [
        | none ↦ fail
        | some i ↦ elim (get_elem? list i) [
          | none ↦ fault
          | some c ↦ ok (set list i (connected a fd c.client.packet))
        ]
      ])
    else elim a.memory [ none ↦ fail | some packet ↦ ok (list ++ connected a fd packet ∷ []) ]

unfoldable pub handle_tcp_connect : Connect → List Connection → Outcome (List Connection)
handle_tcp_connect a list = elim a.accepted [
  | refused ↦ ok list
  | accepted fd ↦ if leb fd_setsize fd then ok list else add_client a fd list
]
