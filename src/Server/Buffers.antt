-- ===== src/Server/Buffers.antt =====
-- What the handlers keep of the arrays: the calls that write into them, and the UDP client.
use open_wrt_sdk.Common.{
  ℕ, zero, suc, ◌+◌, ◌-◌, ◌≤◌, ◌≡◌, refl, ap, ◌∙◌, List, [], ◌∷◌, ◌++◌, length, length-append,
  length-drop, arith, Option, none, some, Bool-cases, inl, inr, take, drop, ◌==◌, ==_iff, ◌⊎◌,
}
use open_wrt_sdk.Types.{max_packet_size, size_mod, Client}
use open_wrt_sdk.Outcome.{Outcome, ok, fail, fault, hang, Whenever, Whenever-bind, Whenever-if}
use open_wrt_sdk.Agent.{Globals, snmp}
use open_wrt_sdk.Server.{
  Connection, Received, failed, bytes, overwrite, caught, Arrival, receive, arrived, udp_reply,
  handle_udp_client,
}
use open_wrt_sdk.Server.Loop.{udp_part}
use open_wrt_sdk.Server.Room.{HasRoom, snmp-HasRoom}

abbrev pub OrNone : {A : Type 0} → (A → Type 0) → Option A → Type 0
OrNone P none = Unit
OrNone P (some a) = P a

pub caught-Whenever :
    {A : Type 0} (P : A → Type 0) (m : Outcome A) → Whenever P m → Whenever (OrNone P) (caught m)
caught-Whenever P (ok a) h = h
caught-Whenever P fail h = tt
caught-Whenever P fault h = tt
caught-Whenever P hang h = tt

pub length-take : (n : ℕ) (xs : List ℕ) → length (take n xs) ≤ n
length-take zero xs = omega arith
length-take (suc n) [] = omega arith
length-take (suc n) (x ∷ xs) = omega (arith, length-take n xs)

pub length-take_at : (n : ℕ) (xs : List ℕ) → n ≤ length xs → length (take n xs) ≡ n
length-take_at zero xs h = refl
length-take_at (suc n) [] h = absurd (omega arith)
length-take_at (suc n) (x ∷ xs) h = ap suc (length-take_at n xs (omega arith))

pub length-overwrite :
    (packet input : List ℕ) (pos : ℕ)
    → pos + length input ≤ length packet
    → length (overwrite packet pos input) ≡ length packet
unfolding overwrite
length-overwrite packet input pos h = omega (
  arith,
  length-append (take pos packet) (input ++ drop (pos + length input) packet),
  length-append input (drop (pos + length input) packet),
  length-take_at pos packet (omega arith),
  length-drop (pos + length input) packet,
)

pub length-receive :
    (r : Received) (client : Client)
    → length client.packet ≡ max_packet_size
    → length (receive r client).packet ≡ max_packet_size
unfolding receive
length-receive failed client full = full
length-receive (bytes input) client full =
    length-overwrite client.packet (take max_packet_size input) 0
      (omega (arith, length-take max_packet_size input, full))
    ∙ full

-- The UDP client: an array of full size, and a packet that ends inside it, or the size of -1 that a
-- `recvfrom` leaves that fails.
pub record IsUdp (client : Client) : Type 0 where
  pub full : length client.packet ≡ max_packet_size
  pub size : (client.size ≤ max_packet_size) ⊎ (client.size ≡ size_mod - 1)

receive-IsUdp :
    (r : Received) (client : Client)
    → length client.packet ≡ max_packet_size
    → IsUdp (receive r client)
unfolding receive
receive-IsUdp failed client full = record { full = full; size = inr refl }
receive-IsUdp (bytes input) client full = record {
  full = unfold receive in length-receive (bytes input) client full;
  size = inl (length-take max_packet_size input);
}

HasRoom-IsUdp : (client : Client) → HasRoom client → IsUdp client
HasRoom-IsUdp client h = record { full = h.full; size = inl h.inside }

abbrev pub IsUdpPart : Connection × Option (List ℕ) → Type 0
IsUdpPart u = IsUdp u.0.client

udp_reply-IsUdp :
    (udp : Connection) (r : Option Client)
    → IsUdp udp.client
    → OrNone HasRoom r
    → IsUdpPart (udp_reply udp r)
udp_reply-IsUdp udp none is k = is
udp_reply-IsUdp udp (some client) is k = elim (Bool-cases (client.size == 0)) [
  | inl empty ↦ rw empty (HasRoom-IsUdp client k)
  | inr some_bytes ↦ rw some_bytes (HasRoom-IsUdp client k)
]

pub udp_part-IsUdp :
    (g : Globals) (a : Option Arrival) (udp : Connection)
    → IsUdp udp.client
    → Whenever IsUdpPart (udp_part g a udp)
unfolding udp_part handle_udp_client
udp_part-IsUdp g none udp is = is
udp_part-IsUdp g (some a) udp is =
    let received = receive-IsUdp a.received udp.client is.full in
    Whenever-if IsUdpPart (udp.client.size == size_mod - 1) _ _
      (λ deaf. record {
        full = received.full;
        size = inr ((==_iff udp.client.size (size_mod - 1)).0 deaf);
      })
      λ _.
        Whenever-bind (OrNone HasRoom) IsUdpPart (caught (snmp g (arrived a udp).client)) _
          (caught-Whenever HasRoom (snmp g (arrived a udp).client)
            (snmp-HasRoom g (arrived a udp).client received.full))
          λ r k. udp_reply-IsUdp (arrived a udp) r received k
