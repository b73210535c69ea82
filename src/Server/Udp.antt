-- ===== src/Server/Udp.antt =====
-- What a failed `recvfrom` does to the UDP part of the server.
use open_wrt_sdk.Common.{
  ℕ, zero, suc, ◌+◌, ◌-◌, ◌≤◌, ◌<◌, ◌^◌, byte-lt, ◌≡◌, refl, ap, List, [], ◌∷◌, length, arith, true,
  Option, none, ◌==◌, ==_refl, ==_iff, Bool-cases, inl, inr, bit_and, get_or, ◌&&◌, All, IsByte,
}
use open_wrt_sdk.Types.{max_packet_size, size_mod, Client, Request}
use open_wrt_sdk.Ber
use open_wrt_sdk.Outcome.{Outcome, ok, fail, fault, hang, ◌>>=◌, ◌>>◌, require, byte_at, Safely}
use open_wrt_sdk.Decode.{decode_length_bytes, decode_length, decode_snmp_element_type_length}
use open_wrt_sdk.Message.{bytes_left, decode_snmp_request}
use open_wrt_sdk.Agent.{Globals, snmp}
use open_wrt_sdk.Server.{Connection, failed, Arrival, receive, arrived, handle_udp_client}

abbrev huge : ℕ
huge = size_mod - 1

-- The header is read inside the array, and its length cannot be that of the packet.
module _ (packet : List ℕ) (full : 4 ≤ length packet) (octets : All IsByte packet) where
  length_bytes_small :
      (n pos : ℕ)
      → n ≤ 2
      → pos ≤ 2
      → Safely (λ (r : ℕ × ℕ). (r.1 ≤ 4) × (r.0 < 2 ^ 16)) (decode_length_bytes packet huge n pos 0)
  unfolding decode_length_bytes byte_at
  length_bytes_small zero pos hn hp = omega arith
  length_bytes_small (suc zero) pos hn hp = ground (arith, byte-lt packet pos octets)
  length_bytes_small (suc (suc zero)) pos hn hp =
      ground (arith, byte-lt packet pos octets, byte-lt packet (pos + 1) octets)
  length_bytes_small (suc (suc (suc n))) pos hn hp = absurd (omega arith)

  length_small : Safely (λ (r : ℕ × ℕ). (r.1 ≤ 4) × (r.0 < 2 ^ 16)) (decode_length packet huge 1)
  unfolding decode_length byte_at
  length_small =
      ground
        (arith, byte-lt packet 1 octets, length_bytes_small (bit_and (get_or packet 1 0) 0x7f) 2)

  header_small :
      Safely
        (λ (h : ℕ × ℕ × ℕ). (h.1 < 2 ^ 16) × (h.2 ≤ 4))
        (decode_snmp_element_type_length packet huge 0)
  unfolding decode_snmp_element_type_length byte_at
  header_small = ground (arith, length_small)

-- What stands behind the header is not reached.
stops :
    (m : Outcome (ℕ × ℕ × ℕ)) (k : ℕ × ℕ × ℕ → Outcome Request)
    → Safely (λ (h : ℕ × ℕ × ℕ). (h.1 < 2 ^ 16) × (h.2 ≤ 4)) m
    → (m >>= λ h. (require (h.0 == Ber.sequence && h.1 == bytes_left huge h.2) >> k h)) ≡ fail
stops (ok (type, len, pos)) k h = ground arith
stops fail k h = refl
stops fault k h = absurd h
stops hang k h = absurd h

decode_fails :
    (packet : List ℕ)
    → 4 ≤ length packet
    → All IsByte packet
    → decode_snmp_request (record { packet = packet; size = huge }) ≡ fail
decode_fails packet full octets =
    unfold decode_snmp_request in
    stops (decode_snmp_element_type_length packet huge 0) _ (header_small packet full octets)

snmp_fails :
    (g : Globals) (packet : List ℕ)
    → 4 ≤ length packet
    → All IsByte packet
    → snmp g (record { packet = packet; size = huge }) ≡ fail
unfolding snmp
snmp_fails g packet full octets = rw (decode_fails packet full octets) refl

-- What the server sends for one packet after the other.
abbrev pub replies : Globals → List Arrival → Connection → Outcome (List (Option (List ℕ)))
replies g [] udp = ok []
replies g (a ∷ arrivals) udp = do
  (udp', sent) ← handle_udp_client g a udp
  rest ← replies g arrivals udp'
  ok (sent ∷ rest)

-- No reply.
abbrev pub silence : List Arrival → List (Option (List ℕ))
silence [] = []
silence (a ∷ arrivals) = none ∷ silence arrivals

==_of_eq : (a b : ℕ) → a ≡ b → (a == b) ≡ true
==_of_eq a b e = rw e (==_refl b)

handle_udp_client_deaf :
    (g : Globals) (a : Arrival) (udp : Connection)
    → udp.client.size ≡ huge
    → (udp' : Connection) × (handle_udp_client g a udp ≡ ok (udp', none))
      × (udp'.client.size ≡ huge)
unfolding handle_udp_client
handle_udp_client_deaf g a udp e =
    let same : (udp.client.size == huge) ≡ true = ==_of_eq udp.client.size huge e in
    (
      record udp { client = record udp.client { packet = (receive a.received udp.client).packet } },
      rw same refl,
      e,
    )

handle_udp_client_failed :
    (g : Globals) (a : Arrival) (udp : Connection)
    → a.received ≡ failed
    → 4 ≤ length udp.client.packet
    → All IsByte udp.client.packet
    → (udp' : Connection) × (handle_udp_client g a udp ≡ ok (udp', none))
      × (udp'.client.size ≡ huge)
unfolding handle_udp_client receive
handle_udp_client_failed g a udp e full octets = elim (Bool-cases (udp.client.size == huge)) [
  | inl same ↦ handle_udp_client_deaf g a udp ((==_iff udp.client.size huge).0 same)
  | inr other ↦
      let lost : receive a.received udp.client
          ≡ record { packet = udp.client.packet; size = huge } =
        ap (λ r. receive r udp.client) e in
      let none_left = snmp_fails g udp.client.packet full octets in
      (arrived a udp, rw other (rw lost (rw none_left refl)), ap (λ (c : Client). c.size) lost)
]

replies_deaf :
    (g : Globals) (arrivals : List Arrival) (udp : Connection)
    → udp.client.size ≡ huge
    → replies g arrivals udp ≡ ok (silence arrivals)
replies_deaf g [] udp e = refl
replies_deaf g (a ∷ arrivals) udp e =
    let (udp', run, e') = handle_udp_client_deaf g a udp e in
    rw run (rw (replies_deaf g arrivals udp' e') refl)

-- After one `recvfrom` that fails, the server answers no UDP packet any more, whatever arrives: it
-- sends nothing for that call and for each packet behind it. The array of the UDP client has its
-- 2048 bytes.
pub replies_failed :
    (g : Globals) (a : Arrival) (arrivals : List Arrival) (udp : Connection)
    → a.received ≡ failed
    → length udp.client.packet ≡ max_packet_size
    → All IsByte udp.client.packet
    → replies g (a ∷ arrivals) udp ≡ ok (none ∷ silence arrivals)
replies_failed g a arrivals udp e full octets =
    let (udp', run, e') = handle_udp_client_failed g a udp e (omega (arith, full)) octets in
    rw run (rw (replies_deaf g arrivals udp' e') refl)
