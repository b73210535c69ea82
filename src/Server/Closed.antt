-- ===== src/Server/Closed.antt =====
-- What the last loop of a round leaves in the list of clients.
use open_wrt_sdk.Common.{
  ℕ, ◌≤◌, ◌≡◌, refl, ap, ◌∙◌, List, [], ◌∷◌, ◌++◌, length, arith, All, true, false, if◌then◌else◌,
  Bool-cases, inl, inr,
}
use open_wrt_sdk.Outcome.{ok, fault}
use open_wrt_sdk.Server.{Connection}
use open_wrt_sdk.Server.Loop.{is_closed, remove_closed, watch, Server, Round, round}

-- The clients that are connected.
abbrev pub open_clients : List Connection → List Connection
open_clients [] = []
open_clients (c ∷ list) = let rest = open_clients list in if is_closed c then rest else c ∷ rest

-- No two clients that follow each other are closed.
abbrev pub IsSeparated : List Connection → Type 0
IsSeparated [] = Unit
IsSeparated (c ∷ []) = Unit
IsSeparated (c ∷ d ∷ list) =
    ((if is_closed c then is_closed d else false) ≡ false) × IsSeparated (d ∷ list)

-- The loop that removes the closed clients loses no client that is connected, and keeps their order.
pub open_clients-remove_closed :
    (list : List Connection) → open_clients (remove_closed list) ≡ open_clients list
unfolding remove_closed
open_clients-remove_closed [] = refl
open_clients-remove_closed (c ∷ []) = elim (Bool-cases (is_closed c)) [
  | inl closed ↦ rw closed refl
  | inr opened ↦ rw (opened, opened) refl
]
open_clients-remove_closed (c ∷ d ∷ list) = elim (Bool-cases (is_closed c)) [
  | inl closed ↦ rw closed (rw (open_clients-remove_closed list) refl)
  | inr opened ↦ rw opened (rw (opened, open_clients-remove_closed (d ∷ list)) refl)
]

-- Where no two clients in a row are closed, the loop leaves just those that are connected.
remove_closed_separated :
    (list : List Connection) → IsSeparated list → remove_closed list ≡ open_clients list
unfolding remove_closed
remove_closed_separated [] h = refl
remove_closed_separated (c ∷ []) h = refl
remove_closed_separated (c ∷ d ∷ list) h = elim (Bool-cases (is_closed c)) [
  | inl closed ↦
      let opened : is_closed d ≡ false = rw closed at h.0 in
      rw (closed, opened) (ap (◌∷◌ d) (remove_closed_separated list (tail d list h.1)))
  | inr opened ↦ rw opened (ap (◌∷◌ c) (remove_closed_separated (d ∷ list) h.1))
]
  where
    tail : (d : Connection) (list : List Connection) → IsSeparated (d ∷ list) → IsSeparated list
    tail d [] h = tt
    tail d (e ∷ list) h = h.1

-- Of two closed clients in a row behind connected ones, the loop removes the first and keeps the
-- second.
remove_closed_adjacent :
    (front rest : List Connection) (c d : Connection)
    → All (λ e. is_closed e ≡ false) front
    → is_closed c ≡ true
    → is_closed d ≡ true
    → remove_closed (front ++ c ∷ d ∷ rest) ≡ front ++ d ∷ remove_closed rest
unfolding remove_closed
remove_closed_adjacent [] rest c d h hc hd = rw hc refl
remove_closed_adjacent (e ∷ []) rest c d h hc hd =
    rw h.0 (ap (◌∷◌ e) (remove_closed_adjacent [] rest c d tt hc hd))
remove_closed_adjacent (e ∷ f ∷ front) rest c d h hc hd =
    rw h.0 (ap (◌∷◌ e) (remove_closed_adjacent (f ∷ front) rest c d h.1 hc hd))

watch-open_clients : (list : List Connection) → watch (open_clients list) ≡ ok tt
unfolding watch
watch-open_clients [] = refl
watch-open_clients (c ∷ list) = elim (Bool-cases (is_closed c)) [
  | inl closed ↦ rw closed (watch-open_clients list)
  | inr opened ↦ rw opened (rw opened (watch-open_clients list))
]

-- Where no two clients in a row are closed, the next round finds only sockets that are open.
watch-remove_closed :
    (list : List Connection) → IsSeparated list → watch (remove_closed list) ≡ ok tt
watch-remove_closed list h = rw (remove_closed_separated list h) (watch-open_clients list)

watch-closed :
    (front rest : List Connection) (d : Connection)
    → is_closed d ≡ true
    → watch (front ++ d ∷ rest) ≡ fault
unfolding watch
watch-closed [] rest d h = rw h refl
watch-closed (c ∷ front) rest d h = elim (Bool-cases (is_closed c)) [
  | inl closed ↦ rw closed refl
  | inr opened ↦ rw opened (watch-closed front rest d h)
]

-- Where two clients in a row behind connected ones are closed in a round, the next round writes
-- outside the set of descriptors.
pub round_adjacent :
    (float : ℕ → ℕ) (r : Round) (s : Server) (front rest : List Connection) (c d : Connection)
    → s.tcp ≡ remove_closed (front ++ c ∷ d ∷ rest)
    → All (λ e. is_closed e ≡ false) front
    → is_closed c ≡ true
    → is_closed d ≡ true
    → round float r s ≡ fault
unfolding round
round_adjacent float r s front rest c d e h hc hd =
    let kept : s.tcp ≡ front ++ d ∷ remove_closed rest =
      e ∙ remove_closed_adjacent front rest c d h hc hd in
    rw kept (rw (watch-closed front (remove_closed rest) d hd) refl)

pub length-remove_closed : (list : List Connection) → length (remove_closed list) ≤ length list
unfolding remove_closed
length-remove_closed [] = omega arith
length-remove_closed (c ∷ []) = ground arith
length-remove_closed (c ∷ d ∷ list) =
    ground (arith, length-remove_closed list, length-remove_closed (d ∷ list))

-- A property of all the clients stays one of all that are left.
pub All-remove_closed {ℓ} :
    (P : Connection → Type ℓ) (list : List Connection) → All P list → All P (remove_closed list)
unfolding remove_closed
All-remove_closed P [] h = tt
All-remove_closed P (c ∷ []) h = elim (Bool-cases (is_closed c)) [
  | inl closed ↦ rw closed tt
  | inr opened ↦ rw opened h
]
All-remove_closed P (c ∷ d ∷ list) h = elim (Bool-cases (is_closed c)) [
  | inl closed ↦ rw closed (h.1.0, All-remove_closed P list h.1.1)
  | inr opened ↦ rw opened (h.0, All-remove_closed P (d ∷ list) h.1)
]
