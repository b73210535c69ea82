-- ===== src/Server/Oldest.antt =====
-- The search for the oldest client, and what it returns.
use open_wrt_sdk.Common.{
  ℕ, zero, suc, ◌+◌, ◌≤◌, ◌<◌, ◌≡◌, refl, List, [], ◌∷◌, ◌++◌, length, length-append, arith, All,
  All-append, false, Option, none, some, get_elem?, get_elem?_between, get_elem?_out, append_assoc,
  append-nil, ltb, leb, le→leb, ltb→lt, not-ltb→le, Bool-cases, inl, inr,
}
use open_wrt_sdk.Types.{max_nr_clients}
use open_wrt_sdk.Outcome.{ok, fault}
use open_wrt_sdk.Server.{
  Connection, long_max, oldest_from, slot_at, find_oldest_client, fd_setsize, accepted, Connect,
  connected, add_client, handle_tcp_connect,
}

-- The clients are not older than a time.
abbrev pub NotOlder : ℕ → List Connection → Type 0
NotOlder t list = All (λ (c : Connection). t ≤ c.timestamp) list

-- What the search has found in a list: no client before `LONG_MAX`, or the place of a client that
-- none is older than.
abbrev pub IsOldest : List Connection → Option ℕ → Type 0
IsOldest list none = NotOlder long_max list
IsOldest list (some p) = (c : Connection) × (get_elem? list p ≡ some c) × NotOlder c.timestamp list

-- What the loop keeps: the time it compares with is that of the place.
abbrev Best : List Connection → ℕ → Option ℕ → Type 0
Best front t none = (t ≡ long_max) × NotOlder t front
Best front t (some p) =
    (c : Connection) × (get_elem? front p ≡ some c) × (c.timestamp ≡ t) × NotOlder t front

get_elem?-append :
    (front : List Connection) (c d : Connection) (p : ℕ)
    → get_elem? front p ≡ some c
    → get_elem? (front ++ d ∷ []) p ≡ some c
get_elem?-append [] c d p h = cc
get_elem?-append (e ∷ front) c d zero h = h
get_elem?-append (e ∷ front) c d (suc p) h = get_elem?-append front c d p h

NotOlder-le : (s t : ℕ) (list : List Connection) → s ≤ t → NotOlder t list → NotOlder s list
NotOlder-le s t [] h k = tt
NotOlder-le s t (c ∷ list) h k = (omega (arith, k.0), NotOlder-le s t list h k.1)

Best-keep :
    (front : List Connection) (c : Connection) (t : ℕ) (pos : Option ℕ)
    → t ≤ c.timestamp
    → Best front t pos
    → Best (front ++ c ∷ []) t pos
Best-keep front c t none h b =
    (b.0, All-append (λ (d : Connection). t ≤ d.timestamp) front (c ∷ []) b.1 (h, tt))
Best-keep front c t (some p) h (d, at, e, all) = (
  d,
  get_elem?-append front d c p at,
  e,
  All-append (λ (d : Connection). t ≤ d.timestamp) front (c ∷ []) all (h, tt),
)

Best-NotOlder :
    (front : List Connection) (t : ℕ) (pos : Option ℕ) → Best front t pos → NotOlder t front
Best-NotOlder front t none b = b.1
Best-NotOlder front t (some p) b = b.3

Best-newer :
    (front : List Connection) (c : Connection) (t : ℕ) (pos : Option ℕ)
    → c.timestamp < t
    → Best front t pos
    → Best (front ++ c ∷ []) c.timestamp (some (length front))
Best-newer front c t pos h b =
    let older = NotOlder-le c.timestamp t front (omega arith) (Best-NotOlder front t pos b) in
    (
      c,
      get_elem?_between front [] c,
      refl,
      All-append (λ (d : Connection). c.timestamp ≤ d.timestamp) front (c ∷ []) older
          (omega arith, tt),
    )

Best-IsOldest :
    (list : List Connection) (t : ℕ) (pos : Option ℕ) → Best list t pos → IsOldest list pos
Best-IsOldest list t none (e, all) = rw e at all
Best-IsOldest list t (some p) (c, at, e, all) = (c, at, rw (← e) at all)

oldest_from-IsOldest :
    (i t : ℕ) (pos : Option ℕ) (front list : List Connection)
    → i ≡ length front
    → Best front t pos
    → IsOldest (front ++ list) (oldest_from i t pos list)
unfolding oldest_from
oldest_from-IsOldest i t pos front [] e b = rw (append-nil front) (Best-IsOldest front t pos b)
oldest_from-IsOldest i t pos front (c ∷ list) e b =
    let longer = length-append front (c ∷ []) in
    let split = append_assoc front (c ∷ []) list in
    elim (Bool-cases (ltb c.timestamp t)) [
      | inl newer ↦ rw newer (
          rw split at (
            oldest_from-IsOldest (i + 1) c.timestamp (some i) (front ++ c ∷ []) list
              (omega (arith, longer, e))
              (rw e (Best-newer front c t pos (ltb→lt c.timestamp t newer) b))))
      | inr same ↦ rw same (
          rw split at (
            oldest_from-IsOldest (i + 1) t pos (front ++ c ∷ []) list (omega (arith, longer, e))
              (Best-keep front c t pos (not-ltb→le c.timestamp t same) b)))
    ]

-- The loop of `find_oldest_client` finds the place of a client that none of the others is older
-- than; it finds none only where no client has a time before `LONG_MAX`.
pub oldest_from_lem : (list : List Connection) → IsOldest list (oldest_from 0 long_max none list)
oldest_from_lem list = oldest_from-IsOldest 0 long_max none [] list refl (refl, tt)

le→not-leb : (a b : ℕ) → a < b → leb b a ≡ false
le→not-leb a b h = ground arith

slot_at_end : (list : List Connection) → slot_at list (length list) ≡ fault
unfolding slot_at
slot_at_end list = rw (slot_at, get_elem?_out list (length list) (omega arith)) refl

find_oldest_client-some :
    (list : List Connection) (p : ℕ)
    → oldest_from 0 long_max none list ≡ some p
    → find_oldest_client list ≡ fault
unfolding find_oldest_client
find_oldest_client-some list p e = rw (find_oldest_client, e) (rw (slot_at_end list) refl)

NotOlder-at :
    (t : ℕ) (front back : List Connection) (c : Connection)
    → NotOlder t (front ++ c ∷ back)
    → t ≤ c.timestamp
NotOlder-at t [] back c h = h.0
NotOlder-at t (d ∷ front) back c h = NotOlder-at t front back c h.1

-- `find_oldest_client` does not return the client that it has found: where a client has a time
-- before `LONG_MAX`, it reads the slot behind the last client.
find_oldest_client_faults :
    (front back : List Connection) (c : Connection)
    → c.timestamp < long_max
    → find_oldest_client (front ++ c ∷ back) ≡ fault
find_oldest_client_faults front back c h =
    go (oldest_from 0 long_max none list) refl (oldest_from_lem list)
  where
    list : List Connection
    list = front ++ c ∷ back

    go :
        (pos : Option ℕ)
        → oldest_from 0 long_max none list ≡ pos
        → IsOldest list pos
        → find_oldest_client list ≡ fault
    go none e all = absurd (omega (arith, NotOlder-at long_max front back c all, h))
    go (some p) e is = find_oldest_client-some list p e

-- With 16 clients or more in the list, one of which has a time before `LONG_MAX`, the next connection whose
-- descriptor fits `FD_SETSIZE` makes the server access the slot behind the array.
pub handle_tcp_connect_full :
    (a : Connect) (fd : ℕ) (front back : List Connection) (c : Connection)
    → a.accepted ≡ accepted fd
    → fd < fd_setsize
    → max_nr_clients ≤ length (front ++ c ∷ back)
    → c.timestamp < long_max
    → handle_tcp_connect a (front ++ c ∷ back) ≡ fault
unfolding handle_tcp_connect add_client
handle_tcp_connect_full a fd front back c e small full h =
    rw (handle_tcp_connect, e, le→not-leb fd fd_setsize small) added
  where
    added : add_client a fd (front ++ c ∷ back) ≡ fault
    added =
        rw (add_client, le→leb max_nr_clients (length (front ++ c ∷ back)) full)
          (rw (find_oldest_client_faults front back c h) refl)

-- A connection is added behind the clients as long as there are fewer than 16.
handle_tcp_connect_room :
    (a : Connect) (fd : ℕ) (packet : List ℕ) (list : List Connection)
    → a.accepted ≡ accepted fd
    → fd < fd_setsize
    → length list < max_nr_clients
    → a.memory ≡ some packet
    → handle_tcp_connect a list ≡ ok (list ++ connected a fd packet ∷ [])
unfolding handle_tcp_connect add_client
handle_tcp_connect_room a fd packet list e small room memory =
    rw (handle_tcp_connect, e, le→not-leb fd fd_setsize small)
      (rw (add_client, le→not-leb (length list) max_nr_clients room, memory) refl)
