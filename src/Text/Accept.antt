-- ===== src/Text/Accept.antt =====
-- The loop of `server_run` in src/server.c: the threads that it starts.
use open_wrt_sdk.Common.{
  ℕ, ◌+◌, ◌≤◌, ◌<◌, ◌≡◌, ◌∙◌, ltb, lt→ltb, ◌==◌, if◌then◌else◌, List, [], ◌∷◌, length, length-set,
  set, arith,
}
use open_wrt_sdk.Outcome.{Outcome, ok, fail, fault, ◌>>=◌, Safely, Safely-bind}
use open_wrt_sdk.Server.{Accepted, refused, accepted}

-- `NTHREADS`
abbrev pub nthreads : ℕ
nthreads = 50

-- `if (i == NTHREADS) i = 0;`
unfoldable pub slot : ℕ → ℕ
slot i = if i == nthreads then 0 else i

-- One turn: `i` and `threadid`, which takes the thread for the socket. A failure of `accept` ends
-- the program.
unfoldable pub accept_turn : Accepted → ℕ × List ℕ → Outcome (ℕ × List ℕ)
accept_turn refused (i, threadid) = fail
accept_turn (accepted sockfd) (i, threadid) =
    if ltb (slot i) (length threadid) then ok (slot i + 1, set threadid (slot i) sockfd) else fault

unfoldable pub accept_turns : List Accepted → ℕ × List ℕ → Outcome (ℕ × List ℕ)
accept_turns [] state = ok state
accept_turns (r ∷ rs) state = accept_turn r state >>= accept_turns rs

abbrev pub IsListener : ℕ × List ℕ → Type 0
IsListener (i, threadid) = (i ≤ nthreads) × (length threadid ≡ nthreads)

slot-lt : (i : ℕ) → i ≤ nthreads → slot i < nthreads
unfolding slot
slot-lt i h = ground arith

pub accept_turn-IsListener :
    (r : Accepted) (state : ℕ × List ℕ) → IsListener state → Safely IsListener (accept_turn r state)
unfolding accept_turn
accept_turn-IsListener refused (i, threadid) h = tt
accept_turn-IsListener (accepted sockfd) (i, threadid) h =
    let small = slot-lt i h.0 in
    rw (lt→ltb (slot i) (length threadid) (omega (arith, small, h.1)))
      (omega (arith, small), length-set threadid (slot i) sockfd ∙ h.1)

-- From an index of at most 50 and an array of 50 threads, however many connections come, the loop
-- never writes outside the array: it goes on, or `accept` fails and the program ends.
pub accept_turns-IsListener :
    (rs : List Accepted) (state : ℕ × List ℕ)
    → IsListener state
    → Safely IsListener (accept_turns rs state)
unfolding accept_turns
accept_turns-IsListener [] state h = h
accept_turns-IsListener (r ∷ rs) state h =
    Safely-bind IsListener IsListener (accept_turn r state) (accept_turns rs)
      (accept_turn-IsListener r state h) λ next k. accept_turns-IsListener rs next k
