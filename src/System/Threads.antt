-- ===== src/System/Threads.antt =====
-- The invariant of the three threads, in whatever order they take their turns.
use open_wrt_sdk.Common.{ℕ, ◌<◌, ◌^◌, ◌≡◌, List, All, ◌∷◌, []}
use open_wrt_sdk.Outcome.{Outcome, ok, Whenever, Whenever-any, Whenever-bind, Whenever-of_Safely}
use open_wrt_sdk.Mib.Build.{demo_words}
use open_wrt_sdk.Sdk.{IsSdkParam, get_sdkinfo-IsReadings}
use open_wrt_sdk.Server.{Accepted}
use open_wrt_sdk.Server.Slots.{IsConnect}
use open_wrt_sdk.Server.Loop.{round}
use open_wrt_sdk.Server.Rounds.{IsServer, round-IsServer}
use open_wrt_sdk.Serial.{Meets, request_port, poll, show_answer}
use open_wrt_sdk.Serial.Turns.{
  IsMeets, IsThread, IsStrtol, poll-IsAnswer, request_port-IsAnswer, IsAnswer,
}
use open_wrt_sdk.Text.Accept.{accept_turn, IsListener, accept_turn-IsListener}
use open_wrt_sdk.Serial.Fields.{write_field, write_field-IsSdkParam}
use open_wrt_sdk.System.{
  Place, asking, writing, serial_at, System, Meeting, round_of, serial_step, snmp_step, text_step,
}

-- What holds between two steps: the shared values are readings, the MIB and the clients are in
-- order, and the listener has its array.
pub record IsSystem (s : System) : Type 0 where
  pub thread : IsThread (s.sdk, s.answer)
  pub server : IsServer s.server
  pub listener : IsListener s.listener

-- Random numbers that are words, and memory of full size for a new client.
pub record IsMeeting (m : Meeting) : Type 0 where
  pub random : All (λ w. w < 2 ^ 32) (demo_words m.demo)
  pub connection : IsConnect m.connection

-- A step of one of the threads that does not leave an array or the program.
pub data Step : System → System → Type 0 where
  serial :
      {s t : System} (strtol : List ℕ → Outcome ℕ) (m : Meets)
      → IsStrtol strtol
      → IsMeets m
      → serial_step strtol m s ≡ ok t
      → Step s t
  snmp :
      {s t : System} (float : ℕ → ℕ) (m : Meeting)
      → IsMeeting m
      → snmp_step float m s ≡ ok t
      → Step s t
  text : {s t : System} (r : Accepted) → text_step r s ≡ ok t → Step s t

pub data Reach (s : System) : System → Type 0 where
  here : Reach s s
  next : {t u : System} → Reach s t → Step t u → Reach s u

serial_at-IsSystem :
    (strtol : List ℕ → Outcome ℕ) (m : Meets) (place : Place) (s : System)
    → IsStrtol strtol
    → IsMeets m
    → IsSystem s
    → Whenever IsSystem (serial_at strtol m place s)
unfolding serial_at
serial_at-IsSystem strtol m asking s is_strtol (status, _, _) is =
    Whenever-bind (λ r. IsAnswer r.1) IsSystem (poll m.status s.answer) _
      (poll-IsAnswer m.status s.answer status is.thread.1)
      λ (len, answer, _) array. record {
        thread = (is.thread.0, array);
        server = is.server;
        listener = is.listener;
      }
serial_at-IsSystem strtol m (writing (f ∷ rest) len) s is_strtol meets is =
    Whenever-bind IsSdkParam IsSystem (write_field strtol s.answer f s.sdk) _
      (write_field-IsSdkParam strtol s.answer f s.sdk is_strtol is.thread.1.words is.thread.0)
      λ sdk is_sdk. record {
        thread = (is_sdk, is.thread.1);
        server = is.server;
        listener = is.listener;
      }
serial_at-IsSystem strtol m (writing [] len) s is_strtol (_, second, third) is =
    Whenever-bind _ _ (show_answer len s.answer) _ (Whenever-any (show_answer len s.answer)) λ _ _.
      Whenever-bind (λ r. IsAnswer r.1) _ (request_port m.second s.answer) _
        (request_port-IsAnswer m.second s.answer second is.thread.1)
        λ (len₂, a₂) is₂.
          Whenever-bind _ _ (show_answer len₂ a₂) _ (Whenever-any (show_answer len₂ a₂)) λ _ _.
            Whenever-bind (λ r. IsAnswer r.1) IsSystem (request_port m.third a₂) _
              (request_port-IsAnswer m.third a₂ third is₂)
              λ (_, a₃) is₃. record {
                thread = (is.thread.0, is₃);
                server = is.server;
                listener = is.listener;
              }

-- The readings of a round are those that the serial thread keeps.
snmp_step-IsSystem :
    (float : ℕ → ℕ) (m : Meeting) (s : System)
    → IsMeeting m
    → IsSystem s
    → Whenever IsSystem (snmp_step float m s)
unfolding snmp_step
snmp_step-IsSystem float m s meeting is =
    Whenever-bind IsServer IsSystem (round float (round_of m s.sdk) s.server) _
      (round-IsServer float (round_of m s.sdk) s.server
        (record {
          readings = get_sdkinfo-IsReadings m.demo s.sdk is.thread.0 meeting.random;
          connection = meeting.connection;
        })
        is.server)
      λ server is_server. record { thread = is.thread; server = is_server; listener = is.listener }

text_step-IsSystem : (r : Accepted) (s : System) → IsSystem s → Whenever IsSystem (text_step r s)
unfolding text_step
text_step-IsSystem r s is =
    Whenever-bind IsListener IsSystem (accept_turn r s.listener) _
      (Whenever-of_Safely IsListener (accept_turn r s.listener)
        (accept_turn-IsListener r s.listener is.listener))
      λ listener h. record { thread = is.thread; server = is.server; listener = h }

Step-IsSystem : {s t : System} → Step s t → IsSystem s → IsSystem t
Step-IsSystem {s = s} (serial strtol m is_strtol meets run) is =
    rw run at (serial_at-IsSystem strtol m s.place s is_strtol meets is)
Step-IsSystem {s = s} (snmp float m meeting run) is =
    rw run at (snmp_step-IsSystem float m s meeting is)
Step-IsSystem {s = s} (text r run) is = rw run at (text_step-IsSystem r s is)

-- In whatever order the three threads take their steps, also between two writes of the serial thread
-- to the struct that they share, and whatever the device and the clients send: the shared values
-- stay readings that the MIB can show, the MIB keeps the entries of the table, there are at most 16
-- TCP clients, whose packets end inside their arrays of 2048 bytes, the UDP client's array keeps its
-- 2048 bytes and its packet ends inside it or has the size of -1 of a failed `recvfrom`, and the
-- text server's array of threads keeps its 50 places. This holds of steps that return; the characters that come, the random numbers and what
-- `strtol` returns are words of 32 bits, and memory for a new client has its 2048 bytes.
pub Reach-IsSystem : {s t : System} → IsSystem s → Reach s t → IsSystem t
Reach-IsSystem h here = h
Reach-IsSystem h (next reach step) = Step-IsSystem step (Reach-IsSystem h reach)
