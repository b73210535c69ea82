-- ===== src/System.antt =====
-- The three threads that `main` of src/sdk.c starts, and the struct that they share, which no lock
-- protects: the serial thread writes it field by field, and the others may run between two writes.
-- A round of the SNMP loop is one step.
pub mod Threads
pub mod Status
pub mod Whole
use open_wrt_sdk.Common.{ℕ, zero, suc, ◌≡◌, List, [], ◌∷◌, Option, ℤ}
use open_wrt_sdk.Outcome.{Outcome, ok, ◌>>=◌, ◌>>◌}
use open_wrt_sdk.Agent.{Globals}
use open_wrt_sdk.Mib.Build.{DemoInfo}
use open_wrt_sdk.Sdk.{SdkParam, get_sdkinfo}
use open_wrt_sdk.Server.{Connection, Accepted, Connect, Arrival}
use open_wrt_sdk.Server.Timer.{Time, Timer}
use open_wrt_sdk.Server.Tcp.{Ready}
use open_wrt_sdk.Server.Loop.{Server, Round, round, start}
use open_wrt_sdk.Serial.{Meets, request_port, poll, show_answer}
use open_wrt_sdk.Serial.Fields.{Field, write_field, fields}
use open_wrt_sdk.Text.Accept.{accept_turn}

-- Where the serial thread stands: in front of the requests, or with the fields that it has still to
-- write from an answer, and the result of the request.
pub data Place : Type 0 where
  asking : Place
  writing : List Field → ℤ → Place

-- `external_sdk_53`; the serial thread's `answer_sdk` and its place; the state of `run_snmpd`; and
-- `i` and `threadid` of `server_run`.
pub record System : Type 0 where
  pub sdk : SdkParam
  pub answer : List ℕ
  pub place : Place
  pub server : Server
  pub listener : ℕ × List ℕ

-- What a round of the SNMP loop meets, but the readings: these are in the shared struct.
pub record Meeting : Type 0 where
  pub clock : Option Time
  pub demo : DemoInfo
  pub datagram : Option Arrival
  pub connection : Option Connect
  pub ready : List Ready

abbrev pub round_of : Meeting → SdkParam → Round
round_of m sdk = record {
  clock = m.clock;
  demo = m.demo;
  sdk = get_sdkinfo sdk;
  datagram = m.datagram;
  connection = m.connection;
  ready = m.ready;
}

-- A step of the serial thread: the requests for the status, one write, or the other two messages.
unfoldable pub serial_at : (List ℕ → Outcome ℕ) → Meets → Place → System → Outcome System
serial_at strtol m asking s = do
  (len, answer, _) ← poll m.status s.answer
  ok (record s { answer = answer; place = writing fields len })
serial_at strtol m (writing (f ∷ rest) len) s = do
  sdk ← write_field strtol s.answer f s.sdk
  ok (record s { sdk = sdk; place = writing rest len })
serial_at strtol m (writing [] len) s = do
  show_answer len s.answer
  (len₂, a₂) ← request_port m.second s.answer
  show_answer len₂ a₂
  (_, a₃) ← request_port m.third a₂
  ok (record s { answer = a₃; place = asking })

abbrev pub serial_step : (List ℕ → Outcome ℕ) → Meets → System → Outcome System
serial_step strtol m s = serial_at strtol m s.place s

-- Its steps in a row.
unfoldable pub serial_steps : (List ℕ → Outcome ℕ) → Meets → ℕ → System → Outcome System
serial_steps strtol m zero s = ok s
serial_steps strtol m (suc n) s = serial_step strtol m s >>= serial_steps strtol m n

unfoldable pub snmp_step : (ℕ → ℕ) → Meeting → System → Outcome System
snmp_step float m s = do
  server ← round float (round_of m s.sdk) s.server
  ok (record s { server = server })

unfoldable pub text_step : Accepted → System → Outcome System
text_step r s = do listener ← accept_turn r s.listener; ok (record s { listener = listener })
