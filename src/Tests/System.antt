-- ===== src/Tests/System.antt =====
-- The three threads at concrete values.
use open_wrt_sdk.Common.{
  ◌≡◌, refl, ◌++◌, drop, [], zeros, length-zeros, arith, some, none, set, ℤ, ◌∷◌,
}
use open_wrt_sdk.Outcome.{write_at, ok, byte_at}
use open_wrt_sdk.Mib.Build.{mib_update}
use open_wrt_sdk.Sdk.{SdkParam}
use open_wrt_sdk.Sdk.Parse.{reads_on, two_chars, read_hex}
use open_wrt_sdk.Server.{overwrite, accepted, add_client, handle_tcp_connect}
use open_wrt_sdk.Server.Timer.{tick, next_timer, ticks_since, float_ticks, clamp}
use open_wrt_sdk.Server.Tcp.{serve_clients}
use open_wrt_sdk.Server.Loop.{remove_closed, watch, udp_part, connect_part, round}
use open_wrt_sdk.Serial.{request_port, poll}
use open_wrt_sdk.Text.Accept.{slot, accept_turn}
use open_wrt_sdk.Serial.Fields.{
  write_field, fields, version_hardware, version_software, electromagnetic_relay, contacts_from,
}
use open_wrt_sdk.System.{
  asking, writing, serial_at, serial_steps, System, Meeting, snmp_step, text_step,
}
use open_wrt_sdk.System.Threads.{IsSystem, Step, serial, snmp, text, here, next, Reach-IsSystem}
use open_wrt_sdk.System.Status.{Holds, serial_steps-Holds}
use open_wrt_sdk.Tests.Mib.{demo}
use open_wrt_sdk.Tests.Serial.{
  digit, strtol_from, failures, fails, strtol-ReadsNumbers, sdk, answer, strtol, status, meets,
  strtol-IsStrtol, status-IsMeets, sdk-IsSdkParam, answer-IsAnswer,
}
use open_wrt_sdk.Tests.Server.{started, started-IsServer, later, connects, empty_full}

abbrev first : System
first = record {
  sdk = sdk;
  answer = answer;
  place = asking;
  server = started;
  listener = (50, zeros 50);
}

first-IsSystem : IsSystem first
first-IsSystem = record {
  thread = (sdk-IsSdkParam, answer-IsAnswer);
  server = started-IsServer;
  listener = (omega arith, length-zeros 50);
}

-- The device has answered.
abbrev asked : System
asked = record first { answer = overwrite answer 0 status; place = writing fields (ℤ.pos 44) }

first-Step : Step first asked
unfolding serial_at poll request_port write_at overwrite answer zeros
first-Step = serial strtol meets strtol-IsStrtol status-IsMeets refl

-- The temperature is written, and nothing else.
abbrev told : System
told = record asked {
  sdk = record sdk { self_temp = 7 };
  place =
      writing (version_hardware ∷ version_software ∷ electromagnetic_relay ∷ contacts_from 0 20)
        (ℤ.pos 44);
}

asked-Step : Step asked told
unfolding serial_at write_field read_hex two_chars byte_at overwrite answer zeros strtol_from digit
asked-Step = serial strtol meets strtol-IsStrtol status-IsMeets refl

-- A client has connected to the agent, and another to the text server.
abbrev listened : System
listened = record told { listener = (1, set (zeros 50) 0 5) }

told-Step : Step told listened
unfolding text_step accept_turn slot zeros
told-Step = text (accepted 5) refl

abbrev served : System
served = record listened { server = later }

abbrev meeting : Meeting
meeting = record {
  clock = some (record { tv_sec = 1000; tv_usec = 500000 });
  demo = demo;
  datagram = none;
  connection = some connects;
  ready = [];
}

listened-Step : Step listened served
unfolding snmp_step round watch tick next_timer ticks_since float_ticks clamp mib_update udp_part
    connect_part handle_tcp_connect add_client serve_clients remove_closed
listened-Step =
    snmp (λ n. n) meeting (record { random = ground arith; connection = empty_full }) refl

Reach-IsSystem_example : IsSystem served
Reach-IsSystem_example =
    Reach-IsSystem first-IsSystem
      (next (next (next (next here first-Step) asked-Step) told-Step) listened-Step)

serial_steps-Holds_example :
    (after : SdkParam) × Holds strtol status sdk after
    × (serial_steps strtol meets 25 first
        ≡ ok (record first {
          sdk = after;
          answer = status ++ drop 44 answer;
          place = writing [] (ℤ.pos 44);
        }))
serial_steps-Holds_example =
    unfold reads_on in
    serial_steps-Holds strtol meets first failures [] status strtol-ReadsNumbers refl fails
      (omega arith) (omega arith) refl refl refl answer-IsAnswer.size refl
