-- ===== src/Server/Prepare.antt =====
-- What `run_snmpd` of src/mini_snmpd.c does in front of its loop: the times and the MIB, then the
-- sockets.
use open_wrt_sdk.Common.{Option, ◌≡◌, refl, List, ◌++◌, true, false, Bool, if◌then◌else◌}
use open_wrt_sdk.Outcome.{Outcome, ok, fail, ◌>>=◌}
use open_wrt_sdk.Agent.{Globals}
use open_wrt_sdk.Mib.Build.{DemoInfo, SdkInfo, demo_words, sdk_words}
use open_wrt_sdk.Mib.Build.Update.{Shows}
use open_wrt_sdk.Mib.Build.Table.{cells, IsReadings}
use open_wrt_sdk.Server.{Connection}
use open_wrt_sdk.Server.Timer.{Time, Timer}
use open_wrt_sdk.Server.Loop.{Server, start}
use open_wrt_sdk.Server.Buffers.{IsUdp}
use open_wrt_sdk.Server.Rounds.{IsServer, start-IsServer}
use open_wrt_sdk.Server.Sockets.{
  Call, Settings, open_sockets, socket_calls, all_succeed, open_sockets_lem,
}

-- The server and the calls that were made.
unfoldable pub prepare :
    Globals
    → Option Time
    → Timer
    → DemoInfo
    → SdkInfo
    → Connection
    → (Call → Bool)
    → Settings
    → Outcome (Server × List Call)
prepare g clock timer demo sdk udp succeeds settings = do
  server ← start g clock timer demo sdk udp
  calls ← open_sockets succeeds settings
  ok (server, calls)

carried :
    (b : Bool) (calls : List Call) (f : List Call → Server × List Call)
    → ((if b then ok calls else fail) >>= λ made. ok (f made)) ≡ (if b then ok (f calls) else fail)
carried true calls f = refl
carried false calls f = refl

pub prepare-IsServer :
    (g : Globals) (clock : Option Time) (timer : Timer) (demo : DemoInfo) (sdk : SdkInfo)
    (udp : Connection) (succeeds : Call → Bool) (settings : Settings)
    → IsReadings demo sdk
    → IsUdp udp.client
    → (s : Server) × IsServer s
      × Shows cells (demo_words demo ++ sdk_words sdk) s.globals.mib
      × (prepare g clock timer demo sdk udp succeeds settings ≡ (
          if all_succeed succeeds (socket_calls settings)
          then ok (s, socket_calls settings)
          else fail))
unfolding prepare
prepare-IsServer g clock timer demo sdk udp succeeds settings readings is_udp =
    let (s, run, is, shows) = start-IsServer g clock timer demo sdk udp readings is_udp in
    (
      s,
      is,
      shows,
      rw (run, open_sockets_lem succeeds settings)
          (carried (all_succeed succeeds (socket_calls settings)) (socket_calls settings)
            (λ calls. (s, calls))),
    )
