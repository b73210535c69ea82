-- ===== src/Server/Sockets.antt =====
-- The sockets that `run_snmpd` of src/mini_snmpd.c opens in front of its loop. Whether a system call
-- succeeds is a parameter.
use open_wrt_sdk.Common.{
  ℕ, ◌≡◌, refl, ◌∙◌, Bool, true, ◌&&◌, Bool-cases, inl, inr, if◌then◌else◌, List, [], ◌∷◌, ◌++◌,
  take, append_assoc, append-nil,
}
use open_wrt_sdk.Outcome.{Outcome, ok, fail, ◌>>=◌}

pub data Kind : Type 0 where
  udp : Kind
  tcp : Kind

-- The calls, with what decides about them: `bind` has the port, and `reuse_address` the value that
-- its pointer leads to.
pub data Call : Type 0 where
  socket : Bool → Kind → Call
  bind : Bool → Kind → ℕ → Call
  bind_to_device : Kind → List ℕ → Call
  reuse_address : ℕ → Call
  listen : ℕ → Call

-- The globals, and the variable `c`, which is never set. `inet` says that `g_family` is AF_INET.
pub record Settings : Type 0 where
  pub inet : Bool
  pub udp_port : ℕ
  pub tcp_port : ℕ
  pub device : List ℕ
  pub c : ℕ

-- A call that is made, and its exit where it fails.
unfoldable pub call : (Call → Bool) → Call → List Call → Outcome (List Call)
call succeeds c made = if succeeds c then ok (made ++ c ∷ []) else fail

-- The name is cut to the 15 characters of `ifrn_name`.
unfoldable pub call_device : (Call → Bool) → Kind → List ℕ → List Call → Outcome (List Call)
call_device succeeds kind [] made = ok made
call_device succeeds kind (char ∷ device) made =
    call succeeds (bind_to_device kind (take 15 (char ∷ device))) made

-- The calls that were made.
unfoldable pub open_sockets : (Call → Bool) → Settings → Outcome (List Call)
open_sockets succeeds s = do
  m₁ ← call succeeds (socket s.inet udp) []
  m₂ ← call succeeds (bind s.inet udp s.udp_port) m₁
  m₃ ← call_device succeeds udp s.device m₂
  m₄ ← call succeeds (socket s.inet tcp) m₃
  m₅ ← call_device succeeds tcp s.device m₄
  m₆ ← call succeeds (reuse_address s.c) m₅
  m₇ ← call succeeds (bind s.inet tcp s.udp_port) m₆
  m₈ ← call succeeds (listen 128) m₇
  ok m₈

-- What has to succeed, in this order.
abbrev pub device_calls : Kind → List ℕ → List Call
device_calls kind [] = []
device_calls kind (char ∷ device) = bind_to_device kind (take 15 (char ∷ device)) ∷ []

abbrev pub socket_calls : Settings → List Call
socket_calls s =
    socket s.inet udp
    ∷ bind s.inet udp s.udp_port
    ∷ (device_calls udp s.device
        ++ (socket s.inet tcp
            ∷ (device_calls tcp s.device
                ++ (reuse_address s.c ∷ bind s.inet tcp s.udp_port ∷ listen 128 ∷ []))))

abbrev pub all_succeed : (Call → Bool) → List Call → Bool
all_succeed succeeds [] = true
all_succeed succeeds (c ∷ calls) = succeeds c && all_succeed succeeds calls

-- One call behind the other.
call_all : (Call → Bool) → List Call → List Call → Outcome (List Call)
call_all succeeds [] made = ok made
call_all succeeds (c ∷ calls) made = call succeeds c made >>= call_all succeeds calls

call_all_lem :
    (succeeds : Call → Bool) (calls made : List Call)
    → call_all succeeds calls made
      ≡ (if all_succeed succeeds calls then ok (made ++ calls) else fail)
unfolding call_all call
call_all_lem succeeds [] made = rw append-nil refl
call_all_lem succeeds (c ∷ calls) made = elim (Bool-cases (succeeds c)) [
  | inl done ↦
      rw done
        (rw (append_assoc made (c ∷ []) calls) at (call_all_lem succeeds calls (made ++ c ∷ [])))
  | inr failed ↦ rw failed refl
]

open_sockets-call_all :
    (succeeds : Call → Bool) (inet : Bool) (udp_port tcp_port c : ℕ) (device : List ℕ)
    → let s : Settings = record {
      inet = inet;
      udp_port = udp_port;
      tcp_port = tcp_port;
      device = device;
      c = c;
    } in
      open_sockets succeeds s ≡ call_all succeeds (socket_calls s) []
unfolding open_sockets call_all call_device
open_sockets-call_all succeeds inet udp_port tcp_port c [] = refl
open_sockets-call_all succeeds inet udp_port tcp_port c (char ∷ device) = refl

-- The loop is reached where all the calls succeed, in their order, and the first that fails ends the
-- program. The TCP socket is bound to the port of the UDP socket.
pub open_sockets_lem :
    (succeeds : Call → Bool) (s : Settings)
    → open_sockets succeeds s
      ≡ (if all_succeed succeeds (socket_calls s) then ok (socket_calls s) else fail)
open_sockets_lem succeeds s =
    open_sockets-call_all succeeds s.inet s.udp_port s.tcp_port s.c s.device
    ∙ call_all_lem succeeds (socket_calls s) []
