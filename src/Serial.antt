-- ===== src/Serial.antt =====
-- The exchange with the device: `request_port` of src/serial.c, and the turns of
-- `threading_sdk_serial` in src/parser_sdk.c. What the system calls return is an argument.
pub mod Port
pub mod Polls
pub mod Readings
pub mod Shown
pub mod Turns
pub mod Fields
use open_wrt_sdk.Common.{
  ℕ, zero, suc, ◌+◌, ◌<◌, ltb, leb, ◌==◌, if◌then◌else◌, List, [], ◌∷◌, length, take, zeros, ℤ,
  ◌<ℤ◌, pos_part,
}
use open_wrt_sdk.Outcome.{Outcome, ok, fault, hang, write_at, ◌>>=◌, ◌>>◌}
use open_wrt_sdk.Server.{Received, failed, bytes, overwrite}
use open_wrt_sdk.Sdk.{SdkParam}
use open_wrt_sdk.Sdk.Parse.{parse_status}

-- The sizes of `answer_sdk`, of `buffer`, and what `read` may put there.
abbrev pub answer_size : ℕ
answer_size = 256

abbrev pub buffer_size : ℕ
buffer_size = 55

abbrev pub read_size : ℕ
read_size = 56

-- What `select` and `read` find. Where the descriptor is not ready, the function ends without a
-- `return`: the caller then finds some number.
pub data Exchange : Type 0 where
  select_failed : Exchange
  not_ready : ℤ → Exchange
  ready : Received → Exchange

-- What the function returns, and the array of the answer. The bytes that `read` brings are written
-- to `buffer` before they are copied.
unfoldable pub request_port : Exchange → List ℕ → Outcome (ℤ × List ℕ)
request_port select_failed answer = ok (ℤ.negsuc 0, answer)
request_port (not_ready found) answer = ok (found, answer)
request_port (ready failed) answer = ok (ℤ.negsuc 0, answer)
request_port (ready (bytes input)) answer =
    let got = take read_size input in
    if length got == 0 then ok (ℤ.negsuc 0, answer) else (do
      buffer ← write_at (zeros buffer_size) 0 got
      ok (ℤ.pos (length got), overwrite answer 0 (take (length got) buffer)))

-- The requests for the status, up to one whose result is greater than 0; `hang` says that all the
-- exchanges are used up.
unfoldable pub poll : List Exchange → List ℕ → Outcome (ℤ × List ℕ × List Exchange)
poll [] answer = hang
poll (e ∷ exchanges) answer = do
  (len, answer') ← request_port e answer
  let rest = poll exchanges answer'
  if ℤ.pos 0 <ℤ len then ok (len, answer', exchanges) else rest

-- The loops that print an answer read as many characters as the result says.
unfoldable pub show_answer : ℤ → List ℕ → Outcome (Unit {0})
show_answer len answer = if ltb (length answer) (pos_part len) then fault else ok tt

-- One turn of the loop, with the exchanges for the other two messages: the values and the array.
unfoldable pub turn :
    (List ℕ → Outcome ℕ)
    → List Exchange
    → Exchange
    → Exchange
    → SdkParam
    → List ℕ
    → Outcome (SdkParam × List ℕ)
turn strtol exchanges second third sdk answer = do
  (len, a₁, _) ← poll exchanges answer
  sdk' ← parse_status strtol a₁ sdk
  show_answer len a₁
  (len₂, a₂) ← request_port second a₁
  show_answer len₂ a₂
  (_, a₃) ← request_port third a₂
  ok (sdk', a₃)

-- What one turn meets.
pub record Meets : Type 0 where
  pub status : List Exchange
  pub second : Exchange
  pub third : Exchange

-- The turns of `while (1)`.
unfoldable pub turns :
    (List ℕ → Outcome ℕ) → List Meets → SdkParam × List ℕ → Outcome (SdkParam × List ℕ)
turns strtol [] state = ok state
turns strtol (m ∷ ms) (sdk, answer) =
    turn strtol m.status m.second m.third sdk answer >>= turns strtol ms
