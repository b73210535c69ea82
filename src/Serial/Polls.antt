-- ===== src/Serial/Polls.antt =====
-- What the requests come to.
use open_wrt_sdk.Common.{
  ℕ, ◌≤◌, ◌<◌, ◌≡◌, refl, ◌∙◌, List, [], ◌∷◌, ◌++◌, length, take_all, All, ℤ, ◌<ℤ◌, arith, true,
  false, tests, ltb, Bool-cases, inl, inr, ◌==◌, ◌+◌, zeros, length-zeros, drop, take, take-append,
  set, length-set, if◌then◌else◌,
}
use open_wrt_sdk.Outcome.{ok, fault, write_at}
use open_wrt_sdk.Encode.Write.{write_front}
use open_wrt_sdk.Server.{failed, bytes, overwrite}
use open_wrt_sdk.Server.Buffers.{length-take_at}
use open_wrt_sdk.Serial.{
  buffer_size, read_size, Exchange, select_failed, not_ready, ready, request_port, poll,
}

-- An exchange that brings nothing: no descriptor that is ready, no bytes, and a result of at most 0.
abbrev pub Fails : Exchange → Type 0
Fails select_failed = Unit
Fails (not_ready found) = (ℤ.pos 0 <ℤ found) ≡ false
Fails (ready failed) = Unit
Fails (ready (bytes input)) = length input ≡ 0

request_port_ok :
    (input answer : List ℕ)
    → 0 < length input
    → length input ≤ buffer_size
    → request_port (ready (bytes input)) answer
      ≡ ok (ℤ.pos (length input), overwrite answer 0 input)
unfolding request_port
request_port_ok input answer some_bytes fits =
    let whole = take_all read_size input (omega arith) in
    let more : (length input == 0) ≡ false = ground arith in
    let room = write_front (zeros buffer_size) input (omega (arith, length-zeros buffer_size)) in
    let copied = take-append input (drop (length input) (zeros buffer_size)) (length input) refl in
    rw (whole, more, room, copied) refl

request_port-Fails :
    (e : Exchange) (answer : List ℕ)
    → Fails e
    → (len : ℤ) × (request_port e answer ≡ ok (len, answer)) × ((ℤ.pos 0 <ℤ len) ≡ false)
unfolding request_port
request_port-Fails select_failed answer h = (ℤ.negsuc 0, refl, refl)
request_port-Fails (not_ready found) answer h = (found, refl, h)
request_port-Fails (ready failed) answer h = (ℤ.negsuc 0, refl, refl)
request_port-Fails (ready (bytes [])) answer h = (ℤ.negsuc 0, refl, refl)
request_port-Fails (ready (bytes (b ∷ input))) answer h = absurd (omega (arith, h))

poll_step :
    (e : Exchange) (exchanges : List Exchange) (answer answer' : List ℕ) (len : ℤ)
    → request_port e answer ≡ ok (len, answer')
    → poll (e ∷ exchanges) answer
      ≡ (if ℤ.pos 0 <ℤ len then ok (len, answer', exchanges) else poll exchanges answer')
unfolding poll
poll_step e exchanges answer answer' len run = rw run refl

poll_ready :
    (input answer : List ℕ) (later : List Exchange)
    → 0 < length input
    → length input ≤ buffer_size
    → poll (ready (bytes input) ∷ later) answer
      ≡ ok (ℤ.pos (length input), overwrite answer 0 input, later)
poll_ready input answer later some_bytes fits =
    poll_step (ready (bytes input)) later answer (overwrite answer 0 input) (ℤ.pos (length input))
      (request_port_ok input answer some_bytes fits)
    ∙ rw (positive (length input) some_bytes) refl
  where
    positive : (n : ℕ) → 0 < n → (ℤ.pos 0 <ℤ ℤ.pos n) ≡ true
    positive n h = ground arith

-- The requests for the status go on behind any number of exchanges that bring nothing, and the first
-- that brings 1 to 55 bytes ends them: these bytes then stand at the front of the answer.
pub poll_lem :
    (failures later : List Exchange) (input answer : List ℕ)
    → All Fails failures
    → 0 < length input
    → length input ≤ buffer_size
    → poll (failures ++ ready (bytes input) ∷ later) answer
      ≡ ok (ℤ.pos (length input), overwrite answer 0 input, later)
poll_lem [] later input answer h some_bytes fits = poll_ready input answer later some_bytes fits
poll_lem (e ∷ failures) later input answer h some_bytes fits =
    let (len, run, none_found) = request_port-Fails e answer h.0 in
    poll_step e (failures ++ ready (bytes input) ∷ later) answer answer len run
    ∙ rw none_found (poll_lem failures later input answer h.1 some_bytes fits)

-- More bytes than the array has room for.
pub write_at_overrun :
    (chars packet : List ℕ) (i : ℕ)
    → i ≤ length packet
    → length packet < i + length chars
    → write_at packet i chars ≡ fault
unfolding write_at
write_at_overrun [] packet i inside long = absurd (omega arith)
write_at_overrun (b ∷ chars) packet i inside long = elim (Bool-cases (ltb i (length packet))) [
  | inl room ↦
      let size = length-set packet i b in
      rw
        (
          room,
          write_at_overrun chars (set packet i b) (i + 1) (omega (tests, size, room))
              (omega (arith, size, long)),
        )
        refl
  | inr full ↦ rw full refl
]

-- Where the device sends 56 bytes or more, `request_port` writes behind its buffer.
pub request_port_overrun :
    (input answer : List ℕ)
    → read_size ≤ length input
    → request_port (ready (bytes input)) answer ≡ fault
unfolding request_port
request_port_overrun input answer long =
    let size = length-take_at read_size input long in
    let more : (length (take read_size input) == 0) ≡ false = rw size refl in
    let behind =
      write_at_overrun (take read_size input) (zeros buffer_size) 0
        (omega (arith, size, length-zeros buffer_size))
        (omega (arith, size, length-zeros buffer_size)) in
    rw (more, behind) refl
