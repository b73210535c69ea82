-- ===== src/System/Whole.antt =====
-- The steps of the serial thread from one status request to the next come to one turn of its loop.
use open_wrt_sdk.Common.{ℕ, suc, ◌≡◌, refl, sym, ap, fun_ext, ◌∙◌, List, [], ◌∷◌, length, ℤ}
use open_wrt_sdk.Outcome.{Outcome, ok, fail, fault, hang, ◌>>=◌, ◌>>◌, >>=-assoc}
use open_wrt_sdk.Sdk.{SdkParam}
use open_wrt_sdk.Sdk.Parse.{parse_status}
use open_wrt_sdk.Serial.{Meets, request_port, poll, show_answer, turn}
use open_wrt_sdk.Serial.Fields.{Field, write_field, write_fields, fields, write_fields-parse_status}
use open_wrt_sdk.System.{System, asking, writing, serial_at, serial_steps}

-- The system with what the thread has at the end of a turn.
abbrev pub with_turn : System → SdkParam × List ℕ → System
with_turn s (sdk, answer) = record s { sdk = sdk; answer = answer; place = asking }

bind_ok : {A : Type 0} (m : Outcome A) → (m >>= λ a. ok a) ≡ m
bind_ok (ok a) = refl
bind_ok fail = refl
bind_ok fault = refl
bind_ok hang = refl

-- What is made of the result moves behind the calls.
module _ {A B C : Type 0} (f : A → B) (g : B → C) where
  last_call :
      (m : Outcome (Unit {0})) (n : Outcome A)
      → (m >> (n >>= λ a. ok (g (f a)))) ≡ ((m >> (n >>= λ a. ok (f a))) >>= λ b. ok (g b))
  last_call (ok tt) (ok a) = refl
  last_call (ok tt) fail = refl
  last_call (ok tt) fault = refl
  last_call (ok tt) hang = refl
  last_call fail n = refl
  last_call fault n = refl
  last_call hang n = refl

  two_calls :
      (m : Outcome (Unit {0})) (n : Outcome A) (m' : A → Outcome (Unit {0})) (n' : A → Outcome A)
      → (m >> (n >>= λ a. (m' a >> (n' a >>= λ a'. ok (g (f a'))))))
        ≡ ((m >> (n >>= λ a. (m' a >> (n' a >>= λ a'. ok (f a'))))) >>= λ b. ok (g b))
  two_calls (ok tt) (ok a) m' n' = last_call (m' a) (n' a)
  two_calls (ok tt) fail m' n' = refl
  two_calls (ok tt) fault m' n' = refl
  two_calls (ok tt) hang m' n' = refl
  two_calls fail n m' n' = refl
  two_calls fault n m' n' = refl
  two_calls hang n m' n' = refl

module _ (strtol : List ℕ → Outcome ℕ) (m : Meets) where
  -- The writes, then the step behind them.
  serial_steps-write_fields :
      (fs : List Field) (len : ℤ) (s : System)
      → serial_steps strtol m (suc (length fs)) (record s { place = writing fs len }) ≡ (
          write_fields strtol s.answer fs s.sdk >>= λ sdk.
          serial_at strtol m (writing [] len) (record s { sdk = sdk; place = writing [] len }))
  unfolding serial_steps serial_at write_fields
  serial_steps-write_fields [] len s =
      bind_ok (serial_at strtol m (writing [] len) (record s { place = writing [] len }))
  serial_steps-write_fields (f ∷ fs) len s =
      >>=-assoc (write_field strtol s.answer f s.sdk) _ (serial_steps strtol m (suc (length fs)))
      ∙ ap (λ k. write_field strtol s.answer f s.sdk >>= k)
          (fun_ext λ sdk. serial_steps-write_fields fs len (record s { sdk = sdk }))
      ∙ sym (>>=-assoc (write_field strtol s.answer f s.sdk) (write_fields strtol s.answer fs) _)

  -- What stands behind the writes.
  messages : ℤ → List ℕ → SdkParam → Outcome (SdkParam × List ℕ)
  messages len answer sdk =
      show_answer len answer
      >> (request_port m.second answer >>= λ second.
          (show_answer second.0 second.1
            >> (request_port m.third second.1 >>= λ third. ok (sdk, third.1))))

  serial_at-messages :
      (len : ℤ) (s : System) (sdk : SdkParam)
      → serial_at strtol m (writing [] len) (record s { sdk = sdk; place = writing [] len })
        ≡ (messages len s.answer sdk >>= λ r. ok (with_turn s r))
  unfolding serial_at messages
  serial_at-messages len s sdk =
      two_calls (λ third. (sdk, third.1)) (with_turn s) (show_answer len s.answer)
        (request_port m.second s.answer) (λ second. show_answer second.0 second.1)
        (λ second. request_port m.third second.1)

  serial_steps-parse_status :
      (len : ℤ) (s : System)
      → length s.sdk.dry_contact ≡ 20
      → serial_steps strtol m 25 (record s { place = writing fields len }) ≡ (
          (parse_status strtol s.answer s.sdk >>= messages len s.answer) >>= λ r.
          ok (with_turn s r))
  serial_steps-parse_status len s size =
      serial_steps-write_fields fields len s
      ∙ ap
          (λ w. w >>= λ sdk.
            serial_at strtol m (writing [] len) (record s { sdk = sdk; place = writing [] len }))
          (write_fields-parse_status strtol s.answer s.sdk size)
      ∙ ap (λ k. parse_status strtol s.answer s.sdk >>= k)
          (fun_ext λ sdk. serial_at-messages len s sdk)
      ∙ sym (>>=-assoc (parse_status strtol s.answer s.sdk) (messages len s.answer) _)

  first_step :
      (s : System)
      → serial_steps strtol m 26 (record s { place = asking })
        ≡ (serial_at strtol m asking (record s { place = asking }) >>= serial_steps strtol m 25)
  unfolding serial_steps
  first_step s = refl

  -- From where the thread stands in front of its requests, with the 20 contacts of the struct, its
  -- next 26 steps, if nothing comes between them, are one turn of its loop: they come to the same
  -- values, or to the same failure.
  pub serial_steps-turn :
      (s : System)
      → length s.sdk.dry_contact ≡ 20
      → serial_steps strtol m 26 (record s { place = asking })
        ≡ (turn strtol m.status m.second m.third s.sdk s.answer >>= λ r. ok (with_turn s r))
  unfolding serial_at turn messages
  serial_steps-turn s size =
      first_step s
      ∙ >>=-assoc (poll m.status s.answer) _ (serial_steps strtol m 25)
      ∙ ap (λ k. poll m.status s.answer >>= k)
          (fun_ext λ r. serial_steps-parse_status r.0 (record s { answer = r.1 }) size)
      ∙ sym (>>=-assoc (poll m.status s.answer) _ (λ r. ok (with_turn s r)))
