-- ===== src/Tests/Text.antt =====
-- The text server at concrete values.
use open_wrt_sdk.Common.{
  ℕ, ◌+◌, ◌%◌, ◌≡◌, refl, List, [], ◌∷◌, All, arith, some, zeros, length-zeros,
}
use open_wrt_sdk.Outcome.{ok, fault, Safely}
use open_wrt_sdk.Server.{bytes, refused, accepted}
use open_wrt_sdk.Sdk.{SdkParam}
use open_wrt_sdk.Text.{get_optical, threadworker}
use open_wrt_sdk.Text.Accept.{IsListener, accept_turns, accept_turns-IsListener}
use open_wrt_sdk.Text.Number.{IsPrint, numbers, threadworker-numbers}
use open_wrt_sdk.Text.Lists.{threadworker_optical}

-- Prints the last digit.
abbrev print_digit : ℕ → List ℕ
print_digit word = (0x30 + word % 10) ∷ []

print_digit-IsPrint : IsPrint print_digit
print_digit-IsPrint = record {
  printed = λ word. ((omega arith, omega arith), tt);
  short = λ word. omega arith;
}

abbrev sdk : SdkParam
sdk = record {
  hw = 5;
  sw = 3;
  self_temp = 27;
  relay = 48;
  optical_relay = 0 ∷ 1 ∷ 0 ∷ 1 ∷ [];
  dry_contact =
      48 ∷ 49 ∷ 48 ∷ 48 ∷ 48 ∷ 49 ∷ 48 ∷ 48 ∷ 48 ∷ 48 ∷ 48 ∷ 49 ∷ 48 ∷ 48 ∷ 48 ∷ 48 ∷ 48 ∷ 48 ∷ 48
      ∷ 49 ∷ [];
}

threadworker-numbers_example :
    All (λ c. threadworker print_digit sdk (bytes c.0) ≡ ok (some (print_digit c.1))) (numbers sdk)
threadworker-numbers_example = threadworker-numbers print_digit sdk print_digit-IsPrint

threadworker_optical_example : threadworker print_digit sdk (bytes get_optical) ≡ fault
threadworker_optical_example = threadworker_optical print_digit sdk refl

-- Two connections, from the last thread on, and then a failure.
accept_turns-IsListener_example :
    Safely IsListener (accept_turns (accepted 5 ∷ accepted 6 ∷ refused ∷ []) (50, zeros 50))
accept_turns-IsListener_example =
    accept_turns-IsListener (accepted 5 ∷ accepted 6 ∷ refused ∷ []) (50, zeros 50)
      (omega arith, length-zeros 50)
