-- ===== src/Outcome.antt =====
-- What a call of the C code comes to. Also arrays that are read and written with their bounds.
pub mod Holds
use open_wrt_sdk.Common.{
  ℕ, ◌+◌, ◌<◌, ◌≡◌, ◌≢◌, refl, Bool, true, false, List, [], ◌∷◌, get_or, length, ltb, set,
  if◌then◌else◌,
}

-- `ok` returns a result, `fail` is `return -1`, `fault` is an access outside an array, and `hang`
-- says that the rounds granted to a loop were used up.
pub data Outcome {ℓ} (A : Type ℓ) : Type ℓ where
  ok : A → Outcome A
  fail : Outcome A
  fault : Outcome A
  hang : Outcome A

infixl 5 ◌>>=◌ ◌>>◌
abbrev pub ◌>>=◌ {ℓ κ} : {A : Type ℓ} {B : Type κ} → Outcome A → (A → Outcome B) → Outcome B
ok a >>= f = f a
fail >>= f = fail
fault >>= f = fault
hang >>= f = hang

abbrev pub ◌>>◌ {ℓ} : {B : Type ℓ} → Outcome (Unit {0}) → Outcome B → Outcome B
m >> k = m >>= λ _. k

-- `if (!b) return -1;`
abbrev pub require : Bool → Outcome (Unit {0})
require true = ok tt
require false = fail

-- `packet[pos]`
unfoldable pub byte_at : List ℕ → ℕ → Outcome ℕ
byte_at packet pos = if ltb pos (length packet) then ok (get_or packet pos 0) else fault

-- The bytes go to `packet[i]`, `packet[i + 1]` and so on.
unfoldable pub write_at : List ℕ → ℕ → List ℕ → Outcome (List ℕ)
write_at packet i [] = ok packet
write_at packet i (b ∷ bs) =
    let rest = write_at (set packet i b) (i + 1) bs in if ltb i (length packet) then rest else fault

pub >>=-assoc {ℓ₁ ℓ₂ ℓ₃} :
    {A : Type ℓ₁} {B : Type ℓ₂} {C : Type ℓ₃} (m : Outcome A) (f : A → Outcome B)
    (g : B → Outcome C)
    → ((m >>= f) >>= g) ≡ (m >>= λ a. (f a >>= g))
>>=-assoc (ok a) f g = refl
>>=-assoc fail f g = refl
>>=-assoc fault f g = refl
>>=-assoc hang f g = refl

-- What a result satisfies where the call may fail or fault, but ends.
abbrev pub Ensures {ℓ} : {A : Type ℓ} → (A → Type 0) → Outcome A → Type 0
Ensures P (ok a) = P a
Ensures P fail = Unit
Ensures P fault = Unit
Ensures P hang = ⊥

-- What a result satisfies where the call may fail, but never leaves an array and ends.
abbrev pub Safely {ℓ} : {A : Type ℓ} → (A → Type 0) → Outcome A → Type 0
Safely P (ok a) = P a
Safely P fail = Unit
Safely P fault = ⊥
Safely P hang = ⊥

module _ {ℓ κ} {A : Type ℓ} {B : Type κ} where
  pub Ensures-bind :
      (P : A → Type 0) (Q : B → Type 0) (m : Outcome A) (f : A → Outcome B)
      → Ensures P m
      → ((a : A) → P a → Ensures Q (f a))
      → Ensures Q (m >>= f)
  Ensures-bind P Q (ok a) f h k = k a h
  Ensures-bind P Q fail f h k = tt
  Ensures-bind P Q fault f h k = tt
  Ensures-bind P Q hang f h k = h

  pub Safely-bind :
      (P : A → Type 0) (Q : B → Type 0) (m : Outcome A) (f : A → Outcome B)
      → Safely P m
      → ((a : A) → P a → Safely Q (f a))
      → Safely Q (m >>= f)
  Safely-bind P Q (ok a) f h k = k a h
  Safely-bind P Q fail f h k = tt
  Safely-bind P Q fault f h k = h
  Safely-bind P Q hang f h k = h

pub Ensures-of_Safely {ℓ} : {A : Type ℓ} (P : A → Type 0) (m : Outcome A) → Safely P m → Ensures P m
Ensures-of_Safely P (ok a) h = h
Ensures-of_Safely P fail h = tt
Ensures-of_Safely P fault h = tt
Ensures-of_Safely P hang h = h

-- A test that must pass gives its equation to what follows.
module _ {κ} {B : Type κ} where
  pub Ensures-require :
      (Q : B → Type 0) (b : Bool) (m : Outcome B)
      → (b ≡ true → Ensures Q m)
      → Ensures Q (require b >> m)
  Ensures-require Q true m k = k refl
  Ensures-require Q false m k = tt

  pub Safely-require :
      (Q : B → Type 0) (b : Bool) (m : Outcome B)
      → (b ≡ true → Safely Q m)
      → Safely Q (require b >> m)
  Safely-require Q true m k = k refl
  Safely-require Q false m k = tt

pub Safely-of_Ensures {ℓ} :
    {A : Type ℓ} (P : A → Type 0) (m : Outcome A) → Ensures P m → m ≢ fault → Safely P m
Safely-of_Ensures P (ok a) h n = h
Safely-of_Ensures P fail h n = tt
Safely-of_Ensures P fault h n = n refl
Safely-of_Ensures P hang h n = h

pub Ensures-weaken {ℓ} :
    {A : Type ℓ} (P Q : A → Type 0) (m : Outcome A)
    → ((a : A) → P a → Q a)
    → Ensures P m
    → Ensures Q m
Ensures-weaken P Q (ok a) k h = k a h
Ensures-weaken P Q fail k h = tt
Ensures-weaken P Q fault k h = tt
Ensures-weaken P Q hang k h = h

-- What a result satisfies, and what holds where the call returns -1; it never leaves an array and
-- ends.
abbrev pub Answers {ℓ} : {A : Type ℓ} → (A → Type 0) → Type 0 → Outcome A → Type 0
Answers P Q (ok a) = P a
Answers P Q fail = Q
Answers P Q fault = ⊥
Answers P Q hang = ⊥

pub Answers-bind {ℓ κ} :
    {A : Type ℓ} {B : Type κ} (P : A → Type 0) (P' : B → Type 0) (Q Q' : Type 0) (m : Outcome A)
    (f : A → Outcome B)
    → Answers P Q m
    → (Q → Q')
    → ((a : A) → P a → Answers P' Q' (f a))
    → Answers P' Q' (m >>= f)
Answers-bind P P' Q Q' (ok a) f h q k = k a h
Answers-bind P P' Q Q' fail f h q k = q h
Answers-bind P P' Q Q' fault f h q k = h
Answers-bind P P' Q Q' hang f h q k = h

-- What a result satisfies where there is one.
abbrev pub Whenever {ℓ} : {A : Type ℓ} → (A → Type 0) → Outcome A → Type 0
Whenever P (ok a) = P a
Whenever P fail = Unit
Whenever P fault = Unit
Whenever P hang = Unit

module _ {ℓ κ} {A : Type ℓ} {B : Type κ} where
  pub Whenever-bind :
      (P : A → Type 0) (Q : B → Type 0) (m : Outcome A) (f : A → Outcome B)
      → Whenever P m
      → ((a : A) → P a → Whenever Q (f a))
      → Whenever Q (m >>= f)
  Whenever-bind P Q (ok a) f h k = k a h
  Whenever-bind P Q fail f h k = tt
  Whenever-bind P Q fault f h k = tt
  Whenever-bind P Q hang f h k = tt

pub Whenever-any {ℓ} : {A : Type ℓ} (m : Outcome A) → Whenever (λ a. Unit) m
Whenever-any (ok a) = tt
Whenever-any fail = tt
Whenever-any fault = tt
Whenever-any hang = tt

pub Whenever-of_Safely {ℓ} :
    {A : Type ℓ} (P : A → Type 0) (m : Outcome A) → Safely P m → Whenever P m
Whenever-of_Safely P (ok a) h = h
Whenever-of_Safely P fail h = tt
Whenever-of_Safely P fault h = tt
Whenever-of_Safely P hang h = tt

pub Whenever-require {ℓ} :
    {B : Type ℓ} (Q : B → Type 0) (b : Bool) (m : Outcome B)
    → (b ≡ true → Whenever Q m)
    → Whenever Q (require b >> m)
Whenever-require Q true m h = h refl
Whenever-require Q false m h = tt

pub Whenever-weaken {ℓ} :
    {A : Type ℓ} (P Q : A → Type 0) (m : Outcome A)
    → ((a : A) → P a → Q a)
    → Whenever P m
    → Whenever Q m
Whenever-weaken P Q (ok a) k h = k a h
Whenever-weaken P Q fail k h = tt
Whenever-weaken P Q fault k h = tt
Whenever-weaken P Q hang k h = tt

pub Whenever-if {ℓ} :
    {A : Type ℓ} (P : A → Type 0) (b : Bool) (m n : Outcome A)
    → (b ≡ true → Whenever P m)
    → (b ≡ false → Whenever P n)
    → Whenever P (if b then m else n)
Whenever-if P true m n h k = h refl
Whenever-if P false m n h k = k refl
