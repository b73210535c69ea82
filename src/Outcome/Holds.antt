-- ===== src/Outcome/Holds.antt =====
-- Where an array holds given bytes: how the codecs' round trips speak of a packet.
use open_wrt_sdk.Common.{
  ℕ, suc, ◌+◌, ◌≡◌, ◌∙◌, List, [], ◌∷◌, ◌++◌, append_assoc, length, arith, length-append,
  get_or-append,
}
use open_wrt_sdk.Outcome.{ok, byte_at}
use native.Mathlib.Nat.{add-zero}

-- The array has these bytes from `pos` on.
abbrev pub Holds : List ℕ → ℕ → List ℕ → Type 0
Holds packet pos [] = Unit
Holds packet pos (b ∷ bs) = (byte_at packet pos ≡ ok b) × Holds packet (pos + 1) bs

pub Holds-append :
    (packet : List ℕ) (pos : ℕ) (xs ys : List ℕ)
    → Holds packet pos (xs ++ ys)
    → Holds packet pos xs × Holds packet (pos + length xs) ys
Holds-append packet pos [] ys h = (tt, rw add-zero h)
Holds-append packet pos (x ∷ xs) ys h =
    let e : pos + suc (length xs) ≡ pos + 1 + length xs = omega arith in
    let (hx, hy) = Holds-append packet (pos + 1) xs ys h.1 in ((h.0, hx), rw e hy)

pub byte_at-append :
    (front rest : List ℕ) (i : ℕ) → byte_at (front ++ rest) (length front + i) ≡ byte_at rest i
unfolding byte_at
byte_at-append front rest i = ground (arith, length-append front rest, get_or-append front rest i 0)

byte_at_head :
    (front rest : List ℕ) (b pos : ℕ) → pos ≡ length front → byte_at (front ++ b ∷ rest) pos ≡ ok b
byte_at_head front rest b pos e =
    let e' : pos ≡ length front + 0 = omega arith in
    rw e' (byte_at-append front (b ∷ rest) 0 ∙ first)
  where
    first : byte_at (b ∷ rest) 0 ≡ ok b
    first = unfold byte_at in ground arith

-- A packet holds each piece where it stands.
pub Holds-piece :
    (front bytes back : List ℕ) (pos : ℕ)
    → pos ≡ length front
    → Holds (front ++ (bytes ++ back)) pos bytes
Holds-piece front [] back pos e = tt
Holds-piece front (b ∷ bytes) back pos e = (
  byte_at_head front (bytes ++ back) b pos e,
  rw (append_assoc front (b ∷ []) (bytes ++ back)) at (
      Holds-piece (front ++ b ∷ []) bytes back (pos + 1)
        (omega (arith, length-append front (b ∷ [])))),
)
