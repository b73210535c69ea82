-- ===== src/Encode/Write.antt =====
-- The packet buffer while it is filled from its end: `put` grows what is written.
use open_wrt_sdk.Common.{
  ℕ, zero, suc, ◌+◌, ◌-◌, ◌≤◌, ◌<◌, ◌≡◌, refl, sym, ap, ◌∙◌, List, [], ◌∷◌, ◌++◌, append_assoc,
  length, length-append, length-drop, set, drop, take, arith, ltb, leb, le→leb, leb→le, not-leb→lt,
  tests, le→not-ltb, Bool-cases, inl, inr, true, false,
}
use open_wrt_sdk.Types.{max_packet_size}
use open_wrt_sdk.Outcome.{ok, fail, write_at, Answers}
use open_wrt_sdk.Encode.{place_behind, put}

set_between :
    (front back : List ℕ) (old b i : ℕ)
    → i ≡ length front
    → set (front ++ old ∷ back) i b ≡ front ++ b ∷ back
set_between [] back old b zero e = refl
set_between [] back old b (suc i) e = absurd (omega arith)
set_between (x ∷ front) back old b zero e = absurd (omega arith)
set_between (x ∷ front) back old b (suc i) e =
    ap (◌∷◌ x) (set_between front back old b i (omega arith))

-- Bytes written over as many others.
write_between :
    (front old back bytes : List ℕ) (i : ℕ)
    → i ≡ length front
    → length old ≡ length bytes
    → write_at (front ++ (old ++ back)) i bytes ≡ ok (front ++ (bytes ++ back))
unfolding write_at
write_between front [] back [] i e k = refl
write_between front [] back (b ∷ bytes) i e k = absurd (omega arith)
write_between front (x ∷ old) back [] i e k = absurd (omega arith)
write_between front (x ∷ old) back (b ∷ bytes) i e k =
    rw (inside, set_between front (old ++ back) x b i e)
      (rw (append_assoc front (b ∷ []) (old ++ back), append_assoc front (b ∷ []) (bytes ++ back))
        at
        (write_between (front ++ b ∷ []) old back bytes (i + 1)
          (omega (arith, length-append front (b ∷ []))) (omega arith)))
  where
    inside : ltb i (length (front ++ x ∷ (old ++ back))) ≡ true
    inside = omega (tests, length-append front (x ∷ (old ++ back)))

pub take-append-drop : (n : ℕ) (xs : List ℕ) → take n xs ++ drop n xs ≡ xs
take-append-drop zero xs = refl
take-append-drop (suc n) [] = refl
take-append-drop (suc n) (x ∷ xs) = ap (◌∷◌ x) (take-append-drop n xs)

pub length-take_le : (n : ℕ) (xs : List ℕ) → n ≤ length xs → length (take n xs) ≡ n
length-take_le zero xs h = refl
length-take_le (suc n) [] h = absurd (omega arith)
length-take_le (suc n) (x ∷ xs) h = ap suc (length-take_le n xs (omega arith))

-- Bytes written in front of an array that has room for them.
pub write_front :
    (buffer bytes : List ℕ)
    → length bytes ≤ length buffer
    → write_at buffer 0 bytes ≡ ok (bytes ++ drop (length bytes) buffer)
write_front buffer bytes h = rw (take-append-drop (length bytes) buffer) at (
    write_between [] (take (length bytes) buffer) (drop (length bytes) buffer) bytes 0 refl
      (length-take_le (length bytes) buffer h))

-- The buffer is full size, and from `pos` on it holds just `body`.
abbrev pub Written : List ℕ → List ℕ × ℕ → Type 0
Written body (packet, at) =
    (front : List ℕ) × (packet ≡ front ++ body)
    × (length front ≡ at)
    × (length front + length body ≡ max_packet_size)

put_fits :
    (len : ℕ) (bytes body : List ℕ) (at : List ℕ × ℕ)
    → length bytes ≡ len
    → Written body at
    → len ≤ at.1
    → (at' : List ℕ × ℕ) × (put len bytes at ≡ ok at') × Written (bytes ++ body) at'
unfolding put place_behind
put_fits len bytes body (packet, at) e w h = (
  (kept ++ (bytes ++ body), at - len),
  rw
      (
        le→leb len at h,
        le→not-ltb at len h,
        whole,
        write_between kept old body bytes (at - len) (sym kept_length) old_length,
      )
      refl,
  (kept, refl, kept_length, omega (arith, kept_length, w.2, w.3, length-append bytes body)),
)
  where
    kept : List ℕ
    kept = take (at - len) w.0

    old : List ℕ
    old = drop (at - len) w.0

    kept_length : length kept ≡ at - len
    kept_length = length-take_le (at - len) w.0 (omega (arith, w.2))

    old_length : length old ≡ length bytes
    old_length = omega (arith, length-drop (at - len) w.0, w.2)

    whole : packet ≡ kept ++ (old ++ body)
    whole =
        w.1
        ∙ sym (
            sym (append_assoc kept old body)
            ∙ ap (λ l. l ++ body) (take-append-drop (at - len) w.0))

put_full :
    (len : ℕ) (bytes : List ℕ) (at : List ℕ × ℕ) → leb len at.1 ≡ false → put len bytes at ≡ fail
unfolding put
put_full len bytes (packet, at) e = rw e

-- `put` succeeds exactly when there is room, and then the bytes stand in front of what was there.
pub put-Answers :
    (len : ℕ) (bytes body : List ℕ) (at : List ℕ × ℕ)
    → length bytes ≡ len
    → Written body at
    → Answers
        (Written (bytes ++ body))
        (max_packet_size < length (bytes ++ body))
        (put len bytes at)
put-Answers len bytes body at e w = elim (Bool-cases (leb len at.1)) [
  | inl room ↦
      let (at', run, w') = put_fits len bytes body at e w (leb→le len at.1 room) in rw run w'
  | inr full ↦
      rw (put_full len bytes at full)
        (omega (arith, not-leb→lt len at.1 full, w.2, w.3, length-append bytes body))
]
