-- ===== src/Server/Timer/Exact.antt =====
-- What the times of the loop are, as long as a `float` is exact.
use open_wrt_sdk.Common.{
  ℕ, ◌+◌, ◌-◌, ◌*◌, ◌/◌, ◌^◌, ◌≤◌, ◌<◌, ◌≡◌, refl, ◌∙◌, true, false, leb, ◌==◌, ℤ, arith, none,
  some, Bool-cases, inl, inr, if◌then◌else◌,
}
use open_wrt_sdk.Outcome.{ok}
use open_wrt_sdk.Server.Timer.{
  Time, g_timeout, is_before, float_ticks, clamp, ticks_since, Timer, sleep_of, next_timer, tick,
}

-- A `float` holds whole numbers up to 2 ^ 24.
pub record IsFloat (float : ℕ → ℕ) : Type 0 where
  pub exact : (n : ℕ) → n ≤ 2 ^ 24 → float n ≡ n

pub record IsTime (t : Time) : Type 0 where
  pub usec : t.tv_usec < 1000000

abbrev pub microseconds : Time → ℕ
microseconds t = t.tv_sec * 1000000 + t.tv_usec

float_ticks_exact :
    (float : ℕ → ℕ) (seconds hundredths : ℕ)
    → IsFloat float
    → hundredths < 200
    → seconds * 100 + hundredths ≤ 2 ^ 24
    → 100 ≤ seconds * 100 + hundredths
    → float_ticks float seconds hundredths ≡ seconds * 100 + hundredths - 100
unfolding float_ticks
float_ticks_exact float seconds hundredths is h k l = elim (Bool-cases (seconds == 0)) [
  | inl first ↦
      let none_passed : seconds ≡ 0 = ground arith in
      rw (none_passed, is.exact 1 (omega arith), is.exact hundredths (omega arith))
        (is.exact (hundredths - 100) (omega arith) ∙ omega arith)
  | inr later ↦
      let some_passed : 1 ≤ seconds = ground arith in
      rw (later, is.exact (seconds - 1) (omega arith), is.exact hundredths (omega arith))
        (is.exact ((seconds - 1) * 100 + hundredths) (omega arith) ∙ omega arith)
]

clamp_small : (ticks : ℕ) → ticks < 2 ^ 24 → clamp ticks ≡ ok (ℤ.pos ticks)
unfolding clamp
clamp_small ticks h = ground arith

-- The ticks are the whole hundredths of a second between the two times, for up to 44 hours.
ticks_since_lem :
    (float : ℕ → ℕ) (last clock now : Time)
    → IsFloat float
    → IsTime last
    → IsTime clock
    → microseconds last ≤ microseconds clock
    → microseconds clock - microseconds last < 160000000000
    → ticks_since float last (some clock) now
      ≡ ok (ℤ.pos ((microseconds clock - microseconds last) / 10000), clock)
unfolding ticks_since
ticks_since_lem float last clock now is hl hc order near =
    let seconds = clock.tv_sec - last.tv_sec in
    let hundredths = (clock.tv_usec + 1000000 - last.tv_usec) / 10000 in
    let after : is_before clock last ≡ false = ground arith in
    let sum : seconds * 100 + hundredths - 100 ≡ (microseconds clock - microseconds last) / 10000 =
      omega arith in
    let exact : float_ticks float seconds hundredths ≡ seconds * 100 + hundredths - 100 =
      float_ticks_exact float seconds hundredths is (omega arith) (omega arith) (omega arith) in
    rw (after, exact)
      (rw (clamp_small (seconds * 100 + hundredths - 100) (omega arith)) (rw sum refl))

-- The hundredths of a second since the last full update.
abbrev pub age : Time → Time → ℕ
age last clock = (microseconds clock - microseconds last) / 10000

abbrev pub ticks_of : Time → ℕ
ticks_of t = t.tv_sec * 100 + t.tv_usec / 10000

next_timer-due :
    (n : ℕ) (now : Time) (t : Timer)
    → leb g_timeout n ≡ true
    → next_timer (ℤ.pos n) now t
      ≡ (true, record { last = now; now = now; sleep = sleep_of g_timeout })
unfolding next_timer
next_timer-due n now t h = ground arith

next_timer-early :
    (n : ℕ) (now : Time) (t : Timer)
    → leb g_timeout n ≡ false
    → next_timer (ℤ.pos n) now t
      ≡ (false, record { last = t.last; now = now; sleep = sleep_of (g_timeout - n) })
unfolding next_timer
next_timer-early n now t h = ground arith

-- A round makes a full update just where at least a second has passed since the last full one,
-- which this one then is; and the loop sleeps up to the end of the second behind the last full
-- update. The clock can be read and has not gone back, the difference is less than 160000 seconds
-- (44 hours), and a `float` is exact up to 2 ^ 24.
pub tick_lem :
    (float : ℕ → ℕ) (clock : Time) (t : Timer)
    → IsFloat float
    → IsTime t.last
    → IsTime clock
    → microseconds t.last ≤ microseconds clock
    → microseconds clock - microseconds t.last < 160000000000
    → (t' : Timer) × (tick float (some clock) t ≡ ok (leb g_timeout (age t.last clock), t'))
      × (t'.last ≡ (if leb g_timeout (age t.last clock) then clock else t.last))
      × (age t'.last clock + ticks_of t'.sleep ≡ g_timeout)
unfolding tick
tick_lem float clock t is hl hc order near =
    let ticks = ticks_since_lem float t.last clock t.now is hl hc order near in
    elim (Bool-cases (leb g_timeout (age t.last clock))) [
      | inl due ↦
          let next = next_timer-due (age t.last clock) clock t due in
          (
            record { last = clock; now = clock; sleep = sleep_of g_timeout },
            rw ticks (rw (next, due) refl),
            rw due refl,
            omega arith,
          )
      | inr early ↦
          let next = next_timer-early (age t.last clock) clock t early in
          let young : age t.last clock < g_timeout = ground arith in
          (
            record { last = t.last; now = clock; sleep = sleep_of (g_timeout - age t.last clock) },
            rw ticks (rw (next, early) refl),
            rw early refl,
            omega (arith, young),
          )
    ]

-- A clock that has gone back, or that cannot be read, makes the update a full one.
tick_backwards :
    (float : ℕ → ℕ) (clock : Time) (t : Timer)
    → is_before clock t.last ≡ true
    → tick float (some clock) t
      ≡ ok (true, record { last = clock; now = clock; sleep = sleep_of g_timeout })
unfolding tick ticks_since next_timer
tick_backwards float clock t h = rw h refl

tick_unread :
    (float : ℕ → ℕ) (t : Timer)
    → tick float none t
      ≡ ok (true, record { last = t.now; now = t.now; sleep = sleep_of g_timeout })
unfolding tick ticks_since next_timer
tick_unread float t = refl
