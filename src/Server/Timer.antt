-- ===== src/Server/Timer.antt =====
-- The time of the loop of `run_snmpd` in src/mini_snmpd.c, and `ticks_since` of src/utils.c. `float`
-- is a parameter: the whole number that a whole number becomes as a `float`.
pub mod Exact
use open_wrt_sdk.Common.{
  ℕ, ◌+◌, ◌-◌, ◌*◌, ◌/◌, ◌%◌, ◌^◌, Bool, true, false, ltb, leb, ◌==◌, ◌&&◌, ◌||◌, if◌then◌else◌, ℤ,
  ◌<ℤ◌, ◌=ℤ◌, pos_part, Option, none, some,
}
use open_wrt_sdk.Outcome.{Outcome, ok, fault, ◌>>=◌}

-- `struct timeval`
pub record Time : Type 0 where
  pub tv_sec : ℕ
  pub tv_usec : ℕ

-- `g_timeout`, in 1/100 s.
abbrev pub g_timeout : ℕ
g_timeout = 100

abbrev pub is_before : Time → Time → Bool
is_before a b = ltb a.tv_sec b.tv_sec || (a.tv_sec == b.tv_sec && ltb a.tv_usec b.tv_usec)

-- The sum in `double`, which is exact, as a `float`. In the first second the seconds are -1.
unfoldable pub float_ticks : (ℕ → ℕ) → ℕ → ℕ → ℕ
float_ticks float seconds hundredths =
    if seconds == 0
    then float (float hundredths - float 1 * 100)
    else float (float (seconds - 1) * 100 + float hundredths)

-- The two comparisons and the conversion to `int`: `INT_MAX` is 2 ^ 31 as a `float`, and that
-- number itself fits no `int`.
unfoldable pub clamp : ℕ → Outcome ℤ
clamp ticks =
    if ltb (2 ^ 31) ticks
    then ok (ℤ.pos (2 ^ 31 - 1))
    else if ticks == 2 ^ 31
    then fault
    else ok (ℤ.pos ticks)

-- The ticks, and `tv_now`: where `gettimeofday` fails, it stays as it is.
unfoldable pub ticks_since : (ℕ → ℕ) → Time → Option Time → Time → Outcome (ℤ × Time)
ticks_since float last none now = ok (ℤ.negsuc 0, now)
ticks_since float last (some clock) now =
    if is_before clock last
    then ok (ℤ.negsuc 0, clock)
    else clamp (
        float_ticks float (clock.tv_sec - last.tv_sec)
          ((clock.tv_usec + 1000000 - last.tv_usec) / 10000))
      >>= λ ticks. ok (ticks, clock)

-- `tv_last`, `tv_now` and `tv_sleep`.
pub record Timer : Type 0 where
  pub last : Time
  pub now : Time
  pub sleep : Time

abbrev pub sleep_of : ℕ → Time
sleep_of ticks = record { tv_sec = ticks / 100; tv_usec = ticks % 100 * 10000 }

-- What follows the call of `ticks_since`.
unfoldable pub next_timer : ℤ → Time → Timer → Bool × Timer
next_timer ticks now t =
    if ticks <ℤ ℤ.pos 0 || leb g_timeout (pos_part ticks)
    then (true, record { last = now; now = now; sleep = sleep_of g_timeout })
    else (false, record { last = t.last; now = now; sleep = sleep_of (g_timeout - pos_part ticks) })

-- Whether the update of this round is a full one, and the times behind it.
unfoldable pub tick : (ℕ → ℕ) → Option Time → Timer → Outcome (Bool × Timer)
tick float clock t = do
  (ticks, now) ← ticks_since float t.last clock t.now
  ok (next_timer ticks now t)

-- In front of the loop. Where `gettimeofday` fails, `memset` clears as many bytes of `tv_sleep` as a
-- pointer has: the seconds, and not the microseconds.
unfoldable pub first_timer : Option Time → Timer → Timer
first_timer none t = record t {
  last = record { tv_sec = 0; tv_usec = 0 };
  sleep = record t.sleep { tv_sec = 0 };
}
first_timer (some clock) t = record t { last = clock; sleep = sleep_of g_timeout }
