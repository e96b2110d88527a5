-- ===== src/RateLimit/Retry.antt =====
-- `RateLimiterDecorator`: the loop of its wrapper. The clock gives the time of each round.
use shutilspy.Common.{
  ℕ, zero, suc, ◌+◌, ◌-◌, ◌≤◌, ◌<◌, ◌≡◌, inl, inr, Bool, true, false, Option, none, some, arith,
  if◌then◌else◌, Bool-cases,
}
use shutilspy.Common.Int.{ℤ, pos}
use shutilspy.RateLimit.{RateLimiter, sleep_time, is_zero}

pub record Decorator : Type 0 where
  pub rate_limiter : RateLimiter
  pub sleep_and_retry : Bool
  pub raise_exception : Bool

pub data Outcome : Type 0 where
  called : Outcome
  raised : ℤ → Outcome
  skipped : Outcome

-- The wrapper from round `k` on, with fuel for the loop: what happened, the limiter, and the number
-- of sleeps.
unfoldable pub wrapper : ℕ → (ℕ → ℕ) → ℕ → Decorator → Option (Outcome × RateLimiter × ℕ)
unfolding sleep_time
wrapper zero clock k d = none
wrapper (suc fuel) clock k d =
    let (r, t) = sleep_time (clock k) d.rate_limiter in
    let again = wrapper fuel clock (k + 1) (record d { rate_limiter = r }) in
    if is_zero t
    then some (called, r, k)
    else if d.sleep_and_retry
    then again
    else some ((if d.raise_exception then raised t else skipped), r, k)

second_round :
    (now now' : ℕ) (r : RateLimiter)
    → 0 < r.calls
    → is_zero (sleep_time now r).1 ≡ false
    → ((w : ℕ) → (sleep_time now r).1 ≡ pos w → now + w ≤ now')
    → is_zero (sleep_time now' (sleep_time now r).0).1 ≡ true
unfolding sleep_time
second_round now now' r positive h sleeps = ground (arith, sleeps (r.period + r.last_refill - now))

-- With `sleep_and_retry`, a sleep that lasts at least as long as asked, and no other user of the
-- limiter, two rounds are enough: the function is called, after at most one sleep.
pub wrapper-called :
    (fuel : ℕ) (clock : ℕ → ℕ) (d : Decorator)
    → d.sleep_and_retry ≡ true
    → 0 < d.rate_limiter.calls
    → ((w : ℕ) → (sleep_time (clock 0) d.rate_limiter).1 ≡ pos w → clock 0 + w ≤ clock 1)
    → (r : RateLimiter) × (n : ℕ) × (wrapper (suc (suc fuel)) clock 0 d ≡ some (called, r, n))
      × (n ≤ 1)
unfolding wrapper
wrapper-called fuel clock d retrying positive sleeps =
    elim (Bool-cases (is_zero (sleep_time (clock 0) d.rate_limiter).1)) [
      | inl e ↦ ((sleep_time (clock 0) d.rate_limiter).0, 0, rw e, omega arith)
      | inr e ↦
          let again = second_round (clock 0) (clock 1) d.rate_limiter positive e sleeps in
          (
            (sleep_time (clock 1) (sleep_time (clock 0) d.rate_limiter).0).0,
            1,
            rw (e, retrying, again),
            omega arith,
          )
    ]
