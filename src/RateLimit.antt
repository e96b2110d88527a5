-- ===== src/RateLimit.antt =====
-- shutils/rate_limiter.py: `RateLimiter` and the decorator over it. Time is a count of clock
-- ticks, an argument of each call; the lock makes a call one step.
pub mod Window
pub mod Retry
mod Tests
use shutilspy.Common.{
  ℕ, zero, suc, ◌+◌, ◌-◌, ◌≤◌, ◌<◌, ◌≡◌, Bool, true, false, arith, ltb, leb, ◌==◌, if◌then◌else◌,
}
use shutilspy.Common.Int.{ℤ, pos, negsuc, pos_part, neg_part, sub_ℕ, ◌≤ℤ◌, ◌<ℤ◌, succ_ℤ, pred_ℤ}

pub record RateLimiter : Type 0 where
  pub calls : ℕ
  pub period : ℕ
  pub last_refill : ℕ
  pub tokens : ℕ

pub data Error : Type 0 where
  bad_calls bad_period : Error

pub data Result {ℓ} (A : Type ℓ) : Type ℓ where
  ok : A → Result A
  err : Error → Result A

-- `RateLimiter(calls, period)` at the time `now`.
unfoldable pub init : ℤ → ℤ → ℕ → Result RateLimiter
init (negsuc c) period now = err bad_calls
init (pos zero) period now = err bad_calls
init (pos (suc c)) (negsuc p) now = err bad_period
init (pos (suc c)) (pos p) now =
    ok (record { calls = suc c; period = p; last_refill = now; tokens = 0 })

-- `self.period - (current_time - self.last_refill)`.
abbrev pub period_remaining : ℕ → RateLimiter → ℤ
period_remaining now r = sub_ℕ (r.period + r.last_refill) now

-- Whether the window is over.
abbrev pub is_over : ℕ → RateLimiter → Bool
is_over now r = leb (r.period + r.last_refill) now

unfoldable pub refill : ℕ → RateLimiter → RateLimiter
refill now r = if is_over now r then record r { tokens = 0; last_refill = now } else r

-- `__cal`: the limiter after the call and the seconds to wait.
unfoldable pub cal : ℕ → RateLimiter → RateLimiter × ℤ
unfolding refill
cal now r =
    if r.period == 0
    then (r, pos 0)
    else let remaining = period_remaining now r in
      let reset = refill now r in
      let spent = record reset { tokens = reset.tokens + 1 } in
      (spent, (if ltb spent.calls spent.tokens then remaining else pos 0))

abbrev pub is_zero : ℤ → Bool
is_zero (pos zero) = true
is_zero (pos (suc n)) = false
is_zero (negsuc n) = false

unfoldable pub allow : ℕ → RateLimiter → RateLimiter × Bool
unfolding cal
allow now r = let (r', t) = cal now r in (r', is_zero t)

unfoldable pub sleep_time : ℕ → RateLimiter → RateLimiter × ℤ
unfolding cal
sleep_time now r = cal now r

-- A call that is refused is told the exact time to the end of the window, which is not over.
pub cal_refused :
    (now : ℕ) (r : RateLimiter)
    → 0 < r.calls
    → (allow now r).1 ≡ false
    → (w : ℕ) × ((sleep_time now r).1 ≡ pos (suc w))
      × (now + suc w ≡ r.period + r.last_refill)
      × (r.calls ≤ r.tokens)
unfolding allow sleep_time
cal_refused now r positive h =
    (r.period + r.last_refill - now - 1, ground arith, ground arith, ground arith)
