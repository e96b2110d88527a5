-- ===== src/RateLimit/Tests.antt =====
-- Runs of the limiter, and the theorems at concrete inputs.
use shutilspy.Common.{ℕ, ◌+◌, ◌*◌, ◌≤◌, ◌≡◌, refl, true, false, some, List, [], ◌∷◌, arith}
use shutilspy.Common.Int.{pos}
use shutilspy.RateLimit
use shutilspy.RateLimit.{RateLimiter, cal, allow, sleep_time, init, ok, cal_refused}
use shutilspy.RateLimit.Window.{window_limit, admitted, serves}
use shutilspy.RateLimit.Retry.{Decorator, wrapper, called, wrapper-called}

code : Unit {0}
unfolding init cal allow sleep_time admitted serves wrapper
code = tt

-- Two calls in ten ticks, both used.
abbrev full : RateLimiter
full = record { calls = 2; period = 10; last_refill = 5; tokens = 2 }

abbrev fresh : RateLimiter
fresh = record { calls = 2; period = 10; last_refill = 5; tokens = 0 }

init_zero : init (pos 0) (pos 1) 0 ≡ RateLimit.err RateLimit.bad_calls
unfolding code
init_zero = refl

full_waits : sleep_time 8 full ≡ (record full { tokens = 3 }, pos 7)
unfolding code
full_waits = refl

abbrev times : List ℕ
times = 6 ∷ 7 ∷ 8 ∷ 16 ∷ 17 ∷ []

window_limit_example :
    let s = serves times (fresh, []) in
    (admitted s.0.last_refill s.1 ≤ 2)
    × ((t : ℕ) → (allow t s.0).1 ≡ false → admitted s.0.last_refill s.1 ≡ 2)
unfolding code
window_limit_example = window_limit 2 9 5 {r = fresh} times refl (omega arith)

abbrev clock : ℕ → ℕ
clock n = 8 + 7 * n

abbrev patient : Decorator
patient = record { rate_limiter = full; sleep_and_retry = true; raise_exception = true }

wrapper-called_example :
    (r : RateLimiter) × (n : ℕ) × (wrapper 2 clock 0 patient ≡ some (called, r, n)) × (n ≤ 1)
unfolding code
wrapper-called_example = wrapper-called 0 clock patient refl (omega arith) (λ w e. ground arith)
