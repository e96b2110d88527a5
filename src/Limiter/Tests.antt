-- ===== src/Limiter/Tests.antt =====
-- Runs of the limiter, and the theorems at concrete inputs.
use shutilspy.Common.{ℕ, ◌+◌, ◌-◌, ◌*◌, ◌≤◌, ◌≡◌, refl, inl, none, List, [], ◌∷◌, arith}
use shutilspy.Common.Int.{pos}
use shutilspy.Limiter.{
  Qps, Concurrency, init, try_acquire, release, try_acquire_qps, calc_qps_wait_time,
  zero_division_error, acquire_qps,
}
use shutilspy.Limiter.Rate.{tries, tries-bound}
use shutilspy.Limiter.Pool.{Call, acquire_call, release_call, run}

code : Unit {0}
unfolding init try_acquire release try_acquire_qps calc_qps_wait_time tries run acquire_qps
code = tt

-- Two tokens in ten ticks, one of them there.
abbrev half : Qps
half = record { period = 10; limit = 2; tokens = 10; last_update = 3 }

tries-bound_example : (tries (4 ∷ 5 ∷ 9 ∷ []) half).1 * 10 ≤ 10 + (13 - 3) * 2
unfolding code
tries-bound_example =
    tries-bound (4 ∷ 5 ∷ 9 ∷ []) 13 half (omega arith)
      (omega arith, (omega arith, (omega arith, omega arith)))

abbrev spent : Qps
spent = record { period = 10; limit = 2; tokens = 4; last_update = 3 }

-- With the limit 0, which is accepted, the wait cannot be computed.
zero_limit :
    calc_qps_wait_time (record { period = 10; limit = 0; tokens = 0; last_update = 0 })
    ≡ inl zero_division_error
unfolding code
zero_limit = refl

abbrev pair : Concurrency
pair = record { max_concurrency = pos 2; current_concurrency = 1 }

abbrev three_calls : List (Call ℕ)
three_calls = acquire_call ∷ acquire_call ∷ release_call none ∷ []
