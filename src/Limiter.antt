-- ===== src/Limiter.antt =====
-- shutils/dag/lib/limiter.py: `Limiter`, of its three kinds. Time is in ticks, and a token is as
-- many parts as the period has ticks, so that `limit / period` tokens a tick are `limit` parts a
-- tick; the parts are exact where the source has floats. A name of a service is a value that is
-- true or, like the empty text, false.
pub mod Rate
pub mod Pool
mod Tests
use shutilspy.Common.{
  ℕ, zero, suc, ◌+◌, ◌-◌, ◌*◌, ◌⊎◌, inl, inr, Bool, true, false, Option, none, some, List, [], ◌∷◌,
  ◌++◌, ltb, leb, ◌==◌, if◌then◌else◌,
}
use shutilspy.Common.Int.{
  ℤ, pos, negsuc, pos_part, neg_part, sub_ℕ, ◌≤ℤ◌, ◌<ℤ◌, succ_ℤ, pred_ℤ, lt_succ, lt_succ_self,
  pred_lt, pred_lt_self,
}

-- `tokens` are parts.
pub record Qps : Type 0 where
  pub period : ℕ
  pub limit : ℕ
  pub tokens : ℕ
  pub last_update : ℕ

abbrev pub capacity : Qps → ℕ
capacity q = q.limit * q.period

pub record Concurrency : Type 0 where
  pub max_concurrency : ℤ
  pub current_concurrency : ℕ

pub data Limiter (A : Type 0) : Type 0 where
  qps : Qps → Limiter A
  concurrency : Concurrency → Limiter A
  token_bucket : List A → Limiter A

-- `LimiterConfig`, beside the limiter's type.
pub data Config (A : Type 0) : Type 0 where
  per_period : ℤ → ℤ → Config A
  max_conn : ℤ → Config A
  services : List A → Config A

pub data Error : Type 0 where
  value_error : Error
  zero_division_error : Error

-- `AcquireResult`.
pub record AcquireResult (A : Type 0) : Type 0 where
  pub success : Bool
  pub data_of : Option A

abbrev pub init_qps : ℤ → ℤ → ℕ → Option Qps
init_qps (pos (suc p)) (pos l) now =
    some (record { period = suc p; limit = l; tokens = l * suc p; last_update = now })
init_qps (pos (suc p)) (negsuc l) now = none
init_qps (pos zero) limit now = none
init_qps (negsuc p) limit now = none

abbrev pub min_ℕ : ℕ → ℕ → ℕ
min_ℕ a b = if leb a b then a else b

-- `_try_acquire_qps`.
unfoldable pub try_acquire_qps : ℕ → Qps → Qps × Bool
try_acquire_qps now q =
    let filled = min_ℕ (capacity q) (q.tokens + (now - q.last_update) * q.limit) in
    if leb q.period filled
    then (record q { tokens = filled - q.period; last_update = now }, true)
    else (record q { tokens = filled; last_update = now }, false)

-- `_calc_qps_wait_time`: the parts that lack, and the parts a tick to divide them by.
unfoldable pub calc_qps_wait_time : Qps → Error ⊎ (ℕ × ℕ)
calc_qps_wait_time q =
    if leb q.period q.tokens
    then inr (0, 1)
    else (if q.limit == 0 then inl zero_division_error else inr (q.period - q.tokens, q.limit))

abbrev pub below : ℕ → ℤ → Bool
below n (pos m) = ltb n m
below n (negsuc m) = false

-- `_try_acquire_concurrency`, and the blocking `acquire` once its wait ends, with the condition
-- true or, after the timeout, false.
unfoldable pub try_acquire_concurrency : Concurrency → Concurrency × Bool
try_acquire_concurrency c =
    if below c.current_concurrency c.max_concurrency
    then (record c { current_concurrency = c.current_concurrency + 1 }, true)
    else (c, false)

-- `_try_acquire_token_bucket`, and the blocking `acquire` once there is something or the time is over.
abbrev pub try_acquire_token_bucket : {A : Type 0} → List A → List A × AcquireResult A
try_acquire_token_bucket [] = ([], record { success = false; data_of = none })
try_acquire_token_bucket (s ∷ l) = (l, record { success = true; data_of = some s })

module _ {A : Type 0} (truthy : A → Bool) where
  unfoldable pub init : Config A → ℕ → Error ⊎ Limiter A
  init (per_period period limit) now = elim (init_qps period limit now) [
    | none ↦ inl value_error
    | some q ↦ inr (qps q)
  ]
  init (max_conn max) now =
      inr (concurrency (record { max_concurrency = max; current_concurrency = 0 }))
  init (services l) now = inr (token_bucket l)

  unfoldable pub try_acquire : ℕ → Limiter A → Limiter A × AcquireResult A
  unfolding try_acquire_qps try_acquire_concurrency
  try_acquire now (qps q) =
      let r = try_acquire_qps now q in (qps r.0, record { success = r.1; data_of = none })
  try_acquire now (concurrency c) =
      let r = try_acquire_concurrency c in
      (concurrency r.0, record { success = r.1; data_of = none })
  try_acquire now (token_bucket l) = let r = try_acquire_token_bucket l in (token_bucket r.0, r.1)

  unfoldable pub release : Option A → Limiter A → Limiter A
  release o (qps q) = qps q
  release o (concurrency c) = concurrency (record c {
    current_concurrency =
        if ltb 0 c.current_concurrency then c.current_concurrency - 1 else c.current_concurrency;
  })
  release none (token_bucket l) = token_bucket l
  release (some s) (token_bucket l) = token_bucket (if truthy s then l ++ s ∷ [] else l)

-- The `QPS` loop of `acquire` and `acquire_async`, on fuel, with no timeout: `sleep n` is how long
-- the n-th sleep lasts.
unfoldable pub acquire_qps : ℕ → (ℕ → ℕ) → ℕ → ℕ → Qps → Option (Error ⊎ (Qps × ℕ))
unfolding try_acquire_qps calc_qps_wait_time
acquire_qps zero sleep now slept q = none
acquire_qps (suc fuel) sleep now slept q =
    let r = try_acquire_qps now q in
    let rest = acquire_qps fuel sleep (now + sleep slept) (suc slept) r.0 in
    if r.1
    then some (inr (r.0, slept))
    else elim (calc_qps_wait_time r.0) [ inl e ↦ some (inl e) | inr w ↦ rest ]
