-- ===== src/SmartLock.antt =====
-- shutils/dag/lib/smart_lock.py: the metrics by which the locks choose how to wait. A duration is a
-- whole number of clock ticks, a metric a fraction of them, and a clock reading an argument.
pub mod Window
pub mod Percentile
pub mod Suggest
pub mod Route
pub mod Loop
pub mod ReadWrite
mod Tests
use shutilspy.Common.{
  ℕ, zero, suc, ◌+◌, ◌-◌, ◌*◌, ◌/◌, ◌%◌, Bool, true, false, not, ◌||◌, Option, none, some, List, [],
  ◌∷◌, ◌++◌, ltb, leb, ◌==◌, if◌then◌else◌, length, drop, is_empty,
}

pub data LockStrategy : Type 0 where
  auto direct async_wait executor : LockStrategy

pub data MetricType : Type 0 where
  mean p90 p95 p99 max : MetricType

-- `SmartLockConfig`, without its executor.
pub record Config : Type 0 where
  pub window_size : ℕ
  pub metric_type : MetricType
  pub threshold_direct : ℕ
  pub threshold_executor : ℕ
  pub enable_sampling : Bool
  pub sampling_interval : ℕ
  pub calc_interval : ℕ
  pub warmup_count : ℕ
  pub default_strategy : LockStrategy

pub record Fraction : Type 0 where
  pub num : ℕ
  pub den : ℕ

abbrev pub whole : ℕ → Fraction
whole n = record { num = n; den = 1 }

-- `AdaptiveMetrics`: the oldest duration stands first.
pub record Metrics : Type 0 where
  pub history : List ℕ
  pub counter : ℕ
  pub cached : Fraction
  pub last_calc : ℕ
  pub dirty : Bool

unfoldable pub init : Metrics
init = record { history = []; counter = 0; cached = whole 0; last_calc = 0; dirty = false }

-- `deque(maxlen=window).append(d)`
unfoldable pub append : ℕ → ℕ → List ℕ → List ℕ
append window d xs = drop (length xs + 1 - window) (xs ++ d ∷ [])

-- `record`: `none` is the `ZeroDivisionError` of an interval of 0.
unfoldable pub sample : Config → ℕ → Metrics → Option Metrics
unfolding append
sample cfg duration m =
    let kept = λ (c : ℕ). record m {
      history = append cfg.window_size duration m.history;
      counter = c;
      dirty = true;
    } in
    if cfg.enable_sampling
    then if cfg.sampling_interval == 0
      then none
      else if m.counter % cfg.sampling_interval == 0
      then some (kept (m.counter + 1))
      else some (record m { counter = m.counter + 1 })
    else some (kept m.counter)

unfoldable pub insert : ℕ → List ℕ → List ℕ
insert x [] = x ∷ []
insert x (y ∷ ys) = let rest = insert x ys in if leb x y then x ∷ y ∷ ys else y ∷ rest

-- `list.sort`
unfoldable pub sort : List ℕ → List ℕ
unfolding insert
sort [] = []
sort (x ∷ xs) = insert x (sort xs)

unfoldable pub get_or : List ℕ → ℕ → ℕ → ℕ
get_or [] i d = d
get_or (x ∷ xs) zero d = x
get_or (x ∷ xs) (suc i) d = get_or xs i d

unfoldable pub sum : List ℕ → ℕ
sum [] = 0
sum (x ∷ xs) = x + sum xs

unfoldable pub maximum : List ℕ → ℕ
maximum [] = 0
maximum (x ∷ xs) = let m = maximum xs in if ltb m x then x else m

-- `min(int(n * percentile), n - 1)`; the products of the two floats round to the exact values.
unfoldable pub percentile_index : ℕ → ℕ → ℕ
percentile_index percent n =
    let index = n * percent / 100 in if ltb (n - 1) index then n - 1 else index

unfoldable pub percentile : ℕ → List ℕ → ℕ
unfolding sort get_or percentile_index
percentile percent xs = get_or (sort xs) (percentile_index percent (length xs)) 0

-- The recalculation; `P99` has no branch of its own.
unfoldable pub metric_of : MetricType → List ℕ → Fraction
unfolding sum maximum percentile
metric_of mean xs = record { num = sum xs; den = length xs }
metric_of max xs = whole (maximum xs)
metric_of p90 xs = whole (percentile 90 xs)
metric_of p95 xs = whole (percentile 95 xs)
metric_of p99 xs = whole 0

unfoldable pub get_metric_value : Config → ℕ → Metrics → Metrics × Fraction
unfolding metric_of
get_metric_value cfg now m =
    if is_empty m.history
    then (m, whole 0)
    else if not m.dirty || ltb (now - m.last_calc) cfg.calc_interval
    then (m, m.cached)
    else let val = metric_of cfg.metric_type m.history in
      (record m { cached = val; last_calc = now; dirty = false }, val)

unfoldable pub suggest_strategy : Config → ℕ → Metrics → Metrics × LockStrategy
unfolding get_metric_value
suggest_strategy cfg now m =
    let (m', val) = get_metric_value cfg now m in
    if ltb (length m.history) cfg.warmup_count then (m, cfg.default_strategy) else (
      m',
      if ltb val.num (cfg.threshold_direct * val.den)
          then direct
          else if ltb (cfg.threshold_executor * val.den) val.num
          then executor
          else async_wait,
    )
