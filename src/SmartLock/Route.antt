-- ===== src/SmartLock/Route.antt =====
-- The way that `async_run` of the mutex and `write_async_run` of the read-write lock take.
use shutilspy.Common.{ℕ, ◌≡◌, refl, ◌≢◌, Bool, true, false, Option, none, some, if◌then◌else◌}
use shutilspy.SmartLock.{
  LockStrategy, Config, Metrics, suggest_strategy, direct, async_wait, executor, auto,
}

abbrev pub is_auto : LockStrategy → Bool
is_auto auto = true
is_auto direct = false
is_auto async_wait = false
is_auto executor = false

-- The strategy before the one for async functions is taken down.
unfoldable pub choose : Config → Option LockStrategy → ℕ → Metrics → LockStrategy
choose cfg force now m = elim force [
  | some s ↦ s
  | none ↦
      if is_auto cfg.default_strategy then (suggest_strategy cfg now m).1 else cfg.default_strategy
]

abbrev pub taken_down : Bool → LockStrategy → LockStrategy
taken_down is_async auto = auto
taken_down is_async direct = direct
taken_down is_async async_wait = async_wait
taken_down true executor = async_wait
taken_down false executor = executor

-- What the caller's thread does: it hands the function to a pool, blocks on the mutex, or tries
-- the mutex and waits for it in a pool.
pub data Way : Type 0 where
  in_pool blocking trying : Way

-- `async_run`.
abbrev mutex_way : LockStrategy → Way
mutex_way executor = in_pool
mutex_way direct = blocking
mutex_way async_wait = trying
mutex_way auto = trying

unfoldable pub async_run : Config → Bool → Option LockStrategy → ℕ → Metrics → Way
unfolding choose
async_run cfg is_async force now m = mutex_way (taken_down is_async (choose cfg force now m))

-- `write_async_run`.
abbrev write_way : LockStrategy → Way
write_way executor = in_pool
write_way direct = trying
write_way async_wait = trying
write_way auto = trying

unfoldable pub write_async_run : Config → Bool → Option LockStrategy → ℕ → Metrics → Way
unfolding choose
write_async_run cfg is_async force now m = write_way (taken_down is_async (choose cfg force now m))

-- An async function is never handed to a pool, whatever is forced, configured or measured, and
-- `write_async_run` never blocks the event loop; a forced `AUTO` is the way of `ASYNC_WAIT`, and
-- does not ask the metrics.
pub ways :
    (cfg : Config) (is_async : Bool) (force : Option LockStrategy) (now : ℕ) (m : Metrics)
    → (async_run cfg true force now m ≢ in_pool)
      × (write_async_run cfg true force now m ≢ in_pool)
      × (write_async_run cfg is_async force now m ≢ blocking)
      × (async_run cfg is_async (some auto) now m ≡ async_run cfg is_async (some async_wait) now m)
unfolding async_run write_async_run
ways cfg is_async force now m = (
  pooled_mutex (choose cfg force now m),
  pooled_write (choose cfg force now m),
  never_blocks is_async (choose cfg force now m),
  refl,
)
  where
    pooled_mutex : (s : LockStrategy) → mutex_way (taken_down true s) ≢ in_pool
    pooled_mutex auto e = cc
    pooled_mutex s e = absurd (cc)

    pooled_write : (s : LockStrategy) → write_way (taken_down true s) ≢ in_pool
    pooled_write auto e = cc
    pooled_write s e = absurd (cc)

    never_blocks : (b : Bool) (s : LockStrategy) → write_way (taken_down b s) ≢ blocking
    never_blocks true auto e = cc
    never_blocks true s e = absurd (cc)
    never_blocks false auto e = cc
    never_blocks false s e = absurd (cc)
