-- ===== src/Dag/Task.antt =====
-- shutils/dag/task.py: the limits on a task's calls, and what its classes make of a result. The
-- hooks before and after a call are one step each.
pub mod Calls
pub mod Results
pub mod Router
pub mod Leaks
mod Tests
use shutilspy.Common.{ℕ, ◌+◌, ◌-◌, Bool, ◌&&◌, Option, none, some, List, ltb, if◌then◌else◌}
use shutilspy.Common.Int.{
  ℤ, pos, negsuc, pos_part, neg_part, sub_ℕ, ◌≤ℤ◌, ◌<ℤ◌, succ_ℤ, pred_ℤ, lt_succ, lt_succ_self,
  pred_lt, pred_lt_self,
}
use shutilspy.Limiter.{Limiter, try_acquire, release}

-- `TaskConfig`; the interval is a function of the context.
pub record Config : Type 0 where
  pub retry_times : ℕ
  pub retry_interval : ℕ → ℕ
  pub parallel_num : ℕ

-- `TaskBase`, with the services that a limiter of that kind hands out.
pub record Task (A : Type 0) : Type 0 where
  pub id : ℕ
  pub config : Config
  pub running_task_num : ℕ
  pub rate_limiter : Option (Limiter A)

-- What `call_before` returns: `None`, the context, or a `RateLimitContext` of it.
pub data Gate : Type 0 where
  proceed same_context rate_limited : Gate

-- The part of `call` that a task's class defines.
pub data Outcome (B : Type 0) : Type 0 where
  returned : List B → Outcome B
  raised : ℕ → Outcome B

-- What `__call__` gives its caller: the context itself or wrapped, the contexts, or the exception.
pub data Called (B : Type 0) : Type 0 where
  passed : Called B
  limited : Called B
  gave : List B → Called B
  threw : ℕ → Called B

module _ {A : Type 0} (truthy : A → Bool) where
  -- `TaskBase.__init__`
  unfoldable pub init : ℕ → Config → Option (Limiter A) → Task A
  init id config limiter = record {
    id = id;
    config = config;
    running_task_num = 0;
    rate_limiter = limiter;
  }

  unfoldable pub call_before : ℕ → Task A → Task A × Gate
  call_before now t =
      if ltb 0 t.config.parallel_num && ltb t.config.parallel_num t.running_task_num
      then (t, same_context)
      else elim t.rate_limiter [
        | none ↦ (record t { running_task_num = t.running_task_num + 1 }, proceed)
        | some l ↦
            let r = try_acquire truthy now l in
            if r.1.success
            then (
              record t { running_task_num = t.running_task_num + 1; rate_limiter = some r.0 },
              proceed,
            )
            else (record t { rate_limiter = some r.0 }, rate_limited)
      ]

  unfoldable pub call_after : Task A → Task A
  call_after t = record t {
    running_task_num = t.running_task_num - 1;
    rate_limiter = elim t.rate_limiter [ none ↦ none | some l ↦ some (release truthy none l) ];
  }

  -- `__call__` of `SyncTask` and `AsyncTask`, with no other call meanwhile.
  unfoldable pub call : {B : Type 0} → ℕ → Outcome B → Task A → Task A × Called B
  unfolding call_before call_after
  call now outcome t =
      let (t', gate) = call_before now t in
      elim gate [
        | same_context ↦ (t', passed)
        | rate_limited ↦ (t', limited)
        | proceed ↦ elim outcome [ returned l ↦ (call_after t', gave l) | raised e ↦ (t', threw e) ]
      ]
