-- ===== src/Dag/Executor.antt =====
-- shutils/dag/executor.py and task_executor.py: running a task in a context, with its retries, and
-- what becomes of the contexts that it gives. Contexts and tasks are numbers.
pub mod Failure
pub mod Retries
pub mod Completes
pub mod Runs
pub mod Postprocess
pub mod Living
pub mod Fresh
pub mod Starved
mod Tests
use shutilspy.Common.{
  ℕ, ◌+◌, Bool, true, false, ◌&&◌, Option, none, some, List, [], ◌∷◌, ◌++◌, ltb, leb, ◌==◌,
  if◌then◌else◌, update,
}
use shutilspy.Dag.Graph.{Graph}
use shutilspy.Dag.State.{TaskState}
use shutilspy.Dag.State
use shutilspy.Dag.Contexts
use shutilspy.Dag.Queue.Context.{ContextPriority, fifo_high}
use shutilspy.Dag.Mask.Complete.{Store, complete}
use shutilspy.Dag.Task.{Config, Called, passed, limited, gave, threw}

pub data Kind : Type 0 where
  plain loop output : Kind

-- A context in a task's result, as itself or in a `RateLimitContext`.
pub data Out : Type 0 where
  made : ℕ → Kind → Out
  held : ℕ → Kind → Out

-- The contexts, their task states, when a task may run in a context again, and what was put into
-- the queue, in order.
pub record World : Type 0 where
  pub tree : Contexts.World
  pub states : Store
  pub awake_time : ℕ → ℕ → Option ℕ
  pub puts : List (ℕ × ContextPriority)

abbrev pub put : ℕ → ContextPriority → World → World
put i p w = record w { puts = w.puts ++ (i, p) ∷ [] }

abbrev pub with_state : ℕ → TaskState → World → World
with_state i s w = record w { states = update w.states i s }

abbrev pub with_awake : ℕ → ℕ → Option ℕ → World → World
with_awake i task t w = record w {
  awake_time = update w.awake_time i (update (w.awake_time i) task t);
}

abbrev pub parents : World → ℕ → Option ℕ
parents w i = (w.tree.context i).parent

-- `destory` of a context.
unfoldable pub destory : ℕ → ℕ → World → Option World
destory fuel i w = elim (Contexts.destory fuel false i w.tree) [
  | none ↦ none
  | some tree ↦ some (record w { tree = tree })
]

-- The classes of tasks that the executors tell apart, those of `ForegroundTask` first.
pub data Class : Type 0 where
  foreground_sync foreground_other async_task sync_task other_task : Class

-- What the call of a task gives, by its class; the numbers are the exceptions `ValueError` and
-- `AttributeError`.
abbrev pub value_error : ℕ
value_error = 0

abbrev pub attribute_error : ℕ
attribute_error = 1

abbrev pub Result : Type 0
Result = Called (ℕ × Kind)

abbrev pub dispatch : Class → Result → Result
dispatch foreground_sync r = r
dispatch foreground_other r = threw value_error
dispatch async_task r = r
dispatch sync_task r = r
dispatch other_task r = threw value_error

-- `TaskExecutor` reads `self.__thread_pool` for a sync task, a name that only `Executor` has.
abbrev pub task_dispatch : Class → Result → Result
task_dispatch foreground_sync r = r
task_dispatch foreground_other r = threw value_error
task_dispatch async_task r = r
task_dispatch sync_task r = threw attribute_error
task_dispatch other_task r = threw value_error

abbrev pub outs_of : List (ℕ × Kind) → List Out
outs_of [] = []
outs_of ((i, k) ∷ l) = made i k ∷ outs_of l

-- The result, the contexts, and whether the task is through with the context.
abbrev pub Ran : Type 0
Ran = Option (World × List (ℕ × Kind) × Bool)

abbrev pub through : Option (World × List (ℕ × Kind)) → Ran
through none = none
through (some (w, l)) = some (w, l, true)

module _ (g : Graph) (fuel : ℕ) where
  -- The loop at the end: what is neither of a loop nor rate-limited completes the task.
  unfoldable pub complete_outs : ℕ → List Out → World → Option (World × List (ℕ × Kind))
  complete_outs task [] w = some (w, [])
  complete_outs task (held i k ∷ l) w = elim (complete_outs task l w) [
    | none ↦ none
    | some (w', rest) ↦ some (w', (i, k) ∷ rest)
  ]
  complete_outs task (made i loop ∷ l) w = elim (complete_outs task l w) [
    | none ↦ none
    | some (w', rest) ↦ some (w', (i, loop) ∷ rest)
  ]
  complete_outs task (made i k ∷ l) w = elim (complete g (parents w) fuel i task w.states) [
    | none ↦ none
    | some states ↦ elim (complete_outs task l (record w { states = states })) [
      | none ↦ none
      | some (w', rest) ↦ some (w', (i, k) ∷ rest)
    ]
  ]

  module _ (cfg : Config) (put_back : ℕ → ℕ → World → World) where
    -- The `except` branch and what follows it.
    unfoldable pub on_error : ℕ → ℕ → ℕ → ℕ → World → Ran
    unfolding complete_outs destory
    on_error now task i e w =
        let (s, n) = State.retry task (w.states i) in
        let counted = if ltb 0 cfg.retry_times then with_state i s w else w in
        let waiting =
          if cfg.retry_interval i == 0
          then counted
          else with_awake i task (some (now + cfg.retry_interval i)) counted in
        let failed =
          with_state i
            (record (counted.states i) {
              error_info = record { has_error = true; exception = some e; error_node = some task };
            })
            counted in
        if ltb 0 cfg.retry_times && leb n cfg.retry_times
        then some (put_back i task waiting, [], false)
        else through (elim (destory fuel i failed) [ none ↦ none | some w' ↦ some (w', []) ])

    unfoldable pub after_call : Kind → ℕ → ℕ → ℕ → Result → World → Ran
    unfolding on_error
    after_call kind now task i passed w = through (complete_outs task (made i kind ∷ []) w)
    after_call kind now task i limited w = through (complete_outs task (held i kind ∷ []) w)
    after_call kind now task i (gave l) w = through (complete_outs task (outs_of l) w)
    after_call kind now task i (threw e) w = on_error now task i e w

    -- `_run_task` of a context of a kind: `now` at its start, `later` when the call is over.
    unfoldable pub run_with : Kind → ℕ → ℕ → ℕ → ℕ → Result → World → Ran
    unfolding after_call
    run_with kind now later task i result w = elim (w.awake_time i task) [
      | none ↦ after_call kind later task i result w
      | some t ↦
          if ltb now t
          then some (put_back i task w, [], false)
          else after_call kind later task i result (with_awake i task none w)
    ]

  -- `Executor._run_task`.
  unfoldable pub run_task : Config → Class → Kind → ℕ → ℕ → ℕ → ℕ → Result → World → Ran
  unfolding run_with
  run_task cfg class kind now later task i result =
      run_with cfg (λ j t w. put j fifo_high w) kind now later task i (dispatch class result)

  -- `TaskExecutor._run_task`, whose queue holds tasks.
  unfoldable pub run_single_task :
      Config → (ℕ → ℕ → World → World) → Class → Kind → ℕ → ℕ → ℕ → ℕ → Result → World → Ran
  unfolding run_with
  run_single_task cfg put_task class kind now later task i result =
      run_with cfg put_task kind now later task i (task_dispatch class result)
