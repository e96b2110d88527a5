-- ===== src/Dag/Task/Tests.antt =====
-- Calls of a task with a limit of one, and a router of the sample graph.
use shutilspy.Common.{
  ℕ, ◌+◌, ◌≤◌, ◌<◌, ◌≡◌, refl, ◌⊎◌, inl, Bool, true, false, none, some, List, [], ◌∷◌, arith, ◌==◌,
  if◌then◌else◌, All, has, union, diff, update,
}
use shutilspy.Dag.Graph.Sample.{sample, sample-IsLayered}
use shutilspy.Dag.Graph.Collect.{found, too_deep, key_error}
use shutilspy.Common.Int.{pos}
use shutilspy.Dag.Contexts
use shutilspy.Dag.Contexts.Counting.{Sound}
use shutilspy.Dag.Mask.Complete.{IsOlder}
use shutilspy.Dag.State as TaskState
use shutilspy.Dag.Task.{Task, Config, call_before, init, same_context}
use shutilspy.Dag.Task.Calls
use shutilspy.Dag.Task.Calls.{Reach, enter, calls_counted, thrown_out}
use shutilspy.Dag.Task.Router.{by_name, call, call_exact, State, parents, IsRoute, Masks}
use shutilspy.Dag.Task.Results.{loop_call, yielded, one}

abbrev config : Config
config = record { retry_times = 0; retry_interval = λ _. 0; parallel_num = 1 }

abbrev truthy : ℕ → Bool
truthy s = true

abbrev task : Task ℕ
unfolding init
task = init truthy 8 config none

code : Unit {0}
unfolding enter call_before init
code = tt

abbrev start : Calls.Calls ℕ
unfolding code
start = record { task = task; inside = 0; threw = 0 }

abbrev two : Calls.Calls ℕ
unfolding code
two = enter truthy 0 (enter truthy 0 start)

two-reached : Reach truthy (init truthy 8 config none) two
unfolding code
two-reached = Calls.next (Calls.next Calls.here (Calls.begin 0)) (Calls.begin 0)

abbrev both_threw : Calls.Calls ℕ
unfolding code
both_threw = record two { inside = 0; threw = 2 }

both_threw-reached : Reach truthy (init truthy 8 config none) both_threw
unfolding code
both_threw-reached =
    Calls.next (Calls.next two-reached (Calls.throw (omega arith))) (Calls.throw (omega arith))

calls_counted_example :
    (two.task.running_task_num ≡ two.inside + two.threw) × (0 < 1 → two.inside + two.threw ≤ 1 + 1)
calls_counted_example = calls_counted truthy 8 config none two-reached

thrown_out_example :
    (call_before truthy 5 both_threw.task ≡ (both_threw.task, same_context))
    × (enter truthy 5 both_threw ≡ both_threw)
unfolding code
thrown_out_example =
    thrown_out truthy 8 config none both_threw-reached (omega arith) (omega arith) 5

abbrev context : Contexts.Context
context = record {
  parent = none;
  children = [];
  child_num = pos 0;
  has_runtime = true;
  is_destory = false;
  freezing = false;
  skip_complete = false;
}

-- One context.
abbrev alone : State
alone = record {
  tree = record {
    context = λ i. if i == 0 then context else record context { is_destory = true };
    next = 1;
    counter = pos 1;
  };
  states = λ _. TaskState.init;
  table = [];
}

alone-Sound : Sound alone.tree
alone-Sound = record { exact = refl; fresh = λ i h. ground arith }

alone-IsOlder : IsOlder sample (parents alone)
alone-IsOlder i p e = ground arith

call_exact_example :
    (s' : State) × ((All (IsRoute sample 1) (by_name 4 ∷ [])
        × (call 7 9 sample 1 (by_name 4 ∷ []) 0 alone ≡ found (some (s', 0 ∷ [])))
        × Masks sample 1 0 (4 ∷ []) alone s')
      ⊎ ((¬ All (IsRoute sample 1) (by_name 4 ∷ []))
          × (call 7 9 sample 1 (by_name 4 ∷ []) 0 alone ≡ found (some (s', [])))
          × ((s'.tree.context 0).is_destory ≡ true)
          × (s'.states ≡ alone.states)))
call_exact_example =
    call_exact 7 9 sample (λ t. t) 1 (by_name 4 ∷ []) 0 alone sample-IsLayered (omega arith)
      (inl refl) alone-IsOlder alone-Sound (omega arith) (omega arith)

-- Of the routes of task 1 only task 4 is taken: 2 and 3 are masked, and 5, which is below 4, is not.
run_router :
    elim (call 7 9 sample 1 (by_name 4 ∷ []) 0 alone) as (λ _. List ℕ) [
      | found o ↦ elim o as (λ _. List ℕ) [ none ↦ [] | some (s, _) ↦ (s.states 0).completed ]
      | too_deep ↦ []
      | key_error ↦ []
    ]
    ≡ 3 ∷ 2 ∷ []
unfolding call has diff union update TaskState.init TaskState.complete
run_router = refl

run_loop : loop_call false 3 7 (yielded (one 4)) ≡ (4 ∷ 7 ∷ [], false)
unfolding loop_call
run_loop = refl
