-- ===== src/Dag/State.antt =====
-- shutils/dag/task_state.py: which tasks of a context are done and which may run.
pub mod Ready
pub mod Order
pub mod Progress
mod Tests
use shutilspy.Common.{
  ℕ, suc, Bool, false, List, [], ◌∷◌, Option, none, some, has, add, discard, all_in, update,
  if◌then◌else◌,
}
use shutilspy.Dag.Graph.{Graph}

pub record ErrorInfo : Type 0 where
  pub has_error : Bool
  pub exception : Option ℕ
  pub error_node : Option ℕ

pub record TaskState : Type 0 where
  pub completed : List ℕ
  pub available : List ℕ
  pub retries : ℕ → Option ℕ
  pub destoryed : Bool
  pub error_info : ErrorInfo
  pub skip_complete : Bool

unfoldable pub init : TaskState
init = record {
  completed = [];
  available = [];
  retries = λ _. none;
  destoryed = false;
  error_info = record { has_error = false; exception = none; error_node = none };
  skip_complete = false;
}

-- `_add_available_task`.
unfoldable pub add_available_task : ℕ → TaskState → TaskState
add_available_task task s = record s { available = add task s.available }

-- The body of the loop in `_complete`: `done` is the set of completed tasks.
unfoldable pub offer : Graph → List ℕ → ℕ → List ℕ → List ℕ
offer g done down available =
    if has down done
    then available
    else if all_in (g.upstream down) done
    then add down available
    else available

unfoldable pub offers : Graph → List ℕ → List ℕ → List ℕ → List ℕ
unfolding offer
offers g done [] available = available
offers g done (d ∷ ds) available = offers g done ds (offer g done d available)

-- `_complete`.
unfoldable pub complete : Graph → ℕ → TaskState → TaskState
unfolding offers
complete g task s =
    if s.skip_complete
    then record s { skip_complete = false }
    else if has task s.completed
    then s
    else let done = add task s.completed in
      record s {
        completed = done;
        available = offers g done (g.downstream task) (discard task s.available);
      }

-- `AsyncTaskState.retry`: the new state and the count.
unfoldable pub retry : ℕ → TaskState → TaskState × ℕ
retry task s =
    let n : ℕ = elim (s.retries task) [ none ↦ 1 | some k ↦ suc k ] in
    (record s { retries = update s.retries task (some n) }, n)
