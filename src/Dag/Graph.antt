-- ===== src/Dag/Graph.antt =====
-- shutils/dag/dag.py, with the edges that shutils/dag/task.py keeps on each task. Tasks are
-- compared and hashed by `id` alone, so a task is its id, and an id is a number. A set is a list
-- without repetition; the order in which a set or the task table iterates is not represented.
pub mod Edges
pub mod Collect
pub mod Closure
pub mod Fill
pub mod Lookup
pub mod Bypass
pub mod Sample
mod Tests
use shutilspy.Common.{
  ℕ, false, List, [], ◌∷◌, add, update, if◌then◌else◌, is_empty, ◌≡◌, ap, Bool-cases, inl, inr,
}

pub record Graph : Type 0 where
  pub tasks : List ℕ
  pub in_task : ℕ
  pub out_task : ℕ
  pub start_tasks : List ℕ
  pub end_tasks : List ℕ
  pub task_set : List ℕ
  pub upstream : ℕ → List ℕ
  pub downstream : ℕ → List ℕ

pub data Error : Type 0 where
  no_start_task : Error

pub data Result {ℓ} (A : Type ℓ) : Type ℓ where
  ok : A → Result A
  err : Error → Result A

-- `DAG()`, given the ids of the source and the sink.
unfoldable pub init : ℕ → ℕ → Graph
init source sink = record {
  tasks = [];
  in_task = source;
  out_task = sink;
  start_tasks = [];
  end_tasks = [];
  task_set = [];
  upstream = λ _. [];
  downstream = λ _. [];
}

-- `task.add_upstream(dependency)`.
unfoldable pub add_upstream : ℕ → ℕ → Graph → Graph
add_upstream task dependency g = record g {
  upstream = update g.upstream task (add dependency (g.upstream task));
  downstream = update g.downstream dependency (add task (g.downstream dependency));
}

unfoldable pub add_upstreams : ℕ → List ℕ → Graph → Graph
unfolding add_upstream
add_upstreams task [] g = g
add_upstreams task (d ∷ ds) g = add_upstreams task ds (add_upstream task d g)

-- A single dependency is the list of it, and `None` is the empty list.
unfoldable pub add_task : ℕ → List ℕ → Graph → Graph
unfolding add_upstreams
add_task task dependencies g =
    let h = add_upstreams task dependencies (record g { tasks = add task g.tasks }) in
    record h {
      start_tasks = if is_empty dependencies then add task h.start_tasks else h.start_tasks;
    }

-- The first loop of `build`.
unfoldable pub link_start : List ℕ → Graph → Graph
unfolding add_task
link_start [] g = g
link_start (t ∷ ts) g = link_start ts (add_task t (g.in_task ∷ []) g)

-- One round of the second loop of `build`.
unfoldable pub link_end : ℕ → Graph → Graph
unfolding add_task
link_end t g =
    if is_empty (g.downstream t)
    then add_task g.out_task (t ∷ []) (record g { end_tasks = add t g.end_tasks })
    else g

unfoldable pub link_ends : List ℕ → Graph → Graph
unfolding link_end
link_ends [] g = g
link_ends (t ∷ ts) g = link_ends ts (link_end t g)

unfoldable pub seal : Graph → Graph
seal g =
    let all = add g.out_task (add g.in_task g.tasks) in record g { tasks = all; task_set = all }

-- `build` behind its check.
unfoldable pub connect : Graph → Graph
unfolding link_start link_ends seal
connect g = let h = link_start g.start_tasks g in seal (link_ends h.tasks h)

unfoldable pub build : Graph → Result Graph
unfolding connect
build g = if is_empty g.start_tasks then err no_start_task else ok (connect g)

pub build-connect :
    (g : Graph) {h : Graph} → build g ≡ ok h → (connect g ≡ h) × (is_empty g.start_tasks ≡ false)
unfolding build
build-connect g e = elim (Bool-cases (is_empty g.start_tasks)) [
  | inl z ↦ absurd (cc (rw z at e))
  | inr z ↦ (ok-injective (rw z at e), z)
]
  where
    of_ok : Graph → Result Graph → Graph
    of_ok d (ok a) = a
    of_ok d (err x) = d

    ok-injective : {a b : Graph} → ok a ≡ ok b → a ≡ b
    ok-injective {a} p = ap (of_ok a) p
