-- ===== src/Dag/Graph/Collect.antt =====
-- shutils/dag/dag.py: the tables of all downstream and all upstream tasks, and the sets read from
-- them. `limit` is the depth of recursion that the interpreter allows.
use shutilspy.Common.{
  ℕ, zero, suc, Bool, true, false, ◌&&◌, Option, none, some, List, [], ◌∷◌, ◌==◌, if◌then◌else◌,
  union, diff,
}
use shutilspy.Dag.Graph.{Graph}

-- `RecursionError` and `KeyError`.
pub data Answer {ℓ} (A : Type ℓ) : Type ℓ where
  found : A → Answer A
  too_deep : Answer A
  key_error : Answer A

-- A dictionary from tasks to sets of tasks; the newest entry of a key stands first.
abbrev pub Table : Type 0
Table = List (ℕ × List ℕ)

unfoldable pub entry : ℕ → Table → Option (List ℕ)
entry t [] = none
entry t ((k, s) ∷ rest) = if t == k then some s else entry t rest

unfoldable pub present : ℕ → Table → Bool
unfolding entry
present t table = elim (entry t table) [ none ↦ false | some s ↦ true ]

-- No task of the list is missing from the table.
unfoldable pub all_present : List ℕ → Table → Bool
unfolding present
all_present [] table = true
all_present (t ∷ ts) table = present t table && all_present ts table

-- `set().union(*[table[t] for t in tasks])`
unfoldable pub join : List ℕ → Table → Answer (List ℕ)
unfolding entry
join [] table = found []
join (t ∷ ts) table = elim (entry t table) [
  | none ↦ key_error
  | some s ↦ elim (join ts table) [
    | found rest ↦ found (union s rest)
    | too_deep ↦ too_deep
    | key_error ↦ key_error
  ]
]

-- The `for` loop at the end of `collect`, given the recursive call.
unfoldable pub collect_each : (ℕ → Table → Answer Table) → List ℕ → Table → Answer Table
collect_each call [] table = found table
collect_each call (t ∷ ts) table = elim (call t table) [
  | found table' ↦ collect_each call ts table'
  | too_deep ↦ too_deep
  | key_error ↦ key_error
]

-- `collect`, with the edges it reads the sets of, and the edges it goes on along.
module _ (ahead back : ℕ → List ℕ) where
  unfoldable pub collect : ℕ → ℕ → Table → Answer Table
  unfolding all_present join collect_each
  collect zero cur table = too_deep
  collect (suc limit) cur table = elim (all_present (ahead cur) table) [
    | false ↦ found table
    | true ↦ elim (join (ahead cur) table) [
      | found s ↦ collect_each (collect limit) (back cur) ((cur, union s (ahead cur)) ∷ table)
      | too_deep ↦ too_deep
      | key_error ↦ key_error
    ]
  ]

unfoldable pub collect_downstream : ℕ → Graph → Answer Table
unfolding collect
collect_downstream limit g = collect g.downstream g.upstream limit g.out_task []

unfoldable pub collect_upstream : ℕ → Graph → Answer Table
unfolding collect
collect_upstream limit g = collect g.upstream g.downstream limit g.in_task []

-- The table that a lookup uses: the one at hand, or a collected one if that is empty.
unfoldable pub filled : Table → Answer Table → Answer Table
filled [] fresh = fresh
filled (e ∷ table) fresh = found (e ∷ table)

unfoldable pub gather : List ℕ → Bool → Table → Answer (List ℕ)
unfolding join
gather tasks add_self table = elim (join tasks table) [
  | found s ↦ found (if add_self then union s tasks else s)
  | too_deep ↦ too_deep
  | key_error ↦ key_error
]

-- A lookup gives the table it leaves in the graph and the set. A single task is the list of it.
unfoldable pub answer_from : List ℕ → Bool → Answer Table → Answer (Table × List ℕ)
unfolding gather
answer_from tasks add_self (found table) = elim (gather tasks add_self table) [
  | found s ↦ found (table, s)
  | too_deep ↦ too_deep
  | key_error ↦ key_error
]
answer_from tasks add_self too_deep = too_deep
answer_from tasks add_self key_error = key_error

unfoldable pub get_all_downstream_tasks :
    ℕ → Graph → Table → List ℕ → Bool → Answer (Table × List ℕ)
unfolding filled collect_downstream answer_from
get_all_downstream_tasks limit g table tasks add_self =
    answer_from tasks add_self (filled table (collect_downstream limit g))

unfoldable pub get_all_upstream_tasks : ℕ → Graph → Table → List ℕ → Bool → Answer (Table × List ℕ)
unfolding filled collect_upstream answer_from
get_all_upstream_tasks limit g table tasks add_self =
    answer_from tasks add_self (filled table (collect_upstream limit g))

-- The tables for downstream and upstream, then the tasks.
unfoldable pub get_bypass_tasks : ℕ → Graph → Table → Table → List ℕ → Answer (List ℕ)
unfolding get_all_downstream_tasks get_all_upstream_tasks
get_bypass_tasks limit g below above tasks =
    elim (get_all_downstream_tasks limit g below tasks false) [
      | found (_, down) ↦ elim (get_all_upstream_tasks limit g above tasks false) [
        | found (_, up) ↦ found (diff (diff (diff g.task_set down) up) tasks)
        | too_deep ↦ too_deep
        | key_error ↦ key_error
      ]
      | too_deep ↦ too_deep
      | key_error ↦ key_error
    ]
