-- ===== src/Dag/Executor/Tests.antt =====
-- Running tasks in a small tree of contexts.
use shutilspy.Common.{
  ℕ, ◌*◌, ◌≤◌, ◌≡◌, refl, ◌⊎◌, Bool, true, false, Option, none, some, [], ◌∷◌, arith, ltb, ◌==◌,
  if◌then◌else◌, All, has, update,
}
use shutilspy.Common.Int.{pos}
use shutilspy.Dag.Graph.Sample.{sample}
use shutilspy.Dag.State
use shutilspy.Dag.Contexts
use shutilspy.Dag.Contexts.Counting.{Sound}
use shutilspy.Dag.Task.{Config, Task, gave, call, returned}
use shutilspy.Dag.Mask.Complete
use shutilspy.Dag.Executor.{World, plain, loop, made, async_task, sync_task, run_task, parents}
use shutilspy.Dag.Executor.Retries.{failing, queued_again, failing_rounds}
use shutilspy.Dag.Executor.Failure.{counts}
use shutilspy.Dag.Queue.Context.{fifo_high}
use shutilspy.Dag.Executor.Completes.{IsDone}
use shutilspy.Dag.Executor.Runs.{returned_completes, turned_away_completes}
use shutilspy.Dag.Executor.Postprocess.{context_gc, Rounds}
use shutilspy.Dag.Executor.Living.{IsReferred, IsOlder, context_gc_exact}
use shutilspy.Dag.Executor.Fresh.{fresh}

abbrev config : Config
config = record { retry_times = 2; retry_interval = λ _. 3; parallel_num = 1 }

abbrev context : Option ℕ → Bool → Contexts.Context
context parent dead = record {
  parent = parent;
  children = [];
  child_num = pos 0;
  has_runtime = false;
  is_destory = dead;
  freezing = false;
  skip_complete = false;
}

-- Contexts 0 and 1, the second below the first.
abbrev tree : Contexts.World
tree = record {
  context = λ i.
      if i == 0
      then context none false
      else if i == 1
      then context (some 0) false
      else context none true;
  next = 2;
  counter = pos 0;
}

tree-Sound : Sound tree
tree-Sound = record { exact = refl; fresh = λ i h. ground arith }

abbrev world : World
world = record { tree = tree; states = λ _. State.init; awake_time = λ _ _. none; puts = [] }

code : Unit {0}
unfolding State.init
code = tt

failing_rounds_example :
    ((k : ℕ)
      → k ≤ 2
      → (w : World) × (failing sample 3 config async_task plain (λ k. 3 * k) 4 1 7 k world
          ≡ some (w, [], false))
        × (w.tree ≡ tree)
        × ((w.states 1).retries 4 ≡ counts k)
        × (w.puts ≡ queued_again sample 3 config async_task plain (λ k. 3 * k) 4 1 7 k []))
    × ((w : World) × (failing sample 3 config async_task plain (λ k. 3 * k) 4 1 7 3 world
          ≡ some (w, [], true))
        × ((w.tree.context 1).is_destory ≡ true)
        × ((w.states 1).error_info
            ≡ record { has_error = true; exception = some 7; error_node = some 4 })
        × (w.puts ≡ (1, fifo_high) ∷ (1, fifo_high) ∷ []))
unfolding code
failing_rounds_example =
    failing_rounds sample 3 config async_task plain (λ k. 3 * k) 4 1 7 world tree-Sound
      (omega arith) (λ k. omega arith) refl refl

older : Complete.IsOlder sample (parents world)
older i p e = ground arith

returned_completes_example :
    (w' : World) × (run_task sample 3 config sync_task plain 0 0 4 1
        (gave ((1, plain) ∷ (0, loop) ∷ []))
        world
      ≡ some (w', (1, plain) ∷ (0, loop) ∷ [], true))
    × (w'.tree ≡ tree)
    × (w'.puts ≡ [])
    × All (IsDone sample 3 4 world w'.states) (made 1 plain ∷ made 0 loop ∷ [])
returned_completes_example =
    returned_completes sample 3 config sync_task plain refl 0 0 4 1 world older refl
      ((1, plain) ∷ (0, loop) ∷ []) (omega arith, (omega arith, tt))

abbrev busy : Task ℕ
busy = record { id = 4; config = config; running_task_num = 2; rate_limiter = none }

abbrev truthy : ℕ → Bool
truthy s = true

turned_away_completes_example :
    (w' : World) × (run_task sample 3 config sync_task plain 0 0 4 1
        (call truthy 0 (returned []) busy).1
        world
      ≡ some (w', (1, plain) ∷ [], true))
    × (has 4 (w'.states 1).completed ≡ true)
unfolding code
turned_away_completes_example =
    turned_away_completes sample 3 config sync_task plain refl 0 0 4 1 world older refl truthy busy
      (returned []) (omega arith) (omega arith) (omega arith) (λ e. cc) refl

-- Context 0 has context 1 below it, and counts it.
abbrev parent_tree : Contexts.World
parent_tree = record tree {
  context =
      update tree.context 0 (record (context none false) { children = 1 ∷ []; child_num = pos 1 });
}

parent_tree-IsOlder : IsOlder parent_tree
unfolding update
parent_tree-IsOlder i = ground arith

parent_tree-Sound : Sound parent_tree
unfolding update
parent_tree-Sound = record { exact = refl; fresh = λ i h. ground arith }

childless :
    (o : ℕ)
    → has o (1 ∷ []) ≡ true
    → (o ≤ 3) × (Contexts.is_zero (parent_tree.context o).child_num ≡ true)
unfolding has update
childless o h = (ground arith, ground arith)

-- A thread destroys context 1 after two rounds.
abbrev rounds : Rounds
rounds k = if ltb k 2 then parent_tree else tree

context_gc_exact_example :
    (w' : Contexts.World) × (context_gc 3 (λ k. parent_tree) 0 (1 ∷ []) ≡ some w')
    × ((IsReferred parent_tree (1 ∷ []) 0 × (w' ≡ parent_tree))
        ⊎ ((¬ IsReferred parent_tree (1 ∷ []) 0) × ((w'.context 0).is_destory ≡ true)))
unfolding update
context_gc_exact_example =
    context_gc_exact 3 (λ k. parent_tree) 0 (1 ∷ []) parent_tree-IsOlder parent_tree-Sound
      (omega arith) refl childless
