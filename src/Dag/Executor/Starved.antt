-- ===== src/Dag/Executor/Starved.antt =====
-- A task that a new context never reaches: one below the task that made the context, which also waits
-- for a task above that.
use shutilspy.Common.{ℕ, ◌≡◌, true, false, ◌==◌, has}
use shutilspy.Dag.Graph.{Graph}
use shutilspy.Dag.Graph.Closure.{Leads}
use shutilspy.Dag.Graph.Bypass.{IsLayered}
use shutilspy.Dag.State.{TaskState, complete}

-- How a context goes on: a task that may run is completed, or one is that may not, by a router or
-- another mask or by a context below, but neither `d` nor a task above `t`.
pub data Goes (g : Graph) (t d : ℕ) : TaskState → TaskState → Type 0 where
  rests : (s : TaskState) → Goes g t d s s
  runs :
      {s s' : TaskState} (y : ℕ)
      → has y s.available ≡ true
      → Goes g t d (complete g y s) s'
      → Goes g t d s s'
  masks :
      {s s' : TaskState} (y : ℕ)
      → ¬ Leads g.downstream y t
      → (y == d) ≡ false
      → Goes g t d (complete g y s) s'
      → Goes g t d s s'

module _ (g : Graph) (rank : ℕ → ℕ) (layered : IsLayered g rank) (t u d : ℕ)
    (over : Leads g.downstream u t) (below : has d (g.downstream t) ≡ true)
    (waits : has u (g.upstream d) ≡ true) where
  -- No task above `t` is done or may run, nor is `d`.
  record Starved (s : TaskState) : Type 0 where
    done : (x : ℕ) → Leads g.downstream x t → has x s.completed ≡ false
    ready : (x : ℕ) → Leads g.downstream x t → has x s.available ≡ false
    left : has d s.completed ≡ false
    idle : has d s.available ≡ false
