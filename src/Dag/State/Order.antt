-- ===== src/Dag/State/Order.antt =====
-- The order in which the tasks of a context run: every schedule completes an available task at a
-- time, after the source.
use shutilspy.Common.{
  ℕ, ◌≡◌, refl, true, false, ◌||◌, List, [], ◌∷◌, arith, ◌==◌, has, add, all_in, has-add, ◌≢◌,
  all_in_sound,
}
use shutilspy.Dag.Graph.{Graph}
use shutilspy.Dag.Graph.Edges.{IsSymmetric}
use shutilspy.Dag.State.{TaskState, init, complete}
use shutilspy.Dag.State.Ready.{ready, complete-Tracks, init-Tracks}

-- What `run` of an executor does first.
unfoldable pub start : Graph → TaskState
unfolding complete init
start g = complete g g.in_task init

-- A worker completes any one of the available tasks.
pub data Step (g : Graph) (s : TaskState) : TaskState → Type 0 where
  finish : (t : ℕ) → has t s.available ≡ true → Step g s (complete g t s)

pub data Reach (g : Graph) : TaskState → Type 0 where
  here : Reach g (start g)
  next : {s s' : TaskState} → Reach g s → Step g s s' → Reach g s'

-- Every completed task but the source has all its upstream tasks completed.
pub record Inv (g : Graph) (s : TaskState) : Type 0 where
  pub tracks : (t : ℕ) → has t s.available ≡ ready g s.completed t
  pub ordered :
      (t : ℕ)
      → has t s.completed ≡ true
      → (t == g.in_task || all_in (g.upstream t) s.completed) ≡ true
  pub started : has g.in_task s.completed ≡ true
  pub counting : s.skip_complete ≡ false

all_in-add_mono : (t : ℕ) (s done : List ℕ) → all_in s done ≡ true → all_in s (add t done) ≡ true
unfolding all_in
all_in-add_mono t [] done h = refl
all_in-add_mono t (x ∷ s) done h = ground (arith, all_in-add_mono t s done, has-add x t done)

start-Inv : (g : Graph) → IsSymmetric g → Inv g (start g)
unfolding start init complete has
start-Inv g symmetric = record {
  tracks = complete-Tracks g g.in_task init symmetric (init-Tracks g);
  ordered = λ t h. ground (arith, has-add t g.in_task []);
  started = ground (arith, has-add g.in_task g.in_task []);
  counting = refl;
}

finish-Inv :
    (g : Graph) (t : ℕ) (s : TaskState)
    → IsSymmetric g
    → has t s.available ≡ true
    → Inv g s
    → Inv g (complete g t s)
unfolding complete ready
finish-Inv g t s symmetric h v = record {
  tracks = complete-Tracks g t s symmetric v.tracks;
  ordered = λ u done. ground (
    arith,
    v.tracks t,
    v.ordered u,
    v.counting,
    has-add u t s.completed,
    all_in-add_mono t (g.upstream u) s.completed,
  );
  started = ground (arith, v.started, v.counting, has-add g.in_task t s.completed);
  counting = ground (arith, v.counting);
}

pub Reach-Inv : (g : Graph) → IsSymmetric g → {s : TaskState} → Reach g s → Inv g s
Reach-Inv g symmetric here = start-Inv g symmetric
Reach-Inv g symmetric (next {s} r (finish t h)) =
    finish-Inv g t s symmetric h (Reach-Inv g symmetric r)

-- In every state that a schedule reaches, a completed task other than the source has every task
-- upstream of it completed.
pub Reach-ordered :
    (g : Graph)
    → IsSymmetric g
    → {s : TaskState} → Reach g s
    → (t u : ℕ) → has t s.completed ≡ true
    → t ≢ g.in_task
    → has u (g.upstream t) ≡ true
    → has u s.completed ≡ true
Reach-ordered g symmetric {s} r t u done other up =
    let v = Reach-Inv g symmetric r in
    all_in_sound u (g.upstream t) s.completed (ground (arith, v.ordered t done)) up
