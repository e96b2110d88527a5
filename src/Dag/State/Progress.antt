-- ===== src/Dag/State/Progress.antt =====
-- No schedule of an acyclic graph stops early, and none goes on for ever.
use shutilspy.Common.{
  ℕ, zero, suc, ◌+◌, ◌≤◌, ◌<◌, ◌≡◌, refl, ◌∙◌, inl, inr, true, false, not, ◌||◌, List, [], ◌∷◌,
  arith, ◌==◌, if◌then◌else◌, Bool-cases, length, is_empty, has, add, all_in, has-add, all_in_sound,
}
use shutilspy.Dag.Graph.{Graph}
use shutilspy.Dag.Graph.Edges.{IsSymmetric}
use shutilspy.Dag.State.{TaskState, init, complete}
use shutilspy.Dag.State.Ready.{ready}
use shutilspy.Dag.State.Order.{Inv, Reach, Step, start, Reach-Inv}

-- What a built graph is expected to be: `rank` orders the tasks along the edges, only the source
-- has nothing upstream, and the edges join tasks of the graph.
pub record IsWired (g : Graph) (rank : ℕ → ℕ) : Type 0 where
  pub symmetric : IsSymmetric g
  pub rises : (u t : ℕ) → has u (g.upstream t) ≡ true → rank u < rank t
  pub fed :
      (t : ℕ) → has t g.tasks ≡ true → (t == g.in_task || not (is_empty (g.upstream t))) ≡ true
  pub above : (u t : ℕ) → has t g.tasks ≡ true → has u (g.upstream t) ≡ true → has u g.tasks ≡ true
  pub below :
      (u t : ℕ) → has u g.tasks ≡ true → has t (g.downstream u) ≡ true → has t g.tasks ≡ true
  pub rooted : has g.in_task g.tasks ≡ true

-- The first element that a test of inclusion misses.
missing :
    (s done : List ℕ) → all_in s done ≡ false → (u : ℕ) × (has u s ≡ true) × (has u done ≡ false)
unfolding all_in has
missing [] done h = absurd (cc h)
missing (x ∷ s) done h = elim (Bool-cases (has x done)) [
  | inl e ↦ let (u, m, n) = missing s done (ground arith) in (u, ground arith, n)
  | inr e ↦ (x, ground arith, e)
]

-- Below every task that is not done there is one that can run.
progress_below :
    (g : Graph) {rank : ℕ → ℕ} {s : TaskState}
    → IsWired g rank
    → Inv g s
    → (k t : ℕ) → rank t < k
    → has t g.tasks ≡ true
    → has t s.completed ≡ false
    → (a : ℕ) × (has a s.available ≡ true)
unfolding ready
progress_below g w v zero t lt h n = elim lt [ ]
progress_below g {rank} {s} w v (suc k) t lt h n =
    elim (Bool-cases (all_in (g.upstream t) s.completed)) [
      | inl e ↦ (t, available e)
      | inr e ↦
          let (u, m, fresh) = missing (g.upstream t) s.completed e in
          let below : rank u < rank t = w.rises u t m in
          progress_below g w v k u (omega arith) (w.above u t h m) fresh
    ]
  where
    available : all_in (g.upstream t) s.completed ≡ true → has t s.available ≡ true
    available e = ground (arith, v.tracks t, v.started, w.fed t h)

-- Where no task is available, every task is done.
pub idle-done :
    (g : Graph) {rank : ℕ → ℕ} {s : TaskState}
    → IsWired g rank
    → Reach g s
    → s.available ≡ []
    → (t : ℕ) → has t g.tasks ≡ true
    → has t s.completed ≡ true
unfolding has
idle-done g {rank} {s} w r none_left t h = elim (Bool-cases (has t s.completed)) [
  | inl e ↦ e
  | inr e ↦
      let (a, m) =
        progress_below g w (Reach-Inv g w.symmetric r) (suc (rank t)) t (omega arith) h e in
      absurd (cc (rw none_left at m))
]

-- How many of the listed tasks are not done.
unfoldable pub remaining : List ℕ → List ℕ → ℕ
remaining [] done = 0
remaining (x ∷ xs) done = (if has x done then 0 else 1) + remaining xs done

remaining-le : (ts : List ℕ) (t : ℕ) (done : List ℕ) → remaining ts (add t done) ≤ remaining ts done
unfolding remaining
remaining-le [] t done = omega arith
remaining-le (x ∷ xs) t done = ground (arith, remaining-le xs t done, has-add x t done)

remaining-lt :
    (ts : List ℕ) (t : ℕ) (done : List ℕ)
    → has t ts ≡ true
    → has t done ≡ false
    → remaining ts (add t done) < remaining ts done
unfolding remaining has
remaining-lt [] t done m n = absurd (cc m)
remaining-lt (x ∷ xs) t done m n =
    ground (arith, remaining-le xs t done, remaining-lt xs t done, has-add x t done)

first : (s : List ℕ) → is_empty s ≡ false → (u : ℕ) × (has u s ≡ true)
unfolding has
first [] h = absurd (cc h)
first (x ∷ s) h = (x, ground arith)

nil_of_empty : (s : List ℕ) → is_empty s ≡ true → s ≡ []
nil_of_empty [] h = refl
nil_of_empty (x ∷ s) h = absurd (cc h)

-- A task that may run is one of the graph's, if all that is done is.
inside :
    (g : Graph) {rank : ℕ → ℕ} {s : TaskState}
    → IsWired g rank
    → Inv g s
    → ((u : ℕ) → has u s.completed ≡ true → has u g.tasks ≡ true)
    → (t : ℕ) → has t s.available ≡ true
    → has t g.tasks ≡ true
unfolding ready
inside g {s} w v done t h =
    let (u, m) = first (g.upstream t) (ground (arith, v.tracks t)) in
    let finished : has u s.completed ≡ true =
      all_in_sound u (g.upstream t) s.completed (ground (arith, v.tracks t)) m in
    w.below u t (done u finished) (w.symmetric u t ∙ m)

-- A schedule of `n` steps.
pub data Run (g : Graph) : ℕ → TaskState → Type 0 where
  here : Run g 0 (start g)
  next : {n : ℕ} {s s' : TaskState} → Run g n s → Step g s s' → Run g (suc n) s'

pub Run-Reach : (g : Graph) {n : ℕ} {s : TaskState} → Run g n s → Reach g s
Run-Reach g here = Reach.here
Run-Reach g (next r st) = Reach.next (Run-Reach g r) st

Run-inside :
    (g : Graph) {rank : ℕ → ℕ} {n : ℕ} {s : TaskState}
    → IsWired g rank
    → Run g n s
    → (u : ℕ) → has u s.completed ≡ true
    → has u g.tasks ≡ true
unfolding complete start init has
Run-inside g w here u h = ground (arith, has-add u g.in_task [], w.rooted)
Run-inside g w (next {s} r (Step.finish t m)) u h =
    let v = Reach-Inv g w.symmetric (Run-Reach g r) in
    let all = Run-inside g w r in
    ground (arith, has-add u t s.completed, all u, inside g w v all t m)

remaining-le-length : (ts done : List ℕ) → remaining ts done ≤ length ts
unfolding remaining
remaining-le-length [] done = omega arith
remaining-le-length (x ∷ xs) done = ground (arith, remaining-le-length xs done)

-- Each step finishes one more task, so no schedule has more steps than there are tasks.
pub Run-bounded :
    (g : Graph) {rank : ℕ → ℕ} {n : ℕ} {s : TaskState}
    → IsWired g rank
    → Run g n s
    → n + remaining g.tasks s.completed ≤ length g.tasks
unfolding complete ready
Run-bounded g w here = omega (arith, remaining-le-length g.tasks (start g).completed)
Run-bounded g w (next {n} {s} r (Step.finish t m)) =
    let v = Reach-Inv g w.symmetric (Run-Reach g r) in
    let all = Run-inside g w r in
    ground (
      arith,
      v.tracks t,
      v.counting,
      inside g w v all t m,
      remaining-lt g.tasks t s.completed,
      Run-bounded g w r,
    )

-- Every task of the graph is done.
abbrev pub Finished : Graph → TaskState → Type 0
Finished g s = (t : ℕ) → has t g.tasks ≡ true → has t s.completed ≡ true

-- The steps from one state to another.
pub data Steps (g : Graph) : TaskState → TaskState → Type 0 where
  stay : (s : TaskState) → Steps g s s
  more : {s s' s'' : TaskState} → Step g s s' → Steps g s' s'' → Steps g s s''

Run-on :
    (g : Graph) {rank : ℕ → ℕ} (k n : ℕ) (s : TaskState)
    → IsWired g rank
    → Run g n s
    → length g.tasks < n + k
    → (s' : TaskState) × Steps g s s' × Finished g s'
Run-on g zero n s w r lt = absurd (omega (arith, Run-bounded g w r))
Run-on g (suc k) n s w r lt = elim (Bool-cases (is_empty s.available)) [
  | inl e ↦ (s, stay s, idle-done g w (Run-Reach g r) (nil_of_empty s.available e))
  | inr e ↦
      let (t, m) = first s.available e in
      let st : Step g s (complete g t s) = Step.finish t m in
      let (s', rest, done) = Run-on g k (suc n) (complete g t s) w (next r st) (omega arith) in
      (s', more st rest, done)
]

-- From every state of every schedule, steps lead to a state in which every task is done.
pub Run-Finished :
    (g : Graph) {rank : ℕ → ℕ} {n : ℕ} {s : TaskState}
    → IsWired g rank
    → Run g n s
    → (s' : TaskState) × Steps g s s' × Finished g s'
Run-Finished g {n} {s} w r = Run-on g (suc (length g.tasks)) n s w r (omega arith)
