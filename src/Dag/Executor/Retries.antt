-- ===== src/Dag/Executor/Retries.antt =====
-- A task that fails: how often it is run again, and how it ends.
use shutilspy.Common.{
  ℕ, zero, suc, ◌+◌, ◌≤◌, ◌<◌, ◌≡◌, refl, sym, ap, ◌∙◌, subst, inl, inr, true, false, Option, none,
  some, List, [], ◌∷◌, ◌++◌, arith, ltb, leb, ◌==◌, if◌then◌else◌, Bool-cases, update, update_self,
}
use shutilspy.Dag.Executor.Failure.{counts, counted, retry-counts, info, on_error_final}
use shutilspy.Dag.Graph.{Graph}
use shutilspy.Dag.State.{TaskState, retry}
use shutilspy.Dag.Queue.Context.{fifo_high, ContextPriority}
use shutilspy.Dag.Contexts.Counting.{Sound, alive, destory-Done}
use shutilspy.Dag.Contexts
use shutilspy.Dag.Executor.{
  Kind, World, Result, Class, foreground_sync, foreground_other, async_task, sync_task, other_task,
  value_error, dispatch, Ran, put, with_awake, run_task, run_with, after_call, on_error,
}
use shutilspy.Dag.Task.{Config, threw}
use shutilspy.Dag.Mask.Complete.{Store}

abbrev pub thrown : Class → ℕ → ℕ
thrown foreground_sync e = e
thrown foreground_other e = value_error
thrown async_task e = e
thrown sync_task e = e
thrown other_task e = value_error

dispatch-threw : (c : Class) (e : ℕ) → dispatch c (threw e) ≡ threw (thrown c e)
dispatch-threw foreground_sync e = refl
dispatch-threw foreground_other e = refl
dispatch-threw c e = refl

module _ (g : Graph) (fuel : ℕ) (cfg : Config) (class : Class) (kind : Kind) (clock : ℕ → ℕ)
    (task i error : ℕ) where
  -- Rounds in which the call throws, the k-th of them at `clock k`.
  unfoldable pub failing : ℕ → World → Ran
  failing zero w = some (w, [], false)
  failing (suc k) w = elim (failing k w) [
    | none ↦ none
    | some (w', l, b) ↦ run_task g fuel cfg class kind (clock k) (clock k) task i (threw error) w'
  ]

  -- The queue, with the context put back into it so many times, with `FIFO_HIGH`.
  abbrev pub queued_again : ℕ → List (ℕ × ContextPriority) → List (ℕ × ContextPriority)
  queued_again zero l = l
  queued_again (suc k) l = queued_again k l ++ (i, fifo_high) ∷ []

  abbrev ReadyBy : Option ℕ → ℕ → Type 0
  ReadyBy none t = Unit
  ReadyBy (some a) t = a ≤ t

  record Waiting (first : World) (k : ℕ) (w : World) : Type 0 where
    tree : w.tree ≡ first.tree
    retries : (w.states i).retries task ≡ counts k
    ready : ReadyBy (w.awake_time i task) (clock k)
    queued : w.puts ≡ queued_again k first.puts

  -- The world once the task may run, and with the wait for the next.
  abbrev woken : Option ℕ → World → World
  woken none w = w
  woken (some t) w = with_awake i task none w

  abbrev waiting : ℕ → World → World
  waiting k w =
      if cfg.retry_interval i == 0
      then w
      else with_awake i task (some (clock k + cfg.retry_interval i)) w

  woken_keeps :
      (o : Option ℕ) (w : World)
      → ((woken o w).states ≡ w.states) × ((woken o w).tree ≡ w.tree) × ((woken o w).puts ≡ w.puts)
  woken_keeps none w = (refl, refl, refl)
  woken_keeps (some t) w = (refl, refl, refl)

  at_self : (f : ℕ → ℕ → Option ℕ) (o : Option ℕ) → update f i (update (f i) task o) i task ≡ o
  at_self f o =
      ap (λ (h : ℕ → Option ℕ). h task) (update_self f i (update (f i) task o))
      ∙ update_self (f i) task o

  woken-none :
      (o : Option ℕ) (w : World) → w.awake_time i task ≡ o → (woken o w).awake_time i task ≡ none
  woken-none none w e = e
  woken-none (some t) w e = at_self w.awake_time none

  awake_cases :
      (e k : ℕ) (w : World) (o : Option ℕ)
      → ReadyBy o (clock k)
      → (elim o as (λ _. Ran) [
        | none ↦
            after_call g fuel cfg (λ j t u. put j fifo_high u) kind (clock k) task i (threw e) w
        | some t ↦
            if ltb (clock k) t
            then some (put i fifo_high w, [], false)
            else after_call g fuel cfg
                (λ j t u. put j fifo_high u)
                kind
                (clock k)
                task
                i
                (threw e)
                (with_awake i task none w)
      ])
        ≡ on_error g fuel cfg (λ j t u. put j fifo_high u) (clock k) task i e (woken o w)
  unfolding after_call
  awake_cases e k w none h = refl
  awake_cases e k w (some t) h = let over : ltb (clock k) t ≡ false = ground arith in rw over refl

  awake-on_error :
      (e k : ℕ) (w : World)
      → ReadyBy (w.awake_time i task) (clock k)
      → run_with g fuel cfg (λ j t u. put j fifo_high u) kind (clock k) (clock k) task i (threw e) w
        ≡ on_error g fuel cfg
            (λ j t u. put j fifo_high u)
            (clock k)
            task
            i
            e
            (woken (w.awake_time i task) w)
  unfolding run_with
  awake-on_error e k w h = awake_cases e k w (w.awake_time i task) h

  run-on_error :
      (k : ℕ) (w : World)
      → ReadyBy (w.awake_time i task) (clock k)
      → run_task g fuel cfg class kind (clock k) (clock k) task i (threw error) w
        ≡ on_error g fuel cfg
            (λ j t u. put j fifo_high u)
            (clock k)
            task
            i
            (thrown class error)
            (woken (w.awake_time i task) w)
  unfolding run_task
  run-on_error k w h =
      ap
        (λ (r : Result).
          run_with g fuel cfg (λ j t u. put j fifo_high u) kind (clock k) (clock k) task i r w)
        (dispatch-threw class error)
      ∙ awake-on_error (thrown class error) k w h

  on_error_again :
      (e k : ℕ) (w : World)
      → (w.states i).retries task ≡ counts k
      → k < cfg.retry_times
      → on_error g fuel cfg (λ j t u. put j fifo_high u) (clock k) task i e w
        ≡ some (put i fifo_high (waiting k (counted task i w)), [], false)
  unfolding on_error
  on_error_again e k w h lt =
      let more : ltb 0 cfg.retry_times ≡ true = ground arith in
      let left : leb (retry task (w.states i)).1 cfg.retry_times ≡ true =
        ground (arith, retry-counts task k (w.states i) h) in
      rw (more, on_error, left) refl

  counted-Waiting :
      (first : World) (k : ℕ) (w : World)
      → clock k + cfg.retry_interval i ≤ clock (suc k)
      → w.tree ≡ first.tree
      → (w.states i).retries task ≡ counts k
      → w.puts ≡ queued_again k first.puts
      → ReadyBy (w.awake_time i task) (clock (suc k))
      → Waiting first (suc k) (put i fifo_high (waiting k (counted task i w)))
  counted-Waiting first k w on_time same h queued ready =
      elim (Bool-cases (cfg.retry_interval i == 0)) [
        | inl z ↦ rw z (record {
          tree = same;
          retries =
              ap (λ (s : TaskState). s.retries task)
                (update_self w.states i (retry task (w.states i)).0)
              ∙ (retry-counts task k (w.states i) h).1;
          ready = ready;
          queued = ap (λ (l : List (ℕ × ContextPriority)). l ++ (i, fifo_high) ∷ []) queued;
        })
        | inr z ↦ rw z (record {
          tree = same;
          retries =
              ap (λ (s : TaskState). s.retries task)
                (update_self w.states i (retry task (w.states i)).0)
              ∙ (retry-counts task k (w.states i) h).1;
          ready =
              subst (λ o. ReadyBy o (clock (suc k)))
                (sym (at_self w.awake_time (some (clock k + cfg.retry_interval i)))) on_time;
          queued = ap (λ (l : List (ℕ × ContextPriority)). l ++ (i, fifo_high) ∷ []) queued;
        })
      ]

  -- One more round, while there are retries left.
  again :
      (first : World) (k : ℕ) (w : World)
      → clock k + cfg.retry_interval i ≤ clock (suc k)
      → k < cfg.retry_times
      → Waiting first k w
      → (w' : World) × (run_task g fuel cfg class kind (clock k) (clock k) task i (threw error) w
          ≡ some (w', [], false))
        × Waiting first (suc k) w'
  again first k w on_time left v =
      let u = woken (w.awake_time i task) w in
      let (states, tree, puts) = woken_keeps (w.awake_time i task) w in
      (
        put i fifo_high (waiting k (counted task i u)),
        run-on_error k w v.ready
            ∙ on_error_again (thrown class error) k u
                (ap (λ (s : Store). (s i).retries task) states ∙ v.retries) left,
        counted-Waiting first k u on_time (tree ∙ v.tree)
            (ap (λ (s : Store). (s i).retries task) states ∙ v.retries) (puts ∙ v.queued)
            (subst (λ o. ReadyBy o (clock (suc k))) (sym (woken-none (w.awake_time i task) w refl))
              tt),
      )

  first_rounds :
      (first : World)
      → ((k : ℕ) → clock k + cfg.retry_interval i ≤ clock (suc k))
      → (first.states i).retries task ≡ none
      → first.awake_time i task ≡ none
      → (k : ℕ) → k ≤ cfg.retry_times
      → (w : World) × (failing k first ≡ some (w, [], false)) × Waiting first k w
  unfolding failing
  first_rounds first on_time fresh awake zero h = (
    first,
    refl,
    record {
      tree = refl;
      retries = fresh;
      ready = subst (λ o. ReadyBy o (clock 0)) (sym awake) tt;
      queued = refl;
    },
  )
  first_rounds first on_time fresh awake (suc k) h =
      let (w, e, v) = first_rounds first on_time fresh awake k (omega arith) in
      let (w', f, v') = again first k w (on_time k) (omega arith) v in (w', rw (e, failing) f, v')

  -- The round after the last retry.
  final :
      (first : World) (w : World)
      → Sound first.tree
      → alive first.tree < fuel
      → Waiting first cfg.retry_times w
      → (w' : World) × (run_task g fuel cfg class kind
            (clock cfg.retry_times)
            (clock cfg.retry_times)
            task
            i
            (threw error)
            w
          ≡ some (w', [], true))
        × ((w'.tree.context i).is_destory ≡ true)
        × ((w'.states i).error_info ≡ record {
          has_error = true;
          exception = some (thrown class error);
          error_node = some task;
        })
        × (w'.puts ≡ queued_again cfg.retry_times first.puts)
  final first w sound enough v =
      let u = woken (w.awake_time i task) w in
      let (states, tree, puts) = woken_keeps (w.awake_time i task) w in
      let (d, gone) = destory-Done fuel false i first.tree sound enough in
      let (w', e, tree_after, noted, same_puts) =
        on_error_final g fuel cfg task i (clock cfg.retry_times) (thrown class error) u d.after
          (ap (λ (s : Store). (s i).retries task) states ∙ v.retries)
          (ap (Contexts.destory fuel false i) (tree ∙ v.tree) ∙ d.returned) in
      (
        w',
        run-on_error cfg.retry_times w v.ready ∙ e,
        ap (λ (t : Contexts.World). (t.context i).is_destory) tree_after ∙ gone,
        noted,
        same_puts ∙ puts ∙ v.queued,
      )

  -- A task that fails whenever it is called, in a context where it has not failed before and whose
  -- turns come after each wait: each of the first `retry_times` calls counts one failure more, and
  -- puts that context behind the queue again, with `FIFO_HIGH`; the next call is the last, puts
  -- nothing, destroys the context and records the error and the task. The runtime counter is exact,
  -- and the fuel is above the number of contexts alive.
  pub failing_rounds :
      (first : World)
      → Sound first.tree
      → alive first.tree < fuel
      → ((k : ℕ) → clock k + cfg.retry_interval i ≤ clock (suc k))
      → (first.states i).retries task ≡ none
      → first.awake_time i task ≡ none
      → ((k : ℕ)
          → k ≤ cfg.retry_times
          → (w : World) × (failing k first ≡ some (w, [], false))
            × (w.tree ≡ first.tree)
            × ((w.states i).retries task ≡ counts k)
            × (w.puts ≡ queued_again k first.puts))
        × ((w : World) × (failing (suc cfg.retry_times) first ≡ some (w, [], true))
            × ((w.tree.context i).is_destory ≡ true)
            × ((w.states i).error_info ≡ info task (thrown class error))
            × (w.puts ≡ queued_again cfg.retry_times first.puts))
  unfolding failing
  failing_rounds first sound enough on_time fresh awake =
      let rounds = first_rounds first on_time fresh awake in
      let (w, e, v) = rounds cfg.retry_times (omega arith) in
      let (w', f, gone, noted, puts) = final first w sound enough v in
      (
        λ k h. let (u, d, at) = rounds k h in (u, d, at.tree, at.retries, at.queued),
        (w', rw (e, failing) f, gone, noted, puts),
      )
