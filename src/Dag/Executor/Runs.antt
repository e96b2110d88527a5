-- ===== src/Dag/Executor/Runs.antt =====
-- `_run_task` when the call returns, or is turned away.
use shutilspy.Common.{
  ℕ, ◌<◌, ◌≡◌, refl, ap, ◌∙◌, ◌≢◌, Bool, true, false, none, some, List, [], ◌∷◌, arith, All, has,
}
use shutilspy.Dag.Graph.{Graph}
use shutilspy.Dag.Queue.Context.{fifo_high}
use shutilspy.Dag.Task.{Config, Task, Outcome, passed, limited, gave, call, call_before}
use shutilspy.Dag.Mask.Complete.{IsOlder, self}
use shutilspy.Dag.Executor.{
  World, Kind, plain, loop, output, made, parents, put, complete_outs, outs_of, run_task, dispatch,
  Class, foreground_sync, foreground_other, async_task, sync_task, other_task, run_with, after_call,
  through, Result,
}
use shutilspy.Dag.Executor.Completes.{out_id, completes, unwraps, IsDone, Outs-done}

unwraps-outs_of : (l : List (ℕ × Kind)) → unwraps (outs_of l) ≡ l
unwraps-outs_of [] = refl
unwraps-outs_of ((i, k) ∷ l) = ap (λ (r : List (ℕ × Kind)). (i, k) ∷ r) (unwraps-outs_of l)

-- The classes of tasks that `Executor` calls; it raises for the others.
abbrev pub is_called : Class → Bool
is_called foreground_sync = true
is_called foreground_other = false
is_called async_task = true
is_called sync_task = true
is_called other_task = false

dispatch_called : (c : Class) (r : Result) → is_called c ≡ true → dispatch c r ≡ r
dispatch_called foreground_sync r h = refl
dispatch_called foreground_other r h = absurd (cc)
dispatch_called async_task r h = refl
dispatch_called sync_task r h = refl
dispatch_called other_task r h = absurd (cc)

not_loop : (i : ℕ) (kind : Kind) → kind ≢ loop → completes (made i kind) ≡ true
not_loop i plain h = refl
not_loop i loop h = absurd (h refl)
not_loop i output h = refl

module _ (g : Graph) (fuel : ℕ) (cfg : Config) (class : Class) (kind : Kind)
    (called : is_called class ≡ true) (now later task i : ℕ) (w : World)
    (older : IsOlder g (parents w)) (awake : w.awake_time i task ≡ none) where
  run-after_call :
      (r : Result)
      → run_task g fuel cfg class kind now later task i r w
        ≡ after_call g fuel cfg (λ j t u. put j fifo_high u) kind later task i r w
  unfolding run_task run_with
  run-after_call r =
      ap
        (λ (x : Result). run_with g fuel cfg (λ j t u. put j fifo_high u) kind now later task i x w)
        (dispatch_called class r called)
      ∙ rw (awake, run_with) refl

  -- A call that the executor makes (of an async or a sync task, or of a sync one in the foreground)
  -- and that returns contexts gives them on, changes neither the queue nor the tree, and
  -- completes the task in every one of them that is not of a loop, and in all contexts above it,
  -- where these do not skip their next completion. Parents are older, the task is not put to sleep,
  -- and the fuel is above the contexts' numbers.
  pub returned_completes :
      (l : List (ℕ × Kind))
      → All (λ o. out_id o < fuel) (outs_of l)
      → (w' : World) × (run_task g fuel cfg class kind now later task i (gave l) w
          ≡ some (w', l, true))
        × (w'.tree ≡ w.tree)
        × (w'.puts ≡ w.puts)
        × All (IsDone g fuel task w w'.states) (outs_of l)
  unfolding after_call
  returned_completes l h =
      let r = Outs-done g fuel task (outs_of l) w older h in
      (
        r.after,
        run-after_call (gave l)
            ∙ ap through r.returned
            ∙ ap (λ (x : List (ℕ × Kind)). some (r.after, x, true)) (unwraps-outs_of l),
        r.tree,
        r.puts,
        r.done,
      )

  -- A context, not of a loop, that the limit on parallel calls turns away is given on as if the task
  -- had run: the task is completed in it, whatever its function would have done. The executor calls
  -- tasks of the class, the context does not skip its next completion, parents are older, the task
  -- is not put to sleep, and the fuel is above the context's number.
  pub turned_away_completes :
      {A : Type 0} (truthy : A → Bool) (t : Task A) (outcome : Outcome (ℕ × Kind))
      → 0 < t.config.parallel_num
      → t.config.parallel_num < t.running_task_num
      → i < fuel
      → kind ≢ loop
      → (w.states i).skip_complete ≡ false
      → (w' : World) × (run_task g fuel cfg class kind now later task i
            (call truthy now outcome t).1
            w
          ≡ some (w', (i, kind) ∷ [], true))
        × (has task (w'.states i).completed ≡ true)
  unfolding after_call call call_before
  turned_away_completes truthy t outcome p full lt plainly counting =
      let r = Outs-done g fuel task (made i kind ∷ []) w older (lt, tt) in
      let away : (call truthy now outcome t).1 ≡ passed = ground arith in
      (
        r.after,
        ap (λ (x : Result). run_task g fuel cfg class kind now later task i x w) away
            ∙ run-after_call passed
            ∙ ap through r.returned,
        r.done.0 (not_loop i kind plainly) i self counting,
      )

  -- A context that the limiter turns away comes back as it was, with the task not completed.
  limited_kept :
      run_task g fuel cfg class kind now later task i limited w ≡ some (w, (i, kind) ∷ [], true)
  unfolding after_call complete_outs
  limited_kept = run-after_call limited
