-- ===== src/Dag/Executor/Failure.antt =====
-- shutils/dag/executor.py: a failure counted, and the last one, which destroys the context.
use shutilspy.Common.{
  ℕ, zero, suc, ◌≡◌, refl, ap, ◌∙◌, Bool, true, false, ◌&&◌, Option, none, some, [], arith, ltb,
  leb, if◌then◌else◌, ==_refl, update_lem, update_self,
}
use shutilspy.Dag.Graph.{Graph}
use shutilspy.Dag.State.{TaskState, retry, ErrorInfo}
use shutilspy.Dag.Queue.Context.{fifo_high}
use shutilspy.Dag.Contexts
use shutilspy.Dag.Executor.{destory, World, put, with_state, on_error}
use shutilspy.Dag.Task.{Config}

-- No round yet, or `k` of them.
abbrev pub counts : ℕ → Option ℕ
counts zero = none
counts (suc k) = some (suc k)

-- One failure more is counted.
abbrev pub counted : (task i : ℕ) → World → World
counted task i w = with_state i (retry task (w.states i)).0 w

pub retry-counts :
    (task k : ℕ) (s : TaskState)
    → s.retries task ≡ counts k
    → ((retry task s).1 ≡ suc k) × ((retry task s).0.retries task ≡ some (suc k))
unfolding retry
retry-counts task zero s e = (
  ground (arith, update_lem s.retries task (some 1) task, ==_refl task),
  ground (arith, update_lem s.retries task (some 1) task, ==_refl task),
)
retry-counts task (suc k) s e = (
  ground (arith, update_lem s.retries task (some (suc (suc k))) task, ==_refl task),
  ground (arith, update_lem s.retries task (some (suc (suc k))) task, ==_refl task),
)

-- The record of a failure of the task.
abbrev pub info : (task : ℕ) → ℕ → ErrorInfo
info task e = record { has_error = true; exception = some e; error_node = some task }

module _ (g : Graph) (fuel : ℕ) (cfg : Config) (task i now : ℕ) where
  abbrev charged : Bool → World → World
  charged b w = if b then counted task i w else w

  abbrev failed : ℕ → World → World
  failed e w =
      let u = charged (ltb 0 cfg.retry_times) w in
      with_state i (record (u.states i) { error_info = info task e }) u

  charged_keeps :
      (b : Bool) (w : World) → ((charged b w).tree ≡ w.tree) × ((charged b w).puts ≡ w.puts)
  charged_keeps true w = (refl, refl)
  charged_keeps false w = (refl, refl)

  fails :
      (e : ℕ) (w : World) (t : Contexts.World)
      → (ltb 0 cfg.retry_times && leb (retry task (w.states i)).1 cfg.retry_times) ≡ false
      → Contexts.destory fuel false i (failed e w).tree ≡ some t
      → on_error g fuel cfg (λ j t u. put j fifo_high u) now task i e w
        ≡ some (record (failed e w) { tree = t }, [], true)
  unfolding on_error destory
  fails e w t used gone = rw (used, on_error, gone, destory) refl

  -- A failure after the last retry destroys the context and is recorded.
  pub on_error_final :
      (e : ℕ) (w : World) (t : Contexts.World)
      → (w.states i).retries task ≡ counts cfg.retry_times
      → Contexts.destory fuel false i w.tree ≡ some t
      → (w' : World) × (on_error g fuel cfg (λ j t u. put j fifo_high u) now task i e w
          ≡ some (w', [], true))
        × (w'.tree ≡ t)
        × ((w'.states i).error_info
            ≡ record { has_error = true; exception = some e; error_node = some task })
        × (w'.puts ≡ w.puts)
  on_error_final e w t h d =
      let used : (ltb 0 cfg.retry_times && leb (retry task (w.states i)).1 cfg.retry_times)
          ≡ false =
        ground (arith, retry-counts task cfg.retry_times (w.states i) h) in
      let (same, puts) = charged_keeps (ltb 0 cfg.retry_times) w in
      let gone : Contexts.destory fuel false i (failed e w).tree ≡ some t =
        ap (Contexts.destory fuel false i) same ∙ d in
      (
        record (failed e w) { tree = t },
        fails e w t used gone,
        refl,
        ap (λ (s : TaskState). s.error_info)
            (update_self (charged (ltb 0 cfg.retry_times) w).states i
              (record ((charged (ltb 0 cfg.retry_times) w).states i) { error_info = info task e })),
        puts,
      )
