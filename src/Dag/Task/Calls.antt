-- ===== src/Dag/Task/Calls.antt =====
-- Calls of one `AsyncTask` that overlap: the task's counters, and the calls under way and those that
-- threw. They run on the thread of one event loop, and `call_before` and `call_after` hold no
-- `await`, so each of these is one step. The calls of a `SyncTask`, which run on threads of a pool and
-- can overlap inside `call_before`, are left out.
use shutilspy.Common.{
  ℕ, zero, suc, ◌+◌, ◌-◌, ◌≤◌, ◌<◌, ◌≡◌, refl, ap, ◌∙◌, Bool, true, ◌&&◌, Option, none, arith, ltb,
}
use shutilspy.Dag.Task.{
  Task, Config, call_before, call_after, proceed, same_context, rate_limited, init, Limiter,
}

pub record Calls (A : Type 0) : Type 0 where
  pub task : Task A
  pub inside : ℕ
  pub threw : ℕ

module _ {A : Type 0} (truthy : A → Bool) where
  -- A coroutine goes through `call_before`, and calls if that returns `None`.
  unfoldable pub enter : ℕ → Calls A → Calls A
  enter now c =
      let r = call_before truthy now c.task in
      record c {
        task = r.0;
        inside = elim r.1 [
          | proceed ↦ c.inside + 1
          | same_context ↦ c.inside
          | rate_limited ↦ c.inside
        ];
      }

  -- `call` returns, and `call_after` runs; or it throws, and `call_after` does not.
  pub data Move (c : Calls A) : Calls A → Type 0 where
    begin : (now : ℕ) → Move c (enter now c)
    finish :
        0 < c.inside → Move c (record c { task = call_after truthy c.task; inside = c.inside - 1 })
    throw : 0 < c.inside → Move c (record c { inside = c.inside - 1; threw = c.threw + 1 })

  pub data Reach (start : Task A) : Calls A → Type 0 where
    here : Reach start (record { task = start; inside = 0; threw = 0 })
    next : {c c' : Calls A} → Reach start c → Move c c' → Reach start c'

  -- What is counted as running: the calls under way and, for ever, those that threw.
  pub record Inv (config : Config) (c : Calls A) : Type 0 where
    pub running : c.task.running_task_num ≡ c.inside + c.threw
    pub same : c.task.config ≡ config
    pub capped : 0 < config.parallel_num → c.inside + c.threw ≤ config.parallel_num + 1

  enter-Inv : (config : Config) (now : ℕ) (c : Calls A) → Inv config c → Inv config (enter now c)
  unfolding enter call_before
  enter-Inv config now c v = record {
    running = ground (arith, v.running);
    same = ground (arith, v.same);
    capped = λ p. ground (arith, v.running, v.capped p, ap (λ (k : Config). k.parallel_num) v.same);
  }

  Move-Inv : (config : Config) {c c' : Calls A} → Move c c' → Inv config c → Inv config c'
  unfolding call_after
  Move-Inv config {c} (begin now) v = enter-Inv config now c v
  Move-Inv config {c} (finish h) v = record {
    running = ground (arith, v.running);
    same = v.same;
    capped = λ p. ground (arith, v.capped p);
  }
  Move-Inv config {c} (throw h) v = record {
    running = ground (arith, v.running);
    same = v.same;
    capped = λ p. ground (arith, v.capped p);
  }

  pub Reach-Inv :
      (id : ℕ) (config : Config) (limiter : Option (Limiter A)) {c : Calls A}
      → Reach (init truthy id config limiter) c
      → Inv config c
  unfolding init
  Reach-Inv id config limiter here = record {
    running = omega arith;
    same = refl;
    capped = λ p. omega arith;
  }
  Reach-Inv id config limiter (next r m) = Move-Inv config m (Reach-Inv id config limiter r)

  -- However the calls of an async task overlap, on the one thread of their event loop, the counter
  -- is the number of the calls under way and of those that threw, and with a limit these are at most
  -- one more than the limit.
  pub calls_counted :
      (id : ℕ) (config : Config) (limiter : Option (Limiter A)) {c : Calls A}
      → Reach (init truthy id config limiter) c
      → (c.task.running_task_num ≡ c.inside + c.threw)
        × (0 < config.parallel_num → c.inside + c.threw ≤ config.parallel_num + 1)
  calls_counted id config limiter r = let v = Reach-Inv id config limiter r in (v.running, v.capped)

  -- Once more calls of an async task threw than may run at a time, every later call is turned away,
  -- and changes nothing: the task never runs again. There is a limit on parallel calls.
  pub thrown_out :
      (id : ℕ) (config : Config) (limiter : Option (Limiter A)) {c : Calls A}
      → Reach (init truthy id config limiter) c
      → 0 < config.parallel_num
      → config.parallel_num < c.threw
      → (now : ℕ) → (call_before truthy now c.task ≡ (c.task, same_context)) × (enter now c ≡ c)
  unfolding enter call_before
  thrown_out id config limiter {c} r p h now =
      let v = Reach-Inv id config limiter r in
      let full : (ltb 0 c.task.config.parallel_num
            && ltb c.task.config.parallel_num c.task.running_task_num)
          ≡ true =
        ground (arith, v.running, ap (λ (k : Config). k.parallel_num) v.same) in
      (rw (full, call_before) refl, rw (full, enter, call_before) refl)

  enter_one :
      (id : ℕ) (config : Config) (n : ℕ)
      → suc n ≤ config.parallel_num + 1
      → enter 0 (record {
        task = record { id = id; config = config; running_task_num = n; rate_limiter = none };
        inside = n;
        threw = 0;
      })
        ≡ record {
          task = record { id = id; config = config; running_task_num = suc n; rate_limiter = none };
          inside = suc n;
          threw = 0;
        }
  unfolding enter call_before
  enter_one id config n h = ground arith

  -- As many as `n` calls begin, one after the other, where the limit is not below.
  enter_many : ℕ → Calls A → Calls A
  enter_many zero c = c
  enter_many (suc n) c = enter 0 (enter_many n c)

  enter_many-Reach :
      (start : Task A) (n : ℕ)
      → Reach start (enter_many n (record { task = start; inside = 0; threw = 0 }))
  unfolding enter_many
  enter_many-Reach start zero = here
  enter_many-Reach start (suc n) = next (enter_many-Reach start n) (begin 0)

  enter_many-inside :
      (id : ℕ) (config : Config) (n : ℕ)
      → n ≤ config.parallel_num + 1
      → (enter_many n (record { task = init truthy id config none; inside = 0; threw = 0 }))
        ≡ record {
          task = record (init truthy id config none) { running_task_num = n };
          inside = n;
          threw = 0;
        }
  unfolding enter_many init
  enter_many-inside id config zero h = refl
  enter_many-inside id config (suc n) h =
      ap (enter 0) (enter_many-inside id config n (omega arith)) ∙ enter_one id config n h

  -- The bound is met: without a limiter, one call more than the limit can be under way.
  pub overshoots :
      (id : ℕ) (config : Config)
      → (c : Calls A) × Reach (init truthy id config none) c × (c.inside ≡ config.parallel_num + 1)
  overshoots id config =
      let n = config.parallel_num + 1 in
      let first : Calls A = record { task = init truthy id config none; inside = 0; threw = 0 } in
      (
        enter_many n first,
        enter_many-Reach (init truthy id config none) n,
        ap (λ (c : Calls A). c.inside) (enter_many-inside id config n (omega arith)),
      )
