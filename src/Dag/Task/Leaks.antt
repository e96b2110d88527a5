-- ===== src/Dag/Task/Leaks.antt =====
-- What a task's limiter loses: services of a token bucket that no call gives back, and places of a
-- concurrency limit that calls keep when they throw.
use shutilspy.Common.{
  ℕ, zero, suc, ◌+◌, ◌-◌, ◌≤◌, ◌≡◌, refl, ap, ◌∙◌, ◌≢◌, inl, inr, Bool, ◌&&◌, some, List, [], ◌∷◌,
  arith, ltb, Bool-cases, length, drop,
}
use shutilspy.Common.Int.{pos}
use shutilspy.Limiter.{
  try_acquire, release, concurrency, token_bucket, try_acquire_concurrency, Concurrency,
}
use shutilspy.Dag.Task.{
  Task, Config, call_before, call_after, init, call, Outcome, returned, raised, limited, proceed,
}
use shutilspy.Dag.Task.Calls.{Calls, enter, Move, begin, finish, throw, Reach, here, next}

module _ {A : Type 0} (truthy : A → Bool) where
  -- Calls one after the other.
  unfoldable pub call_all : {B : Type 0} → List (Outcome B) → Task A → Task A
  call_all [] t = t
  call_all (o ∷ os) t = call_all os (call truthy 0 o t).0

  bucket_call :
      {B : Type 0} (o : Outcome B) (t : Task A) (l : List A)
      → t.config.parallel_num ≡ 0
      → t.rate_limiter ≡ some (token_bucket l)
      → ((call truthy 0 o t).0.rate_limiter ≡ some (token_bucket (drop 1 l)))
        × ((call truthy 0 o t).0.config.parallel_num ≡ 0)
  unfolding call call_before call_after try_acquire release
  bucket_call (returned ys) t [] p e = (ground arith, ground arith)
  bucket_call (returned ys) t (s ∷ l) p e = (ground arith, ground arith)
  bucket_call (raised x) t [] p e = (ground arith, ground arith)
  bucket_call (raised x) t (s ∷ l) p e = (ground arith, ground arith)

  call_all-bucket :
      {B : Type 0} (os : List (Outcome B)) (t : Task A) (l : List A)
      → t.config.parallel_num ≡ 0
      → t.rate_limiter ≡ some (token_bucket l)
      → ((call_all os t).rate_limiter ≡ some (token_bucket (drop (length os) l)))
        × ((call_all os t).config.parallel_num ≡ 0)
  unfolding call_all
  call_all-bucket [] t l p e = (e, p)
  call_all-bucket (o ∷ os) t l p e =
      let (f, q) = bucket_call o t l p e in
      let (g, z) = call_all-bucket os (call truthy 0 o t).0 (drop 1 l) q f in
      (g ∙ ap (λ (k : List A). some (token_bucket k)) (drop-one (length os) l), z)
    where
      drop-one : (n : ℕ) (l : List A) → drop n (drop 1 l) ≡ drop (suc n) l
      drop-one zero [] = refl
      drop-one (suc n) [] = refl
      drop-one n (s ∷ l) = refl

  drop_all : (n : ℕ) (l : List A) → length l ≤ n → drop n l ≡ []
  drop_all zero [] h = refl
  drop_all zero (s ∷ l) h = absurd (omega arith)
  drop_all (suc n) [] h = refl
  drop_all (suc n) (s ∷ l) h = drop_all n l (omega arith)

  empty_limited :
      {B : Type 0} (o : Outcome B) (t : Task A)
      → t.config.parallel_num ≡ 0
      → t.rate_limiter ≡ some (token_bucket [])
      → (call truthy 0 o t).1 ≡ limited
  unfolding call call_before try_acquire
  empty_limited o t p e = ground arith

  -- Each call takes a service of a token bucket and gives none back: after as many calls as there
  -- were services, whatever came of them, every call is rate-limited.
  pub bucket_runs_dry :
      {B : Type 0} (id : ℕ) (config : Config) (l : List A) (os : List (Outcome B)) (o : Outcome B)
      → config.parallel_num ≡ 0
      → length l ≤ length os
      → (call truthy 0 o (call_all os (init truthy id config (some (token_bucket l))))).1 ≡ limited
  unfolding init
  bucket_runs_dry id config l os o p h =
      let t = call_all os (init truthy id config (some (token_bucket l))) in
      let (e, q) = call_all-bucket os (init truthy id config (some (token_bucket l))) l p refl in
      empty_limited o t q
        (e ∙ ap (λ (k : List A). some (token_bucket k)) (drop_all (length os) l h))

  -- The places of a concurrency limit that are taken.
  record Taken (bound : ℕ) (c : Calls A) : Type 0 where
    limit : Concurrency
    limiter : c.task.rate_limiter ≡ some (concurrency limit)
    bounded : limit.max_concurrency ≡ pos bound
    counted : limit.current_concurrency ≡ c.inside + c.threw
    capped : c.inside + c.threw ≤ bound

  enter-Taken : (bound now : ℕ) (c : Calls A) → Taken bound c → Taken bound (enter truthy now c)
  unfolding enter call_before try_acquire try_acquire_concurrency
  enter-Taken bound now c v =
      let k = v.limit in
      let at = v.limiter in
      let max = v.bounded in
      elim (Bool-cases (
        ltb 0 c.task.config.parallel_num
        && ltb c.task.config.parallel_num c.task.running_task_num)) [
          | inl full ↦ rw (full, enter, call_before) v
          | inr open_gate ↦ elim (Bool-cases (ltb k.current_concurrency bound)) [
            | inl free ↦ record {
              limit = record k { current_concurrency = k.current_concurrency + 1 };
              limiter = ground arith;
              bounded = max;
              counted = ground (arith, v.counted);
              capped = ground (arith, v.counted);
            }
            | inr taken ↦ record {
              limit = k;
              limiter = ground arith;
              bounded = max;
              counted = ground (arith, v.counted);
              capped = ground (arith, v.counted, v.capped);
            }
          ]
        ]

  Move-Taken : (bound : ℕ) {c c' : Calls A} → Move truthy c c' → Taken bound c → Taken bound c'
  unfolding call_after release
  Move-Taken bound {c} (begin now) v = enter-Taken bound now c v
  Move-Taken bound {c} (finish h) v = record {
    limit = record v.limit { current_concurrency = v.limit.current_concurrency - 1 };
    limiter = ground (arith, v.limiter, v.counted);
    bounded = v.bounded;
    counted = ground (arith, v.counted);
    capped = ground (arith, v.capped);
  }
  Move-Taken bound {c} (throw h) v = record {
    limit = v.limit;
    limiter = v.limiter;
    bounded = v.bounded;
    counted = ground (arith, v.counted);
    capped = ground (arith, v.capped);
  }

  Reach-Taken :
      (id bound : ℕ) (config : Config) {c : Calls A}
      → Reach truthy
          (init truthy id config
            (some (concurrency (record { max_concurrency = pos bound; current_concurrency = 0 }))))
          c
      → Taken bound c
  unfolding init
  Reach-Taken id bound config here = record {
    limit = record { max_concurrency = pos bound; current_concurrency = 0 };
    limiter = refl;
    bounded = refl;
    counted = omega arith;
    capped = omega arith;
  }
  Reach-Taken id bound config (next r m) = Move-Taken bound m (Reach-Taken id bound config r)

  -- Under a concurrency limit, overlapping calls and those that threw together never exceed it; a
  -- place is lost with each call that throws, and once all are, every call is turned away.
  pub places_lost :
      (id bound : ℕ) (config : Config) {c : Calls A}
      → Reach truthy
          (init truthy id config
            (some (concurrency (record { max_concurrency = pos bound; current_concurrency = 0 }))))
          c
      → (c.inside + c.threw ≤ bound)
        × (c.threw ≡ bound → (now : ℕ) → (call_before truthy now c.task).1 ≢ proceed)
  unfolding call_before try_acquire try_acquire_concurrency
  places_lost id bound config {c} r =
      let v = Reach-Taken id bound config r in
      (v.capped, λ e now z. ground (arith, v.limiter, v.bounded, v.counted, v.capped))
