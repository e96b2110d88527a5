-- ===== src/AioQueue/Joins.antt =====
-- `task_done` and `join`.
use shutilspy.Common.{ℕ, zero, suc, ◌-◌, ◌≡◌, refl, inl, inr, none, arith, ◌==◌, Bool-cases}
use shutilspy.AioQueue.{Queue, Result, ok, err, task_done_too_often}
use shutilspy.AioQueue
use shutilspy.AioQueue.Stores.{Storage}

module _ {A : Type 0} (S : Storage A) where
  unfoldable pub tasks_done : ℕ → Queue S → Result (Queue S)
  tasks_done zero q = ok q
  tasks_done (suc n) q = elim (AioQueue.task_done S q) [ ok q' ↦ tasks_done n q' | err e ↦ err e ]

  task_done_one :
      (n : ℕ) (q : Queue S)
      → q.unfinished ≡ suc n
      → (q' : Queue S) × (AioQueue.task_done S q ≡ ok q') × (q'.unfinished ≡ n)
  unfolding AioQueue.task_done
  task_done_one n q e = elim (Bool-cases (q.unfinished - 1 == 0)) [
    | inl z ↦ (
      AioQueue.wake_joiner S (record q { unfinished = q.unfinished - 1 }),
      ground arith,
      ground arith,
    )
    | inr z ↦ (record q { unfinished = q.unfinished - 1 }, ground arith, ground arith)
  ]

  -- `task_done` can be called once for each put, and `join` returns when it has been: the call
  -- after that raises.
  pub tasks_done_all :
      (n : ℕ) (q : Queue S)
      → q.unfinished ≡ n
      → (q' : Queue S) × (tasks_done n q ≡ ok q')
        × ((AioQueue.async_join S q').1 ≡ none)
        × (AioQueue.task_done S q' ≡ err task_done_too_often)
  unfolding tasks_done AioQueue.async_join AioQueue.task_done
  tasks_done_all zero q e = (q, refl, ground arith, ground arith)
  tasks_done_all (suc n) q e =
      let (q', done, left) = task_done_one n q e in
      let (r, all, joined, over) = tasks_done_all n q' left in
      (r, rw (done, tasks_done) all, joined, over)
