-- ===== src/Dag/Queue/Task.antt =====
-- shutils/dag/task_queue.py: `TaskPriorityQueue`; tasks of one priority come out first in, first
-- out, those of `LIFO_HIGH` too.
use mathlib.Core.List.{map-append}
use shutilspy.Common.{
  ℕ, suc, ◌≡◌, refl, ap, ◌∙◌, Bool, true, false, List, [], ◌∷◌, ◌++◌, map, if◌then◌else◌, length,
}
use shutilspy.Common.Int.{ℤ, succ_ℤ}
use shutilspy.Dag.Queue.{Item, Heap, Queue, Counters}
use shutilspy.Dag.Queue.Lanes.{Lane-snoc, View, of_item}
use shutilspy.Dag.Queue.Refines.{Represents, seen, push_middle, push_second, push_third}

pub data TaskPriority : Type 0 where
  lifo_high : TaskPriority
  fifo_high : TaskPriority
  fifo_low : TaskPriority

abbrev pub value : TaskPriority → ℕ
value lifo_high = 0
value fifo_high = 1
value fifo_low = 2

abbrev pub counter : TaskPriority → Counters → ℤ
counter lifo_high c = c.lifo
counter fifo_high c = c.fifo_high
counter fifo_low c = c.fifo_low

-- Each counts up.
abbrev pub advance : TaskPriority → Counters → Counters
advance lifo_high c = record c { lifo = succ_ℤ c.lifo }
advance fifo_high c = record c { fifo_high = succ_ℤ c.fifo_high }
advance fifo_low c = record c { fifo_low = succ_ℤ c.fifo_low }

-- What a put is to the client.
abbrev pub view_put : {A : Type 0} → A → TaskPriority → View A → View A
view_put x lifo_high v = record v { lifo = v.lifo ++ x ∷ [] }
view_put x fifo_high v = record v { fifo_high = v.fifo_high ++ x ∷ [] }
view_put x fifo_low v = record v { fifo_low = v.fifo_low ++ x ∷ [] }

module _ {A : Type 0} (h : Heap A) where
  unfoldable pub put_task : A → TaskPriority → Queue A → Queue A
  put_task x p q = record {
    heap =
        h.heappush (record { priority = value p; sequence = counter p q.counters; item = x })
          q.heap;
    counters = advance p q.counters;
  }

  -- A put goes behind all else of its priority.
  pub put_task-refines :
      (x : A) (p : TaskPriority) (q : Queue A) (xs ys zs : List (Item A))
      → Represents h false q xs ys zs
      → (xs' ys' zs' : List (Item A)) × Represents h false (put_task x p q) xs' ys' zs'
        × (seen xs' ys' zs' ≡ view_put x p (seen xs ys zs))
  unfolding put_task
  put_task-refines x lifo_high q xs ys zs r =
      let n : Item A = record { priority = 0; sequence = q.counters.lifo; item = x } in
      (
        xs ++ n ∷ [],
        ys,
        zs,
        record {
          is_heap = h.heappush-IsHeap n q.heap r.is_heap;
          holds = push_middle h n q.heap xs (ys ++ zs) r.holds;
          first = Lane-snoc 0 q.counters.lifo x xs r.first;
          second = r.second;
          third = r.third;
        },
        ap (λ l. record { lifo = l; fifo_high = map of_item ys; fifo_low = map of_item zs })
            (map-append of_item xs (n ∷ [])),
      )
  put_task-refines x fifo_high q xs ys zs r =
      let n : Item A = record { priority = 1; sequence = q.counters.fifo_high; item = x } in
      (
        xs,
        ys ++ n ∷ [],
        zs,
        record {
          is_heap = h.heappush-IsHeap n q.heap r.is_heap;
          holds = push_second h n q.heap xs ys zs r.holds;
          first = r.first;
          second = Lane-snoc 1 q.counters.fifo_high x ys r.second;
          third = r.third;
        },
        ap (λ l. record { lifo = map of_item xs; fifo_high = l; fifo_low = map of_item zs })
            (map-append of_item ys (n ∷ [])),
      )
  put_task-refines x fifo_low q xs ys zs r =
      let n : Item A = record { priority = 2; sequence = q.counters.fifo_low; item = x } in
      (
        xs,
        ys,
        zs ++ n ∷ [],
        record {
          is_heap = h.heappush-IsHeap n q.heap r.is_heap;
          holds = push_third h n q.heap xs ys zs r.holds;
          first = r.first;
          second = r.second;
          third = Lane-snoc 2 q.counters.fifo_low x zs r.third;
        },
        ap (λ l. record { lifo = map of_item xs; fifo_high = map of_item ys; fifo_low = l })
            (map-append of_item zs (n ∷ [])),
      )

  -- The loop of `async_put_context_tasks`, which counts what it puts.
  unfoldable pub put_all : List A → TaskPriority → Queue A → Queue A × ℕ
  unfolding put_task
  put_all [] p q = (q, 0)
  put_all (x ∷ l) p q = let (r, count) = put_all l p (put_task x p q) in (r, suc count)

  unfoldable pub put_context_tasks : Bool → List A → TaskPriority → Queue A → Queue A × ℕ
  unfolding put_all
  put_context_tasks is_destory tasks p q = if is_destory then (q, 0) else put_all tasks p q

  abbrev pub view_put_all : List A → TaskPriority → View A → View A
  view_put_all [] p v = v
  view_put_all (x ∷ l) p v = view_put_all l p (view_put x p v)

  put_all-refines :
      (tasks : List A) (p : TaskPriority) (q : Queue A) (xs ys zs : List (Item A))
      → Represents h false q xs ys zs
      → (xs' ys' zs' : List (Item A)) × Represents h false (put_all tasks p q).0 xs' ys' zs'
        × (seen xs' ys' zs' ≡ view_put_all tasks p (seen xs ys zs))
        × ((put_all tasks p q).1 ≡ length tasks)
  unfolding put_all
  put_all-refines [] p q xs ys zs r = (xs, ys, zs, r, refl, refl)
  put_all-refines (x ∷ l) p q xs ys zs r =
      let (xs1, ys1, zs1, r1, e1) = put_task-refines x p q xs ys zs r in
      let (xs2, ys2, zs2, r2, e2, n) = put_all-refines l p (put_task x p q) xs1 ys1 zs1 r1 in
      (xs2, ys2, zs2, r2, e2 ∙ ap (view_put_all l p) e1, ap suc n)

  -- `async_put_context_tasks` puts a context's tasks in their order, each behind all else of the
  -- priority, and returns their number; of a destroyed context it puts none.
  pub put_context_tasks-refines :
      (is_destory : Bool) (tasks : List A) (p : TaskPriority) (q : Queue A)
      (xs ys zs : List (Item A))
      → Represents h false q xs ys zs
      → let sent = if is_destory then [] else tasks in
        let done = put_context_tasks is_destory tasks p q in
        (xs' ys' zs' : List (Item A)) × Represents h false done.0 xs' ys' zs'
        × (seen xs' ys' zs' ≡ view_put_all sent p (seen xs ys zs))
        × (done.1 ≡ length sent)
  unfolding put_context_tasks
  put_context_tasks-refines true tasks p q xs ys zs r = (xs, ys, zs, r, refl, refl)
  put_context_tasks-refines false tasks p q xs ys zs r = put_all-refines tasks p q xs ys zs r
