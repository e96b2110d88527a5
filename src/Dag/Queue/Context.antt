-- ===== src/Dag/Queue/Context.antt =====
-- shutils/dag/context_queue.py: `ContextQueue`; contexts put with `LIFO` come out last in, first out.
use mathlib.Core.List.{map-append}
use shutilspy.Common.{ℕ, ◌≡◌, refl, ap, true, List, [], ◌∷◌, ◌++◌, map}
use shutilspy.Common.Int.{ℤ, succ_ℤ, pred_ℤ}
use shutilspy.Dag.Queue.{Item, Heap, Queue, Counters}
use shutilspy.Dag.Queue.Lanes.{Lane-snoc, Lane-cons, View, of_item}
use shutilspy.Dag.Queue.Refines.{Represents, seen, push_front, push_second, push_third}

pub data ContextPriority : Type 0 where
  lifo : ContextPriority
  fifo_high : ContextPriority
  fifo_low : ContextPriority

abbrev pub value : ContextPriority → ℕ
value lifo = 0
value fifo_high = 1
value fifo_low = 2

abbrev pub counter : ContextPriority → Counters → ℤ
counter lifo c = c.lifo
counter fifo_high c = c.fifo_high
counter fifo_low c = c.fifo_low

-- `LIFO` counts down, the others up.
abbrev pub advance : ContextPriority → Counters → Counters
advance lifo c = record c { lifo = pred_ℤ c.lifo }
advance fifo_high c = record c { fifo_high = succ_ℤ c.fifo_high }
advance fifo_low c = record c { fifo_low = succ_ℤ c.fifo_low }

-- What a put is to the client.
abbrev pub view_put : {A : Type 0} → A → ContextPriority → View A → View A
view_put x lifo v = record v { lifo = x ∷ v.lifo }
view_put x fifo_high v = record v { fifo_high = v.fifo_high ++ x ∷ [] }
view_put x fifo_low v = record v { fifo_low = v.fifo_low ++ x ∷ [] }

module _ {A : Type 0} (h : Heap A) where
  unfoldable pub put : A → ContextPriority → Queue A → Queue A
  put x p q = record {
    heap =
        h.heappush (record { priority = value p; sequence = counter p q.counters; item = x })
          q.heap;
    counters = advance p q.counters;
  }

  -- A put into `ContextQueue` goes before all else of `LIFO`, and behind all else of the two other
  -- priorities.
  pub put-refines :
      (x : A) (p : ContextPriority) (q : Queue A) (xs ys zs : List (Item A))
      → Represents h true q xs ys zs
      → (xs' ys' zs' : List (Item A)) × Represents h true (put x p q) xs' ys' zs'
        × (seen xs' ys' zs' ≡ view_put x p (seen xs ys zs))
  unfolding put
  put-refines x lifo q xs ys zs r =
      let n : Item A = record { priority = 0; sequence = q.counters.lifo; item = x } in
      (
        n ∷ xs,
        ys,
        zs,
        record {
          is_heap = h.heappush-IsHeap n q.heap r.is_heap;
          holds = push_front h n q.heap (xs ++ (ys ++ zs)) r.holds;
          first = Lane-cons 0 q.counters.lifo x xs r.first;
          second = r.second;
          third = r.third;
        },
        refl,
      )
  put-refines x fifo_high q xs ys zs r =
      let n : Item A = record { priority = 1; sequence = q.counters.fifo_high; item = x } in
      (
        xs,
        ys ++ n ∷ [],
        zs,
        record {
          is_heap = h.heappush-IsHeap n q.heap r.is_heap;
          holds = push_second h n q.heap xs ys zs r.holds;
          first = r.first;
          second = Lane-snoc 1 q.counters.fifo_high x ys r.second;
          third = r.third;
        },
        ap (λ l. record { lifo = map of_item xs; fifo_high = l; fifo_low = map of_item zs })
            (map-append of_item ys (n ∷ [])),
      )
  put-refines x fifo_low q xs ys zs r =
      let n : Item A = record { priority = 2; sequence = q.counters.fifo_low; item = x } in
      (
        xs,
        ys,
        zs ++ n ∷ [],
        record {
          is_heap = h.heappush-IsHeap n q.heap r.is_heap;
          holds = push_third h n q.heap xs ys zs r.holds;
          first = r.first;
          second = r.second;
          third = Lane-snoc 2 q.counters.fifo_low x zs r.third;
        },
        ap (λ l. record { lifo = map of_item xs; fifo_high = map of_item ys; fifo_low = l })
            (map-append of_item zs (n ∷ [])),
      )
