-- ===== src/Dag/Queue/Refines.antt =====
-- A queue and the three lists that a client sees.
use mathlib.Core.List.{
  Perm, append_assoc, perm_append_singleton, perm_middle, mem-cons_self, not-mem-nil,
}
use mathlib.Core.List.Perm
use shutilspy.Common.{
  ℕ, ◌<◌, ◌≡◌, refl, sym, ap, ◌∙◌, subst, ◌⊎◌, inl, inr, Bool, false, none, some, List, [], ◌∷◌,
  ◌++◌, map, arith, Option-cases, All,
}
use shutilspy.Common.Int.{ℤ}
use shutilspy.Dag.Queue.{Item, Heap, Queue, get}
use shutilspy.Dag.Queue.Sorted.{Sorted, Sorted-pop}
use shutilspy.Dag.Queue.Lanes.{
  Lane, Lane-tail, Sorted-append, All-both, All-append, View, view_get, of_item,
}

module _ {A : Type 0} where
  -- The heap holds the items of three lists, in the order of which they leave it.
  pub record Represents (h : Heap A) (stack : Bool) (q : Queue A) (xs ys zs : List (Item A))
      : Type 0 where
    pub is_heap : h.IsHeap q.heap
    pub holds : Perm q.heap (xs ++ (ys ++ zs))
    pub first : Lane stack 0 q.counters.lifo xs
    pub second : Lane false 1 q.counters.fifo_high ys
    pub third : Lane false 2 q.counters.fifo_low zs

  abbrev pub seen : List (Item A) → List (Item A) → List (Item A) → View A
  seen xs ys zs = record {
    lifo = map of_item xs;
    fifo_high = map of_item ys;
    fifo_low = map of_item zs;
  }

  level_above :
      (p k : ℕ) (l : List (Item A))
      → p < k
      → All (λ i. i.priority ≡ k) l
      → All (λ i. p < i.priority) l
  level_above p k l h a =
      All-both (λ i. i.priority ≡ k) (λ i. i.priority ≡ k) (λ i. p < i.priority) l
        (λ i e f. subst (λ n. p < n) (sym e) h) a a

  all-Sorted :
      {stack : Bool} {b c d : ℤ} (xs ys zs : List (Item A))
      → Lane stack 0 b xs
      → Lane false 1 c ys
      → Lane false 2 d zs
      → Sorted (xs ++ (ys ++ zs))
  all-Sorted xs ys zs f s t =
      Sorted-append 0 xs (ys ++ zs) f.sorted
        (Sorted-append 1 ys zs s.sorted t.sorted s.level (level_above 1 2 zs (omega arith) t.level))
        f.level
        (All-append (λ i. 0 < i.priority) ys zs (level_above 0 1 ys (omega arith) s.level)
          (level_above 0 2 zs (omega arith) t.level))

  get_next :
      (h : Heap A) (q : Queue A) (a : Item A) (l : List (Item A))
      → IsSet A
      → h.IsHeap q.heap
      → Sorted (a ∷ l)
      → Perm q.heap (a ∷ l)
      → (t : List (Item A)) × (get h q ≡ some (a.item, record q { heap = t }))
        × h.IsHeap t
        × Perm t l
  unfolding get
  get_next h q a l set ih s p =
      let (t, e, k, m) = Sorted-pop h a l q.heap set ih s p in (t, rw (e, get) refl, k, m)

  get_none : (h : Heap A) (q : Queue A) → Perm q.heap [] → get h q ≡ none
  unfolding get
  get_none h q p = elim (Option-cases (h.heappop q.heap)) [
    | inl e ↦ rw (e, get) refl
    | inr ((a, t), e) ↦ absurd (
        not-mem-nil
          ((Perm.mem_iff p).0 ((Perm.mem_iff (h.heappop-perm a q.heap t e)).1 mem-cons_self)))
  ]

  -- `get` gives the first item of the highest priority that has one, and leaves the others; it waits
  -- only where nothing is queued. Payloads are a set.
  pub get-refines :
      (h : Heap A) (stack : Bool) (q : Queue A) (xs ys zs : List (Item A))
      → IsSet A
      → Represents h stack q xs ys zs
      → ((get h q ≡ none) × (view_get (seen xs ys zs) ≡ none))
        ⊎ ((x : A) × (q' : Queue A) × (xs' ys' zs' : List (Item A)) × (get h q ≡ some (x, q'))
            × (view_get (seen xs ys zs) ≡ some (x, seen xs' ys' zs'))
            × Represents h stack q' xs' ys' zs')
  get-refines h stack q [] [] [] set r = inl (get_none h q r.holds, refl)
  get-refines h stack q [] [] (a ∷ zs) set r =
      let (t, e, k, m) = get_next h q a zs set r.is_heap r.third.sorted r.holds in
      inr (
        a.item,
        record q { heap = t },
        [],
        [],
        zs,
        e,
        refl,
        record {
          is_heap = k;
          holds = m;
          first = r.first;
          second = r.second;
          third = Lane-tail false 2 q.counters.fifo_low a zs r.third;
        },
      )
  get-refines h stack q [] (a ∷ ys) zs set r =
      let (t, e, k, m) =
        get_next h q a (ys ++ zs) set r.is_heap (all-Sorted [] (a ∷ ys) zs r.first r.second r.third)
          r.holds in
      inr (
        a.item,
        record q { heap = t },
        [],
        ys,
        zs,
        e,
        refl,
        record {
          is_heap = k;
          holds = m;
          first = r.first;
          third = r.third;
          second = Lane-tail false 1 q.counters.fifo_high a ys r.second;
        },
      )
  get-refines h stack q (a ∷ xs) ys zs set r =
      let (t, e, k, m) =
        get_next h q a (xs ++ (ys ++ zs)) set r.is_heap
          (all-Sorted (a ∷ xs) ys zs r.first r.second r.third) r.holds in
      inr (
        a.item,
        record q { heap = t },
        xs,
        ys,
        zs,
        e,
        refl,
        record {
          is_heap = k;
          holds = m;
          second = r.second;
          third = r.third;
          first = Lane-tail stack 0 q.counters.lifo a xs r.first;
        },
      )

  -- What the put of an item needs: its place among the three lists, whose order a heap forgets.
  pub push_front :
      (h : Heap A) (n : Item A) (s xs : List (Item A)) → Perm s xs → Perm (h.heappush n s) (n ∷ xs)
  push_front h n s xs p = Perm.trans (h.heappush-perm n s) (Perm.cons n p)

  pub push_middle :
      (h : Heap A) (n : Item A) (s xs ys : List (Item A))
      → Perm s (xs ++ ys)
      → Perm (h.heappush n s) ((xs ++ n ∷ []) ++ ys)
  push_middle h n s xs ys p =
      subst (λ l. Perm (h.heappush n s) l) (sym (append_assoc xs (n ∷ []) ys))
        (Perm.trans (push_front h n s (xs ++ ys) p) (Perm.symm (perm_middle xs ys)))

  pub push_second :
      (h : Heap A) (n : Item A) (s xs ys zs : List (Item A))
      → Perm s (xs ++ (ys ++ zs))
      → Perm (h.heappush n s) (xs ++ ((ys ++ n ∷ []) ++ zs))
  push_second h n s xs ys zs p =
      subst (λ l. Perm (h.heappush n s) l)
        (ap (λ l. l ++ zs) (append_assoc xs ys (n ∷ [])) ∙ append_assoc xs (ys ++ n ∷ []) zs)
        (push_middle h n s (xs ++ ys) zs (subst (λ l. Perm s l) (sym (append_assoc xs ys zs)) p))

  pub push_third :
      (h : Heap A) (n : Item A) (s xs ys zs : List (Item A))
      → Perm s (xs ++ (ys ++ zs))
      → Perm (h.heappush n s) (xs ++ (ys ++ (zs ++ n ∷ [])))
  push_third h n s xs ys zs p =
      subst (λ l. Perm (h.heappush n s) l)
        (append_assoc xs (ys ++ zs) (n ∷ []) ∙ ap (λ l. xs ++ l) (append_assoc ys zs (n ∷ [])))
        (Perm.trans (push_front h n s (xs ++ (ys ++ zs)) p)
          (Perm.symm (perm_append_singleton n (xs ++ (ys ++ zs)))))
