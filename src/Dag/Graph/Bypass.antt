-- ===== src/Dag/Graph/Bypass.antt =====
-- The sets that a built graph answers with: the tasks below, those above, and those beside.
use shutilspy.Common.{
  ℕ, ◌-◌, ◌≤◌, ◌<◌, ◌≡◌, refl, sym, ◌↔◌, ◌⊎◌, inl, inr, Bool, true, false, not, ◌&&◌, List, [],
  arith, Bool-cases, is_empty, has, diff, has-diff,
}
use shutilspy.Dag.Graph.{Graph}
use shutilspy.Dag.Graph.Edges.{IsSymmetric}
use shutilspy.Dag.Graph.Collect.{
  found, Table, collect_downstream, collect_upstream, get_all_downstream_tasks,
  get_all_upstream_tasks, get_bypass_tasks,
}
use shutilspy.Dag.Graph.Closure.{Leads, LeadsFrom, edge, via}
use shutilspy.Dag.Graph.Lookup.{IsRanked, IsFull, IsAnswer, collect-IsFull, answer_from-IsAnswer}

-- Ranks rise along the edges between the source and the sink, the only ends: no cycle.
pub record IsLayered (g : Graph) (rank : ℕ → ℕ) : Type 0 where
  pub symmetric : IsSymmetric g
  pub rises : (u d : ℕ) → has d (g.downstream u) ≡ true → rank u < rank d
  pub inside :
      (u d : ℕ)
      → has d (g.downstream u) ≡ true
      → (has u g.task_set ≡ true) × (has d g.task_set ≡ true)
  pub between :
      (t : ℕ) → has t g.task_set ≡ true → (rank g.in_task ≤ rank t) × (rank t ≤ rank g.out_task)
  pub only_sink :
      (t : ℕ) → has t g.task_set ≡ true → is_empty (g.downstream t) ≡ true → t ≡ g.out_task
  pub only_source :
      (t : ℕ) → has t g.task_set ≡ true → is_empty (g.upstream t) ≡ true → t ≡ g.in_task
  pub sink : is_empty (g.downstream g.out_task) ≡ true
  pub source : is_empty (g.upstream g.in_task) ≡ true

-- A path one edge longer at its end.
Leads-snoc :
    (ahead : ℕ → List ℕ) {t d x : ℕ} → Leads ahead t d → has x (ahead d) ≡ true → Leads ahead t x
Leads-snoc ahead (edge e) f = via e (edge f)
Leads-snoc ahead (via e p) f = via e (Leads-snoc ahead p f)

Leads-reversed :
    (ahead back : ℕ → List ℕ)
    → ((t d : ℕ) → has d (ahead t) ≡ has t (back d))
    → {t x : ℕ} → Leads ahead t x
    → Leads back x t
Leads-reversed ahead back sym (edge {t} {d} e) = edge (ground (arith, sym t d))
Leads-reversed ahead back sym (via {t} {d} e p) =
    Leads-snoc back (Leads-reversed ahead back sym p) (ground (arith, sym t d))

in_diffs :
    (x : ℕ) (a b c d : List ℕ)
    → has x (diff (diff (diff a b) c) d)
      ≡ (has x a && not (has x b) && not (has x c) && not (has x d))
in_diffs x a b c d =
    ground (arith, has-diff x (diff (diff a b) c) d, has-diff x (diff a b) c, has-diff x a b)

bypass_returns :
    (limit : ℕ) (g : Graph) (lower upper : Table) (ts : List ℕ) (down up : Table × List ℕ)
    → get_all_downstream_tasks limit g lower ts false ≡ found down
    → get_all_upstream_tasks limit g upper ts false ≡ found up
    → get_bypass_tasks limit g lower upper ts ≡ found (diff (diff (diff g.task_set down.1) up.1) ts)
unfolding get_bypass_tasks
bypass_returns limit g lower upper ts down up e f = rw (e, get_bypass_tasks, f) refl

-- A set that was asked for without the tasks themselves, read at one member or none.
not_led :
    (ahead : ℕ → List ℕ) (x : ℕ) (ts s : List ℕ)
    → (has x s ≡ true) ↔ (LeadsFrom ahead ts x ⊎ ((false ≡ true) × (has x ts ≡ true)))
    → (has x s ≡ false) ↔ ((t : ℕ) → has t ts ≡ true → ¬ Leads ahead t x)
not_led ahead x ts s is = (
  λ o t h p. cc (is.1 (inl (t, h, p))),
  λ none_leads. elim (Bool-cases (has x s)) [
    | inl i ↦ elim (is.0 i) [ inl (t, h, p) ↦ absurd (none_leads t h p) | inr (z, h) ↦ absurd (cc) ]
    | inr o ↦ o
  ],
)

module _ (g : Graph) (rank : ℕ → ℕ) (layered : IsLayered g rank) where
  open layered use {symmetric, rises, inside, between, only_sink, only_source, sink, source}

  below : IsRanked g.downstream g.upstream g.task_set g.out_task rank
  below = record {
    symmetric = symmetric;
    falls = λ t u h. rises u t (ground (arith, symmetric u t));
    inside = λ t d m h. (inside t d h).1;
    within = λ t m. (between t m).1;
    only_end = only_sink;
    end = sink;
  }

  above : IsRanked g.upstream g.downstream g.task_set g.in_task (λ t. rank g.out_task - rank t)
  above = record {
    symmetric = λ t d. ground (arith, symmetric d t);
    falls = λ t u h. omega (arith, rises t u h, (between u (inside t u h).1).1);
    inside = λ t d m h. (inside d t (ground (arith, symmetric d t))).0;
    within = λ t m. omega (arith, between t m);
    only_end = only_source;
    end = source;
  }

  beside :
      (down up ts : List ℕ)
      → IsAnswer g.downstream g.task_set ts false down
      → IsAnswer g.upstream g.task_set ts false up
      → (x : ℕ)
      → (has x (diff (diff (diff g.task_set down) up) ts) ≡ true) ↔ (
          (has x g.task_set ≡ true)
          × (has x ts ≡ false)
          × ((t : ℕ) → has t ts ≡ true → ¬ Leads g.downstream t x × ¬ Leads g.downstream x t))
  beside down up ts is_down is_up x =
      let sum = in_diffs x g.task_set down up ts in
      let below_x = not_led g.downstream x ts down (is_down x) in
      let above_x = not_led g.upstream x ts up (is_up x) in
      let upward = λ (t u : ℕ) (p : Leads g.downstream t u).
        Leads-reversed g.downstream g.upstream symmetric p in
      let downward = λ (t u : ℕ) (p : Leads g.upstream t u).
        Leads-reversed g.upstream g.downstream (λ a b. sym (symmetric b a)) p in
      (
        λ m. (
          ground (arith, sum),
          ground (arith, sum),
          λ t h. (
            below_x.0 (ground (arith, sum)) t h,
            λ p. above_x.0 (ground (arith, sum)) t h (upward x t p),
          ),
        ),
        λ (m, o, apart).
            let i = below_x.1 (λ t h. (apart t h).0) in
            let j = above_x.1 (λ t h p. (apart t h).1 (downward t x p)) in
            ground (arith, sum, i, j),
      )

  module _ (limit : ℕ) (deep : rank g.out_task < limit) where
    -- A lookup of tasks of the graph returns, and gives the set of the tasks that paths lead to
    -- from them, with the tasks themselves if asked; it leaves a full table, as a first lookup
    -- finds an empty one, for the lookups that follow. The graph is layered, and the interpreter's
    -- recursion may go deeper than the rank of its sink.
    pub get_all_downstream_tasks_exact :
        (table : Table) (ts : List ℕ) (add_self : Bool)
        → (table ≡ []) ⊎ IsFull g.downstream g.task_set table
        → ((t : ℕ) → has t ts ≡ true → has t g.task_set ≡ true)
        → (r : Table × List ℕ) × (get_all_downstream_tasks limit g table ts add_self ≡ found r)
          × IsFull g.downstream g.task_set r.0
          × IsAnswer g.downstream g.task_set ts add_self r.1
    unfolding get_all_downstream_tasks collect_downstream
    get_all_downstream_tasks_exact table ts add_self old known =
        answer_from-IsAnswer g.downstream g.task_set table (collect_downstream limit g) ts add_self
          old (collect-IsFull g.downstream g.upstream g.task_set g.out_task rank below limit deep)
          known

    pub get_all_upstream_tasks_exact :
        (table : Table) (ts : List ℕ) (add_self : Bool)
        → (table ≡ []) ⊎ IsFull g.upstream g.task_set table
        → ((t : ℕ) → has t ts ≡ true → has t g.task_set ≡ true)
        → (r : Table × List ℕ) × (get_all_upstream_tasks limit g table ts add_self ≡ found r)
          × IsFull g.upstream g.task_set r.0
          × IsAnswer g.upstream g.task_set ts add_self r.1
    unfolding get_all_upstream_tasks collect_upstream
    get_all_upstream_tasks_exact table ts add_self old known =
        answer_from-IsAnswer g.upstream g.task_set table (collect_upstream limit g) ts add_self old
          (collect-IsFull g.upstream g.downstream g.task_set g.in_task
            (λ t. rank g.out_task - rank t) above limit (omega arith))
          known

    -- A bypass task is exactly a task of the graph that is none of the given ones, with no path
    -- from one of them to it, and none from it to one of them; the lookup returns. The graph is
    -- layered, the recursion may go deeper than the rank of its sink, and each table is empty or full.
    pub get_bypass_tasks_exact :
        (lower upper : Table) (ts : List ℕ)
        → (lower ≡ []) ⊎ IsFull g.downstream g.task_set lower
        → (upper ≡ []) ⊎ IsFull g.upstream g.task_set upper
        → ((t : ℕ) → has t ts ≡ true → has t g.task_set ≡ true)
        → (s : List ℕ) × (get_bypass_tasks limit g lower upper ts ≡ found s)
          × ((x : ℕ)
              → (has x s ≡ true) ↔ (
                  (has x g.task_set ≡ true)
                  × (has x ts ≡ false)
                  × ((t : ℕ)
                      → has t ts ≡ true
                      → ¬ Leads g.downstream t x × ¬ Leads g.downstream x t)))
    get_bypass_tasks_exact lower upper ts old_lower old_upper known =
        let (down, e, _, is_down) = get_all_downstream_tasks_exact lower ts false old_lower known in
        let (up, f, _, is_up) = get_all_upstream_tasks_exact upper ts false old_upper known in
        (
          diff (diff (diff g.task_set down.1) up.1) ts,
          bypass_returns limit g lower upper ts down up e f,
          beside down.1 up.1 ts is_down is_up,
        )
