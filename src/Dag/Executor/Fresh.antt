-- ===== src/Dag/Executor/Fresh.antt =====
-- shutils/dag/executor.py: `_context_postprocess`, the tasks that a new context skips.
use shutilspy.Common.{
  ℕ, ◌<◌, ◌≡◌, refl, sym, ap, ◌∙◌, subst, ◌↔◌, ◌⊎◌, inl, inr, true, false, ◌||◌, List, [], ◌∷◌,
  arith, ◌==◌, if◌then◌else◌, ==_iff, ==_refl, Bool-cases, has, add, has-add,
}
use shutilspy.Dag.Graph.{Graph}
use shutilspy.Dag.Graph.Collect.{Answer, found, too_deep, key_error, Table, get_bypass_tasks}
use shutilspy.Dag.Graph.Closure.{Leads}
use shutilspy.Dag.Graph.Lookup.{IsFull}
use shutilspy.Dag.Graph.Bypass.{IsLayered, get_bypass_tasks_exact}
use shutilspy.Dag.State.{TaskState, init, complete}

-- `a & b`
unfoldable pub inter : List ℕ → List ℕ → List ℕ
inter [] b = []
inter (x ∷ a) b = let rest = inter a b in if has x b then x ∷ rest else rest

-- The loop over the bypass tasks.
unfoldable pub complete_list : Graph → List ℕ → TaskState → TaskState
complete_list g [] s = s
complete_list g (t ∷ ts) s = complete_list g ts (complete g t s)

-- What is done with a new context, whose parents are none.
unfoldable pub skip_bypass : ℕ → Graph → Table → Table → List ℕ → TaskState → Answer TaskState
unfolding inter complete_list
skip_bypass limit g lower upper running s =
    elim (get_bypass_tasks limit g lower upper (inter s.completed running)) [
      | found tasks ↦ found (complete_list g tasks s)
      | too_deep ↦ too_deep
      | key_error ↦ key_error
    ]

complete_list-completed :
    (g : Graph) (ts : List ℕ) (x : ℕ) (s : TaskState)
    → s.skip_complete ≡ false
    → has x (complete_list g ts s).completed ≡ (has x ts || has x s.completed)
unfolding complete_list complete has
complete_list-completed g [] x s h = refl
complete_list-completed g (t ∷ ts) x s h =
    ground
      (arith, complete_list-completed g ts x (complete g t s), has-add x t s.completed, ==_iff x t)

-- A new context, when task `t` has been completed in it.
abbrev pub fresh : Graph → ℕ → TaskState
fresh g t = complete g t init

pub fresh-completed : (g : Graph) (t : ℕ) → (fresh g t).completed ≡ t ∷ []
unfolding complete init add has
fresh-completed g t = refl

fresh_counts : (g : Graph) (t : ℕ) → (fresh g t).skip_complete ≡ false
unfolding complete init has
fresh_counts g t = refl

pub inter_self : (t : ℕ) → inter (t ∷ []) (t ∷ []) ≡ t ∷ []
unfolding inter has
inter_self t = ground (arith, ==_refl t)

module _ (g : Graph) (rank : ℕ → ℕ) (layered : IsLayered g rank) (limit : ℕ)
    (deep : rank g.out_task < limit) (t : ℕ) (known : has t g.task_set ≡ true) (lower upper : Table)
    (old_lower : (lower ≡ []) ⊎ IsFull g.downstream g.task_set lower)
    (old_upper : (upper ≡ []) ⊎ IsFull g.upstream g.task_set upper) where
  -- No path between the two, either way.
  abbrev pub IsBeside : ℕ → Type 0
  IsBeside x = ¬ Leads g.downstream t x × ¬ Leads g.downstream x t

  -- In a new context that task `t` gives, exactly that task and the tasks of the graph beside it
  -- are done once the bypass tasks are skipped.
  pub skip_bypass_exact :
      (s : TaskState) × (skip_bypass limit g lower upper (t ∷ []) (fresh g t) ≡ found s)
      × ((x : ℕ)
          → (has x s.completed ≡ true) ↔ ((x ≡ t) ⊎ ((has x g.task_set ≡ true) × IsBeside x)))
  unfolding skip_bypass has
  skip_bypass_exact =
      let (tasks, e, is) =
        get_bypass_tasks_exact g rank layered limit deep lower upper (t ∷ []) old_lower old_upper
          (λ u m. ground (
            arith,
            known,
            ==_iff u t,
            ap (λ (j : ℕ). has j g.task_set) ((==_iff u t).0 (ground arith)),
          )) in
      let at : inter (fresh g t).completed (t ∷ []) ≡ t ∷ [] =
        ap (λ (l : List ℕ). inter l (t ∷ [])) (fresh-completed g t) ∙ inter_self t in
      let done = λ (x : ℕ).
        complete_list-completed g tasks x (fresh g t) (fresh_counts g t)
        ∙ ap (λ (l : List ℕ). has x tasks || has x l) (fresh-completed g t) in
      (
        complete_list g tasks (fresh g t),
        rw (at, skip_bypass, e) refl,
        λ x. (
          λ m. elim (Bool-cases (x == t)) [
            | inl z ↦ inl ((==_iff x t).0 z)
            | inr z ↦
                let (inside, _, apart) = (is x).0 (ground (arith, done x)) in
                inr (inside, apart t (ground (arith, ==_refl t)))
          ],
          λ m. elim m [
            | inl z ↦ ground (arith, done x, ==_iff x t)
            | inr (inside, apart) ↦ elim (Bool-cases (x == t)) [
              | inl z ↦ ground (arith, done x)
              | inr z ↦
                  let there = (is x).1 (
                    inside,
                    ground arith,
                    λ u k.
                        let same : t ≡ u = sym ((==_iff u t).0 (ground arith)) in
                        subst (λ (j : ℕ). ¬ Leads g.downstream j x × ¬ Leads g.downstream x j) same
                          apart,
                  ) in
                  ground (arith, done x)
            ]
          ],
        ),
      )
