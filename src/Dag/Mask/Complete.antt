-- ===== src/Dag/Mask/Complete.antt =====
-- shutils/dag/context.py: completing a task in a context and in all contexts above it, and
-- shutils/dag/utils.py: completing every task to mask.
use shutilspy.Common.{
  ℕ, zero, suc, ◌≤◌, ◌<◌, ◌≡◌, refl, ap, ◌∙◌, subst, ◌↔◌, ◌⊎◌, inl, inr, Bool, true, false, ◌||◌,
  Option, none, some, List, [], ◌∷◌, arith, ◌==◌, ==_iff, ==_refl, Bool-cases, Option-cases, length,
  has, has-add, update, update_lem,
}
use shutilspy.Dag.Graph.{Graph}
use shutilspy.Dag.State.{TaskState}
use shutilspy.Dag.State
use shutilspy.Dag.Mask.{mask_common}
use shutilspy.Dag.Mask.Masked.{mask_common_exact}
use shutilspy.Dag.Mask.Walk.{IsMasked}

abbrev pub Store : Type 0
Store = ℕ → TaskState

module _ (g : Graph) (parent : ℕ → Option ℕ) where
  -- `complete` of a context, on fuel.
  unfoldable pub complete : ℕ → ℕ → ℕ → Store → Option Store
  complete zero i task s = none
  complete (suc fuel) i task s =
      let here = update s i (State.complete g task (s i)) in
      elim (parent i) [ none ↦ some here | some p ↦ complete fuel p task here ]

  -- The loop of the four masking functions: over what the search yields.
  unfoldable pub complete_all : ℕ → ℕ → List ℕ → Store → Option Store
  unfolding complete
  complete_all fuel i [] s = some s
  complete_all fuel i (t ∷ ts) s = elim (complete fuel i t s) [
    | none ↦ none
    | some s' ↦ complete_all fuel i ts s'
  ]

  unfoldable pub mask_along : (ℕ → List ℕ) → ℕ → ℕ → List ℕ → Bool → Store → Option Store
  unfolding complete_all
  mask_along next fuel i tasks mask_self s = elim (mask_common next fuel tasks mask_self) [
    | none ↦ none
    | some yielded ↦ complete_all fuel i yielded s
  ]

  unfoldable pub mask_upstream_task : ℕ → ℕ → List ℕ → Bool → Store → Option Store
  unfolding mask_along
  mask_upstream_task = mask_along g.upstream

  unfoldable pub mask_downstream_task : ℕ → ℕ → List ℕ → Bool → Store → Option Store
  unfolding mask_along
  mask_downstream_task = mask_along g.downstream

  -- A context is made after its parent.
  abbrev pub IsOlder : Type 0
  IsOlder = (i p : ℕ) → parent i ≡ some p → p < i

  -- `a` is the context `i` or one above it.
  pub data Above : ℕ → ℕ → Type 0 where
    self : {i : ℕ} → Above i i
    up : {i p a : ℕ} → parent i ≡ some p → Above p a → Above i a

  Above-le : IsOlder → {i a : ℕ} → Above i a → a ≤ i
  Above-le older self = omega arith
  Above-le older (up {i} {p} e w) = omega (arith, older i p e, Above-le older w)

  Above-cases : {i a : ℕ} → Above i a → (a ≡ i) ⊎ ((p : ℕ) × (parent i ≡ some p) × Above p a)
  Above-cases self = inl refl
  Above-cases (up {p = p} e w) = inr (p, e, w)

  not_self : (i a : ℕ) → ¬ Above i a → (a == i) ≡ false
  not_self i a w = elim (Bool-cases (a == i)) [
    | inl e ↦ absurd (w (rw ((==_iff a i).0 e) self))
    | inr e ↦ e
  ]

  -- Completing a task completes it once in the context and in every one above, and changes no other.
  pub complete-Above :
      (fuel i task : ℕ) (s : Store)
      → IsOlder
      → i < fuel
      → (s' : Store) × (complete fuel i task s ≡ some s')
        × ((a : ℕ) → Above i a → s' a ≡ State.complete g task (s a))
        × ((a : ℕ) → ¬ Above i a → s' a ≡ s a)
  unfolding complete
  complete-Above zero i task s older h = absurd (omega arith)
  complete-Above (suc fuel) i task s older h =
      let here = update s i (State.complete g task (s i)) in
      let at = update_lem s i (State.complete g task (s i)) in
      elim (Option-cases (parent i)) [
        | inl n ↦ (
          here,
          rw (n, complete) refl,
          λ a w. elim (Above-cases w) [
            | inl e ↦ rw e (ground (arith, at i, ==_refl i))
            | inr (q, m, v) ↦ absurd (cc)
          ],
          λ a w. ground (arith, at a, not_self i a w),
        )
        | inr (p, n) ↦
            let (s', e, on, off) =
              complete-Above fuel p task here older (omega (arith, older i p n)) in
            (
              s',
              rw (n, complete) e,
              λ a w. elim (Above-cases w) [
                | inl m ↦
                    let below = λ (v : Above p i).
                      let z : ⊥ = omega (arith, Above-le older v, older i p n) in z in
                    rw m (ground (arith, off i below, at i, ==_refl i))
                | inr (q, m, v) ↦
                    let w' : Above p a = subst (λ k. Above k a) (cc) v in
                    ground (arith, on a w', at a, Above-le older w', older i p n)
              ],
              λ a w. ground (arith, off a (λ v. w (up n v)), at a, not_self i a w),
            )
      ]

pub completed-complete :
    (g : Graph) (t x : ℕ) (s : TaskState)
    → s.skip_complete ≡ false
    → (has x (State.complete g t s).completed ≡ (x == t || has x s.completed))
      × ((State.complete g t s).skip_complete ≡ false)
unfolding State.complete
completed-complete g t x s h = (ground (arith, has-add x t s.completed, ==_iff x t), ground arith)

module _ (g : Graph) (parent : ℕ → Option ℕ) (older : IsOlder g parent) where
  pub complete_all-Above :
      (fuel i : ℕ) (ts : List ℕ) (s : Store)
      → i < fuel
      → (s' : Store) × (complete_all g parent fuel i ts s ≡ some s')
        × ((a x : ℕ)
            → Above g parent i a
            → (s a).skip_complete ≡ false
            → has x (s' a).completed ≡ (has x ts || has x (s a).completed))
        × ((a : ℕ) → ¬ Above g parent i a → s' a ≡ s a)
  unfolding complete_all has
  complete_all-Above fuel i [] s h = (s, refl, λ a x w k. refl, λ a w. refl)
  complete_all-Above fuel i (t ∷ ts) s h =
      let (m, e, on, off) = complete-Above g parent fuel i t s older h in
      let (s', f, all_on, all_off) = complete_all-Above fuel i ts m h in
      (
        s',
        rw (e, complete_all) f,
        λ a x w k.
            let (now, still) = completed-complete g t x (s a) k in
            let same = on a w in
            let kept : (m a).skip_complete ≡ false = rw same still in
            ground (arith, all_on a x w kept, now, ap (λ (r : TaskState). has x r.completed) same),
        λ a w. all_off a w ∙ off a w,
      )

  -- Masking along the edges of a finite graph returns with fuel for each of its tasks and above the
  -- context's number. In the context and in every one above it that does not skip its next
  -- completion, exactly the tasks that paths lead to are completed beside those that were (and the
  -- given ones, if asked); all other contexts are as before. A parent is older than its child.
  pub mask_along_exact :
      (next : ℕ → List ℕ) (all tasks : List ℕ) (mask_self : Bool) (fuel i : ℕ) (s : Store)
      → ((t d : ℕ) → has t all ≡ true → has d (next t) ≡ true → has d all ≡ true)
      → ((t : ℕ) → has t tasks ≡ true → has t all ≡ true)
      → length all ≤ fuel
      → i < fuel
      → (s' : Store) × (mask_along g parent next fuel i tasks mask_self s ≡ some s')
        × ((a x : ℕ)
            → Above g parent i a
            → (s a).skip_complete ≡ false
            → (has x (s' a).completed ≡ true)
              ↔ ((has x (s a).completed ≡ true) ⊎ IsMasked next tasks mask_self x))
        × ((a : ℕ) → ¬ Above g parent i a → s' a ≡ s a)
  unfolding mask_along
  mask_along_exact next all tasks mask_self fuel i s inside known enough h =
      let (ys, e, _, is) = mask_common_exact next tasks mask_self all inside known fuel enough in
      let (s', f, on, off) = complete_all-Above fuel i ys s h in
      (
        s',
        rw (e, mask_along) f,
        λ a x w k. (
          λ m. elim (Bool-cases (has x ys)) [
            | inl y ↦ inr ((is x).0 y)
            | inr o ↦ inl (ground (arith, on a x w k))
          ],
          λ m. elim m [
            | inl o ↦ ground (arith, on a x w k)
            | inr y ↦ ground (arith, on a x w k, (is x).1 y)
          ],
        ),
        off,
      )
