-- ===== src/Dag/Mask.antt =====
-- shutils/dag/utils.py: masking the tasks above or below given ones, by a search along the edges.
pub mod Complete
pub mod Walk
pub mod Yield
pub mod Masked
mod Tests
use shutilspy.Common.{
  ℕ, zero, suc, Bool, Option, none, some, List, [], ◌∷◌, ◌++◌, if◌then◌else◌, has,
}

-- `task_set` and `task_queue`.
pub record Search : Type 0 where
  pub task_set : List ℕ
  pub task_queue : List ℕ

-- `task_set.add(task)` and `task_queue.append(task)`, for a task that is new.
unfoldable pub offer : ℕ → Search → Search
offer task s =
    if has task s.task_set
    then s
    else record { task_set = task ∷ s.task_set; task_queue = s.task_queue ++ task ∷ [] }

unfoldable pub offers : List ℕ → Search → Search
unfolding offer
offers [] s = s
offers (t ∷ ts) s = offers ts (offer t s)

-- `__mask_common`, with the edges it reads in `next`.
module _ (next : ℕ → List ℕ) where
  -- The first loop.
  unfoldable pub seed : Bool → List ℕ → Search → Search
  unfolding offers
  seed mask_self [] s = s
  seed mask_self (t ∷ ts) s =
      let found = offers (next t) s in
      seed mask_self ts (if mask_self then offer t found else found)

  -- The second loop, on fuel: what it yields.
  unfoldable pub drain : ℕ → Search → Option (List ℕ)
  unfolding offers
  drain zero s = elim s.task_queue [ [] ↦ some [] | t ∷ rest ↦ none ]
  drain (suc fuel) s = elim s.task_queue [
    | [] ↦ some []
    | t ∷ rest ↦ elim (drain fuel (offers (next t) (record s { task_queue = rest }))) [
      | none ↦ none
      | some yielded ↦ some (t ∷ yielded)
    ]
  ]

  unfoldable pub mask_common : ℕ → List ℕ → Bool → Option (List ℕ)
  unfolding seed drain
  mask_common fuel tasks mask_self =
      drain fuel (seed mask_self tasks (record { task_set = []; task_queue = [] }))
