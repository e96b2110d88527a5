-- ===== src/Dag/Mask/Tests.antt =====
-- Masking below task 2, in a context that has a parent.
use shutilspy.Common.{
  ℕ, ◌≡◌, refl, ◌↔◌, ◌⊎◌, true, false, Option, none, some, [], ◌∷◌, arith, ◌==◌, if◌then◌else◌, has,
}
use shutilspy.Dag.Graph.Sample.{sample}
use shutilspy.Dag.State.{init}
use shutilspy.Dag.Mask.{mask_common}
use shutilspy.Dag.Mask.Walk.{IsMasked}
use shutilspy.Dag.Mask.Complete.{Store, Above, IsOlder, mask_along, mask_along_exact}

run_mask : mask_common sample.downstream 6 (1 ∷ []) true ≡ some (2 ∷ 3 ∷ 4 ∷ 1 ∷ 5 ∷ [])
unfolding mask_common has
run_mask = refl

abbrev parent : ℕ → Option ℕ
parent i = if i == 1 then some 0 else none

parent-IsOlder : IsOlder sample parent
parent-IsOlder i p e = ground arith

inside :
    (t d : ℕ)
    → has t sample.task_set ≡ true
    → has d (sample.downstream t) ≡ true
    → has d sample.task_set ≡ true
unfolding has
inside t d h e = ground arith

given : (t : ℕ) → has t (2 ∷ []) ≡ true → has t sample.task_set ≡ true
unfolding has
given t h = ground arith

mask_along_exact_example :
    (s' : Store) × (mask_along sample parent sample.downstream 6 1 (2 ∷ []) false (λ _. init)
      ≡ some s')
    × ((a x : ℕ)
        → Above sample parent 1 a
        → init.skip_complete ≡ false
        → (has x (s' a).completed ≡ true)
          ↔ ((has x init.completed ≡ true) ⊎ IsMasked sample.downstream (2 ∷ []) false x))
    × ((a : ℕ) → ¬ Above sample parent 1 a → s' a ≡ init)
mask_along_exact_example =
    mask_along_exact sample parent parent-IsOlder sample.downstream sample.task_set (2 ∷ []) false 6
      1 (λ _. init) inside given (omega arith) (omega arith)
