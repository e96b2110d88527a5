-- ===== src/Dag/Graph/Sample.antt =====
-- A graph of six tasks: 0 → 1, 1 → 2, 3 and 4, 2 → 3, 3 → 5, 4 → 5.
use shutilspy.Common.{ℕ, ◌≡◌, refl, true, [], ◌∷◌, arith, ◌==◌, if◌then◌else◌, has}
use shutilspy.Dag.Graph.{Graph}
use shutilspy.Dag.Graph.Bypass.{IsLayered}

abbrev pub sample : Graph
sample = record {
  tasks = 0 ∷ 1 ∷ 2 ∷ 3 ∷ 4 ∷ 5 ∷ [];
  in_task = 0;
  out_task = 5;
  start_tasks = 1 ∷ [];
  end_tasks = 3 ∷ 4 ∷ [];
  task_set = 0 ∷ 1 ∷ 2 ∷ 3 ∷ 4 ∷ 5 ∷ [];
  upstream = λ t.
      if t == 1
      then 0 ∷ []
      else if t == 2
      then 1 ∷ []
      else if t == 3
      then 1 ∷ 2 ∷ []
      else if t == 4
      then 1 ∷ []
      else if t == 5
      then 3 ∷ 4 ∷ []
      else [];
  downstream = λ t.
      if t == 0
      then 1 ∷ []
      else if t == 1
      then 2 ∷ 3 ∷ 4 ∷ []
      else if t == 2
      then 3 ∷ []
      else if t == 3
      then 5 ∷ []
      else if t == 4
      then 5 ∷ []
      else [];
}

pub sample-IsLayered : IsLayered sample (λ t. t)
unfolding has
sample-IsLayered = record {
  symmetric = λ u d. ground arith;
  rises = λ u d h. ground arith;
  inside = λ u d h. (ground arith, ground arith);
  between = λ t h. (ground arith, ground arith);
  only_sink = λ t h e. ground arith;
  only_source = λ t h e. ground arith;
  sink = refl;
  source = refl;
}

pub known : (t : ℕ) → has t (4 ∷ []) ≡ true → has t sample.task_set ≡ true
unfolding has
known t h = ground arith

pub two_known : (t : ℕ) → has t (2 ∷ 4 ∷ []) ≡ true → has t sample.task_set ≡ true
unfolding has
two_known t h = ground arith
