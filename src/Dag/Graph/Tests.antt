-- ===== src/Dag/Graph/Tests.antt =====
-- Lookups in a graph of six tasks.
use shutilspy.Common.{ℕ, ◌≡◌, refl, ◌↔◌, inl, true, false, List, [], ◌∷◌, arith, has, union, diff}
use shutilspy.Dag.Graph.Collect.{found, Table, get_all_downstream_tasks, get_bypass_tasks}
use shutilspy.Dag.Graph.Closure.{Leads}
use shutilspy.Dag.Graph.Lookup.{IsFull, IsAnswer}
use shutilspy.Dag.Graph.Bypass.{get_all_downstream_tasks_exact, get_bypass_tasks_exact}
use shutilspy.Dag.Graph.Sample.{sample, sample-IsLayered, known, two_known}

run_bypass : get_bypass_tasks 7 sample [] [] (4 ∷ []) ≡ found (2 ∷ 3 ∷ [])
unfolding get_bypass_tasks diff union
run_bypass = refl

get_all_downstream_tasks_exact_example :
    (r : Table × List ℕ) × (get_all_downstream_tasks 7 sample [] (2 ∷ 4 ∷ []) true ≡ found r)
    × IsFull sample.downstream sample.task_set r.0
    × IsAnswer sample.downstream sample.task_set (2 ∷ 4 ∷ []) true r.1
get_all_downstream_tasks_exact_example =
    get_all_downstream_tasks_exact sample (λ t. t) sample-IsLayered 7 (omega arith) [] (2 ∷ 4 ∷ [])
      true (inl refl) (λ t h. two_known t h)

get_bypass_tasks_exact_example :
    (s : List ℕ) × (get_bypass_tasks 7 sample [] [] (4 ∷ []) ≡ found s)
    × ((x : ℕ)
        → (has x s ≡ true) ↔ (
            (has x sample.task_set ≡ true)
            × (has x (4 ∷ []) ≡ false)
            × ((t : ℕ)
                → has t (4 ∷ []) ≡ true
                → ¬ Leads sample.downstream t x × ¬ Leads sample.downstream x t)))
get_bypass_tasks_exact_example =
    get_bypass_tasks_exact sample (λ t. t) sample-IsLayered 7 (omega arith) [] [] (4 ∷ [])
      (inl refl) (inl refl) known
