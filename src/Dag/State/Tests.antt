-- ===== src/Dag/State/Tests.antt =====
-- A diamond with the source 0, the sink 9 and the tasks 1 → 2, 3 → 4, and the theorems at it.
use shutilspy.Common.{◌+◌, ◌≤◌, ◌≡◌, refl, true, [], ◌∷◌, arith, has, add, discard, all_in, update}
use shutilspy.Dag.Graph.{Graph, init as new_graph, add_task, connect}
use shutilspy.Dag.State.{init, complete}
use shutilspy.Dag.State.Order.{Step, Reach, start, Reach-ordered}
use shutilspy.Dag.State.Ready.{Tracks, complete-Tracks, init-Tracks}
use shutilspy.Dag.State.Progress.{IsWired, Run, Finished, Run-bounded, idle-done, remaining}

abbrev drawn : Graph
drawn =
    add_task 4 (2 ∷ 3 ∷ [])
      (add_task 3 (1 ∷ []) (add_task 2 (1 ∷ []) (add_task 1 [] (new_graph 0 9))))

abbrev diamond : Graph
diamond = connect drawn

code : Unit {0}
unfolding new_graph add_task connect has all_in update add start init complete discard
code = tt

diamond_tasks : diamond.tasks ≡ 0 ∷ 9 ∷ 4 ∷ 3 ∷ 2 ∷ 1 ∷ []
unfolding code
diamond_tasks = refl

diamond-IsWired : IsWired diamond (λ t. t)
unfolding code
diamond-IsWired = record {
  symmetric = λ u d. ground arith;
  rises = λ u t h. ground arith;
  fed = λ t h. ground arith;
  above = λ u t h k. ground arith;
  below = λ u t h k. ground arith;
  rooted = refl;
}

all_done : Finished diamond (
    complete diamond 9 (
      complete diamond 4
        (complete diamond 3 (complete diamond 2 (complete diamond 1 (start diamond))))))
unfolding code
all_done = λ t h. ground arith

complete-Tracks_example : Tracks diamond (complete diamond 0 init)
complete-Tracks_example =
    complete-Tracks diamond 0 init diamond-IsWired.symmetric (init-Tracks diamond)

one_done : Reach diamond (complete diamond 1 (start diamond))
unfolding code
one_done = Reach.next Reach.here (Step.finish 1 refl)

Reach-ordered_example : has 0 (complete diamond 1 (start diamond)).completed ≡ true
unfolding code
Reach-ordered_example =
    Reach-ordered diamond diamond-IsWired.symmetric one_done 1 0 refl (λ e. absurd (omega arith))
      refl

idle-done_example :
    has 4
      (complete diamond 9 (
        complete diamond 4
          (complete diamond 3 (complete diamond 2 (complete diamond 1 (start diamond)))))).completed
    ≡ true
unfolding code
idle-done_example =
    idle-done diamond diamond-IsWired
      (Reach.next
        (Reach.next (Reach.next (Reach.next one_done (Step.finish 2 refl)) (Step.finish 3 refl))
          (Step.finish 4 refl))
        (Step.finish 9 refl))
      refl 4 refl

one-Run : Run diamond 1 (complete diamond 1 (start diamond))
unfolding code
one-Run = Run.next Run.here (Step.finish 1 refl)

Run-bounded_example : 1 + remaining diamond.tasks (complete diamond 1 (start diamond)).completed ≤ 6
unfolding code
Run-bounded_example = Run-bounded diamond diamond-IsWired one-Run
