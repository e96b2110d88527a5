-- ===== src/Dag/Contexts/Tests.antt =====
-- A context with two children, destroyed with fuel for all three.
use shutilspy.Common.{ℕ, ◌≤◌, ◌≡◌, refl, true, false, none, some, [], arith, update}
use shutilspy.Common.Int.{ℤ, pos}
use shutilspy.Dag.Contexts.{Context, World, init, create_child, destory}
use shutilspy.Dag.Contexts.Counting.{Sound, Done, destory-Done}

code : Unit {0}
unfolding init create_child destory update
code = tt

abbrev gone : Context
gone = record {
  parent = none;
  children = [];
  child_num = pos 0;
  has_runtime = false;
  is_destory = true;
  freezing = false;
  skip_complete = false;
}

abbrev family : World
unfolding code
family =
    create_child 0
      (create_child 0 (init true none (record { context = λ i. gone; next = 0; counter = pos 0 })))

family_counter : family.counter ≡ pos 3
unfolding family
family_counter = refl

-- The parent takes its children with it.
all_gone : elim (destory 4 false 0 family) as (λ _. ℤ) [ none ↦ pos 9 | some w ↦ w.counter ] ≡ pos 0
unfolding family
all_gone = refl

gone_above : (i : ℕ) → 3 ≤ i → (family.context i).is_destory ≡ true
unfolding family
gone_above i h = ground (arith, h)

family-Sound : Sound family
unfolding family
family-Sound = record { exact = refl; fresh = gone_above }

destory-Done_example :
    (d : Done family (destory 4 false 0 family)) × ((d.after.context 0).is_destory ≡ true)
unfolding family
destory-Done_example = destory-Done 4 false 0 family family-Sound (omega arith)
