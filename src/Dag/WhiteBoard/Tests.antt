-- ===== src/Dag/WhiteBoard/Tests.antt =====
-- Two boards, and the theorems at concrete inputs.
use shutilspy.Common.{ℕ, ◌≡◌, true, [], ◌∷◌, arith, update}
use shutilspy.Dag.WhiteBoard.{World, items, init, copy, set_item, del_item, set_data}
use shutilspy.Dag.WhiteBoard.Sharing.{set_of, writes, write, Allocated, copy-deep}

code : Unit {0}
unfolding init copy writes write set_item del_item set_data update
code = tt

-- Every board that was not made has the first dictionary.
abbrev start : World ℕ
start = record {
  board = λ b. record { sync_lock = 0; async_lock = 0; data_of = 0 };
  dict = λ n. (7, 70) ∷ [];
  next = 1;
}

start-Allocated : Allocated start
start-Allocated b = omega arith

copy-deep_example :
    items 2 (writes ((1, set_of 8 80) ∷ []) (copy (λ v. v) 1 2 true start)) ≡ (7, 70) ∷ []
unfolding code
copy-deep_example =
    copy-deep (λ v. v) 1 2 ((1, set_of 8 80) ∷ []) start start-Allocated (ground arith, tt)
