-- ===== src/Dag/Queue/Tests.antt =====
-- Runs of the two queues over the scanning heap, and the theorems at concrete inputs.
use mathlib.Core.List.Perm
use native.Mathlib.Nat.{ℕ_set}
use shutilspy.Common.{ℕ, ◌≡◌, refl, ◌⊎◌, inr, true, false, none, some, List, [], ◌∷◌, arith}
use shutilspy.Common.Int.{ℤ, pos, negsuc}
use shutilspy.Dag.Queue.{Item, Queue, get, init, zeros}
use shutilspy.Dag.Queue.Lanes.{view_get}
use shutilspy.Dag.Queue.Refines.{Represents, seen, get-refines}
use shutilspy.Dag.Queue.Scan.{scan}
use shutilspy.Dag.Queue.Context.{put, put-refines, view_put}
use shutilspy.Dag.Queue.Context
use shutilspy.Dag.Queue.Task.{put_context_tasks}

code : Unit {0}
unfolding put put_context_tasks get init scan
code = tt

-- Two contexts put with `LIFO` come out in the opposite order, before one of another priority.
abbrev loaded : Queue ℕ
unfolding code
loaded =
    put scan 5 Context.lifo (put scan 4 Context.lifo (put scan 3 Context.fifo_high (init scan)))

lifo_first : elim (get scan loaded) as (λ _. ℕ) [ none ↦ 0 | some r ↦ r.0 ] ≡ 5
unfolding loaded
lifo_first = refl

abbrev item : ℕ → ℤ → ℕ → Item ℕ
item p s x = record { priority = p; sequence = s; item = x }

-- A stack of two and a line of one.
abbrev three : Queue ℕ
three = record {
  heap = item 0 (negsuc 0) 5 ∷ item 0 (pos 0) 4 ∷ item 1 (pos 0) 3 ∷ [];
  counters = record { lifo = negsuc 1; fifo_high = pos 1; fifo_low = pos 0 };
}

abbrev stack : List (Item ℕ)
stack = item 0 (negsuc 0) 5 ∷ item 0 (pos 0) 4 ∷ []

abbrev line : List (Item ℕ)
line = item 1 (pos 0) 3 ∷ []

three-Represents : Represents scan true three stack line []
unfolding code
three-Represents = record {
  is_heap = tt;
  holds = Perm.rfl;
  first = record {
    sorted = ((inr (refl, omega arith), tt), (tt, tt));
    level = (refl, (refl, tt));
    bound = (omega arith, (omega arith, tt));
  };
  second = record { sorted = (tt, tt); level = (refl, tt); bound = (omega arith, tt) };
  third = record { sorted = tt; level = tt; bound = tt };
}

get-refines_example :
    ((get scan three ≡ none) × (view_get (seen stack line []) ≡ none))
    ⊎ ((x : ℕ) × (q : Queue ℕ) × (xs ys zs : List (Item ℕ)) × (get scan three ≡ some (x, q))
        × (view_get (seen stack line []) ≡ some (x, seen xs ys zs))
        × Represents scan true q xs ys zs)
get-refines_example = get-refines scan true three stack line [] ℕ_set three-Represents

abbrev none_yet : Queue ℕ
none_yet = record { heap = []; counters = zeros }

none_yet-Represents : Represents scan false none_yet [] [] []
unfolding code
none_yet-Represents = record {
  is_heap = tt;
  holds = Perm.rfl;
  first = record { sorted = tt; level = tt; bound = tt };
  second = record { sorted = tt; level = tt; bound = tt };
  third = record { sorted = tt; level = tt; bound = tt };
}
