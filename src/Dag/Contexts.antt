-- ===== src/Dag/Contexts.antt =====
-- shutils/dag/context.py and runtime.py: the tree of contexts and the runtime's counter of them.
-- A context is a number; all contexts have the one runtime or none. The parent's lock is held as
-- long as the source holds it, so a change under it is one step.
pub mod Counting
mod Tests
use shutilspy.Common.{
  ℕ, zero, suc, ◌+◌, Bool, true, false, ◌&&◌, Option, none, some, List, [], ◌∷◌, ◌++◌,
  if◌then◌else◌, update,
}
use shutilspy.Common.Int.{
  ℤ, pos, negsuc, pos_part, neg_part, sub_ℕ, ◌≤ℤ◌, ◌<ℤ◌, succ_ℤ, pred_ℤ, lt_succ, lt_succ_self,
  pred_lt, pred_lt_self,
}

-- `Context`, without its board and its task state.
pub record Context : Type 0 where
  pub parent : Option ℕ
  pub children : List ℕ
  pub child_num : ℤ
  pub has_runtime : Bool
  pub is_destory : Bool
  pub freezing : Bool
  pub skip_complete : Bool

-- Contexts from `next` on are not made yet.
pub record World : Type 0 where
  pub context : ℕ → Context
  pub next : ℕ
  pub counter : ℤ

-- `RuntimeCounterMixin`: `increase` and `decrease`, under its lock.
abbrev pub increase : World → World
increase w = record w { counter = succ_ℤ w.counter }

abbrev pub decrease : World → World
decrease w = record w { counter = pred_ℤ w.counter }

abbrev pub with_context : ℕ → Context → World → World
with_context i c w = record w { context = update w.context i c }

-- The parent's count and list, with one child more, and its count with one less.
abbrev pub join_parent : ℕ → ℕ → World → World
join_parent p i w =
    with_context p
      (record (w.context p) {
        child_num = succ_ℤ (w.context p).child_num;
        children = (w.context p).children ++ i ∷ [];
      })
      w

abbrev pub leave_parent : ℕ → World → World
leave_parent p w =
    with_context p (record (w.context p) { child_num = pred_ℤ (w.context p).child_num }) w

-- `Context.__init__`.
unfoldable pub init : Bool → Option ℕ → World → World
init has_runtime parent w =
    let fresh : Context = record {
      parent = parent;
      children = [];
      child_num = pos 0;
      has_runtime = has_runtime;
      is_destory = false;
      freezing = false;
      skip_complete = false;
    } in
    let made = record (with_context w.next fresh w) { next = w.next + 1 } in
    let counted = if has_runtime then increase made else made in
    elim parent [ none ↦ counted | some p ↦ join_parent p w.next counted ]

-- `create_child`, for one child.
unfoldable pub create_child : ℕ → World → World
unfolding init
create_child i w = init (w.context i).has_runtime (some i) w

-- `create`, without its copy of the board.
unfoldable pub create : Bool → ℕ → World → World
unfolding init
create skip_complete i w =
    let made = init (w.context i).has_runtime none w in
    with_context w.next (record (made.context w.next) { skip_complete = skip_complete }) made

abbrev pub freeze : ℕ → World → World
freeze i w = with_context i (record (w.context i) { freezing = true }) w

abbrev pub thraw : ℕ → World → World
thraw i w = with_context i (record (w.context i) { freezing = false }) w

-- `set_destory(True)`, and the runtime's count.
abbrev pub mark : ℕ → World → World
mark i w =
    let marked = with_context i (record (w.context i) { is_destory = true }) w in
    if (w.context i).has_runtime then decrease marked else marked

abbrev pub is_zero : ℤ → Bool
is_zero (pos zero) = true
is_zero (pos (suc n)) = false
is_zero (negsuc n) = false

unfoldable pub for_all : (ℕ → World → Option World) → List ℕ → World → Option World
for_all f [] w = some w
for_all f (i ∷ l) w = elim (f i w) [ none ↦ none | some x ↦ for_all f l x ]

-- `destory`, on fuel: the context, then the parent if it was its last child and that is asked for,
-- then the children.
unfoldable pub destory : ℕ → Bool → ℕ → World → Option World
unfolding for_all
destory zero destory_parent i w = none
destory (suc fuel) destory_parent i w = elim (w.context i).is_destory [
  | true ↦ some w
  | false ↦
      let after_parent : Option World = elim (w.context i).parent [
        | none ↦ some (mark i w)
        | some p ↦
            let left = leave_parent p (mark i w) in
            elim (destory_parent && is_zero (left.context p).child_num) [
              | true ↦ destory fuel false p left
              | false ↦ some left
            ]
      ] in
      elim after_parent [
        | none ↦ none
        | some x ↦ for_all (λ c y. destory fuel false c y) (w.context i).children x
      ]
]
