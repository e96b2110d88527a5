-- ===== src/Dag/Queue.antt =====
-- shutils/dag/context_queue.py and task_queue.py: what the two queues share, the items and their
-- order, and `heapq` as an interface: its lists are heaps, and a pop gives a smallest item.
pub mod Sorted
pub mod Lanes
pub mod Refines
pub mod Context
pub mod Task
pub mod Scan
mod Tests
use mathlib.Core.List.{Perm, Mem}
use shutilspy.Common.{ℕ, ◌<◌, ◌≡◌, ◌⊎◌, Option, none, some, List, [], ◌∷◌}
use shutilspy.Common.Int.{ℤ, pos, negsuc, pos_part, neg_part, sub_ℕ, ◌≤ℤ◌, ◌<ℤ◌, succ_ℤ, pred_ℤ}

-- `PrioritizedItem` and `TaskItem`; `item` is a context, or a context with a task.
pub record Item (A : Type 0) : Type 0 where
  pub priority : ℕ
  pub sequence : ℤ
  pub item : A

-- `order=True` on the fields that compare.
abbrev pub Less : {A : Type 0} → Item A → Item A → Type 0
Less a b = (a.priority < b.priority) ⊎ ((a.priority ≡ b.priority) × (a.sequence <ℤ b.sequence))

pub record Heap (A : Type 0) : Type 1 where
  pub heappush : Item A → List (Item A) → List (Item A)
  pub heappop : List (Item A) → Option (Item A × List (Item A))
  pub IsHeap : List (Item A) → Type 0
  pub nil-IsHeap : IsHeap []
  pub heappush-IsHeap : (a : Item A) (s : List (Item A)) → IsHeap s → IsHeap (heappush a s)
  pub heappush-perm : (a : Item A) (s : List (Item A)) → Perm (heappush a s) (a ∷ s)
  pub heappop-IsHeap :
      (a : Item A) (s t : List (Item A)) → IsHeap s → heappop s ≡ some (a, t) → IsHeap t
  pub heappop-perm : (a : Item A) (s t : List (Item A)) → heappop s ≡ some (a, t) → Perm s (a ∷ t)
  pub heappop-none : (s : List (Item A)) → heappop s ≡ none → s ≡ []
  pub heappop-min :
      (a b : Item A) (s t : List (Item A))
      → IsHeap s
      → heappop s ≡ some (a, t)
      → Mem b s
      → ¬ Less b a

-- The three priorities' next sequence numbers.
pub record Counters : Type 0 where
  pub lifo : ℤ
  pub fifo_high : ℤ
  pub fifo_low : ℤ

abbrev pub zeros : Counters
zeros = record { lifo = pos 0; fifo_high = pos 0; fifo_low = pos 0 }

pub record Queue (A : Type 0) : Type 0 where
  pub heap : List (Item A)
  pub counters : Counters

module _ {A : Type 0} (h : Heap A) where
  unfoldable pub init : Queue A
  init = record { heap = []; counters = zeros }

  -- `get`: the item of what `heappop` gives; with nothing there, it waits.
  unfoldable pub get : Queue A → Option (A × Queue A)
  get q = elim (h.heappop q.heap) [
    | none ↦ none
    | some (a, rest) ↦ some (a.item, record q { heap = rest })
  ]
