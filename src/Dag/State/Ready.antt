-- ===== src/Dag/State/Ready.antt =====
-- `_complete` keeps the set of available tasks equal to the set of ready ones.
use shutilspy.Common.{
  ℕ, ◌≡◌, refl, Bool, true, false, not, List, [], ◌∷◌, ◌&&◌, ◌||◌, arith, has, add, has-add,
  has-discard, discard, all_in, all_in_sound, ◌==◌, is_empty, has-ne-nil, if◌then◌else◌,
}
use shutilspy.Dag.Graph.{Graph}
use shutilspy.Dag.Graph.Edges.{IsSymmetric}
use shutilspy.Dag.State.{TaskState, init, complete, offer, offers}

-- Not done, with something upstream, and all of that done.
unfoldable pub ready : Graph → List ℕ → ℕ → Bool
ready g done t = not (has t done) && (not (is_empty (g.upstream t)) && all_in (g.upstream t) done)

-- The available tasks are exactly the ready ones.
abbrev pub Tracks : Graph → TaskState → Type 0
Tracks g s = (t : ℕ) → has t s.available ≡ ready g s.completed t

pub all_in-add :
    (t : ℕ) (s done : List ℕ)
    → all_in s (add t done) ≡ (if has t s then all_in s (add t done) else all_in s done)
unfolding all_in has
all_in-add t [] done = refl
all_in-add t (x ∷ s) done = ground (arith, all_in-add t s done, has-add x t done)

has-offer :
    (g : Graph) (done : List ℕ) (d t : ℕ) (avail : List ℕ)
    → has t (offer g done d avail)
      ≡ (has t avail || (t == d && (not (has d done) && all_in (g.upstream d) done)))
unfolding offer
has-offer g done d t avail = ground (arith, has-add t d avail)

-- What the loop of `_complete` adds.
pub has-offers :
    (g : Graph) (done ds : List ℕ) (t : ℕ) (avail : List ℕ)
    → has t (offers g done ds avail)
      ≡ (has t avail || (has t ds && (not (has t done) && all_in (g.upstream t) done)))
unfolding offers has
has-offers g done [] t avail = ground arith
has-offers g done (d ∷ ds) t avail =
    ground (arith, has-offers g done ds t (offer g done d avail), has-offer g done d t avail)

pub init-Tracks : (g : Graph) → Tracks g init
unfolding init ready has all_in
init-Tracks g t =
    elim (g.upstream t) as (λ ups. false ≡ (true && (not (is_empty ups) && all_in ups []))) [
      | [] ↦ refl
      | x ∷ xs ↦ refl
    ]

-- `_complete` keeps the available tasks equal to the ready ones: those that are not completed, have
-- something upstream, and have all of it completed. Edges are symmetric.
pub complete-Tracks :
    (g : Graph) (t : ℕ) (s : TaskState) → IsSymmetric g → Tracks g s → Tracks g (complete g t s)
unfolding complete ready
complete-Tracks g t s symmetric tracks u = ground (
  arith,
  tracks u,
  symmetric t u,
  has-offers g (add t s.completed) (g.downstream t) u (discard t s.available),
  has-discard u t s.available,
  has-add u t s.completed,
  all_in-add t (g.upstream u) s.completed,
  all_in_sound t (g.upstream u) s.completed,
  has-ne-nil t (g.upstream u),
)
