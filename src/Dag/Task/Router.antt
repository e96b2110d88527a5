-- ===== src/Dag/Task/Router.antt =====
-- shutils/dag/task.py: `AsyncRouterTask`, which masks what lies only below the branches not taken.
use shutilspy.Common.{
  ℕ, ◌<◌, ◌≡◌, refl, ◌↔◌, ◌⊎◌, inl, inr, Bool, true, false, ◌&&◌, ◌||◌, Option, none, some, List,
  [], ◌∷◌, map, arith, if◌then◌else◌, ==_iff, Bool-cases, Option-cases, All, has, diff, has-diff,
}
use shutilspy.Dag.Graph.{Graph}
use shutilspy.Dag.Graph.Collect.{
  Answer, found, too_deep, key_error, Table, get_all_downstream_tasks,
}
use shutilspy.Dag.Contexts.{destory}
use shutilspy.Dag.Contexts
use shutilspy.Dag.Contexts.Counting.{Sound, alive, destory-Done}
use shutilspy.Dag.Mask.Complete.{Store, complete_all, IsOlder, Above, complete_all-Above}
use shutilspy.Dag.Graph.Closure.{LeadsFrom}
use shutilspy.Dag.Graph.Lookup.{IsFull}
use shutilspy.Dag.Graph.Bypass.{IsLayered, get_all_downstream_tasks_exact}

-- A route is the name of a task or a task.
pub data Target : Type 0 where
  by_name : ℕ → Target
  by_task : ℕ → Target

-- The loop over the routes: `none` where one is unknown or not downstream of the router.
unfoldable pub resolve : Graph → ℕ → List Target → Option (List ℕ)
resolve g self [] = some []
resolve g self (by_name n ∷ ts) =
    let rest = resolve g self ts in
    if has n g.tasks && has n (g.downstream self)
    then elim rest [ none ↦ none | some l ↦ some (n ∷ l) ]
    else none
resolve g self (by_task n ∷ ts) =
    let rest = resolve g self ts in
    if has n (g.downstream self) then elim rest [ none ↦ none | some l ↦ some (n ∷ l) ] else none

-- The tasks to complete.
unfoldable pub mask_task_set : ℕ → Graph → Table → ℕ → List ℕ → Answer (Table × List ℕ)
unfolding get_all_downstream_tasks
mask_task_set limit g table self routes =
    elim (get_all_downstream_tasks limit g table routes true) [
      | found (table', taken) ↦
          elim (get_all_downstream_tasks limit g table' (diff (g.downstream self) routes) true) [
            | found (table'', other) ↦ found (table'', diff other taken)
            | too_deep ↦ too_deep
            | key_error ↦ key_error
          ]
      | too_deep ↦ too_deep
      | key_error ↦ key_error
    ]

-- The contexts, their task states and the graph's table.
pub record State : Type 0 where
  pub tree : Contexts.World
  pub states : Store
  pub table : Table

abbrev pub parents : State → ℕ → Option ℕ
parents s i = (s.tree.context i).parent

-- `call` in context `i`: the contexts that it gives, and `none` where a loop is out of fuel. A route
-- that is not resolved destroys the context; else the tasks are completed in it.
unfoldable pub call : ℕ → ℕ → Graph → ℕ → List Target → ℕ → State → Answer (Option (State × List ℕ))
unfolding resolve mask_task_set complete_all
call limit fuel g self targets i s = elim (resolve g self targets) [
  | none ↦ found (elim (destory fuel false i s.tree) [
    | none ↦ none
    | some tree ↦ some (record s { tree = tree }, [])
  ])
  | some routes ↦ elim (mask_task_set limit g s.table self routes) [
    | found (table', mask) ↦ found (elim (complete_all g (parents s) fuel i mask s.states) [
      | none ↦ none
      | some states ↦ some (record s { states = states; table = table' }, i ∷ [])
    ])
    | too_deep ↦ too_deep
    | key_error ↦ key_error
  ]
]

-- A route as the router may take it: a name is of a task of the graph, and the task is downstream.
abbrev pub IsRoute : Graph → ℕ → Target → Type 0
IsRoute g self (by_name n) = (has n g.tasks ≡ true) × (has n (g.downstream self) ≡ true)
IsRoute g self (by_task n) = has n (g.downstream self) ≡ true

abbrev pub task_of : Target → ℕ
task_of (by_name n) = n
task_of (by_task n) = n

resolve-exact :
    (g : Graph) (self : ℕ) (ts : List Target)
    → (All (IsRoute g self) ts × (resolve g self ts ≡ some (map task_of ts)))
      ⊎ ((¬ All (IsRoute g self) ts) × (resolve g self ts ≡ none))
unfolding resolve
resolve-exact g self [] = inl (tt, refl)
resolve-exact g self (by_name n ∷ ts) =
    elim (Bool-cases (has n g.tasks && has n (g.downstream self))) [
      | inr f ↦ inr (λ (h, _). absurd (ground (arith, h)), rw (f, resolve) refl)
      | inl f ↦ elim (resolve-exact g self ts) [
        | inl (h, e) ↦ inl ((((ground arith), (ground arith)), h), rw (f, resolve, e) refl)
        | inr (h, e) ↦ inr (λ (_, k). h k, rw (f, resolve, e) refl)
      ]
    ]
resolve-exact g self (by_task n ∷ ts) = elim (Bool-cases (has n (g.downstream self))) [
  | inr f ↦ inr (λ (h, _). absurd (cc), rw (f, resolve) refl)
  | inl f ↦ elim (resolve-exact g self ts) [
    | inl (h, e) ↦ inl ((f, h), rw (f, resolve, e) refl)
    | inr (h, e) ↦ inr (λ (_, k). h k, rw (f, resolve, e) refl)
  ]
]

-- Resolved routes are downstream of the router.
resolve-downstream :
    (g : Graph) (self : ℕ) (ts : List Target) (l : List ℕ) (x : ℕ)
    → resolve g self ts ≡ some l
    → has x l ≡ true
    → has x (g.downstream self) ≡ true
unfolding resolve has
resolve-downstream g self [] l x e m = ground arith
resolve-downstream g self (by_name n ∷ ts) l x e m = elim (Option-cases (resolve g self ts)) [
  | inl z ↦ absurd (ground arith)
  | inr (r, z) ↦ ground (arith, resolve-downstream g self ts r x z, ==_iff x n)
]
resolve-downstream g self (by_task n ∷ ts) l x e m = elim (Option-cases (resolve g self ts)) [
  | inl z ↦ absurd (ground arith)
  | inr (r, z) ↦ ground (arith, resolve-downstream g self ts r x z, ==_iff x n)
]

-- `x` is one of the tasks or below one.
abbrev pub AtOrBelow : Graph → List ℕ → ℕ → Type 0
AtOrBelow g ts x = LeadsFrom g.downstream ts x ⊎ (has x ts ≡ true)

mask_returns :
    (limit : ℕ) (g : Graph) (table : Table) (self : ℕ) (routes : List ℕ) (a b : Table × List ℕ)
    → get_all_downstream_tasks limit g table routes true ≡ found a
    → get_all_downstream_tasks limit g a.0 (diff (g.downstream self) routes) true ≡ found b
    → mask_task_set limit g table self routes ≡ found (b.0, diff b.1 a.1)
unfolding mask_task_set
mask_returns limit g table self routes a b e f = rw (e, mask_task_set, f) refl

mask-exact :
    (g : Graph) (other taken down_taken down_other : List ℕ) (x : ℕ)
    → (has x down_taken ≡ true)
      ↔ (LeadsFrom g.downstream taken x ⊎ ((true ≡ true) × (has x taken ≡ true)))
    → (has x down_other ≡ true)
      ↔ (LeadsFrom g.downstream other x ⊎ ((true ≡ true) × (has x other ≡ true)))
    → (has x (diff down_other down_taken) ≡ true) ↔ (AtOrBelow g other x × ¬ AtOrBelow g taken x)
mask-exact g other taken down_taken down_other x is_taken is_other =
    let d = has-diff x down_other down_taken in
    (
      λ m. (
        elim (is_other.0 (ground (arith, d))) [ inl p ↦ inl p | inr (_, i) ↦ inr i ],
        λ w. elim w [
          | inl p ↦ ground (arith, d, is_taken.1 (inl p))
          | inr i ↦ ground (arith, d, is_taken.1 (inr (refl, i)))
        ],
      ),
      λ (w, n). elim (Bool-cases (has x down_taken)) [
        | inl t ↦ absurd (n (elim (is_taken.0 t) [ inl p ↦ inl p | inr (_, i) ↦ inr i ]))
        | inr f ↦ elim w [
          | inl p ↦ ground (arith, d, is_other.1 (inl p))
          | inr i ↦ ground (arith, d, is_other.1 (inr (refl, i)))
        ]
      ],
    )

-- A branch that is not taken or a task below one, and neither a branch taken nor below one.
abbrev pub IsMasked : Graph → ℕ → List ℕ → ℕ → Type 0
IsMasked g self routes x = AtOrBelow g (diff (g.downstream self) routes) x × ¬ AtOrBelow g routes x

-- The graph's table is full, and what was done stays so, with the tasks masked in the context and in
-- every one above it that does not skip its next completion; no other context is changed.
pub record Masks (g : Graph) (self i : ℕ) (routes : List ℕ) (s s' : State) : Type 0 where
  pub tree : s'.tree ≡ s.tree
  pub full : IsFull g.downstream g.task_set s'.table
  pub on :
      (a x : ℕ)
      → Above g (parents s) i a
      → (s.states a).skip_complete ≡ false
      → (has x (s'.states a).completed ≡ true)
        ↔ ((has x (s.states a).completed ≡ true) ⊎ IsMasked g self routes x)
  pub off : (a : ℕ) → ¬ Above g (parents s) i a → s'.states a ≡ s.states a

has-or : {P : Type 0} (b c d : Bool) → b ≡ (c || d) → (c ≡ true) ↔ P → (b ≡ true) ↔ ((d ≡ true) ⊎ P)
has-or b c d e is = (
  λ m. elim (Bool-cases c) [ inl y ↦ inr (is.0 y) | inr n ↦ inl (ground arith) ],
  λ m. elim m [ inl o ↦ ground arith | inr p ↦ ground (arith, is.1 p) ],
)

-- `call` returns. When all routes are of tasks of the graph (a name has to be known) downstream of
-- the router, it gives the context on, and completes in it, and in every context above it that does
-- not skip its next completion, exactly the tasks that are a branch not taken or below one, and
-- neither are a branch taken nor below one. Else it gives nothing and destroys the context, with no
-- task completed. The graph is layered, the recursion may go deeper than the rank of its sink, the
-- table is empty or full, parents are older, the runtime counter is exact, and the fuel is above the
-- context's number and the contexts alive.
pub call_exact :
    (limit fuel : ℕ) (g : Graph) (rank : ℕ → ℕ) (self : ℕ) (targets : List Target) (i : ℕ)
    (s : State)
    → IsLayered g rank
    → rank g.out_task < limit
    → (s.table ≡ []) ⊎ IsFull g.downstream g.task_set s.table
    → IsOlder g (parents s)
    → Sound s.tree
    → i < fuel
    → alive s.tree < fuel
    → (s' : State) × ((All (IsRoute g self) targets
          × (call limit fuel g self targets i s ≡ found (some (s', i ∷ [])))
          × Masks g self i (map task_of targets) s s')
        ⊎ ((¬ All (IsRoute g self) targets)
            × (call limit fuel g self targets i s ≡ found (some (s', [])))
            × ((s'.tree.context i).is_destory ≡ true)
            × (s'.states ≡ s.states)))
unfolding call
call_exact limit fuel g rank self targets i s layered deep old older sound lt enough =
    elim (resolve-exact g self targets) [
      | inr (bad, n) ↦
          let (d, gone) = destory-Done fuel false i s.tree sound enough in
          (record s { tree = d.after }, inr (bad, rw (n, call, d.returned) refl, gone, refl))
      | inl (good, n) ↦
          let routes = map task_of targets in
          let below =
            λ (x : ℕ) (m : has x (g.downstream self) ≡ true). (layered.inside self x m).1 in
          let (a, e, full, is_taken) =
            get_all_downstream_tasks_exact g rank layered limit deep s.table routes true old
              (λ t m. below t (resolve-downstream g self targets routes t n m)) in
          let (b, f, full', is_other) =
            get_all_downstream_tasks_exact g rank layered limit deep a.0
              (diff (g.downstream self) routes) true (inr full)
              (λ t m. below t (ground (arith, has-diff t (g.downstream self) routes))) in
          let (states, done, on, off) =
            complete_all-Above g (parents s) older fuel i (diff b.1 a.1) s.states lt in
          (
            record s { states = states; table = b.0 },
            inl (
              good,
              rw (n, call, mask_returns limit g s.table self routes a b e f, done) refl,
              record {
                tree = refl;
                full = full';
                on = λ c x w k.
                    has-or (has x (states c).completed) (has x (diff b.1 a.1))
                      (has x (s.states c).completed) (on c x w k)
                      (mask-exact g (diff (g.downstream self) routes) routes a.1 b.1 x (is_taken x)
                        (is_other x));
                off = off;
              },
            ),
          )
    ]
