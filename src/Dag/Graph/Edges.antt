-- ===== src/Dag/Graph/Edges.antt =====
-- The edges of a graph: symmetry between the two tables, and what `build` adds.
use shutilspy.Common.{
  ℕ, ◌≡◌, List, [], ◌∷◌, arith, has, add, has-add, update_lem, is_empty, Bool-cases, inl, inr,
  subst,
}
use shutilspy.Dag.Graph.{
  Graph, build-connect, connect, ok, add_upstream, add_upstreams, add_task, link_start, link_end,
  link_ends, seal, build,
}

-- `d` is downstream of `u` exactly when `u` is upstream of `d`.
abbrev pub IsSymmetric : Graph → Type 0
IsSymmetric g = (u d : ℕ) → has d (g.downstream u) ≡ has u (g.upstream d)

pub add_upstream-IsSymmetric :
    (t d : ℕ) (g : Graph) → IsSymmetric g → IsSymmetric (add_upstream t d g)
unfolding add_upstream
add_upstream-IsSymmetric t d g sym u v = ground (
  arith,
  sym u v,
  update_lem g.upstream t (add d (g.upstream t)) v,
  update_lem g.downstream d (add t (g.downstream d)) u,
  has-add u d (g.upstream t),
  has-add v t (g.downstream d),
)

pub add_upstreams-IsSymmetric :
    (t : ℕ) (ds : List ℕ) (g : Graph) → IsSymmetric g → IsSymmetric (add_upstreams t ds g)
unfolding add_upstreams
add_upstreams-IsSymmetric t [] g sym = sym
add_upstreams-IsSymmetric t (d ∷ ds) g sym =
    add_upstreams-IsSymmetric t ds (add_upstream t d g) (add_upstream-IsSymmetric t d g sym)

pub add_task-IsSymmetric :
    (t : ℕ) (ds : List ℕ) (g : Graph) → IsSymmetric g → IsSymmetric (add_task t ds g)
unfolding add_task
add_task-IsSymmetric t ds g sym =
    add_upstreams-IsSymmetric t ds (record g { tasks = add t g.tasks }) sym

link_start-IsSymmetric : (ts : List ℕ) (g : Graph) → IsSymmetric g → IsSymmetric (link_start ts g)
unfolding link_start
link_start-IsSymmetric [] g sym = sym
link_start-IsSymmetric (t ∷ ts) g sym =
    link_start-IsSymmetric ts (add_task t (g.in_task ∷ []) g)
      (add_task-IsSymmetric t (g.in_task ∷ []) g sym)

link_end-IsSymmetric : (t : ℕ) (g : Graph) → IsSymmetric g → IsSymmetric (link_end t g)
unfolding link_end
link_end-IsSymmetric t g sym = elim (Bool-cases (is_empty (g.downstream t))) [
  | inl e ↦
      rw (e, link_end)
        (add_task-IsSymmetric g.out_task (t ∷ []) (record g { end_tasks = add t g.end_tasks }) sym)
  | inr e ↦ rw (e, link_end) sym
]

link_ends-IsSymmetric : (ts : List ℕ) (g : Graph) → IsSymmetric g → IsSymmetric (link_ends ts g)
unfolding link_ends
link_ends-IsSymmetric [] g sym = sym
link_ends-IsSymmetric (t ∷ ts) g sym =
    link_ends-IsSymmetric ts (link_end t g) (link_end-IsSymmetric t g sym)

pub build-IsSymmetric : (g : Graph) {h : Graph} → IsSymmetric g → build g ≡ ok h → IsSymmetric h
unfolding connect seal
build-IsSymmetric g symmetric e = subst IsSymmetric (build-connect g e).0 (
    link_ends-IsSymmetric (link_start g.start_tasks g).tasks (link_start g.start_tasks g)
      (link_start-IsSymmetric g.start_tasks g symmetric))
