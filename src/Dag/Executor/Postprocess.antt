-- ===== src/Dag/Executor/Postprocess.antt =====
-- shutils/dag/executor.py: `_context_postprocess`, the collection of contexts that nothing refers to,
-- for one input context. Loops run on fuel, and `none` is a loop that goes on.
use shutilspy.Common.{
  ℕ, zero, suc, ◌<◌, ◌≡◌, ap, inl, inr, true, false, not, ◌&&◌, ◌||◌, Option, none, some, List, [],
  ◌∷◌, arith, ◌==◌, if◌then◌else◌, ==_iff, Bool-cases, has, add, has-add,
}
use shutilspy.Dag.Contexts.{World, destory, is_zero}

-- The first inner loop: the contexts above, as far as they are not destroyed.
unfoldable pub collect_parents : ℕ → World → Option ℕ → List ℕ → Option (List ℕ)
collect_parents fuel w none s = some s
collect_parents zero w (some p) s = none
collect_parents (suc fuel) w (some p) s = elim (w.context p).is_destory [
  | true ↦ some s
  | false ↦ collect_parents fuel w (w.context p).parent (add p s)
]

unfoldable pub add_alive : World → List ℕ → List ℕ → List ℕ
add_alive w [] s = s
add_alive w (c ∷ cs) s = add_alive w cs (if (w.context c).is_destory then s else add c s)

-- The worlds that the rounds of the second loop find, one after the other: other threads may change
-- the contexts between two rounds.
abbrev pub Rounds : Type 0
Rounds = ℕ → World

-- The second: `while await child_wrapper.child_context_num()`, whose body changes no context; with the
-- rounds that are left.
unfoldable pub collect_children : ℕ → Rounds → ℕ → List ℕ → Option (List ℕ × Rounds)
unfolding add_alive
collect_children zero ws i s = none
collect_children (suc fuel) ws i s = elim (is_zero ((ws 0).context i).child_num) [
  | true ↦ some (s, ws)
  | false ↦
      collect_children fuel (λ k. ws (suc k)) i (add_alive (ws 0) ((ws 0).context i).children s)
]

-- The loop over the output contexts.
unfoldable pub collect_all : ℕ → Rounds → List ℕ → List ℕ → Option (List ℕ × Rounds)
unfolding collect_parents collect_children
collect_all fuel ws [] s = some (s, ws)
collect_all fuel ws (o ∷ os) s = elim (collect_parents fuel (ws 0) ((ws 0).context o).parent s) [
  | none ↦ none
  | some s' ↦ elim (collect_children fuel ws o s') [
    | none ↦ none
    | some (s'', ws') ↦ collect_all fuel ws' os s''
  ]
]

-- The outputs that live, then the collection; an input that lives and is not among them is destroyed.
unfoldable pub context_gc : ℕ → Rounds → ℕ → List ℕ → Option World
unfolding collect_all add_alive
context_gc fuel ws i outs =
    if ((ws 0).context i).is_destory
    then some (ws 0)
    else elim (collect_all fuel ws outs (add_alive (ws 0) outs [])) [
      | none ↦ none
      | some (s, ws') ↦ if has i s then some (ws' 0) else destory fuel false i (ws' 0)
    ]

pub add_alive-has :
    (w : World) (os s : List ℕ) (x : ℕ)
    → has x (add_alive w os s) ≡ (has x s || (has x os && not (w.context x).is_destory))
unfolding add_alive has
add_alive-has w [] s x = ground arith
add_alive-has w (o ∷ os) s x = elim (Bool-cases (x == o)) [
  | inl e ↦
      let same : (w.context x).is_destory ≡ (w.context o).is_destory =
        ap (λ (j : ℕ). (w.context j).is_destory) ((==_iff x o).0 e) in
      ground (
        arith,
        add_alive-has w os (if (w.context o).is_destory then s else add o s) x,
        has-add x o s,
      )
  | inr e ↦
      ground (
        arith,
        add_alive-has w os (if (w.context o).is_destory then s else add o s) x,
        has-add x o s,
      )
]

-- A context that lives below the output in one of the first `n` rounds.
abbrev pub SeenBelow : Rounds → ℕ → ℕ → ℕ → Type 0
SeenBelow ws o n x =
    (k : ℕ) × (k < n)
    × (has x ((ws k).context o).children ≡ true)
    × (((ws k).context x).is_destory ≡ false)
