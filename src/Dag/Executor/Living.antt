-- ===== src/Dag/Executor/Living.antt =====
-- What the collection keeps when it ends.
use shutilspy.Common.{
  ℕ, zero, suc, ◌≤◌, ◌<◌, ◌≡◌, refl, subst, ◌↔◌, ◌⊎◌, inl, inr, true, false, Option, none, some,
  List, [], ◌∷◌, arith, ◌==◌, ==_iff, ==_refl, Bool-cases, has, add, has-add,
}
use shutilspy.Dag.Contexts.{World, is_zero}
use shutilspy.Dag.Contexts.Counting.{Sound, alive, destory-Done}
use shutilspy.Dag.Executor.Postprocess.{
  context_gc, collect_parents, collect_children, collect_all, add_alive, add_alive-has, Rounds,
}

-- A context that a chain of contexts not destroyed leads up to.
pub data Living (w : World) : Option ℕ → ℕ → Type 0 where
  first : {p : ℕ} → (w.context p).is_destory ≡ false → Living w (some p) p
  above :
      {p x : ℕ}
      → (w.context p).is_destory ≡ false
      → Living w (w.context p).parent x
      → Living w (some p) x

abbrev pub bound : Option ℕ → ℕ
bound none = 0
bound (some p) = suc p

-- A context is made after its parent.
abbrev pub IsOlder : World → Type 0
IsOlder w = (i : ℕ) → bound (w.context i).parent ≤ i

Living-cases :
    (w : World) {p x : ℕ}
    → Living w (some p) x
    → ((w.context p).is_destory ≡ false) × ((x ≡ p) ⊎ Living w (w.context p).parent x)
Living-cases w (first a) = (a, inl refl)
Living-cases w (above a l) = (a, inr l)

not_Living : (w : World) {x : ℕ} → ¬ Living w none x
not_Living w l = elim l [ ]

collect_parents-exact :
    (fuel : ℕ) (w : World) (o : Option ℕ) (s : List ℕ)
    → IsOlder w
    → bound o ≤ fuel
    → (r : List ℕ) × (collect_parents fuel w o s ≡ some r)
      × ((x : ℕ) → (has x r ≡ true) ↔ ((has x s ≡ true) ⊎ Living w o x))
unfolding collect_parents
collect_parents-exact fuel w none s older h = (
  s,
  ground arith,
  λ x. (λ m. inl m, λ m. elim m [ inl k ↦ k | inr l ↦ absurd (not_Living w l) ]),
)
collect_parents-exact zero w (some p) s older h = absurd (omega arith)
collect_parents-exact (suc fuel) w (some p) s older h = elim (Bool-cases (w.context p).is_destory) [
  | inl d ↦ (
    s,
    rw (d, collect_parents) refl,
    λ x. (λ m. inl m, λ m. elim m [ inl k ↦ k | inr l ↦ absurd (cc ((Living-cases w l).0)) ]),
  )
  | inr d ↦
      let (r, e, is) =
        collect_parents-exact fuel w (w.context p).parent (add p s) older
          (omega (arith, older p)) in
      (
        r,
        rw (d, collect_parents) e,
        λ x. (
          λ m. elim ((is x).0 m) [
            | inl k ↦ elim (Bool-cases (x == p)) [
              | inl z ↦ inr (rw ((==_iff x p).0 z) (first d))
              | inr z ↦ inl (ground (arith, has-add x p s))
            ]
            | inr l ↦ inr (above d l)
          ],
          λ m. elim m [
            | inl k ↦ (is x).1 (inl (ground (arith, has-add x p s)))
            | inr l ↦ elim (Living-cases w l).1 [
              | inl z ↦ (is x).1 (inl (ground (arith, has-add x p s, ==_iff x p)))
              | inr l' ↦ (is x).1 (inr l')
            ]
          ],
        ),
      )
]

no_children :
    (fuel : ℕ) (ws : Rounds) (o : ℕ) (s : List ℕ)
    → 0 < fuel
    → is_zero ((ws 0).context o).child_num ≡ true
    → collect_children fuel ws o s ≡ some (s, ws)
unfolding collect_children
no_children zero ws o s h z = absurd (omega arith)
no_children (suc fuel) ws o s h z = rw (z, collect_children) refl

-- Above one of the outputs.
abbrev pub LivingAbove : World → List ℕ → ℕ → Type 0
LivingAbove w os x = (o : ℕ) × (has o os ≡ true) × Living w (w.context o).parent x

collect_all-exact :
    (fuel : ℕ) (ws : Rounds) (os s : List ℕ)
    → IsOlder (ws 0)
    → ((o : ℕ) → has o os ≡ true → (o ≤ fuel) × (is_zero ((ws 0).context o).child_num ≡ true))
    → 0 < fuel
    → (r : List ℕ) × (collect_all fuel ws os s ≡ some (r, ws))
      × ((x : ℕ) → (has x r ≡ true) ↔ ((has x s ≡ true) ⊎ LivingAbove (ws 0) os x))
unfolding collect_all has
collect_all-exact fuel ws [] s older h pos_fuel =
    (s, refl, λ x. (λ m. inl m, λ m. elim m [ inl k ↦ k | inr (o, z, l) ↦ absurd (cc) ]))
collect_all-exact fuel ws (o ∷ os) s older h pos_fuel =
    let (lt, childless) = h o (ground (arith, ==_refl o)) in
    let (a, e, is) =
      collect_parents-exact fuel (ws 0) ((ws 0).context o).parent s older
        (omega (arith, older o)) in
    let (r, f, all_of) =
      collect_all-exact fuel ws os a older (λ x m. h x (ground arith)) pos_fuel in
    (
      r,
      rw (e, collect_all, no_children fuel ws o a pos_fuel childless) f,
      λ x. (
        λ m. elim ((all_of x).0 m) [
          | inl k ↦ elim ((is x).0 k) [
            | inl j ↦ inl j
            | inr l ↦ inr (o, ground (arith, ==_refl o), l)
          ]
          | inr (u, k, l) ↦ inr (u, ground arith, l)
        ],
        λ m. elim m [
          | inl k ↦ (all_of x).1 (inl ((is x).1 (inl k)))
          | inr (u, k, l) ↦ elim (Bool-cases (u == o)) [
            | inl z ↦
                let same : u ≡ o = (==_iff u o).0 z in
                (all_of x).1 (
                  inl (
                    (is x).1
                      (inr (subst (λ (j : ℕ). Living (ws 0) ((ws 0).context j).parent x) same l))))
            | inr z ↦ (all_of x).1 (inr (u, ground arith, l))
          ]
        ],
      ),
    )

-- An output that is not destroyed, or a context above one, with none destroyed between.
abbrev pub IsReferred : World → List ℕ → ℕ → Type 0
IsReferred w os x = ((has x os ≡ true) × ((w.context x).is_destory ≡ false)) ⊎ LivingAbove w os x

-- Where no output counts a child, the collection ends in its first round: the input is kept, and
-- nothing changes, if it is an output that lives or a context above an output; and it is destroyed if
-- it is neither. Parents are older, the runtime counter is exact, the input is not destroyed before,
-- and the fuel is at least the outputs' numbers and more than the contexts alive.
pub context_gc_exact :
    (fuel : ℕ) (ws : Rounds) (i : ℕ) (outs : List ℕ)
    → IsOlder (ws 0)
    → Sound (ws 0)
    → alive (ws 0) < fuel
    → ((ws 0).context i).is_destory ≡ false
    → ((o : ℕ) → has o outs ≡ true → (o ≤ fuel) × (is_zero ((ws 0).context o).child_num ≡ true))
    → (w' : World) × (context_gc fuel ws i outs ≡ some w')
      × ((IsReferred (ws 0) outs i × (w' ≡ (ws 0)))
          ⊎ ((¬ IsReferred (ws 0) outs i) × ((w'.context i).is_destory ≡ true)))
unfolding context_gc has
context_gc_exact fuel ws i outs older sound enough lives childless =
    let (s, e, is) =
      collect_all-exact fuel ws outs (add_alive (ws 0) outs []) older childless (omega arith) in
    let own = add_alive-has (ws 0) outs [] i in
    let (d, gone) = destory-Done fuel false i (ws 0) sound enough in
    elim (Bool-cases (has i s)) [
      | inl m ↦ (
        (ws 0),
        rw (lives, context_gc, e, m) refl,
        inl (elim ((is i).0 m) [ inl k ↦ inl (ground (arith, own), lives) | inr l ↦ inr l ], refl),
      )
      | inr m ↦ (
        d.after,
        rw (lives, context_gc, e, m) d.returned,
        inr (
          λ k. elim k [
            | inl (here, _) ↦ cc (m, (is i).1 (inl (ground (arith, own))))
            | inr l ↦ cc (m, (is i).1 (inr l))
          ],
          gone,
        ),
      )
    ]
