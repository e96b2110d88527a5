-- ===== src/Dag/Graph/Closure.antt =====
-- What the collected tables hold: an entry is exactly the set of the tasks that paths lead to.
use shutilspy.Common.{
  ℕ, ◌≡◌, refl, ◌↔◌, ◌⊎◌, inl, inr, true, some, List, [], ◌∷◌, arith, ◌==◌, ==_iff, ==_refl,
  Bool-cases, Option-cases, has, union, has-union,
}
use shutilspy.Dag.Graph.Collect.{Answer, found, too_deep, key_error, Table, entry, join}

pub Answer-cases {ℓ} :
    {A : Type ℓ} (r : Answer A) → ((a : A) × (r ≡ found a)) ⊎ (r ≡ too_deep) ⊎ (r ≡ key_error)
Answer-cases (found a) = inl (a, refl)
Answer-cases too_deep = inr (inl refl)
Answer-cases key_error = inr (inr refl)

join_cons :
    (t : ℕ) (ts : List ℕ) (table : Table) (s : List ℕ)
    → join (t ∷ ts) table ≡ found s
    → (a b : List ℕ) × (entry t table ≡ some a) × (join ts table ≡ found b) × (s ≡ union a b)
unfolding join
join_cons t ts table s e = elim (Option-cases (entry t table)) [
  | inl n ↦ absurd (cc (rw (n, join) at e))
  | inr (a, n) ↦ elim (Answer-cases (join ts table)) [
    | inl (b, f) ↦ (a, b, n, f, cc (rw (n, join, f) at e))
    | inr (inl f) ↦ absurd (cc (rw (n, join, f) at e))
    | inr (inr f) ↦ absurd (cc (rw (n, join, f) at e))
  ]
]

-- A path of one edge or more.
pub data Leads (ahead : ℕ → List ℕ) : ℕ → ℕ → Type 0 where
  edge : {t d : ℕ} → has d (ahead t) ≡ true → Leads ahead t d
  via : {t d x : ℕ} → has d (ahead t) ≡ true → Leads ahead d x → Leads ahead t x

module _ (ahead : ℕ → List ℕ) where
  abbrev pub IsExact : Table → Type 0
  IsExact table =
      (t x : ℕ) (s : List ℕ) → entry t table ≡ some s → (has x s ≡ true) ↔ Leads ahead t x

  -- A path from one of the tasks.
  abbrev pub LeadsFrom : List ℕ → ℕ → Type 0
  LeadsFrom ts x = (t : ℕ) × (has t ts ≡ true) × Leads ahead t x

  Leads-cases : {t x : ℕ} → Leads ahead t x → (has x (ahead t) ≡ true) ⊎ LeadsFrom (ahead t) x
  Leads-cases (edge e) = inl e
  Leads-cases (via {d = d} e p) = inr (d, e, p)

  pub join_sound :
      (table : Table) (ts : List ℕ) (x : ℕ) (s : List ℕ)
      → IsExact table
      → join ts table ≡ found s
      → has x s ≡ true
      → LeadsFrom ts x
  unfolding join has
  join_sound table [] x s exact e m = absurd (ground arith)
  join_sound table (t ∷ ts) x s exact e m =
      let (a, b, n, f, same) = join_cons t ts table s e in
      elim (Bool-cases (has x a)) [
        | inl i ↦ (t, ground (arith, ==_refl t), (exact t x a n).0 i)
        | inr o ↦
            let (u, i, p) = join_sound table ts x b exact f (ground (arith, has-union x a b)) in
            (u, ground arith, p)
      ]

  pub join_complete :
      (table : Table) (ts : List ℕ) (t x : ℕ) (s : List ℕ)
      → IsExact table
      → join ts table ≡ found s
      → has t ts ≡ true
      → Leads ahead t x
      → has x s ≡ true
  unfolding join has
  join_complete table [] t x s exact e m p = absurd (cc)
  join_complete table (u ∷ ts) t x s exact e m p =
      let (a, b, n, f, same) = join_cons u ts table s e in
      elim (Bool-cases (t == u)) [
        | inl i ↦
            let at_t : entry t table ≡ some a = ground (arith, ==_iff t u) in
            ground (arith, (exact t x a at_t).1 p, has-union x a b)
        | inr o ↦
            ground (arith, join_complete table ts t x b exact f (ground arith) p, has-union x a b)
      ]

  pub insert-IsExact :
      (table : Table) (cur : ℕ) (s : List ℕ)
      → IsExact table
      → join (ahead cur) table ≡ found s
      → IsExact ((cur, union s (ahead cur)) ∷ table)
  unfolding entry
  insert-IsExact table cur s exact e t x r n = elim (Bool-cases (t == cur)) [
    | inl i ↦
        let same : r ≡ union s (ahead cur) = ground arith in
        let here : t ≡ cur = ground (arith, ==_iff t cur) in
        rw (same, here)
          (
            λ m. elim (Bool-cases (has x (ahead cur))) [
              | inl near ↦ edge near
              | inr far ↦
                  let (u, i, p) =
                    join_sound table (ahead cur) x s exact e
                      (ground (arith, has-union x s (ahead cur))) in
                  via i p
            ],
            λ p. elim (Leads-cases p) [
              | inl near ↦ ground (arith, has-union x s (ahead cur))
              | inr (u, i, q) ↦ ground (
                arith,
                has-union x s (ahead cur),
                join_complete table (ahead cur) u x s exact e i q,
              )
            ],
          )
    | inr o ↦ exact t x r (ground arith)
  ]
