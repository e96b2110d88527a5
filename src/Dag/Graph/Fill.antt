-- ===== src/Dag/Graph/Fill.antt =====
-- Which tasks get an entry: whatever becomes ready while the tables are collected is entered too.
use shutilspy.Common.{
  ℕ, zero, suc, ◌≡◌, refl, ◌⊎◌, inl, inr, true, false, ◌||◌, List, [], ◌∷◌, arith, ◌==◌, ==_iff,
  Bool-cases, has, union,
}
use shutilspy.Dag.Graph.Collect.{
  Answer, found, Table, entry, present, all_present, join, collect_each, collect,
}
use shutilspy.Dag.Graph.Closure.{Answer-cases, IsExact, insert-IsExact}

pub all_present_mono :
    (ts : List ℕ) (a b : Table)
    → ((x : ℕ) → present x a ≡ true → present x b ≡ true)
    → all_present ts a ≡ true
    → all_present ts b ≡ true
unfolding all_present
all_present_mono [] a b grow h = refl
all_present_mono (t ∷ ts) a b grow h = ground (arith, grow t, all_present_mono ts a b grow)

all_present_new :
    (ts : List ℕ) (cur : ℕ) (s : List ℕ) (a : Table)
    → all_present ts ((cur, s) ∷ a) ≡ true
    → all_present ts a ≡ false
    → has cur ts ≡ true
unfolding all_present present entry has
all_present_new [] cur s a h n = absurd (cc)
all_present_new (t ∷ ts) cur s a h n =
    ground (arith, all_present_new ts cur s a, ==_iff t cur, ==_iff cur t)

present-cons : (x k : ℕ) (v : List ℕ) (a : Table) → present x ((k, v) ∷ a) ≡ (x == k || present x a)
unfolding present entry
present-cons x k v a = ground arith

each_cons :
    (call : ℕ → Table → Answer Table) (t : ℕ) (ts : List ℕ) (a b : Table)
    → collect_each call (t ∷ ts) a ≡ found b
    → (m : Table) × (call t a ≡ found m) × (collect_each call ts m ≡ found b)
unfolding collect_each
each_cons call t ts a b e = elim (Answer-cases (call t a)) [
  | inl (m, f) ↦ (m, f, rw (f, collect_each) at e)
  | inr (inl f) ↦ absurd (cc (rw (f, collect_each) at e))
  | inr (inr f) ↦ absurd (cc (rw (f, collect_each) at e))
]

module _ (ahead back : ℕ → List ℕ) where
  collect-suc :
      (limit cur : ℕ) (a b : Table)
      → collect ahead back (suc limit) cur a ≡ found b
      → ((all_present (ahead cur) a ≡ false) × (b ≡ a))
        ⊎ ((s : List ℕ) × (join (ahead cur) a ≡ found s)
            × (collect_each (collect ahead back limit) (back cur) ((cur, union s (ahead cur)) ∷ a)
                ≡ found b))
  unfolding collect
  collect-suc limit cur a b e = elim (Bool-cases (all_present (ahead cur) a)) [
    | inr n ↦ inl (n, cc (rw (n, collect) at e))
    | inl n ↦ elim (Answer-cases (join (ahead cur) a)) [
      | inl (s, f) ↦ inr (s, f, rw (n, collect, f) at e)
      | inr (inl f) ↦ absurd (cc (rw (n, collect, f) at e))
      | inr (inr f) ↦ absurd (cc (rw (n, collect, f) at e))
    ]
  ]

  pub record Effect (ts : List ℕ) (a b : Table) : Type 0 where
    pub exact : IsExact ahead a → IsExact ahead b
    pub grows : (x : ℕ) → present x a ≡ true → present x b ≡ true
    pub settles :
        (x : ℕ)
        → all_present (ahead x) b ≡ true
        → all_present (ahead x) a ≡ false
        → present x b ≡ true
    pub fills : (x : ℕ) → has x ts ≡ true → all_present (ahead x) a ≡ true → present x b ≡ true

  each-Effect :
      (call : ℕ → Table → Answer Table)
      → ((t : ℕ) (a b : Table) → call t a ≡ found b → Effect (t ∷ []) a b)
      → (ts : List ℕ) (a b : Table) → collect_each call ts a ≡ found b
      → Effect ts a b
  unfolding has collect_each
  each-Effect call step [] a b e =
      let same : a ≡ b = cc in
      rw (← same)
        (record { exact = λ h. h; grows = λ x h. h; settles = λ x h n. cc; fills = λ x h n. cc })
  each-Effect call step (t ∷ ts) a b e =
      let (m, f, g) = each_cons call t ts a b e in
      let one = step t a m f in
      let more = each-Effect call step ts m b g in
      record {
        exact = λ h. more.exact (one.exact h);
        grows = λ x h. more.grows x (one.grows x h);
        settles = λ x h n. elim (Bool-cases (all_present (ahead x) m)) [
          | inl r ↦ more.grows x (one.settles x r n)
          | inr r ↦ more.settles x h r
        ];
        fills = λ x h n. elim (Bool-cases (x == t)) [
          | inl i ↦ more.grows x (one.fills x (ground arith) n)
          | inr i ↦ more.fills x (ground arith) (all_present_mono (ahead x) a m one.grows n)
        ];
      }

  module _ (symmetric : (t d : ℕ) → has d (ahead t) ≡ has t (back d)) where
    pub collect-Effect :
        (limit cur : ℕ) (a b : Table)
        → collect ahead back limit cur a ≡ found b
        → Effect (cur ∷ []) a b
    unfolding collect has
    collect-Effect zero cur a b e = absurd (cc)
    collect-Effect (suc limit) cur a b e = elim (collect-suc limit cur a b e) [
      | inl (n, same) ↦ rw same (record {
        exact = λ h. h;
        grows = λ x h. h;
        settles = λ x h k. cc;
        fills = λ x h k. ground (arith, ==_iff x cur);
      })
      | inr (s, f, g) ↦
          let a' = (cur, union s (ahead cur)) ∷ a in
          let entered = λ (x : ℕ). present-cons x cur (union s (ahead cur)) a in
          let rest =
            each-Effect (collect ahead back limit) (collect-Effect limit) (back cur) a' b g in
          record {
            exact = λ h. rest.exact (insert-IsExact ahead a cur s h f);
            grows = λ x h. rest.grows x (ground (arith, entered x));
            settles = λ x h n. elim (Bool-cases (all_present (ahead x) a')) [
              | inl r ↦
                  rest.fills x
                    (ground (
                      arith,
                      symmetric x cur,
                      all_present_new (ahead x) cur (union s (ahead cur)) a r n,
                    ))
                    r
              | inr r ↦ rest.settles x h r
            ];
            fills = λ x h n. rest.grows x (ground (arith, entered x));
          }
    ]
