-- ===== src/Dag/Graph/Lookup.antt =====
-- Collecting ends within the depth allowed, gives every task an entry, and a lookup is then exact.
use shutilspy.Common.{
  ℕ, zero, suc, ◌+◌, ◌≤◌, ◌<◌, ◌≡◌, refl, ◌↔◌, ◌⊎◌, inl, inr, Bool, true, false, List, [], ◌∷◌,
  arith, if◌then◌else◌, ==_refl, Bool-cases, Option-cases, is_empty, has, union, has-union,
}
use shutilspy.Dag.Graph.Collect.{
  Answer, found, Table, entry, present, all_present, join, collect_each, collect, gather,
  answer_from, filled,
}
use shutilspy.Dag.Graph.Closure.{LeadsFrom, IsExact, join_sound, join_complete}
use shutilspy.Dag.Graph.Fill.{collect-Effect}

pub join_returns :
    (ts : List ℕ) (a : Table) → all_present ts a ≡ true → (s : List ℕ) × (join ts a ≡ found s)
unfolding join all_present present
join_returns [] a h = ([], refl)
join_returns (t ∷ ts) a h = elim (Option-cases (entry t a)) [
  | inl n ↦ absurd (ground arith)
  | inr (s, n) ↦
      let (rest, e) = join_returns ts a (ground arith) in (union s rest, rw (n, join, e) refl)
]

all_present_each :
    (ts : List ℕ) (a : Table)
    → ((x : ℕ) → has x ts ≡ true → present x a ≡ true)
    → all_present ts a ≡ true
unfolding all_present has
all_present_each [] a h = refl
all_present_each (t ∷ ts) a h =
    ground (arith, h t, ==_refl t, all_present_each ts a (λ x m. h x (ground arith)))

no_way : (ts : List ℕ) (a : Table) → is_empty ts ≡ true → all_present ts a ≡ true
unfolding all_present
no_way [] a e = refl
no_way (u ∷ ts) a e = cc

each_returns :
    (call : ℕ → Table → Answer Table) (ts : List ℕ)
    → ((t : ℕ) (a : Table) → has t ts ≡ true → (b : Table) × (call t a ≡ found b))
    → (a : Table) → (b : Table) × (collect_each call ts a ≡ found b)
unfolding collect_each has
each_returns call [] go a = (a, refl)
each_returns call (t ∷ ts) go a =
    let (m, e) = go t a (ground (arith, ==_refl t)) in
    let (b, f) = each_returns call ts (λ u c h. go u c (ground arith)) m in
    (b, rw (e, collect_each) f)

module _ (ahead back : ℕ → List ℕ) (tasks : List ℕ) (origin : ℕ) (rank : ℕ → ℕ) where
  -- Walking back lowers the rank, and only the origin has no way ahead.
  pub record IsRanked : Type 0 where
    pub symmetric : (t d : ℕ) → has d (ahead t) ≡ has t (back d)
    pub falls : (t u : ℕ) → has u (back t) ≡ true → rank u < rank t
    pub inside : (t d : ℕ) → has t tasks ≡ true → has d (ahead t) ≡ true → has d tasks ≡ true
    pub within : (t : ℕ) → has t tasks ≡ true → rank t ≤ rank origin
    pub only_end : (t : ℕ) → has t tasks ≡ true → is_empty (ahead t) ≡ true → t ≡ origin
    pub end : is_empty (ahead origin) ≡ true

-- Every task has an entry, and the entries are right.
pub record IsFull (ahead : ℕ → List ℕ) (tasks : List ℕ) (table : Table) : Type 0 where
  pub exact : IsExact ahead table
  pub complete : (t : ℕ) → has t tasks ≡ true → present t table ≡ true

module _ (ahead back : ℕ → List ℕ) (tasks : List ℕ) (origin : ℕ) (rank : ℕ → ℕ)
    (ranked : IsRanked ahead back tasks origin rank) where
  open ranked use {symmetric, falls, inside, within, only_end, end}

  collect_returns :
      (limit cur : ℕ) (a : Table)
      → rank cur < limit
      → (b : Table) × (collect ahead back limit cur a ≡ found b)
  unfolding collect
  collect_returns zero cur a h = absurd (omega arith)
  collect_returns (suc limit) cur a h = elim (Bool-cases (all_present (ahead cur) a)) [
    | inr n ↦ (a, rw (n, collect) refl)
    | inl n ↦
        let (s, e) = join_returns (ahead cur) a n in
        let (b, f) =
          each_returns (collect ahead back limit) (back cur)
            (λ t c m. collect_returns limit t c (omega (arith, falls cur t m)))
            ((cur, union s (ahead cur)) ∷ a) in
        (b, rw (n, collect, e) f)
  ]

  -- Tasks get entries from the end of the graph on.
  entered :
      (b : Table)
      → ((x : ℕ)
          → all_present (ahead x) b ≡ true
          → all_present (ahead x) [] ≡ false
          → present x b ≡ true)
      → present origin b ≡ true
      → (k t : ℕ) → rank origin < rank t + k
      → has t tasks ≡ true
      → present t b ≡ true
  unfolding all_present present entry
  entered b settles first zero t h m = absurd (omega (arith, within t m))
  entered b settles first (suc k) t h m = elim (Bool-cases (is_empty (ahead t))) [
    | inl e ↦ rw (only_end t m e) first
    | inr e ↦
        settles t
          (all_present_each (ahead t) b (λ d i.
            entered b settles first k d (omega (arith, falls d t (ground (arith, symmetric t d))))
              (inside t d m i)))
          (not_ready (ahead t) e)
  ]
    where
      not_ready : (ts : List ℕ) → is_empty ts ≡ false → all_present ts [] ≡ false
      not_ready [] e = cc
      not_ready (u ∷ ts) e = refl

  pub collect-IsFull :
      (limit : ℕ)
      → rank origin < limit
      → (b : Table) × (collect ahead back limit origin [] ≡ found b) × IsFull ahead tasks b
  unfolding entry has
  collect-IsFull limit h =
      let (b, e) = collect_returns limit origin [] h in
      let effect = collect-Effect ahead back symmetric limit origin [] b e in
      (
        b,
        e,
        record {
          exact = effect.exact (λ t x s n. absurd (cc));
          complete = λ t m.
              entered b effect.settles
                (effect.fills origin (ground (arith, ==_refl origin))
                  (no_way (ahead origin) [] end))
                (suc (rank origin)) t (omega arith) m;
        },
      )

module _ (ahead : ℕ → List ℕ) (tasks : List ℕ) where
  -- What a lookup of the tasks `ts` is to give.
  abbrev pub IsAnswer : List ℕ → Bool → List ℕ → Type 0
  IsAnswer ts add_self s =
      (x : ℕ) → (has x s ≡ true) ↔ (LeadsFrom ahead ts x ⊎ ((add_self ≡ true) × (has x ts ≡ true)))

  gather-IsAnswer :
      (table : Table) (ts : List ℕ) (add_self : Bool)
      → IsExact ahead table
      → all_present ts table ≡ true
      → (s : List ℕ) × (gather ts add_self table ≡ found s) × IsAnswer ts add_self s
  unfolding gather
  gather-IsAnswer table ts add_self exact ready =
      let (a, e) = join_returns ts table ready in
      let here = λ (x : ℕ). has-union x a ts in
      (
        if add_self then union a ts else a,
        rw (e, gather) refl,
        λ x. (
          λ m. elim (Bool-cases (has x a)) [
            | inl i ↦ inl (join_sound ahead table ts x a exact e i)
            | inr i ↦ inr (ground (arith, here x))
          ],
          λ w. elim w [
            | inl (t, m, p) ↦ ground (arith, here x, join_complete ahead table ts t x a exact e m p)
            | inr (g, m) ↦ ground (arith, here x)
          ],
        ),
      )

  filled_returns :
      (table : Table) (fresh : Answer Table)
      → (table ≡ []) ⊎ IsFull ahead tasks table
      → (b : Table) × (fresh ≡ found b) × IsFull ahead tasks b
      → (b : Table) × (filled table fresh ≡ found b) × IsFull ahead tasks b
  unfolding filled
  filled_returns [] fresh old new = new
  filled_returns (e ∷ table) fresh (inl p) new = absurd (cc)
  filled_returns (e ∷ table) fresh (inr full) new = (e ∷ table, refl, full)

  pub answer_from-IsAnswer :
      (table : Table) (fresh : Answer Table) (ts : List ℕ) (add_self : Bool)
      → (table ≡ []) ⊎ IsFull ahead tasks table
      → (b : Table) × (fresh ≡ found b) × IsFull ahead tasks b
      → ((t : ℕ) → has t ts ≡ true → has t tasks ≡ true)
      → (r : Table × List ℕ) × (answer_from ts add_self (filled table fresh) ≡ found r)
        × IsFull ahead tasks r.0
        × IsAnswer ts add_self r.1
  unfolding answer_from
  answer_from-IsAnswer table fresh ts add_self old new inside =
      let (b, e, full) = filled_returns table fresh old new in
      let (s, f, good) =
        gather-IsAnswer b ts add_self full.exact
          (all_present_each ts b (λ t m. full.complete t (inside t m))) in
      ((b, s), ground (arith, e, f), full, good)
