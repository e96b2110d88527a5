-- ===== src/SmartLock/Percentile.antt =====
-- The percentile that is read at an index of the sorted window, by what it means.
use shutilspy.Common.{
  ℕ, zero, suc, ◌+◌, ◌*◌, ◌/◌, ◌≤◌, ◌<◌, ◌≡◌, refl, inl, inr, true, List, [], ◌∷◌, arith, ltb, leb,
  if◌then◌else◌, ==_refl, Bool-cases, length, All, has,
}
use shutilspy.SmartLock.{insert, sort, get_or, percentile_index, percentile}

-- How many durations are at most, and how many are below, a bound.
unfoldable pub count_le : ℕ → List ℕ → ℕ
count_le v [] = 0
count_le v (x ∷ xs) = (if leb x v then 1 else 0) + count_le v xs

unfoldable pub count_lt : ℕ → List ℕ → ℕ
count_lt v [] = 0
count_lt v (x ∷ xs) = (if ltb x v then 1 else 0) + count_lt v xs

-- The first element is least, and so on.
abbrev IsSorted : List ℕ → Type 0
IsSorted [] = Unit
IsSorted (x ∷ xs) = All (λ y. x ≤ y) xs × IsSorted xs

All-insert : (a x : ℕ) (xs : List ℕ) → a ≤ x → All (λ y. a ≤ y) xs → All (λ y. a ≤ y) (insert x xs)
unfolding insert
All-insert a x [] h k = (h, tt)
All-insert a x (y ∷ ys) h (k, ks) = elim (Bool-cases (leb x y)) [
  | inl e ↦ rw (e, insert) (h, (k, ks))
  | inr e ↦ rw (e, insert) (k, All-insert a x ys h ks)
]

All_up : (a b : ℕ) (xs : List ℕ) → a ≤ b → All (λ y. b ≤ y) xs → All (λ y. a ≤ y) xs
All_up a b [] h k = tt
All_up a b (x ∷ xs) h (k, ks) = (omega arith, All_up a b xs h ks)

insert-IsSorted : (x : ℕ) (xs : List ℕ) → IsSorted xs → IsSorted (insert x xs)
unfolding insert
insert-IsSorted x [] h = (tt, tt)
insert-IsSorted x (y ∷ ys) (h, hs) = elim (Bool-cases (leb x y)) [
  | inl e ↦ rw (e, insert) ((ground arith, All_up x y ys (ground arith) h), (h, hs))
  | inr e ↦ rw (e, insert) (All-insert y x ys (ground arith) h, insert-IsSorted x ys hs)
]

sort-IsSorted : (xs : List ℕ) → IsSorted (sort xs)
unfolding sort
sort-IsSorted [] = tt
sort-IsSorted (x ∷ xs) = insert-IsSorted x (sort xs) (sort-IsSorted xs)

module _ (v : ℕ) where
  count_le-insert : (x : ℕ) (xs : List ℕ) → count_le v (insert x xs) ≡ count_le v (x ∷ xs)
  unfolding insert count_le
  count_le-insert x [] = refl
  count_le-insert x (y ∷ ys) = ground (arith, count_le-insert x ys)

  count_lt-insert : (x : ℕ) (xs : List ℕ) → count_lt v (insert x xs) ≡ count_lt v (x ∷ xs)
  unfolding insert count_lt
  count_lt-insert x [] = refl
  count_lt-insert x (y ∷ ys) = ground (arith, count_lt-insert x ys)

  has-insert : (x : ℕ) (xs : List ℕ) → has v (insert x xs) ≡ has v (x ∷ xs)
  unfolding insert has
  has-insert x [] = refl
  has-insert x (y ∷ ys) = ground (arith, has-insert x ys)

  count_le-sort : (xs : List ℕ) → count_le v (sort xs) ≡ count_le v xs
  unfolding sort count_le
  count_le-sort [] = refl
  count_le-sort (x ∷ xs) = ground (arith, count_le-insert x (sort xs), count_le-sort xs)

  count_lt-sort : (xs : List ℕ) → count_lt v (sort xs) ≡ count_lt v xs
  unfolding sort count_lt
  count_lt-sort [] = refl
  count_lt-sort (x ∷ xs) = ground (arith, count_lt-insert x (sort xs), count_lt-sort xs)

  has-sort : (xs : List ℕ) → has v (sort xs) ≡ has v xs
  unfolding sort has
  has-sort [] = refl
  has-sort (x ∷ xs) = ground (arith, has-insert x (sort xs), has-sort xs)

  count_lt_least : (xs : List ℕ) → All (λ y. v ≤ y) xs → count_lt v xs ≡ 0
  unfolding count_lt
  count_lt_least [] h = refl
  count_lt_least (x ∷ xs) (h, hs) = ground (arith, count_lt_least xs hs)

length-insert : (x : ℕ) (xs : List ℕ) → length (insert x xs) ≡ suc (length xs)
unfolding insert
length-insert x [] = refl
length-insert x (y ∷ ys) = ground (arith, length-insert x ys)

length-sort : (xs : List ℕ) → length (sort xs) ≡ length xs
unfolding sort
length-sort [] = refl
length-sort (x ∷ xs) = ground (arith, length-insert x (sort xs), length-sort xs)

get_or_least :
    (a : ℕ) (xs : List ℕ) (i d : ℕ) → All (λ y. a ≤ y) xs → i < length xs → a ≤ get_or xs i d
unfolding get_or
get_or_least a [] i d h lt = absurd (omega arith)
get_or_least a (x ∷ xs) zero d (h, hs) lt = h
get_or_least a (x ∷ xs) (suc i) d (h, hs) lt = get_or_least a xs i d hs (omega arith)

-- The element at an index of a sorted list stands above as many as the index says.
at_index :
    (xs : List ℕ) (i d : ℕ)
    → IsSorted xs
    → i < length xs
    → (has (get_or xs i d) xs ≡ true)
      × (i < count_le (get_or xs i d) xs)
      × (count_lt (get_or xs i d) xs ≤ i)
unfolding get_or count_le count_lt has
at_index [] i d h lt = absurd (omega arith)
at_index (x ∷ xs) zero d (h, hs) lt =
    (ground (arith, ==_refl x), ground arith, ground (arith, count_lt_least x xs h))
at_index (x ∷ xs) (suc i) d (h, hs) lt =
    let (m, le, below) = at_index xs i d hs (omega arith) in
    (ground arith, ground (arith, get_or_least x xs i d h), ground arith)

-- The value read for a percentile below 100 is one of the durations; more than that share of them
-- are at most it, and at most that share are below it. There is a duration.
pub percentile_exact :
    (percent : ℕ) (xs : List ℕ)
    → percent < 100
    → 0 < length xs
    → (has (percentile percent xs) xs ≡ true)
      × (length xs * percent < 100 * count_le (percentile percent xs) xs)
      × (100 * count_lt (percentile percent xs) xs ≤ length xs * percent)
unfolding percentile percentile_index
percentile_exact percent xs h more =
    let n = length xs in
    let i = percentile_index percent n in
    let v = percentile percent xs in
    let bound : n * percent < n * 100 = grind arith in
    let index : i ≡ n * percent / 100 = ground arith in
    let (m, le, below) =
      at_index (sort xs) i 0 (sort-IsSorted xs) (omega (arith, length-sort xs)) in
    (
      ground (arith, has-sort v xs),
      omega (arith, count_le-sort v xs),
      omega (arith, count_lt-sort v xs),
    )
