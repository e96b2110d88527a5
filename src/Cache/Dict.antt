-- ===== src/Cache/Dict.antt =====
-- Python's `dict` and `OrderedDict` with digests for keys, as lists of items, oldest first.
use shutilspy.Common.{
  ℕ, ◌≡◌, refl, inl, inr, Option, none, some, List, [], ◌∷◌, ◌++◌, arith, ◌==◌, if◌then◌else◌,
  ==_iff, ==_refl, Option-cases,
}

module _ {D : Type 0} where
  unfoldable pub lookup : ℕ → List (ℕ × D) → Option D
  lookup k [] = none
  lookup k ((j, d) ∷ l) = if k == j then some d else lookup k l

  -- `d[k] = v`: in its place, or at the end.
  unfoldable pub assign : ℕ → D → List (ℕ × D) → List (ℕ × D)
  assign k v [] = (k, v) ∷ []
  assign k v ((j, d) ∷ l) = let rest = assign k v l in if k == j then (j, v) ∷ l else (j, d) ∷ rest

  -- `del d[k]`.
  unfoldable pub delete : ℕ → List (ℕ × D) → List (ℕ × D)
  delete k [] = []
  delete k ((j, d) ∷ l) = let rest = delete k l in if k == j then rest else (j, d) ∷ rest

  -- `move_to_end`.
  unfoldable pub move_to_end : ℕ → List (ℕ × D) → List (ℕ × D)
  unfolding lookup delete
  move_to_end k l = elim (lookup k l) [ none ↦ l | some d ↦ delete k l ++ (k, d) ∷ [] ]

  -- `d.update(e)`.
  unfoldable pub merge : List (ℕ × D) → List (ℕ × D) → List (ℕ × D)
  unfolding assign
  merge d [] = d
  merge d ((k, v) ∷ e) = merge (assign k v d) e

  pub lookup-assign :
      (j k : ℕ) (v : D) (l : List (ℕ × D))
      → lookup j (assign k v l) ≡ (if j == k then some v else lookup j l)
  unfolding lookup assign
  lookup-assign j k v [] = refl
  lookup-assign j k v ((i, d) ∷ l) = ground (arith, lookup-assign j k v l)

  pub lookup-delete :
      (j k : ℕ) (l : List (ℕ × D)) → lookup j (delete k l) ≡ (if j == k then none else lookup j l)
  unfolding lookup delete
  lookup-delete j k [] = ground arith
  lookup-delete j k ((i, d) ∷ l) = ground (arith, lookup-delete j k l)

  pub lookup-append :
      (j : ℕ) (l m : List (ℕ × D))
      → lookup j (l ++ m)
        ≡ elim (lookup j l) as (λ _. Option D) [ none ↦ lookup j m | some d ↦ some d ]
  unfolding lookup
  lookup-append j [] m = refl
  lookup-append j ((i, d) ∷ l) m = ground (arith, lookup-append j l m)

  pub lookup-move_to_end : (j k : ℕ) (l : List (ℕ × D)) → lookup j (move_to_end k l) ≡ lookup j l
  unfolding move_to_end lookup
  lookup-move_to_end j k l = elim (Option-cases (lookup k l)) [
    | inl e ↦ rw (e, move_to_end)
    | inr (d, e) ↦
        rw (e, move_to_end)
          (ground
            (arith, lookup-append j (delete k l) ((k, d) ∷ []), lookup-delete j k l, ==_iff j k))
  ]

  -- The keys of `e` win, and the others stay, as long as no key stands twice in `e`.
  pub last : ℕ → List (ℕ × D) → Option D
  last k [] = none
  last k ((j, d) ∷ l) = elim (last k l) [ none ↦ if k == j then some d else none | some x ↦ some x ]

  pub lookup-merge :
      (j : ℕ) (e d : List (ℕ × D))
      → lookup j (merge d e)
        ≡ elim (last j e) as (λ _. Option D) [ none ↦ lookup j d | some x ↦ some x ]
  unfolding merge last
  lookup-merge j [] d = refl
  lookup-merge j ((k, v) ∷ e) d =
      ground (arith, lookup-merge j e (assign k v d), lookup-assign j k v d)

  -- No key stands twice.
  abbrev pub IsDict : List (ℕ × D) → Type 0
  IsDict [] = Unit
  IsDict ((k, d) ∷ l) = (lookup k l ≡ none) × IsDict l

  pub last-lookup : (j : ℕ) (l : List (ℕ × D)) → IsDict l → last j l ≡ lookup j l
  unfolding last lookup
  last-lookup j [] h = refl
  last-lookup j ((k, d) ∷ l) (fresh, h) = ground (arith, last-lookup j l h, fresh)

  pub delete-IsDict : (k : ℕ) (l : List (ℕ × D)) → IsDict l → IsDict (delete k l)
  unfolding delete
  delete-IsDict k [] h = tt
  delete-IsDict k ((j, d) ∷ l) (fresh, h) = ground (arith, delete-IsDict k l h, lookup-delete j k l)

  pub append-IsDict :
      (k : ℕ) (d : D) (l : List (ℕ × D)) → lookup k l ≡ none → IsDict l → IsDict (l ++ (k, d) ∷ [])
  unfolding lookup
  append-IsDict k d [] n h = (refl, tt)
  append-IsDict k d ((j, e) ∷ l) n (fresh, h) =
      ground (arith, append-IsDict k d l, lookup-append j l ((k, d) ∷ []), ==_iff j k, ==_iff k j)

  pub assign-IsDict : (k : ℕ) (d : D) (l : List (ℕ × D)) → IsDict l → IsDict (assign k d l)
  unfolding assign lookup
  assign-IsDict k d [] h = (refl, tt)
  assign-IsDict k d ((j, e) ∷ l) (fresh, h) =
      ground (arith, assign-IsDict k d l h, lookup-assign j k d l, ==_iff j k, ==_iff k j)

  pub merge-IsDict : (d e : List (ℕ × D)) → IsDict d → IsDict (merge d e)
  unfolding merge
  merge-IsDict d [] h = h
  merge-IsDict d ((k, v) ∷ e) h = merge-IsDict (assign k v d) e (assign-IsDict k v d h)

  pub move_to_end-IsDict : (k : ℕ) (l : List (ℕ × D)) → IsDict l → IsDict (move_to_end k l)
  unfolding move_to_end
  move_to_end-IsDict k l h = elim (Option-cases (lookup k l)) [
    | inl e ↦ rw (e, move_to_end) h
    | inr (d, e) ↦
        rw (e, move_to_end)
          (append-IsDict k d (delete k l) (ground (arith, lookup-delete k k l, ==_refl k))
            (delete-IsDict k l h))
  ]

  -- A key that is not there is appended.
  pub assign_fresh :
      (k : ℕ) (d : D) (l : List (ℕ × D)) → lookup k l ≡ none → assign k d l ≡ l ++ (k, d) ∷ []
  unfolding lookup assign
  assign_fresh k d [] n = refl
  assign_fresh k d ((j, e) ∷ l) n = ground (arith, assign_fresh k d l)

  pub delete_fresh : (k : ℕ) (l : List (ℕ × D)) → lookup k l ≡ none → delete k l ≡ l
  unfolding lookup delete
  delete_fresh k [] n = refl
  delete_fresh k ((j, e) ∷ l) n = ground (arith, delete_fresh k l)

  -- A write to the last item replaces it.
  pub assign_last :
      (k : ℕ) (c d : D) (l : List (ℕ × D))
      → lookup k l ≡ none
      → assign k d (l ++ (k, c) ∷ []) ≡ l ++ (k, d) ∷ []
  unfolding lookup assign
  assign_last k c d [] n = ground (arith, ==_refl k)
  assign_last k c d ((j, e) ∷ l) n = ground (arith, assign_last k c d l)
