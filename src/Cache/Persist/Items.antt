-- ===== src/Cache/Persist/Items.antt =====
-- What holds of every item stays so through the dictionary's operations and the store's.
use shutilspy.Common.{
  ℕ, zero, suc, ◌+◌, ◌≡◌, subst, inl, inr, some, List, [], ◌∷◌, ◌++◌, arith, ==_iff, Bool-cases,
  Option-cases, drop, All,
}
use mathlib.Core.Option.{some-injective}
use shutilspy.Cache.Dict.{lookup, assign, delete, move_to_end, merge}
use shutilspy.Cache.Persist.{Store, to_write, is_due, trigger_auto_save}

module _ {D : Type 0} (Q : ℕ → D → Type 0) where
  abbrev pub Each : List (ℕ × D) → Type 0
  Each = All (λ x. Q x.0 x.1)

  pub lookup-Each : (k : ℕ) (d : D) (l : List (ℕ × D)) → Each l → lookup k l ≡ some d → Q k d
  unfolding lookup
  lookup-Each k d [] a e = absurd (ground (arith, e))
  lookup-Each k d ((j, x) ∷ l) (q, a) e = ground (arith, lookup-Each k d l a, ==_iff k j)

  pub assign-Each : (k : ℕ) (d : D) (l : List (ℕ × D)) → Q k d → Each l → Each (assign k d l)
  unfolding assign
  assign-Each k d [] q a = (q, tt)
  assign-Each k d ((j, x) ∷ l) q (p, a) = ground (arith, assign-Each k d l q a, ==_iff k j)

  pub delete-Each : (k : ℕ) (l : List (ℕ × D)) → Each l → Each (delete k l)
  unfolding delete
  delete-Each k [] a = tt
  delete-Each k ((j, x) ∷ l) (p, a) = ground (arith, delete-Each k l a)

  pub drop-Each : (n : ℕ) (l : List (ℕ × D)) → Each l → Each (drop n l)
  drop-Each zero l a = a
  drop-Each (suc n) [] a = tt
  drop-Each (suc n) (x ∷ l) (p, a) = drop-Each n l a

  append-Each : (l m : List (ℕ × D)) → Each l → Each m → Each (l ++ m)
  append-Each [] m a b = b
  append-Each (x ∷ l) m (p, a) b = (p, append-Each l m a b)

  pub move_to_end-Each : (k : ℕ) (l : List (ℕ × D)) → Each l → Each (move_to_end k l)
  unfolding move_to_end
  move_to_end-Each k l a = elim (Option-cases (lookup k l)) [
    | inl e ↦ rw (e, move_to_end) a
    | inr (d, e) ↦
        rw (e, move_to_end)
          (append-Each (delete k l) ((k, d) ∷ []) (delete-Each k l a) (lookup-Each k d l a e, tt))
  ]

  pub merge-Each : (d e : List (ℕ × D)) → Each d → Each e → Each (merge d e)
  unfolding merge
  merge-Each d [] a b = a
  merge-Each d ((k, v) ∷ e) a (q, b) = merge-Each (assign k v d) e (assign-Each k v d q a) b

  -- In memory and in the file.
  abbrev pub EachStored : Store D → Type 0
  EachStored s = Each s.cache × ((disk : List (ℕ × D)) → s.file ≡ some disk → Each disk)

  module _ (md5 : List (ℕ × D) → ℕ) where
    to_write-Each : (s : Store D) → EachStored s → Each (to_write md5 s)
    unfolding to_write
    to_write-Each s (a, f) = elim (Option-cases s.file) [
      | inl e ↦ rw (e, to_write) a
      | inr (disk, e) ↦ ground (arith, e, merge-Each disk s.cache (f disk e) a)
    ]

    written-Each :
        (s : Store D)
        → EachStored s
        → Each (to_write md5 s)
          × ((disk : List (ℕ × D)) → some (to_write md5 s) ≡ some disk → Each disk)
    written-Each s h = (
      to_write-Each s h,
      λ disk q. subst Each (some-injective (to_write md5 s) disk q) (to_write-Each s h),
    )

    pub trigger_auto_save-Each :
        (now : ℕ) (s : Store D) → EachStored s → EachStored (trigger_auto_save md5 now s)
    unfolding trigger_auto_save
    trigger_auto_save-Each now s h = elim (Bool-cases s.has_path) [
      | inl e ↦ elim (Bool-cases (is_due md5 now (record s { write_count = s.write_count + 1 }))) [
        | inl d ↦ rw (e, d) (written-Each (record s { write_count = s.write_count + 1 }) h)
        | inr d ↦ rw (e, d) h
      ]
      | inr e ↦ rw e h
    ]
