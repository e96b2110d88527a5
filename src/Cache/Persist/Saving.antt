-- ===== src/Cache/Persist/Saving.antt =====
-- What a save keeps, and when one happens.
use mathlib.Core.List.{append-nil, append_assoc}
use shutilspy.Common.{
  ℕ, ◌+◌, ◌≤◌, ◌<◌, ◌≡◌, refl, sym, ap, ◌∙◌, subst, ◌↔◌, ◌⊎◌, inl, inr, Bool, true, false, not,
  ◌&&◌, Option, none, some, List, [], ◌∷◌, ◌++◌, arith, ltb, leb, ◌==◌, if◌then◌else◌, Bool-cases,
  Option-cases,
}
use shutilspy.Cache.Dict.{
  lookup, merge, lookup-merge, last-lookup, IsDict, assign_fresh, lookup-append, merge-IsDict,
}
use shutilspy.Cache.Persist.{
  Store, load_cache, to_write, save_cache, trigger_auto_save, differs, is_due,
}

module _ {D : Type 0} (md5 : List (ℕ × D) → ℕ) where
  -- The file was not changed since the cache last read or wrote it.
  abbrev pub InSync : Store D → Type 0
  InSync s = (disk : List (ℕ × D)) → s.file ≡ some disk → differs md5 (md5 disk) s.file_md5 ≡ false

  pub to_write-InSync : (s : Store D) → InSync s → to_write md5 s ≡ s.cache
  unfolding to_write
  to_write-InSync s h = elim (Option-cases s.file) [
    | inl e ↦ rw (e, to_write)
    | inr (disk, e) ↦ rw (e, to_write) (ground (arith, h disk))
  ]

  -- What a save leaves in memory and in the file: the items in memory, and under each other key
  -- what the file held if it had changed. No key stands twice in memory.
  pub lookup-to_write :
      (k : ℕ) (s : Store D) (disk : List (ℕ × D))
      → IsDict s.cache
      → s.file ≡ some disk
      → lookup k (to_write md5 s) ≡ (
          if differs md5 (md5 disk) s.file_md5
          then elim (lookup k s.cache) as (λ _. Option D) [ none ↦ lookup k disk | some d ↦ some d ]
          else lookup k s.cache)
  unfolding to_write
  lookup-to_write k s disk h e =
      ground (arith, lookup-merge k s.cache disk, last-lookup k s.cache h)

  lookup-to_write-some :
      (k : ℕ) (s : Store D) (d : D)
      → IsDict s.cache
      → lookup k s.cache ≡ some d
      → lookup k (to_write md5 s) ≡ some d
  unfolding to_write
  lookup-to_write-some k s d h e = elim (Option-cases s.file) [
    | inl n ↦ rw (n, to_write) e
    | inr (disk, n) ↦ ground (arith, lookup-to_write k s disk h n)
  ]

  -- No save drops or changes an item in memory.
  pub lookup-trigger_auto_save :
      (k now : ℕ) (s : Store D) (d : D)
      → IsDict s.cache
      → lookup k s.cache ≡ some d
      → lookup k (trigger_auto_save md5 now s).cache ≡ some d
  unfolding trigger_auto_save
  lookup-trigger_auto_save k now s d h e =
      ground (arith, lookup-to_write-some k (record s { write_count = s.write_count + 1 }) d h e)

  pub trigger_auto_save-InSync :
      (now : ℕ) (s : Store D) → InSync s → (trigger_auto_save md5 now s).cache ≡ s.cache
  unfolding trigger_auto_save
  trigger_auto_save-InSync now s h =
      ground (arith, to_write-InSync (record s { write_count = s.write_count + 1 }) h)

  -- A save is due: the step is used up, or the interval is over; 0 turns either off.
  abbrev pub IsDue : ℕ → Store D → Type 0
  IsDue now s =
      ((0 < s.save_step) × (s.save_step ≤ s.write_count + 1))
      ⊎ ((0 < s.save_interval) × (s.save_interval + s.last_save_time ≤ now))

  is_due-IsDue :
      (now : ℕ) (s : Store D)
      → (is_due md5 now (record s { write_count = s.write_count + 1 }) ≡ true) ↔ IsDue now s
  is_due-IsDue now s = (
    λ e. elim (Bool-cases (ltb 0 s.save_step && leb s.save_step (s.write_count + 1))) [
      | inl f ↦ inl (ground arith, ground arith)
      | inr f ↦ inr (ground arith, ground arith)
    ],
    λ d. elim d [ inl (p, q) ↦ ground arith | inr (p, q) ↦ ground arith ],
  )

  -- After a write, with a path: if the step is used up or the interval is over (each only where it
  -- is positive), memory is in the file, with all that was in memory, and the count and the time
  -- start anew; if neither is, the write is counted and nothing else changes. No key stands twice
  -- in memory.
  pub trigger_saves :
      (now : ℕ) (s : Store D)
      → s.has_path ≡ true
      → IsDict s.cache
      → let t = trigger_auto_save md5 now s in
        (IsDue now s
          × (t.write_count ≡ 0)
          × (t.last_save_time ≡ now)
          × (t.file ≡ some t.cache)
          × ((k : ℕ) (d : D) → lookup k s.cache ≡ some d → lookup k t.cache ≡ some d))
        ⊎ ((¬ IsDue now s) × (t ≡ record s { write_count = s.write_count + 1 }))
  unfolding trigger_auto_save
  trigger_saves now s p h =
      let due = is_due-IsDue now s in
      elim (Bool-cases (is_due md5 now (record s { write_count = s.write_count + 1 }))) [
        | inl e ↦ inl (
          due.0 e,
          ground arith,
          ground arith,
          ground arith,
          λ k d m. lookup-trigger_auto_save k now s d h m,
        )
        | inr e ↦ inr (λ d. absurd (ground (arith, due.1 d)), ground arith)
      ]

  lookup_before :
      (k : ℕ) (d : D) (l m : List (ℕ × D)) → IsDict (l ++ (k, d) ∷ m) → lookup k l ≡ none
  unfolding lookup
  lookup_before k d [] m h = refl
  lookup_before k d ((j, e) ∷ l) m (fresh, h) =
      ground (arith, lookup_before k d l m h, lookup-append j l ((k, d) ∷ m))

  merge_append : (l m : List (ℕ × D)) → IsDict (l ++ m) → merge l m ≡ l ++ m
  unfolding merge
  merge_append l [] h = sym (append-nil l)
  merge_append l ((k, d) ∷ m) h =
      let e = append_assoc l ((k, d) ∷ []) m in
      rw (assign_fresh k d l (lookup_before k d l m h))
        (merge_append (l ++ (k, d) ∷ []) m (subst IsDict (sym e) h) ∙ e)

  abbrev pub FileIsDict : Store D → Type 0
  FileIsDict s = (disk : List (ℕ × D)) → s.file ≡ some disk → IsDict disk

  pub to_write-IsDict : (s : Store D) → IsDict s.cache → FileIsDict s → IsDict (to_write md5 s)
  unfolding to_write
  to_write-IsDict s h f = elim (Option-cases s.file) [
    | inl n ↦ rw (n, to_write) h
    | inr (disk, n) ↦ rw (n, to_write) (either disk (f disk n))
  ]
    where
      either :
          (disk : List (ℕ × D))
          → IsDict disk
          → IsDict (if differs md5 (md5 disk) s.file_md5 then merge disk s.cache else s.cache)
      either disk g = elim (Bool-cases (differs md5 (md5 disk) s.file_md5)) [
        | inl e ↦ rw e (merge-IsDict disk s.cache g)
        | inr e ↦ rw e h
      ]

  pub trigger_auto_save-IsDict :
      (now : ℕ) (s : Store D)
      → IsDict s.cache
      → FileIsDict s
      → IsDict (trigger_auto_save md5 now s).cache
  unfolding trigger_auto_save
  trigger_auto_save-IsDict now s h f =
      ground (arith, to_write-IsDict (record s { write_count = s.write_count + 1 }) h f)

  -- The file is not the one that the cache last read or wrote, if it did.
  abbrev pub is_changed : List (ℕ × D) → Option ℕ → Bool
  is_changed disk none = false
  is_changed disk (some n) = not (md5 disk == n)

  -- What a file that was changed since held under a key.
  abbrev pub held_by : ℕ → Store D → Option D
  held_by k s = elim s.file [
    | none ↦ none
    | some disk ↦ if is_changed disk s.file_md5 then lookup k disk else none
  ]

  differs-changed :
      (disk : List (ℕ × D)) (m : Option ℕ) → differs md5 (md5 disk) m ≡ is_changed disk m
  differs-changed disk none = refl
  differs-changed disk (some n) = refl

  lookup-written :
      (k : ℕ) (s : Store D)
      → IsDict s.cache
      → lookup k (to_write md5 s)
        ≡ elim (lookup k s.cache) as (λ _. Option D) [ none ↦ held_by k s | some d ↦ some d ]
  unfolding to_write
  lookup-written k s h = elim (Option-cases s.file) [
    | inl n ↦ elim (Option-cases (lookup k s.cache)) [
      | inl e ↦ ground arith
      | inr (d, e) ↦ ground arith
    ]
    | inr (disk, n) ↦ ground (arith, lookup-to_write k s disk h n, differs-changed disk s.file_md5)
  ]

  loaded :
      (ordered : Bool) (now later : ℕ) (s t : Store D)
      → IsDict s.cache
      → FileIsDict s
      → s.has_path ≡ true
      → t.has_path ≡ true
      → t.cache ≡ []
      → t.file ≡ (save_cache md5 now s).file
      → (load_cache md5 ordered later t).cache ≡ to_write md5 s
  unfolding load_cache save_cache
  loaded ordered now later s t h g p q e f = elim (Bool-cases ordered) [
    | inl o ↦ ground (arith, merge_append [] (to_write md5 s) (to_write-IsDict s h g))
    | inr o ↦ ground arith
  ]

  -- A cache that is saved is read back by another one that starts empty on the same file: under
  -- each key, what was in memory before the save, and else what the file held there, if it was
  -- changed since this cache last read or wrote it. Both have a path. No key stands twice in memory
  -- or in the file.
  pub save-load :
      (ordered : Bool) (now later k : ℕ) (s t : Store D)
      → IsDict s.cache
      → FileIsDict s
      → s.has_path ≡ true
      → t.has_path ≡ true
      → t.cache ≡ []
      → t.file ≡ (save_cache md5 now s).file
      → lookup k (load_cache md5 ordered later t).cache
        ≡ elim (lookup k s.cache) as (λ _. Option D) [ none ↦ held_by k s | some d ↦ some d ]
  save-load ordered now later k s t h g p q e f =
      ap (lookup k) (loaded ordered now later s t h g p q e f) ∙ lookup-written k s h
