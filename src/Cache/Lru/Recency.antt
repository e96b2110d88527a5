-- ===== src/Cache/Lru/Recency.antt =====
-- The size of the cache, and what it evicts.
use shutilspy.Common.{
  ℕ, zero, suc, ◌-◌, ◌≤◌, ◌≡◌, refl, sym, ap, ◌∙◌, subst, inl, inr, some, List, [], ◌∷◌, ◌++◌,
  arith, ltb, ==_refl, Bool-cases, Option-cases, length, drop,
}
use shutilspy.Cache.Dict.{
  lookup, delete, move_to_end, lookup-delete, lookup-move_to_end, assign_fresh, delete_fresh,
  assign_last,
}
use shutilspy.Cache.Persist.Saving.{InSync, trigger_auto_save-InSync}
use shutilspy.Cache.Lru.{LruCache, evict, cleanup, get, set, touch}

module _ {K V : Type 0} (hash : K → ℕ) (md5 : List (ℕ × V) → ℕ) where
  drop_nil : (n : ℕ) → drop {A = ℕ × V} n [] ≡ []
  drop_nil zero = refl
  drop_nil (suc n) = refl

  pub evict-drop : (max : ℕ) (l : List (ℕ × V)) → evict hash md5 max l ≡ drop (length l - max) l
  unfolding evict
  evict-drop max [] = sym (drop_nil (0 - max))
  evict-drop max (x ∷ l) = elim (Bool-cases (ltb max (suc (length l)))) [
    | inl e ↦
        let count : suc (length l) - max ≡ suc (length l - max) = ground arith in
        rw (e, count) (evict-drop max l)
    | inr e ↦ let count : suc (length l) - max ≡ 0 = ground arith in rw (e, count)
  ]

  length-evict : (max : ℕ) (l : List (ℕ × V)) → length (evict hash md5 max l) ≤ max
  unfolding evict
  length-evict max [] = omega arith
  length-evict max (x ∷ l) = ground (arith, length-evict max l)

  -- A touched key stands at the end, once, behind the others in their order.
  touch-delete :
      (k : ℕ) (v : V) (l : List (ℕ × V)) → touch hash md5 k v l ≡ delete k l ++ (k, v) ∷ []
  unfolding touch move_to_end
  touch-delete k v l = elim (Option-cases (lookup k l)) [
    | inl e ↦
        rw (e, move_to_end)
          (assign_fresh k v l e ∙ ap (λ m. m ++ (k, v) ∷ []) (sym (delete_fresh k l e)))
    | inr (d, e) ↦
        rw (e, move_to_end)
          (assign_last k d v (delete k l) (ground (arith, lookup-delete k k l, ==_refl k)))
  ]

  -- After a `set` of an LRU cache the items are those but the key's own, in order, then the key with its value, cut
  -- at the front to the size, if no one else wrote the file.
  pub set-items :
      (key : K) (value : V) (now : ℕ) (c : LruCache V)
      → InSync md5 c.store
      → let all = delete (hash key) c.store.cache ++ (hash key, value) ∷ [] in
        ((set hash md5 key value now c).store.cache ≡ drop (length all - c.max_size) all)
        × (length (set hash md5 key value now c).store.cache ≤ c.max_size)
  unfolding set cleanup
  set-items key value now c synced =
      let all = touch hash md5 (hash key) value c.store.cache in
      let cleaned = record (c.store) { cache = evict hash md5 c.max_size all } in
      let saved = trigger_auto_save-InSync md5 now cleaned synced in
      let e = touch-delete (hash key) value c.store.cache in
      (
        saved ∙ evict-drop c.max_size all ∙ ap (λ l. drop (length l - c.max_size) l) e,
        subst (λ l. length l ≤ c.max_size) (sym saved) (length-evict c.max_size all),
      )

  -- A hit moves the key to the end and changes nothing that a later read can see.
  pub get-items :
      (key : K) (v : V) (c : LruCache V)
      → lookup (hash key) c.store.cache ≡ some v
      → ((get hash md5 key c).1 ≡ some v)
        × ((get hash md5 key c).0.store.cache
            ≡ delete (hash key) c.store.cache ++ (hash key, v) ∷ [])
        × ((k : ℕ) → lookup k (get hash md5 key c).0.store.cache ≡ lookup k c.store.cache)
  unfolding get move_to_end
  get-items key v c e = (
    ground arith,
    ground arith,
    λ k. ground (arith, lookup-move_to_end k (hash key) c.store.cache),
  )
