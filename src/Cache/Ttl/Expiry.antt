-- ===== src/Cache/Ttl/Expiry.antt =====
-- What a read sees after a write, before and after the entry's time is over.
use shutilspy.Common.{
  ℕ, ◌+◌, ◌≡◌, refl, sym, ap, ◌∙◌, ◌⊎◌, inl, inr, Bool, true, false, Option, none, some, List, [],
  ◌∷◌, arith, ltb, if◌then◌else◌, ==_iff, ==_refl, has,
}
use shutilspy.Cache.Dict.{
  lookup, merge, assign, delete, lookup-assign, lookup-delete, IsDict, assign-IsDict,
}
use shutilspy.Cache.Persist.{save_cache, differs}
use shutilspy.Cache.Persist.Saving.{InSync, lookup-trigger_auto_save, trigger_auto_save-InSync}
use shutilspy.Cache.Ttl.{
  TtlCache, Entry, life_of, clear, get, set, cleanup, delete_all, expired_keys,
}

-- What `set` stores.
abbrev pub entry_of : {V : Type 0} → V → Option ℕ → ℕ → TtlCache V → Entry V
entry_of value ttl now c = record { value = value; expiry = now + life_of ttl c.ttl }

module _ {K V : Type 0} (hash : K → ℕ) (md5 : List (ℕ × Entry V) → ℕ) where
  lookup-set :
      (key : K) (value : V) (ttl : Option ℕ) (now : ℕ) (c : TtlCache V)
      → IsDict c.store.cache
      → lookup (hash key) (set hash md5 key value ttl now c).store.cache
        ≡ some (entry_of value ttl now c)
  unfolding set
  lookup-set key value ttl now c h =
      lookup-trigger_auto_save md5 (hash key) now
        (record (c.store) { cache = assign (hash key) (entry_of value ttl now c) c.store.cache })
        (entry_of value ttl now c)
        (assign-IsDict (hash key) (entry_of value ttl now c) c.store.cache h)
        (ground (
          arith,
          lookup-assign (hash key) (hash key) (entry_of value ttl now c) c.store.cache,
          ==_refl (hash key),
        ))

  -- A value that was set is read until its time is over and not after, whatever its own save merges
  -- from the file. The time is the one given, 0 included, and the cache's own where none is given.
  -- No key stands twice in the cache.
  pub get-set :
      (key : K) (value : V) (ttl : Option ℕ) (life now later : ℕ) (c : TtlCache V)
      → IsDict c.store.cache
      → (ttl ≡ some life) ⊎ ((ttl ≡ none) × (life ≡ c.ttl))
      → (get hash md5 key later (set hash md5 key value ttl now c)).1
        ≡ (if ltb (now + life) later then none else some value)
  unfolding get
  get-set key value ttl life now later c h lasts =
      let same : life_of ttl c.ttl ≡ life = elim lasts [
        | inl e ↦ ap (λ t. life_of t c.ttl) e
        | inr (e, f) ↦ ap (λ t. life_of t c.ttl) e ∙ sym f
      ] in
      ground (arith, lookup-set key value ttl now c h, same)

  has-expired_keys :
      (k now : ℕ) (l : List (ℕ × Entry V))
      → IsDict l
      → has k (expired_keys hash md5 now l)
        ≡ elim (lookup k l) as (λ _. Bool) [ none ↦ false | some e ↦ ltb e.expiry now ]
  unfolding has expired_keys lookup
  has-expired_keys k now [] h = refl
  has-expired_keys k now ((j, e) ∷ l) (fresh, h) =
      ground (arith, has-expired_keys k now l h, ==_iff k j)

  lookup-delete_all :
      (k : ℕ) (ks : List ℕ) (l : List (ℕ × Entry V))
      → lookup k (delete_all hash md5 ks l) ≡ (if has k ks then none else lookup k l)
  unfolding has delete_all
  lookup-delete_all k [] l = refl
  lookup-delete_all k (j ∷ ks) l =
      ground (arith, lookup-delete_all k ks (delete j l), lookup-delete k j l)

  -- `cleanup` removes the expired entries and no other, if no one else wrote the file. No key
  -- stands twice in the cache.
  pub lookup-cleanup :
      (k now : ℕ) (c : TtlCache V)
      → IsDict c.store.cache
      → InSync md5 c.store
      → lookup k (cleanup hash md5 now c).store.cache
        ≡ elim (lookup k c.store.cache) as (λ _. Option (Entry V)) [
          | none ↦ none
          | some e ↦ if ltb e.expiry now then none else some e
        ]
  unfolding cleanup
  lookup-cleanup k now c h synced =
      let ks = expired_keys hash md5 now c.store.cache in
      let left = record (c.store) { cache = delete_all hash md5 ks c.store.cache } in
      ground (
        arith,
        trigger_auto_save-InSync md5 now left synced,
        lookup-delete_all k ks c.store.cache,
        has-expired_keys k now c.store.cache h,
      )

  -- `clear` empties the cache and its file, unless someone else wrote the file since the cache last
  -- did: then it leaves the file's items in both.
  pub clear_either :
      (now : ℕ) (c : TtlCache V) (disk : List (ℕ × Entry V))
      → c.store.has_path ≡ true
      → c.store.file ≡ some disk
      → let s = (clear hash md5 now c).store in
        (s.cache ≡ (if differs md5 (md5 disk) c.store.file_md5 then disk else []))
        × (s.file ≡ some s.cache)
  unfolding clear merge save_cache
  clear_either now c disk p e = (ground arith, ground arith)
