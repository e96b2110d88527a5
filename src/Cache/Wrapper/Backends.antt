-- ===== src/Cache/Wrapper/Backends.antt =====
-- The two caches as what the wrappers use. A stored `none` is Python's `None`, which a read does not
-- tell from a missing key.
use shutilspy.Common.{
  ℕ, ◌-◌, ◌≡◌, refl, sym, subst, inl, inr, Option, none, some, List, arith, ltb, Bool-cases,
  Option-cases, length,
}
use shutilspy.Cache.Dict.{lookup, assign, delete, move_to_end}
use shutilspy.Cache.Persist.Items.{
  Each, EachStored, lookup-Each, assign-Each, delete-Each, move_to_end-Each, trigger_auto_save-Each,
  drop-Each,
}
use shutilspy.Cache.Lru.{LruCache, evict, touch}
use shutilspy.Cache.Lru
use shutilspy.Cache.Lru.Recency.{evict-drop}
use shutilspy.Cache.Ttl.{TtlCache, Entry}
use shutilspy.Cache.Ttl
use shutilspy.Cache.Ttl.Expiry.{entry_of}
use shutilspy.Cache.Wrapper.{Backend}

abbrev pub joined : {A : Type 0} → Option (Option A) → Option A
joined none = none
joined (some x) = x

module _ {K R : Type 0} (hash : K → ℕ) where
  -- An item is right if its value is right under each key with its digest.
  abbrev LruItem : (K → R → Type 0) → ℕ → Option R → Type 0
  LruItem P d v = (k : K) (r : R) → hash k ≡ d → v ≡ some r → P k r

  abbrev TtlItem : (K → R → Type 0) → ℕ → Entry (Option R) → Type 0
  TtlItem P d e = LruItem P d e.value

  module _ (md5 : List (ℕ × Entry (Option R)) → ℕ) where
    pub ttl_get-Holds :
        (P : K → R → Type 0) (k : K) (now : ℕ) (c : TtlCache (Option R))
        → EachStored (TtlItem P) c.store
        → EachStored (TtlItem P) (Ttl.get hash md5 k now c).0.store
    unfolding Ttl.get Ttl.delete_key
    ttl_get-Holds P k now c h = elim (Option-cases (lookup (hash k) c.store.cache)) [
      | inl e ↦ rw (e, Ttl.get) h
      | inr (d, e) ↦ elim (Bool-cases (ltb d.expiry now)) [
        | inl x ↦
            rw (e, x, Ttl.get, Ttl.delete_key, e)
              (trigger_auto_save-Each (TtlItem P) md5 now
                (record (c.store) { cache = delete (hash k) c.store.cache })
                (delete-Each (TtlItem P) (hash k) c.store.cache h.0, h.1))
        | inr x ↦ rw (e, x, Ttl.get) h
      ]
    ]

    pub ttl_get-sound :
        (P : K → R → Type 0) (k : K) (now : ℕ) (c : TtlCache (Option R)) (r : R)
        → EachStored (TtlItem P) c.store
        → joined (Ttl.get hash md5 k now c).1 ≡ some r
        → P k r
    unfolding Ttl.get
    ttl_get-sound P k now c r h e = elim (Option-cases (lookup (hash k) c.store.cache)) [
      | inl n ↦ absurd (ground (arith, e))
      | inr (d, n) ↦
          lookup-Each (TtlItem P) (hash k) d c.store.cache h.0 n k r refl (ground (arith, e))
    ]

    unfoldable pub ttl_backend : Backend (TtlCache (Option R)) K R
    unfolding Ttl.set
    ttl_backend = record {
      get = λ k now c. ((Ttl.get hash md5 k now c).0, joined (Ttl.get hash md5 k now c).1);
      set = λ k r now c. Ttl.set hash md5 k r none now c;
      Holds = λ P c. EachStored (TtlItem P) c.store;
      get-Holds = ttl_get-Holds;
      get-sound = ttl_get-sound;
      Same = λ j k. hash j ≡ hash k;
      set-Holds = λ P k r now c h right.
          trigger_auto_save-Each (TtlItem P) md5 now
            (record (c.store) { cache = assign (hash k) (entry_of r none now c) c.store.cache })
            (
              assign-Each (TtlItem P) (hash k) (entry_of r none now c) c.store.cache
                  (λ j v same. right j v same) h.0,
              h.1,
            );
    }

  module _ (md5 : List (ℕ × Option R) → ℕ) where
    pub lru_get-Holds :
        (P : K → R → Type 0) (k : K) (c : LruCache (Option R))
        → EachStored (LruItem P) c.store
        → EachStored (LruItem P) (Lru.get hash md5 k c).0.store
    unfolding Lru.get
    lru_get-Holds P k c h = elim (Option-cases (lookup (hash k) c.store.cache)) [
      | inl e ↦ rw (e, Lru.get) h
      | inr (d, e) ↦ rw (e, Lru.get) (move_to_end-Each (LruItem P) (hash k) c.store.cache h.0, h.1)
    ]

    pub lru_get-sound :
        (P : K → R → Type 0) (k : K) (c : LruCache (Option R)) (r : R)
        → EachStored (LruItem P) c.store
        → joined (Lru.get hash md5 k c).1 ≡ some r
        → P k r
    unfolding Lru.get
    lru_get-sound P k c r h e = elim (Option-cases (lookup (hash k) c.store.cache)) [
      | inl n ↦ absurd (ground (arith, e))
      | inr (d, n) ↦
          lookup-Each (LruItem P) (hash k) d c.store.cache h.0 n k r refl (ground (arith, e))
    ]

    pub touched-Each :
        (P : K → R → Type 0) (k : ℕ) (r : Option R) (n : ℕ) (l : List (ℕ × Option R))
        → LruItem P k r
        → Each (LruItem P) l
        → Each (LruItem P) (evict hash md5 n (touch hash md5 k r l))
    unfolding touch
    touched-Each P k r n l right h =
        let t = touch hash md5 k r l in
        subst (Each (LruItem P)) (sym (evict-drop hash md5 n t)) (
          drop-Each (LruItem P) (length t - n) t (
            assign-Each (LruItem P) k r (move_to_end k l) right
              (move_to_end-Each (LruItem P) k l h)))

    unfoldable pub lru_backend : Backend (LruCache (Option R)) K R
    unfolding Lru.set Lru.cleanup
    lru_backend = record {
      get = λ k now c. ((Lru.get hash md5 k c).0, joined (Lru.get hash md5 k c).1);
      set = λ k r now c. Lru.set hash md5 k r now c;
      Holds = λ P c. EachStored (LruItem P) c.store;
      get-Holds = λ P k now c h. lru_get-Holds P k c h;
      get-sound = λ P k now c r h e. lru_get-sound P k c r h e;
      Same = λ j k. hash j ≡ hash k;
      set-Holds = λ P k r now c h right.
          trigger_auto_save-Each (LruItem P) md5 now
            (record (c.store) {
              cache = evict hash md5 c.max_size (touch hash md5 (hash k) r c.store.cache);
            })
            (
              touched-Each P (hash k) r c.max_size c.store.cache (λ j v same. right j v same) h.0,
              h.1,
            );
    }
