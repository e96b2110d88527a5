-- ===== src/Cache/Ttl.antt =====
-- `TTLCache`. An entry is a value and its expiry; a key is hashed to its digest.
pub mod Expiry
use shutilspy.Common.{
  ℕ, ◌+◌, Bool, false, Option, none, some, List, [], ◌∷◌, ltb, if◌then◌else◌, is_empty,
}
use shutilspy.Cache.Dict.{lookup, assign, delete}
use shutilspy.Cache.Persist.{Store, load_cache, save_cache, trigger_auto_save}
use shutilspy.Cache.Persist

pub record Entry (V : Type 0) : Type 0 where
  pub value : V
  pub expiry : ℕ

pub record TtlCache (V : Type 0) : Type 0 where
  pub store : Store (Entry V)
  pub ttl : ℕ

-- `ttl if ttl is not None else self.ttl`.
abbrev pub life_of : Option ℕ → ℕ → ℕ
life_of none d = d
life_of (some t) d = t

module _ {K V : Type 0} (hash : K → ℕ) (md5 : List (ℕ × Entry V) → ℕ) where
  -- `del self.cache[k] for k in ks`.
  unfoldable pub delete_all : List ℕ → List (ℕ × Entry V) → List (ℕ × Entry V)
  unfolding delete
  delete_all [] l = l
  delete_all (k ∷ ks) l = delete_all ks (delete k l)

  unfoldable pub expired_keys : ℕ → List (ℕ × Entry V) → List ℕ
  expired_keys now [] = []
  expired_keys now ((k, e) ∷ l) =
      let rest = expired_keys now l in if ltb e.expiry now then k ∷ rest else rest

  unfoldable pub cleanup : ℕ → TtlCache V → TtlCache V
  unfolding delete_all expired_keys trigger_auto_save
  cleanup now c =
      let ks = expired_keys now c.store.cache in
      let left = record (c.store) { cache = delete_all ks c.store.cache } in
      record c { store = if is_empty ks then left else trigger_auto_save md5 now left }

  unfoldable pub init : ℕ → Bool → Option (List (ℕ × Entry V)) → ℕ → ℕ → ℕ → TtlCache V
  unfolding Persist.init load_cache cleanup
  init ttl has_path file save_step save_interval now = cleanup now (record {
    store = load_cache md5 false now (Persist.init has_path file save_step save_interval now);
    ttl = ttl;
  })

  unfoldable pub delete_key : K → ℕ → TtlCache V → TtlCache V
  unfolding lookup delete trigger_auto_save
  delete_key key now c = elim (lookup (hash key) c.store.cache) [
    | none ↦ c
    | some e ↦ record c {
      store =
          trigger_auto_save md5 now (record (c.store) { cache = delete (hash key) c.store.cache });
    }
  ]

  unfoldable pub get : K → ℕ → TtlCache V → TtlCache V × Option V
  unfolding lookup delete_key
  get key now c = elim (lookup (hash key) c.store.cache) [
    | none ↦ (c, none)
    | some e ↦ if ltb e.expiry now then (delete_key key now c, none) else (c, some e.value)
  ]

  unfoldable pub set : K → V → Option ℕ → ℕ → TtlCache V → TtlCache V
  unfolding assign trigger_auto_save
  set key value ttl now c =
      let entry : Entry V = record { value = value; expiry = now + life_of ttl c.ttl } in
      record c {
        store =
            trigger_auto_save md5 now
              (record (c.store) { cache = assign (hash key) entry c.store.cache });
      }

  unfoldable pub clear : ℕ → TtlCache V → TtlCache V
  unfolding save_cache
  clear now c = record c { store = save_cache md5 now (record (c.store) { cache = [] }) }
