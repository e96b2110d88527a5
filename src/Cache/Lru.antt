-- ===== src/Cache/Lru.antt =====
-- `LRUCache`: an ordered dictionary, least recently used first.
pub mod Recency
use shutilspy.Common.{ℕ, Bool, true, Option, none, some, List, [], ◌∷◌, ltb, if◌then◌else◌, length}
use shutilspy.Cache.Dict.{lookup, assign, delete, move_to_end}
use shutilspy.Cache.Persist.{Store, load_cache, save_cache, trigger_auto_save}
use shutilspy.Cache.Persist

pub record LruCache (V : Type 0) : Type 0 where
  pub store : Store V
  pub max_size : ℕ

module _ {K V : Type 0} (hash : K → ℕ) (md5 : List (ℕ × V) → ℕ) where
  -- The loop of `cleanup`: `popitem(last=False)` while there are too many.
  unfoldable pub evict : ℕ → List (ℕ × V) → List (ℕ × V)
  evict max [] = []
  evict max (x ∷ l) = let rest = evict max l in if ltb max (length (x ∷ l)) then rest else x ∷ l

  unfoldable pub cleanup : LruCache V → LruCache V
  unfolding evict
  cleanup c = record c { store = record (c.store) { cache = evict c.max_size c.store.cache } }

  unfoldable pub init : ℕ → Bool → Option (List (ℕ × V)) → ℕ → ℕ → ℕ → LruCache V
  unfolding Persist.init load_cache cleanup
  init max_size has_path file save_step save_interval now = cleanup (record {
    store = load_cache md5 true now (Persist.init has_path file save_step save_interval now);
    max_size = max_size;
  })

  unfoldable pub get : K → LruCache V → LruCache V × Option V
  unfolding lookup move_to_end
  get key c = elim (lookup (hash key) c.store.cache) [
    | none ↦ (c, none)
    | some v ↦ (
      record c { store = record (c.store) { cache = move_to_end (hash key) c.store.cache } },
      some v,
    )
  ]

  -- The items before the clean-up of `set`: moved if there, then written.
  unfoldable pub touch : ℕ → V → List (ℕ × V) → List (ℕ × V)
  unfolding assign move_to_end
  touch k v l = assign k v (move_to_end k l)

  unfoldable pub set : K → V → ℕ → LruCache V → LruCache V
  unfolding touch cleanup trigger_auto_save
  set key value now c =
      let c' =
        cleanup (record c {
          store = record (c.store) { cache = touch (hash key) value c.store.cache };
        }) in
      record c' { store = trigger_auto_save md5 now c'.store }

  unfoldable pub delete_key : K → ℕ → LruCache V → LruCache V
  unfolding lookup delete trigger_auto_save
  delete_key key now c = elim (lookup (hash key) c.store.cache) [
    | none ↦ c
    | some v ↦ record c {
      store =
          trigger_auto_save md5 now (record (c.store) { cache = delete (hash key) c.store.cache });
    }
  ]

  unfoldable pub clear : ℕ → LruCache V → LruCache V
  unfolding save_cache
  clear now c = record c { store = save_cache md5 now (record (c.store) { cache = [] }) }
