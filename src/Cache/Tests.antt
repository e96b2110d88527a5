-- ===== src/Cache/Tests.antt =====
-- Runs of the caches, and the theorems at concrete inputs. The digest of a key is the key itself.
use shutilspy.Common.{
  ℕ, suc, ◌+◌, ◌≡◌, refl, ap, subst, ◌⊎◌, inr, true, false, Option, none, some, List, [], ◌∷◌,
  arith, length,
}
use mathlib.Core.Option.{some-injective}
use shutilspy.Cache.Dict.{lookup, IsDict}
use shutilspy.Cache.Persist.{Store, save_cache, load_cache, to_write, trigger_auto_save, differs}
use shutilspy.Cache.Persist.Saving.{IsDue, trigger_saves, save-load}
use shutilspy.Cache.Ttl
use shutilspy.Cache.Ttl.{TtlCache, Entry}
use shutilspy.Cache.Ttl.Expiry.{get-set}
use shutilspy.Cache.Lru
use shutilspy.Cache.Lru.{LruCache}
use shutilspy.Cache.Wrapper.{cache_key, wrapper, Right, wrapper-coherent}
use shutilspy.Cache.Wrapper.Backends.{ttl_backend, lru_backend}

code : Unit {0}
unfolding save_cache load_cache to_write trigger_auto_save lookup Ttl.get Ttl.set Ttl.cleanup
    Ttl.clear Lru.get Lru.set wrapper cache_key ttl_backend lru_backend
code = tt

abbrev same : ℕ → ℕ
same k = k

abbrev md5 : {D : Type 0} → List (ℕ × D) → ℕ
md5 l = length l

abbrev items : List (ℕ × ℕ)
items = (1, 10) ∷ (2, 20) ∷ []

-- Two items in memory; the file has two others, and was seen with one.
abbrev stale : Store ℕ
stale = record {
  cache = items;
  has_path = true;
  file = some ((1, 5) ∷ (3, 30) ∷ []);
  file_md5 = some 1;
  save_step = 2;
  save_interval = 0;
  write_count = 1;
  last_save_time = 0;
}

items-IsDict : IsDict items
unfolding lookup
items-IsDict = (refl, (refl, tt))

stale-FileIsDict : (disk : List (ℕ × ℕ)) → stale.file ≡ some disk → IsDict disk
unfolding lookup
stale-FileIsDict disk e =
    subst IsDict (some-injective ((1, 5) ∷ (3, 30) ∷ []) disk e) (refl, (refl, tt))

trigger_saves_example :
    let t = trigger_auto_save md5 7 stale in
    (IsDue md5 7 stale
      × (t.write_count ≡ 0)
      × (t.last_save_time ≡ 7)
      × (t.file ≡ some t.cache)
      × ((k : ℕ) (d : ℕ) → lookup k stale.cache ≡ some d → lookup k t.cache ≡ some d))
    ⊎ ((¬ IsDue md5 7 stale) × (t ≡ record stale { write_count = 2 }))
unfolding code
trigger_saves_example = trigger_saves md5 7 stale refl items-IsDict

save-load_example :
    lookup 3
      (load_cache md5 true 9
        (record stale { cache = []; file = (save_cache md5 8 stale).file })).cache
    ≡ some 30
unfolding code
save-load_example =
    save-load md5 true 8 9 3 stale
      (record stale { cache = []; file = (save_cache md5 8 stale).file }) items-IsDict
      stale-FileIsDict refl refl refl refl

abbrev entry : ℕ → ℕ → Entry ℕ
entry v t = record { value = v; expiry = t }

abbrev ttl_items : List (ℕ × Entry ℕ)
ttl_items = (1, entry 10 50) ∷ (2, entry 20 9) ∷ []

abbrev ttl : TtlCache ℕ
ttl = record {
  store = record {
    cache = ttl_items;
    has_path = true;
    file = some ((4, entry 40 90) ∷ []);
    file_md5 = some 1;
    save_step = 1;
    save_interval = 0;
    write_count = 0;
    last_save_time = 0;
  };
  ttl = 60;
}

ttl_items-IsDict : IsDict ttl_items
unfolding lookup
ttl_items-IsDict = (refl, (refl, tt))

get-set_example : (Ttl.get same md5 3 70 (Ttl.set same md5 3 33 none 10 ttl)).1 ≡ some 33
unfolding code
get-set_example = get-set same md5 3 33 none 60 10 70 ttl ttl_items-IsDict (inr (refl, refl))

ttl-InSync :
    (disk : List (ℕ × Entry ℕ))
    → ttl.store.file ≡ some disk
    → differs {D = Entry ℕ} md5 (md5 disk) (some 1) ≡ false
ttl-InSync disk e =
    subst (λ l. differs {D = Entry ℕ} md5 (md5 l) (some 1) ≡ false)
      (some-injective ((4, entry 40 90) ∷ []) disk e) refl

abbrev changed : TtlCache ℕ
changed = record ttl { store = record (ttl.store) { file_md5 = some 5 } }

abbrev lru : LruCache ℕ
lru = record { store = record stale { file = none }; max_size = 2 }

-- The sum of the arguments, which is also the key; the state counts the calls.
abbrev sum : List ℕ → ℕ
sum [] = 0
sum (x ∷ l) = x + sum l

abbrev add_all : List ℕ → ℕ → ℕ × Option ℕ
add_all args calls = (suc calls, some (sum args))

abbrev empty : LruCache (Option ℕ)
empty = record {
  store = record {
    cache = [];
    has_path = false;
    file = none;
    file_md5 = none;
    save_step = 1;
    save_interval = 0;
    write_count = 0;
    last_save_time = 0;
  };
  max_size = 2;
}

abbrev called : (ℕ × LruCache (Option ℕ)) × Option ℕ
called =
    wrapper (lru_backend same md5) (cache_key sum none false) add_all false (1 ∷ 2 ∷ []) 0 0 0 empty

wrapper-coherent_example :
    (called.1 ≡ some 3)
    × (lru_backend same md5).Holds
        (Right (lru_backend same md5) (cache_key sum none false) add_all (λ l. some (sum l)))
        called.0.1
unfolding code
wrapper-coherent_example =
    wrapper-coherent (lru_backend same md5) (cache_key sum none false) add_all (λ l. some (sum l))
      false (1 ∷ 2 ∷ []) 0 0 0 empty (λ a x. refl) (λ a b e. ap some e)
      (tt, λ disk e. absurd (ground (arith, e)))
