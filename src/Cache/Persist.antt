-- ===== src/Cache/Persist.antt =====
-- `PresistentMixin`: the cache in memory, its file, and when it is written. The file holds the
-- items that `pickle` wrote, and its MD5 digest is a function of them; reading and writing it do
-- not fail. Time is an argument, read once in each call.
pub mod Saving
pub mod Items
use shutilspy.Common.{
  ℕ, ◌+◌, Bool, false, not, ◌&&◌, ◌||◌, Option, none, some, List, [], ltb, leb, ◌==◌, if◌then◌else◌,
}
use shutilspy.Cache.Dict.{lookup, merge}

pub record Store (D : Type 0) : Type 0 where
  pub cache : List (ℕ × D)
  pub has_path : Bool
  pub file : Option (List (ℕ × D))
  -- `cache_file_md5`, an attribute that is not there before a load or a save
  pub file_md5 : Option ℕ
  pub save_step : ℕ
  pub save_interval : ℕ
  pub write_count : ℕ
  pub last_save_time : ℕ

module _ {D : Type 0} where
  -- `PresistentMixin.__init__` beside a file, if there is one.
  unfoldable pub init : Bool → Option (List (ℕ × D)) → ℕ → ℕ → ℕ → Store D
  init has_path file save_step save_interval now = record {
    cache = [];
    has_path = has_path;
    file = file;
    file_md5 = none;
    save_step = save_step;
    save_interval = save_interval;
    write_count = 0;
    last_save_time = now;
  }

module _ {D : Type 0} (md5 : List (ℕ × D) → ℕ) where
  -- `load_cache`; `ordered` says whether the cache is an `OrderedDict`.
  unfoldable pub load_cache : Bool → ℕ → Store D → Store D
  load_cache ordered now s =
      if s.has_path
      then elim s.file [
        | none ↦ s
        | some loaded ↦ record s {
          cache = if ordered then merge s.cache loaded else loaded;
          file_md5 = some (md5 loaded);
          last_save_time = now;
        }
      ]
      else s

  abbrev pub differs : ℕ → Option ℕ → Bool
  differs m none = false
  differs m (some n) = not (m == n)

  -- What `save_cache` writes: the items in memory, merged into the file's if that has changed.
  unfoldable pub to_write : Store D → List (ℕ × D)
  unfolding merge
  to_write s = elim s.file [
    | none ↦ s.cache
    | some disk ↦ if differs (md5 disk) s.file_md5 then merge disk s.cache else s.cache
  ]

  unfoldable pub save_cache : ℕ → Store D → Store D
  unfolding to_write
  save_cache now s =
      let written = to_write s in
      if s.has_path
      then record s {
        cache = written;
        file = some written;
        file_md5 = some (md5 written);
        last_save_time = now;
        write_count = 0;
      }
      else s

  -- The conditions of `_trigger_auto_save`, after the write was counted.
  abbrev pub is_due : ℕ → Store D → Bool
  is_due now s =
      (ltb 0 s.save_step && leb s.save_step s.write_count)
      || (ltb 0 s.save_interval && leb (s.save_interval + s.last_save_time) now)

  unfoldable pub trigger_auto_save : ℕ → Store D → Store D
  unfolding save_cache
  trigger_auto_save now s =
      let counted = record s { write_count = s.write_count + 1 } in
      if s.has_path then (if is_due now counted then save_cache now counted else counted) else s
