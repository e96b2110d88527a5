-- ===== src/Dag/WhiteBoard.antt =====
-- shutils/dag/data_white_board.py: the boards, over a store of dictionaries, since a copy that is
-- not deep shares the dictionary and the locks. Each operation of `SyncDataWhiteBoard` holds its
-- lock throughout and is one step; those of `AsyncDataWhiteBoard` are the same under one more lock.
-- Keys are numbers; `copy.deepcopy` is a parameter. `values` and the other generators are what they
-- yield if nothing writes before they end.
pub mod Sharing
mod Tests
use shutilspy.Common.{
  ℕ, ◌+◌, ◌⊎◌, inl, inr, Bool, true, false, not, none, some, List, [], ◌∷◌, ◌==◌, if◌then◌else◌,
  length, update,
}
use shutilspy.Cache.Dict.{lookup, assign, delete, merge}

-- `DataWhiteBoardMixin`: where its locks and its dictionary are.
pub record Board : Type 0 where
  pub sync_lock : ℕ
  pub async_lock : ℕ
  pub data_of : ℕ

pub record World (V : Type 0) : Type 0 where
  pub board : ℕ → Board
  pub dict : ℕ → List (ℕ × V)
  -- all below are in use
  pub next : ℕ

pub data Error : Type 0 where
  key_error : ℕ → Error

module _ {V : Type 0} where
  -- `__init__` of the board `b`.
  unfoldable pub init : ℕ → World V → World V
  init b w = record {
    board =
        update w.board b
          (record { sync_lock = w.next; async_lock = w.next + 1; data_of = w.next + 2 });
    dict = update w.dict (w.next + 2) [];
    next = w.next + 3;
  }

  -- The dictionary of a board, as `items` yields it.
  abbrev pub items : ℕ → World V → List (ℕ × V)
  items b w = w.dict (w.board b).data_of

  abbrev pub with_items : ℕ → List (ℕ × V) → World V → World V
  with_items b l w = record w { dict = update w.dict (w.board b).data_of l }

  unfoldable pub set_item : ℕ → ℕ → V → World V → World V
  unfolding assign
  set_item b k v w = with_items b (assign k v (items b w)) w

  unfoldable pub get_item : ℕ → ℕ → World V → Error ⊎ V
  unfolding lookup
  get_item b k w = elim (lookup k (items b w)) [ none ↦ inl (key_error k) | some v ↦ inr v ]

  unfoldable pub contains : ℕ → ℕ → World V → Bool
  unfolding lookup
  contains b k w = elim (lookup k (items b w)) [ none ↦ false | some v ↦ true ]

  abbrev pub len : ℕ → World V → ℕ
  len b w = length (items b w)

  abbrev pub keys_of : List (ℕ × V) → List ℕ
  keys_of [] = []
  keys_of (x ∷ l) = x.0 ∷ keys_of l

  abbrev pub values_of : List (ℕ × V) → List V
  values_of [] = []
  values_of (x ∷ l) = x.1 ∷ values_of l

  abbrev pub keys : ℕ → World V → List ℕ
  keys b w = keys_of (items b w)

  abbrev pub values : ℕ → World V → List V
  values b w = values_of (items b w)

  abbrev pub is_true : ℕ → World V → Bool
  is_true b w = not (len b w == 0)

  unfoldable pub del_item : ℕ → ℕ → World V → Error ⊎ World V
  unfolding contains delete
  del_item b k w =
      if contains b k w then inr (with_items b (delete k (items b w)) w) else inl (key_error k)

  unfoldable pub set_data : ℕ → List (ℕ × V) → World V → World V
  unfolding merge
  set_data b l w = with_items b (merge (items b w) l) w

  unfoldable pub get : ℕ → ℕ → V → World V → V
  unfolding lookup
  get b k default w = elim (lookup k (items b w)) [ none ↦ default | some v ↦ v ]

  abbrev pub copied : (V → V) → List (ℕ × V) → List (ℕ × V)
  copied f [] = []
  copied f (x ∷ l) = (x.0, f x.1) ∷ copied f l

  -- `copy` from one board to another, into a new dictionary if deep.
  unfoldable pub copy : (V → V) → ℕ → ℕ → Bool → World V → World V
  copy deepcopy from to true w = record {
    board = update w.board to (record (w.board to) { data_of = w.next });
    dict = update w.dict w.next (copied deepcopy (items from w));
    next = w.next + 1;
  }
  copy deepcopy from to false w = record w { board = update w.board to (w.board from) }
