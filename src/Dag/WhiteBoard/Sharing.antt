-- ===== src/Dag/WhiteBoard/Sharing.antt =====
-- Which boards see a write, before and after a copy.
use shutilspy.Common.{
  ℕ, ◌<◌, ◌≡◌, refl, sym, ap, ◌∙◌, subst, ◌≢◌, inl, inr, true, List, [], ◌∷◌, arith, ==_iff,
  ==_refl, Bool-cases, All, update_lem,
}
use shutilspy.Cache.Dict.{assign, delete, merge}
use shutilspy.Dag.WhiteBoard.{
  World, with_items, Board, items, set_item, contains, del_item, set_data, copy, copied,
}

pub data Write (V : Type 0) : Type 0 where
  set_of : ℕ → V → Write V
  del_of : ℕ → Write V
  data_with : List (ℕ × V) → Write V

module _ {V : Type 0} where
  -- A write through a board; one that raises changes nothing.
  unfoldable pub write : ℕ → Write V → World V → World V
  unfolding set_item del_item set_data
  write b (set_of k v) w = set_item b k v w
  write b (del_of k) w = elim (del_item b k w) [ inl e ↦ w | inr x ↦ x ]
  write b (data_with l) w = set_data b l w

  unfoldable pub writes : List (ℕ × Write V) → World V → World V
  unfolding write
  writes [] w = w
  writes ((b, o) ∷ l) w = writes l (write b o w)

  -- All the dictionaries in use are below `next`.
  abbrev pub Allocated : World V → Type 0
  Allocated w = (b : ℕ) → (w.board b).data_of < w.next

  pub write-board : (b : ℕ) (o : Write V) (w : World V) → (write b o w).board ≡ w.board
  unfolding write
  write-board b (set_of k v) w = refl
  write-board b (del_of k) w = ground arith
  write-board b (data_with l) w = refl

  with_items-dict :
      (b n : ℕ) (l : List (ℕ × V)) (w : World V)
      → (w.board b).data_of ≢ n
      → (with_items b l w).dict n ≡ w.dict n
  with_items-dict b n l w ne =
      ground (arith, ne, update_lem w.dict (w.board b).data_of l n, ==_iff n (w.board b).data_of)

  write-dict :
      (b n : ℕ) (o : Write V) (w : World V)
      → (w.board b).data_of ≢ n
      → (write b o w).dict n ≡ w.dict n
  unfolding write set_item set_data del_item
  write-dict b n (set_of k v) w ne = with_items-dict b n (assign k v (items b w)) w ne
  write-dict b n (del_of k) w ne = elim (Bool-cases (contains b k w)) [
    | inl e ↦ rw (e, write, del_item) (with_items-dict b n (delete k (items b w)) w ne)
    | inr e ↦ rw (e, write, del_item) refl
  ]
  write-dict b n (data_with l) w ne = with_items-dict b n (merge (items b w) l) w ne

  writes-dict :
      (l : List (ℕ × Write V)) (n : ℕ) (w : World V)
      → All (λ o. (w.board o.0).data_of ≢ n) l
      → (writes l w).dict n ≡ w.dict n
  unfolding writes
  writes-dict [] n w a = refl
  writes-dict ((b, o) ∷ l) n w (ne, a) =
      writes-dict l n (write b o w)
        (subst (λ f. All (λ x. (f x.0).data_of ≢ n) l) (sym (write-board b o w)) a)
      ∙ write-dict b n o w ne

  pub writes-board : (l : List (ℕ × Write V)) (w : World V) → (writes l w).board ≡ w.board
  unfolding writes
  writes-board [] w = refl
  writes-board ((b, o) ∷ l) w = writes-board l (write b o w) ∙ write-board b o w

  board_other :
      (deepcopy : V → V) (from to b : ℕ) (w : World V)
      → b ≢ to
      → (copy deepcopy from to true w).board b ≡ w.board b
  unfolding copy
  board_other deepcopy from to b w ne =
      ground
        (arith, ne, ==_iff b to, update_lem w.board to (record (w.board to) { data_of = w.next }) b)

  board_to :
      (deepcopy : V → V) (from to : ℕ) (w : World V)
      → ((copy deepcopy from to true w).board to).data_of ≡ w.next
  unfolding copy
  board_to deepcopy from to w =
      ground
        (arith, ==_refl to, update_lem w.board to (record (w.board to) { data_of = w.next }) to)

  others_apart :
      (deepcopy : V → V) (from to : ℕ) (l : List (ℕ × Write V)) (w : World V)
      → Allocated w
      → All (λ o. o.0 ≢ to) l
      → All (λ o. ((copy deepcopy from to true w).board o.0).data_of ≢ w.next) l
  others_apart deepcopy from to [] w h a = tt
  others_apart deepcopy from to ((b, o) ∷ l) w h (ne, a) = (
    ground (arith, h b, board_other deepcopy from to b w ne),
    others_apart deepcopy from to l w h a,
  )

  -- After a deep copy, the copy keeps the items that the board had, with their values copied, until
  -- someone writes through the copy. The dictionaries in use are known.
  pub copy-deep :
      (deepcopy : V → V) (from to : ℕ) (l : List (ℕ × Write V)) (w : World V)
      → Allocated w
      → All (λ o. o.0 ≢ to) l
      → items to (writes l (copy deepcopy from to true w)) ≡ copied deepcopy (items from w)
  unfolding copy
  copy-deep deepcopy from to l w h a =
      let w' = copy deepcopy from to true w in
      rw (writes-board l w') (
        ap (λ n. (writes l w').dict n) (board_to deepcopy from to w)
        ∙ writes-dict l w.next w' (others_apart deepcopy from to l w h a)
        ∙ ground (
          arith,
          ==_refl w.next,
          update_lem w.dict w.next (copied deepcopy (items from w)) w.next,
        ))

  -- What is written through a deep copy no other board sees. The dictionaries in use are known.
  pub copy-deep_source :
      (deepcopy : V → V) (from to b : ℕ) (l : List (ℕ × Write V)) (w : World V)
      → Allocated w
      → b ≢ to
      → All (λ o. o.0 ≡ to) l
      → items b (writes l (copy deepcopy from to true w)) ≡ items b w
  unfolding copy
  copy-deep_source deepcopy from to b l w h ne a =
      let w' = copy deepcopy from to true w in
      rw (writes-board l w') (
        ap (λ (x : Board). (writes l w').dict x.data_of) (board_other deepcopy from to b w ne)
        ∙ writes-dict l (w.board b).data_of w' (through l a)
        ∙ ground (
          arith,
          h b,
          ==_iff (w.board b).data_of w.next,
          update_lem w.dict w.next (copied deepcopy (items from w)) (w.board b).data_of,
        ))
    where
      through :
          (m : List (ℕ × Write V))
          → All (λ o. o.0 ≡ to) m
          → All (λ o. ((copy deepcopy from to true w).board o.0).data_of ≢ (w.board b).data_of) m
      through [] t = tt
      through ((c, o) ∷ m) (e, t) = (
        subst (λ x. ((copy deepcopy from to true w).board x).data_of ≢ (w.board b).data_of) (sym e)
            (ground (arith, h b, board_to deepcopy from to w)),
        through m t,
      )
