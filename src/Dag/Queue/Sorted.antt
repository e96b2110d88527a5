-- ===== src/Dag/Queue/Sorted.antt =====
-- A heap that holds the items of a strictly sorted list gives them in its order.
use mathlib.Core.List.{Perm, Mem, eq-or-mem_of_mem-cons, mem-cons_self, not-mem-nil}
use mathlib.Core.List.Perm
use mathlib.Core.Logic.Or
use mathlib.Core.HLevel.{⊥_prop}
use shutilspy.Common.{◌≡◌, sym, subst, inl, inr, some, List, [], ◌∷◌, Option-cases, All}
use shutilspy.Dag.Queue.{Item, Less, Heap}

module _ {A : Type 0} where
  -- Each item is less than those behind it.
  abbrev pub Sorted : List (Item A) → Type 0
  Sorted [] = Unit
  Sorted (a ∷ l) = All (Less a) l × Sorted l

  All-Mem : (P : Item A → Type 0) (b : Item A) (l : List (Item A)) → All P l → Mem b l → ¬ (¬ P b)
  All-Mem P b [] a m f = not-mem-nil m
  All-Mem P b (x ∷ l) (p, a) m f =
      Or.elim ⊥_prop (eq-or-mem_of_mem-cons m) (λ e. f (subst P (sym e) p))
        (λ n. All-Mem P b l a n f)

  Item-set : IsSet A → IsSet (Item A)
  Item-set set = hlevel

  pub Sorted-pop :
      (h : Heap A) (a : Item A) (l s : List (Item A))
      → IsSet A
      → h.IsHeap s
      → Sorted (a ∷ l)
      → Perm s (a ∷ l)
      → (t : List (Item A)) × (h.heappop s ≡ some (a, t)) × h.IsHeap t × Perm t l
  Sorted-pop h a l s set ih sorted p =
      let there : Mem a s = (Perm.mem_iff p).1 mem-cons_self in
      elim (Option-cases (h.heappop s)) [
        | inl e ↦ absurd (not-mem-nil (subst (Mem a) (h.heappop-none s e) there))
        | inr ((b, t), e) ↦
            let q = h.heappop-perm b s t e in
            let m : Mem b (a ∷ l) = (Perm.mem_iff p).0 ((Perm.mem_iff q).1 mem-cons_self) in
            let same : b ≡ a =
              Or.elim (Item-set set b a) (eq-or-mem_of_mem-cons m) (λ e. e)
                (λ n.
                  absurd (All-Mem (Less a) b l sorted.0 n (h.heappop-min b a s t ih e there))) in
            (
              t,
              subst (λ x. h.heappop s ≡ some (x, t)) same e,
              h.heappop-IsHeap b s t ih e,
              Perm.cons_inv (subst (λ x. Perm (x ∷ t) (a ∷ l)) same (Perm.trans (Perm.symm q) p)),
            )
      ]
