-- ===== src/Dag/Queue/Scan.antt =====
-- A heap that finds a smallest item by a scan of all: the interface can be filled.
use mathlib.Core.List.{
  Perm, Mem, eq-or-mem_of_mem-cons, mem-cons_self, mem-cons_of_mem, not-mem-nil,
}
use mathlib.Core.List.Perm
use mathlib.Core.Option.{some-injective}
use mathlib.Core.Logic.Or
use mathlib.Core.HLevel.{⊥_prop}
use shutilspy.Common.{
  ◌+◌, ◌≡◌, refl, sym, subst, inl, inr, Bool, ◌&&◌, ◌||◌, Option, none, some, List, [], ◌∷◌, arith,
  ltb, ◌==◌, if◌then◌else◌, Bool-cases,
}
use shutilspy.Common.Int.{pos_part, neg_part}
use shutilspy.Dag.Queue.{Item, Less, Heap}

module _ {A : Type 0} where
  abbrev lessb : Item A → Item A → Bool
  lessb a b =
      ltb a.priority b.priority
      || (a.priority == b.priority
          && ltb (pos_part a.sequence + neg_part b.sequence)
              (pos_part b.sequence + neg_part a.sequence))

  unfoldable pub pick : Item A → List (Item A) → Item A × List (Item A)
  pick a [] = (a, [])
  pick a (b ∷ l) =
      let r = pick (if lessb b a then b else a) l in (r.0, (if lessb b a then a else b) ∷ r.1)

  unfoldable pub pop : List (Item A) → Option (Item A × List (Item A))
  unfolding pick
  pop [] = none
  pop (a ∷ l) = some (pick a l)

  pick-perm : (a : Item A) (l : List (Item A)) → Perm (a ∷ l) ((pick a l).0 ∷ (pick a l).1)
  unfolding pick
  pick-perm a [] = Perm.rfl
  pick-perm a (b ∷ l) = elim (Bool-cases (lessb b a)) [
    | inl e ↦
        rw (e, pick)
          (Perm.trans (Perm.cons a (pick-perm b l)) (Perm.swap (pick b l).0 a (pick b l).1))
    | inr e ↦
        rw (e, pick)
          (Perm.trans (Perm.swap b a l)
            (Perm.trans (Perm.cons b (pick-perm a l)) (Perm.swap (pick a l).0 b (pick a l).1)))
  ]

  ge_trans : (a b c : Item A) → ¬ Less b a → ¬ Less c b → ¬ Less c a
  ge_trans a b c f g x = ground (arith, f, g, x)

  irreflexive : (a : Item A) → ¬ Less a a
  irreflexive a x = ground (arith, x)

  smaller : Item A → Item A → Item A
  smaller a b = if lessb b a then b else a

  smaller_le : (a b : Item A) → (¬ Less a (smaller a b)) × (¬ Less b (smaller a b))
  unfolding smaller
  smaller_le a b = (ground arith, ground arith)

  pick-min : (a b : Item A) (l : List (Item A)) → Mem b (a ∷ l) → ¬ Less b (pick a l).0
  unfolding pick smaller
  pick-min a b [] m f =
      Or.elim ⊥_prop (eq-or-mem_of_mem-cons m) (λ e. irreflexive a (subst (λ x. Less x a) e f))
        not-mem-nil
  pick-min a b (c ∷ l) m f =
      let s = if lessb c a then c else a in
      let rest = pick-min s s l mem-cons_self in
      Or.elim ⊥_prop (eq-or-mem_of_mem-cons m)
        (λ e. ge_trans (pick s l).0 s b rest (subst (λ x. ¬ Less x s) (sym e) (smaller_le a c).0) f)
        (λ n.
          Or.elim ⊥_prop (eq-or-mem_of_mem-cons n)
            (λ e.
              ge_trans (pick s l).0 s b rest (subst (λ x. ¬ Less x s) (sym e) (smaller_le a c).1) f)
            (λ k. pick-min s b l (mem-cons_of_mem s k) f))

  pub pop-perm : (a : Item A) (s t : List (Item A)) → pop s ≡ some (a, t) → Perm s (a ∷ t)
  unfolding pop
  pop-perm a [] t e = absurd (ground (arith, e))
  pop-perm a (x ∷ s) t e =
      let p = some-injective (pick x s) (a, t) e in
      subst (λ (r : Item A × List (Item A)). Perm (x ∷ s) (r.0 ∷ r.1)) p (pick-perm x s)

  pub pop-none : (s : List (Item A)) → pop s ≡ none → s ≡ []
  unfolding pop
  pop-none [] e = refl
  pop-none (x ∷ s) e = absurd (ground (arith, e))

  pub pop-min : (a b : Item A) (s t : List (Item A)) → pop s ≡ some (a, t) → Mem b s → ¬ Less b a
  unfolding pop
  pop-min a b [] t e m = absurd (ground (arith, e))
  pop-min a b (x ∷ s) t e m =
      let p = some-injective (pick x s) (a, t) e in
      subst (λ (r : Item A × List (Item A)). ¬ Less b r.0) p (pick-min x b s m)

  unfoldable pub scan : Heap A
  unfolding pop
  scan = record {
    heappush = λ a s. a ∷ s;
    heappop = pop;
    IsHeap = λ s. Unit;
    nil-IsHeap = tt;
    heappush-IsHeap = λ a s i. tt;
    heappush-perm = λ a s. Perm.rfl;
    heappop-IsHeap = λ a s t i e. tt;
    heappop-perm = pop-perm;
    heappop-none = pop-none;
    heappop-min = λ a b s t i e. pop-min a b s t e;
  }
