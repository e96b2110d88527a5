-- ===== src/Dag/Queue/Lanes.antt =====
-- The three priorities as three lists, and what a put and a get do to them.
use shutilspy.Common.{
  ℕ, ◌<◌, ◌≡◌, refl, sym, ◌∙◌, subst, inl, inr, Bool, true, false, Option, none, some, List, [],
  ◌∷◌, ◌++◌, All,
}
use shutilspy.Common.Int.{ℤ, ◌<ℤ◌, succ_ℤ, pred_ℤ, lt_succ, lt_succ_self, pred_lt, pred_lt_self}
use shutilspy.Dag.Queue.{Item, Less}
use shutilspy.Dag.Queue.Sorted.{Sorted}

-- What a client sees: for each priority what is queued, next first.
pub record View (A : Type 0) : Type 0 where
  pub lifo : List A
  pub fifo_high : List A
  pub fifo_low : List A

-- The first of the highest priority that has one.
abbrev pub view_get : {A : Type 0} → View A → Option (A × View A)
view_get v = elim v.lifo [
  | x ∷ l ↦ some (x, record v { lifo = l })
  | [] ↦ elim v.fifo_high [
    | x ∷ l ↦ some (x, record v { fifo_high = l })
    | [] ↦ elim v.fifo_low [ x ∷ l ↦ some (x, record v { fifo_low = l }) | [] ↦ none ]
  ]
]

module _ {A : Type 0} where
  abbrev pub of_item : Item A → A
  of_item i = i.item

  -- A stack's counter is below its items' numbers, and a line's is above them.
  abbrev pub Bound : Bool → ℤ → Item A → Type 0
  Bound true c i = c <ℤ i.sequence
  Bound false c i = i.sequence <ℤ c

  pub record Lane (stack : Bool) (p : ℕ) (c : ℤ) (l : List (Item A)) : Type 0 where
    pub sorted : Sorted l
    pub level : All (λ i. i.priority ≡ p) l
    pub bound : All (Bound stack c) l

  pub All-append : (P : Item A → Type 0) (l m : List (Item A)) → All P l → All P m → All P (l ++ m)
  All-append P [] m a b = b
  All-append P (x ∷ l) m (p, a) b = (p, All-append P l m a b)

  pub All-both :
      (P Q R : Item A → Type 0) (l : List (Item A))
      → ((x : Item A) → P x → Q x → R x)
      → All P l
      → All Q l
      → All R l
  All-both P Q R [] f a b = tt
  All-both P Q R (x ∷ l) f (p, a) (q, b) = (f x p q, All-both P Q R l f a b)

  pub Sorted-append :
      (p : ℕ) (l m : List (Item A))
      → Sorted l
      → Sorted m
      → All (λ i. i.priority ≡ p) l
      → All (λ i. p < i.priority) m
      → Sorted (l ++ m)
  Sorted-append p [] m s t a b = t
  Sorted-append p (x ∷ l) m (f, s) t (e, a) b =
      let above : All (Less x) m =
        All-both (λ i. p < i.priority) (λ i. p < i.priority) (Less x) m
          (λ y g k. inl (subst (λ n. n < y.priority) (sym e) g)) b b in
      (All-append (Less x) l m f above, Sorted-append p l m s t a b)

  Sorted-snoc :
      (n : Item A) (l : List (Item A)) → Sorted l → All (λ i. Less i n) l → Sorted (l ++ n ∷ [])
  Sorted-snoc n [] s a = (tt, tt)
  Sorted-snoc n (x ∷ l) (f, s) (p, a) =
      (All-append (Less x) l (n ∷ []) f (p, tt), Sorted-snoc n l s a)

  Less-same :
      (p : ℕ) (i n : Item A) → i.priority ≡ p → n.priority ≡ p → i.sequence <ℤ n.sequence → Less i n
  Less-same p i n e f g = inr (e ∙ sym f, g)

  -- An item with the counter's number goes to the end of a line.
  pub Lane-snoc :
      (p : ℕ) (c : ℤ) (x : A) (l : List (Item A))
      → Lane false p c l
      → Lane false p (succ_ℤ c) (l ++ (record { priority = p; sequence = c; item = x }) ∷ [])
  Lane-snoc p c x l a =
      let n : Item A = record { priority = p; sequence = c; item = x } in
      record {
        sorted = Sorted-snoc n l a.sorted (
            All-both (λ i. i.priority ≡ p) (Bound false c) (λ i. Less i n) l
              (λ i e b. Less-same p i n e refl b) a.level a.bound);
        level = All-append (λ i. i.priority ≡ p) l (n ∷ []) a.level (refl, tt);
        bound =
            All-append (Bound false (succ_ℤ c)) l (n ∷ [])
              (All-both (Bound false c) (Bound false c) (Bound false (succ_ℤ c)) l
                (λ i b k. lt_succ i.sequence c b) a.bound a.bound)
              (lt_succ_self c, tt);
      }

  -- And to the front of a stack.
  pub Lane-cons :
      (p : ℕ) (c : ℤ) (x : A) (l : List (Item A))
      → Lane true p c l
      → Lane true p (pred_ℤ c) ((record { priority = p; sequence = c; item = x }) ∷ l)
  Lane-cons p c x l a =
      let n : Item A = record { priority = p; sequence = c; item = x } in
      record {
        sorted = (
          All-both (λ i. i.priority ≡ p) (Bound true c) (Less n) l
              (λ i e b. Less-same p n i refl e b) a.level a.bound,
          a.sorted,
        );
        level = (refl, a.level);
        bound = (
          pred_lt_self c,
          All-both (Bound true c) (Bound true c) (Bound true (pred_ℤ c)) l
              (λ i b k. pred_lt i.sequence c b) a.bound a.bound,
        );
      }

  pub Lane-tail :
      (stack : Bool) (p : ℕ) (c : ℤ) (x : Item A) (l : List (Item A))
      → Lane stack p c (x ∷ l)
      → Lane stack p c l
  Lane-tail stack p c x l a = record { sorted = a.sorted.1; level = a.level.1; bound = a.bound.1 }
