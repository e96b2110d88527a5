-- ===== src/AioQueue/Stores.antt =====
-- What `_BaseQueue` asks of its subclasses: `_qsize`, `_put` and `_get` over some storage.
use mathlib.Core.List.{Perm, Permᴰ, perm_append_singleton}
use mathlib.Core.List.Perm
use mathlib.Core.Logic.{∥∥₁_elim}
use native.Mathlib.Nat.{ℕ_set}
use shutilspy.Common.{
  ℕ, suc, ◌≡◌, refl, ap, ◌∙◌, Option, none, some, List, [], ◌∷◌, ◌++◌, arith, length,
}

pub record Storage (A : Type 0) : Type 1 where
  pub Store : Type 0
  pub empty : Store
  pub qsize : Store → ℕ
  pub put : A → Store → Store
  pub get : Store → Option (A × Store)
  -- the items, in the storage's own order
  pub items : Store → List A
  pub items-empty : items empty ≡ []
  pub qsize-length : (s : Store) → qsize s ≡ length (items s)
  pub put-perm : (a : A) (s : Store) → Perm (items (put a s)) (a ∷ items s)
  pub get-perm : (a : A) (s t : Store) → get s ≡ some (a, t) → Perm (items s) (a ∷ items t)
  pub get-none : (s : Store) → get s ≡ none → items s ≡ []

-- `Queue`: a deque, appended to at the end and popped at the front.
module _ {A : Type 0} where
  abbrev pub pop_left : List A → Option (A × List A)
  pop_left [] = none
  pop_left (x ∷ xs) = some (x, xs)

  pub append-perm : (a : A) (s : List A) → Perm (s ++ a ∷ []) (a ∷ s)
  append-perm a s = perm_append_singleton a s

  pub pop_left-perm : (a : A) (s t : List A) → pop_left s ≡ some (a, t) → Perm s (a ∷ t)
  pop_left-perm a [] t e = absurd (cc e)
  pop_left-perm a (x ∷ s) t e =
      let p : x ≡ a = ground arith in let q : s ≡ t = ground arith in rw (p, q) (Perm.refl (a ∷ t))

  pub pop_left-none : (s : List A) → pop_left s ≡ none → s ≡ []
  pop_left-none [] e = refl
  pop_left-none (x ∷ s) e = absurd (cc e)

  abbrev pub fifo : Storage A
  fifo = record {
    Store = List A;
    empty = [];
    qsize = length;
    put = λ a s. s ++ a ∷ [];
    get = pop_left;
    items = λ s. s;
    items-empty = refl;
    qsize-length = λ s. refl;
    put-perm = append-perm;
    get-perm = pop_left-perm;
    get-none = pop_left-none;
  }

-- Rearranged lists are equally long, by the native numbers.
pub length-perm {ℓ} : {A : Type ℓ} {xs ys : List A} → Perm xs ys → length xs ≡ length ys
length-perm {A} {xs} {ys} p = ∥∥₁_elim p (ℕ_set (length xs) (length ys)) go
  where
    go : {us vs : List A} → Permᴰ us vs → length us ≡ length vs
    go Permᴰ.nil = refl
    go (Permᴰ.cons e d) = ap suc (go d)
    go (Permᴰ.swap e f) = refl
    go (Permᴰ.trans d d') = go d ∙ go d'
