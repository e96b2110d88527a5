-- ===== src/Common/Sets.antt =====
-- Python sets of ids as lists: a membership test, and the operations in terms of it.
use Prim.Native.Nat.{ℕ}
use mathlib.Core.Path.{◌≡◌, refl}
use mathlib.Core.Bool.{Bool, true, false, not, ◌&&◌, ◌||◌}
use mathlib.Core.List.{List, [], ◌∷◌}
use native.Mathlib.Omega.{arith}
use shutilspy.Common.Tests.{◌==◌, if◌then◌else◌}

abbrev pub is_empty : List ℕ → Bool
is_empty [] = true
is_empty (x ∷ xs) = false

unfoldable pub has : ℕ → List ℕ → Bool
has a [] = false
has a (x ∷ xs) = a == x || has a xs

unfoldable pub add : ℕ → List ℕ → List ℕ
unfolding has
add a s = if has a s then s else a ∷ s

unfoldable pub discard : ℕ → List ℕ → List ℕ
discard a [] = []
discard a (x ∷ xs) = let rest = discard a xs in if a == x then rest else x ∷ rest

unfoldable pub union : List ℕ → List ℕ → List ℕ
unfolding add
union [] t = t
union (x ∷ xs) t = add x (union xs t)

unfoldable pub diff : List ℕ → List ℕ → List ℕ
unfolding discard
diff s [] = s
diff s (x ∷ xs) = discard x (diff s xs)

-- `all(x in t for x in s)`
unfoldable pub all_in : List ℕ → List ℕ → Bool
unfolding has
all_in [] t = true
all_in (x ∷ xs) t = has x t && all_in xs t

pub has-add : (a b : ℕ) (s : List ℕ) → has a (add b s) ≡ (a == b || has a s)
unfolding add has
has-add a b s = ground arith

pub has-discard : (a b : ℕ) (s : List ℕ) → has a (discard b s) ≡ (not (a == b) && has a s)
unfolding discard has
has-discard a b [] = ground arith
has-discard a b (x ∷ xs) = ground (arith, has-discard a b xs)

pub has-union : (a : ℕ) (s t : List ℕ) → has a (union s t) ≡ (has a s || has a t)
unfolding union has
has-union a [] t = refl
has-union a (x ∷ xs) t = ground (arith, has-add a x (union xs t), has-union a xs t)

pub has-diff : (a : ℕ) (s t : List ℕ) → has a (diff s t) ≡ (has a s && not (has a t))
unfolding diff has
has-diff a s [] = ground arith
has-diff a s (x ∷ xs) = ground (arith, has-discard a x (diff s xs), has-diff a s xs)

pub all_in_sound : (a : ℕ) (s t : List ℕ) → all_in s t ≡ true → has a s ≡ true → has a t ≡ true
unfolding all_in has
all_in_sound a [] t h m = ground arith
all_in_sound a (x ∷ xs) t h m = ground (arith, all_in_sound a xs t)

pub all_in_complete :
    (s t : List ℕ) → ((a : ℕ) → has a s ≡ true → has a t ≡ true) → all_in s t ≡ true
unfolding all_in has
all_in_complete [] t h = refl
all_in_complete (x ∷ xs) t h = ground (arith, h x, all_in_complete xs t (λ a m. h a (ground arith)))

pub has-ne-nil : (a : ℕ) (s : List ℕ) → has a s ≡ true → is_empty s ≡ false
unfolding has
has-ne-nil a [] h = cc
has-ne-nil a (x ∷ s) h = refl
