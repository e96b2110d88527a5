-- ===== src/Common/Maps.antt =====
-- Dictionaries and attribute tables with numbers for keys, as functions.
use Prim.Native.Nat.{ℕ}
use mathlib.Core.Path.{◌≡◌, refl}
use native.Mathlib.Omega.{arith}
use shutilspy.Common.Tests.{◌==◌, if◌then◌else◌, ==_refl}

module _ {ℓ} {A : Type ℓ} where
  unfoldable pub update : (ℕ → A) → ℕ → A → ℕ → A
  update f k v x = if x == k then v else f x

  pub update_lem :
      (f : ℕ → A) (k : ℕ) (v : A) (x : ℕ) → update f k v x ≡ (if x == k then v else f x)
  unfolding update
  update_lem f k v x = ground arith

  pub update_self : (f : ℕ → A) (k : ℕ) (v : A) → update f k v k ≡ v
  unfolding update
  update_self f k v = rw (==_refl k) refl
