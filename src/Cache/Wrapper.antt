-- ===== src/Cache/Wrapper.antt =====
-- `cache_sync_wrapper` and `cache_async_wrapper`, the latter as it runs when no other task uses the
-- cache between its look-up and its write, over an interface that both caches fill. A function that
-- returns Python's `None` is one that returns `none`. The key that `make_stable_key` derives is a
-- parameter.
pub mod Backends
use shutilspy.Common.{
  ℕ, ◌≡◌, refl, sym, ◌∙◌, subst, inl, inr, Bool, true, false, Option, none, some, List, [], ◌∷◌,
  arith, if◌then◌else◌, Bool-cases, Option-cases,
}

-- What the wrappers use of a cache. `Holds P c` says that what `c` can ever hand out satisfies `P`.
pub record Backend (C K R : Type 0) : Type 1 where
  pub get : K → ℕ → C → C × Option R
  pub set : K → Option R → ℕ → C → C
  pub Holds : (K → R → Type 0) → C → Type 0
  pub get-Holds :
      (P : K → R → Type 0) (k : K) (now : ℕ) (c : C) → Holds P c → Holds P (get k now c).0
  pub get-sound :
      (P : K → R → Type 0) (k : K) (now : ℕ) (c : C) (r : R)
      → Holds P c
      → (get k now c).1 ≡ some r
      → P k r
  pub Same : K → K → Type 0
  pub set-Holds :
      (P : K → R → Type 0) (k : K) (r : Option R) (now : ℕ) (c : C)
      → Holds P c
      → ((j : K) (v : R) → Same j k → r ≡ some v → P j v)
      → Holds P (set k r now c)

-- The key of a call: the wrapper's fixed one, or one from the arguments, with `self` or without.
unfoldable pub cache_key : {X K : Type 0} → (List X → K) → Option K → Bool → List X → K
cache_key stable none false args = stable args
cache_key stable none true [] = stable []
cache_key stable none true (x ∷ args) = stable args
cache_key stable (some k) ignore_self args = k

module _ {C K R X E : Type 0} (b : Backend C K R) (key : List X → K)
    (func : List X → E → E × Option R) where
  -- A call of the wrapped function, at the times of the look-up and of the write.
  unfoldable pub wrapper : Bool → List X → ℕ → ℕ → E → C → (E × C) × Option R
  wrapper disabled args now later e c =
      if disabled
      then (((func args e).0, c), (func args e).1)
      else (let looked = b.get (key args) now c in
          elim looked.1 [
            | some r ↦ ((e, looked.0), some r)
            | none ↦ (
              ((func args e).0, b.set (key args) (func args e).1 later looked.0),
              (func args e).1,
            )
          ])

  -- The values that a function of the arguments alone returns, by key.
  abbrev pub Right : (List X → Option R) → K → R → Type 0
  Right f k r = (args : List X) → key args ≡ k → f args ≡ some r

  -- Calls with keys that the cache does not tell apart have one result.
  abbrev pub Determines : (List X → Option R) → Type 0
  Determines f = (args args' : List X) → b.Same (key args) (key args') → f args ≡ f args'

  -- If the function's result depends on its arguments alone, and the key determines it, then every
  -- call of the wrapped function returns what the function would, and leaves a cache that holds
  -- only such results. The cache held only such results before.
  pub wrapper-coherent :
      (f : List X → Option R) (disabled : Bool) (args : List X) (now later : ℕ) (e : E) (c : C)
      → ((a : List X) (x : E) → (func a x).1 ≡ f a)
      → Determines f
      → b.Holds (Right f) c
      → ((wrapper disabled args now later e c).1 ≡ f args)
        × b.Holds (Right f) (wrapper disabled args now later e c).0.1
  unfolding wrapper
  wrapper-coherent f disabled args now later e c pure det h = elim (Bool-cases disabled) [
    | inl d ↦ rw d (pure args e, h)
    | inr d ↦
        let kept = b.get-Holds (Right f) (key args) now c h in
        elim (Option-cases (b.get (key args) now c).1) [
          | inl n ↦
              rw (d, n)
                (
                  pure args e,
                  b.set-Holds (Right f) (key args) (func args e).1 later (b.get (key args) now c).0
                      kept
                      (λ j v same g args' i.
                        det args' args (subst (λ k. b.Same k (key args)) (sym i) same)
                        ∙ sym (pure args e)
                        ∙ g),
                )
          | inr (r, n) ↦
              rw (d, n) (sym (b.get-sound (Right f) (key args) now c r h n args refl), kept)
        ]
  ]

  -- A hit does not call the function.
  pub wrapper-hit :
      (args : List X) (now later : ℕ) (e : E) (c : C) (r : R)
      → (b.get (key args) now c).1 ≡ some r
      → (wrapper false args now later e c).0.0 ≡ e
  unfolding wrapper
  wrapper-hit args now later e c r h = ground arith
