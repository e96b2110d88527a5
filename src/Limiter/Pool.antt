-- ===== src/Limiter/Pool.antt =====
-- The two other kinds: how many hold a connection, and where the services are.
use mathlib.Core.List.{append-nil, append_assoc}
use shutilspy.Common.{
  ℕ, ◌-◌, ◌≡◌, refl, sym, ap, ◌∙◌, subst, Bool, true, false, Option, none, some, List, [], ◌∷◌,
  ◌++◌, arith, ltb, if◌then◌else◌,
}
use shutilspy.Common.Int.{ℤ, pos, negsuc, ◌≤ℤ◌}
use shutilspy.Limiter.{
  Limiter, concurrency, token_bucket, Concurrency, AcquireResult, try_acquire_concurrency,
  try_acquire, release,
}

-- One call on the limiter: a try, or a release of a name or of none.
pub data Call (A : Type 0) : Type 0 where
  acquire_call : Call A
  release_call : Option A → Call A

try-le :
    (c : Concurrency)
    → pos c.current_concurrency ≤ℤ c.max_concurrency
    → pos (try_acquire_concurrency c).0.current_concurrency ≤ℤ c.max_concurrency
unfolding try_acquire_concurrency
try-le c h = try-le_by c.max_concurrency refl
  where
    try-le_by :
        (m : ℤ)
        → m ≡ c.max_concurrency
        → pos (try_acquire_concurrency c).0.current_concurrency ≤ℤ c.max_concurrency
    try-le_by (pos m) e = ground (arith, h, e)
    try-le_by (negsuc m) e = ground (arith, h, e)

try-max : (c : Concurrency) → (try_acquire_concurrency c).0.max_concurrency ≡ c.max_concurrency
unfolding try_acquire_concurrency
try-max c = ground arith

module _ {A : Type 0} (truthy : A → Bool) where
  -- Calls one after the other, and what the tries returned.
  unfoldable pub run : ℕ → List (Call A) → Limiter A → Limiter A × List (AcquireResult A)
  unfolding try_acquire release
  run now [] l = (l, [])
  run now (acquire_call ∷ cs) l =
      let tried = try_acquire truthy now l in
      let rest = run now cs tried.0 in (rest.0, tried.1 ∷ rest.1)
  run now (release_call o ∷ cs) l = run now cs (release truthy o l)

  abbrev pub given : List (AcquireResult A) → List A
  given [] = []
  given (r ∷ l) = elim r.data_of [ none ↦ given l | some s ↦ s ∷ given l ]

  abbrev pub returned : List (Call A) → List A
  returned [] = []
  returned (acquire_call ∷ cs) = returned cs
  returned (release_call none ∷ cs) = returned cs
  returned (release_call (some s) ∷ cs) = if truthy s then s ∷ returned cs else returned cs

  -- Whatever is called, at most `max_concurrency` hold a connection.
  pub concurrency_limit :
      (now : ℕ) (cs : List (Call A)) (c : Concurrency)
      → pos c.current_concurrency ≤ℤ c.max_concurrency
      → (d : Concurrency) × ((run now cs (concurrency c)).0 ≡ concurrency d)
        × (d.max_concurrency ≡ c.max_concurrency)
        × (pos d.current_concurrency ≤ℤ c.max_concurrency)
  unfolding run
  concurrency_limit now [] c h = (c, refl, refl, h)
  concurrency_limit now (acquire_call ∷ cs) c h =
      let d = (try_acquire_concurrency c).0 in
      let e = try-max c in
      let (x, r, s, t) =
        concurrency_limit now cs d
          (subst (λ m. pos d.current_concurrency ≤ℤ m) (sym e) (try-le c h)) in
      (x, r, s ∙ e, subst (λ m. pos x.current_concurrency ≤ℤ m) e t)
  concurrency_limit now (release_call o ∷ cs) c h =
      concurrency_limit now cs
        (record c {
          current_concurrency =
              if ltb 0 c.current_concurrency
              then c.current_concurrency - 1
              else c.current_concurrency;
        })
        (ground (arith, h))

  -- Services are given out first in, first out: those given, then those left, are those there
  -- before, then those that came back with a true name.
  pub bucket-order :
      (now : ℕ) (cs : List (Call A)) (l : List A)
      → (left : List A) × ((run now cs (token_bucket l)).0 ≡ token_bucket left)
        × (given (run now cs (token_bucket l)).1 ++ left ≡ l ++ returned cs)
  unfolding run
  bucket-order now [] l = (l, refl, sym (append-nil l))
  bucket-order now (acquire_call ∷ cs) [] = bucket-order now cs []
  bucket-order now (acquire_call ∷ cs) (s ∷ l) =
      let (left, e, o) = bucket-order now cs l in (left, e, ap (λ m. s ∷ m) o)
  bucket-order now (release_call none ∷ cs) l = bucket-order now cs l
  bucket-order now (release_call (some s) ∷ cs) l =
      let (left, e, o) = bucket-order now cs (l ++ s ∷ []) in
      let same = bucket-order now cs l in
      elim (truthy s)
        as (λ b.
          (m : List A) × ((run now cs (token_bucket (if b then l ++ s ∷ [] else l))).0
            ≡ token_bucket m)
          × (given (run now cs (token_bucket (if b then l ++ s ∷ [] else l))).1 ++ m
              ≡ l ++ (if b then s ∷ returned cs else returned cs))) [
                | true ↦ (left, e, o ∙ append_assoc l (s ∷ []) (returned cs))
                | false ↦ same
              ]
