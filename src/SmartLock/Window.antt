-- ===== src/SmartLock/Window.antt =====
-- The window of durations, the cache of the metric, and the strategy that they suggest.
use shutilspy.Common.{
  ℕ, zero, suc, ◌+◌, ◌-◌, ◌%◌, ◌≤◌, ◌≡◌, refl, sym, ap, ◌∙◌, inl, inr, Bool, true, false, not, ◌||◌,
  Option, none, some, List, [], ◌∷◌, ◌++◌, arith, ltb, ◌==◌, if◌then◌else◌, Bool-cases, length,
  drop, length-append, length-drop,
}
use shutilspy.SmartLock.{Config, Metrics, init, append, sample}

-- The last `n` of a list.
unfoldable pub last : ℕ → List ℕ → List ℕ
last n xs = drop (length xs - n) xs

-- The durations that are recorded from the call number `c` on.
unfoldable pub sampled : Config → ℕ → List ℕ → List ℕ
sampled cfg c [] = []
sampled cfg c (d ∷ ds) =
    let rest = sampled cfg (c + 1) ds in
    if not cfg.enable_sampling || c % cfg.sampling_interval == 0 then d ∷ rest else rest

-- A series of calls of `record`.
unfoldable pub sample_all : Config → List ℕ → Metrics → Option Metrics
sample_all cfg [] m = some m
sample_all cfg (d ∷ ds) m = elim (sample cfg d m) [ none ↦ none | some m' ↦ sample_all cfg ds m' ]

drop-append : (k : ℕ) (xs ys : List ℕ) → k ≤ length xs → drop k (xs ++ ys) ≡ drop k xs ++ ys
drop-append zero xs ys h = refl
drop-append (suc k) [] ys h = absurd (omega arith)
drop-append (suc k) (x ∷ xs) ys h = drop-append k xs ys (omega arith)

drop_nil : (a : ℕ) → drop {A = ℕ} a [] ≡ []
drop_nil zero = refl
drop_nil (suc a) = refl

drop-drop : (a b : ℕ) (xs : List ℕ) → drop a (drop b xs) ≡ drop (b + a) xs
drop-drop a zero xs = let e : a ≡ 0 + a = omega arith in ap (λ (k : ℕ). drop k xs) e
drop-drop a (suc b) [] = drop_nil a ∙ sym (drop_nil (suc b + a))
drop-drop a (suc b) (x ∷ xs) =
    let e : suc (b + a) ≡ suc b + a = omega arith in
    drop-drop a b xs ∙ ap (λ (k : ℕ). drop k (x ∷ xs)) e

-- One more duration, in a window that is the last part of all durations.
append-last : (n d : ℕ) (xs : List ℕ) → append n d (last n xs) ≡ last n (xs ++ d ∷ [])
unfolding append last
append-last n d xs =
    let k = length xs - n in
    let a = length (drop k xs) + 1 - n in
    let total : k + a ≡ length (xs ++ d ∷ []) - n =
      omega (arith, length-drop k xs, length-append xs (d ∷ [])) in
    ap (drop a) (sym (drop-append k xs (d ∷ []) (omega arith)))
    ∙ drop-drop a k (xs ++ d ∷ [])
    ∙ ap (λ (j : ℕ). drop j (xs ++ d ∷ [])) total

append_one : (xs ys : List ℕ) (d : ℕ) → (xs ++ d ∷ []) ++ ys ≡ xs ++ (d ∷ ys)
append_one [] ys d = refl
append_one (x ∷ xs) ys d = ap (λ (l : List ℕ). x ∷ l) (append_one xs ys d)

append-nil : (xs : List ℕ) → xs ++ [] ≡ xs
append-nil [] = refl
append-nil (x ∷ xs) = ap (λ (l : List ℕ). x ∷ l) (append-nil xs)

-- The window after `recorded`, and the count of the calls.
record At (cfg : Config) (recorded : List ℕ) (c : ℕ) (m : Metrics) : Type 0 where
  window : m.history ≡ last cfg.window_size recorded
  calls : cfg.enable_sampling ≡ true → m.counter ≡ c

abbrev picks : Config → ℕ → Bool
picks cfg c = not cfg.enable_sampling || c % cfg.sampling_interval == 0

-- No interval of 0.
abbrev pub IsDivided : Config → Type 0
IsDivided cfg = (not cfg.enable_sampling || ltb 0 cfg.sampling_interval) ≡ true

sample-At :
    (cfg : Config) (d c : ℕ) (recorded : List ℕ) (m : Metrics)
    → IsDivided cfg
    → At cfg recorded c m
    → (m' : Metrics) × (sample cfg d m ≡ some m')
      × At cfg (if picks cfg c then recorded ++ d ∷ [] else recorded) (c + 1) m'
unfolding sample
sample-At cfg d c recorded m ok at = elim (Bool-cases cfg.enable_sampling) [
  | inr off ↦ (
    record m { history = append cfg.window_size d m.history; dirty = true },
    ground (arith, off),
    record {
      window =
          let e : picks cfg c ≡ true = ground arith in
          ap (append cfg.window_size d) at.window
          ∙ append-last cfg.window_size d recorded
          ∙ ap (λ (b : Bool). last cfg.window_size (if b then recorded ++ d ∷ [] else recorded))
              (sym e);
      calls = λ e. cc;
    },
  )
  | inl on ↦ elim (Bool-cases (m.counter % cfg.sampling_interval == 0)) [
    | inl hit ↦ (
      record m {
        history = append cfg.window_size d m.history;
        counter = m.counter + 1;
        dirty = true;
      },
      ground (arith, on, hit),
      record {
        window =
            let same = at.calls on in
            let e : picks cfg c ≡ true = ground (arith, rw same at hit) in
            ap (append cfg.window_size d) at.window
            ∙ append-last cfg.window_size d recorded
            ∙ ap (λ (b : Bool). last cfg.window_size (if b then recorded ++ d ∷ [] else recorded))
                (sym e);
        calls = λ e. ground (arith, at.calls on);
      },
    )
    | inr miss ↦ (
      record m { counter = m.counter + 1 },
      ground (arith, on, miss),
      record {
        window =
            let same = at.calls on in
            let e : picks cfg c ≡ false = ground (arith, rw same at miss) in
            at.window
            ∙ ap (λ (b : Bool). last cfg.window_size (if b then recorded ++ d ∷ [] else recorded))
                (sym e);
        calls = λ e. ground (arith, at.calls on);
      },
    )
  ]
]

sample_all-At :
    (cfg : Config) (ds recorded : List ℕ) (c : ℕ) (m : Metrics)
    → IsDivided cfg
    → At cfg recorded c m
    → (m' : Metrics) × (sample_all cfg ds m ≡ some m')
      × (m'.history ≡ last cfg.window_size (recorded ++ sampled cfg c ds))
unfolding sample_all sampled
sample_all-At cfg [] recorded c m ok at =
    (m, refl, at.window ∙ ap (last cfg.window_size) (sym (append-nil recorded)))
sample_all-At cfg (d ∷ ds) recorded c m ok at =
    let (m1, e, at') = sample-At cfg d c recorded m ok at in
    let (m', f, whole_window) =
      sample_all-At cfg ds (if picks cfg c then recorded ++ d ∷ [] else recorded) (c + 1) m1 ok
        at' in
    (
      m',
      rw (e, sample_all) f,
      whole_window
          ∙ ap (last cfg.window_size) (joined (picks cfg c) recorded d (sampled cfg (c + 1) ds)),
    )
  where
    joined :
        (b : Bool) (xs : List ℕ) (d : ℕ) (ys : List ℕ)
        → (if b then xs ++ d ∷ [] else xs) ++ ys ≡ xs ++ (if b then d ∷ ys else ys)
    joined true xs d ys = append_one xs ys d
    joined false xs d ys = refl

-- However many durations are recorded, the window is the last `window_size` of those that were
-- sampled: each of them without sampling, and every `sampling_interval`-th with it. The
-- interval is positive where there is sampling.
pub sample_all_window :
    (cfg : Config) (ds : List ℕ)
    → IsDivided cfg
    → (m : Metrics) × (sample_all cfg ds init ≡ some m)
      × (m.history ≡ last cfg.window_size (sampled cfg 0 ds))
unfolding init last
sample_all_window cfg ds ok =
    sample_all-At cfg ds [] 0 init ok
      (record { window = sym (drop_nil (0 - cfg.window_size)); calls = λ e. refl })
