-- ===== src/SmartLock/Suggest.antt =====
-- What the metric is worth when a strategy is suggested.
use shutilspy.Common.{
  ℕ, ◌-◌, ◌≤◌, ◌<◌, ◌≡◌, refl, sym, ap, ◌∙◌, ◌⊎◌, inl, inr, false, not, ◌||◌, some, List, arith,
  ltb, Bool-cases, length, is_empty,
}
use shutilspy.SmartLock.{
  Config, Metrics, whole, init, sample, metric_of, get_metric_value, p99, suggest_strategy, direct,
}

-- The states that recording durations and asking for the metric lead to.
pub data Uses (cfg : Config) : Metrics → Type 0 where
  start : Uses cfg init
  recorded : {m m' : Metrics} (d : ℕ) → Uses cfg m → sample cfg d m ≡ some m' → Uses cfg m'
  asked : {m : Metrics} (now : ℕ) → Uses cfg m → Uses cfg (get_metric_value cfg now m).0

record Inv (cfg : Config) (m : Metrics) : Type 0 where
  current :
      m.dirty ≡ false → is_empty m.history ≡ false → m.cached ≡ metric_of cfg.metric_type m.history
  p99_zero : cfg.metric_type ≡ p99 → m.cached ≡ whole 0

p99_metric : (xs : List ℕ) → metric_of p99 xs ≡ whole 0
unfolding metric_of
p99_metric xs = refl

sample-cached :
    (cfg : Config) (d : ℕ) (m m' : Metrics) → sample cfg d m ≡ some m' → m'.cached ≡ m.cached
unfolding sample
sample-cached cfg d m m' e = ground arith

sample-clean :
    (cfg : Config) (d : ℕ) (m m' : Metrics)
    → sample cfg d m ≡ some m'
    → m'.dirty ≡ false
    → (m.dirty ≡ false) × (m'.history ≡ m.history)
unfolding sample
sample-clean cfg d m m' e clean = (ground arith, ground arith)

Uses-Inv : (cfg : Config) {m : Metrics} → Uses cfg m → Inv cfg m
unfolding init get_metric_value
Uses-Inv cfg start = record { current = λ c e. cc; p99_zero = λ e. refl }
Uses-Inv cfg (recorded {m} {m'} d u e) =
    let v = Uses-Inv cfg u in
    record {
      current = λ clean some_data.
          let (was, same) = sample-clean cfg d m m' e clean in
          sample-cached cfg d m m' e
          ∙ v.current was (rw (← same) some_data)
          ∙ ap (metric_of cfg.metric_type) (sym same);
      p99_zero = λ k. sample-cached cfg d m m' e ∙ v.p99_zero k;
    }
Uses-Inv cfg (asked {m} now u) =
    let v = Uses-Inv cfg u in
    elim (Bool-cases (is_empty m.history)) [
      | inl e ↦ rw (e, get_metric_value) v
      | inr e ↦ elim (Bool-cases (not m.dirty || ltb (now - m.last_calc) cfg.calc_interval)) [
        | inl c ↦ rw (e, get_metric_value, c) v
        | inr c ↦
            rw (e, get_metric_value, c)
              (record {
                current = λ clean some_data. refl;
                p99_zero = λ k. zero_metric m.history k;
              })
      ]
    ]
  where
    zero_metric : (xs : List ℕ) → cfg.metric_type ≡ p99 → metric_of cfg.metric_type xs ≡ whole 0
    zero_metric xs k = rw k (p99_metric xs)

-- In every state that the metrics get into, the value given is that of the durations in the window,
-- unless some came since the last calculation and the time between calculations is not over.
pub get_metric_value_current :
    (cfg : Config) {m : Metrics} (now : ℕ)
    → Uses cfg m
    → is_empty m.history ≡ false
    → (m.dirty ≡ false) ⊎ (cfg.calc_interval ≤ now - m.last_calc)
    → (get_metric_value cfg now m).1 ≡ metric_of cfg.metric_type m.history
unfolding get_metric_value
get_metric_value_current cfg {m} now u some_data settled =
    let v = Uses-Inv cfg u in
    elim (Bool-cases m.dirty) [
      | inr clean ↦ rw (some_data, get_metric_value, clean) (v.current clean some_data)
      | inl dirty ↦ elim settled [
        | inl clean ↦ absurd (cc)
        | inr late ↦
            let test : (not m.dirty || ltb (now - m.last_calc) cfg.calc_interval) ≡ false =
              ground arith in
            rw (some_data, get_metric_value, test) refl
      ]
    ]

suggests :
    (cfg : Config) (now : ℕ) (m : Metrics)
    → ltb (length m.history) cfg.warmup_count ≡ false
    → (get_metric_value cfg now m).1 ≡ whole 0
    → 0 < cfg.threshold_direct
    → (suggest_strategy cfg now m).1 ≡ direct
unfolding suggest_strategy
suggests cfg now m short value h = rw (short, suggest_strategy, value) (ground arith)

-- With the metric `P99` the suggestion is `DIRECT` from the end of the warm-up on, whatever was
-- recorded, if the threshold for it is positive.
pub suggest_strategy-p99 :
    (cfg : Config) {m : Metrics} (now : ℕ)
    → Uses cfg m
    → cfg.metric_type ≡ p99
    → 0 < cfg.threshold_direct
    → cfg.warmup_count ≤ length m.history
    → (suggest_strategy cfg now m).1 ≡ direct
unfolding suggest_strategy get_metric_value
suggest_strategy-p99 cfg {m} now u k h warm =
    let zero_cached : m.cached ≡ whole 0 = (Uses-Inv cfg u).p99_zero k in
    let zero_new : metric_of cfg.metric_type m.history ≡ whole 0 = rw k (p99_metric m.history) in
    let short : ltb (length m.history) cfg.warmup_count ≡ false = ground arith in
    let value : (get_metric_value cfg now m).1 ≡ whole 0 = ground (arith, zero_cached, zero_new) in
    suggests cfg now m short value h
