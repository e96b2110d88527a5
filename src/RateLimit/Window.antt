-- ===== src/RateLimit/Window.antt =====
-- How many calls one window admits.
use shutilspy.Common.{
  ℕ, zero, suc, ◌+◌, ◌≤◌, ◌<◌, ◌≡◌, refl, ◌∙◌, inl, inr, Bool, false, ◌&&◌, List, [], ◌∷◌, arith,
  leb, if◌then◌else◌, Bool-cases,
}
use Prim.Native.Nat.{min}
use shutilspy.Common.Int.{pos}
use shutilspy.RateLimit.{RateLimiter, allow, init, ok, cal_refused}

-- The calls answered so far, newest first: when, and whether admitted.
abbrev pub Log : Type 0
Log = List (ℕ × Bool)

-- The admitted calls of the log from a time on.
unfoldable pub admitted : ℕ → Log → ℕ
admitted since [] = 0
admitted since ((t, yes_) ∷ log) = (if leb since t && yes_ then 1 else 0) + admitted since log

unfoldable pub serve : ℕ → RateLimiter × Log → RateLimiter × Log
unfolding allow
serve now (r, log) = let (r', b) = allow now r in (r', (now, b) ∷ log)

-- The calls at the given times, in order.
unfoldable pub serves : List ℕ → RateLimiter × Log → RateLimiter × Log
unfolding serve
serves [] s = s
serves (t ∷ ts) s = serves ts (serve t s)

-- A clock that does not go back.
abbrev pub IsMonotone : ℕ → List ℕ → Type 0
IsMonotone from [] = Unit
IsMonotone from (t ∷ ts) = (from ≤ t) × IsMonotone t ts

abbrev Before : ℕ → Log → Type 0
Before end [] = Unit
Before end (e ∷ log) = (e.0 < end) × Before end log

Before-mono : (log : Log) {m n : ℕ} → m ≤ n → Before m log → Before n log
Before-mono [] h b = tt
Before-mono (e ∷ log) h b = (omega arith, Before-mono log h b.1)

admitted-Before : (since : ℕ) (log : Log) → Before since log → admitted since log ≡ 0
unfolding admitted
admitted-Before since [] b = refl
admitted-Before since (e ∷ log) b = ground (arith, admitted-Before since log b.1)

-- The window's admitted calls are counted by the tokens, up to the limit.
pub record Counts (s : RateLimiter × Log) : Type 0 where
  pub live : 0 < s.0.period
  pub exact : admitted s.0.last_refill s.1 ≡ min s.0.tokens s.0.calls
  pub past : Before (s.0.period + s.0.last_refill) s.1
  pub positive : 0 < s.0.calls

serve-Counts :
    (now : ℕ) (r : RateLimiter) (log : Log)
    → r.last_refill ≤ now
    → Counts (r, log)
    → Counts (serve now (r, log)) × ((serve now (r, log)).0.last_refill ≤ now)
unfolding serve admitted
serve-Counts now r log le c = elim (Bool-cases (leb (r.period + r.last_refill) now)) [
  | inl e ↦
      let b : Before now log = Before-mono log (ground arith) c.past in
      (
        record {
          live = ground (arith, c.live);
          exact = ground (arith, c.live, c.positive, admitted-Before now log b);
          past =
              ground
                (arith, c.live, Before-mono log {m = now} {n = r.period + now} (omega arith) b);
          positive = ground (arith, c.positive);
        },
        ground (arith, c.live),
      )
  | inr e ↦ (
    record {
      live = ground (arith, c.live);
      exact = ground (arith, c.live, c.positive, c.exact);
      past = ground (arith, c.live, c.past);
      positive = ground (arith, c.positive);
    },
    ground (arith, c.live),
  )
]

serve_config :
    (now : ℕ) (r : RateLimiter) (log : Log)
    → ((serve now (r, log)).0.period ≡ r.period) × ((serve now (r, log)).0.calls ≡ r.calls)
unfolding serve
serve_config now r log = (ground arith, ground arith)

IsMonotone-mono : (ts : List ℕ) {m n : ℕ} → m ≤ n → IsMonotone n ts → IsMonotone m ts
IsMonotone-mono [] h mono = tt
IsMonotone-mono (t ∷ ts) h mono = (omega arith, mono.1)

-- The receiving end of a run, whose first state is a variable.
serves-Counts :
    (ts : List ℕ) (s : RateLimiter × Log)
    → IsMonotone s.0.last_refill ts
    → Counts s
    → Counts (serves ts s)
      × ((serves ts s).0.period ≡ s.0.period)
      × ((serves ts s).0.calls ≡ s.0.calls)
unfolding serves
serves-Counts [] s m c = (c, refl, refl)
serves-Counts (t ∷ ts) (r, log) (le, m) c =
    let (c', le') = serve-Counts t r log le c in
    let (d, p, q) = serves-Counts ts (serve t (r, log)) (IsMonotone-mono ts le' m) c' in
    (d, p ∙ (serve_config t r log).0, q ∙ (serve_config t r log).1)

-- In the window that is open after any run of calls, no more than `calls` were admitted, and a
-- call is refused only when exactly `calls` were.
pub window_limit :
    (calls period now : ℕ) {r : RateLimiter} (ts : List ℕ)
    → init (pos calls) (pos (suc period)) now ≡ ok r
    → IsMonotone now ts
    → let s = serves ts (r, []) in
      (admitted s.0.last_refill s.1 ≤ calls)
      × ((t : ℕ) → (allow t s.0).1 ≡ false → admitted s.0.last_refill s.1 ≡ calls)
unfolding init admitted
window_limit zero period now ts e m = absurd (cc e)
window_limit (suc calls) period now {r} ts e m =
    let fresh : Counts (r, []) = record {
      live = ground arith;
      exact = ground arith;
      past = tt;
      positive = ground arith;
    } in
    let (c, p, q) = serves-Counts ts (r, []) (ground arith) fresh in
    (
      ground (arith, c.exact, q),
      λ t h.
          let (_, _, _, full) = cal_refused t (serves ts (r, [])).0 c.positive h in
          ground (arith, c.exact, q, full),
    )
