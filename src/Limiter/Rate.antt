-- ===== src/Limiter/Rate.antt =====
-- `QPS`: how many tokens are given out over time, and how long a wait is enough.
use shutilspy.Common.{
  ℕ, suc, ◌+◌, ◌-◌, ◌*◌, ◌≤◌, ◌<◌, ◌≡◌, refl, sym, subst, inl, inr, Bool, true, false, some, List,
  [], ◌∷◌, arith, leb, if◌then◌else◌, Bool-cases,
}
use shutilspy.Limiter.{Qps, capacity, try_acquire_qps, calc_qps_wait_time, acquire_qps}

-- Tries at the given times; the number that succeed.
unfoldable pub tries : List ℕ → Qps → Qps × ℕ
unfolding try_acquire_qps
tries [] q = (q, 0)
tries (t ∷ ts) q =
    let r = try_acquire_qps t q in
    let rest = tries ts r.0 in (rest.0, if r.1 then suc rest.1 else rest.1)

-- No time is before the one before it, or after the last.
abbrev pub Monotone : ℕ → List ℕ → ℕ → Type 0
Monotone from [] to = from ≤ to
Monotone from (t ∷ ts) to = (from ≤ t) × Monotone t ts to

try-parts :
    (now : ℕ) (q : Qps)
    → q.last_update ≤ now
    → q.tokens ≤ capacity q
    → let r = try_acquire_qps now q in
      ((if r.1 then q.period else 0) + r.0.tokens ≤ q.tokens + (now - q.last_update) * q.limit)
      × (r.0.tokens ≤ capacity r.0)
      × (r.0.last_update ≡ now)
      × (r.0.period ≡ q.period)
      × (r.0.limit ≡ q.limit)
unfolding try_acquire_qps
try-parts now q h k = (ground arith, ground arith, ground arith, ground arith, ground arith)

Monotone-le : (from : ℕ) (ts : List ℕ) (to : ℕ) → Monotone from ts to → from ≤ to
Monotone-le from [] to h = h
Monotone-le from (t ∷ ts) to (h, m) = omega (arith, h, Monotone-le t ts to m)

span : (a b c l : ℕ) → a ≤ b → b ≤ c → (b - a) * l + (c - b) * l ≡ (c - a) * l
span a b c l h k = let e : c - a ≡ (b - a) + (c - b) = omega arith in rw e (omega arith)

combine :
    (n p left have later : ℕ) (b : Bool)
    → n * p ≤ left + later
    → (if b then p else 0) + left ≤ have
    → (if b then suc n else n) * p ≤ have + later
combine n p left have later true h k = omega (arith, h, k)
combine n p left have later false h k = omega (arith, h, k)

times_le : (a b c : ℕ) → a ≤ b → a * c ≤ b * c
times_le a b c h = grind arith

-- However the tries fall, the tokens given out are at most those there at the start and those that
-- the time brings, so at most `limit` and `limit` more for each period; the clock does not go back.
pub tries-bound :
    (ts : List ℕ) (to : ℕ) (q : Qps)
    → q.tokens ≤ capacity q
    → Monotone q.last_update ts to
    → (tries ts q).1 * q.period ≤ q.tokens + (to - q.last_update) * q.limit
unfolding tries
tries-bound [] to q k h = omega arith
tries-bound (t ∷ ts) to q k (h, m) =
    let (spent, fits, e, ep, el) = try-parts t q h k in
    let r = (try_acquire_qps t q).0 in
    let ih = tries-bound ts to r fits (subst (λ n. Monotone n ts to) (sym e) m) in
    let ih' : (tries ts r).1 * q.period ≤ r.tokens + (to - t) * q.limit =
      subst (λ n. (tries ts r).1 * n ≤ r.tokens + (to - t) * q.limit) ep
        (subst (λ n. (tries ts r).1 * r.period ≤ r.tokens + (to - t) * n) el
          (subst (λ n. (tries ts r).1 * r.period ≤ r.tokens + (to - n) * r.limit) e ih)) in
    let all =
      combine (tries ts r).1 q.period r.tokens (q.tokens + (t - q.last_update) * q.limit)
        ((to - t) * q.limit) (try_acquire_qps t q).1 ih' spent in
    omega (arith, all, span q.last_update t to q.limit h (Monotone-le t ts to m))

-- A try that comes at least as late as the wait says succeeds.
wait-enough :
    (now wait : ℕ) (q : Qps) (lack rate : ℕ)
    → 0 < q.limit
    → 0 < q.period
    → calc_qps_wait_time q ≡ inr (lack, rate)
    → q.last_update + wait ≤ now
    → lack ≤ wait * rate
    → (try_acquire_qps now q).1 ≡ true
unfolding try_acquire_qps calc_qps_wait_time
wait-enough now wait q lack rate l p e h w = elim (Bool-cases (leb q.period q.tokens)) [
  | inl b ↦ ground (arith, b, times_le 1 q.limit q.period l)
  | inr b ↦
      let pair : (q.period - q.tokens ≡ lack) × (q.limit ≡ rate) =
        (ground (arith, e, b), ground (arith, e, b)) in
      let enough : q.period - q.tokens ≤ (now - q.last_update) * q.limit =
        ground (arith, pair, w, times_le wait (now - q.last_update) q.limit (omega (arith, h))) in
      ground (arith, enough, times_le 1 q.limit q.period l)
]

wait_known : (q : Qps) → 0 < q.limit → (w : ℕ × ℕ) × (calc_qps_wait_time q ≡ inr w)
unfolding calc_qps_wait_time
wait_known q l = elim (Bool-cases (leb q.period q.tokens)) [
  | inl b ↦ ((0, 1), ground (arith, b))
  | inr b ↦ ((q.period - q.tokens, q.limit), ground (arith, b))
]

try-kept :
    (now : ℕ) (q : Qps)
    → let r = (try_acquire_qps now q).0 in
      (r.last_update ≡ now) × (r.period ≡ q.period) × (r.limit ≡ q.limit)
unfolding try_acquire_qps
try-kept now q = (ground arith, ground arith, ground arith)

-- A blocking `acquire` without a timeout gets a token after at most one sleep, if that lasts at
-- least as long as asked, and no one else uses the limiter; the limit and the period are positive.
pub acquire_once :
    (fuel now : ℕ) (sleep : ℕ → ℕ) (q : Qps)
    → 0 < q.limit
    → 0 < q.period
    → ((w : ℕ × ℕ) → calc_qps_wait_time (try_acquire_qps now q).0 ≡ inr w → w.0 ≤ sleep 0 * w.1)
    → (r : Qps) × (n : ℕ) × (acquire_qps (suc (suc fuel)) sleep now 0 q ≡ some (inr (r, n)))
      × (n ≤ 1)
unfolding acquire_qps
acquire_once fuel now sleep q l p slept =
    let r = (try_acquire_qps now q).0 in
    let later = now + sleep 0 in
    elim (Bool-cases (try_acquire_qps now q).1) [
      | inl e ↦ (r, 0, rw (e, acquire_qps) refl, omega arith)
      | inr e ↦
          let (ku, kp, kl) = try-kept now q in
          let (w, known) = wait_known r (omega (arith, l, kl)) in
          let success =
            wait-enough later (sleep 0) r w.0 w.1 (omega (arith, l, kl)) (omega (arith, p, kp))
              known (omega (arith, ku)) (slept w known) in
          ((try_acquire_qps later r).0, 1, rw (e, known, success, acquire_qps) refl, omega arith)
    ]
