-- ===== src/RwLock/Readers.antt =====
-- Counting the readers among the first `n` threads.
use shutilspy.Common.{
  ℕ, zero, suc, ◌+◌, ◌≤◌, ◌<◌, ◌≡◌, refl, inl, inr, true, arith, ◌==◌, Bool-cases, update,
  update_lem,
}
use shutilspy.RwLock.{Pc, wake}

abbrev pub weight : Pc → ℕ
weight Pc.reading = 1
weight Pc.idle = 0
weight Pc.checking = 0
weight Pc.waiting = 0
weight Pc.woken = 0
weight Pc.writing = 0
weight Pc.aborting = 0

unfoldable pub count : ℕ → (ℕ → Pc) → ℕ
count zero f = 0
count (suc n) f = weight (f n) + count n f

count-update_above : (n i : ℕ) (f : ℕ → Pc) (p : Pc) → n ≤ i → count n (update f i p) ≡ count n f
unfolding count
count-update_above zero i f p h = refl
count-update_above (suc n) i f p h = ground (arith, count-update_above n i f p, update_lem f i p n)

pub count-update :
    (n i : ℕ) (f : ℕ → Pc) (p : Pc)
    → i < n
    → count n (update f i p) + weight (f i) ≡ count n f + weight p
unfolding count
count-update zero i f p h = elim h [ ]
count-update (suc n) i f p h =
    ground (arith, count-update n i f p, count-update_above n i f p, update_lem f i p n)

pub count-wake : (n : ℕ) (f : ℕ → Pc) → count n (λ i. wake (f i)) ≡ count n f
unfolding count
count-wake zero f = refl
count-wake (suc n) f = ground (arith, count-wake n f)

weight-one : (p : Pc) → (weight p == 1) ≡ true → p ≡ Pc.reading
weight-one Pc.reading e = refl
weight-one Pc.idle e = cc
weight-one p e = absurd (cc e)

weight-le : (p : Pc) → weight p ≤ 1
weight-le Pc.idle = omega arith
weight-le p = omega arith

-- A positive count has a reader.
pub count_pos : (n : ℕ) (f : ℕ → Pc) → 0 < count n f → (i : ℕ) × (i < n) × (f i ≡ Pc.reading)
unfolding count
count_pos zero f h = elim h [ ]
count_pos (suc n) f h = elim (Bool-cases (weight (f n) == 1)) [
  | inl e ↦ (n, omega arith, weight-one (f n) e)
  | inr e ↦ let (i, lt, r) = count_pos n f (ground (arith, weight-le (f n))) in (i, omega arith, r)
]

pub reader_counts : (n i : ℕ) (f : ℕ → Pc) → i < n → f i ≡ Pc.reading → 0 < count n f
unfolding count
reader_counts zero i f h e = elim h [ ]
reader_counts (suc n) i f h e = ground (arith, reader_counts n i f)
