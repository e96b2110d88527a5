-- ===== src/SmartLock/ReadWrite/Counts.antt =====
-- Counting users by their phase.
use shutilspy.Common.{
  ℕ, zero, suc, ◌+◌, ◌≤◌, ◌<◌, ◌≡◌, refl, ap, ◌⊎◌, inl, inr, false, arith, ltb, ◌==◌, ==_iff,
  Bool-cases, update, update_lem,
}
use shutilspy.SmartLock.ReadWrite.{Phase, wake}

abbrev pub reads : Phase → ℕ
reads Phase.reading = 1
reads Phase.idle = 0
reads Phase.writing = 0
reads Phase.read_waiting = 0
reads Phase.read_woken = 0
reads Phase.write_waiting = 0
reads Phase.write_woken = 0

abbrev pub awaits_write : Phase → ℕ
awaits_write Phase.write_waiting = 1
awaits_write Phase.write_woken = 1
awaits_write Phase.idle = 0
awaits_write Phase.reading = 0
awaits_write Phase.writing = 0
awaits_write Phase.read_waiting = 0
awaits_write Phase.read_woken = 0

abbrev pub writes : Phase → ℕ
writes Phase.writing = 1
writes Phase.idle = 0
writes Phase.reading = 0
writes Phase.read_waiting = 0
writes Phase.read_woken = 0
writes Phase.write_waiting = 0
writes Phase.write_woken = 0

module _ (weight : Phase → ℕ) where
  unfoldable pub count : ℕ → (ℕ → Phase) → ℕ
  count zero f = 0
  count (suc n) f = weight (f n) + count n f

  count-update_above :
      (n i : ℕ) (f : ℕ → Phase) (p : Phase) → n ≤ i → count n (update f i p) ≡ count n f
  unfolding count
  count-update_above zero i f p h = refl
  count-update_above (suc n) i f p h =
      ground (arith, count-update_above n i f p, update_lem f i p n, ap weight (update_lem f i p n))

  pub count-update :
      (n i : ℕ) (f : ℕ → Phase) (p : Phase)
      → i < n
      → count n (update f i p) + weight (f i) ≡ count n f + weight p
  unfolding count
  count-update zero i f p h = elim h [ ]
  count-update (suc n) i f p h = elim (Bool-cases (n == i)) [
    | inl e ↦
        let same : n ≡ i = (==_iff n i).0 e in
        ground (
          arith,
          count-update_above n i f p,
          update_lem f i p n,
          ap weight (update_lem f i p n),
          ap weight (ap f same),
        )
    | inr e ↦ ground (arith, count-update n i f p, ap weight (update_lem f i p n))
  ]

  pub count-wake :
      ((p : Phase) → weight (wake p) ≡ weight p)
      → (n : ℕ) (f : ℕ → Phase) → count n (λ i. wake (f i)) ≡ count n f
  unfolding count
  count-wake same zero f = refl
  count-wake same (suc n) f = ground (arith, same (f n), count-wake same n f)

  pub count_init : weight Phase.idle ≡ 0 → (n : ℕ) → count n (λ _. Phase.idle) ≡ 0
  unfolding count
  count_init z zero = refl
  count_init z (suc n) = ground (arith, count_init z n)

  -- A positive count has a user that counts, and one that counts makes it positive.
  pub count_pos : (n : ℕ) (f : ℕ → Phase) → 0 < count n f → (i : ℕ) × (i < n) × (0 < weight (f i))
  unfolding count
  count_pos zero f h = elim h [ ]
  count_pos (suc n) f h = elim (Bool-cases (ltb 0 (weight (f n)))) [
    | inl e ↦ (n, omega arith, ground arith)
    | inr e ↦ let (i, lt, r) = count_pos n f (ground arith) in (i, omega arith, r)
  ]

  pub counts : (n i : ℕ) (f : ℕ → Phase) → i < n → 0 < weight (f i) → 0 < count n f
  unfolding count
  counts zero i f h e = elim h [ ]
  counts (suc n) i f h e = elim (Bool-cases (n == i)) [
    | inl same ↦ let z : n ≡ i = (==_iff n i).0 same in ground (arith, ap weight (ap f z))
    | inr other ↦ ground (arith, counts n i f)
  ]

  -- Two users that count make the count more than one.
  pub counts_two :
      (n i j : ℕ) (f : ℕ → Phase)
      → i < n
      → j < n
      → (i == j) ≡ false
      → 0 < weight (f i)
      → 0 < weight (f j)
      → 1 < count n f
  unfolding count
  counts_two zero i j f h k d a b = elim h [ ]
  counts_two (suc n) i j f h k d a b = elim (Bool-cases (n == i)) [
    | inl same ↦
        let z : n ≡ i = (==_iff n i).0 same in ground (arith, ap weight (ap f z), counts n j f)
    | inr other ↦ elim (Bool-cases (n == j)) [
      | inl same ↦
          let z : n ≡ j = (==_iff n j).0 same in ground (arith, ap weight (ap f z), counts n i f)
      | inr third ↦ ground (arith, counts_two n i j f)
    ]
  ]

pub writes_one : (p : Phase) → 0 < writes p → p ≡ Phase.writing
writes_one Phase.writing h = refl
writes_one Phase.idle h = absurd (omega arith)
writes_one p h = absurd (omega arith)

pub writes-wake : (p : Phase) → writes (wake p) ≡ writes p
writes-wake Phase.idle = refl
writes-wake p = refl

pub reads_one : (p : Phase) → 0 < reads p → p ≡ Phase.reading
reads_one Phase.reading h = refl
reads_one Phase.idle h = absurd (omega arith)
reads_one p h = absurd (omega arith)

pub awaits_one :
    (p : Phase) → 0 < awaits_write p → (p ≡ Phase.write_waiting) ⊎ (p ≡ Phase.write_woken)
awaits_one Phase.write_waiting h = inl refl
awaits_one Phase.write_woken h = inr refl
awaits_one Phase.idle h = absurd (omega arith)
awaits_one p h = absurd (omega arith)

pub reads-wake : (p : Phase) → reads (wake p) ≡ reads p
reads-wake Phase.idle = refl
reads-wake p = refl

pub awaits_write-wake : (p : Phase) → awaits_write (wake p) ≡ awaits_write p
awaits_write-wake Phase.idle = refl
awaits_write-wake p = refl
