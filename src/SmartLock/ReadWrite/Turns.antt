-- ===== src/SmartLock/ReadWrite/Turns.antt =====
-- What the users of the lock can rely on: exclusion, priority of writers, wake-ups; and what a
-- cancelled coroutine leaves behind.
use shutilspy.Common.{
  ℕ, ◌≤◌, ◌<◌, ◌≡◌, refl, ◌≢◌, ◌⊎◌, inl, inr, Bool, true, false, ◌||◌, arith, ltb, ◌==◌, ==_iff,
  Bool-cases, update, update_lem,
}
use shutilspy.SmartLock.ReadWrite.{
  Phase, Lock, Move, Reach, wake, try_acquire_read, blocking_acquire_read, release_read,
  try_acquire_write, write_turn, blocking_acquire_write, release_write,
}
use shutilspy.SmartLock.ReadWrite.Counts.{
  reads, writes, awaits_write, count_pos, counts, counts_two, reads_one, writes_one, awaits_one,
}
use shutilspy.SmartLock.ReadWrite.Safety.{Inv, one_if, Reach-Inv}

one_if_le : (b : Bool) → one_if b ≤ 1
one_if_le true = omega arith
one_if_le false = omega arith

in_range : {n : ℕ} {l : Lock} → Inv n l → (i : ℕ) → l.phase i ≢ Phase.idle → i < n
in_range {n} {l} v i busy = elim (Bool-cases (ltb i n)) [
  | inl e ↦ ground arith
  | inr e ↦ absurd (busy (v.outside i (ground arith)))
]

-- Whatever the interleaving, while a user writes no user reads, no other writes, and the flag is
-- set.
pub writer_excludes :
    {n : ℕ} {l : Lock}
    → Reach n l
    → (i : ℕ) → l.phase i ≡ Phase.writing
    → ((j : ℕ) → l.phase j ≢ Phase.reading)
      × ((j : ℕ) → l.phase j ≡ Phase.writing → j ≡ i)
      × (l.writer_active ≡ true)
writer_excludes {n} {l} r i e =
    let v = Reach-Inv r in
    let lt = in_range v i (λ z. cc) in
    let some_write = counts writes n i l.phase lt (ground arith) in
    let active : l.writer_active ≡ true = ground (arith, v.writer) in
    (
      λ j reads_j.
          let some_read = counts reads n j l.phase (in_range v j (λ z. cc)) (ground arith) in
          omega (arith, v.readers, v.exclusive active),
      λ j writes_j. elim (Bool-cases (j == i)) [
        | inl same ↦ (==_iff j i).0 same
        | inr other ↦
            let two =
              counts_two writes n j i l.phase (in_range v j (λ z. cc)) lt other (ground arith)
                (ground arith) in
            absurd (omega (arith, v.writer, one_if_le l.writer_active))
      ],
      active,
    )

-- While a user waits unnotified, another reads, writes, or is a notified writer that has yet to take
-- its turn. Any of these may be a coroutine that was cancelled, whose lock is never given back.
pub waits_for_other :
    {n : ℕ} {l : Lock}
    → Reach n l
    → (i : ℕ) → (l.phase i ≡ Phase.read_waiting) ⊎ (l.phase i ≡ Phase.write_waiting)
    → (j : ℕ) × (j < n)
      × ((l.phase j ≡ Phase.reading)
          ⊎ (l.phase j ≡ Phase.writing)
          ⊎ (l.phase j ≡ Phase.write_woken))
waits_for_other {n} {l} r i e = busy (elim e [
  | inl w ↦ elim (Bool-cases l.writer_active) [
    | inl a ↦ inl a
    | inr a ↦ pending (awaits (ground (arith, v.read_blocked i w)))
  ]
  | inr w ↦ at_writer (v.write_blocked i w)
])
  where
    v : Inv n l
    v = Reach-Inv r

    at_writer :
        (l.writer_active || ltb 0 l.readers) ≡ true
        → (l.writer_active ≡ true)
          ⊎ (0 < l.readers)
          ⊎ ((j : ℕ) × (j < n) × (l.phase j ≡ Phase.write_woken))
    at_writer b = elim (Bool-cases l.writer_active) [
      | inl a ↦ inl a
      | inr a ↦ inr (inl (ground arith))
    ]

    awaits : 0 < l.writers_waiting → (j : ℕ) × (j < n) × (0 < awaits_write (l.phase j))
    awaits h = count_pos awaits_write n l.phase (omega (arith, v.waiters))

    pending :
        (j : ℕ) × (j < n) × (0 < awaits_write (l.phase j))
        → (l.writer_active ≡ true)
          ⊎ (0 < l.readers)
          ⊎ ((j : ℕ) × (j < n) × (l.phase j ≡ Phase.write_woken))
    pending (j, lt, h) = elim (awaits_one (l.phase j) h) [
      | inl w ↦ at_writer (v.write_blocked j w)
      | inr w ↦ inr (inr (j, lt, w))
    ]

    busy :
        (l.writer_active ≡ true)
          ⊎ (0 < l.readers)
          ⊎ ((j : ℕ) × (j < n) × (l.phase j ≡ Phase.write_woken))
        → (j : ℕ) × (j < n)
          × ((l.phase j ≡ Phase.reading)
              ⊎ (l.phase j ≡ Phase.writing)
              ⊎ (l.phase j ≡ Phase.write_woken))
    busy (inl a) =
        let (j, lt, h) = count_pos writes n l.phase (ground (arith, v.writer)) in
        (j, lt, inr (inl (writes_one (l.phase j) h)))
    busy (inr (inl h)) =
        let (j, lt, k) = count_pos reads n l.phase (omega (arith, v.readers)) in
        (j, lt, inl (reads_one (l.phase j) k))
    busy (inr (inr (j, lt, w))) = (j, lt, inr (inr w))

reading-wake : (p : Phase) → wake p ≡ Phase.reading → p ≡ Phase.reading
reading-wake Phase.reading e = refl
reading-wake Phase.idle e = cc
reading-wake p e = absurd (cc)

-- A step keeps new readers out while the count of waiting writers is positive.
Move-keeps_out :
    {l : Lock} (i k : ℕ)
    → 0 < l.writers_waiting
    → {l' : Lock} → Move l i l'
    → l'.phase k ≡ Phase.reading
    → l.phase k ≡ Phase.reading
unfolding try_acquire_read blocking_acquire_read release_read try_acquire_write write_turn
    blocking_acquire_write release_write
Move-keeps_out {l} i k h (Move.try_read e) g = ground (arith, update_lem l.phase i Phase.reading k)
Move-keeps_out {l} i k h (Move.read e) g =
    ground (arith, update_lem l.phase i Phase.reading k, update_lem l.phase i Phase.read_waiting k)
Move-keeps_out {l} i k h (Move.read_again e) g =
    ground (arith, update_lem l.phase i Phase.reading k, update_lem l.phase i Phase.read_waiting k)
Move-keeps_out {l} i k h (Move.end_read e kept) g =
    let off = update_lem l.phase i Phase.idle k in
    let woke = reading-wake (update l.phase i Phase.idle k) in ground (arith, off, woke)
Move-keeps_out {l} i k h (Move.try_write e) g = ground (arith, update_lem l.phase i Phase.writing k)
Move-keeps_out {l} i k h (Move.write e) g =
    ground (arith, update_lem l.phase i Phase.writing k, update_lem l.phase i Phase.write_waiting k)
Move-keeps_out {l} i k h (Move.write_again e) g =
    ground (arith, update_lem l.phase i Phase.writing k, update_lem l.phase i Phase.write_waiting k)
Move-keeps_out {l} i k h (Move.end_write e kept) g =
    let off = update_lem l.phase i Phase.idle k in
    let woke = reading-wake (update l.phase i Phase.idle k) in ground (arith, off, woke)
Move-keeps_out {l} i k h (Move.cancel e) g = g

-- While a writer waits, notified or not, no step lets another user in to read.
pub writers_first :
    {n : ℕ} {l l' : Lock}
    → Reach n l
    → (w i k : ℕ) → (l.phase w ≡ Phase.write_waiting) ⊎ (l.phase w ≡ Phase.write_woken)
    → Move l i l'
    → l'.phase k ≡ Phase.reading
    → l.phase k ≡ Phase.reading
writers_first {n} {l} r w i k e m =
    let v = Reach-Inv r in
    let lt : w < n = in_range v w (λ z. elim e [ inl a ↦ cc | inr a ↦ cc ]) in
    let waits : 0 < awaits_write (l.phase w) = elim e [
      | inl a ↦ ground arith
      | inr a ↦ ground arith
    ] in
    Move-keeps_out i k (omega (arith, v.waiters, counts awaits_write n w l.phase lt waits)) m
