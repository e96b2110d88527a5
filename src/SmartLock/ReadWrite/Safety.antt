-- ===== src/SmartLock/ReadWrite/Safety.antt =====
-- Readers and a writer exclude one another, and whoever waits has someone to wait for.
use shutilspy.Common.{
  ℕ, ◌+◌, ◌-◌, ◌≤◌, ◌<◌, ◌≡◌, refl, sym, ◌≢◌, ◌⊎◌, inl, inr, Bool, true, false, not, ◌&&◌, ◌||◌,
  arith, ltb, ◌==◌, Bool-cases, update, update_lem,
}
use shutilspy.SmartLock.ReadWrite.{
  Phase, Lock, wake, try_acquire_read, blocking_acquire_read, blocking_acquire_write, write_turn,
  Move, Reach, release_write, try_acquire_write, release_read,
}
use shutilspy.SmartLock.ReadWrite.Counts.{
  reads, writes, awaits_write, count, count-update, count-wake, reads-wake, writes-wake,
  awaits_write-wake, counts, count_init,
}

abbrev pub one_if : Bool → ℕ
one_if true = 1
one_if false = 0

pub record Inv (n : ℕ) (l : Lock) : Type 0 where
  pub readers : l.readers ≡ count reads n l.phase
  pub waiters : l.writers_waiting ≡ count awaits_write n l.phase
  pub writer : one_if l.writer_active ≡ count writes n l.phase
  pub exclusive : l.writer_active ≡ true → l.readers ≡ 0
  pub read_blocked :
      (j : ℕ) → l.phase j ≡ Phase.read_waiting → (l.writer_active || ltb 0 l.writers_waiting) ≡ true
  pub write_blocked :
      (j : ℕ) → l.phase j ≡ Phase.write_waiting → (l.writer_active || ltb 0 l.readers) ≡ true
  pub outside : (j : ℕ) → n ≤ j → l.phase j ≡ Phase.idle

wake-ne : (p : Phase) → (wake p ≢ Phase.read_waiting) × (wake p ≢ Phase.write_waiting)
wake-ne Phase.idle = (λ e. cc, λ e. cc)
wake-ne p = (λ e. cc, λ e. cc)

module _ {n i : ℕ} {l : Lock} (lt : i < n) (v : Inv n l) where
  -- User `i` goes to `p`, with new counts.
  goes-Inv :
      (p : Phase) (r w : ℕ) (a : Bool) (ab : ℕ → Bool)
      → r + reads (l.phase i) ≡ l.readers + reads p
      → w + awaits_write (l.phase i) ≡ l.writers_waiting + awaits_write p
      → one_if a + writes (l.phase i) ≡ one_if l.writer_active + writes p
      → (a ≡ true → r ≡ 0)
      → ((j : ℕ) → update l.phase i p j ≡ Phase.read_waiting → (a || ltb 0 w) ≡ true)
      → ((j : ℕ) → update l.phase i p j ≡ Phase.write_waiting → (a || ltb 0 r) ≡ true)
      → Inv n (record {
        readers = r;
        writers_waiting = w;
        writer_active = a;
        phase = update l.phase i p;
        abandoned = ab;
      })
  goes-Inv p r w a ab hr hw ha ex rb wb = record {
    readers = omega (arith, v.readers, count-update reads n i l.phase p lt);
    waiters = omega (arith, v.waiters, count-update awaits_write n i l.phase p lt);
    writer = omega (arith, v.writer, count-update writes n i l.phase p lt);
    exclusive = ex;
    read_blocked = rb;
    write_blocked = wb;
    outside = λ j above. ground (arith, v.outside j, update_lem l.phase i p j);
  }

  -- The same, and all that wait are notified.
  woken-Inv :
      (r w : ℕ)
      → r + reads (l.phase i) ≡ l.readers
      → w + awaits_write (l.phase i) ≡ l.writers_waiting
      → writes (l.phase i) ≡ one_if l.writer_active
      → Inv n (record {
        readers = r;
        writers_waiting = w;
        writer_active = false;
        phase = λ j. wake (update l.phase i Phase.idle j);
        abandoned = l.abandoned;
      })
  woken-Inv r w hr hw ha =
      let f = update l.phase i Phase.idle in
      record {
        readers = omega (
          arith,
          v.readers,
          count-update reads n i l.phase Phase.idle lt,
          count-wake reads reads-wake n f,
        );
        waiters = omega (
          arith,
          v.waiters,
          count-update awaits_write n i l.phase Phase.idle lt,
          count-wake awaits_write awaits_write-wake n f,
        );
        writer = omega (
          arith,
          v.writer,
          count-update writes n i l.phase Phase.idle lt,
          count-wake writes writes-wake n f,
        );
        exclusive = λ e. cc;
        read_blocked = λ j e. absurd ((wake-ne (f j)).0 e);
        write_blocked = λ j e. absurd ((wake-ne (f j)).1 e);
        outside = λ j above. ground (arith, v.outside j, update_lem l.phase i Phase.idle j);
      }

  -- A step of a user that does not wait yet: others that wait have what they wait for still.
  stays :
      (p : Phase) (j : ℕ)
      → update l.phase i p j ≡ Phase.read_waiting
      → (p ≡ Phase.read_waiting → ⊥)
      → (l.writer_active || ltb 0 l.writers_waiting) ≡ true
  stays p j e d = ground (arith, v.read_blocked j, update_lem l.phase i p j)

  stays_write :
      (p : Phase) (j : ℕ)
      → update l.phase i p j ≡ Phase.write_waiting
      → (p ≡ Phase.write_waiting → ⊥)
      → (l.writer_active || ltb 0 l.readers) ≡ true
  stays_write p j e d = ground (arith, v.write_blocked j, update_lem l.phase i p j)

  try_read-Inv : l.phase i ≡ Phase.idle → Inv n (try_acquire_read i l).0
  unfolding try_acquire_read
  try_read-Inv e = elim (Bool-cases (not l.writer_active && l.writers_waiting == 0)) [
    | inl free ↦
        rw (free, try_acquire_read)
          (goes-Inv Phase.reading (l.readers + 1) l.writers_waiting l.writer_active l.abandoned
            (ground arith) (ground arith) (ground arith) (λ a. ground arith)
            (λ j w. ground (arith, stays Phase.reading j w)) (λ j w. ground arith))
    | inr taken ↦ rw (taken, try_acquire_read) v
  ]

  read-Inv :
      (l.phase i ≡ Phase.idle) ⊎ (l.phase i ≡ Phase.read_woken) → Inv n (blocking_acquire_read i l)
  unfolding blocking_acquire_read
  read-Inv e = elim (Bool-cases (l.writer_active || ltb 0 l.writers_waiting)) [
    | inl taken ↦
        rw (taken, blocking_acquire_read)
          (goes-Inv Phase.read_waiting l.readers l.writers_waiting l.writer_active l.abandoned
            (ground arith) (ground arith) (ground arith) v.exclusive (λ j w. taken)
            (λ j w. stays_write Phase.read_waiting j w (λ d. cc)))
    | inr free ↦
        rw (free, blocking_acquire_read)
          (goes-Inv Phase.reading (l.readers + 1) l.writers_waiting l.writer_active l.abandoned
            (ground arith) (ground arith) (ground arith) (λ a. ground arith)
            (λ j w. stays Phase.reading j w (λ d. cc)) (λ j w. ground arith))
  ]

  one_reader : l.phase i ≡ Phase.reading → (0 < l.readers) × (l.writer_active ≡ false)
  one_reader e =
      let some_read = counts reads n i l.phase lt (ground arith) in
      (omega (arith, v.readers), ground (arith, v.readers, v.exclusive))

  end_read-Inv : l.phase i ≡ Phase.reading → Inv n (release_read i l)
  unfolding release_read
  end_read-Inv e = elim (Bool-cases (l.readers - 1 == 0)) [
    | inl last ↦
        rw (last, release_read)
          (rw (one_reader e).1 (
            woken-Inv (l.readers - 1) l.writers_waiting (ground (arith, one_reader e))
              (ground arith) (ground (arith, one_reader e))))
    | inr more ↦
        rw (more, release_read)
          (goes-Inv Phase.idle (l.readers - 1) l.writers_waiting l.writer_active l.abandoned
            (ground (arith, one_reader e)) (ground arith) (ground arith)
            (λ a. ground (arith, one_reader e)) (λ j w. stays Phase.idle j w (λ d. cc))
            (λ j w. ground arith))
  ]

  try_write-Inv : l.phase i ≡ Phase.idle → Inv n (try_acquire_write i l).0
  unfolding try_acquire_write
  try_write-Inv e = elim (Bool-cases (not l.writer_active && l.readers == 0)) [
    | inl free ↦
        rw (free, try_acquire_write)
          (goes-Inv Phase.writing l.readers l.writers_waiting true l.abandoned (ground arith)
            (ground arith) (ground arith) (λ a. ground arith) (λ j w. refl) (λ j w. refl))
    | inr taken ↦ rw (taken, try_acquire_write) v
  ]

  write-Inv : l.phase i ≡ Phase.idle → Inv n (blocking_acquire_write i l)
  unfolding blocking_acquire_write write_turn
  write-Inv e = elim (Bool-cases (l.writer_active || ltb 0 l.readers)) [
    | inl taken ↦
        rw (taken, blocking_acquire_write, write_turn)
          (goes-Inv Phase.write_waiting l.readers (l.writers_waiting + 1) l.writer_active
            l.abandoned (ground arith) (ground arith) (ground arith) v.exclusive
            (λ j w. ground arith) (λ j w. taken))
    | inr free ↦
        rw (free, blocking_acquire_write, write_turn)
          (goes-Inv Phase.writing l.readers (l.writers_waiting + 1 - 1) true l.abandoned
            (ground arith) (ground arith) (ground arith) (λ a. ground arith) (λ j w. refl)
            (λ j w. refl))
  ]

  write_again-Inv : l.phase i ≡ Phase.write_woken → Inv n (write_turn i l)
  unfolding write_turn
  write_again-Inv e =
      let some_wait = counts awaits_write n i l.phase lt (ground arith) in
      elim (Bool-cases (l.writer_active || ltb 0 l.readers)) [
        | inl taken ↦
            rw (taken, write_turn)
              (goes-Inv Phase.write_waiting l.readers l.writers_waiting l.writer_active l.abandoned
                (ground arith) (ground arith) (ground arith) v.exclusive
                (λ j w. stays Phase.write_waiting j w (λ d. cc)) (λ j w. taken))
        | inr free ↦
            rw (free, write_turn)
              (goes-Inv Phase.writing l.readers (l.writers_waiting - 1) true l.abandoned
                (ground arith) (ground (arith, v.waiters)) (ground arith) (λ a. ground arith)
                (λ j w. refl) (λ j w. refl))
      ]

  end_write-Inv : l.phase i ≡ Phase.writing → Inv n (release_write i l)
  unfolding release_write
  end_write-Inv e =
      let some_write = counts writes n i l.phase lt (ground arith) in
      woken-Inv l.readers l.writers_waiting (ground arith) (ground arith) (ground (arith, v.writer))

  Move-Inv : {l' : Lock} → Move l i l' → Inv n l'
  Move-Inv (Move.try_read e) = try_read-Inv e
  Move-Inv (Move.read e) = read-Inv (inl e)
  Move-Inv (Move.read_again e) = read-Inv (inr e)
  Move-Inv (Move.end_read e kept) = end_read-Inv e
  Move-Inv (Move.try_write e) = try_write-Inv e
  Move-Inv (Move.write e) = write-Inv e
  Move-Inv (Move.write_again e) = write_again-Inv e
  Move-Inv (Move.end_write e kept) = end_write-Inv e
  Move-Inv (Move.cancel e) = record {
    readers = v.readers;
    waiters = v.waiters;
    writer = v.writer;
    exclusive = v.exclusive;
    read_blocked = v.read_blocked;
    write_blocked = v.write_blocked;
    outside = v.outside;
  }

pub Reach-Inv : {n : ℕ} {l : Lock} → Reach n l → Inv n l
Reach-Inv {n} Reach.start = record {
  readers = sym (count_init reads refl n);
  waiters = sym (count_init awaits_write refl n);
  writer = sym (count_init writes refl n);
  exclusive = λ e. refl;
  read_blocked = λ j e. cc;
  write_blocked = λ j e. cc;
  outside = λ j above. refl;
}
Reach-Inv (Reach.step i lt r m) = Move-Inv lt (Reach-Inv r) m
