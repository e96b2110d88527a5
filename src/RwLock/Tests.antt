-- ===== src/RwLock/Tests.antt =====
-- A reader keeps a writer waiting, and another writer enters at once; the theorems at both.
use shutilspy.Common.{ℕ, ◌<◌, ◌≡◌, refl, ◌≢◌, ◌⊎◌, none, some, arith, update}
use shutilspy.RwLock.{Lock, Pc, Kind, Move, Reach, init}
use shutilspy.RwLock.Safety.{writer_alone, waits_for_reader}

abbrev one_reads : Lock
one_reads = record { holder = none; readers = 1; pc = update init.pc 0 Pc.reading; lost = 0 }

abbrev one_checks : Lock
one_checks = record one_reads { holder = some 1; pc = update one_reads.pc 1 Pc.checking }

abbrev one_waits : Lock
one_waits = record one_checks { holder = none; pc = update one_checks.pc 1 Pc.waiting }

waiting_reach : Reach Kind.sync 2 one_waits
unfolding update
waiting_reach =
    Reach.step 1 (omega arith)
      (Reach.step 1 (omega arith)
        (Reach.step 0 (omega arith) Reach.start (Move.acquire_read refl refl))
        (Move.lock refl refl))
      (Move.wait refl (omega arith))

abbrev one_locks : Lock
one_locks = record init { holder = some 1; pc = update init.pc 1 Pc.checking }

abbrev one_writes : Lock
one_writes = record one_locks { pc = update one_locks.pc 1 Pc.writing }

writing_reach : Reach Kind.async 2 one_writes
unfolding update
writing_reach =
    Reach.step 1 (omega arith) (Reach.step 1 (omega arith) Reach.start (Move.lock refl refl))
      (Move.enter refl refl)

writer_alone_example :
    ((j : ℕ) → one_writes.pc j ≢ Pc.reading)
    × ((j : ℕ) → one_writes.pc j ≡ Pc.writing → j ≡ 1)
    × (one_writes.holder ≡ some 1)
unfolding update
writer_alone_example = writer_alone writing_reach 1 refl

waits_for_reader_example :
    ((j : ℕ) × (j < 2) × (one_waits.pc j ≡ Pc.reading)) ⊎ ((Kind.sync ≡ Kind.async) × (0 < 0))
unfolding update
waits_for_reader_example = waits_for_reader waiting_reach 1 refl

-- The reader is cancelled as it leaves: no one reads, and the writer waits.
abbrev none_reads : Lock
none_reads = record one_waits { lost = 1; pc = update one_waits.pc 0 Pc.idle }

none_reads-Reach : Reach Kind.async 2 none_reads
unfolding update
none_reads-Reach =
    Reach.step 0 (omega arith)
      (Reach.step 1 (omega arith)
        (Reach.step 1 (omega arith)
          (Reach.step 0 (omega arith) Reach.start (Move.acquire_read refl refl))
          (Move.lock refl refl))
        (Move.wait refl (omega arith)))
      (Move.cancel_release refl refl)
