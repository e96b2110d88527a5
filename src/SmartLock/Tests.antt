-- ===== src/SmartLock/Tests.antt =====
-- Runs of the locks and of the metrics.
use shutilspy.Common.{
  ℕ, ◌*◌, ◌≤◌, ◌<◌, ◌≡◌, refl, ◌≢◌, ◌⊎◌, inl, inr, true, false, some, [], ◌∷◌, arith, ◌==◌, has,
  update,
}
use shutilspy.SmartLock
use shutilspy.SmartLock.{Config, Metrics, LockStrategy, MetricType, percentile, init}
use shutilspy.SmartLock.Window.{last, sampled, sample_all, sample_all_window}
use shutilspy.SmartLock.Percentile.{count_le, count_lt, percentile_exact}
use shutilspy.SmartLock.Loop
use shutilspy.SmartLock.Loop.{blocked_for_ever}
use shutilspy.SmartLock.ReadWrite
use shutilspy.SmartLock.ReadWrite.{
  Phase, Lock, Move, Reach, try_acquire_write, try_acquire_read, blocking_acquire_read,
  blocking_acquire_write, release_write, write_turn,
}
use shutilspy.SmartLock.ReadWrite.Turns.{writer_excludes, waits_for_other, writers_first}
use shutilspy.SmartLock.ReadWrite.Abandoned.{stay, abandoned_writer_locks_out}

abbrev config : Config
config = record {
  window_size = 2;
  metric_type = MetricType.p90;
  threshold_direct = 1;
  threshold_executor = 10;
  enable_sampling = true;
  sampling_interval = 2;
  calc_interval = 5;
  warmup_count = 1;
  default_strategy = LockStrategy.auto;
}

run_window :
    sample_all config (7 ∷ 8 ∷ 9 ∷ 1 ∷ 2 ∷ []) init
    ≡ some (record {
      history = 9 ∷ 2 ∷ [];
      counter = 5;
      cached = record { num = 0; den = 1 };
      last_calc = 0;
      dirty = true;
    })
unfolding sample_all init SmartLock.sample
run_window = refl

run_percentile : percentile 90 (3 ∷ 1 ∷ 2 ∷ []) ≡ 3
unfolding percentile
run_percentile = refl

sample_all_window_example :
    (m : Metrics) × (sample_all config (7 ∷ 8 ∷ 9 ∷ 1 ∷ 2 ∷ []) init ≡ some m)
    × (m.history ≡ last 2 (sampled config 0 (7 ∷ 8 ∷ 9 ∷ 1 ∷ 2 ∷ [])))
sample_all_window_example = sample_all_window config (7 ∷ 8 ∷ 9 ∷ 1 ∷ 2 ∷ []) refl

percentile_exact_example :
    (has (percentile 90 (3 ∷ 1 ∷ 2 ∷ [])) (3 ∷ 1 ∷ 2 ∷ []) ≡ true)
    × (3 * 90 < 100 * count_le (percentile 90 (3 ∷ 1 ∷ 2 ∷ [])) (3 ∷ 1 ∷ 2 ∷ []))
    × (100 * count_lt (percentile 90 (3 ∷ 1 ∷ 2 ∷ [])) (3 ∷ 1 ∷ 2 ∷ []) ≤ 3 * 90)
percentile_exact_example = percentile_exact 90 (3 ∷ 1 ∷ 2 ∷ []) (omega arith) (omega arith)

-- Coroutine 1 runs into the mutex that coroutine 0 holds.
abbrev standing : Loop.Loop
standing = record {
  holder = some 0;
  blocked = some 1;
  stage = update (λ _. Loop.Stage.ready) 0 Loop.Stage.inside;
}

standing-reached : Loop.Reach standing
unfolding update
standing-reached =
    Loop.step 1 (Loop.step 0 Loop.start (Loop.acquire refl refl refl)) (Loop.block 0 refl refl refl)

blocked_for_ever_example : ¬ Loop.Move standing 0 standing
blocked_for_ever_example = blocked_for_ever standing-reached 1 refl 0

code : Unit {0}
unfolding try_acquire_read try_acquire_write blocking_acquire_write blocking_acquire_read
    release_write write_turn update
code = tt

abbrev written : Lock
unfolding code
written = (try_acquire_write 0 ReadWrite.init).0

abbrev contended : Lock
unfolding code
contended = blocking_acquire_write 1 written

written-reached : Reach 3 written
unfolding code
written-reached = Reach.step 0 (omega arith) Reach.start (Move.try_write refl)

contended-reached : Reach 3 contended
unfolding code
contended-reached = Reach.step 1 (omega arith) written-reached (Move.write refl)

writer_excludes_example :
    ((j : ℕ) → written.phase j ≢ Phase.reading)
    × ((j : ℕ) → written.phase j ≡ Phase.writing → j ≡ 0)
    × (written.writer_active ≡ true)
unfolding code
writer_excludes_example = writer_excludes written-reached 0 refl

waits_for_other_example :
    (j : ℕ) × (j < 3)
    × ((contended.phase j ≡ Phase.reading)
        ⊎ (contended.phase j ≡ Phase.writing)
        ⊎ (contended.phase j ≡ Phase.write_woken))
unfolding code
waits_for_other_example = waits_for_other contended-reached 1 (inr refl)

-- User 0 reads, user 1 waits to write, and user 2 asks to read.
abbrev shared : Lock
unfolding code
shared = (try_acquire_read 0 ReadWrite.init).0

abbrev pending : Lock
unfolding code
pending = blocking_acquire_write 1 shared

abbrev crowded : Lock
unfolding code
crowded = blocking_acquire_read 2 pending

pending-reached : Reach 3 pending
unfolding code
pending-reached =
    Reach.step 1 (omega arith) (Reach.step 0 (omega arith) Reach.start (Move.try_read refl))
      (Move.write refl)

not_let_in : crowded.phase 2 ≡ Phase.read_waiting
unfolding code
not_let_in = refl

writers_first_example : pending.phase 0 ≡ Phase.reading
unfolding code
writers_first_example =
    writers_first {l' = crowded} pending-reached 1 2 0 (inl refl) (Move.read refl) refl

abbrev cancelled : Lock
unfolding code
cancelled = record contended { abandoned = update contended.abandoned 1 true }

abbrev freed : Lock
unfolding code
freed = release_write 0 cancelled

abbrev lost : Lock
unfolding code
lost = write_turn 1 freed

lost-reached : Reach 3 lost
unfolding code
lost-reached =
    Reach.step 1 (omega arith)
      (Reach.step 0 (omega arith)
        (Reach.step 1 (omega arith) contended-reached (Move.cancel (inr (inr (inl refl)))))
        (Move.end_write refl refl))
      (Move.write_again refl)

abandoned_writer_locks_out_example :
    (lost.phase 2 ≢ Phase.reading) × ((2 == 1) ≡ false → lost.phase 2 ≢ Phase.writing)
unfolding code
abandoned_writer_locks_out_example = abandoned_writer_locks_out lost-reached 1 refl refl stay 2
