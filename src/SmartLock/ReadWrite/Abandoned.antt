-- ===== src/SmartLock/ReadWrite/Abandoned.antt =====
-- A coroutine that is cancelled while a thread of a pool acquires the lock for it.
use shutilspy.Common.{ℕ, ◌<◌, ◌≡◌, ◌≢◌, true, false, arith, ◌==◌, ==_iff, update_lem}
use shutilspy.SmartLock.ReadWrite.{
  Phase, Lock, Move, Reach, try_acquire_read, blocking_acquire_read, release_read,
  try_acquire_write, write_turn, blocking_acquire_write, release_write,
}
use shutilspy.SmartLock.ReadWrite.Turns.{writer_excludes}

-- The steps of `n` users from one state to another.
pub data Steps (n : ℕ) (l : Lock) : Lock → Type 0 where
  stay : Steps n l l
  more : {l' l'' : Lock} (i : ℕ) → i < n → Steps n l l' → Move l' i l'' → Steps n l l''

Steps-Reach : {n : ℕ} {l l' : Lock} → Reach n l → Steps n l l' → Reach n l'
Steps-Reach r stay = r
Steps-Reach r (more i lt s m) = Reach.step i lt (Steps-Reach r s) m

-- A user that writes and was abandoned goes on to write, whoever takes a step.
Move-keeps_abandoned :
    {l : Lock} (w i : ℕ) {l' : Lock}
    → Move l i l'
    → l.phase w ≡ Phase.writing
    → l.abandoned w ≡ true
    → (l'.phase w ≡ Phase.writing) × (l'.abandoned w ≡ true)
unfolding try_acquire_read blocking_acquire_read release_read try_acquire_write write_turn
    blocking_acquire_write release_write
Move-keeps_abandoned {l} w i (Move.try_read e) h a =
    (ground (arith, update_lem l.phase i Phase.reading w, ==_iff w i), ground arith)
Move-keeps_abandoned {l} w i (Move.read e) h a = (
  ground (
    arith,
    update_lem l.phase i Phase.reading w,
    update_lem l.phase i Phase.read_waiting w,
    ==_iff w i,
  ),
  ground arith,
)
Move-keeps_abandoned {l} w i (Move.read_again e) h a = (
  ground (
    arith,
    update_lem l.phase i Phase.reading w,
    update_lem l.phase i Phase.read_waiting w,
    ==_iff w i,
  ),
  ground arith,
)
Move-keeps_abandoned {l} w i (Move.try_write e) h a =
    (ground (arith, update_lem l.phase i Phase.writing w, ==_iff w i), ground arith)
Move-keeps_abandoned {l} w i (Move.write e) h a = (
  ground (
    arith,
    update_lem l.phase i Phase.writing w,
    update_lem l.phase i Phase.write_waiting w,
    ==_iff w i,
  ),
  ground arith,
)
Move-keeps_abandoned {l} w i (Move.write_again e) h a = (
  ground (
    arith,
    update_lem l.phase i Phase.writing w,
    update_lem l.phase i Phase.write_waiting w,
    ==_iff w i,
  ),
  ground arith,
)
Move-keeps_abandoned {l} w i (Move.end_read e kept) h a =
    (ground (arith, update_lem l.phase i Phase.idle w, ==_iff w i), ground arith)
Move-keeps_abandoned {l} w i (Move.end_write e kept) h a =
    (ground (arith, update_lem l.phase i Phase.idle w, ==_iff w i), ground arith)
Move-keeps_abandoned {l} w i (Move.cancel e) h a =
    (h, ground (arith, update_lem l.abandoned i true w))

Steps-keeps_abandoned :
    {n : ℕ} {l l' : Lock} (w : ℕ)
    → l.phase w ≡ Phase.writing
    → l.abandoned w ≡ true
    → Steps n l l'
    → (l'.phase w ≡ Phase.writing) × (l'.abandoned w ≡ true)
Steps-keeps_abandoned w h a stay = (h, a)
Steps-keeps_abandoned w h a (more i lt s m) =
    let (h', a') = Steps-keeps_abandoned w h a s in Move-keeps_abandoned w i m h' a'

-- Once a thread has taken the write lock for a coroutine that was cancelled meanwhile, the lock is
-- lost: whatever the users do from then on, none of them ever reads or writes.
pub abandoned_writer_locks_out :
    {n : ℕ} {l l' : Lock}
    → Reach n l
    → (w : ℕ) → l.phase w ≡ Phase.writing
    → l.abandoned w ≡ true
    → Steps n l l'
    → (j : ℕ) → (l'.phase j ≢ Phase.reading) × ((j == w) ≡ false → l'.phase j ≢ Phase.writing)
abandoned_writer_locks_out r w h a s j =
    let (h', _) = Steps-keeps_abandoned w h a s in
    let (no_reader, one_writer, _) = writer_excludes (Steps-Reach r s) w h' in
    (no_reader j, λ other writes_j. let same = one_writer j writes_j in ground (arith, ==_iff j w))
