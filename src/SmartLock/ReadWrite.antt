-- ===== src/SmartLock/ReadWrite.antt =====
-- shutils/dag/lib/smart_lock.py: `SmartRWLock`, as the steps that its users take. A user is a thread
-- or a coroutine; each primitive runs under the mutex as one step, up to a `wait` of the condition,
-- which gives the mutex up and returns after `notify_all`, as `threading.Condition` documents.
pub mod Counts
pub mod Safety
pub mod Turns
pub mod Abandoned
use shutilspy.Common.{
  ℕ, ◌+◌, ◌-◌, ◌<◌, ◌≡◌, ◌⊎◌, Bool, true, false, not, ◌&&◌, ◌||◌, ltb, ◌==◌, if◌then◌else◌, update,
}

-- Where a user stands.
pub data Phase : Type 0 where
  idle : Phase
  reading : Phase
  writing : Phase
  read_waiting : Phase  -- in `wait` of `_blocking_acquire_read`, not yet notified
  read_woken : Phase  -- notified, before the test of the `while` is made again
  write_waiting : Phase
  write_woken : Phase

pub record Lock : Type 0 where
  pub readers : ℕ
  pub writers_waiting : ℕ
  pub writer_active : Bool
  pub phase : ℕ → Phase
  -- A coroutine that was cancelled while a thread of the pool acquires for it.
  pub abandoned : ℕ → Bool

abbrev pub init : Lock
init = record {
  readers = 0;
  writers_waiting = 0;
  writer_active = false;
  phase = λ _. idle;
  abandoned = λ _. false;
}

abbrev pub goes : Lock → ℕ → Phase → Lock
goes l i p = record l { phase = update l.phase i p }

abbrev pub wake : Phase → Phase
wake idle = idle
wake reading = reading
wake writing = writing
wake read_waiting = read_woken
wake read_woken = read_woken
wake write_waiting = write_woken
wake write_woken = write_woken

abbrev pub notify_all : Lock → Lock
notify_all l = record l { phase = λ j. wake (l.phase j) }

-- `_try_acquire_read`: the lock and the answer.
unfoldable pub try_acquire_read : ℕ → Lock → Lock × Bool
try_acquire_read i l =
    if not l.writer_active && l.writers_waiting == 0
    then (record (goes l i reading) { readers = l.readers + 1 }, true)
    else (l, false)

-- `_blocking_acquire_read`, from its start or from a return of `wait` on.
unfoldable pub blocking_acquire_read : ℕ → Lock → Lock
blocking_acquire_read i l =
    if l.writer_active || ltb 0 l.writers_waiting
    then goes l i read_waiting
    else record (goes l i reading) { readers = l.readers + 1 }

unfoldable pub release_read : ℕ → Lock → Lock
release_read i l =
    let left = record (goes l i idle) { readers = l.readers - 1 } in
    if left.readers == 0 then notify_all left else left

unfoldable pub try_acquire_write : ℕ → Lock → Lock × Bool
try_acquire_write i l =
    if not l.writer_active && l.readers == 0
    then (record (goes l i writing) { writer_active = true }, true)
    else (l, false)

-- The `while` loop of `_blocking_acquire_write` and its `finally`.
unfoldable pub write_turn : ℕ → Lock → Lock
write_turn i l =
    if l.writer_active || ltb 0 l.readers
    then goes l i write_waiting
    else record (goes l i writing) { writer_active = true; writers_waiting = l.writers_waiting - 1 }

-- `_blocking_acquire_write` from its start.
unfoldable pub blocking_acquire_write : ℕ → Lock → Lock
unfolding write_turn
blocking_acquire_write i l = write_turn i (record l { writers_waiting = l.writers_waiting + 1 })

unfoldable pub release_write : ℕ → Lock → Lock
release_write i l = notify_all (record (goes l i idle) { writer_active = false })

-- A blocking acquire is a step of its own, whether a thread makes it or a coroutine has it made in
-- a pool after a `try` that failed. Only such a coroutine is cancelled: the thread goes on.
pub data Move (l : Lock) (i : ℕ) : Lock → Type 0 where
  try_read : l.phase i ≡ idle → Move l i (try_acquire_read i l).0
  read : l.phase i ≡ idle → Move l i (blocking_acquire_read i l)
  read_again : l.phase i ≡ read_woken → Move l i (blocking_acquire_read i l)
  end_read : l.phase i ≡ reading → l.abandoned i ≡ false → Move l i (release_read i l)
  try_write : l.phase i ≡ idle → Move l i (try_acquire_write i l).0
  write : l.phase i ≡ idle → Move l i (blocking_acquire_write i l)
  write_again : l.phase i ≡ write_woken → Move l i (write_turn i l)
  end_write : l.phase i ≡ writing → l.abandoned i ≡ false → Move l i (release_write i l)
  cancel :
      (l.phase i ≡ read_waiting)
        ⊎ (l.phase i ≡ read_woken)
        ⊎ (l.phase i ≡ write_waiting)
        ⊎ (l.phase i ≡ write_woken)
      → Move l i (record l { abandoned = update l.abandoned i true })

-- `n` users, in any order.
pub data Reach (n : ℕ) : Lock → Type 0 where
  start : Reach n init
  step : {l l' : Lock} (i : ℕ) → i < n → Reach n l → Move l i l' → Reach n l'
