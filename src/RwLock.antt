-- ===== src/RwLock.antt =====
-- shutils/rwlock.py: `RWLock` and `AsyncRWLock`, as the atomic steps that threads or coroutines
-- take. The mutex of the condition variable is held by at most one of them; `wait` gives it up and
-- takes it again after `notify_all`, as `threading.Condition` and `asyncio.Condition` document.
pub mod Readers
pub mod Safety
mod Tests
use shutilspy.Common.{ℕ, ◌+◌, ◌-◌, ◌<◌, ◌≡◌, ◌⊎◌, Option, none, some, ◌==◌, if◌then◌else◌, update}

-- Where a thread stands.
pub data Pc : Type 0 where
  idle : Pc
  reading : Pc  -- between `_acquire_read` and `_release_read`
  checking : Pc  -- in `_acquire_write`, with the mutex, before the test of the `while`
  waiting : Pc  -- in `wait`, not yet notified
  woken : Pc  -- notified, without the mutex
  writing : Pc  -- between `_acquire_write` and `_release_write`, with the mutex
  aborting : Pc  -- cancelled in `wait`, before the mutex is taken again

pub record Lock : Type 0 where
  pub holder : Option ℕ  -- of the mutex
  pub readers : ℕ
  pub pc : ℕ → Pc
  pub lost : ℕ  -- readers that were cancelled before they were counted out

-- Only coroutines can be cancelled.
pub data Kind : Type 0 where
  sync async : Kind

abbrev pub wake : Pc → Pc
wake idle = idle
wake reading = reading
wake checking = checking
wake waiting = woken
wake woken = woken
wake writing = writing
wake aborting = aborting

abbrev pub goes : Lock → ℕ → Pc → Lock
goes l i p = record l { pc = update l.pc i p }

-- `_release_read`, under the mutex: the last reader notifies all that wait.
unfoldable pub leave_read : Lock → ℕ → Lock
leave_read l i =
    let left = update l.pc i idle in
    if l.readers - 1 == 0
    then record l { readers = l.readers - 1; pc = λ j. wake (left j) }
    else record l { readers = l.readers - 1; pc = left }

pub data Move (k : Kind) (l : Lock) (i : ℕ) : Lock → Type 0 where
  acquire_read :
      l.holder ≡ none
      → l.pc i ≡ idle
      → Move k l i (record l { readers = l.readers + 1; pc = update l.pc i reading })
  release_read : l.holder ≡ none → l.pc i ≡ reading → Move k l i (leave_read l i)
  -- cancelled at the `await` for the mutex in `_release_read`
  cancel_release :
      k ≡ async
      → l.pc i ≡ reading
      → Move k l i (record l { lost = l.lost + 1; pc = update l.pc i idle })
  lock :
      l.holder ≡ none
      → l.pc i ≡ idle
      → Move k l i (record l { holder = some i; pc = update l.pc i checking })
  wait :
      l.pc i ≡ checking
      → 0 < l.readers
      → Move k l i (record l { holder = none; pc = update l.pc i waiting })
  relock :
      l.holder ≡ none
      → l.pc i ≡ woken
      → Move k l i (record l { holder = some i; pc = update l.pc i checking })
  enter : l.pc i ≡ checking → l.readers ≡ 0 → Move k l i (goes l i writing)
  release_write :
      l.pc i ≡ writing → Move k l i (record l { holder = none; pc = update l.pc i idle })
  cancel : k ≡ async → (l.pc i ≡ waiting) ⊎ (l.pc i ≡ woken) → Move k l i (goes l i aborting)
  abort : l.holder ≡ none → l.pc i ≡ aborting → Move k l i (goes l i idle)

abbrev pub init : Lock
init = record { holder = none; readers = 0; pc = λ _. idle; lost = 0 }

-- `n` threads, interleaved in any order.
pub data Reach (k : Kind) (n : ℕ) : Lock → Type 0 where
  start : Reach k n init
  step : {l l' : Lock} (i : ℕ) → i < n → Reach k n l → Move k l i l' → Reach k n l'
