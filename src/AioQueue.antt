-- ===== src/AioQueue.antt =====
-- shutils/dag/lib/aio_queue.py: `_BaseQueue` with its sync and async adapters. A method runs under
-- the mutex and is one step; a coroutine's `put` or `get` is one step for each round of its loop.
-- A future is a number, and the state says which of them are done. What a step signals is kept
-- newest first.
pub mod Stores
pub mod Wakeup
pub mod Bounds
pub mod Fifo
pub mod Joins
mod Tests
use shutilspy.Common.{
  ℕ, ◌+◌, ◌-◌, Bool, true, false, ◌&&◌, Option, none, some, List, [], ◌∷◌, ◌++◌, ltb, leb, ◌==◌,
  if◌then◌else◌, is_empty, update,
}
use Stores.{Storage}

pub data Signal : Type 0 where
  not_empty not_full all_tasks_done : Signal  -- `notify` of a condition
  set_result : ℕ → Signal  -- `call_soon_threadsafe(_set_result_unless_done, waiter)`

pub data Error : Type 0 where
  queue_empty queue_full task_done_too_often : Error

pub data Result {ℓ} (A : Type ℓ) : Type ℓ where
  ok : A → Result A
  err : Error → Result A

module _ {A : Type 0} (S : Storage A) where
  open S use {Store}

  -- `maxsize` is 0 where the queue has no limit.
  pub record Queue : Type 0 where
    pub maxsize : ℕ
    pub store : Store
    pub unfinished : ℕ
    pub getters : List ℕ
    pub putters : List ℕ
    pub joiners : List ℕ
    pub is_done : ℕ → Bool
    pub futures : ℕ
    pub signals : List Signal

  -- A queue that was just made.
  unfoldable pub init : ℕ → Queue
  init maxsize = record {
    maxsize = maxsize;
    store = S.empty;
    unfinished = 0;
    getters = [];
    putters = [];
    joiners = [];
    is_done = λ _. false;
    futures = 0;
    signals = [];
  }

  -- `_wakeup_next`: the waiters that stay, and the one that is woken.
  unfoldable pub wakeup_next : (ℕ → Bool) → List ℕ → List ℕ × Option ℕ
  wakeup_next is_done [] = ([], none)
  wakeup_next is_done (w ∷ ws) =
      let rest = wakeup_next is_done ws in if is_done w then rest else (ws, some w)

  abbrev pub sends : Option ℕ → List Signal → List Signal
  sends none log = log
  sends (some w) log = set_result w ∷ log

  abbrev pub is_full : Queue → Bool
  is_full q = ltb 0 q.maxsize && leb q.maxsize (S.qsize q.store)

  -- What follows a successful put: an async getter is woken, or else the condition is notified.
  unfoldable pub notify_getter : Queue → Queue
  unfolding wakeup_next
  notify_getter q =
      if is_empty q.getters
      then record q { signals = not_empty ∷ q.signals }
      else let (ws, woken) = wakeup_next q.is_done q.getters in
        record q { getters = ws; signals = sends woken q.signals }

  unfoldable pub accept : A → Queue → Queue
  unfolding notify_getter
  accept item q =
      notify_getter (record q { store = S.put item q.store; unfinished = q.unfinished + 1 })

  -- What follows a successful get, where the queue has a limit.
  unfoldable pub notify_putter : Queue → Queue
  unfolding wakeup_next
  notify_putter q =
      if q.maxsize == 0
      then q
      else if is_empty q.putters
      then record q { signals = not_full ∷ q.signals }
      else let (ws, woken) = wakeup_next q.is_done q.putters in
        record q { putters = ws; signals = sends woken q.signals }

  -- `put` with `block=False`, of either adapter.
  unfoldable pub put_nowait : A → Queue → Result Queue
  unfolding accept
  put_nowait item q = if is_full q then err queue_full else ok (accept item q)

  -- What both adapters do with a queue that is not empty: the item and what follows.
  unfoldable pub take_item : Queue → Option (A × Queue)
  unfolding notify_putter
  take_item q = if S.qsize q.store == 0 then none else elim (S.get q.store) [
    | none ↦ none
    | some (item, s) ↦ some (item, notify_putter (record q { store = s }))
  ]

  -- `get` with `block=False`, of either adapter.
  unfoldable pub get_nowait : Queue → Result (A × Queue)
  unfolding take_item
  get_nowait q = elim (take_item q) [ none ↦ err queue_empty | some r ↦ ok r ]

  -- One round of the loop of the async `put`: `none` is the return, and else the new future on
  -- which the coroutine waits.
  unfoldable pub async_put : A → Queue → Queue × Option ℕ
  unfolding accept
  async_put item q =
      if is_full q
      then (
        record q { putters = q.putters ++ q.futures ∷ []; futures = q.futures + 1 },
        some q.futures,
      )
      else (accept item q, none)

  -- One round of the loop of the async `get`: the item, or the new future.
  unfoldable pub async_get : Queue → Queue × Option A
  unfolding take_item
  async_get q = elim (take_item q) [
    | none ↦ (record q { getters = q.getters ++ q.futures ∷ []; futures = q.futures + 1 }, none)
    | some (item, q') ↦ (q', some item)
  ]

  -- `deque.remove`.
  unfoldable pub remove : ℕ → List ℕ → List ℕ
  remove w [] = []
  remove w (x ∷ xs) = let rest = remove w xs in if w == x then xs else x ∷ rest

  abbrev finished : ℕ → Queue → ℕ → Bool
  finished w q = update q.is_done w true

  -- The handlers of a cancelled wait: the future is done, and leaves its deque if it is still there.
  unfoldable pub cancel_put : ℕ → Queue → Queue
  unfolding remove
  cancel_put w q = record q { putters = remove w q.putters; is_done = finished w q }

  unfoldable pub cancel_get : ℕ → Queue → Queue
  unfolding remove
  cancel_get w q = record q { getters = remove w q.getters; is_done = finished w q }

  unfoldable pub cancel_join : ℕ → Queue → Queue
  unfolding remove
  cancel_join w q = record q { joiners = remove w q.joiners; is_done = finished w q }

  -- `_set_result_unless_done`.
  unfoldable pub resume : ℕ → Queue → Queue
  resume w q = record q { is_done = finished w q }

  unfoldable pub wake_joiner : Queue → Queue
  unfolding wakeup_next
  wake_joiner q =
      let (ws, woken) = wakeup_next q.is_done q.joiners in
      record q { joiners = ws; signals = sends woken (all_tasks_done ∷ q.signals) }

  -- `task_done`: the last one notifies all threads in `join` and wakes an async one.
  unfoldable pub task_done : Queue → Result Queue
  unfolding wake_joiner
  task_done q =
      let left = record q { unfinished = q.unfinished - 1 } in
      if q.unfinished == 0
      then err task_done_too_often
      else if left.unfinished == 0
      then ok (wake_joiner left)
      else ok left

  -- One round of the async `join`: `none` is the return.
  unfoldable pub async_join : Queue → Queue × Option ℕ
  async_join q = if q.unfinished == 0 then (q, none) else (
    record q { joiners = q.joiners ++ q.futures ∷ []; futures = q.futures + 1 },
    some q.futures,
  )
