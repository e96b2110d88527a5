-- ===== src/SmartLock/Loop.antt =====
-- Coroutines of one event loop that run async functions under the mutex by `DIRECT`, the default
-- strategy: the mutex is taken by a blocking call, and held while the function is awaited.
use shutilspy.Common.{ℕ, ◌≡◌, ◌≢◌, Option, none, some, update}

pub data Stage : Type 0 where
  ready : Stage
  inside : Stage  -- awaiting the function, with the mutex
  finished : Stage

-- `blocked` is the coroutine in whose `acquire` the thread of the loop stands.
pub record Loop : Type 0 where
  pub holder : Option ℕ
  pub blocked : Option ℕ
  pub stage : ℕ → Stage

abbrev pub init : Loop
init = record { holder = none; blocked = none; stage = λ _. ready }

-- The loop runs a coroutine only while its thread does not stand in a blocking call.
pub data Move (l : Loop) (i : ℕ) : Loop → Type 0 where
  acquire :
      l.blocked ≡ none
      → l.stage i ≡ ready
      → l.holder ≡ none
      → Move l i (record l { holder = some i; stage = update l.stage i inside })
  block :
      (j : ℕ)
      → l.blocked ≡ none
      → l.stage i ≡ ready
      → l.holder ≡ some j
      → Move l i (record l { blocked = some i })
  unblock :
      l.blocked ≡ some i
      → l.holder ≡ none
      → Move l i (record { holder = some i; blocked = none; stage = update l.stage i inside })
  finish :
      l.blocked ≡ none
      → l.stage i ≡ inside
      → Move l i (record l { holder = none; stage = update l.stage i finished })

pub data Reach : Loop → Type 0 where
  start : Reach init
  step : {l l' : Loop} (i : ℕ) → Reach l → Move l i l' → Reach l'

-- While the thread of the loop blocks, a coroutine holds the mutex.
abbrev Held : Loop → Type 0
Held l = (i : ℕ) → l.blocked ≡ some i → l.holder ≢ none

Move-Held : {l : Loop} {i : ℕ} {l' : Loop} → Move l i l' → Held l → Held l'
Move-Held (acquire free a b) h k e = cc
Move-Held (block j free a b) h k e = λ z. cc
Move-Held (unblock a b) h k e = cc
Move-Held (finish free a) h k e = cc

Reach-Held : {l : Loop} → Reach l → Held l
Reach-Held start = λ i e. absurd (cc)
Reach-Held (step i r m) = Move-Held m (Reach-Held r)

-- When a second coroutine of the loop runs into the mutex that the first one holds across its
-- `await`, the thread of the loop blocks for ever: no coroutine, the holder included, takes a step.
pub blocked_for_ever :
    {l : Loop} → Reach l → (i : ℕ) → l.blocked ≡ some i → (k : ℕ) {l' : Loop} → ¬ Move l k l'
blocked_for_ever r i e k (acquire free a b) = cc
blocked_for_ever r i e k (block j free a b) = cc
blocked_for_ever r i e k (unblock a b) = absurd (Reach-Held r i e b)
blocked_for_ever r i e k (finish free a) = cc
