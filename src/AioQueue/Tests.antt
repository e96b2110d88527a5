-- ===== src/AioQueue/Tests.antt =====
-- Runs of a queue of numbers, and the theorems at concrete inputs.
use shutilspy.Common.{ℕ, ◌<◌, ◌≡◌, refl, true, false, List, [], ◌∷◌, ◌++◌, arith, length, has}
use shutilspy.AioQueue.{Queue, set_result}
use shutilspy.AioQueue
use shutilspy.AioQueue.Stores.{Storage, fifo}
use shutilspy.AioQueue.Bounds.{Call}
use shutilspy.AioQueue.Fifo.{run, run-order}
use shutilspy.AioQueue.Wakeup.{cancelled_wakeup_lost}

abbrev numbers : Storage ℕ
numbers = fifo

code : Unit {0}
unfolding AioQueue.init AioQueue.accept AioQueue.put_nowait AioQueue.get_nowait AioQueue.async_put
    AioQueue.async_get AioQueue.task_done AioQueue.cancel_get AioQueue.resume run has
code = tt

abbrev two : Queue numbers
two = AioQueue.init numbers 2

abbrev calls : List (Call ℕ)
calls =
    Call.async_get
    ∷ Call.put_nowait 5
    ∷ Call.resume 0
    ∷ Call.async_get
    ∷ Call.put_nowait 6
    ∷ Call.async_put 7
    ∷ Call.put_nowait 8
    ∷ Call.async_put 9
    ∷ Call.get_nowait
    ∷ []

-- The first getter waits; the third put finds the queue full, and so does the coroutine.
calls_run :
    ((run numbers calls two).given ≡ 5 ∷ 6 ∷ [])
    × ((run numbers calls two).taken ≡ 5 ∷ 6 ∷ 7 ∷ [])
    × ((run numbers calls two).queue.store ≡ 7 ∷ [])
unfolding code
calls_run = (refl, refl, refl)

run-order_example : 5 ∷ 6 ∷ 7 ∷ [] ≡ two.store ++ 5 ∷ 6 ∷ 7 ∷ []
unfolding code
run-order_example = run-order calls two

abbrev two_wait : Queue numbers
two_wait = record two { getters = 0 ∷ 1 ∷ []; futures = 2 }

cancelled_wakeup_lost_example :
    let q' =
      AioQueue.resume numbers 0
        (AioQueue.cancel_get numbers 0 (AioQueue.accept numbers 4 two_wait)) in
    (0 < length q'.store)
    × (has 1 q'.getters ≡ true)
    × (q'.signals ≡ set_result 0 ∷ [])
    × (q'.is_done 1 ≡ false)
unfolding code
cancelled_wakeup_lost_example =
    cancelled_wakeup_lost numbers two_wait 4 0 1 [] refl refl (omega arith)

abbrev busy : Queue numbers
busy = record two { unfinished = 2; joiners = 0 ∷ 1 ∷ []; futures = 2 }
