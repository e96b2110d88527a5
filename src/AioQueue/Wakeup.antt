-- ===== src/AioQueue/Wakeup.antt =====
-- Which waiter `_wakeup_next` wakes, and a wake-up that a cancellation loses.
use shutilspy.Common.{
  ℕ, ◌<◌, ◌≡◌, refl, ◌≢◌, Bool, true, false, Option, none, some, List, [], ◌∷◌, arith,
  if◌then◌else◌, ==_refl, has, update, update_lem,
}
use shutilspy.AioQueue.{Queue, set_result}
use shutilspy.AioQueue
use shutilspy.AioQueue.Stores.{Storage, length-perm}

module _ {A : Type 0} (S : Storage A) where
  -- The waiters of the deque that are not done, in order.
  unfoldable pub pending : (ℕ → Bool) → List ℕ → List ℕ
  pending is_done [] = []
  pending is_done (w ∷ ws) = let rest = pending is_done ws in if is_done w then rest else w ∷ rest

  abbrev pub front : Option ℕ → List ℕ → List ℕ
  front none ws = ws
  front (some w) ws = w ∷ ws

  -- The first waiter that is not done is woken, none is if all are, and those behind it stay.
  pub wakeup_next-pending :
      (is_done : ℕ → Bool) (ws : List ℕ)
      → let (left, woken) = AioQueue.wakeup_next S is_done ws in
        pending is_done ws ≡ front woken (pending is_done left)
  unfolding pending AioQueue.wakeup_next
  wakeup_next-pending is_done [] = refl
  wakeup_next-pending is_done (w ∷ ws) = ground (arith, wakeup_next-pending is_done ws)

  -- A put wakes one async getter; if that one is cancelled before it runs, the next getter stays
  -- asleep, with no signal on its way, though the queue holds the item.
  pub cancelled_wakeup_lost :
      (q : Queue S) (a : A) (v w : ℕ) (ws : List ℕ)
      → q.getters ≡ v ∷ w ∷ ws
      → q.is_done v ≡ false
      → v ≢ w
      → let q' = AioQueue.resume S v (AioQueue.cancel_get S v (AioQueue.accept S a q)) in
        (0 < S.qsize q'.store)
        × (has w q'.getters ≡ true)
        × (q'.signals ≡ set_result v ∷ q.signals)
        × (q'.is_done w ≡ q.is_done w)
  unfolding AioQueue.accept AioQueue.cancel_get AioQueue.resume AioQueue.wakeup_next AioQueue.remove
      has
  cancelled_wakeup_lost q a v w ws e fresh other =
      let grown = length-perm (S.put-perm a q.store) in
      (
        ground (arith, grown, S.qsize-length (S.put a q.store)),
        ground (arith, ==_refl w),
        ground arith,
        ground
            (arith, update_lem q.is_done v true w, update_lem (update q.is_done v true) v true w),
      )
