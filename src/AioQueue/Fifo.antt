-- ===== src/AioQueue/Fifo.antt =====
-- Runs of calls: no item is lost or made up, and `Queue` gives the items out in order.
use mathlib.Core.List.{Perm, perm_append_comm, append_assoc, append-nil}
use mathlib.Core.List.Perm
use shutilspy.Common.{◌≡◌, sym, ap, ◌∙◌, some, List, [], ◌∷◌, ◌++◌, arith}
use shutilspy.AioQueue.{Queue}
use shutilspy.AioQueue.Stores.{Storage, fifo, pop_left}
use shutilspy.AioQueue.Bounds.{Call, Effect, step, Moves, step-Moves, Fits, step-Fits}

perm_swap_append {ℓ} : {A : Type ℓ} (us vs ws : List A) → Perm (us ++ (vs ++ ws)) (vs ++ (us ++ ws))
perm_swap_append us vs ws =
    rw (← append_assoc us vs ws, ← append_assoc vs us ws)
      (Perm.append (perm_append_comm us vs) (Perm.refl ws))

module _ {A : Type 0} (S : Storage A) where
  -- The calls in order, with all that was taken in and given out, oldest first.
  unfoldable pub run : List (Call A) → Queue S → Effect S
  unfolding step
  run [] q = record { queue = q; taken = []; given = [] }
  run (c ∷ cs) q =
      let e = step S c q in
      let rest = run cs e.queue in
      record { queue = rest.queue; taken = e.taken ++ rest.taken; given = e.given ++ rest.given }

  -- No calls take a queue with a limit over it.
  pub run-Fits : (cs : List (Call A)) (q : Queue S) → Fits S q → Fits S (run cs q).queue
  unfolding run
  run-Fits [] q fits = fits
  run-Fits (c ∷ cs) q fits = run-Fits cs (step S c q).queue (step-Fits S c q fits)

  step-perm :
      (c : Call A) (q : Queue S)
      → Perm
          ((step S c q).given ++ S.items (step S c q).queue.store)
          ((step S c q).taken ++ S.items q.store)
  step-perm c q = go (step-Moves S c q).0
    where
      go :
          Moves S q (step S c q).queue (step S c q).taken (step S c q).given
          → Perm
              ((step S c q).given ++ S.items (step S c q).queue.store)
              ((step S c q).taken ++ S.items q.store)
      go (Moves.same e t g) = rw (e, t, g) (Perm.refl (S.items q.store))
      go (Moves.into a room e t g) = rw (e, t, g) (S.put-perm a q.store)
      go (Moves.out a e t g) =
          rw (t, g) (Perm.symm (S.get-perm a q.store (step S c q).queue.store e))

  -- After any run, what was given out and what is still queued are a rearrangement of what was
  -- taken in and what was queued before.
  pub run-perm :
      (cs : List (Call A)) (q : Queue S)
      → Perm
          ((run cs q).given ++ S.items (run cs q).queue.store)
          ((run cs q).taken ++ S.items q.store)
  unfolding run
  run-perm [] q = Perm.refl (S.items q.store)
  run-perm (c ∷ cs) q =
      let e = step S c q in
      let r = run cs e.queue in
      rw (append_assoc e.given r.given (S.items r.queue.store)) (
        Perm.trans (Perm.append (Perm.refl e.given) (run-perm cs e.queue)) (
          Perm.trans (perm_swap_append e.given r.taken (S.items e.queue.store)) (
            Perm.trans (Perm.append (Perm.refl r.taken) (step-perm c q)) (
              Perm.trans (perm_swap_append r.taken e.taken (S.items q.store)) (
                rw (append_assoc e.taken r.taken (S.items q.store))
                  (Perm.refl (e.taken ++ (r.taken ++ S.items q.store))))))))

module _ {A : Type 0} where
  pop_left-cons : (a : A) (s t : List A) → pop_left s ≡ some (a, t) → s ≡ a ∷ t
  pop_left-cons a [] t e = absurd (cc e)
  pop_left-cons a (x ∷ s) t e = ground arith

  step-order :
      (c : Call A) (q : Queue (fifo {A = A}))
      → (step fifo c q).given ++ (step fifo c q).queue.store ≡ q.store ++ (step fifo c q).taken
  step-order c q = go (step-Moves fifo c q).0
    where
      go :
          Moves fifo q (step fifo c q).queue (step fifo c q).taken (step fifo c q).given
          → (step fifo c q).given ++ (step fifo c q).queue.store ≡ q.store ++ (step fifo c q).taken
      go (Moves.same e t g) = rw (e, t, g) (sym (append-nil q.store))
      go (Moves.into a room e t g) = rw (e, t, g)
      go (Moves.out a e t g) =
          rw (t, g)
            (sym (pop_left-cons a q.store (step fifo c q).queue.store e) ∙ sym (append-nil q.store))

  -- `Queue` is first in, first out: what was given out, then what is queued, is what was queued
  -- before, then what was taken in.
  pub run-order :
      (cs : List (Call A)) (q : Queue (fifo {A = A}))
      → (run fifo cs q).given ++ (run fifo cs q).queue.store ≡ q.store ++ (run fifo cs q).taken
  unfolding run
  run-order [] q = sym (append-nil q.store)
  run-order (c ∷ cs) q =
      let e = step fifo c q in
      let r = run fifo cs e.queue in
      append_assoc e.given r.given r.queue.store
      ∙ ap (◌++◌ e.given) (run-order cs e.queue)
      ∙ sym (append_assoc e.given e.queue.store r.taken)
      ∙ ap (λ l. l ++ r.taken) (step-order c q)
      ∙ append_assoc q.store e.taken r.taken
