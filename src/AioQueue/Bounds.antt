-- ===== src/AioQueue/Bounds.antt =====
-- What every call keeps: the limit, and the account of items.
use shutilspy.Common.{
  ℕ, ◌+◌, ◌≤◌, ◌<◌, ◌≡◌, inl, inr, false, Option, none, some, List, [], ◌∷◌, arith, Bool-cases,
  Option-cases,
}
use shutilspy.AioQueue.{Queue, Result, ok, err}
use shutilspy.AioQueue
use shutilspy.AioQueue.Stores.{Storage, length-perm}

pub data Call (A : Type 0) : Type 0 where
  put_nowait : A → Call A
  get_nowait : Call A
  async_put : A → Call A
  async_get : Call A
  cancel_put cancel_get cancel_join resume : ℕ → Call A
  task_done : Call A
  async_join : Call A

-- A call's effect: the queue, the items it took in and the items it gave out.
pub record Effect {A : Type 0} (S : Storage A) : Type 0 where
  pub queue : Queue S
  pub taken : List A
  pub given : List A

module _ {A : Type 0} (S : Storage A) where
  abbrev pub quiet : Queue S → Effect S
  quiet q = record { queue = q; taken = []; given = [] }

  abbrev pub after_put : A → Queue S × Option ℕ → Effect S
  after_put a (q, none) = record { queue = q; taken = a ∷ []; given = [] }
  after_put a (q, some w) = quiet q

  abbrev pub after_get : Queue S × Option A → Effect S
  after_get (q, none) = quiet q
  after_get (q, some a) = record { queue = q; taken = []; given = a ∷ [] }

  -- An error leaves the queue as it was.
  unfoldable pub step : Call A → Queue S → Effect S
  step (Call.put_nowait a) q = elim (AioQueue.put_nowait S a q) [
    | ok q' ↦ record { queue = q'; taken = a ∷ []; given = [] }
    | err e ↦ quiet q
  ]
  step Call.get_nowait q = elim (AioQueue.get_nowait S q) [
    | ok (a, q') ↦ record { queue = q'; taken = []; given = a ∷ [] }
    | err e ↦ quiet q
  ]
  step (Call.async_put a) q = after_put a (AioQueue.async_put S a q)
  step Call.async_get q = after_get (AioQueue.async_get S q)
  step (Call.cancel_put w) q = quiet (AioQueue.cancel_put S w q)
  step (Call.cancel_get w) q = quiet (AioQueue.cancel_get S w q)
  step (Call.cancel_join w) q = quiet (AioQueue.cancel_join S w q)
  step (Call.resume w) q = quiet (AioQueue.resume S w q)
  step Call.task_done q = elim (AioQueue.task_done S q) [ ok q' ↦ quiet q' | err e ↦ quiet q ]
  step Call.async_join q = quiet (AioQueue.async_join S q).0

  -- No call takes the queue over its limit.
  abbrev pub Fits : Queue S → Type 0
  Fits q = 0 < q.maxsize → S.qsize q.store ≤ q.maxsize

  notify_getter_keeps :
      (q : Queue S)
      → ((AioQueue.notify_getter S q).store ≡ q.store)
        × ((AioQueue.notify_getter S q).maxsize ≡ q.maxsize)
  unfolding AioQueue.notify_getter
  notify_getter_keeps q = (ground arith, ground arith)

  notify_putter_keeps :
      (q : Queue S)
      → ((AioQueue.notify_putter S q).store ≡ q.store)
        × ((AioQueue.notify_putter S q).maxsize ≡ q.maxsize)
  unfolding AioQueue.notify_putter
  notify_putter_keeps q = (ground arith, ground arith)

  -- What a call may do to the store.
  pub data Moves (q q' : Queue S) (taken given : List A) : Type 0 where
    same : q'.store ≡ q.store → taken ≡ [] → given ≡ [] → Moves q q' taken given
    into :
        (a : A)
        → AioQueue.is_full S q ≡ false
        → q'.store ≡ S.put a q.store
        → taken ≡ a ∷ []
        → given ≡ []
        → Moves q q' taken given
    out :
        (a : A)
        → S.get q.store ≡ some (a, q'.store)
        → taken ≡ []
        → given ≡ a ∷ []
        → Moves q q' taken given

  take_item-out :
      (q : Queue S) {a : A} {q' : Queue S}
      → AioQueue.take_item S q ≡ some (a, q')
      → (S.get q.store ≡ some (a, q'.store)) × (q'.maxsize ≡ q.maxsize)
  unfolding AioQueue.take_item
  take_item-out q {a} {q'} e = elim (Option-cases (S.get q.store)) [
    | inl n ↦ absurd (ground arith)
    | inr (p, n) ↦
        let kept = notify_putter_keeps (record q { store = p.1 }) in
        (ground (arith, kept), ground (arith, kept))
  ]

  put-Moves :
      (a : A) (q : Queue S)
      → Moves q
          (step (Call.put_nowait a) q).queue
          (step (Call.put_nowait a) q).taken
          (step (Call.put_nowait a) q).given
        × ((step (Call.put_nowait a) q).queue.maxsize ≡ q.maxsize)
  unfolding step AioQueue.put_nowait AioQueue.accept
  put-Moves a q =
      let kept =
        notify_getter_keeps (record q { store = S.put a q.store; unfinished = q.unfinished + 1 }) in
      elim (Bool-cases (AioQueue.is_full S q)) [
        | inl e ↦ (same (ground arith) (ground arith) (ground arith), ground arith)
        | inr e ↦
            (into a e (ground (arith, kept)) (ground arith) (ground arith), ground (arith, kept))
      ]

  async_put-Moves :
      (a : A) (q : Queue S)
      → Moves q
          (step (Call.async_put a) q).queue
          (step (Call.async_put a) q).taken
          (step (Call.async_put a) q).given
        × ((step (Call.async_put a) q).queue.maxsize ≡ q.maxsize)
  unfolding step AioQueue.async_put AioQueue.accept
  async_put-Moves a q =
      let kept =
        notify_getter_keeps (record q { store = S.put a q.store; unfinished = q.unfinished + 1 }) in
      elim (Bool-cases (AioQueue.is_full S q)) [
        | inl e ↦ (same (ground arith) (ground arith) (ground arith), ground arith)
        | inr e ↦
            (into a e (ground (arith, kept)) (ground arith) (ground arith), ground (arith, kept))
      ]

  get-Moves :
      (q : Queue S)
      → Moves q
          (step Call.get_nowait q).queue
          (step Call.get_nowait q).taken
          (step Call.get_nowait q).given
        × ((step Call.get_nowait q).queue.maxsize ≡ q.maxsize)
  unfolding step AioQueue.get_nowait
  get-Moves q = elim (Option-cases (AioQueue.take_item S q)) [
    | inl n ↦ (same (ground arith) (ground arith) (ground arith), ground arith)
    | inr (r, n) ↦
        let o = take_item-out q {a = r.0} {q' = r.1} n in
        (out r.0 (ground (arith, o)) (ground arith) (ground arith), ground (arith, o))
  ]

  async_get-Moves :
      (q : Queue S)
      → Moves q
          (step Call.async_get q).queue
          (step Call.async_get q).taken
          (step Call.async_get q).given
        × ((step Call.async_get q).queue.maxsize ≡ q.maxsize)
  unfolding step AioQueue.async_get
  async_get-Moves q = elim (Option-cases (AioQueue.take_item S q)) [
    | inl n ↦ (same (ground arith) (ground arith) (ground arith), ground arith)
    | inr (r, n) ↦
        let o = take_item-out q {a = r.0} {q' = r.1} n in
        (out r.0 (ground (arith, o)) (ground arith) (ground arith), ground (arith, o))
  ]

  pub step-Moves :
      (c : Call A) (q : Queue S)
      → Moves q (step c q).queue (step c q).taken (step c q).given
        × ((step c q).queue.maxsize ≡ q.maxsize)
  unfolding step AioQueue.task_done AioQueue.async_join AioQueue.cancel_put AioQueue.cancel_get
      AioQueue.cancel_join AioQueue.resume
  step-Moves (Call.put_nowait a) q = put-Moves a q
  step-Moves Call.get_nowait q = get-Moves q
  step-Moves (Call.async_put a) q = async_put-Moves a q
  step-Moves Call.async_get q = async_get-Moves q
  step-Moves c q = (same (ground arith) (ground arith) (ground arith), ground arith)

  -- No call takes the queue over its limit.
  pub step-Fits : (c : Call A) (q : Queue S) → Fits q → Fits (step c q).queue
  step-Fits c q fits = fit (step-Moves c q)
    where
      fit :
          Moves q (step c q).queue (step c q).taken (step c q).given
            × ((step c q).queue.maxsize ≡ q.maxsize)
          → Fits (step c q).queue
      fit (same e _ _, m) = rw (e, m) fits
      fit (into a room e _ _, m) = λ limited.
          let grown = length-perm (S.put-perm a q.store) in
          ground (arith, grown, S.qsize-length (S.put a q.store), S.qsize-length q.store)
      fit (out a e _ _, m) = λ limited.
          let shrunk = length-perm (S.get-perm a q.store (step c q).queue.store e) in
          ground
            (arith, shrunk, S.qsize-length (step c q).queue.store, S.qsize-length q.store, fits)
