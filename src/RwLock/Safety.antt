-- ===== src/RwLock/Safety.antt =====
-- Readers and writers exclude one another, and no wake-up is lost.
use shutilspy.Common.{
  ℕ, zero, suc, ◌+◌, ◌-◌, ◌≤◌, ◌<◌, ◌≡◌, refl, ap, ◌∙◌, ◌≢◌, ◌⊎◌, inl, inr, Bool, true, false,
  Option, none, some, arith, ltb, ◌==◌, Bool-cases, update, update_lem,
}
use shutilspy.RwLock.{Lock, Pc, Kind, Move, Reach, wake, leave_read}
use shutilspy.RwLock.Readers.{count, weight, count-update, count-wake, count_pos, reader_counts}

abbrev holds : Pc → Bool
holds Pc.checking = true
holds Pc.writing = true
holds Pc.idle = false
holds Pc.reading = false
holds Pc.waiting = false
holds Pc.woken = false
holds Pc.aborting = false

pub record Inv (n : ℕ) (l : Lock) : Type 0 where
  pub counted : l.readers ≡ count n l.pc + l.lost
  pub owner : (i : ℕ) → holds (l.pc i) ≡ true → l.holder ≡ some i
  pub alone : (i : ℕ) → l.pc i ≡ Pc.writing → l.readers ≡ 0
  pub expects : (i : ℕ) → l.pc i ≡ Pc.waiting → 0 < l.readers
  pub outside : (i : ℕ) → n ≤ i → l.pc i ≡ Pc.idle

-- Thread `i` goes to `p`, with a new holder and number of readers.
module _ {n i : ℕ} {l : Lock} (lt : i < n) (v : Inv n l) where
  update-Inv :
      (p : Pc) (h : Option ℕ) (r o : ℕ)
      → r + weight (l.pc i) + l.lost ≡ l.readers + weight p + o
      → ((holds p ≡ true) → h ≡ some i)
      → ((j : ℕ) → holds (l.pc j) ≡ true → (j == i) ≡ false → h ≡ some j)
      → ((j : ℕ) → update l.pc i p j ≡ Pc.writing → r ≡ 0)
      → ((j : ℕ) → update l.pc i p j ≡ Pc.waiting → 0 < r)
      → Inv n (record { holder = h; readers = r; pc = update l.pc i p; lost = o })
  update-Inv p h r o counts mine others alone expects = record {
    counted = omega (arith, v.counted, count-update n i l.pc p lt);
    owner = λ j held. ground (arith, mine, others j, update_lem l.pc i p j);
    alone = alone;
    expects = expects;
    outside = λ j above. ground (arith, v.outside j, update_lem l.pc i p j);
  }

holds-wake : (p : Pc) → holds (wake p) ≡ holds p
holds-wake Pc.idle = refl
holds-wake p = refl

wake-ne-waiting : (p : Pc) → wake p ≡ Pc.waiting → ⊥
wake-ne-waiting Pc.idle e = cc
wake-ne-waiting p e = cc

count_init : (n : ℕ) → 0 ≡ count n (λ _. Pc.idle) + 0
unfolding count
count_init zero = refl
count_init (suc n) = omega (arith, count_init n)

leave-Inv :
    {n i : ℕ} {l : Lock}
    → i < n
    → Inv n l
    → l.holder ≡ none
    → l.pc i ≡ Pc.reading
    → Inv n (leave_read l i)
unfolding leave_read
leave-Inv {n} {i} {l} lt v free e = elim (Bool-cases (l.readers - 1 == 0)) [
  | inl last ↦
      rw (last, leave_read)
        (record {
          counted = omega (
            arith,
            v.counted,
            count-update n i l.pc Pc.idle lt,
            ap weight e,
            count-wake n (update l.pc i Pc.idle),
          );
          owner = λ j h.
              ground (
                arith,
                v.owner j,
                holds-wake (update l.pc i Pc.idle j),
                update_lem l.pc i Pc.idle j,
              );
          alone = λ j h.
              ground (
                arith,
                v.owner j,
                holds-wake (update l.pc i Pc.idle j),
                update_lem l.pc i Pc.idle j,
              );
          expects = λ j h. absurd (wake-ne-waiting (update l.pc i Pc.idle j) h);
          outside = λ j h. ground (arith, v.outside j, update_lem l.pc i Pc.idle j);
        })
  | inr others ↦
      rw (others, leave_read)
        (update-Inv lt v Pc.idle l.holder (l.readers - 1) l.lost
          (ground (arith, v.counted, reader_counts n i l.pc lt e)) (λ h. cc) (λ j h d. v.owner j h)
          (λ j h. ground (arith, v.owner j, update_lem l.pc i Pc.idle j)) (λ j h. ground arith))
]

Move-Inv : {k : Kind} {n i : ℕ} {l l' : Lock} → i < n → Move k l i l' → Inv n l → Inv n l'
Move-Inv {n} {i} {l} lt (Move.acquire_read free e) v =
    update-Inv lt v Pc.reading l.holder (l.readers + 1) l.lost (ground arith) (λ h. cc)
      (λ j h d. v.owner j h) (λ j h. ground (arith, v.owner j, update_lem l.pc i Pc.reading j))
      (λ j h. omega arith)
Move-Inv {n} {i} {l} lt (Move.release_read free e) v = leave-Inv lt v free e
Move-Inv {n} {i} {l} lt (Move.cancel_release kind e) v =
    update-Inv lt v Pc.idle l.holder l.readers (l.lost + 1) (ground arith) (λ h. cc)
      (λ j h d. v.owner j h) (λ j h. ground (arith, v.alone j, update_lem l.pc i Pc.idle j))
      (λ j h. ground (arith, v.expects j, update_lem l.pc i Pc.idle j))
Move-Inv {n} {i} {l} lt (Move.lock free e) v =
    update-Inv lt v Pc.checking (some i) l.readers l.lost (ground arith)
      (λ h. ground (arith, v.owner i)) (λ j h d. ground (arith, v.owner i, v.owner j))
      (λ j h. ground (arith, v.owner i, v.owner j, v.alone j, update_lem l.pc i Pc.checking j))
      (λ j h. ground (arith, v.expects j, update_lem l.pc i Pc.checking j))
Move-Inv {n} {i} {l} lt (Move.wait e some_read) v =
    update-Inv lt v Pc.waiting none l.readers l.lost (ground arith) (λ h. ground (arith, v.owner i))
      (λ j h d. ground (arith, v.owner i, v.owner j))
      (λ j h. ground (arith, v.owner i, v.owner j, v.alone j, update_lem l.pc i Pc.waiting j))
      (λ j h. ground (arith, v.expects j, update_lem l.pc i Pc.waiting j))
Move-Inv {n} {i} {l} lt (Move.relock free e) v =
    update-Inv lt v Pc.checking (some i) l.readers l.lost (ground arith)
      (λ h. ground (arith, v.owner i)) (λ j h d. ground (arith, v.owner i, v.owner j))
      (λ j h. ground (arith, v.owner i, v.owner j, v.alone j, update_lem l.pc i Pc.checking j))
      (λ j h. ground (arith, v.expects j, update_lem l.pc i Pc.checking j))
Move-Inv {n} {i} {l} lt (Move.enter e none_read) v =
    update-Inv lt v Pc.writing l.holder l.readers l.lost (ground arith)
      (λ h. ground (arith, v.owner i)) (λ j h d. ground (arith, v.owner i, v.owner j))
      (λ j h. ground (arith, v.owner i, v.owner j, v.alone j, update_lem l.pc i Pc.writing j))
      (λ j h. ground (arith, v.expects j, update_lem l.pc i Pc.writing j))
Move-Inv {n} {i} {l} lt (Move.release_write e) v =
    update-Inv lt v Pc.idle none l.readers l.lost (ground arith) (λ h. ground (arith, v.owner i))
      (λ j h d. ground (arith, v.owner i, v.owner j))
      (λ j h. ground (arith, v.owner i, v.owner j, v.alone j, update_lem l.pc i Pc.idle j))
      (λ j h. ground (arith, v.expects j, update_lem l.pc i Pc.idle j))
Move-Inv {n} {i} {l} lt (Move.cancel kind e) v =
    update-Inv lt v Pc.aborting l.holder l.readers l.lost (ground arith)
      (λ h. ground (arith, v.owner i)) (λ j h d. ground (arith, v.owner i, v.owner j))
      (λ j h. ground (arith, v.owner i, v.owner j, v.alone j, update_lem l.pc i Pc.aborting j))
      (λ j h. ground (arith, v.expects j, update_lem l.pc i Pc.aborting j))
Move-Inv {n} {i} {l} lt (Move.abort free e) v =
    update-Inv lt v Pc.idle l.holder l.readers l.lost (ground arith)
      (λ h. ground (arith, v.owner i)) (λ j h d. ground (arith, v.owner i, v.owner j))
      (λ j h. ground (arith, v.owner i, v.owner j, v.alone j, update_lem l.pc i Pc.idle j))
      (λ j h. ground (arith, v.expects j, update_lem l.pc i Pc.idle j))

pub Reach-Inv : {k : Kind} {n : ℕ} {l : Lock} → Reach k n l → Inv n l
Reach-Inv {n} Reach.start = record {
  counted = count_init n;
  owner = λ j h. absurd (cc h);
  alone = λ j h. absurd (cc h);
  expects = λ j h. absurd (cc h);
  outside = λ j h. refl;
}
Reach-Inv (Reach.step i lt r m) = Move-Inv lt m (Reach-Inv r)

-- Whatever the interleaving: while a thread writes no thread reads, no other thread writes, and it
-- holds the mutex.
pub writer_alone :
    {k : Kind} {n : ℕ} {l : Lock}
    → Reach k n l
    → (i : ℕ) → l.pc i ≡ Pc.writing
    → ((j : ℕ) → l.pc j ≢ Pc.reading)
      × ((j : ℕ) → l.pc j ≡ Pc.writing → j ≡ i)
      × (l.holder ≡ some i)
writer_alone {n} {l} r i e =
    let v = Reach-Inv r in
    (
      λ j reads. ground (arith, v.alone i, v.counted, v.outside j, reader_counts n j l.pc),
      λ j writes. ground (arith, v.owner i, v.owner j),
      v.owner i (ground arith),
    )

leave-lost : (l : Lock) (i : ℕ) → (leave_read l i).lost ≡ l.lost
unfolding leave_read
leave-lost l i = elim (Bool-cases (l.readers - 1 == 0)) [
  | inl e ↦ rw (e, leave_read) refl
  | inr e ↦ rw (e, leave_read) refl
]

Move-lost : {k : Kind} {i : ℕ} {l l' : Lock} → Move k l i l' → (l'.lost ≡ l.lost) ⊎ (k ≡ Kind.async)
Move-lost {i} {l} (Move.release_read free e) = inl (leave-lost l i)
Move-lost (Move.cancel_release kind e) = inr kind
Move-lost (Move.acquire_read free e) = inl refl
Move-lost (Move.lock free e) = inl refl
Move-lost (Move.wait e h) = inl refl
Move-lost (Move.relock free e) = inl refl
Move-lost (Move.enter e h) = inl refl
Move-lost (Move.release_write e) = inl refl
Move-lost (Move.cancel kind e) = inl refl
Move-lost (Move.abort free e) = inl refl

Reach-lost : {k : Kind} {n : ℕ} {l : Lock} → Reach k n l → (l.lost ≡ 0) ⊎ (k ≡ Kind.async)
Reach-lost Reach.start = inl refl
Reach-lost (Reach.step i lt r m) = elim (Reach-lost r) [
  | inr a ↦ inr a
  | inl z ↦ elim (Move-lost m) [ inl s ↦ inl (s ∙ z) | inr a ↦ inr a ]
]

-- While a thread waits unnotified, some thread reads, and has yet to count itself out; or the lock
-- is async, and a reader was cancelled in `_release_read` before it was counted out.
pub waits_for_reader :
    {k : Kind} {n : ℕ} {l : Lock}
    → Reach k n l
    → (i : ℕ) → l.pc i ≡ Pc.waiting
    → ((j : ℕ) × (j < n) × (l.pc j ≡ Pc.reading)) ⊎ ((k ≡ Kind.async) × (0 < l.lost))
waits_for_reader {n} {l} r i e =
    let v = Reach-Inv r in
    elim (Bool-cases (ltb 0 (count n l.pc))) [
      | inl h ↦ inl (count_pos n l.pc (ground arith))
      | inr h ↦
          let gone : 0 < l.lost = ground (arith, v.counted, v.expects i e) in
          elim (Reach-lost r) [ inl z ↦ absurd (omega arith) | inr a ↦ inr (a, gone) ]
    ]
