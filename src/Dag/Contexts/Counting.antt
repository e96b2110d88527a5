-- ===== src/Dag/Contexts/Counting.antt =====
-- `destory` ends, and the runtime's counter is the number of contexts that live.
use shutilspy.Common.{
  ℕ, zero, suc, ◌≤◌, ◌<◌, ◌≡◌, refl, sym, ap, ◌∙◌, inl, inr, Bool, true, false, not, ◌&&◌, Option,
  none, some, List, [], ◌∷◌, arith, leb, ◌==◌, if◌then◌else◌, ==_iff, ==_refl, Bool-cases, update,
  update_lem,
}
use shutilspy.Common.Int.{pos, pred_ℤ}
use shutilspy.Dag.Contexts.{
  Context, World, with_context, decrease, mark, leave_parent, for_all, destory, is_zero,
}

-- How many of the first `n` contexts pass a test.
abbrev pub count : (Context → Bool) → (ℕ → Context) → ℕ → ℕ
count test f zero = 0
count test f (suc n) = if test (f n) then suc (count test f n) else count test f n

abbrev pub is_alive : Context → Bool
is_alive c = not c.is_destory

abbrev pub is_counted : Context → Bool
is_counted c = c.has_runtime && not c.is_destory

abbrev pub alive : World → ℕ
alive w = count is_alive w.context w.next

-- The counter is exact, and what was not made yet is not there to be destroyed.
pub record Sound (w : World) : Type 0 where
  pub exact : w.counter ≡ pos (count is_counted w.context w.next)
  pub fresh : (i : ℕ) → w.next ≤ i → (w.context i).is_destory ≡ true

count-above :
    (test : Context → Bool) (f : ℕ → Context) (i : ℕ) (c : Context) (n : ℕ)
    → n ≤ i
    → count test (update f i c) n ≡ count test f n
count-above test f i c zero h = refl
count-above test f i c (suc n) h =
    ground (arith, count-above test f i c n (omega arith), update_lem f i c n, ==_iff n i)

count-same :
    (test : Context → Bool) (f : ℕ → Context) (i : ℕ) (c : Context) (n : ℕ)
    → test c ≡ test (f i)
    → count test (update f i c) n ≡ count test f n
count-same test f i c zero h = refl
count-same test f i c (suc n) h =
    let rest = count-same test f i c n h in
    elim (Bool-cases (n == i)) [
      | inl e ↦
          let k : f n ≡ f i = ap f ((==_iff n i).0 e) in rw (update_lem f i c n, e, rest, k, h) refl
      | inr e ↦ rw (update_lem f i c n, e, rest) refl
    ]

count-drop :
    (test : Context → Bool) (f : ℕ → Context) (i : ℕ) (c : Context) (n : ℕ)
    → i < n
    → test (f i) ≡ true
    → test c ≡ false
    → suc (count test (update f i c) n) ≡ count test f n
count-drop test f i c zero h a b = absurd (omega (arith, h))
count-drop test f i c (suc n) h a b = elim (Bool-cases (n == i)) [
  | inl e ↦
      let k : n ≡ i = (==_iff n i).0 e in
      rw (update_lem f i c n, e, b, count-above test f i c n (omega arith), ap f k, a) refl
  | inr e ↦
      let rest = count-drop test f i c n (ground (arith, h, e)) a b in
      ground (arith, update_lem f i c n, e, rest)
]

made_before : (i : ℕ) (w : World) → Sound w → (w.context i).is_destory ≡ false → i < w.next
made_before i w s e = elim (Bool-cases (leb w.next i)) [
  | inl h ↦ absurd (ground (arith, e, s.fresh i (ground (arith, h))))
  | inr h ↦ ground (arith, h)
]

update-is_destory :
    (f : ℕ → Context) (i k : ℕ) (c : Context)
    → (update f i c k).is_destory ≡ (if k == i then c.is_destory else (f k).is_destory)
update-is_destory f i k c = elim (Bool-cases (k == i)) [
  | inl e ↦ rw (update_lem f i c k, e) refl
  | inr e ↦ rw (update_lem f i c k, e) refl
]

abbrev Marked : ℕ → World → World → Type 0
Marked i w v =
    Sound v
    × (suc (alive v) ≡ alive w)
    × ((k : ℕ) → (v.context k).is_destory ≡ (if k == i then true else (w.context k).is_destory))

mark_one :
    (i : ℕ) (w : World) (has_runtime : Bool)
    → Sound w
    → (w.context i).is_destory ≡ false
    → (w.context i).has_runtime ≡ has_runtime
    → let marked = with_context i (record (w.context i) { is_destory = true }) w in
      Marked i w (if has_runtime then decrease marked else marked)
mark_one i w true s e r =
    let c : Context = record (w.context i) { is_destory = true } in
    let inside = made_before i w s e in
    let d =
      count-drop is_counted w.context i c w.next inside (ground (arith, e, r))
        (ground (arith, r)) in
    (
      record {
        exact = ap pred_ℤ (s.exact ∙ ap pos (sym d));
        fresh = λ k h. ground (arith, update-is_destory w.context i k c, s.fresh k h);
      },
      count-drop is_alive w.context i c w.next inside (ground (arith, e)) refl,
      λ k. update-is_destory w.context i k c,
    )
mark_one i w false s e r =
    let c : Context = record (w.context i) { is_destory = true } in
    let inside = made_before i w s e in
    let d = count-same is_counted w.context i c w.next (ground (arith, r)) in
    (
      record {
        exact = s.exact ∙ ap pos (sym d);
        fresh = λ k h. ground (arith, update-is_destory w.context i k c, s.fresh k h);
      },
      count-drop is_alive w.context i c w.next inside (ground (arith, e)) refl,
      λ k. update-is_destory w.context i k c,
    )

mark-Sound :
    (i : ℕ) (w : World) → Sound w → (w.context i).is_destory ≡ false → Marked i w (mark i w)
mark-Sound i w s e = mark_one i w (w.context i).has_runtime s e refl

leave-Sound :
    (p : ℕ) (w : World)
    → Sound w
    → Sound (leave_parent p w)
      × (alive (leave_parent p w) ≡ alive w)
      × ((k : ℕ) → ((leave_parent p w).context k).is_destory ≡ (w.context k).is_destory)
leave-Sound p w s =
    let c : Context = record (w.context p) { child_num = pred_ℤ (w.context p).child_num } in
    let seen : (k : ℕ) → (update w.context p c k).is_destory ≡ (w.context k).is_destory = λ k.
      elim (Bool-cases (k == p)) [
        | inl e ↦
            update-is_destory w.context p k c
            ∙ rw e (ap (λ n. (w.context n).is_destory) (sym ((==_iff k p).0 e)))
        | inr e ↦ update-is_destory w.context p k c ∙ rw e refl
      ] in
    (
      record {
        exact = s.exact ∙ ap pos (sym (count-same is_counted w.context p c w.next refl));
        fresh = λ k h. seen k ∙ s.fresh k h;
      },
      count-same is_alive w.context p c w.next refl,
      seen,
    )

-- What a call leaves: it returned, the counter is exact, nothing came back to life.
pub record Done (w : World) (r : Option World) : Type 0 where
  pub after : World
  pub returned : r ≡ some after
  pub sound : Sound after
  pub fewer : alive after ≤ alive w
  pub kept : (k : ℕ) → (w.context k).is_destory ≡ true → (after.context k).is_destory ≡ true

Done-then :
    (w : World) (r : Option World) (f : World → Option World) (d : Done w r)
    → Done d.after (f d.after)
    → Done w (elim r as (λ _. Option World) [ none ↦ none | some x ↦ f x ])
Done-then w r f d e = record {
  after = e.after;
  returned = rw d.returned e.returned;
  sound = e.sound;
  fewer = omega (arith, d.fewer, e.fewer);
  kept = λ k h. e.kept k (d.kept k h);
}

Done-for_all :
    (f : ℕ → World → Option World) (bound : ℕ)
    → ((i : ℕ) (w : World) → Sound w → alive w < bound → Done w (f i w))
    → (l : List ℕ) (w : World) → Sound w
    → alive w < bound
    → Done w (for_all f l w)
unfolding for_all
Done-for_all f bound step [] w s h = record {
  after = w;
  returned = refl;
  sound = s;
  fewer = omega arith;
  kept = λ k e. e;
}
Done-for_all f bound step (i ∷ l) w s h =
    let d = step i w s h in
    Done-then w (f i w) (for_all f l) d
      (Done-for_all f bound step l d.after d.sound (omega (arith, d.fewer, h)))

Done-here : (w : World) → Sound w → Done w (some w)
Done-here w s = record {
  after = w;
  returned = refl;
  sound = s;
  fewer = omega arith;
  kept = λ k e. e;
}

Done-from :
    (v w : World) (r : Option World)
    → alive v ≤ alive w
    → ((k : ℕ) → (w.context k).is_destory ≡ true → (v.context k).is_destory ≡ true)
    → Done v r
    → Done w r
Done-from v w r h kept d = record {
  after = d.after;
  returned = d.returned;
  sound = d.sound;
  fewer = omega (arith, d.fewer, h);
  kept = λ k e. d.kept k (kept k e);
}

-- The part of `destory` that is about the parent.
Done-parent :
    (fuel : ℕ) (dp : Bool) (o : Option ℕ) (v : World)
    → ((p : ℕ) (u : World) → Sound u → alive u < fuel → Done u (destory fuel false p u))
    → Sound v
    → alive v < fuel
    → Done v (elim o as (λ _. Option World) [
      | none ↦ some v
      | some p ↦
          elim (dp && is_zero ((leave_parent p v).context p).child_num) as (λ _. Option World) [
            | true ↦ destory fuel false p (leave_parent p v)
            | false ↦ some (leave_parent p v)
          ]
    ])
Done-parent fuel dp none v rec s h = Done-here v s
Done-parent fuel dp (some p) v rec s h =
    let (sound, same, seen) = leave-Sound p v s in
    let left = leave_parent p v in
    Done-from left v _ (omega (arith, same)) (λ k e. seen k ∙ e)
      (elim (dp && is_zero (left.context p).child_num)
        as (λ b. Done left (elim b as (λ _. Option World) [
          | true ↦ destory fuel false p left
          | false ↦ some left
        ])) [ true ↦ rec p left sound (omega (arith, same, h)) | false ↦ Done-here left sound ])

-- `destory` returns, if the fuel is more than the contexts alive; the counter stays the number of
-- contexts alive that count in it, the context is destroyed, and none comes back.
-- The counter was exact before.
pub destory-Done :
    (fuel : ℕ) (destory_parent : Bool) (i : ℕ) (w : World)
    → Sound w
    → alive w < fuel
    → (d : Done w (destory fuel destory_parent i w)) × ((d.after.context i).is_destory ≡ true)
unfolding destory Done-here Done-from Done-then
destory-Done zero dp i w s h = absurd (omega (arith, h))
destory-Done (suc fuel) dp i w s h =
    let rec : (p : ℕ) (u : World) → Sound u → alive u < fuel → Done u (destory fuel false p u) =
      λ p u t k. (destory-Done fuel false p u t k).0 in
    elim (Bool-cases (w.context i).is_destory) [
      | inl e ↦ rw (e, destory) (Done-here w s, e)
      | inr e ↦
          let (sound, less, seen) = mark-Sound i w s e in
          let v = mark i w in
          let first =
            Done-parent fuel dp (w.context i).parent v rec sound (omega (arith, less, h)) in
          let others =
            Done-for_all (λ c y. destory fuel false c y) fuel rec (w.context i).children first.after
              first.sound (omega (arith, less, h, first.fewer)) in
          let all =
            Done-then v _ (for_all (λ c y. destory fuel false c y) (w.context i).children) first
              others in
          let gone = seen i ∙ rw (==_refl i) refl in
          rw (e, destory)
            (
              Done-from v w _ (omega (arith, less)) (λ k t. seen k ∙ (ground (arith, t))) all,
              all.kept i gone,
            )
    ]
