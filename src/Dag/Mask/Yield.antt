-- ===== src/Dag/Mask/Yield.antt =====
-- The search ends, and yields each task to mask once and no other.
use shutilspy.Common.{
  ℕ, zero, suc, ◌≤◌, ◌≡◌, refl, sym, ap, subst, ◌↔◌, ◌⊎◌, inl, inr, Bool, true, false, ◌||◌, some,
  List, [], ◌∷◌, arith, if◌then◌else◌, ==_iff, ==_refl, Bool-cases, length, has,
}
use shutilspy.Dag.Graph.Closure.{Leads, edge, via}
use shutilspy.Dag.Mask.{Search, offer, offers, seed, drain}
use shutilspy.Dag.Mask.Walk.{
  set-offers, queue-offers, Once, Once-offers, work, work-offers, queue-cases, Inv, Seeded,
  IsMasked, round-Inv,
}

module _ (next : ℕ → List ℕ) (starts : List ℕ) (mask_self : Bool) where
  -- With an empty queue all that is to be masked has been yielded.
  led :
      (yielded : List ℕ) (s : Search)
      → s.task_queue ≡ []
      → Inv next starts mask_self yielded s
      → {t x : ℕ} → has t yielded ≡ true ⊎ has t starts ≡ true
      → Leads next t x
      → has x yielded ≡ true
  unfolding has
  led yielded s e v {t} {x} m (edge f) =
      let was = ap (has x) e in
      elim m [
        | inl i ↦ ground (arith, v.closed t x i f, v.split x, was)
        | inr i ↦ ground (arith, v.first t x i f, v.split x, was)
      ]
  led yielded s e v {t} {x} m (via {d = d} f p) =
      let was = ap (has d) e in
      let at_d : has d yielded ≡ true = elim m [
        | inl i ↦ ground (arith, v.closed t d i f, v.split d, was)
        | inr i ↦ ground (arith, v.first t d i f, v.split d, was)
      ] in
      led yielded s e v (inl at_d) p

  complete :
      (yielded : List ℕ) (s : Search)
      → s.task_queue ≡ []
      → Inv next starts mask_self yielded s
      → (x : ℕ) → IsMasked next starts mask_self x
      → has x yielded ≡ true
  unfolding has
  complete yielded s e v x (inl (t, m, p)) = led yielded s e v (inr m) p
  complete yielded s e v x (inr (g, m)) = ground (arith, v.self x g m, v.split x, ap (has x) e)

  module _ (all : List ℕ)
      (inside : (t d : ℕ) → has t all ≡ true → has d (next t) ≡ true → has d all ≡ true)
      (known : (t : ℕ) → has t starts ≡ true → has t all ≡ true) where
    led_inside : {t x : ℕ} → has t all ≡ true → Leads next t x → has x all ≡ true
    led_inside {t} {x} m (edge e) = inside t x m e
    led_inside {t} {x} m (via {d = d} e p) = led_inside (inside t d m e) p

    masked_inside : (x : ℕ) → IsMasked next starts mask_self x → has x all ≡ true
    masked_inside x (inl (t, m, p)) = led_inside (known t m) p
    masked_inside x (inr (g, m)) = known x m

    -- What the loop gives, when it has yielded `done` before.
    abbrev pub IsRest : List ℕ → List ℕ → Type 0
    IsRest done ys =
        Once ys
        × ((x : ℕ) → has x ys ≡ true → has x done ≡ false)
        × ((x : ℕ) → ((has x ys || has x done) ≡ true) ↔ IsMasked next starts mask_self x)

    done-IsRest :
        (s : Search) (done : List ℕ)
        → s.task_queue ≡ []
        → Inv next starts mask_self done s
        → IsRest done []
    unfolding Once has
    done-IsRest s done e v = (
      tt,
      λ x m. cc,
      λ x. (
        λ m. v.sound x (ground (arith, v.split x)),
        λ w. ground (arith, complete done s e v x w),
      ),
    )

    closed_under :
        (s : Search) (done : List ℕ)
        → Inv next starts mask_self done s
        → (t : ℕ) (rest : List ℕ) → s.task_queue ≡ t ∷ rest
        → (x : ℕ) → has x (next t) ≡ true
        → has x all ≡ true
    unfolding has
    closed_under s done v t rest e x m =
        inside t x
          (masked_inside t (v.sound t (ground (arith, v.split t, ap (has t) e, ==_refl t)))) m

    pub drain-exact :
        (fuel : ℕ) (s : Search) (done : List ℕ)
        → Inv next starts mask_self done s
        → work all s ≤ fuel
        → (ys : List ℕ) × (drain next fuel s ≡ some ys) × IsRest done ys
    unfolding drain has Once
    drain-exact zero s done v h = elim (queue-cases s.task_queue) [
      | inl e ↦ ([], rw (e, drain) refl, done-IsRest s done e v)
      | inr (t, rest, e) ↦ absurd (omega (arith, ap length e))
    ]
    drain-exact (suc fuel) s done v h = elim (queue-cases s.task_queue) [
      | inl e ↦ ([], rw (e, drain) refl, done-IsRest s done e v)
      | inr (t, rest, e) ↦
          let s' = record s { task_queue = rest } in
          let (ys, f, (o, apart, all_of)) =
            drain-exact fuel (offers (next t) s') (t ∷ done)
              (round-Inv next starts mask_self done s t rest e v)
              (omega (
                arith,
                work-offers all (next t) s' (closed_under s done v t rest e),
                ap length e,
              )) in
          (
            t ∷ ys,
            rw (e, drain, f) refl,
            (
              (ground (arith, apart t, ==_refl t), o),
              λ x m. ground (arith, apart x, v.apart x, ap (has x) e, ==_iff x t),
              λ x. (λ m. (all_of x).0 (ground arith), λ w. ground (arith, (all_of x).1 w)),
            ),
          )
    ]

  near_sound :
      (done : List ℕ) (t : ℕ) (s : Search)
      → has t starts ≡ true
      → Seeded next starts mask_self done s
      → (x : ℕ) → has x (offers (next t) s).task_set ≡ true
      → IsMasked next starts mask_self x
  near_sound done t s given v x m = elim (Bool-cases (has x s.task_set)) [
    | inl i ↦ v.sound x i
    | inr o ↦ inl (t, given, edge (ground (arith, set-offers (next t) s x)))
  ]

  step-Seeded :
      (done : List ℕ) (t : ℕ) (s : Search)
      → has t starts ≡ true
      → Seeded next starts mask_self done s
      → Seeded next starts mask_self
          (t ∷ done)
          (if mask_self then offer t (offers (next t) s) else offers (next t) s)
  unfolding has offers
  step-Seeded done t s given v =
      let pick = λ (b : Bool). if b then offer t (offers (next t) s) else offers (next t) s in
      let near = offers (next t) s in
      let in_set = set-offers (next t) s in
      let in_queue = queue-offers (next t) s in
      let once_near = Once-offers (next t) s (λ x m. ground (arith, v.queued x)) v.once in
      let sound_near =
        λ (x : ℕ) (m : has x near.task_set ≡ true). near_sound done t s given v x m in
      elim (Bool-cases mask_self) [
        | inr g ↦
            subst (λ b. Seeded next starts mask_self (t ∷ done) (pick b)) (sym g)
              (record {
                sound = sound_near;
                queued = λ x. ground (arith, in_set x, in_queue x, v.queued x);
                first = λ u d m e. ground (arith, in_set d, v.first u d, ==_iff u t);
                self = λ u k m. cc;
                once = once_near;
              })
        | inl g ↦
            subst (λ b. Seeded next starts mask_self (t ∷ done) (pick b)) (sym g)
              (record {
                sound = λ x m. elim (Bool-cases (has x near.task_set)) [
                  | inl i ↦ sound_near x i
                  | inr o ↦ inr (g, ground (arith, set-offers (t ∷ []) near x, ==_iff x t))
                ];
                queued = λ x. ground (
                  arith,
                  in_set x,
                  in_queue x,
                  v.queued x,
                  set-offers (t ∷ []) near x,
                  queue-offers (t ∷ []) near x,
                );
                first = λ u d m e.
                    ground (arith, in_set d, v.first u d, ==_iff u t, set-offers (t ∷ []) near d);
                self = λ u k m.
                    ground (arith, in_set u, v.self u, ==_iff u t, set-offers (t ∷ []) near u);
                once =
                    Once-offers (t ∷ []) near
                      (λ x m. ground (arith, in_set x, in_queue x, v.queued x)) once_near;
              })
      ]

  -- The first loop.
  pub seed-Seeded :
      (done ts : List ℕ) (s : Search)
      → ((t : ℕ) → has t starts ≡ (has t done || has t ts))
      → Seeded next starts mask_self done s
      → Seeded next starts mask_self starts (seed next mask_self ts s)
  unfolding seed has
  seed-Seeded done [] s parts v = record {
    sound = v.sound;
    queued = v.queued;
    first = λ t d m e. v.first t d (ground (arith, parts t)) e;
    self = λ t g m. v.self t g (ground (arith, parts t));
    once = v.once;
  }
  seed-Seeded done (t ∷ ts) s parts v =
      let near = offers (next t) s in
      seed-Seeded (t ∷ done) ts (if mask_self then offer t near else near)
        (λ u. ground (arith, parts u)) (step-Seeded done t s (ground (arith, parts t, ==_refl t)) v)
