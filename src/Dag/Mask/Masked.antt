-- ===== src/Dag/Mask/Masked.antt =====
-- The whole of `__mask_common`, and masking in a tree of contexts.
use shutilspy.Common.{
  ℕ, ◌≤◌, ◌≡◌, refl, ◌↔◌, inl, inr, Bool, true, some, List, [], ◌∷◌, arith, if◌then◌else◌, ==_iff,
  ==_refl, Bool-cases, length, has,
}
use shutilspy.Dag.Mask.{Search, offer, offers, seed, mask_common}
use shutilspy.Dag.Mask.Walk.{Once, unseen, work, work-offers, IsMasked, Inv}
use shutilspy.Dag.Mask.Yield.{drain-exact, seed-Seeded}

unseen-le-length : (all set : List ℕ) → unseen all set ≤ length all
unfolding unseen
unseen-le-length [] set = omega arith
unseen-le-length (x ∷ all) set = ground (arith, unseen-le-length all set)

module _ (next : ℕ → List ℕ) (starts : List ℕ) (mask_self : Bool) (all : List ℕ)
    (inside : (t d : ℕ) → has t all ≡ true → has d (next t) ≡ true → has d all ≡ true)
    (known : (t : ℕ) → has t starts ≡ true → has t all ≡ true) where
  work-seed :
      (ts : List ℕ) (s : Search)
      → ((t : ℕ) → has t ts ≡ true → has t all ≡ true)
      → work all (seed next mask_self ts s) ≤ work all s
  unfolding seed has offers
  work-seed [] s k = omega arith
  work-seed (t ∷ ts) s k =
      let near = offers (next t) s in
      let own : has t all ≡ true = k t (ground (arith, ==_refl t)) in
      let a = work-offers all (next t) s (λ d m. inside t d own m) in
      let b = work-offers all (t ∷ []) near (λ d m. ground (arith, ==_iff d t)) in
      let c = work-seed ts (if mask_self then offer t near else near) (λ u m. k u (ground arith)) in
      elim (Bool-cases mask_self) [ inl g ↦ ground (arith, a, b, c) | inr g ↦ ground (arith, a, c) ]

  -- On any graph, cyclic ones included, the search ends within one round for each task of the
  -- graph, and yields each task to mask once and no other.
  pub mask_common_exact :
      (fuel : ℕ)
      → length all ≤ fuel
      → (ys : List ℕ) × (mask_common next fuel starts mask_self ≡ some ys)
        × Once ys
        × ((x : ℕ) → (has x ys ≡ true) ↔ IsMasked next starts mask_self x)
  unfolding mask_common has Once
  mask_common_exact fuel enough =
      let fresh : Search = record { task_set = []; task_queue = [] } in
      let s = seed next mask_self starts fresh in
      let v =
        seed-Seeded next starts mask_self [] starts fresh (λ t. ground arith)
          (record {
            sound = λ x m. cc;
            queued = λ x. refl;
            first = λ t d m e. cc;
            self = λ t g m. cc;
            once = tt;
          }) in
      let inv : Inv next starts mask_self [] s = record {
        sound = v.sound;
        split = λ x. ground (arith, v.queued x);
        closed = λ t d m e. cc;
        apart = λ x m. cc;
        first = v.first;
        self = v.self;
        once = v.once;
      } in
      let (ys, e, (once, _, all_of)) =
        drain-exact next starts mask_self all inside known fuel s [] inv
          (omega (arith, work-seed starts fresh known, unseen-le-length all [])) in
      (ys, e, once, λ x. (λ m. (all_of x).0 (ground arith), λ w. ground (arith, (all_of x).1 w)))
