-- ===== src/Dag/Executor/Completes.antt =====
-- A call that returns: the contexts it gives have the task completed, rate-limited ones do not, and
-- a context that the task's limit turned away counts as done.
use shutilspy.Common.{
  ℕ, zero, suc, ◌<◌, ◌≡◌, refl, sym, ◌∙◌, subst, inl, inr, Bool, true, false, Option, some, List,
  [], ◌∷◌, arith, ◌==◌, ==_iff, ==_refl, Bool-cases, Option-cases, All, has, has-add, update,
  update_lem, update_self,
}
use shutilspy.Dag.Graph.{Graph}
use shutilspy.Dag.State.{TaskState}
use shutilspy.Dag.State
use shutilspy.Dag.Mask.Complete.{Store, complete, IsOlder, Above, complete-Above}
use shutilspy.Dag.Executor.{
  Kind, plain, loop, output, Out, made, held, World, parents, complete_outs,
}

abbrev pub out_id : Out → ℕ
out_id (made i k) = i
out_id (held i k) = i

abbrev pub out_kind : Out → Kind
out_kind (made i k) = k
out_kind (held i k) = k

-- The out counts the task as done.
abbrev pub completes : Out → Bool
completes (made i plain) = true
completes (made i output) = true
completes (made i loop) = false
completes (held i k) = false

module _ (g : Graph) (task : ℕ) where
  pub record Onward (s s' : TaskState) : Type 0 where
    pub keeps : (x : ℕ) → has x s.completed ≡ true → has x s'.completed ≡ true
    pub counts : s.skip_complete ≡ false → s'.skip_complete ≡ false
    pub others : (x : ℕ) → (x == task) ≡ false → has x s'.completed ≡ has x s.completed

  same-Onward : (s : TaskState) → Onward s s
  same-Onward s = record { keeps = λ x h. h; counts = λ h. h; others = λ x h. refl }

  complete-Onward : (s : TaskState) → Onward s (State.complete g task s)
  unfolding State.complete
  complete-Onward s = record {
    keeps = λ x h. ground (arith, has-add x task s.completed);
    counts = λ h. ground arith;
    others = λ x h. ground (arith, has-add x task s.completed);
  }

  Onward-trans : {s t u : TaskState} → Onward s t → Onward t u → Onward s u
  Onward-trans a b = record {
    keeps = λ x h. b.keeps x (a.keeps x h);
    counts = λ h. b.counts (a.counts h);
    others = λ x h. b.others x h ∙ a.others x h;
  }

  update-Onward : (s : Store) (i c : ℕ) → Onward (s c) (update s i (State.complete g task (s i)) c)
  update-Onward s i c = elim (Bool-cases (c == i)) [
    | inl e ↦
        let same : i ≡ c = sym ((==_iff c i).0 e) in
        rw same (rw (update_self s c (State.complete g task (s c))) (complete-Onward (s c)))
    | inr e ↦
        subst (Onward (s c)) (sym (update_lem s i (State.complete g task (s i)) c ∙ rw e refl))
          (same-Onward (s c))
  ]

  -- Completing a task in a context only ever adds it, and returns.
  complete-Onward' :
      (parent : ℕ → Option ℕ) (fuel i : ℕ) (s s' : Store)
      → complete g parent fuel i task s ≡ some s'
      → (c : ℕ) → Onward (s c) (s' c)
  unfolding complete
  complete-Onward' parent zero i s s' e c = absurd (cc)
  complete-Onward' parent (suc fuel) i s s' e c =
      let here = update s i (State.complete g task (s i)) in
      elim (Option-cases (parent i)) [
        | inl n ↦
            let same : here ≡ s' = cc (rw (n, complete) at e) in
            subst (λ (r : Store). Onward (s c) (r c)) same (update-Onward s i c)
        | inr (p, n) ↦
            Onward-trans (update-Onward s i c)
              (complete-Onward' parent fuel p here s' (rw (n, complete) at e) c)
      ]

abbrev pub unwraps : List Out → List (ℕ × Kind)
unwraps [] = []
unwraps (o ∷ l) = (out_id o, out_kind o) ∷ unwraps l

module _ (g : Graph) (fuel task : ℕ) where
  -- The out, if it counts the task as done, has it done in its context and in all above.
  abbrev pub IsDone : World → Store → Out → Type 0
  IsDone w s o =
      completes o ≡ true
      → (a : ℕ) → Above g (parents w) (out_id o) a
      → (w.states a).skip_complete ≡ false
      → has task (s a).completed ≡ true

  completed_at :
      (s : TaskState)
      → s.skip_complete ≡ false
      → has task (State.complete g task s).completed ≡ true
  unfolding State.complete
  completed_at s h = ground (arith, has-add task task s.completed, ==_refl task)

  -- The world after the loop over the outs, and the list that it leaves.
  pub record Outs (l : List Out) (w : World) (r : Option (World × List (ℕ × Kind))) : Type 0 where
    pub after : World
    pub returned : r ≡ some (after, unwraps l)
    pub tree : after.tree ≡ w.tree
    pub puts : after.puts ≡ w.puts
    pub onward : (c : ℕ) → Onward g task (w.states c) (after.states c)
    pub done : All (IsDone w after.states) l

  All_weaken :
      (w : World) (states t : Store)
      → ((c : ℕ) → Onward g task (w.states c) (states c))
      → (l : List Out) → All (IsDone (record w { states = states }) t) l
      → All (IsDone w t) l
  All_weaken w states t on [] h = tt
  All_weaken w states t on (o ∷ l) (h, hs) =
      (λ z a above k. h z a above ((on a).counts k), All_weaken w states t on l hs)

  -- One out that is completed.
  completing :
      (i : ℕ) (w : World)
      → IsOlder g (parents w)
      → i < fuel
      → (states : Store) × (complete g (parents w) fuel i task w.states ≡ some states)
        × ((c : ℕ) → Onward g task (w.states c) (states c))
        × ((a : ℕ)
            → Above g (parents w) i a
            → (w.states a).skip_complete ≡ false
            → has task (states a).completed ≡ true)
  completing i w older lt =
      let (states, e, on, off) = complete-Above g (parents w) fuel i task w.states older lt in
      (
        states,
        e,
        complete-Onward' g task (parents w) fuel i w.states states e,
        λ a above k.
            subst (λ (s : TaskState). has task s.completed ≡ true) (sym (on a above))
              (completed_at (w.states a) k),
      )

  pub Outs-done :
      (l : List Out) (w : World)
      → IsOlder g (parents w)
      → All (λ o. out_id o < fuel) l
      → Outs l w (complete_outs g fuel task l w)
  unfolding complete_outs
  Outs-done [] w older h = record {
    after = w;
    returned = refl;
    tree = refl;
    puts = refl;
    onward = λ c. same-Onward g task (w.states c);
    done = tt;
  }
  Outs-done (held i k ∷ l) w older (h, hs) =
      let r = Outs-done l w older hs in
      record {
        after = r.after;
        returned = rw (r.returned, complete_outs) refl;
        tree = r.tree;
        puts = r.puts;
        onward = r.onward;
        done = (λ z a above k. cc, r.done);
      }
  Outs-done (made i loop ∷ l) w older (h, hs) =
      let r = Outs-done l w older hs in
      record {
        after = r.after;
        returned = rw (r.returned, complete_outs) refl;
        tree = r.tree;
        puts = r.puts;
        onward = r.onward;
        done = (λ z a above k. cc, r.done);
      }
  Outs-done (made i plain ∷ l) w older (h, hs) =
      let (states, e, on, at) = completing i w older h in
      let r = Outs-done l (record w { states = states }) older hs in
      record {
        after = r.after;
        returned = rw (e, complete_outs, r.returned) refl;
        tree = r.tree;
        puts = r.puts;
        onward = λ c. Onward-trans g task (on c) (r.onward c);
        done = (
          λ z a above k. (r.onward a).keeps task (at a above k),
          All_weaken w states r.after.states on l r.done,
        );
      }
  Outs-done (made i output ∷ l) w older (h, hs) =
      let (states, e, on, at) = completing i w older h in
      let r = Outs-done l (record w { states = states }) older hs in
      record {
        after = r.after;
        returned = rw (e, complete_outs, r.returned) refl;
        tree = r.tree;
        puts = r.puts;
        onward = λ c. Onward-trans g task (on c) (r.onward c);
        done = (
          λ z a above k. (r.onward a).keeps task (at a above k),
          All_weaken w states r.after.states on l r.done,
        );
      }
