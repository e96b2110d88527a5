-- ===== src/Dag/Mask/Walk.antt =====
-- What the search yields: the tasks that paths lead to, each once.
use shutilspy.Common.{
  ℕ, ◌+◌, ◌≤◌, ◌<◌, ◌≡◌, refl, ap, subst, ◌⊎◌, inl, inr, Bool, true, false, not, ◌&&◌, ◌||◌, List,
  [], ◌∷◌, ◌++◌, arith, if◌then◌else◌, ==_iff, ==_refl, Bool-cases, length, length-append, has,
}
use shutilspy.Dag.Graph.Closure.{LeadsFrom, Leads, edge, via}
use shutilspy.Dag.Mask.{Search, offer, offers}

has-append : (x : ℕ) (a b : List ℕ) → has x (a ++ b) ≡ (has x a || has x b)
unfolding has
has-append x [] b = refl
has-append x (y ∷ a) b = ground (arith, has-append x a b)

-- Offering a list: the set grows by it, and the queue by what was new.
pub set-offers :
    (ts : List ℕ) (s : Search) (x : ℕ)
    → has x (offers ts s).task_set ≡ (has x s.task_set || has x ts)
unfolding offers has
set-offers [] s x = ground arith
set-offers (t ∷ ts) s x = ground (arith, set-offers ts (offer t s) x, ==_iff x t)

pub queue-offers :
    (ts : List ℕ) (s : Search) (x : ℕ)
    → has x (offers ts s).task_queue ≡ (has x s.task_queue || (has x ts && not (has x s.task_set)))
unfolding offers has
queue-offers [] s x = ground arith
queue-offers (t ∷ ts) s x =
    ground (arith, queue-offers ts (offer t s) x, has-append x s.task_queue (t ∷ []), ==_iff x t)

-- How many of the listed tasks are not in the set.
unfoldable pub unseen : List ℕ → List ℕ → ℕ
unseen [] set = 0
unseen (x ∷ xs) set = (if has x set then 0 else 1) + unseen xs set

unseen-le : (all : List ℕ) (t : ℕ) (set : List ℕ) → unseen all (t ∷ set) ≤ unseen all set
unfolding unseen has
unseen-le [] t set = omega arith
unseen-le (x ∷ all) t set = ground (arith, unseen-le all t set)

unseen-lt :
    (all : List ℕ) (t : ℕ) (set : List ℕ)
    → has t all ≡ true
    → has t set ≡ false
    → unseen all (t ∷ set) < unseen all set
unfolding unseen has
unseen-lt [] t set h n = absurd (cc)
unseen-lt (x ∷ all) t set h n =
    ground (arith, unseen-le all t set, unseen-lt all t set, ==_iff t x, ==_iff x t)

-- What is left to be done: the tasks not seen, and those that wait.
abbrev pub work : List ℕ → Search → ℕ
work all s = unseen all s.task_set + length s.task_queue

pub work-offers :
    (all ts : List ℕ) (s : Search)
    → ((x : ℕ) → has x ts ≡ true → has x all ≡ true)
    → work all (offers ts s) ≤ work all s
unfolding offers has
work-offers all [] s h = omega arith
work-offers all (t ∷ ts) s h = ground (
  arith,
  work-offers all ts (offer t s) (λ x m. h x (ground arith)),
  h t,
  ==_refl t,
  unseen-lt all t s.task_set,
  length-append s.task_queue (t ∷ []),
)

-- No task stands twice.
unfoldable pub Once : List ℕ → Type 0
unfolding has
Once [] = Unit
Once (x ∷ xs) = (has x xs ≡ false) × Once xs

Once-append : (q : List ℕ) (t : ℕ) → Once q → has t q ≡ false → Once (q ++ t ∷ [])
unfolding Once
Once-append [] t h n = (refl, tt)
Once-append (x ∷ q) t (m, h) n = (
  ground (arith, has-append x q (t ∷ []), ==_iff x t, ==_iff t x),
  Once-append q t h (ground arith),
)

pub Once-offers :
    (ts : List ℕ) (s : Search)
    → ((x : ℕ) → has x s.task_queue ≡ true → has x s.task_set ≡ true)
    → Once s.task_queue
    → Once (offers ts s).task_queue
unfolding offers has
Once-offers [] s h o = o
Once-offers (t ∷ ts) s h o =
    Once-offers ts (offer t s)
      (λ x m. ground (arith, h x, has-append x s.task_queue (t ∷ []), ==_iff x t))
      (elim (Bool-cases (has t s.task_set)) [
        | inl e ↦ rw (e, offer) o
        | inr e ↦ rw (e, offer) (Once-append s.task_queue t o (ground (arith, h t)))
      ])

pub queue-cases : (q : List ℕ) → (q ≡ []) ⊎ ((t : ℕ) × (rest : List ℕ) × (q ≡ t ∷ rest))
queue-cases [] = inl refl
queue-cases (t ∷ rest) = inr (t, rest, refl)

module _ (next : ℕ → List ℕ) (starts : List ℕ) (mask_self : Bool) where
  -- A task to mask: a path of one edge or more leads to it, or it is given and is to be masked.
  abbrev pub IsMasked : ℕ → Type 0
  IsMasked x = LeadsFrom next starts x ⊎ ((mask_self ≡ true) × (has x starts ≡ true))

  -- After the first loop has treated `ts`.
  pub record Seeded (ts : List ℕ) (s : Search) : Type 0 where
    pub sound : (x : ℕ) → has x s.task_set ≡ true → IsMasked x
    pub queued : (x : ℕ) → has x s.task_set ≡ has x s.task_queue
    pub first : (t d : ℕ) → has t ts ≡ true → has d (next t) ≡ true → has d s.task_set ≡ true
    pub self : (t : ℕ) → mask_self ≡ true → has t ts ≡ true → has t s.task_set ≡ true
    pub once : Once s.task_queue

  -- Between the rounds of the second loop.
  pub record Inv (yielded : List ℕ) (s : Search) : Type 0 where
    pub sound : (x : ℕ) → has x s.task_set ≡ true → IsMasked x
    pub split : (x : ℕ) → has x s.task_set ≡ (has x yielded || has x s.task_queue)
    pub closed : (t d : ℕ) → has t yielded ≡ true → has d (next t) ≡ true → has d s.task_set ≡ true
    pub apart : (x : ℕ) → has x yielded ≡ true → has x s.task_queue ≡ false
    pub first : (t d : ℕ) → has t starts ≡ true → has d (next t) ≡ true → has d s.task_set ≡ true
    pub self : (t : ℕ) → mask_self ≡ true → has t starts ≡ true → has t s.task_set ≡ true
    pub once : Once s.task_queue

  Leads-snoc : {t d x : ℕ} → Leads next t d → has x (next d) ≡ true → Leads next t x
  Leads-snoc (edge e) f = via e (edge f)
  Leads-snoc (via e p) f = via e (Leads-snoc p f)

  IsMasked-next : (t d : ℕ) → IsMasked t → has d (next t) ≡ true → IsMasked d
  IsMasked-next t d (inl (u, m, p)) e = inl (u, m, Leads-snoc p e)
  IsMasked-next t d (inr (g, m)) e = inl (t, m, edge e)

  -- One round of the second loop.
  pub round-Inv :
      (yielded : List ℕ) (s : Search) (t : ℕ) (rest : List ℕ)
      → s.task_queue ≡ t ∷ rest
      → Inv yielded s
      → Inv (t ∷ yielded) (offers (next t) (record s { task_queue = rest }))
  unfolding has Once
  round-Inv yielded s t rest e v =
      let s' = record s { task_queue = rest } in
      let in_set = set-offers (next t) s' in
      let in_queue = queue-offers (next t) s' in
      let was = λ (x : ℕ). ap (has x) e in
      let fresh : Once (t ∷ rest) = subst Once e v.once in
      record {
        sound = λ x m. elim (Bool-cases (has x s.task_set)) [
          | inl i ↦ v.sound x i
          | inr o ↦
              IsMasked-next t x (v.sound t (ground (arith, v.split t, was t, ==_refl t)))
                (ground (arith, in_set x))
        ];
        split = λ x. ground (arith, in_set x, in_queue x, v.split x, was x);
        closed = λ u d m f. ground (arith, in_set d, v.closed u d, ==_iff u t);
        apart = λ x m. ground (arith, in_queue x, v.apart x, v.split x, was x, ==_iff x t, fresh.0);
        first = λ u d m f. ground (arith, in_set d, v.first u d);
        self = λ u g m. ground (arith, in_set u, v.self u);
        once = Once-offers (next t) s' (λ x m. ground (arith, v.split x, was x)) fresh.1;
      }
