-- ===== src/Collections/SuccessMarks/Laws.antt =====
-- What each operation of collections/SuccessMarks.cpp does to the answers of `succeeded`.
use alica_engine.Common.{
  ℕ, ◌≡◌, refl, sym, ap, ◌∙◌, inl, inr, Bool, true, false, ◌&&◌, ◌||◌, not, List, [], ◌∷◌, ◌++◌,
  any, keep, contains, if◌then◌else◌, ◌==◌, arith, Bool-cases, eq_of_==,
}
use alica_engine.Model.{EntryPoint, is_entry_point}
use alica_engine.Collections.SuccessMarks.{
  PlanMarks, SuccessMarks, has_entry_point, succeeded_entry_points, push_new, mark_successfull,
  add_found, limit_to_plans, remove_plan, succeeded,
}

any-push {ℓ} :
    {A : Type ℓ} (f : A → Bool) (x : A) (l : List A) → any f (l ++ x ∷ []) ≡ (any f l || f x)
any-push f x [] = ground arith
any-push f x (y ∷ l) = ground (arith, any-push f x l)

-- An entry point stands in a list to which another is added when it stood there or is the other one.
pub has-push_new :
    (f e : EntryPoint) (l : List EntryPoint)
    → has_entry_point f (push_new e l) ≡ (if f.id == e.id then true else has_entry_point f l)
has-push_new f e l = elim (Bool-cases (f.id == e.id)) [
  | inl same ↦
      let eq = eq_of_== f.id e.id same in
      ground (arith, any-push (is_entry_point f) e l, has_same f e l)
  | inr other ↦ ground (arith, any-push (is_entry_point f) e l)
]
  where
    has_same :
        (f e : EntryPoint) (l : List EntryPoint)
        → f.id ≡ e.id
        → has_entry_point f l ≡ has_entry_point e l
    has_same f e [] h = refl
    has_same f e (x ∷ l) h = ground (arith, has_same f e l h)

pub succeeded-cons :
    (q : ℕ) (f : EntryPoint) (x : PlanMarks) (xs : SuccessMarks)
    → succeeded q f (x ∷ xs)
      ≡ (if x.plan == q then has_entry_point f x.entry_points else succeeded q f xs)
unfolding succeeded succeeded_entry_points
succeeded-cons q f x xs = ground arith

marked_head :
    (q p : ℕ) (f e : EntryPoint) (x : PlanMarks) (xs : SuccessMarks)
    → (x.plan == p) ≡ true
    → succeeded q f (record x { entry_points = push_new e x.entry_points } ∷ xs)
      ≡ (if q == p && f.id == e.id then true else succeeded q f (x ∷ xs))
marked_head q p f e x xs same = ground (
  arith,
  has-push_new f e x.entry_points,
  succeeded-cons q f x xs,
  succeeded-cons q f (record x { entry_points = push_new e x.entry_points }) xs,
)

marked_tail :
    (q p : ℕ) (f e : EntryPoint) (x : PlanMarks) (xs ys : SuccessMarks)
    → (x.plan == p) ≡ false
    → succeeded q f ys ≡ (if q == p && f.id == e.id then true else succeeded q f xs)
    → succeeded q f (x ∷ ys) ≡ (if q == p && f.id == e.id then true else succeeded q f (x ∷ xs))
marked_tail q p f e x xs ys other h =
    ground (arith, h, succeeded-cons q f x xs, succeeded-cons q f x ys)

-- After `markSuccessfull` a task is marked exactly when it was so before or is the marked one.
pub succeeded-mark_successfull :
    (q p : ℕ) (f e : EntryPoint) (m : SuccessMarks)
    → succeeded q f (mark_successfull p e m)
      ≡ (if q == p && f.id == e.id then true else succeeded q f m)
unfolding succeeded succeeded_entry_points mark_successfull
succeeded-mark_successfull q p f e [] = ground arith
succeeded-mark_successfull q p f e (x ∷ xs) = elim (Bool-cases (x.plan == p)) [
  | inl same ↦ rw (same, mark_successfull) (marked_head q p f e x xs same)
  | inr other ↦
      rw (other, mark_successfull)
        (marked_tail q p f e x xs (mark_successfull p e xs) other
          (succeeded-mark_successfull q p f e xs))
]

-- The same holds of an entry point that a message names.
pub succeeded-add_found :
    (q : ℕ) (f e : EntryPoint) (m : SuccessMarks)
    → succeeded q f (add_found e m)
      ≡ (if q == e.plan && f.id == e.id then true else succeeded q f m)
unfolding succeeded succeeded_entry_points add_found
succeeded-add_found q f e [] = ground arith
succeeded-add_found q f e (x ∷ xs) = elim (Bool-cases (x.plan == e.plan)) [
  | inl same ↦ rw (same, add_found) (marked_head q e.plan f e x xs same)
  | inr other ↦
      rw (other, add_found)
        (marked_tail q e.plan f e x xs (add_found e xs) other (succeeded-add_found q f e xs))
]

pub succeeded-nil : (q : ℕ) (f : EntryPoint) → succeeded q f [] ≡ false
unfolding succeeded succeeded_entry_points
succeeded-nil q f = refl

module _ (g : ℕ → Bool) (q : ℕ) (f : EntryPoint) (x : PlanMarks) (xs : SuccessMarks) where
  kept_head :
      g x.plan ≡ true
      → succeeded q f (keep (λ y. g y.plan) xs) ≡ (if g q then succeeded q f xs else false)
      → succeeded q f (x ∷ keep (λ y. g y.plan) xs)
        ≡ (if g q then succeeded q f (x ∷ xs) else false)
  kept_head kept h = elim (Bool-cases (x.plan == q)) [
    | inl same ↦
        let gq : g q ≡ true = ap g (sym (eq_of_== x.plan q same)) ∙ kept in
        ground (arith, gq, succeeded-cons q f x xs, succeeded-cons q f x (keep (λ y. g y.plan) xs))
    | inr other ↦
        ground (arith, h, succeeded-cons q f x xs, succeeded-cons q f x (keep (λ y. g y.plan) xs))
  ]

  dropped_head :
      g x.plan ≡ false
      → succeeded q f (keep (λ y. g y.plan) xs) ≡ (if g q then succeeded q f xs else false)
      → succeeded q f (keep (λ y. g y.plan) xs) ≡ (if g q then succeeded q f (x ∷ xs) else false)
  dropped_head dropped h = elim (Bool-cases (x.plan == q)) [
    | inl same ↦
        let gq : g q ≡ false = ap g (sym (eq_of_== x.plan q same)) ∙ dropped in
        ground (arith, h, gq)
    | inr other ↦ ground (arith, h, succeeded-cons q f x xs)
  ]

succeeded-keep :
    (g : ℕ → Bool) (q : ℕ) (f : EntryPoint) (m : SuccessMarks)
    → succeeded q f (keep (λ x. g x.plan) m) ≡ (if g q then succeeded q f m else false)
succeeded-keep g q f [] = ground (arith, succeeded-nil q f)
succeeded-keep g q f (x ∷ xs) =
    let rest : SuccessMarks = keep (λ (y : PlanMarks). g y.plan) xs in
    elim (Bool-cases (g x.plan)) [
      | inl kept ↦ rw kept (kept_head g q f x xs kept (succeeded-keep g q f xs))
      | inr dropped ↦ rw dropped (dropped_head g q f x xs dropped (succeeded-keep g q f xs))
    ]

-- `limitToPlans` keeps exactly the marks of the given plans.
pub succeeded-limit_to_plans :
    (q : ℕ) (f : EntryPoint) (active : List ℕ) (m : SuccessMarks)
    → succeeded q f (limit_to_plans active m)
      ≡ (if contains q active then succeeded q f m else false)
unfolding limit_to_plans
succeeded-limit_to_plans q f active m = succeeded-keep (λ p. contains p active) q f m

-- `removePlan` drops exactly the marks of the plan.
pub succeeded-remove_plan :
    (q p : ℕ) (f : EntryPoint) (m : SuccessMarks)
    → succeeded q f (remove_plan p m) ≡ (if q == p then false else succeeded q f m)
unfolding remove_plan
succeeded-remove_plan q p f m = ground (arith, succeeded-keep (λ x. not (x == p)) q f m)
