-- ===== src/RunningPlan/Tree/Deactivate.antt =====
-- Deactivation of a tree of running plans (RunningPlan::deactivate).
use alica_engine.Common.{
  ℕ, zero, suc, ◌<◌, ◌≡◌, refl, sym, ap, ◌∙◌, ◌⊎◌, inl, inr, true, List, [], ◌∷◌, if◌then◌else◌,
  ◌==◌, contains, arith, Bool-cases, eq_of_==, ==-refl, ==-of_ne,
}
use mathlib.Core.Path.{subst}
use alica_engine.RunningPlan.{RunningPlan, PlanActivity, World, modify, each}
use alica_engine.RunningPlan.Status.{revoke_all_constraints}
use alica_engine.RunningPlan.Tree.{set_activity, retire, deactivate}

-- A running plan that has been deactivated.
abbrev pub shut : RunningPlan → RunningPlan
unfolding revoke_all_constraints
shut r = revoke_all_constraints (set_activity PlanActivity.retired r)

-- `q` stands in the tree of `p`.
pub data Below (w : World) : ℕ → ℕ → Type 0 where
  here : (p : ℕ) → Below w p p
  under : (p c q : ℕ) → contains c (w.plan_at p).children ≡ true → Below w c q → Below w p q

-- A running plan stands higher than its children.
abbrev pub Ranked : (ℕ → ℕ) → World → Type 0
Ranked rank w = (p c : ℕ) → contains c (w.plan_at p).children ≡ true → rank c < rank p

-- Each running plan is as before, or deactivated.
pub record Touched (w v : World) : Type 0 where
  pub plans : (q : ℕ) → (v.plan_at q ≡ w.plan_at q) ⊎ (v.plan_at q ≡ shut (w.plan_at q))

shut_twice : (r : RunningPlan) → shut (shut r) ≡ shut r
unfolding revoke_all_constraints
shut_twice r = refl

retire_at :
    (p q : ℕ) (w : World)
    → (retire p w).plan_at q ≡ (if q == p then shut (w.plan_at q) else w.plan_at q)
unfolding retire modify revoke_all_constraints
retire_at p q w = elim (Bool-cases (q == p)) [ inl same ↦ rw same | inr other ↦ rw other ]

Touched-retire : (p : ℕ) (w : World) → Touched w (retire p w)
Touched-retire p w = record {
  plans = λ q. elim (Bool-cases (q == p)) [
    | inl same ↦ inr (retire_at p q w ∙ rw same)
    | inr other ↦ inl (retire_at p q w ∙ rw other)
  ];
}

Touched-refl : (w : World) → Touched w w
Touched-refl w = record { plans = λ q. inl refl }

Touched-trans : {u v w : World} → Touched u v → Touched v w → Touched u w
Touched-trans a b = record {
  plans = λ q. elim (a.plans q) [
    | inl e ↦ elim (b.plans q) [ inl f ↦ inl (f ∙ e) | inr f ↦ inr (f ∙ ap shut e) ]
    | inr e ↦ elim (b.plans q) [ inl f ↦ inr (f ∙ e) | inr f ↦ inr (f ∙ ap shut e ∙ shut_twice _) ]
  ];
}

pub Touched-each :
    (f : ℕ → World → World)
    → ((p : ℕ) (w : World) → Touched w (f p w))
    → (ps : List ℕ) (w : World) → Touched w (each f ps w)
Touched-each f h [] w = Touched-refl w
Touched-each f h (p ∷ ps) w = Touched-trans (h p w) (Touched-each f h ps (f p w))

pub Touched-deactivate : (d p : ℕ) (w : World) → Touched w (deactivate d p w)
unfolding deactivate
Touched-deactivate zero p w = Touched-refl w
Touched-deactivate (suc d) p w =
    Touched-trans (Touched-retire p w)
      (Touched-each (deactivate d) (Touched-deactivate d) (w.plan_at p).children (retire p w))

pub children_kept :
    {w v : World} → Touched w v → (q : ℕ) → (v.plan_at q).children ≡ (w.plan_at q).children
unfolding revoke_all_constraints
children_kept t q = elim (t.plans q) [
  | inl e ↦ ap (λ r. r.children) e
  | inr e ↦ ap (λ r. r.children) e
]

Below-kept : {w v : World} {p q : ℕ} → Touched w v → Below w p q → Below v p q
Below-kept t (here p) = here p
Below-kept t (under p c q m b) =
    under p c q (ap (contains c) (children_kept t p) ∙ m) (Below-kept t b)

back :
    {w v : World}
    → Touched w v
    → (p c : ℕ) → contains c (v.plan_at p).children ≡ true
    → contains c (w.plan_at p).children ≡ true
back t p c m = sym (ap (contains c) (children_kept t p)) ∙ m

Below-back : {w v : World} {p q : ℕ} → Touched w v → Below v p q → Below w p q
Below-back t (here p) = here p
Below-back t (under p c q m b) = under p c q (back t p c m) (Below-back t b)

Ranked-kept : (rank : ℕ → ℕ) {w v : World} → Touched w v → Ranked rank w → Ranked rank v
Ranked-kept rank t r p c m = r p c (back t p c m)

-- A running plan that is deactivated stays so.
stays_shut :
    {w v : World} (r : RunningPlan) (q : ℕ)
    → Touched w v
    → w.plan_at q ≡ shut r
    → v.plan_at q ≡ shut r
stays_shut r q t e = elim (t.plans q) [ inl f ↦ f ∙ e | inr f ↦ f ∙ ap shut e ∙ shut_twice r ]

shut_before : {w v : World} (q : ℕ) → Touched w v → shut (v.plan_at q) ≡ shut (w.plan_at q)
shut_before {w} q t = elim (t.plans q) [
  | inl e ↦ ap shut e
  | inr e ↦ ap shut e ∙ shut_twice (w.plan_at q)
]

module _ (rank : ℕ → ℕ) where
  -- What deactivation to the depth `d` does below a running plan of a lower rank.
  abbrev pub ShutsBelow : ℕ → Type 0
  ShutsBelow d =
      (p q : ℕ) (w : World)
      → Ranked rank w
      → rank p < d
      → Below w p q
      → (deactivate d p w).plan_at q ≡ shut (w.plan_at q)

  pub each-shut :
      (d c q : ℕ) (ps : List ℕ) (w : World)
      → ShutsBelow d
      → Ranked rank w
      → ((x : ℕ) → contains x ps ≡ true → rank x < d)
      → contains c ps ≡ true
      → Below w c q
      → (each (deactivate d) ps w).plan_at q ≡ shut (w.plan_at q)
  each-shut d c q [] w h r low m b = absurd (cc)
  each-shut d c q (p ∷ ps) w h r low m b =
      let t = Touched-deactivate d p w in
      elim (Bool-cases (p == c)) [
        | inl same ↦
            stays_shut (w.plan_at q) q
              (Touched-each (deactivate d) (Touched-deactivate d) ps (deactivate d p w))
              (h p q w r (low p (ground arith))
                (subst (λ x. Below w x q) (sym (eq_of_== p c same)) b))
        | inr other ↦
            each-shut d c q ps (deactivate d p w) h (Ranked-kept rank t r)
              (λ x mx. low x (ground arith)) (ground arith) (Below-kept t b)
            ∙ shut_before q t
      ]

  pub deactivate-shut : (d : ℕ) → ShutsBelow d
  unfolding deactivate
  deactivate-shut zero p q w r low b = absurd (omega arith)
  deactivate-shut (suc d) p q w r low (here _) =
      stays_shut (w.plan_at p) p
        (Touched-each (deactivate d) (Touched-deactivate d) (w.plan_at p).children (retire p w))
        (retire_at p p w ∙ rw (==-refl p))
  deactivate-shut (suc d) p q w r low (under _ c _ m b) =
      let t = Touched-retire p w in
      each-shut d c q (w.plan_at p).children (retire p w) (deactivate-shut d) (Ranked-kept rank t r)
        (λ x mx. omega (arith, r p x mx)) m (Below-kept t b)
      ∙ shut_before q t

each-keep :
    (d q : ℕ) (ps : List ℕ) (w : World)
    → ((p : ℕ) (w : World) → ¬ Below w p q → (deactivate d p w).plan_at q ≡ w.plan_at q)
    → ((x : ℕ) → contains x ps ≡ true → ¬ Below w x q)
    → (each (deactivate d) ps w).plan_at q ≡ w.plan_at q
each-keep d q [] w h out = refl
each-keep d q (p ∷ ps) w h out =
    let t = Touched-deactivate d p w in
    each-keep d q ps (deactivate d p w) h (λ x mx b. out x (ground arith) (Below-back t b))
    ∙ h p w (out p (ground (arith, ==-refl p)))

pub deactivate-keep :
    (d q p : ℕ) (w : World) → ¬ Below w p q → (deactivate d p w).plan_at q ≡ w.plan_at q
unfolding deactivate
deactivate-keep zero q p w out = refl
deactivate-keep (suc d) q p w out =
    let t = Touched-retire p w in
    each-keep d q (w.plan_at p).children (retire p w) (deactivate-keep d q)
      (λ x mx b. out (under p x q mx (Below-back t b)))
    ∙ retire_at p q w
    ∙ ap (λ b. if b then shut (w.plan_at q) else w.plan_at q)
        (==-of_ne q p (λ e. out (subst (Below w p) (sym e) (here p))))
