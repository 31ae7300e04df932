-- ===== src/RuleBook/Visit/Bound.antt =====
-- RuleBook::visit ends: its loops are bounded by the greatest number of consecutive changes.

use alica_engine.Common.{
  ℕ, zero, suc, ◌+◌, ◌≤◌, ◌<◌, ◌≡◌, refl, ap, ◌∙◌, Bool, true, false, not, if◌then◌else◌, ltb,
  arith,
}
use alica_engine.RunningPlan.{World, is_retired}
use alica_engine.RuleBook.{PlanChange, is_change, update_change, RuleEnv}
use alica_engine.RuleBook.Rules.{transition_rule, synch_transition_rule}
use alica_engine.RuleBook.Failures.{plan_redo_rule, plan_replace_rule, plan_propagation_rule}
use alica_engine.RuleBook.Visit.{
  RoundEnd, returns, breaks, goes_on, transitions, further_rules, first_rules, repair_rules,
  end_round, round, after_round, visit_loop, visit, is_failure, propagate, apply,
}

-- A loop's test between two ends and the next round.
choose {ℓ} :
    {A : Type ℓ} (b c : Bool) (x y r s : A)
    → (c ≡ true → r ≡ s)
    → (if b then x else if c then r else y) ≡ (if b then x else if c then s else y)
choose true c x y r s h = refl
choose false true x y r s h = h refl
choose false false x y r s h = refl

module _ (rules : RuleEnv) where
  transitions-fuel :
      (f g changes : ℕ) (last : PlanChange) (p : ℕ) (s : World × PlanChange)
      → 0 < f
      → 0 < g
      → rules.max_consecutive_changes < f + changes
      → rules.max_consecutive_changes < g + changes
      → transitions rules f changes last p s ≡ transitions rules g changes last p s
  unfolding transitions
  transitions-fuel zero g changes last p s hf hg mf mg = absurd (omega arith)
  transitions-fuel (suc f) zero changes last p s hf hg mf mg = absurd (omega arith)
  transitions-fuel (suc f) (suc g) changes last p (w, record_) hf hg mf mg =
      let u = update_change record_ last w in
      let t = transition_rule rules p u.0 in
      choose (not (is_change last)) (ltb (changes + 1) rules.max_consecutive_changes)
        (w, record_, changes) (w, record_, changes + 1)
        (transitions rules f (changes + 1) t.1 p (t.0, u.1))
        (transitions rules g (changes + 1) t.1 p (t.0, u.1))
        (λ lt.
          let below : changes + 1 < rules.max_consecutive_changes = ground arith in
          transitions-fuel f g (changes + 1) t.1 p (t.0, u.1) (omega arith) (omega arith)
            (omega arith) (omega arith))

  round-fuel :
      (f g : ℕ) (dyn : Bool) (changes p : ℕ) (w : World)
      → 0 < f
      → 0 < g
      → rules.max_consecutive_changes < f + changes
      → rules.max_consecutive_changes < g + changes
      → round rules f dyn changes p w ≡ round rules g dyn changes p w
  unfolding round first_rules
  round-fuel f g dyn changes p w hf hg mf mg =
      let s = apply (synch_transition_rule rules) p (w, PlanChange.no_change) in
      let t = transition_rule rules p s.0 in
      ap (λ r. end_round rules p (further_rules rules dyn p r))
        (transitions-fuel f g changes t.1 p (t.0, s.1) hf hg mf mg)

  transitions-ge :
      (f changes : ℕ) (last : PlanChange) (p : ℕ) (s : World × PlanChange)
      → changes ≤ (transitions rules f changes last p s).2
  unfolding transitions
  transitions-ge zero changes last p s = omega arith
  transitions-ge (suc f) changes last p (w, record_) =
      let u = update_change record_ last w in
      let t = transition_rule rules p u.0 in
      let ih = transitions-ge f (changes + 1) t.1 p (t.0, u.1) in
      pick (not (is_change last)) (ltb (changes + 1) rules.max_consecutive_changes)
        (transitions rules f (changes + 1) t.1 p (t.0, u.1)) (omega arith)
    where
      pick :
          (b c : Bool) (r : World × PlanChange × ℕ)
          → changes ≤ r.2
          → changes
            ≤ (if b then (w, record_, changes) else if c then r else (w, record_, changes + 1)).2
      pick true c r h = omega arith
      pick false true r h = h
      pick false false r h = omega arith

  abbrev AtLeast : ℕ → World × RoundEnd → Type 0
  AtLeast n (w, returns c) = Unit
  AtLeast n (w, breaks) = Unit
  AtLeast n (w, goes_on c m) = n ≤ m

  propagate-AtLeast :
      (n changes p : ℕ) (s : World × PlanChange)
      → n ≤ changes
      → AtLeast n (propagate rules changes p s)
  unfolding propagate
  propagate-AtLeast n changes p (w, record_) h =
      let q = plan_propagation_rule rules p w in
      let u = update_change record_ q.1 q.0 in
      pick (is_retired (w.plan_at p)) (is_change q.1) w u.0 record_ u.1
    where
      pick :
          (b c : Bool) (v w : World) (x y : PlanChange)
          → AtLeast n
              (if b then (v, returns x) else if c then (w, breaks) else (w, goes_on y changes))
      pick true c v w x y = tt
      pick false true v w x y = tt
      pick false false v w x y = h

  repair_rules-AtLeast :
      (n changes p : ℕ) (s : World × PlanChange)
      → n ≤ changes
      → AtLeast n (repair_rules rules changes p s)
  unfolding repair_rules
  repair_rules-AtLeast n changes p s h =
      propagate-AtLeast n changes p
        (apply (plan_replace_rule rules) p (apply (plan_redo_rule rules) p s)) h

  end_round-AtLeast :
      (n p : ℕ) (s : World × PlanChange × ℕ) → n ≤ s.2 → AtLeast n (end_round rules p s)
  unfolding end_round
  end_round-AtLeast n p (w, record_, changes) h =
      pick (is_failure record_) (repair_rules rules changes p (w, record_))
        (repair_rules-AtLeast n changes p (w, record_) h)
    where
      pick :
          (b : Bool) (r : World × RoundEnd)
          → AtLeast n r
          → AtLeast n (if b then (w, returns PlanChange.fail_change) else r)
      pick true r k = tt
      pick false r k = k

  round-AtLeast :
      (f : ℕ) (dyn : Bool) (changes p : ℕ) (w : World)
      → AtLeast changes (round rules f dyn changes p w)
  unfolding round first_rules further_rules
  round-AtLeast f dyn changes p w =
      let s = apply (synch_transition_rule rules) p (w, PlanChange.no_change) in
      let t = transition_rule rules p s.0 in
      end_round-AtLeast changes p
        (further_rules rules dyn p (transitions rules f changes t.1 p (t.0, s.1)))
        (transitions-ge f changes t.1 p (t.0, s.1))

  after_round-cong :
      (again again' : PlanChange → ℕ → World → World × PlanChange) (total : PlanChange) (n : ℕ)
      (e : World × RoundEnd)
      → ((r : PlanChange) (c : ℕ) (v : World)
          → n < c
          → c < rules.max_consecutive_changes
          → again r c v ≡ again' r c v)
      → AtLeast n e
      → after_round rules again total e ≡ after_round rules again' total e
  unfolding after_round
  after_round-cong again again' total n (w, returns c) same h = refl
  after_round-cong again again' total n (w, breaks) same h = refl
  after_round-cong again again' total n (w, goes_on r m) same h =
      choose (not (is_change r)) (ltb (m + 1) rules.max_consecutive_changes) (w, total) (w, total)
        (again r (m + 1) w) (again' r (m + 1) w)
        (λ lt.
          let below : m + 1 < rules.max_consecutive_changes = ground arith in
          same r (m + 1) w (omega arith) below)

  visit_loop-fuel :
      (f g : ℕ) (dyn : Bool) (total record_ : PlanChange) (changes p : ℕ) (w : World)
      → changes ≤ rules.max_consecutive_changes
      → rules.max_consecutive_changes + 2 ≤ f + changes
      → rules.max_consecutive_changes + 2 ≤ g + changes
      → visit_loop rules f dyn total record_ changes p w
        ≡ visit_loop rules g dyn total record_ changes p w
  unfolding visit_loop
  visit_loop-fuel zero g dyn total record_ changes p w h hf hg = absurd (omega arith)
  visit_loop-fuel (suc f) zero dyn total record_ changes p w h hf hg = absurd (omega arith)
  visit_loop-fuel (suc f) (suc g) dyn total record_ changes p w h hf hg =
      let u = update_change total record_ w in
      after_round-cong (λ r c v. visit_loop rules f false u.1 r c p v)
        (λ r c v. visit_loop rules g false u.1 r c p v) u.1 changes
        (round rules f dyn changes p u.0)
        (λ r c v more less.
          visit_loop-fuel f g false u.1 r c p v (omega arith) (omega arith) (omega arith))
        (round-AtLeast f dyn changes p u.0)
      ∙ ap (after_round rules (λ r c v. visit_loop rules g false u.1 r c p v) u.1)
          (round-fuel f g dyn changes p u.0 (omega arith) (omega arith) (omega arith) (omega arith))

  -- The visit of a running plan ends: its loops stop by their own tests before the fuel is used up, so
  -- that more fuel than two rounds beyond the greatest number of consecutive changes alters nothing.
  pub visit-fuel :
      (fuel p : ℕ) (w : World)
      → rules.max_consecutive_changes + 2 ≤ fuel
      → visit rules p w ≡ visit_loop rules fuel true PlanChange.no_change PlanChange.no_change 0 p w
  unfolding visit
  visit-fuel fuel p w h =
      visit_loop-fuel (rules.max_consecutive_changes + 2) fuel true PlanChange.no_change
        PlanChange.no_change 0 p w (omega arith) (omega arith) (omega arith)
