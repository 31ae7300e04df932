-- ===== src/RuleBook/Idle.antt =====
-- What the rules of RuleBook.cpp do for the failure of a running plan in which the agent idles.
use alica_engine.Common.{
  ℕ, ◌≡◌, refl, ap, ◌∙◌, Bool, true, false, ◌||◌, not, none, if◌then◌else◌, ◌==◌, ltb, arith,
}
use alica_engine.RunningPlan.{World, is_retired}
use alica_engine.RuleBook.Flags.{waits}
use alica_engine.RuleBook.{PlanChange, is_change, update_change, Rule, RuleEnv}
use alica_engine.RuleBook.Failures.{
  may_repair, redo_at, plan_redo_rule, replace_at, plan_replace_rule, propagate_to,
  plan_propagation_rule, plan_abort_rule,
}
use alica_engine.RuleBook.Visit.{RoundEnd, returns, breaks, goes_on, apply, propagate, repair_rules}

if_true {ℓ} : {A : Type ℓ} (b : Bool) (x y : A) → b ≡ true → (if b then x else y) ≡ x
if_true true x y h = refl
if_true false x y h = absurd (cc)

second {ℓ} :
    {A : Type ℓ} (b c : Bool) (x y : A) → c ≡ true → (if b then x else if c then x else y) ≡ x
second true c x y h = refl
second false true x y h = refl
second false false x y h = absurd (cc)

third {ℓ} : {A : Type ℓ} (b c : Bool) (x y : A) → y ≡ x → (if b then x else if c then x else y) ≡ x
third true c x y h = refl
third false true x y h = refl
third false false x y h = h

module _ (rules : RuleEnv) where
  apply-idle :
      (rule : Rule) (p : ℕ) (w : World)
      → rule p w ≡ (w, PlanChange.no_change)
      → apply rule p (w, PlanChange.no_change) ≡ (w, PlanChange.no_change)
  unfolding apply update_change
  apply-idle rule p w h = ap (λ t. update_change PlanChange.no_change t.1 t.0) h

  plan_abort_rule-idle :
      (p : ℕ) (w : World) → waits w p ≡ true → plan_abort_rule rules p w ≡ (w, PlanChange.no_change)
  unfolding plan_abort_rule
  plan_abort_rule-idle p w waiting =
      if_true ((w.plan_at p).info.fail_handling_needed || (w.plan_at p).behaviour)
        (w, PlanChange.no_change) _ (ground arith)

  plan_redo_rule-idle :
      (p : ℕ) (w : World)
      → (w.plan_at p).entry_point ≡ none
      → plan_redo_rule rules p w ≡ (w, PlanChange.no_change)
  unfolding plan_redo_rule redo_at
  plan_redo_rule-idle p w idle =
      let r = w.plan_at p in
      third (not (may_repair r)) (not (r.info.fail_count == 1)) (w, PlanChange.no_change)
        (redo_at rules r.entry_point p w) (ap (λ e. redo_at rules e p w) idle)

  plan_replace_rule-idle :
      (p : ℕ) (w : World)
      → (w.plan_at p).info.fail_count ≡ 1
      → plan_replace_rule rules p w ≡ (w, PlanChange.no_change)
  unfolding plan_replace_rule
  plan_replace_rule-idle p w once =
      let r = w.plan_at p in
      second (not (may_repair r)) (not (r.info.fail_count == 2)) (w, PlanChange.no_change)
        (replace_at rules r.parent p w) (ground arith)

  plan_propagation_rule-idle :
      (p : ℕ) (w : World)
      → (w.plan_at p).info.fail_count ≡ 1
      → plan_propagation_rule rules p w ≡ (w, PlanChange.no_change)
  unfolding plan_propagation_rule
  plan_propagation_rule-idle p w once =
      let r = w.plan_at p in
      second (not (may_repair r)) (ltb r.info.fail_count 3) (w, PlanChange.no_change)
        (propagate_to rules r.parent p w) (ground arith)

  propagate-idle :
      (changes p : ℕ) (w : World)
      → (w.plan_at p).info.fail_count ≡ 1
      → is_retired (w.plan_at p) ≡ false
      → propagate rules changes p (w, PlanChange.no_change)
        ≡ (w, goes_on PlanChange.no_change changes)
  unfolding propagate update_change
  propagate-idle changes p w once alive =
      pick (is_retired (w.plan_at p)) alive (plan_propagation_rule rules p w)
        (plan_propagation_rule-idle p w once)
    where
      ending : Bool → World × PlanChange → World × RoundEnd
      ending b t =
          let u = update_change PlanChange.no_change t.1 t.0 in
          if b
          then (w, returns PlanChange.no_change)
          else if is_change t.1
          then (u.0, breaks)
          else (u.0, goes_on u.1 changes)

      pick :
          (b : Bool)
          → b ≡ false
          → (t : World × PlanChange) → t ≡ (w, PlanChange.no_change)
          → ending b t ≡ (w, goes_on PlanChange.no_change changes)
      pick true h t k = absurd (cc)
      pick false h t k = ap (ending false) k

  -- The rules for aborting, redoing, replacing and propagating leave a running plan as it is that waits
  -- for failure handling, has failed once and has no active entry point.
  pub repair_rules-idle :
      (changes p : ℕ) (w : World)
      → waits w p ≡ true
      → (w.plan_at p).entry_point ≡ none
      → (w.plan_at p).info.fail_count ≡ 1
      → is_retired (w.plan_at p) ≡ false
      → (plan_abort_rule rules p w ≡ (w, PlanChange.no_change))
        × (repair_rules rules changes p (w, PlanChange.no_change)
            ≡ (w, goes_on PlanChange.no_change changes))
  unfolding repair_rules
  repair_rules-idle changes p w waiting idle once alive = (
    plan_abort_rule-idle p w waiting,
    ap (λ s. propagate rules changes p (apply (plan_replace_rule rules) p s))
          (apply-idle (plan_redo_rule rules) p w (plan_redo_rule-idle p w idle))
        ∙ ap (propagate rules changes p)
            (apply-idle (plan_replace_rule rules) p w (plan_replace_rule-idle p w once))
        ∙ propagate-idle changes p w once alive,
  )
