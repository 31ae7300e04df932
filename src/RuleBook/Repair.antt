-- ===== src/RuleBook/Repair.antt =====
-- The rules that handle a failure, one after the other: redo, replace, propagate.
use alica_engine.Common.{
  ℕ, ◌+◌, ◌≤◌, ◌≡◌, refl, sym, ◌∙◌, ◌⊎◌, inl, inr, Bool, true, false, not, Option, none, some,
  if◌then◌else◌, ◌==◌, ltb, arith,
}
use mathlib.Core.Path.{subst}
use alica_engine.Model.{EntryPoint}
use alica_engine.RunningPlan.{RunningPlan, World, same_id, is_retired, modify}
use alica_engine.RunningPlan.Status.{
  is_some, edit_assignment, add_failure, set_failure_handling_needed, set_allocation_needed,
  use_state, set_failed_child,
}
use alica_engine.RunningPlan.Tree.{deactivate_children, clear_children, move_all}
use alica_engine.RunningPlan.Tree.Fields.{modify_self}
use alica_engine.RuleBook.Flags.{
  waits, modify-waits, clear_children-waits, deactivate_children-waits, use_state-waits, handled,
}
use alica_engine.RuleBook.{PlanChange, is_change, update_change, RuleEnv}
use alica_engine.RuleBook.Failures.{
  may_repair, redo, redo_at, plan_redo_rule, replace_in, replace_at, plan_replace_rule,
  propagate_to, plan_propagation_rule,
}
use alica_engine.RuleBook.Visit.{RoundEnd, returns, breaks, goes_on, apply, propagate, repair_rules}

-- A running plan that the rules can work on, with at least `n` failures.
pub record IsRepairable (n : ℕ) (r : RunningPlan) : Type 0 where
  pub has_parent : is_some r.parent ≡ true
  pub no_behaviour : r.behaviour ≡ false
  pub not_retired : is_retired r ≡ false
  pub failures : n ≤ r.info.fail_count

abbrev Stage : ℕ → World → ℕ → Type 0
Stage n w p = (waits w p ≡ false) ⊎ IsRepairable n (w.plan_at p)

not_waiting : (r : RunningPlan) → r.info.fail_handling_needed ≡ false → may_repair r ≡ false
unfolding may_repair
not_waiting r h = ground arith

add_failure-IsRepairable :
    (n : ℕ) (r : RunningPlan) → IsRepairable n r → IsRepairable (n + 1) (add_failure r)
unfolding add_failure set_failure_handling_needed
add_failure-IsRepairable n r h = record {
  has_parent = h.has_parent;
  no_behaviour = h.no_behaviour;
  not_retired = h.not_retired;
  failures = omega (arith, h.failures);
}

-- A rule with two guards.
guarded :
    (P : World → Type 0) (w : World) (b c : Bool) (r : World × PlanChange)
    → (b ≡ true → P w)
    → (c ≡ true → P w)
    → (b ≡ false → c ≡ false → P r.0)
    → let out : World × PlanChange =
        if b then (w, PlanChange.no_change) else if c then (w, PlanChange.no_change) else r in
      P out.0
guarded P w true c r h k go = h refl
guarded P w false true r h k go = k refl
guarded P w false false r h k go = go refl refl

module _ (rules : RuleEnv) where
  redo-Stage :
      (ep : EntryPoint) (p : ℕ) (w : World)
      → IsRepairable 1 (w.plan_at p)
      → Stage 2 (redo rules ep p w).0 p
  unfolding redo set_allocation_needed
  redo-Stage ep p w h =
      let started = modify p (set_failure_handling_needed false) w in
      let left = deactivate_children rules.env.depth p started in
      let cleared = clear_children p left in
      let moves = edit_assignment (move_all (some ep) (w.plan_at p).state (some ep.state)) in
      let moved = modify p moves cleared in
      let entered = use_state rules.env (some ep.state) p moved in
      pick (same_id (w.plan_at p).state (some ep.state))
        (modify p (set_allocation_needed true) entered)
        (modify-waits p p (set_allocation_needed true) entered (λ r. refl)
          ∙ use_state-waits rules.env (some ep.state) p p moved
          ∙ modify-waits p p moves cleared (λ r. refl)
          ∙ clear_children-waits p p left
          ∙ deactivate_children-waits rules.env.depth p p started
          ∙ handled p w)
    where
      pick :
          (b : Bool) (v : World)
          → waits v p ≡ false
          → let out : World × PlanChange =
              if b
              then (modify p add_failure w, PlanChange.fail_change)
              else (v, PlanChange.internal_change) in
            Stage 2 out.0 p
      pick true v k = inr (
          subst (IsRepairable 2) (sym (modify_self p add_failure w))
            (add_failure-IsRepairable 1 (w.plan_at p) h))
      pick false v k = inl k

  redo_at-Stage :
      (ep : Option EntryPoint) (p : ℕ) (w : World)
      → is_some ep ≡ true
      → IsRepairable 1 (w.plan_at p)
      → Stage 2 (redo_at rules ep p w).0 p
  unfolding redo_at
  redo_at-Stage none p w h k = absurd (cc)
  redo_at-Stage (some ep) p w h k = redo-Stage ep p w k

  more :
      (n : ℕ) (r : RunningPlan)
      → IsRepairable n r
      → (r.info.fail_count == n) ≡ false
      → IsRepairable (n + 1) r
  more n r h other = record {
    has_parent = h.has_parent;
    no_behaviour = h.no_behaviour;
    not_retired = h.not_retired;
    failures = ground (arith, h.failures);
  }

  plan_redo_rule-Stage :
      (p : ℕ) (w : World)
      → is_some (w.plan_at p).entry_point ≡ true
      → IsRepairable 1 (w.plan_at p)
      → Stage 2 (plan_redo_rule rules p w).0 p
  unfolding plan_redo_rule may_repair
  plan_redo_rule-Stage p w ep h =
      let r = w.plan_at p in
      guarded (λ v. Stage 2 v p) w (not (may_repair r)) (not (r.info.fail_count == 1))
        (redo_at rules r.entry_point p w) (λ b. inl (ground (arith, h.has_parent, h.no_behaviour)))
        (λ c. inr (more 1 r h (ground arith))) (λ b c. redo_at-Stage r.entry_point p w ep h)

  replace_at-handled :
      (q : Option ℕ) (p : ℕ) (w : World)
      → is_some q ≡ true
      → waits (replace_at rules q p w).0 p ≡ false
  unfolding replace_at replace_in
  replace_at-handled none p w h = absurd (cc)
  replace_at-handled (some q) p w h = handled p (
      clear_children q (
        modify q (λ r. set_allocation_needed true (set_failed_child (w.plan_at p).plan r))
          (deactivate_children rules.env.depth q w)))

  plan_replace_rule-Stage :
      (p : ℕ) (w : World) → Stage 2 w p → Stage 3 (plan_replace_rule rules p w).0 p
  unfolding plan_replace_rule may_repair
  plan_replace_rule-Stage p w (inl idle) =
      let r = w.plan_at p in
      guarded (λ v. Stage 3 v p) w (not (may_repair r)) (not (r.info.fail_count == 2))
        (replace_at rules r.parent p w) (λ b. inl idle) (λ c. inl idle)
        (λ b c. absurd (ground (arith, not_waiting r idle)))
  plan_replace_rule-Stage p w (inr h) =
      let r = w.plan_at p in
      guarded (λ v. Stage 3 v p) w (not (may_repair r)) (not (r.info.fail_count == 2))
        (replace_at rules r.parent p w) (λ b. inl (ground (arith, h.has_parent, h.no_behaviour)))
        (λ c. inr (more 2 r h (ground arith)))
        (λ b c. inl (replace_at-handled r.parent p w h.has_parent))

  propagate_to-handled :
      (q : Option ℕ) (p : ℕ) (w : World)
      → is_some q ≡ true
      → waits (propagate_to rules q p w).0 p ≡ false
  unfolding propagate_to
  propagate_to-handled none p w h = absurd (cc)
  propagate_to-handled (some q) p w h = handled p (modify q add_failure w)

  plan_propagation_rule-handled :
      (p : ℕ) (w : World) → Stage 3 w p → waits (plan_propagation_rule rules p w).0 p ≡ false
  unfolding plan_propagation_rule may_repair
  plan_propagation_rule-handled p w (inl idle) =
      let r = w.plan_at p in
      guarded (λ v. waits v p ≡ false) w (not (may_repair r)) (ltb r.info.fail_count 3)
        (propagate_to rules r.parent p w) (λ b. idle) (λ c. idle)
        (λ b c. absurd (ground (arith, not_waiting r idle)))
  plan_propagation_rule-handled p w (inr h) =
      let r = w.plan_at p in
      guarded (λ v. waits v p ≡ false) w (not (may_repair r)) (ltb r.info.fail_count 3)
        (propagate_to rules r.parent p w) (λ b. ground (arith, h.has_parent, h.no_behaviour))
        (λ c. absurd (ground (arith, h.failures)))
        (λ b c. propagate_to-handled r.parent p w h.has_parent)

  propagate-handled :
      (changes p : ℕ) (s : World × PlanChange)
      → Stage 3 s.0 p
      → waits (propagate rules changes p s).0 p ≡ false
  unfolding propagate update_change
  propagate-handled changes p (w, record_) (inl idle) =
      let q = plan_propagation_rule rules p w in
      let u = update_change record_ q.1 q.0 in
      pick (is_retired (w.plan_at p)) (is_change q.1) u idle
        (plan_propagation_rule-handled p w (inl idle))
    where
      pick :
          (b c : Bool) (u : World × PlanChange)
          → waits w p ≡ false
          → waits u.0 p ≡ false
          → let out : World × RoundEnd =
              if b
              then (w, returns record_)
              else if c
              then (u.0, breaks)
              else (u.0, goes_on u.1 changes) in
            waits out.0 p ≡ false
      pick true c u h k = h
      pick false true u h k = k
      pick false false u h k = k
  propagate-handled changes p (w, record_) (inr ready) =
      let q = plan_propagation_rule rules p w in
      let u = update_change record_ q.1 q.0 in
      pick (is_retired (w.plan_at p)) (is_change q.1) u ready.not_retired
        (plan_propagation_rule-handled p w (inr ready))
    where
      pick :
          (b c : Bool) (u : World × PlanChange)
          → b ≡ false
          → waits u.0 p ≡ false
          → let out : World × RoundEnd =
              if b
              then (w, returns record_)
              else if c
              then (u.0, breaks)
              else (u.0, goes_on u.1 changes) in
            waits out.0 p ≡ false
      pick true c u h k = absurd (cc)
      pick false true u h k = k
      pick false false u h k = k

  -- No failure is left unhandled: after the rules for redoing, replacing and propagating, a running plan
  -- that had failed, is no behaviour and not retired, and has a parent and an active entry point, no
  -- longer asks for failure handling, however often it has failed.
  pub repair_rules-handled :
      (changes p : ℕ) (w : World) (record_ : PlanChange)
      → IsRepairable 1 (w.plan_at p)
      → is_some (w.plan_at p).entry_point ≡ true
      → waits (repair_rules rules changes p (w, record_)).0 p ≡ false
  unfolding repair_rules apply update_change
  repair_rules-handled changes p w record_ h ep =
      let redone = plan_redo_rule rules p w in
      let first = update_change record_ redone.1 redone.0 in
      let replaced = plan_replace_rule rules p first.0 in
      propagate-handled changes p (update_change first.1 replaced.1 replaced.0)
        (plan_replace_rule-Stage p first.0 (plan_redo_rule-Stage p w ep h))
