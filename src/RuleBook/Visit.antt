-- ===== src/RuleBook/Visit.antt =====
-- RuleBook::visit: the order in which the rules are applied, and the bound on their applications.

pub mod Bound
use alica_engine.Common.{ℕ, zero, suc, ◌+◌, Bool, true, false, ◌&&◌, not, if◌then◌else◌, ltb}
use alica_engine.RunningPlan.{World, is_retired}
use alica_engine.RuleBook.{PlanChange, is_change, update_change, Rule, RuleEnv}
use alica_engine.RuleBook.Rules.{
  transition_rule, synch_transition_rule, top_fail_rule, allocation_rule, authority_override_rule,
  dynamic_allocation_rule,
}
use alica_engine.RuleBook.Failures.{
  plan_abort_rule, plan_redo_rule, plan_replace_rule, plan_propagation_rule,
}

-- `changeRecord = updateChange(changeRecord, rule(r))`.
unfoldable pub apply : Rule → ℕ → World × PlanChange → World × PlanChange
unfolding update_change
apply rule p (w, record_) = let (w', change) = rule p w in update_change record_ change w'

-- How a round of the loop ends: by a `return` with the answer, by the `break`, or with the record of
-- its changes and the count.
pub data RoundEnd : Type 0 where
  returns : PlanChange → RoundEnd
  breaks : RoundEnd
  goes_on : PlanChange → ℕ → RoundEnd

abbrev pub is_failure : PlanChange → Bool
is_failure PlanChange.no_change = false
is_failure PlanChange.internal_change = false
is_failure PlanChange.success_change = false
is_failure PlanChange.fail_change = true

module _ (rules : RuleEnv) where
  -- The inner loop: transitions are taken while there are any and the bound is not met. The first
  -- argument is fuel; `last` is what the last transition rule returned.
  unfoldable pub transitions : ℕ → ℕ → PlanChange → ℕ → World × PlanChange → World × PlanChange × ℕ
  unfolding transition_rule update_change
  transitions zero changes last p (w, record_) = (w, record_, changes)
  transitions (suc f) changes last p (w, record_) =
      let (w1, record1) = update_change record_ last w in
      let (w2, next) = transition_rule rules p w1 in
      let rest = transitions f (changes + 1) next p (w2, record1) in
      if not (is_change last)
      then (w, record_, changes)
      else if ltb (changes + 1) rules.max_consecutive_changes
      then rest
      else (w, record_, changes + 1)

  -- The rules behind the inner loop, up to those that handle failures.
  unfoldable pub further_rules : Bool → ℕ → World × PlanChange × ℕ → World × PlanChange × ℕ
  unfolding apply transition_rule top_fail_rule allocation_rule authority_override_rule
      dynamic_allocation_rule plan_abort_rule
  further_rules dyn p (w, record_, changes) =
      let allocated = apply (authority_override_rule rules) p (
        apply (allocation_rule rules) p
          (apply (top_fail_rule rules) p (apply (transition_rule rules) p (w, record_)))) in
      let improved = if dyn then apply (dynamic_allocation_rule rules) p allocated else allocated in
      let (w', record') = apply (plan_abort_rule rules) p improved in (w', record', changes)

  unfoldable pub first_rules : ℕ → Bool → ℕ → ℕ → World → World × PlanChange × ℕ
  unfolding transitions apply synch_transition_rule transition_rule further_rules
  first_rules fuel dyn changes p w =
      let (w1, record1) = apply (synch_transition_rule rules) p (w, PlanChange.no_change) in
      let (w2, change) = transition_rule rules p w1 in
      further_rules dyn p (transitions fuel changes change p (w2, record1))

  -- `planReplaceRule` may retire the plan; otherwise a failure may go to the parent.
  unfoldable pub propagate : ℕ → ℕ → World × PlanChange → World × RoundEnd
  unfolding update_change plan_propagation_rule
  propagate changes p (w, record_) =
      let (w', propagated) = plan_propagation_rule rules p w in
      let (w'', record') = update_change record_ propagated w' in
      if is_retired (w.plan_at p)
      then (w, returns record_)
      else if is_change propagated
      then (w'', breaks)
      else (w'', goes_on record' changes)

  -- The rules that handle a failure, where the plan was not just aborted.
  unfoldable pub repair_rules : ℕ → ℕ → World × PlanChange → World × RoundEnd
  unfolding apply plan_redo_rule plan_replace_rule propagate
  repair_rules changes p s =
      propagate changes p (apply (plan_replace_rule rules) p (apply (plan_redo_rule rules) p s))

  unfoldable pub end_round : ℕ → World × PlanChange × ℕ → World × RoundEnd
  unfolding repair_rules
  end_round p (w, record_, changes) =
      if is_failure record_
      then (w, returns PlanChange.fail_change)
      else repair_rules changes p (w, record_)

  unfoldable pub round : ℕ → Bool → ℕ → ℕ → World → World × RoundEnd
  unfolding first_rules end_round
  round fuel dyn changes p w = end_round p (first_rules fuel dyn changes p w)

  -- The test of the outer loop, with what it does again.
  unfoldable pub after_round :
      (PlanChange → ℕ → World → World × PlanChange)
      → PlanChange
      → World × RoundEnd
      → World × PlanChange
  after_round again total (w, returns change) = (w, change)
  after_round again total (w, breaks) = (w, total)
  after_round again total (w, goes_on record_ changes) =
      let next = again record_ (changes + 1) w in
      if not (is_change record_)
      then (w, total)
      else if ltb (changes + 1) rules.max_consecutive_changes
      then next
      else (w, total)

  -- The outer loop, on fuel: `total` is `msChange` and `record_` the record of the last round.
  unfoldable pub visit_loop :
      ℕ → Bool → PlanChange → PlanChange → ℕ → ℕ → World → World × PlanChange
  unfolding round update_change after_round
  visit_loop zero dyn total record_ changes p w = (w, total)
  visit_loop (suc f) dyn total record_ changes p w =
      let (w1, total1) = update_change total record_ w in
      after_round (λ r c v. visit_loop f false total1 r c p v) total1 (round f dyn changes p w1)

  unfoldable pub visit : Rule
  unfolding visit_loop
  visit p w =
      visit_loop (rules.max_consecutive_changes + 2) true PlanChange.no_change PlanChange.no_change
        0 p w
