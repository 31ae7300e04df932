-- ===== src/RuleBook/Failures.antt =====
-- The rules of RuleBook.cpp that find and handle failures.
use alica_engine.Common.{
  ℕ, Bool, true, false, ◌&&◌, ◌||◌, not, Option, none, some, if◌then◌else◌, ◌==◌, ltb,
}
use alica_engine.Model.{StateType, EntryPoint}
use alica_engine.Assignment.{is_valid}
use alica_engine.Authority.CycleManager.{may_do_utility_check}
use alica_engine.RunningPlan.{PlanStatus, RunningPlan, World, same_id, modify}
use alica_engine.RunningPlan.Status.{
  edit_assignment, add_failure, set_allocation_needed, set_failure_handling_needed,
  set_failed_child, use_state, get_status, is_runtime_condition_valid, is_some,
}
use alica_engine.RunningPlan.Tree.{deactivate_children, clear_children, move_all}
use alica_engine.RuleBook.{PlanChange, Rule, RuleEnv}

-- The guard that `planRedoRule`, `planReplaceRule` and `planPropagationRule` share.
unfoldable pub may_repair : RunningPlan → Bool
may_repair r = is_some r.parent && r.info.fail_handling_needed && not r.behaviour

module _ (rules : RuleEnv) where
  abbrev is_success : PlanStatus → Bool
  is_success PlanStatus.running = false
  is_success PlanStatus.success = true
  is_success PlanStatus.failed = false

  abbrev pub in_failure_state : RunningPlan → Bool
  in_failure_state r = elim r.state [
    | none ↦ false
    | some s ↦ elim (rules.env.states s).state_type [
      | StateType.normal ↦ false
      | StateType.success ↦ false
      | StateType.failure ↦ true
    ]
  ]

  unfoldable pub plan_abort_rule : Rule
  unfolding get_status is_runtime_condition_valid is_valid may_do_utility_check modify add_failure
  plan_abort_rule p w =
      let r = w.plan_at p in
      let abort : World → World × PlanChange =
        λ v. (modify p add_failure v, PlanChange.fail_change) in
      let (w', valid) = is_runtime_condition_valid rules.env p w in
      if r.info.fail_handling_needed || r.behaviour
      then (w, PlanChange.no_change)
      else if is_success (get_status rules.env r w)
      then (w, PlanChange.no_change)
      else if not (may_do_utility_check r.cycle_management)
      then (w, PlanChange.no_change)
      else if in_failure_state r || not (is_valid r.assignment)
      then abort w
      else if not valid
      then abort w'
      else (w', PlanChange.no_change)

  -- `planRedoRule` past its guards: back to the initial state, unless that is the active one.
  unfoldable pub redo : EntryPoint → ℕ → World → World × PlanChange
  unfolding modify add_failure set_failure_handling_needed deactivate_children clear_children
      use_state set_allocation_needed
  redo ep p w =
      let cleared =
        clear_children p (
          deactivate_children rules.env.depth p (modify p (set_failure_handling_needed false) w)) in
      let moved =
        modify p (edit_assignment (move_all (some ep) (w.plan_at p).state (some ep.state)))
          cleared in
      if same_id (w.plan_at p).state (some ep.state)
      then (modify p add_failure w, PlanChange.fail_change)
      else (
        modify p (set_allocation_needed true) (use_state rules.env (some ep.state) p moved),
        PlanChange.internal_change,
      )

  unfoldable pub redo_at : Option EntryPoint → Rule
  unfolding redo
  redo_at none p w = (w, PlanChange.no_change)
  redo_at (some ep) p w = redo ep p w

  unfoldable pub plan_redo_rule : Rule
  unfolding redo_at may_repair
  plan_redo_rule p w =
      let r = w.plan_at p in
      if not (may_repair r)
      then (w, PlanChange.no_change)
      else if not (r.info.fail_count == 1)
      then (w, PlanChange.no_change)
      else redo_at r.entry_point p w

  -- `planReplaceRule` past its guards, with the parent.
  unfoldable pub replace_in : ℕ → ℕ → World → World
  unfolding modify deactivate_children set_failed_child set_allocation_needed clear_children
      set_failure_handling_needed
  replace_in q p w = modify p (set_failure_handling_needed false) (
      clear_children q (
        modify q (λ r. set_allocation_needed true (set_failed_child (w.plan_at p).plan r))
          (deactivate_children rules.env.depth q w)))

  unfoldable pub replace_at : Option ℕ → Rule
  unfolding replace_in
  replace_at none p w = (w, PlanChange.no_change)
  replace_at (some q) p w = (replace_in q p w, PlanChange.fail_change)

  unfoldable pub plan_replace_rule : Rule
  unfolding replace_at may_repair
  plan_replace_rule p w =
      let r = w.plan_at p in
      if not (may_repair r)
      then (w, PlanChange.no_change)
      else if not (r.info.fail_count == 2)
      then (w, PlanChange.no_change)
      else replace_at r.parent p w

  unfoldable pub propagate_to : Option ℕ → Rule
  unfolding modify add_failure set_failure_handling_needed
  propagate_to none p w = (w, PlanChange.no_change)
  propagate_to (some q) p w = (
    modify p (set_failure_handling_needed false) (modify q add_failure w),
    PlanChange.fail_change,
  )

  unfoldable pub plan_propagation_rule : Rule
  unfolding propagate_to may_repair
  plan_propagation_rule p w =
      let r = w.plan_at p in
      if not (may_repair r)
      then (w, PlanChange.no_change)
      else if ltb r.info.fail_count 3
      then (w, PlanChange.no_change)
      else propagate_to r.parent p w
