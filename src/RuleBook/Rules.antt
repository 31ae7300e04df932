-- ===== src/RuleBook/Rules.antt =====
-- The rules of RuleBook.cpp. The assertions that a running plan is not retired are left out.
use alica_engine.Common.{
  ℕ, Bool, true, false, ◌&&◌, ◌||◌, not, List, [], ◌∷◌, Option, none, some, length, if◌then◌else◌,
  ltb,
}
use alica_engine.Common.Int.{ℤ, ◌-ℤ◌, ltb_ℤ}
use alica_engine.Model.{StateType, EntryPoint}
use alica_engine.Constraint.ConditionStore.{add_condition}
use alica_engine.Assignment.{Assignment, AssignmentData, is_valid, get_agents_in_state}
use alica_engine.Assignment
use alica_engine.Assignment.Edit.{set_all_to_initial_state}
use alica_engine.Authority.CycleManager.{may_do_utility_check, is_overridden, set_new_alloc_diff}
use alica_engine.Authority.Difference.{Reason}
use alica_engine.Assignment.Edit.{same_plan}
use alica_engine.RunningPlan.{Call, World, Transition, same_id, modify, call}
use alica_engine.RunningPlan.Status.{
  edit_assignment, edit_data, add_failure, clear_failures, set_allocation_needed,
  set_failure_handling_needed, clear_failed_children, use_state, use_entry_point, is_some,
}
use alica_engine.RunningPlan.Tree.{
  add_children, move_state, adapt_assignment, agents_in, entry_points_of,
}
use alica_engine.RuleBook.{PlanChange, Rule, RuleEnv}
use alica_engine.RuleBook.Authority.{apply_assignment}

-- The result of a transition into a state.
abbrev pub arrival : StateType → PlanChange
arrival StateType.normal = PlanChange.internal_change
arrival StateType.success = PlanChange.success_change
arrival StateType.failure = PlanChange.fail_change

module _ (rules : RuleEnv) where
  -- `Condition::evaluate`, which takes an exception for false.
  abbrev pub eval_condition : Transition → ℕ → World → Bool
  eval_condition t p w = elim (rules.env.evaluate t.pre_condition p w) [ none ↦ false | some b ↦ b ]

  abbrev pub out_of : ℕ → World → List Transition
  out_of p w = elim (w.plan_at p).state [ none ↦ [] | some s ↦ rules.env.out_transitions s ]

  abbrev pub take_condition : Transition → ℕ → World → World
  take_condition t p =
      modify p (λ r. record r {
        constraint_store = add_condition (some t.pre_condition) r.constraint_store;
      })

  -- The first transition that is not synchronised and whose condition holds.
  unfoldable pub enabled_transition : List Transition → ℕ → World → Option Transition
  enabled_transition [] p w = none
  enabled_transition (t ∷ ts) p w =
      let rest = enabled_transition ts p w in
      if is_some t.sync_transition then rest else if eval_condition t p w then some t else rest

  -- Takes a transition.
  unfoldable pub follow : Transition → Rule
  unfolding modify move_state set_allocation_needed add_condition
  follow t p w = (
    modify p (set_allocation_needed true)
        (move_state rules.env t.out_state p (take_condition t p w)),
    arrival (rules.env.states t.out_state).state_type,
  )

  unfoldable pub transition_rule : Rule
  unfolding enabled_transition follow
  transition_rule p w = elim (enabled_transition (out_of p w) p w) [
    | none ↦ (w, PlanChange.no_change)
    | some t ↦ follow t p w
  ]

  -- The loop of `synchTransitionRule`: the transition that the team takes, if there is one.
  unfoldable pub synched_transition : List Transition → ℕ → World → World × Option Transition
  synched_transition [] p w = (w, none)
  synched_transition (t ∷ ts) p w =
      let skip = synched_transition ts p w in
      let asked = call (Call.follow_sync_transition t.id) w in
      let refused = synched_transition ts p (call (Call.set_synchronisation t.id false) asked) in
      let stated =
        synched_transition ts p
          (call (Call.set_synchronisation t.id (eval_condition t p asked)) asked) in
      if not (is_some t.sync_transition)
      then skip
      else if rules.follows t.id w
      then if eval_condition t p asked then (asked, some t) else refused
      else stated

  unfoldable pub synch_transition_rule : Rule
  unfolding synched_transition follow
  synch_transition_rule p w =
      let (asked, taken) = synched_transition (out_of p w) p w in
      elim taken [ none ↦ (asked, PlanChange.no_change) | some t ↦ follow t p asked ]

  -- The task of the master plan, whose plan has exactly one entry point.
  abbrev pub first_entry_point : Option ℕ → Option EntryPoint
  first_entry_point none = none
  first_entry_point (some plan) = elim (rules.env.entry_points plan) [
    | [] ↦ none
    | ep ∷ eps ↦ some ep
  ]

  abbrev pub all_to_initial_state : EntryPoint → AssignmentData → AssignmentData
  all_to_initial_state ep = set_all_to_initial_state rules.active_agents ep 0

  -- A failure of the top plan resets it.
  unfoldable pub reset_top : EntryPoint → ℕ → World → World
  unfolding modify set_failure_handling_needed clear_failures use_entry_point set_allocation_needed
      use_state clear_failed_children Assignment.clear set_all_to_initial_state
  reset_top ep p w = modify p clear_failed_children (
      use_state rules.env (some ep.state) p (
        modify p
          (λ r.
            edit_data (all_to_initial_state ep)
              (edit_assignment Assignment.clear (set_allocation_needed true r)))
          (use_entry_point rules.env (some ep) p
            (modify p (λ r. clear_failures (set_failure_handling_needed false r)) w))))

  unfoldable pub top_fail_rule : Rule
  unfolding reset_top
  top_fail_rule p w =
      let r = w.plan_at p in
      if is_some r.parent
      then (w, PlanChange.no_change)
      else if r.info.fail_handling_needed
      then elim (first_entry_point r.plan) [
        | none ↦ (w, PlanChange.no_change)
        | some ep ↦ (reset_top ep p w, PlanChange.internal_change)
      ]
      else (w, PlanChange.no_change)

  -- What `allocationRule` does with the answer of the plan selector.
  unfoldable pub adopt_children : ℕ → ℕ → World × Bool × List ℕ → World × PlanChange
  unfolding modify add_failure add_children
  adopt_children wanted p (w, ok, children) =
      if not ok || ltb (length children) wanted
      then (modify p add_failure w, PlanChange.fail_change)
      else (
        add_children rules.env children p w,
        elim children [ [] ↦ PlanChange.no_change | c ∷ cs ↦ PlanChange.internal_change ],
      )

  -- A null state is undefined behaviour there.
  unfoldable pub allocation_rule : Rule
  unfolding modify set_allocation_needed adopt_children
  allocation_rule p w =
      if not (w.plan_at p).info.allocation_needed
      then (w, PlanChange.no_change)
      else let w' = modify p (set_allocation_needed false) w in
        elim (w.plan_at p).state [
          | none ↦ (w', PlanChange.no_change)
          | some s ↦
              let agents =
                get_agents_in_state (rules.env.states s) (w.plan_at p).assignment.assignment_data in
              let plans = rules.env.plans_of_state s in
              adopt_children (length plans) p (rules.get_plans_for_state p plans agents w')
        ]

  unfoldable pub authority_override_rule : Rule
  unfolding apply_assignment
  authority_override_rule p w =
      let (w', applied) = apply_assignment rules.env p w in
      if (w.plan_at p).behaviour
      then (w, PlanChange.no_change)
      else if is_overridden (w.plan_at p).cycle_management
      then (w', if applied then PlanChange.internal_change else PlanChange.no_change)
      else (w, PlanChange.no_change)

  -- The plan takes the better allocation `q`.
  unfoldable pub change_allocation : ℕ → ℕ → World → World
  unfolding modify adapt_assignment set_new_alloc_diff set_allocation_needed
  change_allocation q p w =
      let old = (w.plan_at p).assignment in
      let new = (w.plan_at q).assignment in
      let recorded =
        modify p
          (λ r. record r {
            cycle_management =
                set_new_alloc_diff Reason.utility (same_plan old.plan new.plan)
                  (entry_points_of old.plan) old.assignment_data (entry_points_of new.plan)
                  new.assignment_data r.cycle_management;
          })
          w in
      let adapted = adapt_assignment rules.env q p recorded in
      if is_some (adapted.plan_at p).state
        && not (same_id (adapted.plan_at p).state (recorded.plan_at p).state)
      then modify p (set_allocation_needed true) adapted
      else adapted

  unfoldable pub compare_allocations : ℕ → World × Option ℕ × ℤ → World × PlanChange
  unfolding change_allocation
  compare_allocations p (w, none, current) = (w, PlanChange.no_change)
  compare_allocations p (w, some q, current) = elim (w.plan_at p).plan [
    | none ↦ (w, PlanChange.no_change)
    | some plan ↦
        if ltb_ℤ (rules.utility_threshold plan) ((w.plan_at q).assignment.last_utility -ℤ current)
        then (change_allocation q p w, PlanChange.internal_change)
        else (w, PlanChange.no_change)
  ]

  unfoldable pub dynamic_allocation_rule : Rule
  unfolding compare_allocations
  dynamic_allocation_rule p w =
      let r = w.plan_at p in
      if r.info.allocation_needed || r.behaviour then (w, PlanChange.no_change) else elim r.parent [
        | none ↦ (w, PlanChange.no_change)
        | some q ↦
            if not (may_do_utility_check r.cycle_management)
            then (w, PlanChange.no_change)
            else compare_allocations p (
                rules.get_best_similar_assignment p
                  (agents_in rules.env (w.plan_at q).state (w.plan_at q).assignment.assignment_data)
                  w)
      ]
