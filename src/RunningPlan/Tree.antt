-- ===== src/RunningPlan/Tree.antt =====
-- RunningPlan.cpp: the operations that work on the children of a running plan. The first argument of
-- those that go down the tree bounds the depth; below it nothing is done.
pub mod Deactivate
pub mod Fields
pub mod Move
mod Tests
use alica_engine.Common.{
  ℕ, zero, suc, Bool, true, false, ◌&&◌, ◌||◌, not, List, [], ◌∷◌, ◌++◌, Option, none, some, any,
  erase_if, length, if◌then◌else◌, ◌==◌, leb,
}
use alica_engine.Model.{EntryPoint}
use alica_engine.Assignment.{
  Assignment, AssignmentData, is_any_task_successful, state_of_agent, get_agents_in_state,
}
use alica_engine.Assignment.Edit.{move_all_from_to, adapt_task_changes_from, data_remove_all_not_in}
use alica_engine.Model.{Plan}
use alica_engine.Authority.CycleManager.{may_do_utility_check}
use alica_engine.RunningPlan.{
  PlanStatus, PlanActivity, EvalStatus, RunningPlan, Call, World, Env, same_id, is_retired,
  is_active, modify, call, each,
}
use alica_engine.RunningPlan.Status.{
  edit_info, edit_data, edit_assignment, failures_of, revoke_all_constraints,
  attach_plan_constraints, clear_failed_children, use_state, use_plan, get_status,
  eval_runtime_condition, is_some,
}

abbrev pub set_activity : PlanActivity → RunningPlan → RunningPlan
set_activity a = edit_info (λ i. record i { activity = a })

-- What `deactivate` does to the running plan itself.
unfoldable pub retire : ℕ → World → World
unfolding modify revoke_all_constraints
retire p w = modify p revoke_all_constraints (
    call
      (if (w.plan_at p).behaviour then Call.stop_behaviour p else Call.left_plan (w.plan_at p).plan)
      (modify p (set_activity PlanActivity.retired) w))

unfoldable pub deactivate : ℕ → ℕ → World → World
unfolding retire
deactivate zero p w = w
deactivate (suc d) p w = each (deactivate d) (w.plan_at p).children (retire p w)

unfoldable pub deactivate_children : ℕ → ℕ → World → World
unfolding deactivate
deactivate_children d p w = each (deactivate d) (w.plan_at p).children w

abbrev pub set_parent : Option ℕ → RunningPlan → RunningPlan
set_parent q r = record r { parent = q }

unfoldable pub clear_children : ℕ → World → World
unfolding modify
clear_children p w =
    modify p (λ r. record r { children = [] })
      (each (λ c. modify c (set_parent none)) (w.plan_at p).children w)

unfoldable pub remove_child : ℕ → ℕ → World → World
unfolding modify
remove_child rp p w =
    if any (λ c. c == rp) (w.plan_at p).children
    then modify p (λ r. record r { children = erase_if (λ c. c == rp) r.children })
        (modify rp (set_parent none) w)
    else w

unfoldable pub limit_to_robots : ℕ → List ℕ → ℕ → World → World
unfolding modify data_remove_all_not_in
limit_to_robots zero robots p w = w
limit_to_robots (suc d) robots p w =
    let r = w.plan_at p in
    let (data', touched) = data_remove_all_not_in robots r.state r.assignment.assignment_data in
    let limited = modify p (edit_data (λ _. data')) w in
    let below = each (limit_to_robots d robots) r.children limited in
    if r.behaviour
    then w
    else if not (may_do_utility_check r.cycle_management)
    then w
    else if touched
    then below
    else limited

abbrev pub entry_points_of : Option Plan → List EntryPoint
entry_points_of none = []
entry_points_of (some p) = p.entry_points

-- `moveAllFromTo`, where no pointer is null.
abbrev pub move_all : Option EntryPoint → Option ℕ → Option ℕ → Assignment → Assignment
move_all (some ep) (some from) (some to) a = record a {
  assignment_data = move_all_from_to ep from to (entry_points_of a.plan) a.assignment_data;
}
move_all none from to a = a
move_all (some ep) none to a = a
move_all (some ep) (some from) none a = a

module _ (env : Env) where
  unfoldable pub activate : ℕ → ℕ → World → World
  unfolding modify attach_plan_constraints
  activate zero p w = w
  activate (suc d) p w =
      let started = modify p (set_activity PlanActivity.active) w in
      each (activate d) (w.plan_at p).children (
        modify p (attach_plan_constraints env)
          (if (w.plan_at p).behaviour then call (Call.start_behaviour p) started else started))

  abbrev pub inherit_failures : Option ℕ → RunningPlan → RunningPlan
  inherit_failures none r = r
  inherit_failures (some n) r = edit_info (λ i. record i { fail_count = n }) r

  -- The body of the loop of `addChildren`.
  unfoldable pub add_child : ℕ → ℕ → World → World
  unfolding modify activate
  add_child p c w =
      let linked =
        modify p (λ r. record r { children = r.children ++ c ∷ [] })
          (modify c (set_parent (some p)) w) in
      let counted =
        modify c
          (inherit_failures
            (failures_of (linked.plan_at c).plan (linked.plan_at p).failed_sub_plans))
          linked in
      if is_active (counted.plan_at p) then activate env.depth c counted else counted

  unfoldable pub add_children : List ℕ → ℕ → World → World
  unfolding add_child
  add_children cs p = each (add_child p) cs

  unfoldable pub move_state : ℕ → ℕ → World → World
  unfolding deactivate_children clear_children use_state modify move_all_from_to
      clear_failed_children
  move_state next p w =
      let left = clear_children p (deactivate_children env.depth p w) in
      let r = left.plan_at p in
      modify p clear_failed_children (
        use_state env (some next) p
          (modify p (edit_assignment (move_all r.entry_point r.state (some next))) left))

  -- `getAgentsInState`; a null state is undefined behaviour there.
  abbrev pub agents_in : Option ℕ → AssignmentData → List ℕ
  agents_in none d = []
  agents_in (some s) d = get_agents_in_state (env.states s) d

  -- The branches of `adaptAssignment` on whether the own state changes, for the replacement's children.
  unfoldable pub change_children : Bool → Option ℕ → List ℕ → ℕ → World → World
  unfolding modify deactivate_children clear_children revoke_all_constraints add_children
      limit_to_robots
  change_children true new_state cs p w = add_children cs p (
      clear_children p (
        modify p revoke_all_constraints
          (deactivate_children env.depth p (modify p (set_activity PlanActivity.inactive) w))))
  change_children false new_state cs p w =
      each
        (limit_to_robots env.depth (agents_in new_state (w.plan_at p).assignment.assignment_data))
        (w.plan_at p).children w

  unfoldable pub adapt_assignment : ℕ → ℕ → World → World
  unfolding modify adapt_task_changes_from state_of_agent change_children use_plan use_state
      activate
  adapt_assignment replacement p w =
      let new = w.plan_at replacement in
      let adapted = modify p (edit_assignment (adapt_task_changes_from new.assignment)) w in
      let new_state = state_of_agent env.my_id (adapted.plan_at p).assignment.assignment_data in
      let reactivate = not (same_id (adapted.plan_at p).state new_state) in
      let changed = change_children reactivate new_state new.children p adapted in
      let placed = use_state env new_state p (
        modify p (λ r. record (use_plan env new.plan r) { entry_point = new.entry_point })
          changed) in
      if reactivate then activate env.depth p placed else placed

  abbrev pub same_status : PlanStatus → PlanStatus → Bool
  same_status PlanStatus.running s = elim s [
    | PlanStatus.running ↦ true
    | PlanStatus.success ↦ false
    | PlanStatus.failed ↦ false
  ]
  same_status PlanStatus.success s = elim s [
    | PlanStatus.running ↦ false
    | PlanStatus.success ↦ true
    | PlanStatus.failed ↦ false
  ]
  same_status PlanStatus.failed s = elim s [
    | PlanStatus.running ↦ false
    | PlanStatus.success ↦ false
    | PlanStatus.failed ↦ true
  ]

  unfoldable pub any_status : PlanStatus → List ℕ → World → Bool
  unfolding get_status
  any_status ps [] w = false
  any_status ps (c ∷ cs) w =
      if same_status ps (get_status env (w.plan_at c) w) then true else any_status ps cs w

  unfoldable pub is_any_child_status : PlanStatus → ℕ → World → Bool
  unfolding any_status
  is_any_child_status ps p w = any_status ps (w.plan_at p).children w

  unfoldable pub all_status : PlanStatus → List ℕ → World → Bool
  unfolding get_status
  all_status ps [] w = true
  all_status ps (c ∷ cs) w =
      if not (same_status ps (get_status env (w.plan_at c) w)) then false else all_status ps cs w

  -- In a state, all its plans must be running as well.
  unfoldable pub are_all_children_status : PlanStatus → ℕ → World → Bool
  unfolding all_status
  are_all_children_status ps p w =
      if all_status ps (w.plan_at p).children w
      then elim (w.plan_at p).state [
        | none ↦ true
        | some s ↦ leb (length (env.plans_of_state s)) (length (w.plan_at p).children)
      ]
      else false

  unfoldable pub any_task : List ℕ → World → Bool
  unfolding is_any_task_successful
  any_task [] w = false
  any_task (c ∷ cs) w =
      if (w.plan_at c).behaviour
      then any_task cs w
      else if is_any_task_successful (w.plan_at c).assignment
      then true
      else any_task cs w

  unfoldable pub pre_tick : ℕ → ℕ → World → World
  unfolding eval_runtime_condition
  pre_tick zero p w = w
  pre_tick (suc d) p w =
      let (evaluated, holds) = eval_runtime_condition env p w in
      let below = each (pre_tick d) (w.plan_at p).children evaluated in
      if is_retired (w.plan_at p) then w else below

-- `isDeleteable`, of a behaviour that runs or not.
abbrev pub is_nil {ℓ} : {A : Type ℓ} → List A → Bool
is_nil [] = true
is_nil (x ∷ xs) = false

unfoldable pub is_deleteable : Bool → RunningPlan → Bool
is_deleteable running r = if not (is_nil r.children) then false else elim r.info.activity [
  | PlanActivity.inactive ↦ true
  | PlanActivity.active ↦ false
  | PlanActivity.retired ↦ not r.behaviour || not running
]
