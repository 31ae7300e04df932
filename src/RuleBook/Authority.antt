-- ===== src/RuleBook/Authority.antt =====
-- CycleManager::applyAssignment of allocationauthority/CycleManager.cpp, which acts on the running plan,
-- and the constructor of an Assignment from an authoritative allocation.
use alica_engine.Common.{
  ℕ, zero, suc, Bool, true, false, ◌&&◌, ◌||◌, not, List, [], ◌∷◌, map, Option, none, some,
  if◌then◌else◌, ◌==◌,
}
use alica_engine.Common.Int.{ℤ, pos}
use alica_engine.Model.{EntryPoint, Plan}
use alica_engine.Collections.SuccessCollection
use alica_engine.Assignment.{Assignment, AssignmentData, get_entry_point_of_agent}
use alica_engine.Assignment.Edit.{update_agent}
use alica_engine.Authority.CycleManager.{EntryPointRobots, AllocationAuthorityInfo}
use alica_engine.RunningPlan.{World, Env, modify, each}
use alica_engine.RunningPlan.Status.{
  edit_assignment, set_allocation_needed, clear_failed_children, use_plan, use_entry_point,
}
use alica_engine.RunningPlan.Tree.{deactivate_children, clear_children, limit_to_robots, agents_in}

-- The agents of each entry point, in its initial state. A missing entry is undefined behaviour.
unfoldable pub placed : List EntryPoint → List EntryPointRobots → AssignmentData
placed [] eprs = []
placed (ep ∷ eps) [] = [] ∷ placed eps []
placed (ep ∷ eps) (epr ∷ eprs) =
    map (λ agent. record { agent = agent; state = ep.state }) epr.robots ∷ placed eps eprs

unfoldable pub from_authority : Plan → AllocationAuthorityInfo → Assignment
unfolding placed SuccessCollection.for_plan
from_authority p aai = record {
  plan = some p;
  assignment_data = placed p.entry_points aai.entry_point_robots;
  success_data = SuccessCollection.for_plan p;
  last_utility = pos 0;
}

-- What the loops of `applyAssignment` keep: the assignment, `myEntryPoint`, whether this agent was
-- moved, and whether another one was.
pub record Applied : Type 0 where
  pub assignment : Assignment
  pub my_entry_point : Option EntryPoint
  pub modified_self : Bool
  pub modified : Bool

module _ (env : Env) where
  unfoldable pub apply_robots : EntryPoint → List ℕ → Applied → Applied
  unfolding update_agent
  apply_robots e [] s = s
  apply_robots e (robot ∷ robots) s =
      let (a, changed) = update_agent robot e none s.assignment in
      let mine = changed && robot == env.my_id in
      apply_robots e robots (record {
        assignment = a;
        my_entry_point = if mine then some e else s.my_entry_point;
        modified_self = mine || s.modified_self;
        modified = (changed && not (robot == env.my_id)) || s.modified;
      })

  -- An unknown entry point, which is undefined behaviour, changes nothing.
  unfoldable pub apply_entries : List EntryPointRobots → Applied → Applied
  unfolding apply_robots
  apply_entries [] s = s
  apply_entries (epr ∷ eprs) s = apply_entries eprs (elim (env.find_entry_point epr.entrypoint) [
    | none ↦ s
    | some e ↦ apply_robots e epr.robots s
  ])

  abbrev pub is_plan : Option ℕ → ℤ → Bool
  is_plan none id = false
  is_plan (some plan) (pos id) = plan == id
  is_plan (some plan) (alica_engine.Common.Int.negsuc id) = false

  -- After the allocation was adopted: the own task is entered anew, or the children are limited.
  unfoldable pub settle : Option EntryPoint → Bool → ℕ → World → World
  unfolding use_entry_point deactivate_children clear_children clear_failed_children
      set_allocation_needed modify limit_to_robots
  settle mine true p w =
      modify p (λ r. set_allocation_needed true (clear_failed_children r))
        (clear_children p (deactivate_children env.depth p (use_entry_point env mine p w)))
  settle mine false p w = elim (w.plan_at p).state [
    | none ↦ w
    | some s ↦
        each
          (limit_to_robots env.depth
            (agents_in env (some s) (w.plan_at p).assignment.assignment_data))
          (w.plan_at p).children w
  ]

  -- Another plan of the same plan type; a null type is undefined behaviour.
  unfoldable pub adopt_plan : AllocationAuthorityInfo → ℕ → World → World × Bool
  unfolding from_authority use_plan settle modify
  adopt_plan aai p w = elim (w.plan_at p).plan_type [
    | none ↦ (w, false)
    | some type ↦
        if not (is_plan (some type) aai.plan_type)
        then (w, false)
        else elim (env.plan_of_type type aai.plan_id) [
          | none ↦ (w, false)
          | some new ↦
              let a = from_authority new aai in
              (
                settle (get_entry_point_of_agent env.my_id a) true p
                    (modify p (λ r. record (use_plan env (some new.id) r) { assignment = a }) w),
                true,
              )
        ]
  ]

  unfoldable pub apply_assignment : ℕ → World → World × Bool
  unfolding adopt_plan apply_entries settle modify
  apply_assignment p w =
      let r = w.plan_at p in
      let aai = r.cycle_management.fixed_allocation in
      let s = apply_entries aai.entry_point_robots (record {
        assignment = r.assignment;
        my_entry_point = none;
        modified_self = false;
        modified = false;
      }) in
      elim aai.authority [
        | none ↦ (w, false)
        | some authority ↦ if not (is_plan r.plan aai.plan_id) then adopt_plan aai p w else (
          settle s.my_entry_point s.modified_self p
              (modify p (edit_assignment (λ _. s.assignment)) w),
          s.modified_self || s.modified,
        )
      ]
