-- ===== src/RunningPlan.antt =====
-- RunningPlan.h: a plan or a behaviour in execution, and the store of those. A pointer to a running
-- plan is an address, and so are the parent and the children; a state, a plan and a condition of
-- the plan model are given by their ids. What a running plan asks of the rest of the engine stands in
-- `Env`: the plan model, the user's conditions and behaviours, and the clock, which is read once. Its
-- calls of other components are recorded, the last one first.
pub mod Status
pub mod Tree
pub mod Sample
pub mod Message
use alica_engine.Common.{
  ℕ, Bool, true, false, List, [], ◌∷◌, Option, none, some, if◌then◌else◌, ◌==◌,
}
use alica_engine.Common.Int.{ℤ}
use alica_engine.Model.{State, EntryPoint, Plan}
use alica_engine.Assignment.{Assignment}
use alica_engine.Authority.CycleManager.{CycleManager}
use alica_engine.Constraint.ConditionStore.{Condition, ConditionStore}

pub data PlanStatus : Type 0 where
  running success failed : PlanStatus

pub data PlanActivity : Type 0 where
  inactive active retired : PlanActivity

pub data EvalStatus : Type 0 where
  holds fails unknown : EvalStatus

pub record PlanStatusInfo : Type 0 where
  pub status : PlanStatus
  pub activity : PlanActivity
  pub state_start_time : ℕ
  pub plan_start_time : ℕ
  pub fail_count : ℕ
  pub fail_handling_needed : Bool
  pub allocation_needed : Bool
  pub run_time_condition_status : EvalStatus

-- An entry of `_failedSubPlans`.
pub record FailedPlan : Type 0 where
  pub plan : Option ℕ
  pub failures : ℕ

-- `plan`, `entry_point` and `state` are the active triple.
pub record RunningPlan : Type 0 where
  pub plan : Option ℕ
  pub entry_point : Option EntryPoint
  pub state : Option ℕ
  pub info : PlanStatusInfo
  pub children : List ℕ
  pub parent : Option ℕ
  pub basic_behaviour : Option ℕ
  pub plan_type : Option ℕ
  pub assignment : Assignment
  pub cycle_management : CycleManager
  pub constraint_store : ConditionStore
  pub behaviour : Bool
  pub failed_sub_plans : List FailedPlan

-- Calls of the behaviour pool, the team observer, the team manager and the sync module.
pub data Call : Type 0 where
  start_behaviour stop_behaviour : ℕ → Call
  left_plan : Option ℕ → Call
  set_success : Option ℕ → EntryPoint → Call
  set_synchronisation : ℕ → Bool → Call
  follow_sync_transition : ℕ → Call

pub record World : Type 0 where
  pub plan_at : ℕ → RunningPlan
  pub calls : List Call
  pub change_occurred : Bool

pub record Transition : Type 0 where
  pub id : ℕ
  pub out_state : ℕ
  pub pre_condition : Condition
  pub sync_transition : Option ℕ

-- `evaluate` is the user's code: `none` is an exception. `depth` bounds the recursion through the tree
-- of running plans.
pub record Env : Type 0 where
  pub my_id : ℕ
  pub now : ℕ
  pub depth : ℕ
  pub states : ℕ → State
  pub plans_of_state : ℕ → List ℕ
  pub out_transitions : ℕ → List Transition
  pub pre_condition : ℕ → Option Condition
  pub runtime_condition : ℕ → Option Condition
  pub entry_points : ℕ → List EntryPoint
  pub find_entry_point : ℕ → Option EntryPoint
  pub plan_of_type : ℕ → ℤ → Option Plan
  pub evaluate : Condition → ℕ → World → Option Bool
  pub behaviour_status : ℕ → World → PlanStatus

-- Equality of two pointers that may be null.
abbrev pub same_id : Option ℕ → Option ℕ → Bool
same_id none none = true
same_id none (some b) = false
same_id (some a) none = false
same_id (some a) (some b) = a == b

abbrev pub is_retired : RunningPlan → Bool
is_retired r = elim r.info.activity [ inactive ↦ false | active ↦ false | retired ↦ true ]

abbrev pub is_active : RunningPlan → Bool
is_active r = elim r.info.activity [ inactive ↦ false | active ↦ true | retired ↦ false ]

-- Writes through a pointer.
unfoldable pub modify : ℕ → (RunningPlan → RunningPlan) → World → World
modify p f w = record w { plan_at = λ q. if q == p then f (w.plan_at q) else w.plan_at q }

abbrev pub call : Call → World → World
call c w = record w { calls = c ∷ w.calls }

-- A loop over running plans.
abbrev pub each : (ℕ → World → World) → List ℕ → World → World
each f [] w = w
each f (p ∷ ps) w = each f ps (f p w)
