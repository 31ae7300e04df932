-- ===== src/RunningPlan/Sample.antt =====
-- A sample of running plans: a master plan with one child plan, which runs one behaviour.
use alica_engine.Common.{
  ℕ, zero, suc, Bool, true, false, List, [], ◌∷◌, Option, none, some, if◌then◌else◌, ◌==◌,
}
use alica_engine.RunningPlan.Tree.Deactivate.{Ranked}
use alica_engine.Common.{arith}
use alica_engine.Common.Int.{pos}
use alica_engine.Model.{StateType, EntryPoint, Plan}
use alica_engine.Authority.CycleManager.{CycleState, CycleManager, no_info}
use alica_engine.RunningPlan.{PlanStatus, PlanActivity, EvalStatus, RunningPlan, World, Env}

abbrev pub task : EntryPoint
task = record {
  id = 10;
  index = 0;
  state = 1;
  cardinality = record { lower = pos 0; upper = pos 3 };
  success_required = false;
  plan = 7;
}

abbrev pub master : Plan
master = record { id = 7; entry_points = task ∷ [] }

abbrev pub idle_manager : CycleManager
idle_manager = record {
  cycle_state = CycleState.observing;
  allocation_history = [];
  newest = 0;
  max_allocation_cycles = 3;
  enabled = false;
  my_id = 1;
  override_timestamp = 0;
  minimal_override_interval = 0;
  maximal_override_interval = 0;
  override_shout_interval = 0;
  override_shout_time = 0;
  fixed_allocation = no_info;
}

-- A running plan with the given children, in the state 2 of the master plan's task.
abbrev pub running_plan : Bool → Option ℕ → List ℕ → RunningPlan
running_plan behaviour parent children = record {
  plan = some 7;
  entry_point = some task;
  state = some 2;
  info = record {
    status = PlanStatus.running;
    activity = PlanActivity.active;
    state_start_time = 0;
    plan_start_time = 0;
    fail_count = 0;
    fail_handling_needed = false;
    allocation_needed = false;
    run_time_condition_status = EvalStatus.unknown;
  };
  children = children;
  parent = parent;
  basic_behaviour = none;
  plan_type = none;
  assignment = record {
    plan = some master;
    assignment_data = (record { agent = 1; state = 2 } ∷ record { agent = 4; state = 3 } ∷ []) ∷ [];
    success_data = record { plan = some master; success_data = [] ∷ [] };
    last_utility = pos 0;
  };
  cycle_management = idle_manager;
  constraint_store = record { active_conditions = []; active_var2_cond_map = [] };
  behaviour = behaviour;
  failed_sub_plans = [];
}

abbrev pub plan_at_start : ℕ → RunningPlan
plan_at_start zero = running_plan false none (1 ∷ [])
plan_at_start (suc zero) = running_plan false (some 0) (2 ∷ [])
plan_at_start (suc (suc p)) = running_plan true (some 1) []

abbrev pub start : World
start = record { plan_at = plan_at_start; calls = []; change_occurred = false }

-- The state 3 is a success state.
abbrev pub sample_env : Env
sample_env = record {
  my_id = 1;
  now = 50;
  depth = 5;
  states = λ s. record {
    id = s;
    entry_point = 0;
    state_type = if s == 3 then StateType.success else StateType.normal;
  };
  plans_of_state = λ s. [];
  out_transitions = λ s. [];
  pre_condition = λ p. none;
  runtime_condition = λ p. none;
  entry_points = λ p. task ∷ [];
  find_entry_point = λ e. some task;
  plan_of_type = λ t p. none;
  evaluate = λ c p w. some true;
  behaviour_status = λ b w. PlanStatus.running;
}

abbrev pub rank : ℕ → ℕ
rank zero = 3
rank (suc zero) = 2
rank (suc (suc p)) = 0

pub start-Ranked : Ranked rank start
start-Ranked zero c m = ground arith
start-Ranked (suc zero) c m = ground arith
start-Ranked (suc (suc p)) c m = ground arith
