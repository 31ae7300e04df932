-- ===== src/RunningPlan/Status.antt =====
-- RunningPlan.cpp: the operations on one running plan.
use mathlib.Core.Option
use alica_engine.Common.{
  ℕ, ◌+◌, Bool, true, false, List, [], ◌∷◌, Option, none, some, find_if, if◌then◌else◌,
}
use alica_engine.Model.{StateType, EntryPoint}
use alica_engine.Collections.SuccessCollection.{push_at}
use alica_engine.Constraint.ConditionStore.{Condition, ConditionStore, add_condition}
use alica_engine.Constraint.ConditionStore
use alica_engine.Assignment.{Assignment, AssignmentData, is_successful}
use alica_engine.Assignment.Edit.{remove_agent, add_agent}
use alica_engine.RunningPlan.{
  PlanStatus, EvalStatus, PlanStatusInfo, FailedPlan, RunningPlan, Call, World, Env, same_id,
  modify, call,
}

abbrev pub edit_info : (PlanStatusInfo → PlanStatusInfo) → RunningPlan → RunningPlan
edit_info f r = record r { info = f r.info }

unfoldable pub set_allocation_needed : Bool → RunningPlan → RunningPlan
set_allocation_needed need = edit_info (λ i. record i { allocation_needed = need })

-- What `setFailureHandlingNeeded(false)` makes of the status.
abbrev pub recovered : PlanStatus → PlanStatus
recovered PlanStatus.running = PlanStatus.running
recovered PlanStatus.success = PlanStatus.success
recovered PlanStatus.failed = PlanStatus.running

unfoldable pub set_failure_handling_needed : Bool → RunningPlan → RunningPlan
set_failure_handling_needed true =
    edit_info (λ i. record i { status = PlanStatus.failed; fail_handling_needed = true })
set_failure_handling_needed false =
    edit_info (λ i. record i { status = recovered i.status; fail_handling_needed = false })

unfoldable pub add_failure : RunningPlan → RunningPlan
unfolding set_failure_handling_needed
add_failure r =
    set_failure_handling_needed true (edit_info (λ i. record i { fail_count = i.fail_count + 1 }) r)

unfoldable pub clear_failures : RunningPlan → RunningPlan
clear_failures = edit_info (λ i. record i { fail_count = 0 })

unfoldable pub clear_failed_children : RunningPlan → RunningPlan
clear_failed_children r = record r { failed_sub_plans = [] }

unfoldable pub count_failure : Option ℕ → List FailedPlan → List FailedPlan
count_failure child [] = record { plan = child; failures = 1 } ∷ []
count_failure child (f ∷ fs) =
    if same_id f.plan child
    then record f { failures = f.failures + 1 } ∷ fs
    else f ∷ count_failure child fs

unfoldable pub set_failed_child : Option ℕ → RunningPlan → RunningPlan
unfolding count_failure
set_failed_child child r = record r { failed_sub_plans = count_failure child r.failed_sub_plans }

abbrev pub failures_of : Option ℕ → List FailedPlan → Option ℕ
failures_of child fs = Option.map (λ f. f.failures) (find_if (λ f. same_id f.plan child) fs)

unfoldable pub revoke_all_constraints : RunningPlan → RunningPlan
unfolding ConditionStore.clear
revoke_all_constraints r = record r { constraint_store = ConditionStore.clear r.constraint_store }

abbrev pub edit_assignment : (Assignment → Assignment) → RunningPlan → RunningPlan
edit_assignment f r = record r { assignment = f r.assignment }

abbrev pub edit_data : (AssignmentData → AssignmentData) → RunningPlan → RunningPlan
edit_data f = edit_assignment (λ a. record a { assignment_data = f a.assignment_data })

abbrev pub same_entry_point : Option EntryPoint → Option EntryPoint → Bool
same_entry_point a b = same_id (Option.map (λ e. e.id) a) (Option.map (λ e. e.id) b)

-- `editSuccessData(ep).push_back(agent)`. A null entry point, which is undefined behaviour, changes
-- nothing.
abbrev pub push_success : ℕ → Option EntryPoint → Assignment → Assignment
push_success agent none a = a
push_success agent (some ep) a = record a {
  success_data = record a.success_data {
    success_data = push_at ep.index agent a.success_data.success_data;
  };
}

abbrev pub is_some {ℓ} : {A : Type ℓ} → Option A → Bool
is_some none = false
is_some (some a) = true

module _ (env : Env) where
  unfoldable pub attach_plan_constraints : RunningPlan → RunningPlan
  unfolding add_condition
  attach_plan_constraints r = elim r.plan [
    | none ↦ r
    | some plan ↦ record r {
      constraint_store =
          add_condition (env.runtime_condition plan)
            (add_condition (env.pre_condition plan) r.constraint_store);
    }
  ]

  abbrev pub start_state : RunningPlan → RunningPlan
  start_state = edit_info (λ i. record i { state_start_time = env.now })

  -- The body of `useState` for a state of the given type that is not the active one.
  unfoldable pub enter_typed : StateType → ℕ → RunningPlan → RunningPlan
  enter_typed StateType.normal s r = record (start_state r) { state = some s }
  enter_typed StateType.failure s r =
      record (edit_info (λ i. record i { status = PlanStatus.failed }) (start_state r)) {
        state = some s;
      }
  enter_typed StateType.success s r = record (start_state r) {
    state = some s;
    assignment = push_success env.my_id r.entry_point r.assignment;
  }

  unfoldable pub enter_state : Option ℕ → RunningPlan → RunningPlan
  unfolding enter_typed
  enter_state none r = record (start_state r) { state = none }
  enter_state (some s) r = enter_typed (env.states s).state_type s r

  abbrev pub success_call : Option ℕ → Option EntryPoint → World → World
  success_call plan none w = w
  success_call plan (some ep) w = call (Call.set_success plan ep) w

  -- The call of the team manager in `useState`.
  unfoldable pub notify_typed : StateType → RunningPlan → World → World
  notify_typed StateType.normal r w = w
  notify_typed StateType.failure r w = w
  notify_typed StateType.success r w = success_call r.plan r.entry_point w

  unfoldable pub notify_success : Option ℕ → RunningPlan → World → World
  unfolding notify_typed
  notify_success none r w = w
  notify_success (some s) r w = notify_typed (env.states s).state_type r w

  unfoldable pub use_state : Option ℕ → ℕ → World → World
  unfolding enter_state notify_success modify
  use_state s p w =
      if same_id (w.plan_at p).state s
      then w
      else notify_success s (w.plan_at p) (modify p (enter_state s) w)

  unfoldable pub use_plan : Option ℕ → RunningPlan → RunningPlan
  unfolding revoke_all_constraints
  use_plan plan r =
      if same_id r.plan plan
      then r
      else record (edit_info
          (λ i. record i {
            plan_start_time = env.now;
            run_time_condition_status = EvalStatus.unknown;
          })
          (revoke_all_constraints r)) { plan = plan }

  unfoldable pub use_entry_point : Option EntryPoint → ℕ → World → World
  unfolding use_state modify remove_agent add_agent
  use_entry_point value p w =
      if same_entry_point (w.plan_at p).entry_point value then w else elim value [
        | none ↦
            modify p (λ r. record (edit_data (remove_agent env.my_id) r) { entry_point = none }) w
        | some ep ↦ modify p (edit_data (add_agent env.my_id ep ep.state)) (
            use_state (some ep.state) p (
              modify p
                (λ r. record (edit_data (remove_agent env.my_id) r) { entry_point = some ep }) w))
      ]

  -- `getStatus`, of a behaviour or a plan.
  unfoldable pub get_status : RunningPlan → World → PlanStatus
  unfolding is_successful
  get_status r w = elim r.basic_behaviour [
    | some b ↦ env.behaviour_status b w
    | none ↦ if is_successful r.assignment then PlanStatus.success else r.info.status
  ]

  -- `evalPreCondition`; a null plan fails an assertion there.
  unfoldable pub eval_pre_condition : ℕ → World → Bool
  eval_pre_condition p w = elim (w.plan_at p).plan [
    | none ↦ false
    | some plan ↦ elim (env.pre_condition plan) [
      | none ↦ true
      | some c ↦ elim (env.evaluate c p w) [ none ↦ false | some b ↦ b ]
    ]
  ]

  abbrev of_bool : Bool → EvalStatus
  of_bool true = EvalStatus.holds
  of_bool false = EvalStatus.fails

  -- The value of the runtime condition.
  abbrev pub runtime_value : ℕ → World → Bool
  runtime_value p w = elim (w.plan_at p).plan [
    | none ↦ false
    | some plan ↦ elim (env.runtime_condition plan) [
      | none ↦ true
      | some c ↦ elim (env.evaluate c p w) [ none ↦ false | some b ↦ b ]
    ]
  ]

  -- `evalRuntimeCondition` keeps the value; it throws for a null plan.
  unfoldable pub eval_runtime_condition : ℕ → World → World × Bool
  unfolding modify
  eval_runtime_condition p w = (
    modify p (edit_info (λ i. record i { run_time_condition_status = of_bool (runtime_value p w) }))
        w,
    runtime_value p w,
  )

  unfoldable pub is_runtime_condition_valid : ℕ → World → World × Bool
  unfolding eval_runtime_condition
  is_runtime_condition_valid p w = elim (w.plan_at p).info.run_time_condition_status [
    | EvalStatus.holds ↦ (w, true)
    | EvalStatus.fails ↦ (w, false)
    | EvalStatus.unknown ↦ eval_runtime_condition p w
  ]
