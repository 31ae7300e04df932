-- ===== src/RuleBook.antt =====
-- RuleBook.cpp: the rules that an agent applies to a running plan. A rule takes the address of the
-- running plan and returns what it has changed. The plan selector is given in `RuleEnv` by what it
-- returns, and so are the answers of the sync module to `followSyncTransition`. Utilities are whole
-- numbers. Log messages are left out.
pub mod Authority
pub mod Rules
pub mod Failures
pub mod Visit
pub mod Changes
mod Flags
pub mod Repair
pub mod Idle
mod Tests
use alica_engine.Common.{ℕ, Bool, true, false, List, Option, none, some}
use alica_engine.Common.Int.{ℤ}
use alica_engine.RunningPlan.{World, Env}

-- PlanChange.h.
pub data PlanChange : Type 0 where
  no_change internal_change success_change fail_change : PlanChange

abbrev pub is_change : PlanChange → Bool
is_change PlanChange.no_change = false
is_change PlanChange.internal_change = true
is_change PlanChange.success_change = true
is_change PlanChange.fail_change = true

-- The value of `updateChange(cur, update)`, in the order of its tests.
unfoldable pub combine : PlanChange → PlanChange → PlanChange
combine PlanChange.no_change update = update
combine PlanChange.fail_change update = PlanChange.fail_change
combine PlanChange.internal_change PlanChange.no_change = PlanChange.internal_change
combine PlanChange.internal_change PlanChange.internal_change = PlanChange.internal_change
combine PlanChange.internal_change PlanChange.success_change = PlanChange.success_change
combine PlanChange.internal_change PlanChange.fail_change = PlanChange.fail_change
combine PlanChange.success_change PlanChange.no_change = PlanChange.success_change
combine PlanChange.success_change PlanChange.internal_change = PlanChange.success_change
combine PlanChange.success_change PlanChange.success_change = PlanChange.success_change
combine PlanChange.success_change PlanChange.fail_change = PlanChange.fail_change

unfoldable pub update_change : PlanChange → PlanChange → World → World × PlanChange
unfolding combine
update_change cur update w = (
  record w {
    change_occurred = elim (is_change update) [ true ↦ true | false ↦ w.change_occurred ];
  },
  combine cur update,
)

abbrev pub Rule : Type 0
Rule = ℕ → World → World × PlanChange

-- `get_plans_for_state` and `get_best_similar_assignment` are the plan selector's: the world with the
-- running plans that it has made, whether a child was found for each plan, and those children; and a
-- better allocation, with the utility of the present one.
pub record RuleEnv : Type 0 where
  pub env : Env
  pub max_consecutive_changes : ℕ
  pub active_agents : List ℕ
  pub utility_threshold : ℕ → ℤ
  pub follows : ℕ → World → Bool
  pub get_plans_for_state : ℕ → List ℕ → List ℕ → World → World × Bool × List ℕ
  pub get_best_similar_assignment : ℕ → List ℕ → World → World × Option ℕ × ℤ
