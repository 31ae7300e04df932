-- ===== src/RuleBook/Tests.antt =====
-- The failure of a child of the master plan.
use alica_engine.Common.{◌≡◌, refl, true, false, [], ◌∷◌, none, arith, if◌then◌else◌, ◌==◌}
use alica_engine.Common.Int.{pos}
use alica_engine.RunningPlan.{PlanStatus, RunningPlan, World}
use alica_engine.RunningPlan.Status.{edit_info}
use alica_engine.RunningPlan.Sample.{start, plan_at_start, sample_env}
use alica_engine.RuleBook.{PlanChange, RuleEnv}
use alica_engine.RuleBook.Flags.{waits}
use alica_engine.RuleBook.Repair.{repair_rules-handled}
use alica_engine.RuleBook.Visit.{repair_rules, visit_loop, visit}
use alica_engine.RuleBook.Visit.Bound.{visit-fuel}

abbrev sample_rules : RuleEnv
sample_rules = record {
  env = sample_env;
  max_consecutive_changes = 4;
  active_agents = 1 ∷ [];
  utility_threshold = λ p. pos 0;
  follows = λ t w. false;
  get_plans_for_state = λ p plans agents w. (w, true, []);
  get_best_similar_assignment = λ p agents w. (w, none, pos 0);
}

abbrev failing : RunningPlan → RunningPlan
failing =
    edit_info
      (λ i. record i { fail_count = 1; fail_handling_needed = true; status = PlanStatus.failed })

-- The child has failed once; an idle one has no active entry point.
abbrev failed : World
failed = record start {
  plan_at = λ q. if q == 1 then failing (plan_at_start 1) else plan_at_start q;
}

abbrev idling : World
idling = record start {
  plan_at = λ q.
      if q == 1
      then record (failing (plan_at_start 1)) { entry_point = none; state = none }
      else plan_at_start q;
}

repair_rules-handled_example :
    waits (repair_rules sample_rules 0 1 (failed, PlanChange.no_change)).0 1 ≡ false
repair_rules-handled_example =
    repair_rules-handled sample_rules 0 1 failed PlanChange.no_change
      (record {
        has_parent = refl;
        no_behaviour = refl;
        not_retired = refl;
        failures = omega arith;
      })
      refl

visit-fuel_example :
    visit sample_rules 1 failed
    ≡ visit_loop sample_rules 9 true PlanChange.no_change PlanChange.no_change 0 1 failed
visit-fuel_example = visit-fuel sample_rules 9 1 failed (omega arith)
