-- ===== src/Assignment/Tests.antt =====
-- The operations of an assignment on a plan of two entry points and three agents.

use mathlib.Core.Option
use alica_engine.Common.{
  ℕ, ◌+◌, ◌≡◌, refl, ◌↔◌, true, [], ◌∷◌, none, some, if◌then◌else◌, ◌==◌, arith,
}
use alica_engine.Common.Int.{pos}
use alica_engine.Model.{EntryPoint, Plan, Distinct}
use alica_engine.Assignment.Pairs.{AgentStatePair}
use alica_engine.Assignment.{Assignment, AssignmentData, is_successful}
use alica_engine.Assignment.Edit.{update_agent, adapt_task_changes_from}
use alica_engine.Assignment.Update.{IsExclusive}
use alica_engine.Assignment.Placement.{state_in, wanted, update_agent-placement}
use alica_engine.Assignment.Adapt.{adapt_task_changes-placement}
use alica_engine.Assignment.Success.{RequiredDone, HasRequired, is_successful_iff}

abbrev entry_point : ℕ → EntryPoint
entry_point i = record {
  id = 10 + i;
  index = i;
  state = 100 + i;
  cardinality = record { lower = pos 1; upper = pos 3 };
  success_required = true;
  plan = 1;
}

abbrev plan : Plan
plan = record { id = 1; entry_points = entry_point 0 ∷ entry_point 1 ∷ [] }

abbrev in_state : ℕ → ℕ → AgentStatePair
in_state a s = record { agent = a; state = s }

abbrev data_before : AssignmentData
data_before = (in_state 4 100 ∷ in_state 5 200 ∷ []) ∷ (in_state 6 101 ∷ []) ∷ []

abbrev before : Assignment
before = record {
  plan = some plan;
  assignment_data = data_before;
  success_data = record { plan = some plan; success_data = (4 ∷ []) ∷ (6 ∷ []) ∷ [] };
  last_utility = pos 0;
}

plan-Distinct : Distinct plan.entry_points
plan-Distinct = ((omega arith, tt), (tt, tt))

data_before-IsExclusive : IsExclusive data_before
data_before-IsExclusive b = ground arith

update_agent-placement_example :
    let d' = (update_agent 5 (entry_point 1) none before).0.assignment_data in
    IsExclusive d'
    × ((b i : ℕ)
        → state_in b i d' ≡ (
            if b == 5
            then if i == 1 then some (wanted 5 (entry_point 1) none 1 data_before) else none
            else state_in b i data_before))
update_agent-placement_example =
    update_agent-placement 5 1 (entry_point 1) none before plan refl plan-Distinct refl
      (omega arith) data_before-IsExclusive

abbrev other : Assignment
other = record before {
  assignment_data = (in_state 5 100 ∷ []) ∷ (in_state 4 101 ∷ in_state 6 101 ∷ []) ∷ [];
}

other-IsExclusive : IsExclusive other.assignment_data
other-IsExclusive b = ground arith

adapt_task_changes-placement_example :
    let d' = (adapt_task_changes_from other before).assignment_data in
    IsExclusive d'
    × ((b i : ℕ)
        → state_in b i d'
          ≡ Option.map
              (Option.get_or (state_in b i data_before))
              (state_in b i other.assignment_data))
adapt_task_changes-placement_example =
    adapt_task_changes-placement other before refl refl other-IsExclusive

is_successful_iff_example : (is_successful before ≡ true) ↔ (
    RequiredDone plan.entry_points before.success_data.success_data × HasRequired plan.entry_points)
is_successful_iff_example = is_successful_iff before plan refl

before-is_successful : is_successful before ≡ true
unfolding is_successful
before-is_successful = refl
