-- ===== src/Assignment.antt =====
-- Assignment.cpp and Assignment.h: who works on which entry point of a plan, in which state, and who
-- has finished. `assignment_data` holds one list for each entry point, at the entry point's index.
-- The utility is an integer, in the fixed-point unit of `PartialAssignment::compare`.
pub mod Pairs
pub mod Edit
pub mod Update
pub mod Placement
pub mod Bulk
pub mod Adapt
pub mod Limit
pub mod Success
mod Tests
use mathlib.Core.Option
use mathlib.Core.List.{flat_map, tail}
use alica_engine.Common.{
  ℕ, zero, suc, ◌+◌, ◌-◌, Bool, true, false, ◌&&◌, ◌||◌, not, List, [], ◌∷◌, ◌++◌, map, Option,
  none, some, any, find_if, keep, contains, length, get_elem?, set, remove_at, if◌then◌else◌, ◌==◌,
  ltb, leb,
}
use alica_engine.Common.Int.{ℤ, pos, leb_ℤ, ltb_ℤ}
use alica_engine.Model.{EntryPoint, Plan, State, is_entry_point}
use alica_engine.Model
use alica_engine.Collections.SuccessCollection.{SuccessCollection}
use alica_engine.Collections.SuccessCollection
use Pairs.{
  AgentStatePair, AgentStatePairs, is_agent, has_agent, get_state_of_agent, remove_all_in,
  set_state_of_agent, add, remove, agents,
}

abbrev pub AssignmentData : Type 0
AssignmentData = List AgentStatePairs

pub record Assignment : Type 0 where
  pub plan : Option Plan
  pub assignment_data : AssignmentData
  pub success_data : SuccessCollection
  pub last_utility : ℤ

-- The constructor for a plan.
unfoldable pub for_plan : Plan → Assignment
unfolding SuccessCollection.for_plan
for_plan p = record {
  plan = some p;
  assignment_data = map (λ _. []) p.entry_points;
  success_data = SuccessCollection.for_plan p;
  last_utility = pos 0;
}

-- The loops over the entry points with their lists of agents and of successes.
unfoldable pub all_valid : List EntryPoint → AssignmentData → List (List ℕ) → Bool
unfolding Model.contains
all_valid [] d g = true
all_valid (ep ∷ eps) [] g = false
all_valid (ep ∷ eps) (l ∷ d) [] = false
all_valid (ep ∷ eps) (l ∷ d) (done ∷ g) =
    if not (Model.contains ep.cardinality (pos (length l + length done)))
    then false
    else all_valid eps d g

unfoldable pub is_valid : Assignment → Bool
unfolding all_valid
is_valid a = elim a.plan [
  | none ↦ false
  | some p ↦ all_valid p.entry_points a.assignment_data a.success_data.success_data
]

abbrev is_nil {ℓ} : {A : Type ℓ} → List A → Bool
is_nil [] = true
is_nil (x ∷ xs) = false

-- `_successData[i]` is non-empty and reaches the minimum of the entry point.
abbrev pub task_done : EntryPoint → List ℕ → Bool
task_done ep done = not (is_nil done || ltb_ℤ (pos (length done)) ep.cardinality.lower)

-- The loop of `isSuccessful`, with `ret`.
unfoldable pub required_done : List EntryPoint → List (List ℕ) → Bool → Bool
required_done [] g ret = ret
required_done (ep ∷ eps) [] ret = false
required_done (ep ∷ eps) (done ∷ g) ret =
    if ep.success_required && not (task_done ep done)
    then false
    else required_done eps g (ep.success_required || ret)

unfoldable pub is_successful : Assignment → Bool
unfolding required_done
is_successful a = elim a.plan [
  | none ↦ false
  | some p ↦ required_done p.entry_points a.success_data.success_data false
]

unfoldable pub any_done : List EntryPoint → List (List ℕ) → Bool
any_done [] g = false
any_done (ep ∷ eps) [] = false
any_done (ep ∷ eps) (done ∷ g) = if task_done ep done then true else any_done eps g

unfoldable pub is_any_task_successful : Assignment → Bool
unfolding any_done
is_any_task_successful a = elim a.plan [
  | none ↦ false
  | some p ↦ any_done p.entry_points a.success_data.success_data
]

unfoldable pub has_agent_in : ℕ → AssignmentData → Bool
has_agent_in id = any (has_agent id)

-- The entry point beside the first list that has the agent.
unfoldable pub entry_point_of_agent : ℕ → List EntryPoint → AssignmentData → Option EntryPoint
entry_point_of_agent id eps [] = none
entry_point_of_agent id [] (l ∷ d) = none
entry_point_of_agent id (ep ∷ eps) (l ∷ d) =
    if has_agent id l then some ep else entry_point_of_agent id eps d

unfoldable pub get_entry_point_of_agent : ℕ → Assignment → Option EntryPoint
unfolding entry_point_of_agent
get_entry_point_of_agent id a =
    Option.bind a.plan (λ p. entry_point_of_agent id p.entry_points a.assignment_data)

-- `Assignment::getStateOfAgent`: the state in the first list that has one.
unfoldable pub state_of_agent : ℕ → AssignmentData → Option ℕ
state_of_agent id [] = none
state_of_agent id (l ∷ d) = elim (get_state_of_agent id l) [
  | some s ↦ some s
  | none ↦ state_of_agent id d
]

unfoldable pub get_all_agents : AssignmentData → List ℕ
unfolding agents
get_all_agents [] = []
get_all_agents (l ∷ d) = agents l ++ get_all_agents d

unfoldable pub get_agents_in_state : State → AssignmentData → List ℕ
unfolding agents
get_agents_in_state s d = elim (get_elem? d s.entry_point) [
  | none ↦ []
  | some l ↦ agents (keep (λ asp. asp.state == s.id) l)
]

unfoldable pub clear : Assignment → Assignment
unfolding SuccessCollection.clear
clear a = record a {
  assignment_data = map (λ _. []) a.assignment_data;
  success_data = SuccessCollection.clear a.success_data;
}
