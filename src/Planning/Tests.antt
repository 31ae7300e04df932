-- ===== src/Planning/Tests.antt =====
-- The search on a plan of two entry points and two agents.
use alica_engine.Common.{
  ℕ, ◌+◌, ◌≡◌, ◌≢◌, refl, ◌⊎◌, inl, true, false, [], ◌∷◌, some, get_elem?, arith,
}
use alica_engine.Common.Int.{pos, negsuc, ◌-ℤ◌, ◌≤ℤ◌}
use alica_engine.Model.{Interval, EntryPoint, Plan}
use alica_engine.Planning.PartialAssignment.{
  PartialAssignment, prepare, is_goal, all_satisfied, assign_unassigned_agent, next_unassigned,
  skip_assigned,
}
use alica_engine.Planning.Consistent.{
  working, assigned, IsConsistent, assign_unassigned_agent-IsConsistent,
}
use alica_engine.Planning.Goal.{goal-cardinalities, prepare-IsConsistent}
use alica_engine.Planning.Search.{Pool, out_of_fuel, is_worth, child, evaluate, calc_next_best}
use alica_engine.Planning.Search.Optimal.{
  Reaches, here, there, Promises, kept, by_way, Answers, calc_next_best-Answers,
}
use alica_engine.Planning.Search.Terminates.{calc_next_best-ends}

abbrev entry_point : ℕ → ℕ → ℕ → EntryPoint
entry_point i least most = record {
  id = 10 + i;
  index = i;
  state = 100 + i;
  cardinality = record { lower = pos least; upper = pos most };
  success_required = false;
  plan = 1;
}

abbrev plan : Plan
plan = record { id = 1; entry_points = entry_point 0 1 1 ∷ entry_point 1 0 2 ∷ [] }

-- Every agent costs one.
abbrev eval : PartialAssignment → Interval
eval p = record { lower = pos 0; upper = pos 10 -ℤ pos p.num_assigned_agents }

abbrev prepared : PartialAssignment
prepared = prepare false 2 (λ _. 0) plan

abbrev root : PartialAssignment
root = evaluate eval prepared

abbrev first_child : PartialAssignment → PartialAssignment
first_child p = child eval (next_unassigned p) 0

abbrev goal_of : PartialAssignment → PartialAssignment
goal_of p = child eval (next_unassigned (first_child p)) 1

goal_of-root : (is_goal 2 (goal_of root) ≡ true) × (is_worth (goal_of root) ≡ true)
unfolding is_goal all_satisfied prepare evaluate child assign_unassigned_agent next_unassigned
    skip_assigned ◌-ℤ◌
goal_of-root = (refl, refl)

goal_of-prepared : is_goal 2 (goal_of prepared) ≡ true
unfolding is_goal all_satisfied prepare evaluate child assign_unassigned_agent next_unassigned
    skip_assigned ◌-ℤ◌
goal_of-prepared = refl

root-Promises : Promises eval root (goal_of root)
unfolding prepare evaluate child assign_unassigned_agent next_unassigned skip_assigned ◌-ℤ◌
root-Promises =
    by_way root (goal_of root) 0 (record { lower = pos 1; upper = pos 1 }) (omega arith) refl refl
      (omega arith)
      (by_way (first_child root) (goal_of root) 1 (record { lower = pos 0; upper = pos 2 })
        (omega arith) refl refl (omega arith) (kept (goal_of root)))

prepared-Reaches : Reaches eval prepared (goal_of prepared)
unfolding prepare evaluate child assign_unassigned_agent next_unassigned skip_assigned ◌-ℤ◌
prepared-Reaches =
    there prepared (goal_of prepared) 0 (record { lower = pos 1; upper = pos 1 }) (omega arith) refl
      refl
      (there (first_child prepared) (goal_of prepared) 1 (record { lower = pos 0; upper = pos 2 })
        (omega arith) refl refl (here (goal_of prepared)))

abbrev pool : Pool
pool = record { size = 50; cur_index = 1 }

calc_next_best-Answers_example :
    Answers 2 (goal_of root) (calc_next_best eval 2 60 (root ∷ []) pool)
calc_next_best-Answers_example =
    calc_next_best-Answers eval 60 2 (root ∷ []) pool (goal_of root) (tt, tt) (inl root-Promises)
      goal_of-root.0 goal_of-root.1 (omega arith)

calc_next_best-ends_example : calc_next_best eval 2 60 (root ∷ []) pool ≢ out_of_fuel
calc_next_best-ends_example = calc_next_best-ends eval 60 2 (root ∷ []) pool (omega arith)

goal-cardinalities_example :
    let working_and_done = working 0 (goal_of prepared).assignment + 0 in
    (assigned (goal_of prepared).assignment ≡ 2)
    × (pos 1 ≤ℤ pos working_and_done)
    × ((working 0 (goal_of prepared).assignment ≡ 0) ⊎ (pos working_and_done ≤ℤ pos 1))
goal-cardinalities_example =
    goal-cardinalities eval false 2 (λ _. 0) plan (goal_of prepared) 0 (entry_point 0 1 1)
      prepared-Reaches goal_of-prepared refl

free : get_elem? prepared.assignment 0 ≡ some (negsuc 0)
unfolding prepare
free = refl

assign_unassigned_agent-IsConsistent_example :
    IsConsistent prepared.cardinalities (assign_unassigned_agent 0 1 prepared).0
assign_unassigned_agent-IsConsistent_example =
    assign_unassigned_agent-IsConsistent prepared.cardinalities 0 0 1 prepared free
      (prepare-IsConsistent false 2 (λ _. 0) plan)
