-- ===== src/RunningPlan/Tree/Tests.antt =====
-- Deactivation and moves in the sample of running plans.
use alica_engine.Common.{◌≡◌, refl, true, [], some, arith}
use alica_engine.Assignment.Pairs.{get_state_of_agent}
use alica_engine.Assignment.Placement.{state_in}
use alica_engine.RunningPlan.{is_retired}
use alica_engine.RunningPlan.Tree.{move_state}
use alica_engine.RunningPlan.Tree.Deactivate.{here, under}
use alica_engine.RunningPlan.Tree.Move.{move_state-enters, move_state-placement, move_state-retires}
use alica_engine.RunningPlan.Sample.{rank, start-Ranked, task, master, start, sample_env}

move_state-enters_example :
    (((move_state sample_env 3 0 start).plan_at 0).state ≡ some 3)
    × (((move_state sample_env 3 0 start).plan_at 0).children ≡ [])
    × (((move_state sample_env 3 0 start).plan_at 0).failed_sub_plans ≡ [])
move_state-enters_example = move_state-enters sample_env 3 0 start

move_state-placement_example :
    state_in 1 0 ((move_state sample_env 3 0 start).plan_at 0).assignment.assignment_data ≡ some 3
unfolding get_state_of_agent
move_state-placement_example =
    move_state-placement sample_env 3 0 1 0 0 2 task master start refl refl refl (tt, tt) refl

move_state-retires_example : is_retired ((move_state sample_env 3 0 start).plan_at 2) ≡ true
move_state-retires_example =
    move_state-retires rank sample_env 3 0 1 2 start start-Ranked (omega arith) refl
      (under 1 2 2 refl (here 2))
