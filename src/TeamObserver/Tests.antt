-- ===== src/TeamObserver/Tests.antt =====
-- Runs of the team observer on small inputs.
use alica_engine.Common.{ℕ, ◌≡◌, refl, Bool, true, false, [], ◌∷◌, Option, none, some, All}
use alica_engine.Common.Int.{ℤ, pos, negsuc}
use alica_engine.Model.{State, StateType, EntryPoint}
use alica_engine.RunningPlan.Sample.{task, master, start, rank, start-Ranked}
use alica_engine.RunningPlan.Message.{to_message}
use alica_engine.Collections.SuccessCollection.{SuccessCollection}
use alica_engine.TeamManager.{Agent, TeamManager, is_agent_active}
use alica_engine.TeamObserver.{
  TeamObserver, Received, spt_from_message, update_team_plan_trees, create_success_collection,
  update_success_collection, successes_in_plan,
}
use alica_engine.TeamObserver.Roundtrip.{
  Tree, Forest, shown, preorder, untold, Known, spt_from_message-to_message,
}
use alica_engine.TeamObserver.Marks.{clean_own_success_marks}
use alica_engine.Collections.SuccessMarks.{succeeded, succeeded_entry_points}
use alica_engine.TeamObserver.{own_marks}
use alica_engine.TeamObserver.Inhabited.{ExecutesFrom, Reported, clean_own_success_marks_iff}
use alica_engine.Common.{◌↔◌, ◌⊎◌, arith}
use alica_engine.TeamObserver.Active.{update_team_plan_trees-active}
use alica_engine.TeamObserver.Successes.{update_success_collection-create}

abbrev state_of : ℕ → State
state_of s = record { id = s; entry_point = 10; state_type = StateType.normal }

abbrev find_state : ℤ → Option State
find_state (pos s) = some (state_of s)
find_state (negsuc n) = none

abbrev found_entry_point : ℕ → Option EntryPoint
found_entry_point id = some task

abbrev agent_at : ℕ → Bool → Bool → ℕ → Agent
agent_at id active local time = record {
  id = id;
  active = active;
  ignored = false;
  local = local;
  time_out = 10;
  time_last_msg_received = time;
  success_marks = record { plan = 7; entry_points = task ∷ [] } ∷ [];
}

-- This agent, one that has not been heard of for long, and one that was inactive.
abbrev team : TeamManager
team = record {
  agents = agent_at 1 true true 0 ∷ agent_at 2 true false 0 ∷ agent_at 3 false false 0 ∷ [];
  team_time_out = 10;
  local_agent = 1;
}

abbrev observer : TeamObserver
observer = record {
  team = team;
  msg_queue =
      record {
        info = record { sender_id = 3; state_ids = pos 2 ∷ []; succeeded_eps = [] };
        time = 95;
      }
      ∷ [];
  simple_plan_trees = record { agent = 2; nodes = []; is_new = false } ∷ [];
}

-- The message of the agent 3 is heard, and the plan tree of the agent 2 is dropped.
trees_after :
    (update_team_plan_trees find_state found_entry_point 100 observer).0.simple_plan_trees
    ≡ record { agent = 3; nodes = record { state = state_of 2; parent = none } ∷ []; is_new = true }
      ∷ []
unfolding update_team_plan_trees
trees_after = refl

update_team_plan_trees-active_example :
    let o' = (update_team_plan_trees find_state found_entry_point 100 observer).0 in
    All (λ t. is_agent_active t.agent o'.team ≡ true) o'.simple_plan_trees
unfolding is_agent_active
update_team_plan_trees-active_example =
    update_team_plan_trees-active find_state found_entry_point 100 observer (refl, tt)
      (((λ h. refl), refl), (((λ h. refl), refl), (((λ h. h), refl), tt))) (refl, tt)

-- The own success of the agent is counted twice.
own_success_twice : successes_in_plan 7 (record team { agents = agent_at 1 true true 0 ∷ [] }) ≡ 2
unfolding successes_in_plan
own_success_twice = refl

-- A message in which a second state follows without an opening of the children.
two_states : spt_from_message find_state (pos 1 ∷ pos 2 ∷ []) ≡ Received.undefined
unfolding spt_from_message
two_states = refl

spt_from_message-to_message_example :
    spt_from_message find_state (to_message 5 start 0 0 (untold 0)).message
    ≡ Received.tree
        (preorder state_of none 0 (Tree.node 2 (Forest.cons (Tree.node 2 Forest.nil) Forest.nil)))
unfolding shown Known
spt_from_message-to_message_example =
    spt_from_message-to_message find_state state_of 5 0 start
      (Tree.node 2 (Forest.cons (Tree.node 2 Forest.nil) Forest.nil)) (refl, ((refl, tt), tt)) refl

abbrev old_collection : SuccessCollection
old_collection = record { plan = some master; success_data = (8 ∷ []) ∷ [] }

update_success_collection-create_example :
    update_success_collection master team old_collection ≡ create_success_collection master team
update_success_collection-create_example =
    update_success_collection-create master team old_collection refl refl

-- The plan 7 is inhabited by this agent itself, and nobody else reports it.
clean_own_success_marks_iff_example :
    (succeeded 7 task (own_marks (clean_own_success_marks (λ s. 8) 5 start (some 0) observer).team)
      ≡ true)
    ↔ ((succeeded 7 task (own_marks observer.team) ≡ true)
        × (ExecutesFrom start (some 0) 7 ⊎ Reported (λ s. 8) 7 observer.simple_plan_trees))
clean_own_success_marks_iff_example =
    clean_own_success_marks_iff (λ s. 8) rank 5 7 task start (some 0) observer start-Ranked
      (omega arith)

-- Without running plans the success is dropped.
nobody_left :
    succeeded 7 task (own_marks (clean_own_success_marks (λ s. 8) 5 start none observer).team)
    ≡ false
unfolding clean_own_success_marks succeeded succeeded_entry_points
nobody_left = refl
