-- ===== src/AuthorityManager/Tests.antt =====
-- Runs of the authority manager on small inputs.
use alica_engine.Common.{ℕ, suc, ◌≡◌, refl, Bool, true, false, [], ◌∷◌, some, ltb}
use alica_engine.Common.Int.{ℤ, pos, negsuc}
use alica_engine.Authority.CycleManager.{AllocationAuthorityInfo, needs_sending}
use alica_engine.RunningPlan.Sample.{start}
use alica_engine.TeamManager.{TeamManager, is_agent_ignored}
use alica_engine.AuthorityManager.{
  Delivery, deliver, process_plan, handle_incoming_authority_message,
}
use alica_engine.AuthorityManager.Queue.{shapes, for_plan, not_for, hand_each, deliver-for_plan}
use alica_engine.AuthorityManager.Walk.{visited, for_none, process_plan-queue}
use alica_engine.AuthorityManager.Heard.{heard, handle_incoming_authority_message-heard}

abbrev greater : ℕ → ℕ → Bool
greater a b = ltb b a

-- A message of the agent 8 about a plan in the context of a state.
abbrev about : ℕ → ℤ → AllocationAuthorityInfo
about plan parent_state = record {
  sender_id = some 8;
  plan_id = pos plan;
  parent_state = parent_state;
  plan_type = negsuc 0;
  authority = some 8;
  entry_point_robots = record { entrypoint = 10; robots = 1 ∷ 4 ∷ [] } ∷ [];
}

abbrev waiting : Delivery
waiting = record {
  world = start;
  queue = about 7 (pos 2) ∷ about 9 (pos 2) ∷ about 7 (negsuc 0) ∷ [];
  interval_of = λ p. 20;
  outbox = [];
}

-- The message about an unknown plan is left.
left_over : (process_plan suc suc greater 50 1 true 5 0 waiting).queue ≡ about 9 (pos 2) ∷ []
unfolding process_plan needs_sending
left_over = refl

deliver-for_plan_example :
    deliver suc suc greater 50 1 true 1 waiting
    ≡ record (hand_each suc suc greater 50 1 true 1
        (for_plan (shapes start) 1 waiting.queue)
        waiting) { queue = not_for (shapes start) 1 waiting.queue }
deliver-for_plan_example = deliver-for_plan suc suc greater 50 1 true 1 waiting

process_plan-queue_example :
    let t = process_plan suc suc greater 50 1 true 5 0 waiting in
    (t.queue ≡ for_none (shapes start) (visited 5 (shapes start) 0) waiting.queue)
    × (shapes t.world ≡ shapes start)
process_plan-queue_example = process_plan-queue suc suc greater 50 1 true 5 0 waiting

abbrev small_team : TeamManager
small_team = record {
  agents =
      record {
        id = 1;
        active = true;
        ignored = false;
        local = true;
        time_out = 10;
        time_last_msg_received = 0;
        success_marks = [];
      }
      ∷ [];
  team_time_out = 10;
  local_agent = 1;
}

handle_incoming_authority_message-heard_example :
    let out = handle_incoming_authority_message greater 50 (about 7 (pos 2)) small_team [] in
    (out.1 ≡ about 7 (pos 2) ∷ []) × (heard 50 8 out.0 ≡ true) × (heard 50 4 out.0 ≡ true)
unfolding is_agent_ignored
handle_incoming_authority_message-heard_example =
    handle_incoming_authority_message-heard greater 50 8 4 (about 7 (pos 2)) small_team [] refl refl
      refl refl refl refl
