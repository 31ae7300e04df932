-- ===== src/Synchronisation/Tests.antt =====
-- Two agents agree on a transition each.
use alica_engine.Common.{ℕ, ◌≡◌, refl, true, false, List, [], ◌∷◌, any}
use alica_engine.Synchronisation.{
  SyncData, Synchronisation, create, all_sync_ready, is_sync_complete, change_own_data, change_row,
  announce, becomes_ready, send_sync_ready, send_talk, own_row, find_holding, collect,
  all_acknowledged, all_in, set_tick,
}
use alica_engine.Synchronisation.Receive.{
  find_row, merge, check_done, integrate_one, integrate_loop, integrate_sync_talk,
  integrate_sync_ready,
}
use alica_engine.Synchronisation.Agreement.{Agreed}
use alica_engine.Synchronisation.Ready.{AllReady}
use alica_engine.Synchronisation.Events.{
  Event, changes, hears_talk, hears_ready, ticks, step, run, is_done,
}
use alica_engine.Synchronisation.Safety.{run-Agreed, step-done}

abbrev data_of : ℕ → ℕ → SyncData
data_of agent transition = record {
  robot_id = agent;
  transition_id = transition;
  condition_holds = true;
  ack = false;
}

-- Agent 1 follows the transition 10. Agent 2 follows the transition 20 and acknowledges agent 1's row.
abbrev talks : List Event
talks = ticks 5 ∷ changes 100 10 true ∷ hears_talk 110 2 (data_of 2 20 ∷ data_of 1 10 ∷ []) 6 ∷ []

abbrev after : Synchronisation
after = run talks (create 1 (10 ∷ 20 ∷ []) 90)

after_ready : after.ready_for_sync ≡ true
unfolding run step create set_tick change_own_data change_row announce becomes_ready send_sync_ready
    send_talk own_row find_holding collect all_acknowledged all_in is_sync_complete all_sync_ready
    find_row merge check_done integrate_one integrate_loop integrate_sync_talk
after_ready = refl

run-Agreed_example : Agreed after
run-Agreed_example = run-Agreed talks 1 (10 ∷ 20 ∷ []) 90 after_ready

hears_ready_done : any is_done (step (hears_ready 2) after).1 ≡ true
unfolding run step create set_tick change_own_data change_row announce becomes_ready send_sync_ready
    send_talk own_row find_holding collect all_acknowledged all_in is_sync_complete all_sync_ready
    find_row merge check_done integrate_one integrate_loop integrate_sync_talk integrate_sync_ready
hears_ready_done = refl

step-done_example : let s' = (step (hears_ready 2) after).0 in Agreed s' × AllReady s'
step-done_example = step-done talks (hears_ready 2) 1 (10 ∷ 20 ∷ []) 90 hears_ready_done
