-- ===== src/SyncModule/Tests.antt =====
-- Runs of the sync module on small inputs.
use alica_engine.Common.{ℕ, ◌≡◌, refl, true, false, [], ◌∷◌, Option, none, some, find_if, arith}
use alica_engine.Synchronisation.{Timeouts, create}
use alica_engine.Synchronisation.Ready.{Ready, Acknowledgers}
use alica_engine.Common.{◌⊎◌}
use alica_engine.SyncModule.{
  Entry, SyncModule, is_for, synchronisation_done, follow_sync_transition, on_sync_ready, tick,
}
use alica_engine.SyncModule.Follow.{on_sync_ready-agreed, follow_sync_transition-done}
use alica_engine.SyncModule.Late.{tick-late}

abbrev timeouts : ℕ → Timeouts
timeouts t = record { talk_time_out = 30; sync_time_out = 1000; fail_on_sync_time_out = false }

abbrev fresh : SyncModule
fresh = record {
  running = true;
  my_id = 1;
  ticks = 0;
  synch_set = [];
  synched_transitions = [];
  outbox = [];
}

abbrev entry : ℕ → Entry
entry t = record { transition = t; sync = create 1 (t ∷ []) 100 }

abbrev ticks_of : Option SyncModule → ℕ
ticks_of none = 0
ticks_of (some m) = m.ticks

-- Three synchronisations can be served in a tick, and the counter goes up by three.
three_synchronisations :
    ticks_of
      (tick true timeouts 100 (record fresh { synch_set = entry 1 ∷ entry 2 ∷ entry 3 ∷ [] }))
    ≡ 3
unfolding tick create
three_synchronisations = refl

tick-late_example :
    tick true timeouts 100 (record fresh { synch_set = entry 1 ∷ entry 2 ∷ entry 3 ∷ entry 4 ∷ [] })
    ≡ none
unfolding create
tick-late_example =
    tick-late true timeouts 100 (entry 1 ∷ entry 2 ∷ entry 3 ∷ []) (entry 4) []
      (record fresh { synch_set = entry 1 ∷ entry 2 ∷ entry 3 ∷ entry 4 ∷ [] }) refl (omega arith)
      (omega arith)

-- A synchronisation that waits for the agent 2.
abbrev waiting : Entry
waiting = record {
  transition = 5;
  sync = record {
    my_id = 1;
    connected_transitions = 8 ∷ [];
    sync_matrix =
        record {
          sync_data = record {
            robot_id = 1;
            transition_id = 8;
            condition_holds = true;
            ack = false;
          };
          have_data = true;
          received_by = 1 ∷ 2 ∷ [];
        }
        ∷ [];
    my_row = some 0;
    ready_for_sync = true;
    last_tick = 0;
    last_talk_time = 90;
    sync_start_time = 80;
    received_sync_readys = [];
  };
}

abbrev one_waiting : SyncModule
one_waiting = record fresh { synch_set = waiting ∷ [] }

on_sync_ready-agreed_example :
    (e : Entry) × (find_if (is_for 5) one_waiting.synch_set ≡ some e)
    × (e.sync.ready_for_sync ≡ true)
    × Acknowledgers (λ id. (id ≡ 2) ⊎ Ready e.sync.my_id e.sync.received_sync_readys id) e.sync
unfolding on_sync_ready
on_sync_ready-agreed_example =
    on_sync_ready-agreed true (λ a. false) (λ t. true) 2 5 one_waiting refl refl

follow_sync_transition-done_example :
    let first = follow_sync_transition 5 (synchronisation_done 5 one_waiting) in
    (first.1 ≡ true) × ((follow_sync_transition 5 first.0).1 ≡ false)
follow_sync_transition-done_example = follow_sync_transition-done 5 one_waiting
