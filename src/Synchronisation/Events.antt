-- ===== src/Synchronisation/Events.antt =====
-- The life of a synchronisation of syncmodule/Synchronisation.cpp as a list of events.
use alica_engine.Common.{ℕ, ◌≡◌, Bool, true, false, List, [], ◌∷◌, any}
use alica_engine.Synchronisation.{
  SyncData, Synchronisation, Timeouts, Output, done, all_sync_ready, change_own_data, set_tick,
}
use alica_engine.Synchronisation.Receive.{integrate_sync_talk, integrate_sync_ready, talk_again}
use alica_engine.Synchronisation.Agreement.{Agreed}

-- What happens to a synchronisation: the own condition, messages, a tick, and a check by `isValid`,
-- after which a synchronisation that is not valid is dropped.
pub data Event : Type 0 where
  changes : (now transition_id : ℕ) → (condition_holds : Bool) → Event
  hears_talk : (now sender : ℕ) → List SyncData → (cur_tick : ℕ) → Event
  hears_ready : (sender : ℕ) → Event
  ticks : (now : ℕ) → Event
  checks : Timeouts → (now : ℕ) → Event

unfoldable pub step : Event → Synchronisation → Synchronisation × List Output
unfolding change_own_data integrate_sync_talk integrate_sync_ready set_tick talk_again
step (changes now t holds) s = change_own_data now t holds s
step (hears_talk now sender sds tick) s = (integrate_sync_talk now sender sds tick s).0
step (hears_ready sender) s = integrate_sync_ready sender s
step (ticks now) s = (set_tick now s, [])
step (checks t now) s = talk_again t now s

unfoldable pub run : List Event → Synchronisation → Synchronisation
unfolding step
run [] s = s
run (e ∷ es) s = run es (step e s).0

abbrev pub is_done : Output → Bool
is_done done = true
is_done _ = false

-- A synchronisation that is ready has an agreement.
abbrev pub ReadyAgreed : Synchronisation → Type 0
ReadyAgreed s = s.ready_for_sync ≡ true → Agreed s

-- The step leads to such a state, and to an agreement of agents that are all ready if it ends in
-- `synchronisationDone`.
abbrev pub Safe : Synchronisation × List Output → Type 0
Safe (s, out) = ReadyAgreed s × (any is_done out ≡ true → Agreed s × (all_sync_ready s ≡ true))
