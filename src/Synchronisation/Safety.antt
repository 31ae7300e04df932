-- ===== src/Synchronisation/Safety.antt =====
-- A synchronisation of syncmodule/Synchronisation.cpp announces that it is done only when the agents
-- agree.
use mathlib.Core.Bool.{false≢true}
use alica_engine.Common.{ℕ, ◌≡◌, true, List, [], ◌∷◌, any}
use alica_engine.Synchronisation.{Synchronisation, create, set_tick}
use alica_engine.Synchronisation.Agreement.{Agreed}
use alica_engine.Synchronisation.Ready.{AllReady, all_sync_ready-AllReady}
use alica_engine.Synchronisation.Events.{
  Event, changes, hears_talk, hears_ready, ticks, checks, step, run, is_done, ReadyAgreed, Safe,
}
use alica_engine.Synchronisation.Own.{change_own_data-Safe}
use alica_engine.Synchronisation.Messages.{
  integrate_sync_talk-Safe, integrate_sync_ready-Safe, talk_again-Safe,
}

step-Safe : (e : Event) (s : Synchronisation) → ReadyAgreed s → Safe (step e s)
unfolding step set_tick
step-Safe (changes now t holds) s h = change_own_data-Safe now t holds s h
step-Safe (hears_talk now sender sds tick) s h = integrate_sync_talk-Safe now sender sds tick s h
step-Safe (hears_ready sender) s h = integrate_sync_ready-Safe sender s h
step-Safe (ticks now) s h = (h, λ d. absurd (cc))
step-Safe (checks t now) s h = talk_again-Safe t now s h

run-ReadyAgreed : (es : List Event) (s : Synchronisation) → ReadyAgreed s → ReadyAgreed (run es s)
unfolding run
run-ReadyAgreed [] s h = h
run-ReadyAgreed (e ∷ es) s h = run-ReadyAgreed es (step e s).0 (step-Safe e s h).0

create-ReadyAgreed : (id : ℕ) (ts : List ℕ) (now : ℕ) → ReadyAgreed (create id ts now)
unfolding create
create-ReadyAgreed id ts now = λ is_ready. absurd (false≢true is_ready)

-- Whatever messages, ticks and changes of its own condition a synchronisation goes through, when it is
-- ready, for every connected transition some agent believes in the condition, and it has acknowledged
-- the agent's own row.
pub run-Agreed :
    (es : List Event) (id : ℕ) (ts : List ℕ) (now : ℕ)
    → (run es (create id ts now)).ready_for_sync ≡ true
    → Agreed (run es (create id ts now))
run-Agreed es id ts now = run-ReadyAgreed es (create id ts now) (create-ReadyAgreed id ts now)

-- When a step ends in `synchronisationDone`, the agents agree, and every other agent that has
-- acknowledged the own row has sent that it is ready.
pub step-done :
    (es : List Event) (e : Event) (id : ℕ) (ts : List ℕ) (now : ℕ)
    → any is_done (step e (run es (create id ts now))).1 ≡ true
    → let s' = (step e (run es (create id ts now))).0 in Agreed s' × AllReady s'
step-done es e id ts now d =
    let before = run es (create id ts now) in
    let safe =
      step-Safe e before (run-ReadyAgreed es (create id ts now) (create-ReadyAgreed id ts now)) in
    let (agreed, all) = safe.1 d in (agreed, all_sync_ready-AllReady (step e before).0 all)
