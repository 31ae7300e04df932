-- ===== src/SyncModule.antt =====
-- syncmodule/SyncModule.cpp: the synchronisations of an agent, by their sync transitions, and the messages
-- for them. The plan repository and the test whether an agent is ignored are parameters. What is sent
-- goes to the outbox. Locks are not modelled.
pub mod Follow
pub mod Late
mod Tests
use alica_engine.Common.{
  ℕ, suc, ◌+◌, Bool, true, false, ◌&&◌, ◌||◌, not, List, [], ◌∷◌, ◌++◌, map, Option, none, some,
  any, find_if, keep, contains, if◌then◌else◌, ◌==◌,
}
use alica_engine.Synchronisation.{
  SyncData, Synchronisation, Timeouts, Output, talk, ready, done, create, set_tick, change_own_data,
}
use alica_engine.Synchronisation.Receive.{integrate_sync_talk, integrate_sync_ready, is_valid}

-- An entry of `synchSet`.
pub record Entry : Type 0 where
  pub transition : ℕ
  pub sync : Synchronisation

-- A talk or a ready message, with its sync transition, or the acknowledgements of a talk.
pub data Message : Type 0 where
  sends : ℕ → Output → Message
  acks : List SyncData → Message

pub record SyncModule : Type 0 where
  pub running : Bool
  pub my_id : ℕ
  pub ticks : ℕ
  pub synch_set : List Entry
  pub synched_transitions : List ℕ
  pub outbox : List Message

pub init : ℕ → SyncModule → SyncModule
init local_agent m = record m { ticks = 0; running = true; my_id = local_agent }

pub close : SyncModule → SyncModule
close m = record m { running = false }

abbrev pub is_for : ℕ → Entry → Bool
is_for t e = e.transition == t

-- `synchSet[t] = s` for a transition that is there.
unfoldable pub put : ℕ → Synchronisation → List Entry → List Entry
put t s [] = []
put t s (e ∷ es) = if is_for t e then record { transition = t; sync = s } ∷ es else e ∷ put t s es

-- `insert` leaves an entry that is there as it is.
unfoldable pub insert : ℕ → Synchronisation → List Entry → List Entry
insert t s es = if any (is_for t) es then es else es ++ record { transition = t; sync = s } ∷ []

unfoldable pub synchronisation_done : ℕ → SyncModule → SyncModule
synchronisation_done t m = record m {
  synch_set = keep (λ e. not (is_for t e)) m.synch_set;
  synched_transitions = m.synched_transitions ++ t ∷ [];
}

unfoldable pub follow_sync_transition : ℕ → SyncModule → SyncModule × Bool
follow_sync_transition t m =
    if contains t m.synched_transitions
    then (record m { synched_transitions = keep (λ x. not (x == t)) m.synched_transitions }, true)
    else (m, false)

module _ (may_send : Bool) where
  abbrev pub send : Message → SyncModule → SyncModule
  send x m = if may_send then record m { outbox = m.outbox ++ x ∷ [] } else m

  -- What a synchronisation asks of the module.
  unfoldable pub serve : ℕ → Output → SyncModule → SyncModule
  unfolding synchronisation_done
  serve t (talk sd) m = send (sends t (talk sd)) m
  serve t ready m = send (sends t ready) m
  serve t done m = synchronisation_done t m

  abbrev pub serve_all : ℕ → List Output → SyncModule → SyncModule
  serve_all t [] m = m
  serve_all t (o ∷ os) m = serve_all t os (serve t o m)

  -- A call of a synchronisation that is in the set.
  abbrev pub run_in_set : ℕ → Synchronisation × List Output → SyncModule → SyncModule
  run_in_set t (s, out) m = serve_all t out (record m { synch_set = put t s m.synch_set })

  -- The new synchronisation is put into the set after its call.
  unfoldable pub set_synchronisation : (ℕ → List ℕ) → ℕ → ℕ → ℕ → Bool → SyncModule → SyncModule
  unfolding put insert serve change_own_data set_tick create
  set_synchronisation in_sync now t transition holds m = elim (find_if (is_for t) m.synch_set) [
    | some e ↦ run_in_set t (change_own_data now transition holds (set_tick m.ticks e.sync)) m
    | none ↦
        let (s, out) =
          change_own_data now transition holds
            (set_tick m.ticks (create m.my_id (in_sync t) now)) in
        let m' = serve_all t out m in record m' { synch_set = insert t s m'.synch_set }
  ]

  -- One part of a talk: the whole talk is integrated, and the answer tells whether to acknowledge.
  unfoldable pub talk_part :
      (ℕ → List ℕ) → ℕ → ℕ → List SyncData → ℕ → SyncModule → SyncModule × Bool
  unfolding put insert serve integrate_sync_talk create
  talk_part in_sync now sender sds t m = elim (find_if (is_for t) m.synch_set) [
    | some e ↦ (run_in_set t (integrate_sync_talk now sender sds m.ticks e.sync).0 m, true)
    | none ↦
        let s = create m.my_id (in_sync t) now in
        let (called, do_ack) = integrate_sync_talk now sender sds m.ticks s in
        (run_in_set t called (record m { synch_set = insert t s m.synch_set }), do_ack)
  ]

  -- The loop over a talk; `none` is the return at a transition that is unknown or not synchronised.
  unfoldable pub talk_loop :
      (ℕ → Option ℕ)
      → (ℕ → List ℕ)
      → ℕ
      → ℕ
      → List SyncData
      → List SyncData
      → List SyncData
      → SyncModule
      → SyncModule × Option (List SyncData)
  unfolding talk_part
  talk_loop sync_transition_of in_sync now sender all [] to_ack m = (m, some to_ack)
  talk_loop sync_transition_of in_sync now sender all (sd ∷ sds) to_ack m =
      elim (sync_transition_of sd.transition_id) [
        | none ↦ (m, none)
        | some t ↦
            let (m', do_ack) = talk_part in_sync now sender all t m in
            talk_loop sync_transition_of in_sync now sender all sds
              (if not sd.ack && sender == sd.robot_id && do_ack then to_ack ++ sd ∷ [] else to_ack)
              m'
      ]

  abbrev pub acknowledge : SyncData → SyncData
  acknowledge sd = record sd { ack = true }

  abbrev pub send_acks : Option (List SyncData) → SyncModule → SyncModule
  send_acks none m = m
  send_acks (some []) m = m
  send_acks (some (sd ∷ sds)) m = send (acks (map acknowledge (sd ∷ sds))) m

  unfoldable pub on_sync_talk :
      (ℕ → Bool) → (ℕ → Option ℕ) → (ℕ → List ℕ) → ℕ → ℕ → List SyncData → SyncModule → SyncModule
  unfolding talk_loop
  on_sync_talk ignored sync_transition_of in_sync now sender sds m =
      let (m', to_ack) = talk_loop sync_transition_of in_sync now sender sds sds [] m in
      if not m.running || sender == m.my_id
      then m
      else if ignored sender
      then m
      else send_acks to_ack m'

  unfoldable pub on_sync_ready : (ℕ → Bool) → (ℕ → Bool) → ℕ → ℕ → SyncModule → SyncModule
  unfolding put serve integrate_sync_ready
  on_sync_ready ignored known sender t m =
      if not m.running || sender == m.my_id
      then m
      else if ignored sender || not (known t)
      then m
      else elim (find_if (is_for t) m.synch_set) [
        | none ↦ m
        | some e ↦ run_in_set t (integrate_sync_ready sender e.sync) m
      ]

  -- The loop of `tick`. A synchronisation that is not valid is erased while the loop stands on it, and
  -- the loop goes on from there: that is undefined behaviour, `none`.
  unfoldable pub tick_loop : (ℕ → Timeouts) → ℕ → List Entry → SyncModule → Option SyncModule
  unfolding put serve is_valid
  tick_loop timeouts now [] m = some m
  tick_loop timeouts now (e ∷ es) m =
      let (called, valid) = is_valid (timeouts e.transition) now m.ticks e.sync in
      let m' = run_in_set e.transition called m in
      let rest = tick_loop timeouts now es (record m' { ticks = m'.ticks + 1 }) in
      if valid then rest else none

  unfoldable pub tick : (ℕ → Timeouts) → ℕ → SyncModule → Option SyncModule
  unfolding tick_loop
  tick timeouts now m = tick_loop timeouts now m.synch_set m
