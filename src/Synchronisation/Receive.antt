-- ===== src/Synchronisation/Receive.antt =====
-- The handlers of syncmodule/Synchronisation.cpp for messages and for the clock.
use alica_engine.Common.{
  ℕ, suc, ◌+◌, Bool, true, false, ◌&&◌, not, List, [], ◌∷◌, ◌++◌, Option, none, some, contains,
  get_elem?, set, if◌then◌else◌, ◌==◌, ltb, leb,
}
use alica_engine.Synchronisation.{
  SyncData, SyncRow, Synchronisation, Timeouts, Output, done, own_row, is_sync_complete,
  all_sync_ready, send_talk, becomes_ready, same_data, row_of,
}

-- The first row with the given data, from the index `i` on.
unfoldable pub find_row : SyncData → List SyncRow → ℕ → Option ℕ
find_row sd [] i = none
find_row sd (row ∷ rows) i = if same_data sd row.sync_data then some i else find_row sd rows (suc i)

abbrev push_received : ℕ → SyncRow → SyncRow
push_received sender row = record row { received_by = row.received_by ++ sender ∷ [] }

-- The matrix after one part of a talk.
unfoldable pub merge : ℕ → SyncData → List SyncRow → List SyncRow
unfolding find_row
merge sender sd m = elim (find_row sd m 0) [
  | none ↦ m ++ row_of sd sender ∷ []
  | some i ↦ elim (get_elem? m i) [ none ↦ m | some row ↦ set m i (push_received sender row) ]
]

-- What one part of a talk leads to, and whether the synchronisation is done.
pub record Progress : Type 0 where
  pub state : Synchronisation
  pub out : List Output
  pub finished : Bool

-- After `sendSyncReady`: late acknowledgements can end the synchronisation.
unfoldable pub check_done : Synchronisation × List Output → Progress
unfolding all_sync_ready
check_done (s, out) =
    if all_sync_ready s
    then record { state = s; out = out ++ done ∷ []; finished = true }
    else record { state = s; out = out; finished = false }

-- The body of the loop of `integrateSyncTalk`.
unfoldable pub integrate_one : ℕ → ℕ → SyncData → Synchronisation → Progress
unfolding merge is_sync_complete becomes_ready check_done
integrate_one now sender sd s =
    let s' : Synchronisation = record s { sync_matrix = merge sender sd s.sync_matrix } in
    if is_sync_complete s'
    then check_done (becomes_ready now s')
    else record { state = record s' { ready_for_sync = false }; out = []; finished = false }

unfoldable pub integrate_loop :
    ℕ → ℕ → List SyncData → Synchronisation → Synchronisation × List Output
unfolding integrate_one
integrate_loop now sender [] s = (s, [])
integrate_loop now sender (sd ∷ sds) s =
    let p = integrate_one now sender sd s in
    let (s', out) = integrate_loop now sender sds p.state in
    if p.finished then (p.state, p.out) else (s', p.out ++ out)

-- `integrateSyncTalk`, with its answer.
unfoldable pub integrate_sync_talk :
    ℕ → ℕ → List SyncData → ℕ → Synchronisation → (Synchronisation × List Output) × Bool
unfolding integrate_loop
integrate_sync_talk now sender sds cur_tick s =
    if s.ready_for_sync
    then ((s, []), true)
    else if not (leb cur_tick (s.last_tick + 2))
    then ((s, []), false)
    else (integrate_loop now sender sds s, true)

-- `integrateSyncReady`, for the sender of the message.
unfoldable pub integrate_sync_ready : ℕ → Synchronisation → Synchronisation × List Output
unfolding all_sync_ready
integrate_sync_ready sender s =
    let readys = s.received_sync_readys in
    let s' : Synchronisation = record s {
      received_sync_readys = if contains sender readys then readys else readys ++ sender ∷ [];
    } in
    (s', (if s.ready_for_sync && all_sync_ready s' then done ∷ [] else []))

unfoldable pub send_revoked : ℕ → ℕ → SyncRow → Synchronisation → Synchronisation × List Output
unfolding send_talk
send_revoked now i row s =
    let sd : SyncData = record row.sync_data { condition_holds = false } in
    send_talk now sd
      (record s { sync_matrix = set s.sync_matrix i (record row { sync_data = sd }) })

-- The revocation of the own row in `isValid`, when the transition is no longer active.
unfoldable pub revoke : ℕ → Synchronisation → Synchronisation × List Output
unfolding send_revoked
revoke now s = elim s.my_row [
  | none ↦ (s, [])
  | some i ↦ elim (get_elem? s.sync_matrix i) [
    | none ↦ (s, [])
    | some row ↦ if row.have_data then send_revoked now i row s else (s, [])
  ]
]

-- The repeated talk of `isValid`.
unfoldable pub talk_again : Timeouts → ℕ → Synchronisation → Synchronisation × List Output
unfolding own_row send_talk
talk_again t now s =
    if not (s.last_talk_time == 0)
      && ltb (t.talk_time_out + s.last_talk_time) now
      && not s.ready_for_sync
    then elim (own_row s.my_row s.sync_matrix) [
      | none ↦ (s, [])
      | some row ↦ send_talk now row.sync_data s
    ]
    else (s, [])

-- `isValid`, with its answer.
unfoldable pub is_valid :
    Timeouts → ℕ → ℕ → Synchronisation → (Synchronisation × List Output) × Bool
unfolding revoke talk_again
is_valid t now cur_tick s =
    if not (leb cur_tick (s.last_tick + 2)) then (revoke now s, false) else (
      talk_again t now s,
      not (t.fail_on_sync_time_out && ltb (t.sync_time_out + s.sync_start_time) now),
    )
