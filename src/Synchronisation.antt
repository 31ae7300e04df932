-- ===== src/Synchronisation.antt =====
-- syncmodule/Synchronisation.cpp and SyncRow.cpp: how the agents agree to take a synchronised transition
-- together. A row is named by its index in the matrix, where the source has a pointer. The time, the tick
-- and the parameters of the transition are passed in; what is sent, and the call of `synchronisationDone`,
-- are returned. Locks and the order of `_receivedBy` are not modelled. `synchronisationDone` deletes the
-- object, and what `integrateSyncTalk` does with it after that is left out.
pub mod Receive
pub mod Agreement
pub mod Ready
pub mod Events
pub mod Own
pub mod Messages
pub mod Safety
mod Tests
use alica_engine.Common.{
  ℕ, zero, suc, ◌+◌, Bool, true, false, ◌&&◌, ◌||◌, not, List, [], ◌∷◌, ◌++◌, Option, none, some,
  contains, length, get_elem?, set, if◌then◌else◌, ◌==◌, ltb, leb,
}

pub record SyncData : Type 0 where
  pub robot_id : ℕ
  pub transition_id : ℕ
  pub condition_holds : Bool
  pub ack : Bool

pub record SyncRow : Type 0 where
  pub sync_data : SyncData
  pub have_data : Bool
  pub received_by : List ℕ

-- `received_sync_readys` holds the senders.
pub record Synchronisation : Type 0 where
  pub my_id : ℕ
  pub connected_transitions : List ℕ
  pub sync_matrix : List SyncRow
  pub my_row : Option ℕ
  pub ready_for_sync : Bool
  pub last_tick : ℕ
  pub last_talk_time : ℕ
  pub sync_start_time : ℕ
  pub received_sync_readys : List ℕ

-- The timeouts of a `SyncTransition`.
pub record Timeouts : Type 0 where
  pub talk_time_out : ℕ
  pub sync_time_out : ℕ
  pub fail_on_sync_time_out : Bool

-- A talk, a `SyncReady`, and the call of `synchronisationDone`.
pub data Output : Type 0 where
  talk : SyncData → Output
  ready : Output
  done : Output

-- The constructor for a transition.
unfoldable pub create : ℕ → List ℕ → ℕ → Synchronisation
create id in_sync now = record {
  my_id = id;
  connected_transitions = in_sync;
  sync_matrix = [];
  my_row = none;
  ready_for_sync = false;
  last_tick = 0;
  last_talk_time = 0;
  sync_start_time = now;
  received_sync_readys = [];
}

abbrev same_bool : Bool → Bool → Bool
same_bool true b = b
same_bool false b = not b

-- The row that `myRow` points to.
unfoldable pub own_row : Option ℕ → List SyncRow → Option SyncRow
own_row none m = none
own_row (some i) m = get_elem? m i

-- The first row of a transition whose condition holds, from the index `i` on.
unfoldable pub find_holding : ℕ → List SyncRow → ℕ → Option ℕ
find_holding t [] i = none
find_holding t (row ∷ rows) i =
    if row.sync_data.transition_id == t && row.sync_data.condition_holds
    then some i
    else find_holding t rows (suc i)

-- `rowsOK`, or `none` for a transition without a row.
unfoldable pub collect : List ℕ → List SyncRow → List ℕ → Option (List ℕ)
unfolding find_holding
collect [] m rows_ok = some rows_ok
collect (t ∷ ts) m rows_ok = elim (find_holding t m 0) [
  | none ↦ none
  | some i ↦ collect ts m (if contains i rows_ok then rows_ok else rows_ok ++ i ∷ [])
]

-- The check of the acknowledgements of the own row.
unfoldable pub all_acknowledged : List ℕ → List SyncRow → List ℕ → Bool
all_acknowledged [] m received_by = true
all_acknowledged (i ∷ is) m received_by = elim (get_elem? m i) [
  | none ↦ false
  | some row ↦
      if contains row.sync_data.robot_id received_by
      then all_acknowledged is m received_by
      else false
]

unfoldable pub is_sync_complete : Synchronisation → Bool
unfolding collect own_row all_acknowledged
is_sync_complete s = elim (collect s.connected_transitions s.sync_matrix []) [
  | none ↦ false
  | some rows_ok ↦ elim (own_row s.my_row s.sync_matrix) [
    | none ↦ false
    | some row ↦ all_acknowledged rows_ok s.sync_matrix row.received_by
  ]
]

unfoldable pub all_in : ℕ → List ℕ → List ℕ → Bool
all_in my_id [] readys = true
all_in my_id (robot ∷ robots) readys =
    if not (robot == my_id) && not (contains robot readys)
    then false
    else all_in my_id robots readys

-- `allSyncReady`; without an own row, which is undefined behaviour there, the answer is false.
unfoldable pub all_sync_ready : Synchronisation → Bool
unfolding own_row all_in
all_sync_ready s = elim (own_row s.my_row s.sync_matrix) [
  | none ↦ false
  | some row ↦ all_in s.my_id row.received_by s.received_sync_readys
]

unfoldable pub send_talk : ℕ → SyncData → Synchronisation → Synchronisation × List Output
send_talk now sd s = (record s { last_talk_time = now }, talk sd ∷ [])

-- `sendSyncReady`, which needs an own row.
unfoldable pub send_sync_ready : ℕ → Synchronisation → Synchronisation × List Output
unfolding own_row send_talk
send_sync_ready now s = elim (own_row s.my_row s.sync_matrix) [
  | none ↦ (s, [])
  | some row ↦ (record s { last_talk_time = now }, talk row.sync_data ∷ ready ∷ [])
]

-- `sendSyncReady`, and `readyForSync` is set.
unfoldable pub becomes_ready : ℕ → Synchronisation → Synchronisation × List Output
unfolding send_sync_ready
becomes_ready now s =
    let (s', out) = send_sync_ready now s in (record s' { ready_for_sync = true }, out)

-- The end of `changeOwnData`.
unfoldable pub announce : ℕ → SyncData → Synchronisation → Synchronisation × List Output
unfolding is_sync_complete becomes_ready send_talk
announce now sd s = if is_sync_complete s then becomes_ready now s else send_talk now sd s

abbrev pub same_data : SyncData → SyncData → Bool
same_data a b =
    same_bool a.condition_holds b.condition_holds
    && a.robot_id == b.robot_id
    && a.transition_id == b.transition_id

unfoldable pub set_tick : ℕ → Synchronisation → Synchronisation
set_tick now s = record s { last_tick = now }

abbrev pub own_data : ℕ → Bool → Synchronisation → SyncData
own_data transition_id condition_holds s = record {
  robot_id = s.my_id;
  transition_id = transition_id;
  condition_holds = condition_holds;
  ack = false;
}

abbrev pub row_of : SyncData → ℕ → SyncRow
row_of sd sender = record { sync_data = sd; have_data = true; received_by = sender ∷ [] }

abbrev pub unready_unless : Bool → Synchronisation → Synchronisation
unready_unless b s = if b then s else record s { ready_for_sync = false }

-- The part of `changeOwnData` on the own row, which may be null. An index of no row, which the source
-- does not have, changes nothing.
unfoldable pub change_row :
    ℕ → SyncData → Option ℕ → Synchronisation → Synchronisation × List Output
unfolding announce
change_row now sd none s = announce now sd (record s {
  sync_matrix = s.sync_matrix ++ row_of sd s.my_id ∷ [];
  my_row = some (length s.sync_matrix);
})
change_row now sd (some i) s = elim (get_elem? s.sync_matrix i) [
  | none ↦ (s, [])
  | some row ↦
      if same_data sd row.sync_data
      then (s, [])
      else announce now sd (record s {
        sync_matrix =
            set s.sync_matrix i (record row { sync_data = sd; received_by = s.my_id ∷ [] });
        ready_for_sync = false;
      })
]

unfoldable pub change_own_data : ℕ → ℕ → Bool → Synchronisation → Synchronisation × List Output
unfolding change_row
change_own_data now transition_id condition_holds s =
    change_row now (own_data transition_id condition_holds s) s.my_row
      (unready_unless condition_holds s)
