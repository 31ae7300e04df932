-- ===== src/Constraint/VariableSyncModule.antt =====
-- constraintmodul/VariableSyncModule.cpp: how agents share the values their solvers found. An
-- agent's id is a number. The clock's reading, and the agents that `isAgentIgnored` names, are
-- arguments. `_ownResults` points to the entry of the own id. The seeds of `getSeeds`, which are
-- floating-point numbers, are left out.
pub mod Exchange
mod Tests
use alica_engine.Common.{
  ℕ, Bool, true, false, List, [], ◌∷◌, any, Option, none, some, if◌then◌else◌, ◌==◌, ltb,
}
use alica_engine.Common.Int.{ℤ, sub_ℕ}
use alica_engine.Constraint.ResultEntry.{
  Variant, SolverVar, ResultEntry, add_value, clear, get_communicatable_results, load_from,
}

pub record SolverResult : Type 0 where
  pub sender_id : ℕ
  pub vars : List SolverVar

pub record VariableSyncModule : Type 0 where
  pub own_id : ℕ
  pub store : List ResultEntry
  pub ttl4_communication : ℕ
  pub running : Bool

abbrev pub has_id : ℕ → ResultEntry → Bool
has_id a r = r.id == a

-- Applies `f` to the first entry of the agent `a`.
unfoldable pub update_entry : ℕ → (ResultEntry → ResultEntry) → List ResultEntry → List ResultEntry
update_entry a f [] = []
update_entry a f (r ∷ rs) =
    let rest = update_entry a f rs in if has_id a r then f r ∷ rs else r ∷ rest

-- Inserts at `std::upper_bound`, in a sorted store.
unfoldable pub insert_sorted : ResultEntry → List ResultEntry → List ResultEntry
insert_sorted new [] = new ∷ []
insert_sorted new (r ∷ rs) =
    let rest = insert_sorted new rs in if ltb new.id r.id then new ∷ r ∷ rs else r ∷ rest

unfoldable pub find_or_insert : ℕ → List ResultEntry → List ResultEntry
unfolding insert_sorted
find_or_insert a store =
    if any (has_id a) store then store else insert_sorted (record { id = a; values = [] }) store

unfoldable pub add_vars : ℕ → List SolverVar → ResultEntry → ResultEntry
unfolding add_value load_from
add_vars now [] re = re
add_vars now (sv ∷ vars) re = add_vars now vars (add_value sv.id (load_from sv.value) now re)

unfoldable pub on_solver_result :
    (ℕ → Bool) → ℕ → SolverResult → VariableSyncModule → VariableSyncModule
unfolding update_entry find_or_insert add_vars
on_solver_result is_agent_ignored now msg m =
    if msg.sender_id == m.own_id
    then m
    else if is_agent_ignored msg.sender_id
    then m
    else record m {
      store =
          update_entry msg.sender_id (add_vars now msg.vars) (find_or_insert msg.sender_id m.store);
    }

unfoldable pub find_entry : ℕ → List ResultEntry → Option ResultEntry
find_entry a [] = none
find_entry a (r ∷ rs) = let rest = find_entry a rs in if has_id a r then some r else rest

unfoldable pub message_of : ℕ → List SolverVar → Option SolverResult
message_of a [] = none
message_of a (sv ∷ vars) = some (record { sender_id = a; vars = sv ∷ vars })

-- The message that is sent, if one is.
unfoldable pub publish_content : Bool → ℕ → VariableSyncModule → Option SolverResult
unfolding find_entry message_of get_communicatable_results
publish_content may_send_messages now m =
    if m.running
    then if may_send_messages
      then elim (find_entry m.own_id m.store) [
        | none ↦ none
        | some r ↦
            message_of m.own_id (get_communicatable_results (sub_ℕ now m.ttl4_communication) r [])
      ]
      else none
    else none

unfoldable pub post_result : ℕ → Variant → ℕ → VariableSyncModule → VariableSyncModule
unfolding update_entry add_value
post_result vid result now m = record m {
  store = update_entry m.own_id (add_value vid result now) m.store;
}

unfoldable pub clear_all : List ResultEntry → List ResultEntry
unfolding clear
clear_all [] = []
clear_all (r ∷ rs) = clear r ∷ clear_all rs
