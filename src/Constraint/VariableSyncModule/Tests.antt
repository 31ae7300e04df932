-- ===== src/Constraint/VariableSyncModule/Tests.antt =====
-- Two agents that share their values.
use alica_engine.Common.{ℕ, Bool, true, false, [], ◌∷◌, ◌≡◌, refl, arith, some}
use alica_engine.Common.Int.{pos}
use alica_engine.Constraint.ResultEntry.{Variant, ResultEntry, add_value, get_value, is_set}
use alica_engine.Constraint.VariableSyncModule.{
  SolverResult, VariableSyncModule, on_solver_result, publish_content, post_result, find_entry,
}
use alica_engine.Constraint.VariableSyncModule.Exchange.{value_of, publish_content-on_solver_result}

abbrev seven : Variant
seven = record { type = 4; raw = 7 ∷ 0 ∷ 0 ∷ 0 ∷ 0 ∷ 0 ∷ 0 ∷ 0 ∷ [] }

abbrev agent : ℕ → VariableSyncModule
agent i = record {
  own_id = i;
  store = record { id = i; values = [] } ∷ [];
  ttl4_communication = 10;
  running = true;
}

-- Agent 1 has found a value for the variable 5 at the time 100.
abbrev informed : VariableSyncModule
informed = post_result 5 seven 100 (agent 1)

abbrev own_entry : ResultEntry
own_entry = add_value 5 seven 100 (record { id = 1; values = [] })

abbrev nobody : ℕ → Bool
nobody a = false

publish_content-on_solver_result_example :
    (msg : SolverResult) × (publish_content true 105 informed ≡ some msg)
    × (value_of 1 5 (pos 100) (on_solver_result nobody 106 msg (agent 2)) ≡ seven)
unfolding post_result find_entry is_set get_value
publish_content-on_solver_result_example =
    publish_content-on_solver_result informed (agent 2) own_entry 5 105 106 (pos 100) nobody refl
      refl (omega arith) refl (omega arith) refl refl
