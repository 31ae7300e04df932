-- ===== src/Constraint/UniqueVarStore/Tests.antt =====
-- A store of three variables on concrete inputs.

use alica_engine.Common.{◌≡◌, refl, [], ◌∷◌, some, arith}
use alica_engine.Constraint.UniqueVarStore.{Store, add_var_to, group_of}
use alica_engine.Constraint.UniqueVarStore.Partition.{IsPartition, group_of-add_var_to}

abbrev store : Store
store = (4 ∷ 7 ∷ []) ∷ (9 ∷ []) ∷ []

store-IsPartition : IsPartition store
store-IsPartition = record { once = λ v. ground arith; nonempty = (tt, (tt, tt)) }

add_var_to_runs : add_var_to 7 5 store ≡ (5 ∷ 4 ∷ 7 ∷ []) ∷ (9 ∷ []) ∷ []
unfolding add_var_to
add_var_to_runs = refl

group_of-add_var_to_example : group_of 7 (add_var_to 7 5 store) ≡ some (5 ∷ 4 ∷ 7 ∷ [])
group_of-add_var_to_example = group_of-add_var_to 7 7 5 store store-IsPartition refl
