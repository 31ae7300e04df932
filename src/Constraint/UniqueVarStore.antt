-- ===== src/Constraint/UniqueVarStore.antt =====
-- constraintmodul/UniqueVarStore.cpp: variables grouped into unification lists. A variable pointer
-- is a number. The store is passed explicitly; `setup_solver_vars` is given the solver's
-- `createVariable` as a function of the variable's id, since the solver is no part of this code.
pub mod Partition
pub mod Solver
mod Tests
use alica_engine.Common.{
  ℕ, zero, suc, Bool, List, [], ◌∷◌, ◌++◌, map, Option, none, some, any, find_if, contains,
  if◌then◌else◌, get_elem?,
}
use alica_engine.Common.Int.{ℤ, pos, negsuc}

abbrev pub Group : Type 0
Group = List ℕ

abbrev pub Store : Type 0
Store = List Group

-- `initWith`: `_store.resize(vs.size())`, then one `push_back` into each list.
pub init_with : Store → List ℕ → Store
init_with s [] = []
init_with [] (v ∷ vs) = (v ∷ []) ∷ init_with [] vs
init_with (g ∷ s) (v ∷ vs) = (g ++ v ∷ []) ∷ init_with s vs

pub add : ℕ → Store → Store
add v s = s ++ (v ∷ []) ∷ []

pub add_checked : ℕ → Store → Store
unfolding add
add_checked v s = if any (contains v) s then s else add v s

pub add_var_to : ℕ → ℕ → Store → Store
add_var_to representing to_add [] = (to_add ∷ representing ∷ []) ∷ []
add_var_to representing to_add (g ∷ s) =
    if contains representing g then (to_add ∷ g) ∷ s else g ∷ add_var_to representing to_add s

-- `front()` of an empty list is undefined: `none`.
pub front : Group → Option ℕ
front [] = none
front (v ∷ g) = some v

-- The representatives that `getAllRep` appends to `o_vars`; `none` where a list is empty.
pub get_all_rep : Store → List ℕ → Option (List ℕ)
unfolding front
get_all_rep [] o_vars = some o_vars
get_all_rep (g ∷ s) o_vars = elim (front g) [
  | none ↦ none
  | some v ↦ get_all_rep s (o_vars ++ v ∷ [])
]

-- The first list that holds the variable.
abbrev pub group_of : ℕ → Store → Option Group
group_of v = find_if (contains v)

-- The representative, and the store, to which an unknown variable is added.
pub get_rep : ℕ → Store → Option ℕ × Store
unfolding front add
get_rep v s = elim (group_of v s) [ some g ↦ (front g, s) | none ↦ (some v, add v s) ]

index_from : ℕ → ℕ → Store → ℤ
index_from i v [] = negsuc 0
index_from i v (g ∷ s) = if contains v g then pos i else index_from (suc i) v s

-- The index of the list that holds the variable, or -1.
pub get_index_of : ℕ → Store → ℤ
unfolding index_from
get_index_of v s = index_from 0 v s

-- `_solverVars[i]` is created for the first variable of list `i`.
pub setup_solver_vars {ℓ} : {V : Type ℓ} → (ℕ → V) → Store → List (Option V)
unfolding front
setup_solver_vars create [] = []
setup_solver_vars create (g ∷ s) =
    (elim (front g) [ none ↦ none | some v ↦ some (create v) ]) ∷ setup_solver_vars create s

-- `none` stands for the failing assertion at the end of the loop.
pub get_solver_variable {ℓ} : {V : Type ℓ} → ℕ → Store → List (Option V) → Option V
get_solver_variable v [] vars = none
get_solver_variable v (g ∷ s) [] = none
get_solver_variable v (g ∷ s) (x ∷ vars) = if contains v g then x else get_solver_variable v s vars
