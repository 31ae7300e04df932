-- ===== src/Constraint/ConditionStore.antt =====
-- constraintmodul/ConditionStore.cpp: the active conditions, and for each variable those that mention
-- it. A condition and a variable are numbers for the pointers; a condition comes with its variables and
-- the template variables of its quantifiers. The map is a list of entries, whose order is not modelled.
-- The lock is not modelled, and `accept_query`, which works on a query, is left out.
pub mod Index
mod Tests
use alica_engine.Common.{
  ℕ, Bool, true, false, ◌&&◌, not, List, [], ◌∷◌, ◌++◌, Option, none, some, contains, erase_if,
  keep, if◌then◌else◌, ◌==◌,
}

-- `getVariables` and, for each quantifier, `getTemplateVariables`.
pub record Condition : Type 0 where
  pub id : ℕ
  pub variables : List ℕ
  pub quantifiers : List (List ℕ)

pub record VarConditions : Type 0 where
  pub variable : ℕ
  pub conditions : List ℕ

pub record ConditionStore : Type 0 where
  pub active_conditions : List ℕ
  pub active_var2_cond_map : List VarConditions

unfoldable pub clear : ConditionStore → ConditionStore
clear s = record { active_conditions = []; active_var2_cond_map = [] }

-- `_activeVar2CondMap[variable].push_back(con)`.
unfoldable pub push_var : ℕ → ℕ → List VarConditions → List VarConditions
push_var con v [] = record { variable = v; conditions = con ∷ [] } ∷ []
push_var con v (x ∷ xs) =
    if x.variable == v
    then record x { conditions = x.conditions ++ con ∷ [] } ∷ xs
    else x ∷ push_var con v xs

unfoldable pub push_all : ℕ → List ℕ → List VarConditions → List VarConditions
push_all con [] m = m
push_all con (v ∷ vs) m = push_all con vs (push_var con v m)

-- The loop over the quantifiers.
unfoldable pub push_quantifiers : ℕ → List (List ℕ) → List VarConditions → List VarConditions
push_quantifiers con [] m = m
push_quantifiers con (q ∷ qs) m = push_quantifiers con qs (push_all con q m)

abbrev is_nil {ℓ} : {A : Type ℓ} → List A → Bool
is_nil [] = true
is_nil (x ∷ xs) = false

-- `addCondition`; a null condition is `none`.
unfoldable pub add_condition : Option Condition → ConditionStore → ConditionStore
add_condition none s = s
add_condition (some con) s =
    if is_nil con.variables && is_nil con.quantifiers
    then s
    else if contains con.id s.active_conditions
    then s
    else record {
      active_conditions = s.active_conditions ++ con.id ∷ [];
      active_var2_cond_map =
          push_quantifiers con.id con.quantifiers
            (push_all con.id con.variables s.active_var2_cond_map);
    }

-- The variable's entry loses the condition. A variable without an entry, which would be undefined
-- behaviour, changes nothing.
unfoldable pub drop_var : ℕ → ℕ → List VarConditions → List VarConditions
drop_var con v [] = []
drop_var con v (x ∷ xs) =
    if x.variable == v
    then record x { conditions = keep (λ c. not (c == con)) x.conditions } ∷ xs
    else x ∷ drop_var con v xs

unfoldable pub drop_all : ℕ → List ℕ → List VarConditions → List VarConditions
drop_all con [] m = m
drop_all con (v ∷ vs) m = drop_all con vs (drop_var con v m)

unfoldable pub drop_quantifiers : ℕ → List (List ℕ) → List VarConditions → List VarConditions
drop_quantifiers con [] m = m
drop_quantifiers con (q ∷ qs) m = drop_quantifiers con qs (drop_all con q m)

-- `removeCondition` of a condition, which is not null.
unfoldable pub remove_condition : Condition → ConditionStore → ConditionStore
remove_condition con s =
    if contains con.id s.active_conditions
    then record {
      active_conditions = erase_if (λ c. c == con.id) s.active_conditions;
      active_var2_cond_map =
          drop_quantifiers con.id con.quantifiers
            (drop_all con.id con.variables s.active_var2_cond_map);
    }
    else s

-- The conditions under a variable: the entry that `find` gives, or nothing.
unfoldable pub conditions_of : ℕ → List VarConditions → List ℕ
conditions_of v [] = []
conditions_of v (x ∷ xs) = if x.variable == v then x.conditions else conditions_of v xs
