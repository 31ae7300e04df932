-- ===== src/Constraint/ConditionStore/Tests.antt =====
-- Two conditions on two variables.
use alica_engine.Common.{ℕ, refl, [], ◌∷◌, some}
use alica_engine.Constraint.ConditionStore.{
  Condition, ConditionStore, clear, add_condition, remove_condition,
}
use alica_engine.Constraint.ConditionStore.Index.{
  IsIndexed, clear-IsIndexed, add_condition-IsIndexed, remove_condition-IsIndexed,
}

-- Every condition mentions the variable 20, and its own number as a template variable.
abbrev known : ℕ → Condition
known c = record { id = c; variables = 20 ∷ []; quantifiers = (c ∷ []) ∷ [] }

abbrev blank : ConditionStore
blank = record { active_conditions = []; active_var2_cond_map = [] }

abbrev filled : ConditionStore
filled = add_condition (some (known 5)) (clear blank)

filled-IsIndexed : IsIndexed known filled
filled-IsIndexed = add_condition-IsIndexed known 5 (clear blank) refl (clear-IsIndexed known blank)

add_condition-IsIndexed_example : IsIndexed known (add_condition (some (known 6)) filled)
add_condition-IsIndexed_example = add_condition-IsIndexed known 6 filled refl filled-IsIndexed

remove_condition-IsIndexed_example : IsIndexed known (remove_condition (known 5) filled)
remove_condition-IsIndexed_example = remove_condition-IsIndexed known 5 filled refl filled-IsIndexed
