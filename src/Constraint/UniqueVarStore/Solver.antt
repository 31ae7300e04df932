-- ===== src/Constraint/UniqueVarStore/Solver.antt =====
-- Unified variables share one solver variable.
use mathlib.Core.Option
use alica_engine.Common.{
  ℕ, suc, ◌+◌, ◌≡◌, refl, ap, ◌∙◌, ◌≢◌, ◌⊎◌, inl, inr, [], ◌∷◌, Option, none, some, contains,
  get_elem?, arith, Bool-cases,
}
use alica_engine.Common.Int.{pos, negsuc}
use alica_engine.Constraint.UniqueVarStore.{
  Group, Store, front, group_of, index_from, get_index_of, setup_solver_vars, get_solver_variable,
}

lift_front {ℓ} :
    {V : Type ℓ} (create : ℕ → V) (g : Group)
    → ◌≡◌ {A = Option V}
        (elim (front g) [ none ↦ none | some v ↦ some (create v) ])
        (Option.map create (front g))
unfolding front
lift_front create [] = refl
lift_front create (v ∷ g) = refl

-- After `setupSolverVars` every variable of a list has the solver variable that was created for the
-- list's representative, and a variable outside the store has none.
pub get_solver_variable-setup {ℓ} :
    {V : Type ℓ} (create : ℕ → V) (v : ℕ) (s : Store)
    → get_solver_variable v s (setup_solver_vars create s)
      ≡ Option.bind (group_of v s) (λ g. Option.map create (front g))
unfolding get_solver_variable setup_solver_vars Option.bind
get_solver_variable-setup create v [] = refl
get_solver_variable-setup create v (g ∷ s) = elim (Bool-cases (contains v g)) [
  | inl e ↦ rw e (lift_front create g)
  | inr e ↦ rw e (get_solver_variable-setup create v s)
]

abbrev Located : ℕ → ℕ → Store → Type 0
Located i v s =
    ((index_from i v s ≡ negsuc 0) × (group_of v s ≡ none))
    ⊎ ((j : ℕ) × (index_from i v s ≡ pos (i + j))
        × (get_elem? s j ≡ group_of v s)
        × (group_of v s ≢ none))

index_from_lem : (i v : ℕ) (s : Store) → Located i v s
unfolding index_from
index_from_lem i v [] = inl (refl, refl)
index_from_lem i v (g ∷ s) = elim (Bool-cases (contains v g)) [
  | inl e ↦ rw e (inr (0, ap pos (omega arith), refl, λ h. cc))
  | inr e ↦ rw e (elim (index_from_lem (suc i) v s) [
    | inl h ↦ inl h
    | inr (j, at, here, known) ↦ inr (suc j, at ∙ ap pos (omega arith), here, known)
  ])
]

-- `getIndexOf` is -1 exactly for a variable that no list holds, and otherwise the position of the
-- variable's list.
pub get_index_of_lem :
    (v : ℕ) (s : Store)
    → ((get_index_of v s ≡ negsuc 0) × (group_of v s ≡ none))
      ⊎ ((j : ℕ) × (get_index_of v s ≡ pos j)
          × (get_elem? s j ≡ group_of v s)
          × (group_of v s ≢ none))
unfolding get_index_of
get_index_of_lem v s = elim (index_from_lem 0 v s) [
  | inl h ↦ inl h
  | inr (j, at, here, known) ↦ inr (j, at ∙ ap pos (omega arith), here, known)
]
