-- ===== src/Collections/SuccessCollection.antt =====
-- collections/SuccessCollection.cpp: the agents that have finished a task, by entry point index.
use mathlib.Core.Option
use alica_engine.Common.{
  ℕ, Bool, false, List, [], ◌∷◌, ◌++◌, map, Option, none, some, if◌then◌else◌, ◌==◌, get_elem?, set,
}
use alica_engine.Model.{EntryPoint, Plan}

pub record SuccessCollection : Type 0 where
  pub plan : Option Plan
  pub success_data : List (List ℕ)

pub empty : SuccessCollection
empty = record { plan = none; success_data = [] }

-- The constructor for a plan: an empty group for every entry point.
unfoldable pub for_plan : Plan → SuccessCollection
for_plan p = record { plan = some p; success_data = map (λ _. []) p.entry_points }

-- `ep->getPlan() == _plan`.
abbrev pub in_plan : EntryPoint → Option Plan → Bool
in_plan ep none = false
in_plan ep (some p) = ep.plan == p.id

-- `_successData[i].push_back(agentId)`.
abbrev pub push_at : ℕ → ℕ → List (List ℕ) → List (List ℕ)
push_at i agent d = elim (get_elem? d i) [ none ↦ d | some g ↦ set d i (g ++ agent ∷ []) ]

unfoldable pub set_success : ℕ → EntryPoint → SuccessCollection → SuccessCollection
set_success agent ep c =
    if in_plan ep c.plan
    then record c { success_data = push_at ep.index agent c.success_data }
    else c

unfoldable pub clear : SuccessCollection → SuccessCollection
clear c = record c { success_data = map (λ _. []) c.success_data }

-- `nullptr` is `none`.
pub get_agents : EntryPoint → SuccessCollection → Option (List ℕ)
get_agents ep c = if in_plan ep c.plan then get_elem? c.success_data ep.index else none

pub find_by_id : ℕ → List EntryPoint → List (List ℕ) → Option (List ℕ)
find_by_id id [] d = none
find_by_id id (ep ∷ eps) [] = none
find_by_id id (ep ∷ eps) (g ∷ d) = if ep.id == id then some g else find_by_id id eps d

-- Reading `_plan` of a collection without a plan is undefined there: `none`.
pub get_agents_by_id : ℕ → SuccessCollection → Option (List ℕ)
unfolding find_by_id
get_agents_by_id id c = Option.bind c.plan (λ p. find_by_id id p.entry_points c.success_data)
