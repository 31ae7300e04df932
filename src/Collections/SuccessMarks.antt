-- ===== src/Collections/SuccessMarks.antt =====
-- collections/SuccessMarks.cpp: the tasks that an agent has finished, by plan. The map is a list of
-- entries; the order in which it holds the plans, which is that of their addresses in the source, is
-- not modelled. The repository's `find` is the parameter of `update`.
pub mod Laws
pub mod Message
mod Tests
use alica_engine.Common.{
  ℕ, Bool, true, false, ◌||◌, not, List, [], ◌∷◌, ◌++◌, map, Option, none, some, any, keep,
  contains, if◌then◌else◌, ◌==◌,
}
use alica_engine.Model.{EntryPoint, is_entry_point}

pub record PlanMarks : Type 0 where
  pub plan : ℕ
  pub entry_points : List EntryPoint

abbrev pub SuccessMarks : Type 0
SuccessMarks = List PlanMarks

-- `std::find` of an entry point.
abbrev pub has_entry_point : EntryPoint → List EntryPoint → Bool
has_entry_point e = any (is_entry_point e)

-- `find` of the map.
unfoldable pub succeeded_entry_points : ℕ → SuccessMarks → Option (List EntryPoint)
succeeded_entry_points p [] = none
succeeded_entry_points p (x ∷ xs) =
    if x.plan == p then some x.entry_points else succeeded_entry_points p xs

abbrev pub push_new : EntryPoint → List EntryPoint → List EntryPoint
push_new e l = if has_entry_point e l then l else l ++ e ∷ []

-- `markSuccessfull`, where `operator[]` makes an entry for a new plan.
unfoldable pub mark_successfull : ℕ → EntryPoint → SuccessMarks → SuccessMarks
mark_successfull p e [] = record { plan = p; entry_points = push_new e [] } ∷ []
mark_successfull p e (x ∷ xs) =
    if x.plan == p
    then record x { entry_points = push_new e x.entry_points } ∷ xs
    else x ∷ mark_successfull p e xs

-- The body of the loop of `update`: a new entry holds the entry point alone.
unfoldable pub add_found : EntryPoint → SuccessMarks → SuccessMarks
add_found ep [] = record { plan = ep.plan; entry_points = ep ∷ [] } ∷ []
add_found ep (x ∷ xs) =
    if x.plan == ep.plan
    then record x { entry_points = push_new ep x.entry_points } ∷ xs
    else x ∷ add_found ep xs

unfoldable pub update_loop : (ℕ → Option EntryPoint) → List ℕ → SuccessMarks → SuccessMarks
update_loop find [] m = m
update_loop find (id ∷ ids) m = elim (find id) [
  | none ↦ update_loop find ids m
  | some ep ↦ update_loop find ids (add_found ep m)
]

-- `update`, from the ids of a message.
unfoldable pub update : (ℕ → Option EntryPoint) → List ℕ → SuccessMarks
update find succeeded_eps = update_loop find succeeded_eps []

unfoldable pub limit_to_plans : List ℕ → SuccessMarks → SuccessMarks
limit_to_plans active = keep (λ x. contains x.plan active)

unfoldable pub remove_plan : ℕ → SuccessMarks → SuccessMarks
remove_plan p = keep (λ x. not (x.plan == p))

unfoldable pub succeeded : ℕ → EntryPoint → SuccessMarks → Bool
succeeded p e m = elim (succeeded_entry_points p m) [ none ↦ false | some l ↦ has_entry_point e l ]

abbrev is_empty : List EntryPoint → Bool
is_empty [] = true
is_empty (x ∷ xs) = false

-- A plan of the map that has a mark.
abbrev pub marked : SuccessMarks → ℕ → Bool
marked m p = elim (succeeded_entry_points p m) [ none ↦ false | some l ↦ not (is_empty l) ]

-- `anyTaskSucceeded`; the plans of a plan type, or `none` for an other abstract plan.
unfoldable pub any_task_succeeded : ℕ → Option (List ℕ) → SuccessMarks → Bool
any_task_succeeded p plans m = elim (succeeded_entry_points p m) [
  | some l ↦ not (is_empty l)
  | none ↦ elim plans [ none ↦ false | some ps ↦ any (marked m) ps ]
]

-- `toIdGrp`: the ids for a message.
unfoldable pub to_id_grp : SuccessMarks → List ℕ
to_id_grp [] = []
to_id_grp (x ∷ xs) = map (λ e. e.id) x.entry_points ++ to_id_grp xs
