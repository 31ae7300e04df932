-- ===== src/Authority/Difference.antt =====
-- allocationauthority/AllocationDifference.cpp and EntryPointRobotPair.cpp. Entry points and agents
-- are uniquely instantiated, so that a number stands for the pointer and for the id that it holds.
pub mod Laws
pub mod Effect
mod Tests
use alica_engine.Common.{
  ℕ, ◌≡◌, Bool, true, false, ◌&&◌, not, List, [], ◌∷◌, ◌++◌, any, erase_if, if◌then◌else◌, ◌==◌,
}

pub record EntryPointRobotPair : Type 0 where
  pub entry_point : ℕ
  pub robot : ℕ

-- `operator==` of `this` and `other`.
abbrev pub pair_eq : EntryPointRobotPair → EntryPointRobotPair → Bool
pair_eq this other =
    if not (other.entry_point == this.entry_point) then false else other.robot == this.robot

pub data Reason : Type 0 where
  message utility empty : Reason

pub record AllocationDifference : Type 0 where
  pub additions : List EntryPointRobotPair
  pub subtractions : List EntryPointRobotPair
  pub reason : Reason

abbrev is_nil {ℓ} : {A : Type ℓ} → List A → Bool
is_nil [] = true
is_nil (x ∷ xs) = false

abbrev pub set_reason : Reason → AllocationDifference → AllocationDifference
set_reason r d = record d { reason = r }

unfoldable pub is_empty : AllocationDifference → Bool
is_empty d = is_nil d.additions && is_nil d.subtractions

abbrev pub reset : AllocationDifference
reset = record { additions = []; subtractions = []; reason = empty }

-- The body of the two loops of `applyDifference`: a pair that stands in the opposite list is
-- erased there, and is otherwise appended to its own list, unless it stands there already.
unfoldable pub cancel_or_push :
    EntryPointRobotPair
    → List EntryPointRobotPair
    → List EntryPointRobotPair
    → List EntryPointRobotPair × List EntryPointRobotPair
cancel_or_push p own opposite =
    if any (pair_eq p) opposite
    then (own, erase_if (pair_eq p) opposite)
    else if any (pair_eq p) own
    then (own, opposite)
    else (own ++ p ∷ [], opposite)

unfoldable pub apply_additions :
    List EntryPointRobotPair → AllocationDifference → AllocationDifference
apply_additions [] d = d
apply_additions (p ∷ ps) d =
    let (adds, subs) = cancel_or_push p d.additions d.subtractions in
    apply_additions ps (record d { additions = adds; subtractions = subs })

unfoldable pub apply_subtractions :
    List EntryPointRobotPair → AllocationDifference → AllocationDifference
apply_subtractions [] d = d
apply_subtractions (p ∷ ps) d =
    let (subs, adds) = cancel_or_push p d.subtractions d.additions in
    apply_subtractions ps (record d { additions = adds; subtractions = subs })

unfoldable pub apply_difference : AllocationDifference → AllocationDifference → AllocationDifference
apply_difference this other =
    apply_subtractions other.subtractions (apply_additions other.additions this)
