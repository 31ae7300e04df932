-- ===== src/Authority/CycleManager/Recording.antt =====
-- The difference between two assignments that `setNewAllocDiff` of allocationauthority/CycleManager.cpp
-- collects.
use alica_engine.Common.{Bool, not, List, [], ◌∷◌, ◌++◌, map, keep, if◌then◌else◌}
use alica_engine.Model.{EntryPoint}
use alica_engine.Assignment.Pairs.{AgentStatePair, AgentStatePairs, has_agent}
use alica_engine.Assignment.{AssignmentData}
use alica_engine.Authority.Difference.{AllocationDifference, EntryPointRobotPair, Reason}

abbrev pair : EntryPoint → AgentStatePair → EntryPointRobotPair
pair ep asp = record { entry_point = ep.id; robot = asp.agent }

-- The pairs of an entry point's list, and those whose agent is missing in another list.
unfoldable pub pairs_of : EntryPoint → AgentStatePairs → List EntryPointRobotPair
pairs_of ep l = map (pair ep) l

unfoldable pub missing_in :
    EntryPoint → AgentStatePairs → AgentStatePairs → List EntryPointRobotPair
unfolding pairs_of
missing_in ep l other = pairs_of ep (keep (λ asp. not (has_agent asp.agent other)) l)

-- The subtractions and the additions that `setNewAllocDiff` collects for one and the same plan.
unfoldable pub subtractions_of :
    List EntryPoint → AssignmentData → AssignmentData → List EntryPointRobotPair
unfolding missing_in
subtractions_of [] old new = []
subtractions_of (ep ∷ eps) [] new = []
subtractions_of (ep ∷ eps) (l ∷ old) [] = []
subtractions_of (ep ∷ eps) (l ∷ old) (n ∷ new) = missing_in ep l n ++ subtractions_of eps old new

unfoldable pub additions_of :
    List EntryPoint → AssignmentData → AssignmentData → List EntryPointRobotPair
unfolding missing_in
additions_of [] old new = []
additions_of (ep ∷ eps) [] new = []
additions_of (ep ∷ eps) (l ∷ old) [] = []
additions_of (ep ∷ eps) (l ∷ old) (n ∷ new) = missing_in ep n l ++ additions_of eps old new

-- All the pairs of an assignment.
unfoldable pub all_pairs : List EntryPoint → AssignmentData → List EntryPointRobotPair
unfolding pairs_of
all_pairs [] d = []
all_pairs (ep ∷ eps) [] = []
all_pairs (ep ∷ eps) (l ∷ d) = pairs_of ep l ++ all_pairs eps d

-- The difference that `setNewAllocDiff` writes, for the entry points and lists of two assignments
-- that have the same plan, or different ones.
unfoldable pub new_difference :
    Reason
    → Bool
    → List EntryPoint
    → AssignmentData
    → List EntryPoint
    → AssignmentData
    → AllocationDifference
unfolding subtractions_of additions_of all_pairs
new_difference reason same_plan old_eps old new_eps new =
    if same_plan
    then record {
      additions = additions_of new_eps old new;
      subtractions = subtractions_of new_eps old new;
      reason = reason;
    }
    else record {
      additions = all_pairs new_eps new;
      subtractions = all_pairs old_eps old;
      reason = reason;
    }
