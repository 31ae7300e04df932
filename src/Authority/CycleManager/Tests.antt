-- ===== src/Authority/CycleManager/Tests.antt =====
-- Two cycle managers of a team, and a change of the allocation, on concrete inputs.

use alica_engine.Common.{ℕ, ◌+◌, ◌≡◌, refl, ◌⊎◌, Bool, true, false, List, [], ◌∷◌, some, ltb, arith}
use alica_engine.Common.Int.{pos}
use alica_engine.Model.{EntryPoint}
use alica_engine.Assignment.Pairs.{AgentStatePair}
use alica_engine.Assignment.{AssignmentData}
use alica_engine.Authority.Difference.{AllocationDifference, utility, reset}
use alica_engine.Authority.Difference.Laws.{IsProper}
use alica_engine.Authority.Difference.Effect.{Leads, IsAllocation}
use alica_engine.Authority.CycleManager.{
  AllocationAuthorityInfo, CycleManager, observing, overridden, overriding, answer_authority, sent,
  no_info, handle_authority_info,
}
use alica_engine.Authority.CycleManager.Recording.{new_difference}
use alica_engine.Authority.CycleManager.Difference.{allocation, new_difference-Leads}
use alica_engine.Authority.CycleManager.Events.{Event, updates, receives, sends, step, run}
use alica_engine.Authority.CycleManager.Authority.{IsIdOrder, run-overridden, conflict_resolved}
use alica_engine.Authority.CycleManager.Intervals.{WithinBounds, run-WithinBounds}

abbrev greater : ℕ → ℕ → Bool
greater a b = ltb b a

greater-IsIdOrder : IsIdOrder greater
greater-IsIdOrder = record {
  irrefl = λ a. ground arith;
  asym = λ a b h. ground arith;
  total = λ a b h. ground arith;
}

-- Factors of 3/2 and of 1, in whole numbers.
abbrev increase : ℕ → ℕ
increase x = x + 50

abbrev decrease : ℕ → ℕ
decrease x = x

abbrev manager : ℕ → CycleManager
manager id = record {
  cycle_state = overriding;
  allocation_history = reset ∷ reset ∷ reset ∷ [];
  newest = 0;
  max_allocation_cycles = 1;
  enabled = true;
  my_id = id;
  override_timestamp = 0;
  minimal_override_interval = 100;
  maximal_override_interval = 500;
  override_shout_interval = 20;
  override_shout_time = 0;
  fixed_allocation = no_info;
}

abbrev info : ℕ → AllocationAuthorityInfo
info id = record no_info { sender_id = some id; authority = some id }

-- A message of agent 8, an update before and one after the interval, and a message sent.
abbrev life : List Event
life = receives 10 (info 8) ∷ updates 40 false ∷ updates 400 false ∷ sends 420 ∷ []

abbrev watching : CycleManager
watching = record (manager 3) { cycle_state = observing }

abbrev yielding : List Event
yielding = receives 10 (info 8) ∷ sends 20 ∷ []

yields : (run increase decrease greater (watching, 200) yielding).0.cycle_state ≡ overridden
unfolding run step handle_authority_info answer_authority sent
yields = refl

run-overridden_example :
    let cm' = (run increase decrease greater (watching, 200) yielding).0 in
    (rid : ℕ) × (cm'.fixed_allocation.authority ≡ some rid) × (greater rid cm'.my_id ≡ true)
run-overridden_example = run-overridden increase decrease greater yielding watching 200 refl yields

conflict_resolved_example :
    let a' = (handle_authority_info increase decrease greater 10 (info 8) (manager 3) 200).0 in
    let b' = (handle_authority_info increase decrease greater 12 (info 3) (manager 8) 200).0 in
    ((greater 3 8 ≡ true)
      × (a' ≡ manager 3)
      × (b'.cycle_state ≡ overridden)
      × (b'.fixed_allocation ≡ info 3))
    ⊎ ((greater 8 3 ≡ true)
        × (b' ≡ manager 8)
        × (a'.cycle_state ≡ overridden)
        × (a'.fixed_allocation ≡ info 8))
conflict_resolved_example =
    conflict_resolved increase decrease greater 10 12 200 200 (info 3) (info 8) (manager 3)
      (manager 8) greater-IsIdOrder refl refl refl refl refl refl (omega arith)

run-WithinBounds_example : WithinBounds (run increase decrease greater (manager 3, 200) life)
run-WithinBounds_example =
    run-WithinBounds increase decrease greater life (manager 3, 200) (λ x. omega arith)
      (λ x. omega arith) (omega arith, omega arith)

abbrev entry_point : ℕ → EntryPoint
entry_point i = record {
  id = 10 + i;
  index = i;
  state = 100 + i;
  cardinality = record { lower = pos 0; upper = pos 3 };
  success_required = false;
  plan = 1;
}

abbrev in_state : ℕ → ℕ → AgentStatePair
in_state a s = record { agent = a; state = s }

-- Agent 4 changes from the first entry point to the second one.
abbrev before : AssignmentData
before = (in_state 4 100 ∷ in_state 5 100 ∷ []) ∷ [] ∷ []

abbrev after : AssignmentData
after = (in_state 5 100 ∷ []) ∷ (in_state 4 101 ∷ []) ∷ []

abbrev entry_points : List EntryPoint
entry_points = entry_point 0 ∷ entry_point 1 ∷ []

abbrev change : AllocationDifference
change = new_difference utility true entry_points before entry_points after

new_difference-Leads_example :
    IsProper change
    × Leads change (allocation entry_points before) (allocation entry_points after)
    × IsAllocation (allocation entry_points before)
    × IsAllocation (allocation entry_points after)
new_difference-Leads_example =
    new_difference-Leads utility entry_points before after ((omega arith, tt), (tt, tt)) refl
      (λ b. ground arith) (λ b. ground arith)
