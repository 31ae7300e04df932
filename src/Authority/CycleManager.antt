-- ===== src/Authority/CycleManager.antt =====
-- allocationauthority/CycleManager.cpp: who has the authority over the allocation of a plan. Times are
-- numbers of nanoseconds. The authority interval is a mutable field of the plan, so it is passed in
-- and out. The multiplication of an interval by a floating-point factor, and the order of agent ids
-- (AgentID, of another package), are parameters of what uses them.
pub mod Recording
pub mod Difference
pub mod Events
pub mod Authority
pub mod Intervals
mod Tests
use alica_engine.Common.{
  ℕ, zero, suc, ◌+◌, ◌%◌, min, max, Bool, true, false, ◌&&◌, not, List, [], ◌∷◌, ◌++◌, map, Option,
  none, some, keep, length, set, if◌then◌else◌, ◌==◌, ltb,
}
use alica_engine.Common.Int.{ℤ, pos}
use alica_engine.Model.{EntryPoint}
use alica_engine.Assignment.Pairs.{AgentStatePair, AgentStatePairs, has_agent}
use alica_engine.Assignment.{AssignmentData}
use alica_engine.Authority.Difference.{AllocationDifference, EntryPointRobotPair, Reason, reset}
use alica_engine.Authority.History.{detect_allocation_cycle}
use Recording.{new_difference}

pub record EntryPointRobots : Type 0 where
  pub entrypoint : ℕ
  pub robots : List ℕ

-- containers/AllocationAuthorityInfo.h; a null agent is `none`.
pub record AllocationAuthorityInfo : Type 0 where
  pub sender_id : Option ℕ
  pub plan_id : ℤ
  pub parent_state : ℤ
  pub plan_type : ℤ
  pub authority : Option ℕ
  pub entry_point_robots : List EntryPointRobots

abbrev pub no_info : AllocationAuthorityInfo
no_info = record {
  sender_id = none;
  plan_id = pos 0;
  parent_state = pos 0;
  plan_type = pos 0;
  authority = none;
  entry_point_robots = [];
}

pub data CycleState : Type 0 where
  observing overridden overriding : CycleState

pub record CycleManager : Type 0 where
  pub cycle_state : CycleState
  pub allocation_history : List AllocationDifference
  pub newest : ℕ
  pub max_allocation_cycles : ℕ
  pub enabled : Bool
  pub my_id : ℕ
  pub override_timestamp : ℕ
  pub minimal_override_interval : ℕ
  pub maximal_override_interval : ℕ
  pub override_shout_interval : ℕ
  pub override_shout_time : ℕ
  pub fixed_allocation : AllocationAuthorityInfo

abbrev is_overriding : CycleState → Bool
is_overriding overriding = true
is_overriding _ = false

abbrev is_overridden_state : CycleState → Bool
is_overridden_state overridden = true
is_overridden_state _ = false

abbrev is_some {ℓ} : {A : Type ℓ} → Option A → Bool
is_some none = false
is_some (some a) = true

unfoldable pub is_overridden : CycleManager → Bool
is_overridden cm = is_overridden_state cm.cycle_state && is_some cm.fixed_allocation.authority

unfoldable pub may_do_utility_check : CycleManager → Bool
may_do_utility_check cm = not (is_overridden_state cm.cycle_state)

unfoldable pub have_authority : CycleManager → Bool
have_authority cm = is_overriding cm.cycle_state

-- The branch of `update` for a manager in override mode.
pub resume_observing : ℕ → CycleManager → ℕ → CycleManager
resume_observing now cm interval =
    let resumed = record cm { cycle_state = observing; fixed_allocation = no_info } in
    if is_overriding cm.cycle_state && ltb (cm.override_timestamp + interval) now
    then resumed
    else if is_overridden_state cm.cycle_state && ltb (cm.override_shout_time + interval) now
    then resumed
    else cm

-- The multiplications by `intervalIncFactor` and by `intervalDecFactor`.
module _ (increase decrease : ℕ → ℕ) where
  -- The branch of `update` for an observing manager.
  pub observe : ℕ → CycleManager → ℕ → CycleManager × ℕ
  observe now cm interval =
      let (found, history) =
        detect_allocation_cycle cm.max_allocation_cycles cm.allocation_history cm.newest in
      if found
      then (
        record cm {
          allocation_history = history;
          cycle_state = overriding;
          override_shout_time = 0;
          override_timestamp = now;
        },
        min cm.maximal_override_interval (increase interval),
      )
      else (cm, max cm.minimal_override_interval (decrease interval))

  update_state : CycleState → ℕ → CycleManager → ℕ → CycleManager × ℕ
  unfolding observe resume_observing
  update_state observing now cm interval = observe now cm interval
  update_state overridden now cm interval = (resume_observing now cm interval, interval)
  update_state overriding now cm interval = (resume_observing now cm interval, interval)

  -- `update`, of a manager whose plan is a behaviour or not, and has the given interval.
  unfoldable pub update : ℕ → Bool → CycleManager → ℕ → CycleManager × ℕ
  unfolding update_state
  update now is_behaviour cm interval =
      if not cm.enabled
      then (cm, interval)
      else if is_behaviour
      then (cm, interval)
      else update_state cm.cycle_state now cm interval

  -- `handleAuthorityInfo` for a message with the authority `rid`.
  unfoldable pub answer_authority :
      Bool → ℕ → AllocationAuthorityInfo → ℕ → CycleManager → ℕ → CycleManager × ℕ
  answer_authority greater now aai rid cm interval =
      if rid == cm.my_id
      then (cm, interval)
      else if greater
      then (
        record cm { cycle_state = overridden; override_shout_time = now; fixed_allocation = aai },
        interval,
      )
      else if not (is_overriding cm.cycle_state)
      then (
        record cm { cycle_state = overriding; override_timestamp = now; override_shout_time = 0 },
        min cm.maximal_override_interval (increase interval),
      )
      else (cm, interval)

  -- `handleAuthorityInfo`, with `*a > *b` on agent ids. A null authority, which is undefined
  -- behaviour there, changes nothing.
  unfoldable pub handle_authority_info :
      (ℕ → ℕ → Bool) → ℕ → AllocationAuthorityInfo → CycleManager → ℕ → CycleManager × ℕ
  unfolding answer_authority
  handle_authority_info greater now aai cm interval =
      if not cm.enabled then (cm, interval) else elim aai.authority [
        | none ↦ (cm, interval)
        | some rid ↦ answer_authority (greater rid cm.my_id) now aai rid cm interval
      ]

unfoldable pub needs_sending : ℕ → CycleManager → Bool
needs_sending now cm =
    is_overriding cm.cycle_state && ltb (cm.override_shout_time + cm.override_shout_interval) now

unfoldable pub sent : ℕ → CycleManager → CycleManager
sent now cm = record cm { override_shout_time = now }

-- `setNewAllocDiff`: the next slot of the ring takes the difference.
unfoldable pub set_new_alloc_diff :
    Reason
    → Bool
    → List EntryPoint
    → AssignmentData
    → List EntryPoint
    → AssignmentData
    → CycleManager
    → CycleManager
unfolding new_difference
set_new_alloc_diff reason same_plan old_eps old new_eps new cm =
    let next = (cm.newest + 1) % length cm.allocation_history in
    if not cm.enabled then cm else record cm {
      newest = next;
      allocation_history =
          set cm.allocation_history next (new_difference reason same_plan old_eps old new_eps new);
    }
