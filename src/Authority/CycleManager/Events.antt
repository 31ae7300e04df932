-- ===== src/Authority/CycleManager/Events.antt =====
-- The life of a cycle manager as a list of events, and case principles for its two state changes.
use alica_engine.Common.{
  ℕ, ◌+◌, min, max, ◌≡◌, inl, inr, Bool, true, false, ◌&&◌, not, List, [], ◌∷◌, some, if◌then◌else◌,
  ◌==◌, ltb, Bool-cases, Option-cases,
}
use alica_engine.Model.{EntryPoint}
use alica_engine.Assignment.{AssignmentData}
use alica_engine.Authority.Difference.{AllocationDifference, Reason}
use alica_engine.Authority.History.{detect_allocation_cycle}
use alica_engine.Authority.CycleManager.{
  AllocationAuthorityInfo, CycleState, CycleManager, observing, overridden, overriding, no_info,
  is_overriding, is_overridden_state, resume_observing, observe, update_state, update,
  answer_authority, handle_authority_info, sent, set_new_alloc_diff,
}

pub data Event : Type 0 where
  updates : (now : ℕ) → (is_behaviour : Bool) → Event
  receives : (now : ℕ) → AllocationAuthorityInfo → Event
  sends : (now : ℕ) → Event
  records :
      Reason → Bool → List EntryPoint → AssignmentData → List EntryPoint → AssignmentData → Event

-- A cycle manager, and the authority interval of its plan.
abbrev pub Managed : Type 0
Managed = CycleManager × ℕ

module _ (increase decrease : ℕ → ℕ) (greater : ℕ → ℕ → Bool) where
  unfoldable pub step : Managed → Event → Managed
  step (cm, interval) (updates now b) = update increase decrease now b cm interval
  step (cm, interval) (receives now aai) =
      handle_authority_info increase decrease greater now aai cm interval
  step (cm, interval) (sends now) = (sent now cm, interval)
  step (cm, interval) (records r same old_eps old new_eps new) =
      (set_new_alloc_diff r same old_eps old new_eps new cm, interval)

  unfoldable pub run : Managed → List Event → Managed
  run m [] = m
  run m (e ∷ es) = run (step m e) es

  -- The case principle of `handleAuthorityInfo`.
  pub handle_cases {ℓ} :
      (P : Managed → Type ℓ) (now interval : ℕ) (aai : AllocationAuthorityInfo) (cm : CycleManager)
      → P (cm, interval)
      → ((rid : ℕ)
          → aai.authority ≡ some rid
          → greater rid cm.my_id ≡ true
          → P (
            record cm {
              cycle_state = overridden;
              override_shout_time = now;
              fixed_allocation = aai;
            },
            interval,
          ))
      → P (
        record cm { cycle_state = overriding; override_timestamp = now; override_shout_time = 0 },
        min cm.maximal_override_interval (increase interval),
      )
      → P (handle_authority_info increase decrease greater now aai cm interval)
  unfolding handle_authority_info answer_authority
  handle_cases P now interval aai cm same yields claims = elim (Bool-cases cm.enabled) [
    | inr off ↦ simp off same
    | inl on ↦ elim (Option-cases aai.authority) [
      | inl null ↦ simp (on, null) same
      | inr (rid, from) ↦ elim (Bool-cases (rid == cm.my_id)) [
        | inl own ↦ simp (on, from, own) same
        | inr other ↦ elim (Bool-cases (greater rid cm.my_id)) [
          | inl above ↦ rw (on, from, other, above) (yields rid from above)
          | inr below ↦ elim (Bool-cases (is_overriding cm.cycle_state)) [
            | inl claimed ↦ simp (on, from, other, below, claimed) same
            | inr free ↦ rw (on, from, other, below, free) claims
          ]
        ]
      ]
    ]
  ]

-- The case principle of `update`.
pub resume_cases {ℓ} :
    (P : CycleManager → Type ℓ) (now interval : ℕ) (cm : CycleManager)
    → P cm
    → P (record cm { cycle_state = observing; fixed_allocation = no_info })
    → P (resume_observing now cm interval)
unfolding resume_observing
resume_cases P now interval cm same resumed =
    elim (Bool-cases (is_overriding cm.cycle_state && ltb (cm.override_timestamp + interval) now)) [
      | inl over ↦ rw over resumed
      | inr no_over ↦
          elim (Bool-cases
            (is_overridden_state cm.cycle_state && ltb (cm.override_shout_time + interval) now)) [
              | inl over ↦ rw (no_over, over) resumed
              | inr still ↦ rw (no_over, still) same
            ]
    ]

module _ (increase decrease : ℕ → ℕ) where
  pub update_cases {ℓ} :
      (P : Managed → Type ℓ) (now interval : ℕ) (is_behaviour : Bool) (cm : CycleManager)
      → P (cm, interval)
      → P (record cm { cycle_state = observing; fixed_allocation = no_info }, interval)
      → ((history : List AllocationDifference)
          → P (
            record cm {
              allocation_history = history;
              cycle_state = overriding;
              override_shout_time = 0;
              override_timestamp = now;
            },
            min cm.maximal_override_interval (increase interval),
          ))
      → P (cm, max cm.minimal_override_interval (decrease interval))
      → P (update increase decrease now is_behaviour cm interval)
  unfolding update observe
  update_cases P now interval is_behaviour cm same resumed claims calms =
      elim (Bool-cases cm.enabled) [
        | inr off ↦ simp off same
        | inl on ↦ elim (Bool-cases is_behaviour) [
          | inl behaviour ↦ simp (on, behaviour) same
          | inr plan ↦ simp (on, plan) (by_state cm.cycle_state)
        ]
      ]
    where
      by_state : (s : CycleState) → P (update_state increase decrease s now cm interval)
      by_state overridden = resume_cases (λ m. P (m, interval)) now interval cm same resumed
      by_state overriding = resume_cases (λ m. P (m, interval)) now interval cm same resumed
      by_state observing =
          elim (Bool-cases
            (detect_allocation_cycle cm.max_allocation_cycles cm.allocation_history cm.newest).0) [
              | inl found ↦ rw found (claims _)
              | inr none_ ↦ rw none_ calms
            ]

if_cases {ℓ κ} :
    {A : Type ℓ} (P : A → Type κ) (b : Bool) {x y : A} → P x → P y → P (if b then x else y)
if_cases P true px py = px
if_cases P false px py = py

-- The case principle of `setNewAllocDiff`.
pub record_cases {ℓ} :
    (P : CycleManager → Type ℓ) (r : Reason) (same_plan : Bool) (old_eps : List EntryPoint)
    (old : AssignmentData) (new_eps : List EntryPoint) (new : AssignmentData) (cm : CycleManager)
    → P cm
    → ((newest : ℕ) (history : List AllocationDifference)
        → P (record cm { newest = newest; allocation_history = history }))
    → P (set_new_alloc_diff r same_plan old_eps old new_eps new cm)
unfolding set_new_alloc_diff
record_cases P r same_plan old_eps old new_eps new cm same writes =
    if_cases P (not cm.enabled) same (writes _ _)
