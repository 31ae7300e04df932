-- ===== src/Authority/CycleManager/Difference.antt =====
-- The difference that `setNewAllocDiff` records is the difference between the two assignments.
use mathlib.Core.Path.{subst}
use alica_engine.Common.{
  eq_of_==, ℕ, ◌+◌, ◌≤◌, ◌≡◌, refl, sym, ap, ◌∙◌, ◌≢◌, inl, inr, true, not, List, [], ◌∷◌, keep,
  count-append, All, if◌then◌else◌, ◌==◌, arith, Bool-cases, length,
}
use alica_engine.Model.{EntryPoint, Distinct}
use alica_engine.Assignment.Pairs.{AgentStatePairs, has_agent}
use alica_engine.Assignment.Pairs.Laws.{entries, has_agent-entries, not_has_agent-entries}
use alica_engine.Assignment.{AssignmentData}
use alica_engine.Assignment.Update.{total, IsExclusive}
use alica_engine.Authority.Difference.{EntryPointRobotPair, Reason, pair_eq}
use alica_engine.Authority.Difference.Laws.{at, IsProper}
use alica_engine.Authority.Difference.Effect.{Allocation, IsAllocation, Leads}
use alica_engine.Authority.CycleManager.Recording.{
  pairs_of, missing_in, subtractions_of, additions_of, all_pairs, new_difference,
}

at-pairs_of :
    (q : EntryPointRobotPair) (ep : EntryPoint) (l : AgentStatePairs)
    → at q (pairs_of ep l) ≡ (if q.entry_point == ep.id then entries q.robot l else 0)
unfolding pairs_of
at-pairs_of q ep [] = ground arith
at-pairs_of q ep (x ∷ l) = ground (arith, at-pairs_of q ep l)

entries-missing :
    (b : ℕ) (l other : AgentStatePairs)
    → entries b (keep (λ asp. not (has_agent asp.agent other)) l)
      ≡ (if has_agent b other then 0 else entries b l)
entries-missing b [] other = ground arith
entries-missing b (x ∷ l) other = elim (Bool-cases (x.agent == b)) [
  | inl same ↦ rw (same, eq_of_== x.agent b same) (ground (arith, entries-missing b l other, same))
  | inr ne ↦ ground (arith, entries-missing b l other)
]

at-missing_in :
    (q : EntryPointRobotPair) (ep : EntryPoint) (l other : AgentStatePairs)
    → at q (missing_in ep l other) ≡ (
        if q.entry_point == ep.id
        then if has_agent q.robot other then 0 else entries q.robot l
        else 0)
unfolding missing_in
at-missing_in q ep l other = ground (
  arith,
  at-pairs_of q ep (keep (λ asp. not (has_agent asp.agent other)) l),
  entries-missing q.robot l other,
)

-- The allocation that an assignment stands for.
abbrev pub allocation : List EntryPoint → AssignmentData → Allocation
allocation eps d q = at q (all_pairs eps d)

allocation-cons :
    (q : EntryPointRobotPair) (ep : EntryPoint) (eps : List EntryPoint) (l : AgentStatePairs)
    (d : AssignmentData)
    → at q (all_pairs (ep ∷ eps) (l ∷ d))
      ≡ (if q.entry_point == ep.id then entries q.robot l else 0) + at q (all_pairs eps d)
unfolding all_pairs
allocation-cons q ep eps l d =
    count-append (pair_eq q) (pairs_of ep l) (all_pairs eps d)
    ∙ ap (λ (n : ℕ). n + at q (all_pairs eps d)) (at-pairs_of q ep l)

allocation-le :
    (q : EntryPointRobotPair) (eps : List EntryPoint) (d : AssignmentData)
    → at q (all_pairs eps d) ≤ total q.robot d
unfolding all_pairs
allocation-le q [] d = omega arith
allocation-le q (ep ∷ eps) [] = omega arith
allocation-le q (ep ∷ eps) (l ∷ d) =
    ground (arith, allocation-cons q ep eps l d, allocation-le q eps d)

same_plan_balance :
    (q : EntryPointRobotPair) (eps : List EntryPoint) (old new : AssignmentData)
    → length old ≡ length new
    → total q.robot old ≤ 1
    → total q.robot new ≤ 1
    → at q (all_pairs eps old) + at q (additions_of eps old new)
      ≡ at q (all_pairs eps new) + at q (subtractions_of eps old new)
unfolding all_pairs additions_of subtractions_of
same_plan_balance q [] old new len ho hn = refl
same_plan_balance q (ep ∷ eps) [] [] len ho hn = refl
same_plan_balance q (ep ∷ eps) [] (n ∷ new) len ho hn = absurd (omega arith)
same_plan_balance q (ep ∷ eps) (l ∷ old) [] len ho hn = absurd (omega arith)
same_plan_balance q (ep ∷ eps) (l ∷ old) (n ∷ new) len ho hn = ground (
  arith,
  allocation-cons q ep eps l old,
  allocation-cons q ep eps n new,
  at-missing_in q ep l n,
  at-missing_in q ep n l,
  count-append (pair_eq q) (missing_in ep l n) (subtractions_of eps old new),
  count-append (pair_eq q) (missing_in ep n l) (additions_of eps old new),
  has_agent-entries q.robot l,
  has_agent-entries q.robot n,
  not_has_agent-entries q.robot l,
  not_has_agent-entries q.robot n,
  same_plan_balance q eps old new,
)

off_plan :
    (q : EntryPointRobotPair) (eps : List EntryPoint) (old new : AssignmentData)
    → All (λ y. q.entry_point ≢ y.id) eps
    → (at q (additions_of eps old new) ≡ 0) × (at q (subtractions_of eps old new) ≡ 0)
unfolding additions_of subtractions_of
off_plan q [] old new h = (refl, refl)
off_plan q (ep ∷ eps) [] new h = (refl, refl)
off_plan q (ep ∷ eps) (l ∷ old) [] h = (refl, refl)
off_plan q (ep ∷ eps) (l ∷ old) (n ∷ new) h =
    let rest = off_plan q eps old new h.1 in
    (
      ground (
        arith,
        h.0,
        rest,
        at-missing_in q ep n l,
        count-append (pair_eq q) (missing_in ep n l) (additions_of eps old new),
      ),
      ground (
        arith,
        h.0,
        rest,
        at-missing_in q ep l n,
        count-append (pair_eq q) (missing_in ep l n) (subtractions_of eps old new),
      ),
    )

same_plan_once :
    (q : EntryPointRobotPair) (eps : List EntryPoint) (old new : AssignmentData)
    → Distinct eps
    → total q.robot old ≤ 1
    → total q.robot new ≤ 1
    → at q (additions_of eps old new) + at q (subtractions_of eps old new) ≤ 1
unfolding additions_of subtractions_of
same_plan_once q [] old new distinct ho hn = omega arith
same_plan_once q (ep ∷ eps) [] new distinct ho hn = omega arith
same_plan_once q (ep ∷ eps) (l ∷ old) [] distinct ho hn = omega arith
same_plan_once q (ep ∷ eps) (l ∷ old) (n ∷ new) distinct ho hn =
    elim (Bool-cases (q.entry_point == ep.id)) [
      | inl here ↦
          let rest = off_plan q eps old new (
            subst (λ i. All (λ y. i ≢ y.id) eps) (sym (eq_of_== q.entry_point ep.id here))
              distinct.0) in
          ground (
            arith,
            rest,
            at-missing_in q ep n l,
            at-missing_in q ep l n,
            count-append (pair_eq q) (missing_in ep n l) (additions_of eps old new),
            count-append (pair_eq q) (missing_in ep l n) (subtractions_of eps old new),
            has_agent-entries q.robot l,
            has_agent-entries q.robot n,
            not_has_agent-entries q.robot l,
            not_has_agent-entries q.robot n,
          )
      | inr elsewhere ↦ ground (
        arith,
        at-missing_in q ep n l,
        at-missing_in q ep l n,
        count-append (pair_eq q) (missing_in ep n l) (additions_of eps old new),
        count-append (pair_eq q) (missing_in ep l n) (subtractions_of eps old new),
        same_plan_once q eps old new distinct.1,
      )
    ]

-- For two assignments of one plan, in which no agent stands twice, `setNewAllocDiff` writes a proper
-- difference that leads from the allocation of the old one to that of the new one.
pub new_difference-Leads :
    (reason : Reason) (eps : List EntryPoint) (old new : AssignmentData)
    → Distinct eps
    → length old ≡ length new
    → IsExclusive old
    → IsExclusive new
    → IsProper (new_difference reason true eps old eps new)
      × Leads (new_difference reason true eps old eps new) (allocation eps old) (allocation eps new)
      × IsAllocation (allocation eps old)
      × IsAllocation (allocation eps new)
unfolding new_difference
new_difference-Leads reason eps old new distinct len ho hn = (
  record { once = λ q. same_plan_once q eps old new distinct (ho q.robot) (hn q.robot) },
  record { balance = λ q. same_plan_balance q eps old new len (ho q.robot) (hn q.robot) },
  (λ q. omega (arith, allocation-le q eps old, ho q.robot)),
  λ q. omega (arith, allocation-le q eps new, hn q.robot),
)
