-- ===== src/Assignment/Adapt.antt =====
-- `adaptTaskChangesFrom`: the adaption to the lists of another assignment.

use mathlib.Core.Option
use alica_engine.Common.{
  ℕ, zero, suc, ◌≡◌, refl, inl, inr, true, [], ◌∷◌, map, some, if◌then◌else◌, ◌==◌, arith,
  Bool-cases, length, eq_of_==,
}
use alica_engine.Assignment.Pairs.{AgentStatePair, AgentStatePairs, get_state_of_agent}
use alica_engine.Assignment.Pairs.Laws.{entries}
use alica_engine.Assignment.{Assignment, AssignmentData}
use alica_engine.Assignment.Edit.{keep_old_state, adapt_lists, same_plan, adapt_task_changes_from}
use alica_engine.Assignment.Update.{total, IsExclusive}
use alica_engine.Assignment.Placement.{state_in}

state-cons :
    (b : ℕ) (x : AgentStatePair) (l : AgentStatePairs)
    → get_state_of_agent b (x ∷ l) ≡ (if x.agent == b then some x.state else get_state_of_agent b l)
unfolding get_state_of_agent
state-cons b x l = ground arith

kept : (old : AgentStatePairs) (x : AgentStatePair) → (keep_old_state old x).agent ≡ x.agent
kept old x = ground arith

kept-state :
    (old : AgentStatePairs) (x : AgentStatePair)
    → (keep_old_state old x).state ≡ Option.get_or (get_state_of_agent x.agent old) x.state
kept-state old x = ground arith

state-adapt :
    (b : ℕ) (old new : AgentStatePairs)
    → get_state_of_agent b (map (keep_old_state old) new)
      ≡ Option.map (Option.get_or (get_state_of_agent b old)) (get_state_of_agent b new)
state-adapt b old [] = unfold get_state_of_agent in refl
state-adapt b old (x ∷ new) =
    rw
      (
        state-cons b (keep_old_state old x) (map (keep_old_state old) new),
        state-cons b x new,
        kept old x,
        kept-state old x,
      )
      (elim (Bool-cases (x.agent == b)) [
        | inl same ↦ rw (same, eq_of_== x.agent b same)
        | inr other ↦ rw other (state-adapt b old new)
      ])

entries-adapt :
    (b : ℕ) (old new : AgentStatePairs) → entries b (map (keep_old_state old) new) ≡ entries b new
entries-adapt b old [] = refl
entries-adapt b old (x ∷ new) = ground (arith, entries-adapt b old new, kept old x)

total-adapt :
    (b : ℕ) (d new : AssignmentData)
    → length d ≡ length new
    → total b (adapt_lists d new) ≡ total b new
unfolding adapt_lists
total-adapt b [] [] h = refl
total-adapt b [] (n ∷ new) h = absurd (omega arith)
total-adapt b (l ∷ d) [] h = absurd (omega arith)
total-adapt b (l ∷ d) (n ∷ new) h = omega (arith, entries-adapt b l n, total-adapt b d new)

adapt_at :
    (b i : ℕ) (d new : AssignmentData)
    → length d ≡ length new
    → state_in b i (adapt_lists d new)
      ≡ Option.map (Option.get_or (state_in b i d)) (state_in b i new)
unfolding adapt_lists
adapt_at b i [] [] h = refl
adapt_at b i [] (n ∷ new) h = absurd (omega arith)
adapt_at b i (l ∷ d) [] h = absurd (omega arith)
adapt_at b zero (l ∷ d) (n ∷ new) h = state-adapt b l n
adapt_at b (suc i) (l ∷ d) (n ∷ new) h = adapt_at b i d new (omega arith)

-- `adaptTaskChangesFrom` an assignment of the same plan, in which no agent stands twice, takes over
-- its allocation of agents to entry points, but an agent that stays at its entry point keeps the
-- state that it is in. No agent stands twice in the result.
pub adapt_task_changes-placement :
    (other this : Assignment)
    → same_plan other.plan this.plan ≡ true
    → length this.assignment_data ≡ length other.assignment_data
    → IsExclusive other.assignment_data
    → let d' = (adapt_task_changes_from other this).assignment_data in
      IsExclusive d'
      × ((b i : ℕ)
          → state_in b i d'
            ≡ Option.map
                (Option.get_or (state_in b i this.assignment_data))
                (state_in b i other.assignment_data))
unfolding adapt_task_changes_from
adapt_task_changes-placement other this same len h = rw (same) (
  (λ b. omega (arith, h b, total-adapt b this.assignment_data other.assignment_data len)),
  λ b i. adapt_at b i this.assignment_data other.assignment_data len,
)
