-- ===== src/Planning/Search/Terminates.antt =====
-- `calcNextBestPartialAssignment` of planselector/TaskAssignmentProblem.cpp ends.
use mathlib.Core.Path.{subst}
use alica_engine.Common.{
  ℕ, zero, suc, ◌≤◌, ◌<◌, ◌≢◌, inl, inr, false, List, length, leb, arith, Bool-cases, Option-cases,
}
use alica_engine.Model.{Interval}
use alica_engine.Planning.PartialAssignment.{PartialAssignment, is_goal, next_unassigned}
use alica_engine.Planning.Search.{Pool, Expansion, Outcome, out_of_fuel, expand, calc_next_best}
use alica_engine.Planning.Search.Fringe.{pop_back-cases}
use alica_engine.Planning.Search.Expand.{OnSome, measure, loop-measure}

abbrev Ends : Outcome → Type 0
Ends out_of_fuel = ⊥
Ends _ = Unit

module _ (eval : PartialAssignment → Interval) where
  pub expand-measure :
      (p : PartialAssignment) (rest : List PartialAssignment) (pool : Pool)
      → OnSome (λ e. measure e.container e.pool ≤ measure rest pool) (expand eval p rest pool)
  unfolding expand
  expand-measure p rest pool =
      let p' = next_unassigned p in
      let e : Expansion = record { container = rest; pool = pool; change = false } in
      elim (Bool-cases (leb (length p'.assignment) p'.next_agent_idx)) [
        | inl full ↦ rw full (omega arith)
        | inr room ↦
            rw room (loop-measure eval p' (measure rest pool) 0 p'.cardinalities e (omega arith))
      ]

  search-Ends :
      (fuel n : ℕ) (fringe : List PartialAssignment) (pool : Pool)
      → measure fringe pool < fuel
      → Ends (calc_next_best eval n fuel fringe pool)
  unfolding calc_next_best
  search-Ends zero n fringe pool enough = absurd (omega arith)
  search-Ends (suc fuel) n fringe pool enough = elim (pop_back-cases fringe) [
    | inl (empty, _) ↦ rw (empty, calc_next_best) tt
    | inr (rest, p, popped, pops) ↦ elim (Bool-cases (is_goal n p)) [
      | inl is ↦ rw (popped, is, calc_next_best) tt
      | inr not_ ↦ elim (Option-cases (expand eval p rest pool)) [
        | inl out ↦ rw (popped, not_, out, calc_next_best) tt
        | inr (e, on) ↦
            let less = subst (OnSome _) on (expand-measure p rest pool) in
            let shorter = pops.shorter in
            rw (popped, not_, on, calc_next_best)
              (search-Ends fuel n e.container e.pool (omega arith))
      ]
    ]
  ]

  -- The search ends, whatever the utility function, the fringe and the pool are: each round takes a
  -- candidate out of the fringe, and each candidate that it adds takes a place of the pool, so that as
  -- many rounds as the fringe has candidates and the pool free places, and one more, are enough.
  pub calc_next_best-ends :
      (fuel n : ℕ) (fringe : List PartialAssignment) (pool : Pool)
      → measure fringe pool < fuel
      → calc_next_best eval n fuel fringe pool ≢ out_of_fuel
  calc_next_best-ends fuel n fringe pool enough e =
      subst Ends e (search-Ends fuel n fringe pool enough)
