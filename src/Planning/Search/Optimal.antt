-- ===== src/Planning/Search/Optimal.antt =====
-- The answer of `calcNextBestPartialAssignment` of planselector/TaskAssignmentProblem.cpp.
use mathlib.Core.Path.{subst}
use alica_engine.Common.{
  ℕ, zero, suc, ◌+◌, ◌≤◌, ◌<◌, ◌≡◌, inl, inr, true, false, List, [], ◌∷◌, some, length, get_elem?,
  All, leb, arith, Bool-cases, Option-cases,
}
use alica_engine.Common.Int.{pos, ltb_ℤ}
use alica_engine.Model.{Interval}
use alica_engine.Planning.PartialAssignment.{PartialAssignment, is_goal, next_unassigned}
use alica_engine.Planning.Search.{
  Pool, Expansion, Outcome, found, none_left, exhausted, out_of_fuel, is_worth, child, expand,
  calc_next_best,
}
use alica_engine.Planning.Search.Fringe.{Below, Sorted, pop_back-cases}
use alica_engine.Common.{Has}
use alica_engine.Planning.Search.Expand.{
  OnSome, OnSome-and, measure, loop-Sorted, loop-Has, loop-measure, loop-adds,
}

-- The allocations that extend `p`: the agents without an entry point take, one after the other, entry
-- points that have room.
pub data Reaches (eval : PartialAssignment → Interval)
    : PartialAssignment → PartialAssignment → Type 0 where
  here : (q : PartialAssignment) → Reaches eval q q
  there :
      (p q : PartialAssignment) (i : ℕ) (dc : Interval)
      → (next_unassigned p).next_agent_idx < length p.assignment
      → get_elem? p.cardinalities i ≡ some dc
      → ltb_ℤ (pos 0) dc.upper ≡ true
      → Reaches eval (child eval (next_unassigned p) i) q
      → Reaches eval p q

-- `p` promises `q`, which extends it: the agents without an entry point take, one after the other, entry points that have
-- room, and no allocation on the way has an upper bound below that of `q`.
pub data Promises (eval : PartialAssignment → Interval)
    : PartialAssignment → PartialAssignment → Type 0 where
  kept : (q : PartialAssignment) → Promises eval q q
  by_way :
      (p q : PartialAssignment) (i : ℕ) (dc : Interval)
      → (next_unassigned p).next_agent_idx < length p.assignment
      → get_elem? p.cardinalities i ≡ some dc
      → ltb_ℤ (pos 0) dc.upper ≡ true
      → Below q p
      → Promises eval (child eval (next_unassigned p) i) q
      → Promises eval p q

-- The answer to a search that could find `q`: a goal whose upper bound is not below that of `q`,
-- unless the pool is too small.
abbrev pub Answers : ℕ → PartialAssignment → Outcome → Type 0
Answers agent_count q (found g rest pool) = (is_goal agent_count g ≡ true) × Below q g
Answers agent_count q (none_left pool) = ⊥
Answers agent_count q exhausted = Unit
Answers agent_count q out_of_fuel = ⊥

module _ (eval : PartialAssignment → Interval) where
  Promises-Below : (p q : PartialAssignment) → Promises eval p q → Below q p
  Promises-Below p q (kept _) = omega arith
  Promises-Below p q (by_way _ _ i dc fit at room below r) = below

  Has-Below :
      (p q : PartialAssignment) (rest : List PartialAssignment)
      → All (λ x. Below x p) rest
      → Has (λ x. Promises eval x q) rest
      → Below q p
  Has-Below p q [] le h = absurd h
  Has-Below p q (x ∷ xs) le (inl r) =
      let below = Promises-Below x q r in let above = le.0 in omega arith
  Has-Below p q (x ∷ xs) le (inr h) = Has-Below p q xs le.1 h

  -- What an expansion of `p` leaves in the fringe.
  expand-keeps :
      (p : PartialAssignment) (rest : List PartialAssignment) (pool : Pool)
      → Sorted rest
      → OnSome
          (λ e. Sorted e.container × (measure e.container e.pool ≤ measure rest pool))
          (expand eval p rest pool)
  unfolding expand
  expand-keeps p rest pool sorted =
      let p' = next_unassigned p in
      let e : Expansion = record { container = rest; pool = pool; change = false } in
      elim (Bool-cases (leb (length p'.assignment) p'.next_agent_idx)) [
        | inl full ↦ rw full (sorted, omega arith)
        | inr room ↦ rw room (
            OnSome-and _ _ _ (loop-Sorted eval p' 0 p'.cardinalities e sorted)
              (loop-measure eval p' (measure rest pool) 0 p'.cardinalities e (omega arith)))
      ]

  expand-Has :
      (P : PartialAssignment → Type 0) (p : PartialAssignment) (rest : List PartialAssignment)
      (pool : Pool)
      → Has P rest
      → OnSome (λ e. Has P e.container) (expand eval p rest pool)
  unfolding expand
  expand-Has P p rest pool h =
      let p' = next_unassigned p in
      let e : Expansion = record { container = rest; pool = pool; change = false } in
      elim (Bool-cases (leb (length p'.assignment) p'.next_agent_idx)) [
        | inl full ↦ rw full h
        | inr room ↦ rw room (loop-Has eval p' P 0 p'.cardinalities e h)
      ]

  -- Where a goal can be reached from `p`, which is none, it can be reached from a child.
  expand-reaches :
      (n : ℕ) (p q : PartialAssignment) (rest : List PartialAssignment) (pool : Pool)
      → is_goal n p ≡ false
      → is_goal n q ≡ true
      → is_worth q ≡ true
      → Promises eval p q
      → OnSome (λ e. Has (λ x. Promises eval x q) e.container) (expand eval p rest pool)
  unfolding expand next_unassigned
  expand-reaches n p q rest pool not_ goal worth (kept _) = absurd (cc)
  expand-reaches n p q rest pool not_ goal worth (by_way _ _ i dc fit at room _ r) =
      let p' = next_unassigned p in
      let e : Expansion = record { container = rest; pool = pool; change = false } in
      let below = Promises-Below (child eval p' i) q r in
      let open_ : leb (length p.assignment) p'.next_agent_idx ≡ false = ground arith in
      let k : i ≡ 0 + i = omega arith in
      let worthy : is_worth (child eval p' i) ≡ true = ground arith in
      rw open_ (
        loop-adds eval p' (λ x. Promises eval x q) i 0 p'.cardinalities dc e at room
          (subst (λ (n : ℕ). is_worth (child eval p' n) ≡ true) k worthy)
          (subst (λ (n : ℕ). Promises eval (child eval p' n) q) k r))

  -- With more rounds than the fringe and the free places of the pool have together, the search ends and
  -- answers with a goal whose upper bound is not below that of `q`, unless the pool is too small. This
  -- holds for every goal `q` with a utility above -1 that can be reached from the fringe, which is sorted,
  -- by allocations whose upper bounds are not below that of `q`, the allocation of the fringe included.
  pub calc_next_best-Answers :
      (fuel n : ℕ) (fringe : List PartialAssignment) (pool : Pool) (q : PartialAssignment)
      → Sorted fringe
      → Has (λ x. Promises eval x q) fringe
      → is_goal n q ≡ true
      → is_worth q ≡ true
      → measure fringe pool < fuel
      → Answers n q (calc_next_best eval n fuel fringe pool)
  unfolding calc_next_best
  calc_next_best-Answers zero n fringe pool q sorted reach goal worth enough = absurd (omega arith)
  calc_next_best-Answers (suc fuel) n fringe pool q sorted reach goal worth enough =
      elim (pop_back-cases fringe) [
        | inl (_, empty) ↦ absurd (subst (Has (λ x. Promises eval x q)) empty reach)
        | inr (rest, p, popped, pops) ↦
            let (sorted_rest, below) = pops.sorted sorted in
            let sh = pops.shorter in
            elim (Bool-cases (is_goal n p)) [
              | inl is ↦
                  rw (popped, is, calc_next_best)
                    (
                      is,
                      elim (pops.has (λ x. Promises eval x q) reach) [
                        | inl r ↦ Promises-Below p q r
                        | inr h ↦ Has-Below p q rest below h
                      ],
                    )
              | inr not_ ↦ elim (Option-cases (expand eval p rest pool)) [
                | inl out ↦ rw (popped, not_, out, calc_next_best) tt
                | inr (e, on) ↦
                    let (s, m) = subst (OnSome _) on (expand-keeps p rest pool sorted_rest) in
                    let h =
                      subst (OnSome (λ e. Has (λ x. Promises eval x q) e.container)) on
                        (elim (pops.has (λ x. Promises eval x q) reach) [
                          | inl r ↦ expand-reaches n p q rest pool not_ goal worth r
                          | inr h ↦ expand-Has (λ x. Promises eval x q) p rest pool h
                        ]) in
                    rw (popped, not_, on, calc_next_best)
                      (calc_next_best-Answers fuel n e.container e.pool q s h goal worth
                        (omega arith))
              ]
            ]
      ]
