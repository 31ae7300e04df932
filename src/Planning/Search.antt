-- ===== src/Planning/Search.antt =====
-- The best-first search of planselector/TaskAssignmentProblem.cpp, with `expand` of
-- PartialAssignment.cpp and the pool of PartialAssignmentPool.h. The utility function, with the old
-- assignment, is the parameter `eval`. The fringe is a list from its front to its back.
pub mod Fringe
pub mod Expand
pub mod Optimal
pub mod Terminates
use alica_engine.Common.{
  ℕ, zero, suc, ◌+◌, ◌-◌, Bool, true, false, ◌||◌, List, [], ◌∷◌, Option, none, some, length,
  if◌then◌else◌, ltb, leb,
}
use alica_engine.Common.Int.{ℤ, pos, negsuc, ltb_ℤ}
use alica_engine.Model.{Interval}
use alica_engine.Planning.PartialAssignment.{
  PartialAssignment, precision, is_goal, assign_unassigned_agent, compare, next_unassigned,
}

-- The pool's size and `_curIndex`.
pub record Pool : Type 0 where
  pub size : ℕ
  pub cur_index : ℕ

-- `getNext`; `none` is the exception.
unfoldable pub get_next : Pool → Option Pool
get_next pool =
    if leb pool.size (pool.cur_index + 1)
    then none
    else some (record pool { cur_index = pool.cur_index + 1 })

unfoldable pub increase_size : Pool → Pool
increase_size pool = record pool { size = pool.size + pool.size + 5 }

-- `insert` at `std::upper_bound`: before the first element that `x` is less than.
unfoldable pub insert : PartialAssignment → List PartialAssignment → List PartialAssignment
insert x [] = x ∷ []
insert x (y ∷ ys) = if compare x y then x ∷ y ∷ ys else y ∷ insert x ys

-- `back` and `pop_back`.
unfoldable pub pop_back :
    List PartialAssignment → Option (List PartialAssignment × PartialAssignment)
pop_back [] = none
pop_back (x ∷ xs) = elim (pop_back xs) [ none ↦ some ([], x) | some (ys, y) ↦ some (x ∷ ys, y) ]

pub record Expansion : Type 0 where
  pub container : List PartialAssignment
  pub pool : Pool
  pub change : Bool

pub data Outcome : Type 0 where
  found : PartialAssignment → List PartialAssignment → Pool → Outcome
  none_left : Pool → Outcome
  exhausted : Outcome
  out_of_fuel : Outcome

-- The utility is above -1.
abbrev pub is_worth : PartialAssignment → Bool
is_worth q = ltb_ℤ (negsuc (precision - 1)) q.utility.upper

module _ (eval : PartialAssignment → Interval) where
  unfoldable pub evaluate : PartialAssignment → PartialAssignment
  evaluate pa = record pa { utility = eval pa }

  -- The child of `pa` in which the next agent takes the entry point `i`.
  unfoldable pub child : PartialAssignment → ℕ → PartialAssignment
  child pa i = evaluate (assign_unassigned_agent pa.next_agent_idx i pa).0

  -- The body of the loop of `expand`.
  unfoldable pub try_child : PartialAssignment → ℕ → Interval → Expansion → Option Expansion
  try_child pa i dc e =
      if ltb_ℤ (pos 0) dc.upper
      then elim (get_next e.pool) [
        | none ↦ none
        | some pool ↦
            let q = child pa i in
            if is_worth q
            then some (record { container = insert q e.container; pool = pool; change = true })
            else some (record e { pool = pool })
      ]
      else some e

  unfoldable pub expand_loop : PartialAssignment → ℕ → List Interval → Expansion → Option Expansion
  expand_loop pa i [] e = some e
  expand_loop pa i (dc ∷ dcs) e = elim (try_child pa i dc e) [
    | none ↦ none
    | some e' ↦ expand_loop pa (suc i) dcs e'
  ]

  -- `expand`; `none` is the exception of the pool.
  unfoldable pub expand : PartialAssignment → List PartialAssignment → Pool → Option Expansion
  expand pa container pool =
      let pa' = next_unassigned pa in
      let e : Expansion = record { container = container; pool = pool; change = false } in
      if leb (length pa'.assignment) pa'.next_agent_idx
      then some e
      else expand_loop pa' 0 pa'.cardinalities e

  -- `calcNextBestPartialAssignment`, by the rounds left.
  unfoldable pub calc_next_best : ℕ → ℕ → List PartialAssignment → Pool → Outcome
  calc_next_best agent_count zero fringe pool = out_of_fuel
  calc_next_best agent_count (suc fuel) fringe pool = elim (pop_back fringe) [
    | none ↦ none_left pool
    | some (rest, pa) ↦ elim (is_goal agent_count pa) [
      | true ↦ found pa rest pool
      | false ↦ elim (expand pa rest pool) [
        | none ↦ exhausted
        | some e ↦ calc_next_best agent_count fuel e.container e.pool
      ]
    ]
  ]
