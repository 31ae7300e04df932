-- ===== src/Authority/Difference/Laws.antt =====
-- The lists of a difference hold no pair twice, and no pair stands in both.
use alica_engine.Common.{
  ℕ, ◌+◌, ◌≤◌, ◌≡◌, refl, true, List, [], ◌∷◌, any, count, erase_if, arith, count_of_any,
  count_of_not_any, count-append,
}
use alica_engine.Authority.Difference.{
  EntryPointRobotPair, AllocationDifference, pair_eq, cancel_or_push, apply_additions,
  apply_subtractions, apply_difference,
}

abbrev Pairs : Type 0
Pairs = List EntryPointRobotPair

-- How often a pair stands in a list.
abbrev pub at : EntryPointRobotPair → Pairs → ℕ
at q = count (pair_eq q)

abbrev pub one : EntryPointRobotPair → EntryPointRobotPair → ℕ
one q p = at q (p ∷ [])

pub record IsProper (d : AllocationDifference) : Type 0 where
  pub once : (q : EntryPointRobotPair) → at q d.additions + at q d.subtractions ≤ 1

at-erase :
    (q p : EntryPointRobotPair) (xs : Pairs)
    → any (pair_eq p) xs ≡ true
    → at q (erase_if (pair_eq p) xs) + one q p ≡ at q xs
at-erase q p [] h = absurd (cc)
at-erase q p (x ∷ xs) h = ground (arith, at-erase q p xs)

at_same : (q p : EntryPointRobotPair) (xs : Pairs) → pair_eq q p ≡ true → at q xs ≡ at p xs
at_same q p [] h = refl
at_same q p (x ∷ xs) h = ground (arith, at_same q p xs)

abbrev NewOwn : EntryPointRobotPair → Pairs → Pairs → Pairs
NewOwn p own opp = (cancel_or_push p own opp).0

-- Each list loses or gains the pair at most, and together they still hold every pair once.
pub cancel_or_push_once :
    (p q : EntryPointRobotPair) (own opp : Pairs)
    → at q own + at q opp ≤ 1
    → at q (cancel_or_push p own opp).0 + at q (cancel_or_push p own opp).1 ≤ 1
unfolding cancel_or_push
cancel_or_push_once p q own opp h = ground (
  arith,
  at-erase q p opp,
  count-append (pair_eq q) own (p ∷ []),
  at_same q p own,
  at_same q p opp,
  count_of_not_any (pair_eq p) own,
  count_of_not_any (pair_eq p) opp,
)

-- A pair that its own list does not hold yet adds one to the balance of the two lists.
pub cancel_or_push_net :
    (p q : EntryPointRobotPair) (own opp : Pairs)
    → at p own ≡ 0
    → at q (cancel_or_push p own opp).0 + at q opp
      ≡ at q own + at q (cancel_or_push p own opp).1 + one q p
unfolding cancel_or_push
cancel_or_push_net p q own opp h =
    ground
      (arith, at-erase q p opp, count-append (pair_eq q) own (p ∷ []), count_of_any (pair_eq p) own)

pub additions-IsProper :
    (ps : Pairs) (d : AllocationDifference) → IsProper d → IsProper (apply_additions ps d)
unfolding apply_additions
additions-IsProper [] d h = h
additions-IsProper (p ∷ ps) d h =
    additions-IsProper ps _
      (record { once = λ q. cancel_or_push_once p q d.additions d.subtractions (h.once q) })

subtractions-IsProper :
    (ps : Pairs) (d : AllocationDifference) → IsProper d → IsProper (apply_subtractions ps d)
unfolding apply_subtractions
subtractions-IsProper [] d h = h
subtractions-IsProper (p ∷ ps) d h = subtractions-IsProper ps _ (record {
  once = λ q.
      omega (arith, cancel_or_push_once p q d.subtractions d.additions (omega (arith, h.once q)));
})

-- Applying any difference to a proper one keeps it proper: no pair is doubled, and no pair stands
-- among the additions and among the subtractions.
pub apply_difference-IsProper :
    (d e : AllocationDifference) → IsProper d → IsProper (apply_difference d e)
unfolding apply_difference
apply_difference-IsProper d e h =
    subtractions-IsProper e.subtractions _ (additions-IsProper e.additions d h)
