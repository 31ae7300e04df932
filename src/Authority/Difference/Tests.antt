-- ===== src/Authority/Difference/Tests.antt =====
-- Allocation differences on concrete inputs: two agents that change their places.
use alica_engine.Common.{ℕ, ◌≡◌, refl, ◌↔◌, true, [], ◌∷◌, if◌then◌else◌, ◌==◌, arith}
use alica_engine.Authority.Difference.{
  EntryPointRobotPair, AllocationDifference, utility, message, is_empty, reset, apply_difference,
  apply_subtractions, apply_additions, cancel_or_push,
}
use alica_engine.Authority.Difference.Laws.{IsProper}
use alica_engine.Authority.Difference.Effect.{
  Allocation, IsAllocation, Leads, stay, move, apply_all, apply_difference-Leads,
  apply_all-is_empty,
}

abbrev pair : ℕ → ℕ → EntryPointRobotPair
pair ep agent = record { entry_point = ep; robot = agent }

-- Agent 4 goes from entry point 1 to entry point 2, and back.
abbrev there : AllocationDifference
there = record { additions = pair 2 4 ∷ []; subtractions = pair 1 4 ∷ []; reason = utility }

abbrev back : AllocationDifference
back = record { additions = pair 1 4 ∷ []; subtractions = pair 2 4 ∷ []; reason = message }

abbrev placed : ℕ → Allocation
placed ep q = if q.robot == 4 then if q.entry_point == ep then 1 else 0 else 0

apply_difference_runs : is_empty (apply_difference there back) ≡ true
unfolding is_empty apply_difference apply_subtractions apply_additions cancel_or_push
apply_difference_runs = refl

there-IsProper : IsProper there
there-IsProper = record { once = λ q. ground arith }

back-IsProper : IsProper back
back-IsProper = record { once = λ q. ground arith }

placed-IsAllocation : (ep : ℕ) → IsAllocation (placed ep)
placed-IsAllocation ep q = ground arith

there-Leads : Leads there (placed 1) (placed 2)
there-Leads = record { balance = λ q. ground arith }

back-Leads : Leads back (placed 2) (placed 1)
back-Leads = record { balance = λ q. ground arith }

apply_difference-Leads_example : Leads (apply_difference there back) (placed 1) (placed 1)
apply_difference-Leads_example =
    apply_difference-Leads there back (placed 1) (placed 2) (placed 1) (placed-IsAllocation 1)
      (placed-IsAllocation 2) (placed-IsAllocation 1) there-IsProper back-IsProper there-Leads
      back-Leads

apply_all-is_empty_example :
    (is_empty (apply_all reset (there ∷ back ∷ [])) ≡ true)
    ↔ ((q : EntryPointRobotPair) → placed 1 q ≡ placed 1 q)
apply_all-is_empty_example = apply_all-is_empty (there ∷ back ∷ []) (placed 1) (placed 1) (
    move (placed 1) (placed 2) (placed 1) (placed-IsAllocation 1) there-IsProper there-Leads (
      move (placed 2) (placed 1) (placed 1) (placed-IsAllocation 2) back-IsProper back-Leads
        (stay (placed 1) (placed-IsAllocation 1))))
