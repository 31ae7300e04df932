-- ===== src/Authority/History/Tests.antt =====
-- The search for allocation cycles on a ring that holds one.
use alica_engine.Common.{◌≡◌, refl, true, List, [], ◌∷◌, arith}
use alica_engine.Authority.Difference.{
  AllocationDifference, utility, message, is_empty, reset, apply_difference, apply_subtractions,
  apply_additions, cancel_or_push,
}
use alica_engine.Authority.History.{
  start, reset_all, detect_allocation_cycle, scan_entry, scan_reason, close_cycle, detect_loop,
}
use alica_engine.Authority.History.Order.{newest_first, scan_all, answer, detect-scan_all}
use alica_engine.Authority.History.Cycles.{BeginsWithCycles, detect-cycles}

abbrev by_utility : AllocationDifference
by_utility = record {
  additions = record { entry_point = 2; robot = 4 } ∷ [];
  subtractions = record { entry_point = 1; robot = 4 } ∷ [];
  reason = utility;
}

abbrev by_message : AllocationDifference
by_message = record {
  additions = record { entry_point = 1; robot = 4 } ∷ [];
  subtractions = record { entry_point = 2; robot = 4 } ∷ [];
  reason = message;
}

-- The newest entry is at 0, and the one before it at 2.
abbrev ring : List AllocationDifference
ring = by_utility ∷ reset ∷ by_message ∷ []

detect_allocation_cycle_runs : detect_allocation_cycle 0 ring 0 ≡ (true, reset_all ring)
unfolding detect_allocation_cycle detect_loop scan_entry scan_reason close_cycle is_empty
    apply_difference apply_subtractions apply_additions cancel_or_push
detect_allocation_cycle_runs = refl

detect-scan_all_example :
    (detect_allocation_cycle 0 ring 0).0 ≡ answer (scan_all 0 (newest_first 0 ring) start)
detect-scan_all_example = detect-scan_all 0 0 ring (omega arith)

detect-cycles_example : BeginsWithCycles 1 (newest_first 0 ring)
detect-cycles_example =
    detect-cycles 0 0 ring (omega arith) (λ i. (detect_allocation_cycle_runs i).0)
