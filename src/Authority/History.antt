-- ===== src/Authority/History.antt =====
-- The ring of allocation differences of allocationauthority/CycleManager.cpp, and the search for an
-- allocation cycle in it (`editNextDifference`, `detectAllocationCycle`).
pub mod Order
pub mod Cycles
mod Tests
use alica_engine.Common.{
  ℕ, zero, suc, ◌+◌, ◌-◌, ◌%◌, Bool, true, false, List, [], ◌∷◌, map, Option, none, some,
  if◌then◌else◌, ◌==◌, ltb, length, get_elem?, set, not,
}
use alica_engine.Authority.Difference.{
  AllocationDifference, Reason, message, utility, empty, is_empty, reset, apply_difference,
}

-- The local variables of the loop. Of the pointer `utChange` only its being null is used.
pub record Scan : Type 0 where
  pub cycles_found : ℕ
  pub ut_change : Bool
  pub temp : AllocationDifference

pub data Verdict : Type 0 where
  go : Scan → Verdict
  stop : Bool → Verdict

-- The last branch of the loop: a difference that a message caused, after a utility change.
unfoldable pub close_cycle : ℕ → AllocationDifference → Scan → Verdict
close_cycle max_cycles temp s =
    if is_empty temp
    then if ltb max_cycles (s.cycles_found + 1)
      then stop true
      else go (record { cycles_found = s.cycles_found + 1; ut_change = false; temp = temp })
    else go (record s { temp = temp })

unfoldable pub scan_reason : Reason → ℕ → AllocationDifference → Scan → Verdict
unfolding close_cycle
scan_reason utility max_cycles e s =
    if s.ut_change
    then stop false
    else go (record s { ut_change = true; temp = apply_difference reset e })
scan_reason empty max_cycles e s = stop false
scan_reason message max_cycles e s =
    if not s.ut_change then go s else close_cycle max_cycles (apply_difference s.temp e) s

-- The body of the loop, at one entry of the history.
unfoldable pub scan_entry : ℕ → AllocationDifference → Scan → Verdict
unfolding scan_reason
scan_entry max_cycles e s = scan_reason e.reason max_cycles e s

-- The loop, by the rounds left. `k` is `i + 1`, so that 0 stands for the index -1, which wraps to
-- the last entry.
unfoldable pub detect_loop : ℕ → List AllocationDifference → ℕ → ℕ → Scan → Bool
detect_loop max_cycles history zero k s = false
detect_loop max_cycles history (suc rounds) k s =
    let i = if k == 0 then length history - 1 else k - 1 in
    elim (get_elem? history i) [
      | none ↦ false
      | some e ↦ elim (scan_entry max_cycles e s) [
        | stop b ↦ b
        | go s' ↦ detect_loop max_cycles history rounds i s'
      ]
    ]

abbrev pub start : Scan
start = record { cycles_found = 0; ut_change = false; temp = reset }

abbrev pub reset_all : List AllocationDifference → List AllocationDifference
reset_all = map (λ _. reset)

-- `detectAllocationCycle`: the answer, and the history, which is reset when a cycle is found.
unfoldable pub detect_allocation_cycle :
    ℕ → List AllocationDifference → ℕ → Bool × List AllocationDifference
unfolding detect_loop
detect_allocation_cycle max_cycles history newest =
    if detect_loop max_cycles history (length history) (newest + 1) start
    then (true, reset_all history)
    else (false, history)

-- `editNextDifference`: the next slot of the ring, reset. The caller fills the slot by `set`.
unfoldable pub edit_next_difference : List AllocationDifference → ℕ → List AllocationDifference × ℕ
edit_next_difference history newest =
    let next = (newest + 1) % length history in (set history next reset, next)
