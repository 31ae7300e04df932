-- ===== src/RuleBook/Changes.antt =====
-- What RuleBook::updateChange promises: an order of the changes by severity.
use alica_engine.Common.{ℕ, max, ◌≡◌, refl, Bool, ◌||◌, true, false, ap}
use alica_engine.RunningPlan.{World}
use alica_engine.RuleBook.{PlanChange, is_change, update_change}

abbrev pub severity : PlanChange → ℕ
severity PlanChange.no_change = 0
severity PlanChange.internal_change = 1
severity PlanChange.success_change = 2
severity PlanChange.fail_change = 3

-- `updateChange` returns the more severe of the two changes, a failure above a success above an
-- internal change, and the rule book notes that there was a change exactly if it had noted one before or
-- the second one is a change; nothing else in the world is altered.
pub update_change-severity :
    (cur update : PlanChange) (w : World)
    → (severity (update_change cur update w).1 ≡ max (severity cur) (severity update))
      × ((update_change cur update w).0
          ≡ record w { change_occurred = w.change_occurred || is_change update })
unfolding update_change
update_change-severity cur update w = (severe cur update, noted update w)
  where
    severe :
        (cur update : PlanChange)
        → severity (update_change cur update w).1 ≡ max (severity cur) (severity update)
    severe PlanChange.no_change PlanChange.no_change = refl
    severe PlanChange.no_change PlanChange.internal_change = refl
    severe PlanChange.no_change PlanChange.success_change = refl
    severe PlanChange.no_change PlanChange.fail_change = refl
    severe PlanChange.internal_change PlanChange.no_change = refl
    severe PlanChange.internal_change PlanChange.internal_change = refl
    severe PlanChange.internal_change PlanChange.success_change = refl
    severe PlanChange.internal_change PlanChange.fail_change = refl
    severe PlanChange.success_change PlanChange.no_change = refl
    severe PlanChange.success_change PlanChange.internal_change = refl
    severe PlanChange.success_change PlanChange.success_change = refl
    severe PlanChange.success_change PlanChange.fail_change = refl
    severe PlanChange.fail_change PlanChange.no_change = refl
    severe PlanChange.fail_change PlanChange.internal_change = refl
    severe PlanChange.fail_change PlanChange.success_change = refl
    severe PlanChange.fail_change PlanChange.fail_change = refl

    with_flag : World → Bool → World
    with_flag w b = record w { change_occurred = b }

    or_false : (b : Bool) → b ≡ (b || false)
    or_false true = refl
    or_false false = refl

    or_true : (b : Bool) → true ≡ (b || true)
    or_true true = refl
    or_true false = refl

    noted :
        (update : PlanChange) (w : World)
        → (update_change cur update w).0
          ≡ record w { change_occurred = w.change_occurred || is_change update }
    noted PlanChange.no_change w = ap (with_flag w) (or_false w.change_occurred)
    noted PlanChange.internal_change w = ap (with_flag w) (or_true w.change_occurred)
    noted PlanChange.success_change w = ap (with_flag w) (or_true w.change_occurred)
    noted PlanChange.fail_change w = ap (with_flag w) (or_true w.change_occurred)
