-- ===== src/Authority/Difference/Effect.antt =====
-- What a difference does to an allocation, the set of the pairs that hold.
use alica_engine.Common.{ℕ, ◌+◌, ◌-◌, ◌≤◌, ◌≡◌, refl, ◌↔◌, true, List, [], ◌∷◌, arith}
use alica_engine.Authority.Difference.{
  EntryPointRobotPair, AllocationDifference, is_empty, reset, is_nil, cancel_or_push,
  apply_additions, apply_subtractions, apply_difference,
}
use alica_engine.Authority.Difference.Laws.{
  at, one, IsProper, cancel_or_push_once, cancel_or_push_net, apply_difference-IsProper,
  additions-IsProper,
}

-- How often a pair is allocated: 0 or 1.
abbrev pub Allocation : Type 0
Allocation = EntryPointRobotPair → ℕ

abbrev pub IsAllocation : Allocation → Type 0
IsAllocation f = (q : EntryPointRobotPair) → f q ≤ 1

-- `d` is the difference that leads from the allocation `f` to the allocation `g`.
pub record Leads (d : AllocationDifference) (f g : Allocation) : Type 0 where
  pub balance : (q : EntryPointRobotPair) → f q + at q d.additions ≡ g q + at q d.subtractions

additions-Leads :
    (ps : List EntryPointRobotPair) (d : AllocationDifference) (f g : Allocation)
    → IsProper d
    → Leads d f g
    → ((q : EntryPointRobotPair) → g q + at q ps ≤ 1)
    → Leads (apply_additions ps d) f (λ q. g q + at q ps)
unfolding apply_additions
additions-Leads [] d f g proper leads room = record {
  balance = λ q. omega (arith, leads.balance q);
}
additions-Leads (p ∷ ps) d f g proper leads room =
    let fresh : at p d.additions ≡ 0 = ground (arith, leads.balance p, proper.once p, room p) in
    let more =
      additions-Leads ps
        (record d {
          additions = (cancel_or_push p d.additions d.subtractions).0;
          subtractions = (cancel_or_push p d.additions d.subtractions).1;
        })
        f (λ q. g q + one q p)
        (record { once = λ q. cancel_or_push_once p q d.additions d.subtractions (proper.once q) })
        (record {
          balance = λ q.
              omega
                (arith, leads.balance q, cancel_or_push_net p q d.additions d.subtractions fresh);
        })
        (λ q. ground (arith, room q)) in
    record { balance = λ q. ground (arith, more.balance q) }

subtractions-Leads :
    (ps : List EntryPointRobotPair) (d : AllocationDifference) (f g : Allocation)
    → IsAllocation f
    → IsProper d
    → Leads d f g
    → ((q : EntryPointRobotPair) → at q ps ≤ g q)
    → Leads (apply_subtractions ps d) f (λ q. g q - at q ps)
unfolding apply_subtractions
subtractions-Leads [] d f g set proper leads held = record {
  balance = λ q. omega (arith, leads.balance q);
}
subtractions-Leads (p ∷ ps) d f g set proper leads held =
    let fresh : at p d.subtractions ≡ 0 =
      ground (arith, leads.balance p, proper.once p, held p, set p) in
    let more =
      subtractions-Leads ps
        (record d {
          additions = (cancel_or_push p d.subtractions d.additions).1;
          subtractions = (cancel_or_push p d.subtractions d.additions).0;
        })
        f (λ q. g q - one q p) set
        (record {
          once = λ q. omega (
            arith,
            cancel_or_push_once p q d.subtractions d.additions (omega (arith, proper.once q)),
          );
        })
        (record {
          balance = λ q. ground (
            arith,
            leads.balance q,
            cancel_or_push_net p q d.subtractions d.additions fresh,
            held q,
          );
        })
        (λ q. ground (arith, held q)) in
    record { balance = λ q. ground (arith, more.balance q) }

-- `applyDifference` is composition: if `d` leads from `f` to `g` and `e` from `g` to `h`, then the
-- result leads from `f` to `h`, for proper differences.
pub apply_difference-Leads :
    (d e : AllocationDifference) (f g h : Allocation)
    → IsAllocation f
    → IsAllocation g
    → IsAllocation h
    → IsProper d
    → IsProper e
    → Leads d f g
    → Leads e g h
    → Leads (apply_difference d e) f h
unfolding apply_difference
apply_difference-Leads d e f g h sf sg sh pd pe ld le =
    let added =
      additions-Leads e.additions d f g pd ld
        (λ q. omega (arith, sg q, sh q, pe.once q, le.balance q)) in
    let all =
      subtractions-Leads e.subtractions (apply_additions e.additions d) f
        (λ q. g q + at q e.additions) sf (additions-IsProper e.additions d pd) added
        (λ q. omega (arith, le.balance q)) in
    record { balance = λ q. omega (arith, all.balance q, le.balance q) }

nil_of_at :
    (xs : List EntryPointRobotPair) → ((q : EntryPointRobotPair) → at q xs ≡ 0) → is_nil xs ≡ true
nil_of_at [] h = refl
nil_of_at (x ∷ xs) h = absurd (ground (arith, h x))

at_of_nil :
    (q : EntryPointRobotPair) (xs : List EntryPointRobotPair) → is_nil xs ≡ true → at q xs ≡ 0
at_of_nil q [] h = refl
at_of_nil q (x ∷ xs) h = absurd (cc)

-- A proper difference between two allocations is empty exactly when they are the same.
pub is_empty_iff :
    (d : AllocationDifference) (f g : Allocation)
    → IsProper d
    → Leads d f g
    → (is_empty d ≡ true) ↔ ((q : EntryPointRobotPair) → f q ≡ g q)
unfolding is_empty
is_empty_iff d f g proper leads = (
  (λ e q. ground (arith, leads.balance q, at_of_nil q d.additions, at_of_nil q d.subtractions)),
  λ same. ground (
    arith,
    nil_of_at d.additions (λ q. omega (arith, same q, leads.balance q, proper.once q)),
    nil_of_at d.subtractions (λ q. omega (arith, same q, leads.balance q, proper.once q)),
  ),
)

-- The allocations that a row of differences runs through, each an allocation again.
pub data Run : List AllocationDifference → Allocation → Allocation → Type 0 where
  stay : (f : Allocation) → IsAllocation f → Run [] f f
  move :
      {e : AllocationDifference} {es : List AllocationDifference} (f g h : Allocation)
      → IsAllocation f
      → IsProper e
      → Leads e f g
      → Run es g h
      → Run (e ∷ es) f h

unfoldable pub apply_all : AllocationDifference → List AllocationDifference → AllocationDifference
apply_all d [] = d
apply_all d (e ∷ es) = apply_all (apply_difference d e) es

Run-start : {es : List AllocationDifference} {f h : Allocation} → Run es f h → IsAllocation f
Run-start (stay f s) = s
Run-start (move f g h s _ _ _) = s

apply_all-Leads :
    {es : List AllocationDifference} {g h : Allocation} (d : AllocationDifference) (f : Allocation)
    → IsAllocation f
    → IsProper d
    → Leads d f g
    → Run es g h
    → IsProper (apply_all d es) × Leads (apply_all d es) f h
unfolding apply_all
apply_all-Leads d f sf pd ld (stay g sg) = (pd, ld)
apply_all-Leads d f sf pd ld (move {e} {es} g k h sg pe le r) =
    apply_all-Leads (apply_difference d e) f sf (apply_difference-IsProper d e pd)
      (apply_difference-Leads d e f g k sf sg (Run-start r) pd pe ld le) r

-- Composing all the differences of a run, from the reset one on, gives the empty difference exactly
-- when the run ends in the allocation that it began with.
pub apply_all-is_empty :
    (es : List AllocationDifference) (f h : Allocation)
    → Run es f h
    → (is_empty (apply_all reset es) ≡ true) ↔ ((q : EntryPointRobotPair) → f q ≡ h q)
apply_all-is_empty es f h r =
    let (proper, leads) =
      apply_all-Leads reset f (Run-start r) (record { once = λ q. omega arith })
        (record { balance = λ q. refl }) r in
    is_empty_iff (apply_all reset es) f h proper leads
