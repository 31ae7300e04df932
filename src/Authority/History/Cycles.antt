-- ===== src/Authority/History/Cycles.antt =====
-- What the search for allocation cycles finds.
use mathlib.Core.Path.{ap₂}
use mathlib.Core.Bool.{false≢true}
use alica_engine.Common.{
  ℕ, zero, suc, ◌+◌, ◌-◌, ◌≤◌, ◌<◌, ◌≡◌, refl, sym, ap, ◌∙◌, ◌⊎◌, inl, inr, Bool, true, false, List,
  [], ◌∷◌, ◌++◌, some, All, ltb, arith, Bool-cases, length, get_elem?, get_elem?-outside,
}
use alica_engine.Authority.Difference.{
  AllocationDifference, Reason, message, utility, empty, is_empty, reset, apply_difference,
}
use alica_engine.Authority.Difference.Effect.{apply_all}
use alica_engine.Authority.History.{
  Scan, go, stop, scan_entry, detect_loop, start, reset_all, detect_allocation_cycle,
}
use alica_engine.Authority.History.Order.{
  loop_stop, newest_first, scan_all, answer, detect-scan_all,
}

abbrev pub IsMessage : AllocationDifference → Type 0
IsMessage e = e.reason ≡ message

-- A utility change, then one or more changes by messages, which together change nothing.
pub record IsCycle (u m : AllocationDifference) (ms : List AllocationDifference) : Type 0 where
  pub by_utility : u.reason ≡ utility
  pub by_messages : All IsMessage (m ∷ ms)
  pub closed : is_empty (apply_all reset (u ∷ m ∷ ms)) ≡ true

-- A sequence that begins with `n` cycles, with changes by messages between them.
pub data BeginsWithCycles : ℕ → List AllocationDifference → Type 0 where
  done : (es : List AllocationDifference) → BeginsWithCycles 0 es
  skip :
      {n : ℕ} {es : List AllocationDifference} (e : AllocationDifference)
      → IsMessage e
      → BeginsWithCycles n es
      → BeginsWithCycles n (e ∷ es)
  cycle :
      {n : ℕ} {es : List AllocationDifference} (u m : AllocationDifference)
      (ms : List AllocationDifference)
      → IsCycle u m ms
      → BeginsWithCycles n es
      → BeginsWithCycles (suc n) (u ∷ m ∷ ms ++ es)

-- The rest of a cycle that has been opened with the composition `temp`.
abbrev Closes : AllocationDifference → ℕ → List AllocationDifference → Type 0
Closes temp n es =
    (m : AllocationDifference) × (ms : List AllocationDifference) × (rest : List
      AllocationDifference)
    × (es ≡ m ∷ ms ++ rest)
    × All IsMessage (m ∷ ms)
    × (is_empty (apply_all temp (m ∷ ms)) ≡ true)
    × BeginsWithCycles n rest

-- What a positive answer means from a state of the scan on.
abbrev Means : ℕ → Bool → ℕ → AllocationDifference → List AllocationDifference → Type 0
Means max false found temp es = BeginsWithCycles (suc max - found) es
Means max true found temp es = Closes temp (max - found) es

Reason-cases : (r : Reason) → (r ≡ utility) ⊎ ((r ≡ empty) ⊎ (r ≡ message))
Reason-cases utility = inl refl
Reason-cases empty = inr (inl refl)
Reason-cases message = inr (inr refl)

abbrev at_state : Bool → ℕ → AllocationDifference → Scan
at_state ut found temp = record { cycles_found = found; ut_change = ut; temp = temp }

module _ (max : ℕ) (e : AllocationDifference) (es : List AllocationDifference) (s : Scan) where
  answer_go :
      (t : Scan)
      → scan_entry max e s ≡ go t
      → answer (scan_all max (e ∷ es) s) ≡ true
      → answer (scan_all max es t) ≡ true
  unfolding scan_all
  answer_go t v h = rw (answer, v) at h

  answer_stop :
      (b : Bool) → scan_entry max e s ≡ stop b → answer (scan_all max (e ∷ es) s) ≡ true → b ≡ true
  unfolding scan_all
  answer_stop b v h = rw (answer, v) at h

open_cycle :
    (max found : ℕ) (e : AllocationDifference) (es : List AllocationDifference)
    → e.reason ≡ utility
    → found ≤ max
    → Closes (apply_difference reset e) (max - found) es
    → BeginsWithCycles (suc max - found) (e ∷ es)
unfolding apply_all
open_cycle max found e es u le (m, ms, rest, split, msgs, closed, more) =
    let n : suc max - found ≡ suc (max - found) = omega arith in
    rw (split, n)
      (cycle e m ms (record { by_utility = u; by_messages = msgs; closed = closed }) more)

means :
    (max : ℕ) (ut : Bool) (found : ℕ) (temp : AllocationDifference) (es : List AllocationDifference)
    → found ≤ max
    → answer (scan_all max es (at_state ut found temp)) ≡ true
    → Means max ut found temp es
unfolding scan_all scan_entry apply_all
means max true found temp [] le h = absurd (cc)
means max false found temp [] le h = absurd (cc)
means max false found temp (e ∷ es) le h = elim (Reason-cases e.reason) [
  | inl u ↦
      let rest = means max true found (apply_difference reset e) es le (
        answer_go max e es (at_state false found temp)
          (at_state true found (apply_difference reset e)) (ground arith) h) in
      open_cycle max found e es u le rest
  | inr (inl n) ↦
      absurd (false≢true (answer_stop max e es (at_state false found temp) false (ground arith) h))
  | inr (inr m) ↦ skip e m (
      means max false found temp es le (
        answer_go max e es (at_state false found temp) (at_state false found temp) (ground arith)
          h))
]
means max true found temp (e ∷ es) le h = elim (Reason-cases e.reason) [
  | inl u ↦
      absurd (false≢true (answer_stop max e es (at_state true found temp) false (ground arith) h))
  | inr (inl n) ↦
      absurd (false≢true (answer_stop max e es (at_state true found temp) false (ground arith) h))
  | inr (inr m) ↦ elim (Bool-cases (is_empty (apply_difference temp e))) [
    | inl closed ↦ elim (Bool-cases (ltb max (found + 1))) [
      | inl enough ↦
          let none_left : max - found ≡ 0 = ground arith in
          (e, [], es, refl, (m, tt), closed, rw none_left (done es))
      | inr fewer ↦
          let next = at_state false (found + 1) (apply_difference temp e) in
          let n : suc max - (found + 1) ≡ max - found = omega arith in
          (
            e,
            [],
            es,
            refl,
            (m, tt),
            closed,
            rw (← n) (
                means max false (found + 1) (apply_difference temp e) es (ground arith)
                  (answer_go max e es (at_state true found temp) next (ground arith) h)),
          )
    ]
    | inr open_still ↦
        let next = at_state true found (apply_difference temp e) in
        let (m', ms, rest, split, msgs, closed, more) =
          means max true found (apply_difference temp e) es le
            (answer_go max e es (at_state true found temp) next (ground arith) h) in
        (e, m' ∷ ms, rest, ap (◌∷◌ e) split, (m, msgs), closed, more)
  ]
]

-- When `detectAllocationCycle` answers true, the ring, read from its newest entry on, begins with
-- more than `maxAllocationCycles` cycles: each is one utility change followed by changes by
-- messages, which compose to the empty difference.
pub detect-cycles :
    (max newest : ℕ) (h : List AllocationDifference)
    → newest < length h
    → (detect_allocation_cycle max h newest).0 ≡ true
    → BeginsWithCycles (suc max) (newest_first newest h)
detect-cycles max newest h fit found =
    let n : suc max - 0 ≡ suc max = omega arith in
    rw (← n) (
      means max false 0 reset (newest_first newest h) (omega arith)
        (sym (detect-scan_all max newest h fit) ∙ found))

reset_all-get :
    (h : List AllocationDifference) (i : ℕ) → i < length h → get_elem? (reset_all h) i ≡ some reset
reset_all-get [] i fit = absurd (omega arith)
reset_all-get (e ∷ h) zero fit = refl
reset_all-get (e ∷ h) (suc i) fit = reset_all-get h i (omega arith)

length-reset_all : (h : List AllocationDifference) → length (reset_all h) ≡ length h
length-reset_all [] = refl
length-reset_all (e ∷ h) = ap suc (length-reset_all h)

quiet :
    (max i : ℕ) (h : List AllocationDifference)
    → i < length h
    → detect_loop max (reset_all h) (length (reset_all h)) (i + 1) start ≡ false
unfolding scan_entry
quiet max i h fit =
    let n : length (reset_all h) ≡ suc (length h - 1) = omega (arith, length-reset_all h) in
    let k : i + 1 ≡ suc i = omega arith in
    ap₂ (λ (a b : ℕ). detect_loop max (reset_all h) a b start) n k
    ∙ loop_stop max (reset_all h) (length h - 1) i start reset false (reset_all-get h i fit) refl

outside :
    (max rounds i : ℕ) (h : List AllocationDifference)
    → length h ≤ i
    → detect_loop max h rounds (suc i) start ≡ false
unfolding detect_loop
outside max zero i h le = refl
outside max (suc rounds) i h le = ground (arith, get_elem?-outside h i le)

quiet_outside :
    (max i : ℕ) (h : List AllocationDifference)
    → length h ≤ i
    → detect_loop max (reset_all h) (length (reset_all h)) (i + 1) start ≡ false
quiet_outside max i h le =
    let k : i + 1 ≡ suc i = omega arith in
    ap (λ (k : ℕ). detect_loop max (reset_all h) (length (reset_all h)) k start) k
    ∙ outside max (length (reset_all h)) i (reset_all h) (omega (arith, length-reset_all h))

-- A history without a cycle is kept. After a cycle the whole history is reset, and no position of
-- the newest entry makes the next search find a cycle in it.
pub detect_resets :
    (max newest : ℕ) (h : List AllocationDifference)
    → newest < length h
    → (((detect_allocation_cycle max h newest).0 ≡ false)
        × ((detect_allocation_cycle max h newest).1 ≡ h))
      ⊎ (((detect_allocation_cycle max h newest).0 ≡ true)
          × ((detect_allocation_cycle max h newest).1 ≡ reset_all h)
          × ((i : ℕ) → (detect_allocation_cycle max (reset_all h) i).0 ≡ false))
unfolding detect_allocation_cycle
detect_resets max newest h fit =
    elim (Bool-cases (detect_loop max h (length h) (newest + 1) start)) [
      | inl e ↦
          inr
            (ground arith, ground arith, λ i. ground (arith, quiet max i h, quiet_outside max i h))
      | inr e ↦ inl (ground arith, ground arith)
    ]
