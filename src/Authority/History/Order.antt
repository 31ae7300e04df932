-- ===== src/Authority/History/Order.antt =====
-- The loop of `detectAllocationCycle` visits every entry of the ring once, the newest first.
use mathlib.Core.Path.{ap₂, fun_ext}
use native.Mathlib.Nat.{suc-add, add-suc}
use mathlib.Core.List.{reverse-cons}
use alica_engine.Common.{
  ℕ, zero, suc, ◌+◌, ◌-◌, ◌≤◌, ◌<◌, ◌≡◌, refl, sym, ap, ◌∙◌, ◌⊎◌, inl, inr, Bool, false, List, [],
  ◌∷◌, ◌++◌, reverse, some, arith, length, get_elem?, take, drop, length-drop, take-length,
  get_elem?-drop, get_elem?-bounds,
}
use alica_engine.Authority.Difference.{AllocationDifference}
use alica_engine.Authority.History.{
  Scan, Verdict, go, stop, scan_entry, detect_loop, start, detect_allocation_cycle,
}

-- The ring as a sequence, from the newest entry to the oldest.
abbrev pub newest_first : ℕ → List AllocationDifference → List AllocationDifference
newest_first newest h = reverse (take (newest + 1) h) ++ reverse (drop (newest + 1) h)

-- The plain scan of a sequence.
unfoldable pub scan_all : ℕ → List AllocationDifference → Scan → Verdict
scan_all max_cycles [] s = go s
scan_all max_cycles (e ∷ es) s = elim (scan_entry max_cycles e s) [
  | stop b ↦ stop b
  | go s' ↦ scan_all max_cycles es s'
]

abbrev pub answer : Verdict → Bool
answer (go s) = false
answer (stop b) = b

abbrev and_then : Verdict → (Scan → Bool) → Bool
and_then (go s) k = k s
and_then (stop b) k = b

pub Verdict-cases : (v : Verdict) → ((b : Bool) × (v ≡ stop b)) ⊎ ((t : Scan) × (v ≡ go t))
Verdict-cases (go t) = inr (t, refl)
Verdict-cases (stop b) = inl (b, refl)

scan_all-append :
    (m : ℕ) (xs ys : List AllocationDifference) (s : Scan)
    → answer (scan_all m (xs ++ ys) s) ≡ and_then (scan_all m xs s) (λ t. answer (scan_all m ys t))
unfolding scan_all
scan_all-append m [] ys s = refl
scan_all-append m (x ∷ xs) ys s = elim (Verdict-cases (scan_entry m x s)) [
  | inl (b, e) ↦ rw (e, scan_all)
  | inr (t, e) ↦ rw (e, scan_all) (scan_all-append m xs ys t)
]

reverse-take-suc {ℓ} :
    {A : Type ℓ} (xs : List A) (n : ℕ) (x : A)
    → get_elem? xs n ≡ some x
    → reverse (take (suc n) xs) ≡ x ∷ reverse (take n xs)
reverse-take-suc [] n x h = absurd (cc)
reverse-take-suc (y ∷ xs) zero x h = ground arith
reverse-take-suc (y ∷ xs) (suc n) x h =
    rw (reverse-cons y (take (suc n) xs), reverse-cons y (take n xs))
      (ap (λ l. l ++ y ∷ []) (reverse-take-suc xs n x h))

-- One round at an index in range, below which it goes on.
pub loop_stop :
    (max : ℕ) (h : List AllocationDifference) (r i : ℕ) (s : Scan) (e : AllocationDifference)
    (b : Bool)
    → get_elem? h i ≡ some e
    → scan_entry max e s ≡ stop b
    → detect_loop max h (suc r) (suc i) s ≡ b
unfolding detect_loop
loop_stop max h r i s e b at v = ground arith

loop_go :
    (max : ℕ) (h : List AllocationDifference) (r i : ℕ) (s : Scan) (e : AllocationDifference)
    (t : Scan)
    → get_elem? h i ≡ some e
    → scan_entry max e s ≡ go t
    → detect_loop max h (suc r) (suc i) s ≡ detect_loop max h r i t
unfolding detect_loop
loop_go max h r i s e t at v = ground arith

-- The index -1 wraps to the last entry.
loop_wrap :
    (max : ℕ) (h : List AllocationDifference) (r : ℕ) (s : Scan)
    → 0 < length h
    → detect_loop max h r 0 s ≡ detect_loop max h r (length h) s
unfolding detect_loop
loop_wrap max h zero s pos = refl
loop_wrap max h (suc r) s pos = ground arith

-- From index `j + n - 1` down to `j`, then on.
loop_down :
    (max : ℕ) (h : List AllocationDifference) (j n m : ℕ) (s : Scan)
    → j + n ≤ length h
    → detect_loop max h (n + m) (j + n) s
      ≡ and_then (scan_all max (reverse (take n (drop j h))) s) (λ t. detect_loop max h m j t)
unfolding scan_all
loop_down max h j zero m s fit =
    ap₂ (λ (a b : ℕ). detect_loop max h a b s) (omega arith) (omega arith)
loop_down max h j (suc n) m s fit =
    let (e, here) = get_elem?-bounds h (j + n) (omega arith) in
    rw (reverse-take-suc (drop j h) n e (get_elem?-drop j n h ∙ here), suc-add n m, add-suc j n)
      (elim (Verdict-cases (scan_entry max e s)) [
        | inl (b, v) ↦ rw (scan_all, v) (loop_stop max h (n + m) (j + n) s e b here v)
        | inr (t, v) ↦
            rw (scan_all, v)
              (loop_go max h (n + m) (j + n) s e t here v ∙ loop_down max h j n m t (omega arith))
      ])

and_then-answer :
    (v : Verdict) (k : Scan → Bool) → ((t : Scan) → k t ≡ false) → and_then v k ≡ answer v
and_then-answer (go t) k h = h t
and_then-answer (stop b) k h = refl

-- The entries behind the newest one, after the index has wrapped.
loop_rest :
    (max j : ℕ) (h : List AllocationDifference) (t : Scan)
    → j ≤ length h
    → 0 < length h
    → detect_loop max h (length h - j) 0 t ≡ answer (scan_all max (reverse (drop j h)) t)
unfolding detect_loop
loop_rest max j h t fit pos =
    let n = length h - j in
    let all : take n (drop j h) ≡ drop j h =
      ap (λ k. take k (drop j h)) (sym (length-drop j h)) ∙ take-length (drop j h) in
    loop_wrap max h n t pos
    ∙ ap₂ (λ (a b : ℕ). detect_loop max h a b t) (omega arith) (omega arith)
    ∙ loop_down max h j n 0 t (omega arith)
    ∙ and_then-answer (scan_all max (reverse (take n (drop j h))) t) _ (λ u. refl)
    ∙ ap (λ l. answer (scan_all max (reverse l) t)) all

loop_all :
    (max newest : ℕ) (h : List AllocationDifference) (s : Scan)
    → newest < length h
    → detect_loop max h (length h) (newest + 1) s ≡ answer (scan_all max (newest_first newest h) s)
loop_all max newest h s fit =
    let j = newest + 1 in
    ap₂ (λ (a b : ℕ). detect_loop max h a b s) (omega arith) (omega arith)
    ∙ loop_down max h 0 j (length h - j) s (omega arith)
    ∙ ap (and_then (scan_all max (reverse (take j h)) s))
        (fun_ext (λ t. loop_rest max j h t (omega arith) (omega arith)))
    ∙ sym (scan_all-append max (reverse (take j h)) (reverse (drop j h)) s)

-- `detectAllocationCycle` answers as the plain scan of the ring from its newest to its oldest entry:
-- every entry is visited exactly once, whatever the position of the newest one.
pub detect-scan_all :
    (max newest : ℕ) (h : List AllocationDifference)
    → newest < length h
    → (detect_allocation_cycle max h newest).0 ≡ answer (scan_all max (newest_first newest h) start)
unfolding detect_allocation_cycle
detect-scan_all max newest h fit = ground (arith, loop_all max newest h start fit)
