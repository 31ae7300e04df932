-- ===== src/Planning/Consistent.antt =====
-- What the bookkeeping of planselector/PartialAssignment.cpp means: the remaining cardinalities, the
-- number of assigned agents and the allocation agree.

use alica_engine.Common.{
  ℕ, zero, suc, ◌+◌, ◌≡◌, ◌≢◌, refl, sym, ap, ◌∙◌, ◌⊎◌, inl, inr, true, List, [], ◌∷◌, some, length,
  get_elem?, set, length-set, if◌then◌else◌, ◌==◌, arith, Bool-cases, Option-cases, eq_of_==,
  ne_of_==,
}
use alica_engine.Common.Int.{ℤ, pos, negsuc, ◌-ℤ◌, ◌≤ℤ◌, ltb_ℤ, -ℤ_parts, eq_of_parts}
use alica_engine.Model.{Interval}
use alica_engine.Planning.PartialAssignment.{PartialAssignment, minus, assign_unassigned_agent}

-- The number of agents at the entry point with the index `e`.
abbrev pub working : ℕ → List ℤ → ℕ
working e [] = 0
working e (pos i ∷ rest) = (if i == e then 1 else 0) + working e rest
working e (negsuc n ∷ rest) = working e rest

-- The number of agents that have an entry point.
abbrev pub assigned : List ℤ → ℕ
assigned [] = 0
assigned (pos i ∷ rest) = suc (assigned rest)
assigned (negsuc n ∷ rest) = assigned rest

-- What is left of the bounds is the given bounds less the agents at the entry point, of which no
-- more have come than there was room for.
pub record Remains (given left : Interval) (n : ℕ) : Type 0 where
  pub lower : left.lower ≡ given.lower -ℤ pos n
  pub upper : left.upper ≡ given.upper -ℤ pos n
  pub room : (n ≡ 0) ⊎ (pos n ≤ℤ given.upper)

-- The bookkeeping of an allocation that began with the bounds `given`.
pub record IsConsistent (given : List Interval) (pa : PartialAssignment) : Type 0 where
  pub count : pa.num_assigned_agents ≡ assigned pa.assignment
  pub width : length pa.cardinalities ≡ length given
  pub remains :
      (e : ℕ) (g c : Interval)
      → get_elem? given e ≡ some g
      → get_elem? pa.cardinalities e ≡ some c
      → Remains g c (working e pa.assignment)

working-set :
    (e i a n : ℕ) (l : List ℤ)
    → get_elem? l a ≡ some (negsuc n)
    → working e (set l a (pos i)) ≡ (if i == e then 1 else 0) + working e l
working-set e i a n [] h = absurd (cc)
working-set e i zero n (pos k ∷ l) h = absurd (cc)
working-set e i zero n (negsuc k ∷ l) h = refl
working-set e i (suc a) n (pos k ∷ l) h = ground (arith, working-set e i a n l h)
working-set e i (suc a) n (negsuc k ∷ l) h = working-set e i a n l h

assigned-set :
    (i a n : ℕ) (l : List ℤ)
    → get_elem? l a ≡ some (negsuc n)
    → assigned (set l a (pos i)) ≡ suc (assigned l)
assigned-set i a n [] h = absurd (cc)
assigned-set i zero n (pos k ∷ l) h = absurd (cc)
assigned-set i zero n (negsuc k ∷ l) h = refl
assigned-set i (suc a) n (pos k ∷ l) h = ap suc (assigned-set i a n l h)
assigned-set i (suc a) n (negsuc k ∷ l) h = assigned-set i a n l h

get-set_self {ℓ} :
    {A : Type ℓ} (i : ℕ) (xs : List A) (y v : A)
    → get_elem? xs i ≡ some y
    → get_elem? (set xs i v) i ≡ some v
get-set_self i [] y v h = absurd (cc)
get-set_self zero (x ∷ xs) y v h = refl
get-set_self (suc i) (x ∷ xs) y v h = get-set_self i xs y v h

get-set_ne {ℓ} :
    {A : Type ℓ} (k i : ℕ) (xs : List A) (v : A) → k ≢ i → get_elem? (set xs i v) k ≡ get_elem? xs k
get-set_ne k i [] v ne = refl
get-set_ne zero zero (x ∷ xs) v ne = absurd (ne refl)
get-set_ne zero (suc i) (x ∷ xs) v ne = refl
get-set_ne (suc k) zero (x ∷ xs) v ne = refl
get-set_ne (suc k) (suc i) (x ∷ xs) v ne = get-set_ne k i xs v (λ e. ne (ap suc e))

minus_suc : (x : ℤ) (n : ℕ) → x -ℤ pos n -ℤ pos 1 ≡ x -ℤ pos (suc n)
minus_suc x n =
    eq_of_parts _ _
      (omega (arith, -ℤ_parts x (pos n), -ℤ_parts (x -ℤ pos n) (pos 1), -ℤ_parts x (pos (suc n))))

-- One agent more at an entry point with room.
Remains-suc :
    (g c : Interval) (n : ℕ)
    → ltb_ℤ (pos 0) c.upper ≡ true
    → Remains g c n
    → Remains g (minus c (pos 1)) (suc n)
Remains-suc g c n room r = record {
  lower = ap (λ (x : ℤ). x -ℤ pos 1) r.lower ∙ minus_suc g.lower n;
  upper = ap (λ (x : ℤ). x -ℤ pos 1) r.upper ∙ minus_suc g.upper n;
  room = inr (ground (arith, r.upper, -ℤ_parts g.upper (pos n)));
}

module _ (a n e : ℕ) (pa : PartialAssignment) (dc g c : Interval) where
  Remains-same :
      get_elem? pa.assignment a ≡ some (negsuc n)
      → get_elem? pa.cardinalities e ≡ some dc
      → ltb_ℤ (pos 0) dc.upper ≡ true
      → Remains g dc (working e pa.assignment)
      → get_elem? (set pa.cardinalities e (minus dc (pos 1))) e ≡ some c
      → Remains g c (working e (set pa.assignment a (pos e)))
  Remains-same free at room r left_at =
      let here = get-set_self e pa.cardinalities dc (minus dc (pos 1)) at in
      let c' : minus dc (pos 1) ≡ c = cc in
      let w : working e (set pa.assignment a (pos e)) ≡ suc (working e pa.assignment) =
        ground (arith, working-set e e a n pa.assignment free) in
      rw (← c', w) (Remains-suc g dc (working e pa.assignment) room r)

  Remains-other :
      (k : ℕ)
      → k ≢ e
      → get_elem? pa.assignment a ≡ some (negsuc n)
      → Remains g c (working k pa.assignment)
      → Remains g c (working k (set pa.assignment a (pos e)))
  Remains-other k ne free r =
      let w : working k (set pa.assignment a (pos e)) ≡ working k pa.assignment =
        ground (arith, working-set k e a n pa.assignment free) in
      rw w r

-- Giving an agent without an entry point one keeps the bookkeeping, also where there is no room.
pub assign_unassigned_agent-IsConsistent :
    (given : List Interval) (a n e : ℕ) (pa : PartialAssignment)
    → get_elem? pa.assignment a ≡ some (negsuc n)
    → IsConsistent given pa
    → IsConsistent given (assign_unassigned_agent a e pa).0
unfolding assign_unassigned_agent
assign_unassigned_agent-IsConsistent given a n e pa free h =
    elim (Option-cases (get_elem? pa.cardinalities e)) [
      | inl out ↦ rw (out, assign_unassigned_agent) h
      | inr (dc, at) ↦ elim (Bool-cases (ltb_ℤ (pos 0) dc.upper)) [
        | inr full ↦ rw (at, full, assign_unassigned_agent) h
        | inl room ↦
            rw (at, room, assign_unassigned_agent)
              (record {
                count = omega (arith, h.count, assigned-set e a n pa.assignment free);
                width = length-set pa.cardinalities e (minus dc (pos 1)) ∙ h.width;
                remains = λ k g c given_at left_at. elim (Bool-cases (k == e)) [
                  | inl same ↦
                      let k' : k ≡ e = eq_of_== k e same in
                      rw k' (
                        Remains-same a n e pa dc g c free at room
                          (h.remains e g dc (rw k' at given_at) at) (rw k' at left_at))
                  | inr other ↦
                      let ne = ne_of_== k e other in
                      Remains-other a n e pa dc g c k ne free (
                        h.remains k g c given_at
                          (sym (get-set_ne k e pa.cardinalities (minus dc (pos 1)) ne) ∙ left_at))
                ];
              })
      ]
    ]
