-- ===== src/Planning/Goal.antt =====
-- The goals of the search of planselector respect the cardinalities of the plan.

use alica_engine.Common.{
  ℕ, zero, suc, ◌+◌, ◌<◌, ◌≡◌, refl, sym, ap, ◌∙◌, ◌⊎◌, inl, inr, Bool, true, false, List, [], ◌∷◌,
  ◌++◌, map, some, length, get_elem?, get_elem?-drop, get_elem?-bounds, length-drop, drop, ◌==◌,
  arith, Bool-cases, eq_of_==,
}
use alica_engine.Common.Int.{ℤ, pos, negsuc, ◌-ℤ◌, ◌≤ℤ◌, ltb_ℤ, -ℤ_parts, eq_of_parts}
use alica_engine.Model.{Interval, EntryPoint, Plan}
use alica_engine.Planning.PartialAssignment.{
  PartialAssignment, minus, prepare, replicate, is_goal, all_satisfied, skip_assigned,
  next_unassigned,
}
use alica_engine.Planning.Consistent.{
  working, assigned, Remains, IsConsistent, assign_unassigned_agent-IsConsistent,
}
use alica_engine.Planning.Search.{child, evaluate}
use alica_engine.Planning.Search.Optimal.{Reaches, here, there}

-- The first agent without an entry point from the agent `i` on, at which the list begins.
skip_assigned-cases :
    (l : List ℤ) (i : ℕ)
    → (skip_assigned l i ≡ i + length l)
      ⊎ ((j : ℕ) × (m : ℕ) × (skip_assigned l i ≡ i + j) × (get_elem? l j ≡ some (negsuc m)))
unfolding skip_assigned
skip_assigned-cases [] i = inl (omega arith)
skip_assigned-cases (negsuc m ∷ l) i = inr (0, m, ground arith, refl)
skip_assigned-cases (pos k ∷ l) i = elim (skip_assigned-cases l (suc i)) [
  | inl e ↦ inl (ground arith)
  | inr (j, m, e, at) ↦ inr (suc j, m, ground arith, at)
]

-- The next agent of `expand` has no entry point.
next_unassigned-free :
    (p : PartialAssignment)
    → (next_unassigned p).next_agent_idx < length p.assignment
    → (m : ℕ) × (get_elem? p.assignment (next_unassigned p).next_agent_idx ≡ some (negsuc m))
unfolding next_unassigned
next_unassigned-free p fit =
    elim (skip_assigned-cases (drop p.next_agent_idx p.assignment) p.next_agent_idx) [
      | inl e ↦ absurd (omega (arith, length-drop p.next_agent_idx p.assignment))
      | inr (j, m, e, at) ↦ (
        m,
        ap (get_elem? p.assignment) e ∙ sym (get_elem?-drop p.next_agent_idx j p.assignment) ∙ at,
      )
    ]

module _ (eval : PartialAssignment → Interval) (given : List Interval) where
  child-IsConsistent :
      (p : PartialAssignment) (i m : ℕ)
      → get_elem? p.assignment p.next_agent_idx ≡ some (negsuc m)
      → IsConsistent given p
      → IsConsistent given (child eval p i)
  unfolding child evaluate
  child-IsConsistent p i m free h =
      let a = assign_unassigned_agent-IsConsistent given p.next_agent_idx m i p free h in
      record { count = a.count; width = a.width; remains = a.remains }

  Reaches-IsConsistent :
      (p q : PartialAssignment) → Reaches eval p q → IsConsistent given p → IsConsistent given q
  unfolding next_unassigned
  Reaches-IsConsistent p q (here _) h = h
  Reaches-IsConsistent p q (there _ _ i dc fit at room r) h =
      let (m, free) = next_unassigned-free p fit in
      Reaches-IsConsistent (child eval (next_unassigned p) i) q r (
        child-IsConsistent (next_unassigned p) i m free
          (record { count = h.count; width = h.width; remains = h.remains }))

working-replicate : (e n : ℕ) → working e (replicate n (negsuc 0)) ≡ 0
working-replicate e zero = refl
working-replicate e (suc n) = working-replicate e n

assigned-replicate : (n : ℕ) → assigned (replicate n (negsuc 0)) ≡ 0
assigned-replicate zero = refl
assigned-replicate (suc n) = assigned-replicate n

pub prepare-IsConsistent :
    (allow : Bool) (n : ℕ) (successes : EntryPoint → ℕ) (p : Plan)
    → IsConsistent (prepare allow n successes p).cardinalities (prepare allow n successes p)
unfolding prepare
prepare-IsConsistent allow n successes p = record {
  count = sym (assigned-replicate n);
  width = refl;
  remains = λ e g c at at'.
      let same : g ≡ c = cc in
      rw (same, working-replicate e n)
        (record {
          lower = eq_of_parts _ _ (omega (arith, -ℤ_parts c.lower (pos 0)));
          upper = eq_of_parts _ _ (omega (arith, -ℤ_parts c.upper (pos 0)));
          room = inl refl;
        });
}

get_elem?-inside {ℓ} :
    {A : Type ℓ} (xs : List A) (n : ℕ) (x : A) → get_elem? xs n ≡ some x → n < length xs
get_elem?-inside [] n x h = absurd (cc)
get_elem?-inside (y ∷ xs) zero x h = omega arith
get_elem?-inside (y ∷ xs) (suc n) x h = omega (arith, get_elem?-inside xs n x h)

given_at :
    (f : EntryPoint → Interval) (eps : List EntryPoint) (more : List Interval) (e : ℕ)
    (ep : EntryPoint)
    → get_elem? eps e ≡ some ep
    → get_elem? (map f eps ++ more) e ≡ some (f ep)
given_at f [] more e ep h = absurd (cc)
given_at f (x ∷ eps) more zero ep h = cc
given_at f (x ∷ eps) more (suc e) ep h = given_at f eps more e ep h

satisfied_at :
    (dcs : List Interval) (e : ℕ) (dc : Interval)
    → all_satisfied dcs ≡ true
    → get_elem? dcs e ≡ some dc
    → ltb_ℤ (pos 0) dc.lower ≡ false
unfolding all_satisfied
satisfied_at [] e dc h at = absurd (cc)
satisfied_at (x ∷ dcs) zero dc h at = elim (Bool-cases (ltb_ℤ (pos 0) x.lower)) [
  | inl no_ ↦ absurd (ground arith)
  | inr yes_ ↦ let same : x ≡ dc = cc in rw (← same) yes_
]
satisfied_at (x ∷ dcs) (suc e) dc h at = elim (Bool-cases (ltb_ℤ (pos 0) x.lower)) [
  | inl no_ ↦ absurd (ground arith)
  | inr yes_ ↦ satisfied_at dcs e dc (ground arith) at
]

-- What the remaining bounds of a goal say of the given ones.
goal_bounds :
    (g : EntryPoint) (c : Interval) (done n : ℕ)
    → ltb_ℤ (pos 0) c.lower ≡ false
    → Remains (minus g.cardinality (pos done)) c n
    → (g.cardinality.lower ≤ℤ pos (n + done)) × ((n ≡ 0) ⊎ (pos (n + done) ≤ℤ g.cardinality.upper))
goal_bounds g c done n sat r = (
  ground (
    arith,
    r.lower,
    -ℤ_parts g.cardinality.lower (pos done),
    -ℤ_parts (g.cardinality.lower -ℤ pos done) (pos n),
  ),
  elim r.room [
    | inl e ↦ inl e
    | inr le ↦ inr (omega (arith, -ℤ_parts g.cardinality.upper (pos done)))
  ],
)

-- Every goal that the search can reach from a prepared allocation gives every agent of the problem an
-- entry point, or lets it idle. For each entry point of the plan, the agents that work on it and those
-- that are done with it reach its minimum, and do not exceed its maximum, unless nobody works on it.
pub goal-cardinalities :
    (eval : PartialAssignment → Interval) (allow_idling : Bool) (n : ℕ) (successes : EntryPoint → ℕ)
    (p : Plan) (q : PartialAssignment) (e : ℕ) (ep : EntryPoint)
    → Reaches eval (prepare allow_idling n successes p) q
    → is_goal n q ≡ true
    → get_elem? p.entry_points e ≡ some ep
    → let working_and_done = working e q.assignment + successes ep in
      (assigned q.assignment ≡ n)
      × (ep.cardinality.lower ≤ℤ pos working_and_done)
      × ((working e q.assignment ≡ 0) ⊎ (pos working_and_done ≤ℤ ep.cardinality.upper))
unfolding is_goal prepare
goal-cardinalities eval allow_idling n successes p q e ep reach goal at =
    let start = prepare allow_idling n successes p in
    let h =
      Reaches-IsConsistent eval start.cardinalities start q reach
        (prepare-IsConsistent allow_idling n successes p) in
    let f : EntryPoint → Interval = λ x. minus x.cardinality (pos (successes x)) in
    let given : get_elem? start.cardinalities e ≡ some (f ep) =
      given_at f p.entry_points _ e ep at in
    elim (Bool-cases (n == q.num_assigned_agents)) [
      | inr other ↦ absurd (ground arith)
      | inl all_ ↦
          let (c, left) =
            get_elem?-bounds q.cardinalities e
              (omega (arith, h.width, get_elem?-inside start.cardinalities e (f ep) given)) in
          let sat = satisfied_at q.cardinalities e c (ground arith) left in
          let (lower, upper) =
            goal_bounds ep c (successes ep) (working e q.assignment) sat
              (h.remains e (f ep) c given left) in
          (sym h.count ∙ sym (eq_of_== n q.num_assigned_agents all_), lower, upper)
    ]
