-- ===== src/Assignment/Limit.antt =====
-- The index loops that remove agents from the back (`removeAllIn`, `removeAllNotIn`), against a
-- filter, and `removeAgent`.

use mathlib.Core.Path.{subst}
use alica_engine.Common.{
  ℕ, zero, suc, ◌≤◌, ◌<◌, ◌≡◌, refl, sym, ap, ◌∙◌, ◌≢◌, inl, inr, Bool, false, ◌&&◌, ◌||◌, not,
  List, [], ◌∷◌, map, Option, none, any, keep, contains, remove_at, if◌then◌else◌, ◌==◌, arith,
  Bool-cases, length, eq_of_==, ne_of_==, get_elem?-bounds,
}
use alica_engine.Assignment.Pairs.{AgentStatePair, AgentStatePairs}
use alica_engine.Assignment.Pairs.Laws.{
  has_agent-entries, not_has_agent-entries, state_of_absent, entries-remove_self, entries-remove_ne,
  state-remove_ne,
}
use alica_engine.Assignment.{AssignmentData}
use alica_engine.Assignment.Edit.{
  is_state, remove_down, remove_each, data_remove_all_in, data_remove_all_not_in, remove_agent,
}
use alica_engine.Assignment.Update.{total, IsExclusive}
use alica_engine.Assignment.Placement.{state_in}

length-remove_at {ℓ} :
    {A : Type ℓ} (l : List A) (j : ℕ) → j < length l → suc (length (remove_at l j)) ≡ length l
length-remove_at [] j h = absurd (omega arith)
length-remove_at (x ∷ l) zero h = refl
length-remove_at (x ∷ l) (suc j) h = ap suc (length-remove_at l j (omega arith))

-- An agent that is removed from the watched state.
abbrev pub touches : (ℕ → Bool) → Option ℕ → AgentStatePair → Bool
touches out watch asp = out asp.agent && is_state watch asp.state

module _ (out : ℕ → Bool) (watch : Option ℕ) where
  -- The loop on a longer list first does what it does on the tail.
  down-cons :
      (j : ℕ) (x : AgentStatePair) (l : AgentStatePairs) (ret : Bool)
      → j ≤ length l
      → remove_down out watch (suc j) (x ∷ l) ret ≡ (
          let (l', r) = remove_down out watch j l ret in
          if out x.agent then (l', r || is_state watch x.state) else (x ∷ l', r))
  unfolding remove_down
  down-cons zero x l ret h = ground arith
  down-cons (suc j) x l ret h =
      let (y, at) = get_elem?-bounds l j h in
      elim (Bool-cases (out y.agent)) [
        | inl removes ↦ ground (
          arith,
          at,
          down-cons j x (remove_at l j) (ret || is_state watch y.state)
              (omega (arith, length-remove_at l j h)),
        )
        | inr stays ↦ ground (arith, at, down-cons j x l ret (omega arith))
      ]

  down-keep :
      (l : AgentStatePairs) (ret : Bool)
      → remove_down out watch (length l) l ret
        ≡ (keep (λ asp. not (out asp.agent)) l, ret || any (touches out watch) l)
  unfolding remove_down
  down-keep [] ret = ground arith
  down-keep (x ∷ l) ret =
      down-cons (length l) x l ret (omega arith) ∙ ground (arith, down-keep l ret)

  each-keep :
      (d : AssignmentData) (ret : Bool)
      → remove_each out watch d ret
        ≡ (map (keep (λ asp. not (out asp.agent))) d, ret || any (any (touches out watch)) d)
  unfolding remove_each
  each-keep [] ret = ground arith
  each-keep (l ∷ d) ret =
      ground (arith, down-keep l ret, each-keep d (ret || any (touches out watch) l))

-- `removeAllNotIn` keeps exactly the agents of the group, in their order, and answers whether it has
-- removed an agent that was in the watched state.
pub remove_all_not_in-keep :
    (limit : List ℕ) (watch : Option ℕ) (d : AssignmentData)
    → data_remove_all_not_in limit watch d ≡ (
      map (keep (λ asp. not (not (contains asp.agent limit)))) d,
      any (any (λ asp. not (contains asp.agent limit) && is_state watch asp.state)) d,
    )
unfolding data_remove_all_not_in
remove_all_not_in-keep limit watch d = each-keep (λ id. not (contains id limit)) watch d false

-- `removeAllIn` removes exactly the agents of the group and answers whether one of them was in the
-- watched state.
remove_all_in-keep :
    (limit : List ℕ) (watch : Option ℕ) (d : AssignmentData)
    → data_remove_all_in limit watch d ≡ (
      map (keep (λ asp. not (contains asp.agent limit))) d,
      any (any (λ asp. contains asp.agent limit && is_state watch asp.state)) d,
    )
unfolding data_remove_all_in
remove_all_in-keep limit watch d = each-keep (λ id. contains id limit) watch d false

total-remove_agent_self :
    (a : ℕ) (d : AssignmentData) → total a d ≤ 1 → total a (remove_agent a d) ≡ 0
unfolding remove_agent
total-remove_agent_self a [] h = refl
total-remove_agent_self a (l ∷ d) h = ground (
  arith,
  has_agent-entries a l,
  not_has_agent-entries a l,
  entries-remove_self a l,
  total-remove_agent_self a d,
)

total-remove_agent_ne :
    (b a : ℕ) (d : AssignmentData) → b ≢ a → total b (remove_agent a d) ≡ total b d
unfolding remove_agent
total-remove_agent_ne b a [] h = refl
total-remove_agent_ne b a (l ∷ d) h =
    ground (arith, entries-remove_ne b a l h, total-remove_agent_ne b a d h)

state_in_absent : (a i : ℕ) (d : AssignmentData) → total a d ≡ 0 → state_in a i d ≡ none
state_in_absent a i [] h = refl
state_in_absent a zero (l ∷ d) h = state_of_absent a l (omega arith)
state_in_absent a (suc i) (l ∷ d) h = state_in_absent a i d (omega arith)

state_in-remove_agent_ne :
    (b a i : ℕ) (d : AssignmentData) → b ≢ a → state_in b i (remove_agent a d) ≡ state_in b i d
unfolding remove_agent
state_in-remove_agent_ne b a i [] h = refl
state_in-remove_agent_ne b a zero (l ∷ d) h = ground (arith, state-remove_ne b a l h)
state_in-remove_agent_ne b a (suc i) (l ∷ d) h = ground (arith, state_in-remove_agent_ne b a i d h)

-- On an assignment in which no agent stands twice, after `removeAgent` the agent works on no entry
-- point, and every other agent keeps its place and its state.
pub remove_agent-placement :
    (agent : ℕ) (d : AssignmentData)
    → IsExclusive d
    → IsExclusive (remove_agent agent d)
      × ((b i : ℕ)
          → state_in b i (remove_agent agent d) ≡ (if b == agent then none else state_in b i d))
remove_agent-placement agent d h = (
  (λ b. elim (Bool-cases (b == agent)) [
    | inl same ↦
        subst (λ c. total c (remove_agent agent d) ≤ 1) (sym (eq_of_== b agent same))
          (omega (arith, total-remove_agent_self agent d (h agent)))
    | inr other ↦ omega (arith, h b, total-remove_agent_ne b agent d (ne_of_== b agent other))
  ]),
  λ b i. elim (Bool-cases (b == agent)) [
    | inl same ↦
        rw (same, eq_of_== b agent same)
          (state_in_absent agent i _ (total-remove_agent_self agent d (h agent)))
    | inr other ↦ rw other (state_in-remove_agent_ne b agent i d (ne_of_== b agent other))
  ],
)
