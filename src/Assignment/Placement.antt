-- ===== src/Assignment/Placement.antt =====
-- The assignment as a map: the list and the state in which an agent stands.
use mathlib.Core.Path.{subst}
use alica_engine.Common.{
  ℕ, zero, suc, ◌≤◌, ◌<◌, ◌≡◌, refl, sym, ◌≢◌, inl, inr, [], ◌∷◌, map, Option, none, some,
  get_elem?, if◌then◌else◌, ◌==◌, arith, Bool-cases, length, eq_of_==, ne_of_==,
}
use alica_engine.Model.{EntryPoint, Plan, Distinct}
use alica_engine.Assignment.Pairs.{AgentStatePairs, has_agent, get_state_of_agent, remove}
use alica_engine.Assignment.Pairs.Laws.{
  entries, has_agent-entries, not_has_agent-entries, has_agent-state, state_of_absent,
  entries-remove_self, entries-remove_ne, state-remove_ne, entries-set_state, state-set_state,
  entries-add, state-add,
}
use alica_engine.Assignment.{Assignment, AssignmentData}
use alica_engine.Assignment.Edit.{update_agent}
use alica_engine.Assignment.Update.{
  total, IsExclusive, put, target_state, reassign, update_agent-reassign,
}

-- The state of an agent in list `i`, if it stands there.
abbrev pub state_in : ℕ → ℕ → AssignmentData → Option ℕ
state_in b i [] = none
state_in b zero (l ∷ d) = get_state_of_agent b l
state_in b (suc i) (l ∷ d) = state_in b i d

pub entries-put_self : (a t : ℕ) (l : AgentStatePairs) → entries a l ≤ 1 → entries a (put a t l) ≡ 1
entries-put_self a t l h = ground (
  arith,
  entries-set_state a a t l,
  entries-add a a t l,
  has_agent-entries a l,
  not_has_agent-entries a l,
)

pub entries-put_ne : (b a t : ℕ) (l : AgentStatePairs) → b ≢ a → entries b (put a t l) ≡ entries b l
entries-put_ne b a t l h = ground (arith, entries-set_state b a t l, entries-add b a t l)

pub state-put_self : (a t : ℕ) (l : AgentStatePairs) → get_state_of_agent a (put a t l) ≡ some t
state-put_self a t l = elim (Bool-cases (has_agent a l)) [
  | inl has ↦
      let (old, found) = has_agent-state a l has in rw has (ground (arith, state-set_state a a t l))
  | inr hasnt ↦ rw hasnt (ground (arith, state-add a a t l, not_has_agent-entries a l))
]

pub state-put_ne :
    (b a t : ℕ) (l : AgentStatePairs)
    → b ≢ a
    → get_state_of_agent b (put a t l) ≡ get_state_of_agent b l
state-put_ne b a t l h = elim (Bool-cases (has_agent a l)) [
  | inl has ↦ rw has (ground (arith, state-set_state b a t l))
  | inr hasnt ↦ rw hasnt (ground (arith, state-add b a t l, not_has_agent-entries a l))
]

total-remove_self : (a : ℕ) (d : AssignmentData) → total a d ≤ 1 → total a (map (remove a) d) ≡ 0
total-remove_self a [] h = refl
total-remove_self a (l ∷ d) h =
    omega (arith, entries-remove_self a l (omega arith), total-remove_self a d (omega arith))

total-remove_ne : (b a : ℕ) (d : AssignmentData) → b ≢ a → total b (map (remove a) d) ≡ total b d
total-remove_ne b a [] h = refl
total-remove_ne b a (l ∷ d) h = omega (arith, entries-remove_ne b a l h, total-remove_ne b a d h)

total-reassign_self :
    (a : ℕ) (e : EntryPoint) (s : Option ℕ) (j : ℕ) (d : AssignmentData)
    → total a d ≤ 1
    → total a (reassign a e s j d) ≤ 1
unfolding reassign
total-reassign_self a e s j [] h = omega arith
total-reassign_self a e s zero (l ∷ d) h = omega (
  arith,
  entries-put_self a (target_state a e s l) l (omega arith),
  total-remove_self a d (omega arith),
)
total-reassign_self a e s (suc j) (l ∷ d) h =
    omega
      (arith, entries-remove_self a l (omega arith), total-reassign_self a e s j d (omega arith))

total-reassign_ne :
    (b a : ℕ) (e : EntryPoint) (s : Option ℕ) (j : ℕ) (d : AssignmentData)
    → b ≢ a
    → total b (reassign a e s j d) ≡ total b d
unfolding reassign
total-reassign_ne b a e s j [] h = refl
total-reassign_ne b a e s zero (l ∷ d) h =
    omega (arith, entries-put_ne b a (target_state a e s l) l h, total-remove_ne b a d h)
total-reassign_ne b a e s (suc j) (l ∷ d) h =
    omega (arith, entries-remove_ne b a l h, total-reassign_ne b a e s j d h)

reassign-IsExclusive :
    (a : ℕ) (e : EntryPoint) (s : Option ℕ) (j : ℕ) (d : AssignmentData)
    → IsExclusive d
    → IsExclusive (reassign a e s j d)
reassign-IsExclusive a e s j d h b = elim (Bool-cases (b == a)) [
  | inl same ↦
      subst (λ c. total c (reassign a e s j d) ≤ 1) (sym (eq_of_== b a same))
        (total-reassign_self a e s j d (h a))
  | inr other ↦ omega (arith, h b, total-reassign_ne b a e s j d (ne_of_== b a other))
]

state_in-remove_ne :
    (b a i : ℕ) (d : AssignmentData) → b ≢ a → state_in b i (map (remove a) d) ≡ state_in b i d
state_in-remove_ne b a i [] h = refl
state_in-remove_ne b a zero (l ∷ d) h = state-remove_ne b a l h
state_in-remove_ne b a (suc i) (l ∷ d) h = state_in-remove_ne b a i d h

state_in-remove_self :
    (a i : ℕ) (d : AssignmentData) → total a d ≤ 1 → state_in a i (map (remove a) d) ≡ none
state_in-remove_self a i [] h = refl
state_in-remove_self a zero (l ∷ d) h =
    state_of_absent a (remove a l) (entries-remove_self a l (omega arith))
state_in-remove_self a (suc i) (l ∷ d) h = state_in-remove_self a i d (omega arith)

-- Any other agent keeps its place.
state_in-reassign_ne :
    (b a : ℕ) (e : EntryPoint) (s : Option ℕ) (i j : ℕ) (d : AssignmentData)
    → b ≢ a
    → state_in b i (reassign a e s j d) ≡ state_in b i d
unfolding reassign
state_in-reassign_ne b a e s i j [] h = refl
state_in-reassign_ne b a e s zero zero (l ∷ d) h = state-put_ne b a (target_state a e s l) l h
state_in-reassign_ne b a e s (suc i) zero (l ∷ d) h = state_in-remove_ne b a i d h
state_in-reassign_ne b a e s zero (suc j) (l ∷ d) h = state-remove_ne b a l h
state_in-reassign_ne b a e s (suc i) (suc j) (l ∷ d) h = state_in-reassign_ne b a e s i j d h

-- The state that the agent is to have at the entry point.
abbrev pub wanted : ℕ → EntryPoint → Option ℕ → ℕ → AssignmentData → ℕ
wanted a e s j d = elim s [
  | some t ↦ t
  | none ↦ elim (state_in a j d) [ some old ↦ old | none ↦ e.state ]
]

state_in-reassign_self :
    (a : ℕ) (e : EntryPoint) (s : Option ℕ) (i j : ℕ) (d : AssignmentData)
    → total a d ≤ 1
    → j < length d
    → state_in a i (reassign a e s j d) ≡ (if i == j then some (wanted a e s j d) else none)
unfolding reassign
state_in-reassign_self a e s i j [] h fit = absurd (omega arith)
state_in-reassign_self a e s zero zero (l ∷ d) h fit = state-put_self a (target_state a e s l) l
state_in-reassign_self a e s (suc i) zero (l ∷ d) h fit = ground (arith, state_in-remove_self a i d)
state_in-reassign_self a e s zero (suc j) (l ∷ d) h fit =
    ground (arith, state_of_absent a (remove a l), entries-remove_self a l)
state_in-reassign_self a e s (suc i) (suc j) (l ∷ d) h fit =
    ground (arith, state_in-reassign_self a e s i j d)

-- After `updateAgent` the agent stands in the list of the entry point alone, in the given state, or,
-- where none is given, in its old state there or else the initial one. Every other agent keeps its
-- place and its state, and no agent stands twice.
pub update_agent-placement :
    (agent j : ℕ) (e : EntryPoint) (s : Option ℕ) (a : Assignment) (p : Plan)
    → a.plan ≡ some p
    → Distinct p.entry_points
    → get_elem? p.entry_points j ≡ some e
    → j < length a.assignment_data
    → IsExclusive a.assignment_data
    → let d = a.assignment_data in
      let d' = (update_agent agent e s a).0.assignment_data in
      IsExclusive d'
      × ((b i : ℕ)
          → state_in b i d' ≡ (
              if b == agent
              then if i == j then some (wanted agent e s j d) else none
              else state_in b i d))
update_agent-placement agent j e s a p plan distinct at fit exclusive =
    let d = a.assignment_data in
    rw (update_agent-reassign agent j e s a p plan distinct at fit exclusive) (
      reassign-IsExclusive agent e s j d exclusive,
      λ b i. elim (Bool-cases (b == agent)) [
        | inl same ↦
            rw (same, eq_of_== b agent same)
              (state_in-reassign_self agent e s i j d (exclusive agent) fit)
        | inr other ↦ rw other (state_in-reassign_ne b agent e s i j d (ne_of_== b agent other))
      ],
    )
