-- ===== src/Assignment/Update.antt =====
-- `updateAgent` against a reference: the agent leaves every other entry point and is put into the
-- target once.

use alica_engine.Common.{
  ℕ, zero, suc, ◌+◌, ◌≤◌, ◌<◌, ◌≡◌, refl, ◌≢◌, inl, inr, Bool, true, false, ◌&&◌, not, List, [],
  ◌∷◌, map, Option, none, some, All, get_elem?, if◌then◌else◌, arith, Bool-cases, length, ==-of_ne,
  ==-refl,
}
use alica_engine.Model.{EntryPoint, Plan, Distinct, is_entry_point}
use alica_engine.Assignment.Pairs.{
  AgentStatePairs, has_agent, get_state_of_agent, set_state_of_agent, add, remove,
}
use alica_engine.Assignment.Pairs.Laws.{
  entries, has_agent-entries, not_has_agent-entries, has_agent-state, state_of_absent,
  remove_absent, set_state_same,
}
use alica_engine.Assignment.{Assignment, AssignmentData}
use alica_engine.Assignment.Edit.{keeps_state, or_initial, update_loop, update_agent}

-- The number of an agent's entries in all the lists.
abbrev pub total : ℕ → AssignmentData → ℕ
total b [] = 0
total b (l ∷ d) = entries b l + total b d

-- No agent stands twice in the assignment.
abbrev pub IsExclusive : AssignmentData → Type 0
IsExclusive d = (b : ℕ) → total b d ≤ 1

-- `e` is the entry point at index `j`, and at no other.
abbrev pub OnlyAt : EntryPoint → ℕ → List EntryPoint → Type 0
OnlyAt e j [] = ⊥
OnlyAt e zero (x ∷ xs) = (is_entry_point e x ≡ true) × All (λ y. is_entry_point e y ≡ false) xs
OnlyAt e (suc j) (x ∷ xs) = (is_entry_point e x ≡ false) × OnlyAt e j xs

-- The agent's entry in the target list: its state is changed to `t`, or it is added in state `t`.
abbrev pub put : ℕ → ℕ → AgentStatePairs → AgentStatePairs
put agent t l = if has_agent agent l then set_state_of_agent agent t l else add agent t l

-- The state in which the target list keeps or gets the agent.
abbrev pub target_state : ℕ → EntryPoint → Option ℕ → AgentStatePairs → ℕ
target_state agent e s l = elim s [
  | some t ↦ t
  | none ↦ elim (get_state_of_agent agent l) [ some old ↦ old | none ↦ e.state ]
]

-- The reference: the agent is put into list `j` and removed from every other one.
unfoldable pub reassign : ℕ → EntryPoint → Option ℕ → ℕ → AssignmentData → AssignmentData
reassign agent e s j [] = []
reassign agent e s zero (l ∷ d) = put agent (target_state agent e s l) l ∷ map (remove agent) d
reassign agent e s (suc j) (l ∷ d) = remove agent l ∷ reassign agent e s j d

-- Whether list `j` has the agent in a state that the update keeps.
unfoldable pub stays : ℕ → Option ℕ → ℕ → AssignmentData → Bool
stays agent s j [] = false
stays agent s zero (l ∷ d) = has_agent agent l && keeps_state agent s l
stays agent s (suc j) (l ∷ d) = stays agent s j d

remove_all_absent : (a : ℕ) (d : AssignmentData) → total a d ≡ 0 → map (remove a) d ≡ d
remove_all_absent a [] h = refl
remove_all_absent a (l ∷ d) h =
    rw (remove_absent a l (omega arith), remove_all_absent a d (omega arith))

-- After the target: the rest is searched for the agent.
after_target :
    (a : ℕ) (e : EntryPoint) (s : Option ℕ) (eps : List EntryPoint) (d : AssignmentData)
    → total a d ≤ 1
    → All (λ y. is_entry_point e y ≡ false) eps
    → update_loop a e s eps d false true ≡ (map (remove a) d, true)
unfolding update_loop
after_target a e s eps [] h other = refl
after_target a e s [] (l ∷ d) h other = elim (Bool-cases (has_agent a l)) [
  | inl has ↦ ground (arith, has_agent-entries a l, remove_all_absent a d)
  | inr hasnt ↦
      ground (arith, not_has_agent-entries a l, remove_absent a l, after_target a e s [] d)
]
after_target a e s (x ∷ eps) (l ∷ d) h other = elim (Bool-cases (has_agent a l)) [
  | inl has ↦ ground (arith, has_agent-entries a l, remove_all_absent a d)
  | inr hasnt ↦
      ground (arith, not_has_agent-entries a l, remove_absent a l, after_target a e s eps d)
]

target_moved :
    (a : ℕ) (e : EntryPoint) (s : Option ℕ) (l : AgentStatePairs)
    → keeps_state a s l ≡ false
    → target_state a e s l ≡ or_initial e s
target_moved a e s l moved = ground arith

target_absent :
    (a : ℕ) (e : EntryPoint) (s : Option ℕ) (l : AgentStatePairs)
    → has_agent a l ≡ false
    → target_state a e s l ≡ or_initial e s
target_absent a e s l hasnt = ground (arith, not_has_agent-entries a l, state_of_absent a l)

-- Before the target, once the agent has been removed.
before_target :
    (a : ℕ) (e : EntryPoint) (s : Option ℕ) (j : ℕ) (eps : List EntryPoint) (d : AssignmentData)
    → total a d ≡ 0
    → j < length d
    → OnlyAt e j eps
    → update_loop a e s eps d true false ≡ (reassign a e s j d, true)
unfolding update_loop reassign
before_target a e s j [] d h fit only = absurd only
before_target a e s j (x ∷ eps) [] h fit only = absurd (omega arith)
before_target a e s zero (x ∷ eps) (l ∷ d) h fit only =
    let hasnt : has_agent a l ≡ false = ground (arith, has_agent-entries a l) in
    rw (target_absent a e s l hasnt) (ground (arith, remove_all_absent a d))
before_target a e s (suc j) (x ∷ eps) (l ∷ d) h fit only =
    ground (arith, has_agent-entries a l, remove_absent a l, before_target a e s j eps d)

put_same :
    (a : ℕ) (e : EntryPoint) (s : Option ℕ) (l : AgentStatePairs)
    → has_agent a l ≡ true
    → keeps_state a s l ≡ true
    → put a (target_state a e s l) l ≡ l
put_same a e s l has kept =
    let (old, found) = has_agent-state a l has in
    let same : target_state a e s l ≡ old = ground arith in
    rw (has, same) (set_state_same a old l found)

stays_absent :
    (a : ℕ) (s : Option ℕ) (j : ℕ) (d : AssignmentData) → total a d ≡ 0 → stays a s j d ≡ false
unfolding stays
stays_absent a s j [] h = refl
stays_absent a s zero (l ∷ d) h = ground (arith, has_agent-entries a l)
stays_absent a s (suc j) (l ∷ d) h = stays_absent a s j d (omega arith)

update_loop-reassign :
    (a : ℕ) (e : EntryPoint) (s : Option ℕ) (j : ℕ) (eps : List EntryPoint) (d : AssignmentData)
    → total a d ≤ 1
    → j < length d
    → OnlyAt e j eps
    → update_loop a e s eps d false false ≡ (reassign a e s j d, not (stays a s j d))
unfolding update_loop reassign stays
update_loop-reassign a e s j [] d h fit only = absurd only
update_loop-reassign a e s j (x ∷ eps) [] h fit only = absurd (omega arith)
update_loop-reassign a e s zero (x ∷ eps) (l ∷ d) h fit only = elim (Bool-cases (has_agent a l)) [
  | inl has ↦ elim (Bool-cases (keeps_state a s l)) [
    | inl kept ↦
        rw (put_same a e s l has kept)
          (ground (arith, has_agent-entries a l, remove_all_absent a d))
    | inr moved ↦
        rw (target_moved a e s l moved)
          (ground (arith, has_agent-entries a l, remove_all_absent a d))
  ]
  | inr hasnt ↦ rw (target_absent a e s l hasnt) (ground (arith, after_target a e s eps d))
]
update_loop-reassign a e s (suc j) (x ∷ eps) (l ∷ d) h fit only =
    elim (Bool-cases (has_agent a l)) [
      | inl has ↦
          ground (arith, has_agent-entries a l, before_target a e s j eps d, stays_absent a s j d)
      | inr hasnt ↦
          ground (
            arith,
            not_has_agent-entries a l,
            remove_absent a l,
            update_loop-reassign a e s j eps d,
          )
    ]

others_at :
    (e : EntryPoint) (xs : List EntryPoint)
    → All (λ y. e.id ≢ y.id) xs
    → All (λ y. is_entry_point e y ≡ false) xs
others_at e [] h = tt
others_at e (x ∷ xs) h = (==-of_ne e.id x.id h.0, others_at e xs h.1)

ne_at :
    (x e : EntryPoint) (xs : List EntryPoint) (j : ℕ)
    → All (λ y. x.id ≢ y.id) xs
    → get_elem? xs j ≡ some e
    → e.id ≢ x.id
ne_at x e [] j h at = absurd (cc)
ne_at x e (y ∷ xs) zero h at = λ same. h.0 (ground arith)
ne_at x e (y ∷ xs) (suc j) h at = ne_at x e xs j h.1 at

pub only_at :
    (e : EntryPoint) (j : ℕ) (eps : List EntryPoint)
    → Distinct eps
    → get_elem? eps j ≡ some e
    → OnlyAt e j eps
only_at e j [] distinct at = absurd (cc)
only_at e zero (x ∷ xs) distinct at =
    let same : x ≡ e = ground arith in rw (← same) (==-refl x.id, others_at x xs distinct.0)
only_at e (suc j) (x ∷ xs) distinct at =
    (==-of_ne e.id x.id (ne_at x e xs j distinct.0 at), only_at e j xs distinct.1 at)

-- On an assignment in which no agent stands twice, `updateAgent` puts the agent into the list of the
-- entry point once and removes it from every other list, and it answers false exactly when the agent
-- already works on the entry point in a state that is kept.
pub update_agent-reassign :
    (agent j : ℕ) (e : EntryPoint) (s : Option ℕ) (a : Assignment) (p : Plan)
    → a.plan ≡ some p
    → Distinct p.entry_points
    → get_elem? p.entry_points j ≡ some e
    → j < length a.assignment_data
    → IsExclusive a.assignment_data
    → update_agent agent e s a ≡ (
      record a { assignment_data = reassign agent e s j a.assignment_data },
      not (stays agent s j a.assignment_data),
    )
unfolding update_agent
update_agent-reassign agent j e s a p plan distinct at fit exclusive =
    let loop =
      update_loop-reassign agent e s j p.entry_points a.assignment_data (exclusive agent) fit
        (only_at e j p.entry_points distinct at) in
    ground (arith)
