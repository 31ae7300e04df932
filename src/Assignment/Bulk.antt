-- ===== src/Assignment/Bulk.antt =====
-- The operations on all agents at once: moving a state, and the initial state.

use mathlib.Core.Option
use mathlib.Core.Path.{subst}
use alica_engine.Common.{
  ℕ, zero, suc, ◌+◌, ◌≤◌, ◌<◌, ◌≡◌, refl, sym, ap, ◌∙◌, inl, inr, true, false, List, [], ◌∷◌, none,
  some, All, contains, get_elem?, if◌then◌else◌, ◌==◌, arith, Bool-cases, length, eq_of_==,
  ne_of_==,
}
use alica_engine.Model.{EntryPoint, Distinct, is_entry_point}
use alica_engine.Assignment.Pairs.{AgentStatePairs, get_state_of_agent}
use alica_engine.Assignment.Pairs.Laws.{entries, state-remove_all_in, entries-remove_all_in}
use alica_engine.Assignment.{AssignmentData}
use alica_engine.Assignment.Edit.{move_states, move_all_from_to, set_all, set_all_to_initial_state}
use alica_engine.Assignment.Update.{total, IsExclusive, OnlyAt, only_at, put}
use alica_engine.Assignment.Placement.{
  state_in, entries-put_self, entries-put_ne, state-put_self, state-put_ne,
}

-- The state after a move.
abbrev pub moved : ℕ → ℕ → ℕ → ℕ
moved from to s = if s == from then to else s

state-move_states :
    (b from to : ℕ) (l : AgentStatePairs)
    → get_state_of_agent b (move_states from to l)
      ≡ Option.map (moved from to) (get_state_of_agent b l)
unfolding move_states get_state_of_agent
state-move_states b from to [] = refl
state-move_states b from to (x ∷ l) = ground (arith, state-move_states b from to l)

move_off_target :
    (e : EntryPoint) (from to : ℕ) (eps : List EntryPoint) (d : AssignmentData)
    → All (λ y. is_entry_point e y ≡ false) eps
    → move_all_from_to e from to eps d ≡ d
unfolding move_all_from_to
move_off_target e from to eps [] h = refl
move_off_target e from to [] (l ∷ d) h = rw (move_off_target e from to [] d tt)
move_off_target e from to (x ∷ eps) (l ∷ d) h = rw (h.0, move_off_target e from to eps d h.1)

move_at :
    (b i j from to : ℕ) (e : EntryPoint) (eps : List EntryPoint) (d : AssignmentData)
    → OnlyAt e j eps
    → state_in b i (move_all_from_to e from to eps d)
      ≡ (if i == j then Option.map (moved from to) (state_in b i d) else state_in b i d)
unfolding move_all_from_to
move_at b i j from to e [] d only = absurd only
move_at b i j from to e (x ∷ eps) [] only = ground arith
move_at b zero zero from to e (x ∷ eps) (l ∷ d) only = rw (only.0) (state-move_states b from to l)
move_at b (suc i) zero from to e (x ∷ eps) (l ∷ d) only =
    ground (arith, ap (state_in b i) (move_off_target e from to eps d only.1))
move_at b zero (suc j) from to e (x ∷ eps) (l ∷ d) only = rw (only.0) (ground arith)
move_at b (suc i) (suc j) from to e (x ∷ eps) (l ∷ d) only =
    ground (arith, move_at b i j from to e eps d only.1)

-- `moveAllFromTo` moves exactly the agents of the scope that are in the one state to the other, and
-- leaves every other agent where it is.
pub move_all-placement :
    (b i j from to : ℕ) (scope : EntryPoint) (eps : List EntryPoint) (d : AssignmentData)
    → Distinct eps
    → get_elem? eps j ≡ some scope
    → state_in b i (move_all_from_to scope from to eps d)
      ≡ (if i == j then Option.map (moved from to) (state_in b i d) else state_in b i d)
move_all-placement b i j from to scope eps d distinct at =
    move_at b i j from to scope eps d (only_at scope j eps distinct at)

state-set_all :
    (b s : ℕ) (ids : List ℕ) (l : AgentStatePairs)
    → get_state_of_agent b (set_all ids s l)
      ≡ (if contains b ids then some s else get_state_of_agent b l)
unfolding set_all
state-set_all b s [] l = refl
state-set_all b s (id ∷ ids) l = elim (Bool-cases (id == b)) [
  | inl same ↦
      let eq : id ≡ b = eq_of_== id b same in
      rw (same, eq) (ground (arith, state-set_all b s ids (put b s l), state-put_self b s l))
  | inr other ↦ rw other (
      state-set_all b s ids (put id s l)
      ∙ ap (λ o. if contains b ids then some s else o)
          (state-put_ne b id s l (λ e. ne_of_== id b other (sym e))))
]

entries-set_all :
    (b s : ℕ) (ids : List ℕ) (l : AgentStatePairs)
    → entries b l ≤ 1
    → entries b (set_all ids s l) ≤ 1
unfolding set_all
entries-set_all b s [] l h = h
entries-set_all b s (id ∷ ids) l h = elim (Bool-cases (b == id)) [
  | inl same ↦
      let eq : b ≡ id = eq_of_== b id same in
      entries-set_all b s ids (put id s l) (
        subst (λ c. entries c (put id s l) ≤ 1) (sym eq)
          (omega (arith, entries-put_self id s l (subst (λ c. entries c l ≤ 1) eq h))))
  | inr other ↦
      entries-set_all b s ids (put id s l)
        (omega (arith, entries-put_ne b id s l (ne_of_== b id other)))
]

-- The lists before and behind the entry point's own.
initial_others :
    (b i k : ℕ) (g : List ℕ) (ep : EntryPoint) (d : AssignmentData)
    → ep.index < k
    → state_in b i (set_all_to_initial_state g ep k d)
      ≡ (if contains b g then none else state_in b i d)
unfolding set_all_to_initial_state
initial_others b i k g ep [] h = ground arith
initial_others b zero k g ep (l ∷ d) h = ground (arith, state-remove_all_in b g l)
initial_others b (suc i) k g ep (l ∷ d) h = initial_others b i (suc k) g ep d (omega arith)

initial_at :
    (b i j k : ℕ) (g : List ℕ) (ep : EntryPoint) (d : AssignmentData)
    → ep.index ≡ k + j
    → j < length d
    → state_in b i (set_all_to_initial_state g ep k d)
      ≡ (if contains b g then if i == j then some ep.state else none else state_in b i d)
unfolding set_all_to_initial_state
initial_at b i j k g ep [] h fit = absurd (omega arith)
initial_at b zero zero k g ep (l ∷ d) h fit = ground (arith, state-set_all b ep.state g l)
initial_at b (suc i) zero k g ep (l ∷ d) h fit = ground (arith, initial_others b i (suc k) g ep d)
initial_at b zero (suc j) k g ep (l ∷ d) h fit = ground (arith, state-remove_all_in b g l)
initial_at b (suc i) (suc j) k g ep (l ∷ d) h fit = ground (arith, initial_at b i j (suc k) g ep d)

-- `setAllToInitialState` puts every agent of the group into the initial state of the entry point,
-- and nowhere else, and leaves every other agent where it is.
pub set_all-placement :
    (b i : ℕ) (g : List ℕ) (ep : EntryPoint) (d : AssignmentData)
    → ep.index < length d
    → state_in b i (set_all_to_initial_state g ep 0 d)
      ≡ (if contains b g then if i == ep.index then some ep.state else none else state_in b i d)
set_all-placement b i g ep d fit = initial_at b i ep.index 0 g ep d (omega arith) fit

total_behind :
    (b k : ℕ) (g : List ℕ) (ep : EntryPoint) (d : AssignmentData)
    → ep.index < k
    → total b (set_all_to_initial_state g ep k d) ≡ (if contains b g then 0 else total b d)
unfolding set_all_to_initial_state
total_behind b k g ep [] h = ground arith
total_behind b k g ep (l ∷ d) h =
    ground (arith, entries-remove_all_in b g l, total_behind b (suc k) g ep d)

entries-set_all_others :
    (b s : ℕ) (ids : List ℕ) (l : AgentStatePairs)
    → contains b ids ≡ false
    → entries b (set_all ids s l) ≡ entries b l
unfolding set_all
entries-set_all_others b s [] l h = refl
entries-set_all_others b s (id ∷ ids) l h =
    ground (arith, entries-set_all_others b s ids (put id s l), entries-put_ne b id s l)

total_initial_others :
    (b k : ℕ) (g : List ℕ) (ep : EntryPoint) (d : AssignmentData)
    → contains b g ≡ false
    → total b (set_all_to_initial_state g ep k d) ≡ total b d
unfolding set_all_to_initial_state
total_initial_others b k g ep [] h = refl
total_initial_others b k g ep (l ∷ d) h = ground (
  arith,
  entries-remove_all_in b g l,
  entries-set_all_others b ep.state g l,
  total_initial_others b (suc k) g ep d,
)

total_initial_group :
    (b k : ℕ) (g : List ℕ) (ep : EntryPoint) (d : AssignmentData)
    → contains b g ≡ true
    → total b d ≤ 1
    → total b (set_all_to_initial_state g ep k d) ≤ 1
unfolding set_all_to_initial_state
total_initial_group b k g ep [] h once = omega arith
total_initial_group b k g ep (l ∷ d) h once = ground (
  arith,
  entries-remove_all_in b g l,
  entries-set_all b ep.state g l,
  total_initial_group b (suc k) g ep d,
  total_behind b (suc k) g ep d,
)

-- `setAllToInitialState` lets no agent stand twice.
pub set_all-IsExclusive :
    (g : List ℕ) (ep : EntryPoint) (d : AssignmentData)
    → IsExclusive d
    → IsExclusive (set_all_to_initial_state g ep 0 d)
set_all-IsExclusive g ep d h b = elim (Bool-cases (contains b g)) [
  | inl member ↦ total_initial_group b 0 g ep d member (h b)
  | inr other ↦ omega (arith, h b, total_initial_others b 0 g ep d other)
]
