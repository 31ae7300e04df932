-- ===== src/Assignment/Pairs/Laws.antt =====
-- What the operations on one entry point's list do to the number of an agent's entries, and to the
-- state that is found for an agent.

use mathlib.Core.Option
use alica_engine.Common.{
  ℕ, ◌+◌, ◌≤◌, ◌<◌, ◌≡◌, refl, ap, ◌≢◌, inl, inr, true, false, List, [], ◌∷◌, none, some, contains,
  count, if◌then◌else◌, ◌==◌, arith, Bool-cases, count_of_any, count_of_not_any, count-append,
}
use alica_engine.Assignment.Pairs.{
  AgentStatePairs, is_agent, has_agent, get_state_of_agent, remove_all_in, set_state_of_agent, add,
  remove,
}

-- The number of entries of an agent.
abbrev pub entries : ℕ → AgentStatePairs → ℕ
entries b = count (is_agent b)

pub has_agent-entries : (b : ℕ) (l : AgentStatePairs) → has_agent b l ≡ true → 0 < entries b l
unfolding has_agent
has_agent-entries b l h = count_of_any (is_agent b) l h

pub not_has_agent-entries : (b : ℕ) (l : AgentStatePairs) → has_agent b l ≡ false → entries b l ≡ 0
unfolding has_agent
not_has_agent-entries b l h = count_of_not_any (is_agent b) l h

pub has_agent-state :
    (b : ℕ) (l : AgentStatePairs)
    → has_agent b l ≡ true
    → (s : ℕ) × (get_state_of_agent b l ≡ some s)
unfolding has_agent get_state_of_agent
has_agent-state b [] h = absurd (cc)
has_agent-state b (x ∷ l) h = elim (Bool-cases (is_agent b x)) [
  | inl e ↦ (x.state, rw e)
  | inr e ↦ let (s, found) = has_agent-state b l (ground arith) in (s, rw e found)
]

pub state_of_absent :
    (b : ℕ) (l : AgentStatePairs) → entries b l ≡ 0 → get_state_of_agent b l ≡ none
unfolding get_state_of_agent
state_of_absent b [] h = refl
state_of_absent b (x ∷ l) h = ground (arith, state_of_absent b l)

pub absent_of_state :
    (b : ℕ) (l : AgentStatePairs) → get_state_of_agent b l ≡ none → entries b l ≡ 0
unfolding get_state_of_agent
absent_of_state b [] h = refl
absent_of_state b (x ∷ l) h = ground (arith, absent_of_state b l)

-- remove
pub entries-remove :
    (b a : ℕ) (l : AgentStatePairs)
    → entries b (remove a l) + (if b == a then entries b l else 0)
      ≤ entries b l + (if b == a then entries b l else 0)
unfolding remove
entries-remove b a [] = ground arith
entries-remove b a (x ∷ l) = ground (arith, entries-remove b a l)

pub remove_absent : (a : ℕ) (l : AgentStatePairs) → entries a l ≡ 0 → remove a l ≡ l
unfolding remove
remove_absent a [] h = refl
remove_absent a (x ∷ l) h = ground (arith, remove_absent a l)

pub entries-remove_self :
    (a : ℕ) (l : AgentStatePairs) → entries a l ≤ 1 → entries a (remove a l) ≡ 0
unfolding remove
entries-remove_self a [] h = refl
entries-remove_self a (x ∷ l) h = ground (arith, entries-remove_self a l)

pub entries-remove_ne :
    (b a : ℕ) (l : AgentStatePairs) → b ≢ a → entries b (remove a l) ≡ entries b l
unfolding remove
entries-remove_ne b a [] h = refl
entries-remove_ne b a (x ∷ l) h = ground (arith, entries-remove_ne b a l)

pub state-remove_ne :
    (b a : ℕ) (l : AgentStatePairs)
    → b ≢ a
    → get_state_of_agent b (remove a l) ≡ get_state_of_agent b l
unfolding remove get_state_of_agent
state-remove_ne b a [] h = refl
state-remove_ne b a (x ∷ l) h = ground (arith, state-remove_ne b a l)

-- set_state_of_agent
pub entries-set_state :
    (b a s : ℕ) (l : AgentStatePairs) → entries b (set_state_of_agent a s l) ≡ entries b l
unfolding set_state_of_agent
entries-set_state b a s [] = refl
entries-set_state b a s (x ∷ l) = ground (arith, entries-set_state b a s l)

pub state-set_state :
    (b a s : ℕ) (l : AgentStatePairs)
    → get_state_of_agent b (set_state_of_agent a s l)
      ≡ (if b == a then Option.map (λ _. s) (get_state_of_agent b l) else get_state_of_agent b l)
unfolding set_state_of_agent get_state_of_agent
state-set_state b a s [] = ground arith
state-set_state b a s (x ∷ l) = ground (arith, state-set_state b a s l)

pub set_state_same :
    (a s : ℕ) (l : AgentStatePairs) → get_state_of_agent a l ≡ some s → set_state_of_agent a s l ≡ l
unfolding set_state_of_agent get_state_of_agent
set_state_same a s [] h = refl
set_state_same a s (x ∷ l) h = ground (arith, set_state_same a s l)

-- add
pub entries-add :
    (b a s : ℕ) (l : AgentStatePairs)
    → entries b (add a s l) ≡ entries b l + (if b == a then 1 else 0)
entries-add b a s l =
    ground (arith, count-append (is_agent b) l (record { agent = a; state = s } ∷ []))

pub state-add :
    (b a s : ℕ) (l : AgentStatePairs)
    → entries a l ≡ 0
    → get_state_of_agent b (add a s l) ≡ (if b == a then some s else get_state_of_agent b l)
unfolding get_state_of_agent
state-add b a s [] h = ground arith
state-add b a s (x ∷ l) h = ground (arith, state-add b a s l)

-- remove_all_in
pub state-remove_all_in :
    (b : ℕ) (g : List ℕ) (l : AgentStatePairs)
    → get_state_of_agent b (remove_all_in g l)
      ≡ (if contains b g then none else get_state_of_agent b l)
unfolding remove_all_in get_state_of_agent
state-remove_all_in b g [] = ground arith
state-remove_all_in b g (x ∷ l) =
    ground (arith, state-remove_all_in b g l, ap (λ (y : ℕ). contains y g) {x = x.agent} {y = b})

pub entries-remove_all_in :
    (b : ℕ) (g : List ℕ) (l : AgentStatePairs)
    → entries b (remove_all_in g l) ≡ (if contains b g then 0 else entries b l)
unfolding remove_all_in
entries-remove_all_in b g [] = ground arith
entries-remove_all_in b g (x ∷ l) = ground (arith, entries-remove_all_in b g l)
