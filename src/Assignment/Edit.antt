-- ===== src/Assignment/Edit.antt =====
-- The operations of Assignment.cpp that change the agent lists. An entry point that is missing in the
-- lists (an index out of range, which is undefined behaviour there) changes nothing.
use alica_engine.Common.{
  ℕ, zero, suc, Bool, true, false, ◌&&◌, ◌||◌, not, List, [], ◌∷◌, map, Option, none, some,
  contains, length, get_elem?, remove_at, if◌then◌else◌, ◌==◌,
}
use mathlib.Core.List.{tail}
use alica_engine.Model.{EntryPoint, Plan, is_entry_point}
use alica_engine.Assignment.Pairs.{
  AgentStatePair, AgentStatePairs, has_agent, get_state_of_agent, remove_all_in, set_state_of_agent,
  add, remove,
}
use alica_engine.Assignment.{Assignment, AssignmentData}

-- `e == _plan->getEntryPoints()[i]`, where the list begins at index `i`.
abbrev pub is_target : EntryPoint → List EntryPoint → Bool
is_target e [] = false
is_target e (x ∷ xs) = is_entry_point e x

-- `s == nullptr || asp.second == s` for the agent's entry.
abbrev pub keeps_state : ℕ → Option ℕ → AgentStatePairs → Bool
keeps_state agent s l = elim s [
  | none ↦ true
  | some t ↦ elim (get_state_of_agent agent l) [ none ↦ false | some old ↦ old == t ]
]

abbrev pub or_initial : EntryPoint → Option ℕ → ℕ
or_initial e none = e.state
or_initial e (some t) = t

-- What the body of the loop of `updateAgent` does to one list: a `return`, with the answer, or the
-- new values of `found` and `inserted`.
pub data UpdateStep : Type 0 where
  returns : AgentStatePairs → Bool → UpdateStep
  goes_on : AgentStatePairs → Bool → Bool → UpdateStep

unfoldable pub update_list :
    ℕ → EntryPoint → Option ℕ → Bool → AgentStatePairs → Bool → Bool → UpdateStep
update_list agent e s true l found inserted =
    if has_agent agent l
    then if keeps_state agent s l
      then returns l false
      else returns (set_state_of_agent agent (or_initial e s) l) true
    else goes_on (add agent (or_initial e s) l) found true
update_list agent e s false l found inserted =
    if not found && has_agent agent l
    then goes_on (remove agent l) true inserted
    else goes_on l found inserted

-- `updateAgent(agent, e, s)`; a null state is `none`.
unfoldable pub update_loop :
    ℕ
    → EntryPoint
    → Option ℕ
    → List EntryPoint
    → AssignmentData
    → Bool
    → Bool
    → AssignmentData × Bool
unfolding update_list
update_loop agent e s eps [] found inserted = ([], inserted)
update_loop agent e s eps (l ∷ d) found inserted =
    elim (update_list agent e s (is_target e eps) l found inserted) [
      | returns l' b ↦ (l' ∷ d, b)
      | goes_on l' found' inserted' ↦
          let (d', b) = update_loop agent e s (tail eps) d found' inserted' in
          if found' && inserted' then (l' ∷ d, true) else (l' ∷ d', b)
    ]

unfoldable pub update_agent : ℕ → EntryPoint → Option ℕ → Assignment → Assignment × Bool
unfolding update_loop
update_agent agent e s a = elim a.plan [
  | none ↦ (a, false)
  | some p ↦
      let (d, b) = update_loop agent e s p.entry_points a.assignment_data false false in
      (record a { assignment_data = d }, b)
]

unfoldable pub move_states : ℕ → ℕ → AgentStatePairs → AgentStatePairs
move_states from to = map (λ asp. if asp.state == from then record asp { state = to } else asp)

-- `moveAllFromTo`.
unfoldable pub move_all_from_to :
    EntryPoint → ℕ → ℕ → List EntryPoint → AssignmentData → AssignmentData
unfolding move_states
move_all_from_to scope from to eps [] = []
move_all_from_to scope from to eps (l ∷ d) =
    (if is_target scope eps then move_states from to l else l)
    ∷ move_all_from_to scope from to (tail eps) d

unfoldable pub set_all : List ℕ → ℕ → AgentStatePairs → AgentStatePairs
set_all [] s l = l
set_all (id ∷ ids) s l =
    set_all ids s (if has_agent id l then set_state_of_agent id s l else add id s l)

-- `setAllToInitialState`; the lists begin at index `i`.
unfoldable pub set_all_to_initial_state : List ℕ → EntryPoint → ℕ → AssignmentData → AssignmentData
unfolding set_all
set_all_to_initial_state agents ep i [] = []
set_all_to_initial_state agents ep i (l ∷ d) =
    (if ep.index == i then set_all agents ep.state l else remove_all_in agents l)
    ∷ set_all_to_initial_state agents ep (suc i) d

abbrev pub keep_old_state : AgentStatePairs → AgentStatePair → AgentStatePair
keep_old_state old asp = elim (get_state_of_agent asp.agent old) [
  | none ↦ asp
  | some s ↦ record asp { state = s }
]

unfoldable pub adapt_lists : AssignmentData → AssignmentData → AssignmentData
adapt_lists [] new = []
adapt_lists (l ∷ d) [] = l ∷ d
adapt_lists (l ∷ d) (n ∷ new) = map (keep_old_state l) n ∷ adapt_lists d new

abbrev pub same_plan : Option Plan → Option Plan → Bool
same_plan none none = true
same_plan none (some q) = false
same_plan (some p) none = false
same_plan (some p) (some q) = p.id == q.id

-- `adaptTaskChangesFrom`.
unfoldable pub adapt_task_changes_from : Assignment → Assignment → Assignment
unfolding adapt_lists
adapt_task_changes_from other this =
    if not (same_plan other.plan this.plan)
    then other
    else record this { assignment_data = adapt_lists this.assignment_data other.assignment_data }

abbrev pub is_state : Option ℕ → ℕ → Bool
is_state none s = false
is_state (some w) s = s == w

-- The inner loop of `removeAllIn` and `removeAllNotIn`, from index `j - 1` down to 0. The watched
-- state may be null.
unfoldable pub remove_down :
    (ℕ → Bool) → Option ℕ → ℕ → AgentStatePairs → Bool → AgentStatePairs × Bool
remove_down out watch zero l ret = (l, ret)
remove_down out watch (suc j) l ret = elim (get_elem? l j) [
  | none ↦ (l, ret)
  | some asp ↦
      let removes = out asp.agent in
      remove_down out watch j (if removes then remove_at l j else l)
        (if removes then ret || is_state watch asp.state else ret)
]

unfoldable pub remove_each : (ℕ → Bool) → Option ℕ → AssignmentData → Bool → AssignmentData × Bool
unfolding remove_down
remove_each out watch [] ret = ([], ret)
remove_each out watch (l ∷ d) ret =
    let (l', ret') = remove_down out watch (length l) l ret in
    let (d', ret'') = remove_each out watch d ret' in (l' ∷ d', ret'')

unfoldable pub data_remove_all_in : List ℕ → Option ℕ → AssignmentData → AssignmentData × Bool
unfolding remove_each
data_remove_all_in limit watch d = remove_each (λ id. contains id limit) watch d false

unfoldable pub data_remove_all_not_in : List ℕ → Option ℕ → AssignmentData → AssignmentData × Bool
unfolding remove_each
data_remove_all_not_in limit watch d = remove_each (λ id. not (contains id limit)) watch d false

-- `removeAgent`: the first list that has the agent.
unfoldable pub remove_agent : ℕ → AssignmentData → AssignmentData
remove_agent agent [] = []
remove_agent agent (l ∷ d) =
    if has_agent agent l then remove agent l ∷ d else l ∷ remove_agent agent d

abbrev pub edit_at : ℕ → (AgentStatePairs → AgentStatePairs) → AssignmentData → AssignmentData
edit_at i f [] = []
edit_at zero f (l ∷ d) = f l ∷ d
edit_at (suc i) f (l ∷ d) = l ∷ edit_at i f d

unfoldable pub add_agent : ℕ → EntryPoint → ℕ → AssignmentData → AssignmentData
add_agent agent e s = edit_at e.index (add agent s)

unfoldable pub set_state : ℕ → ℕ → EntryPoint → AssignmentData → AssignmentData
set_state agent s hint = edit_at hint.index (set_state_of_agent agent s)

unfoldable pub remove_agent_from : ℕ → EntryPoint → AssignmentData → AssignmentData
remove_agent_from agent ep = edit_at ep.index (remove agent)

unfoldable pub remove_all_from : List ℕ → EntryPoint → AssignmentData → AssignmentData
remove_all_from agents ep = edit_at ep.index (remove_all_in agents)
