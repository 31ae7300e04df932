-- ===== src/Planning/PartialAssignment.antt =====
-- planselector/PartialAssignment.cpp: an allocation under construction. An agent's entry is the index
-- of its entry point, or -1; the index behind the last entry point stands for idling. The number of
-- agents of the problem is passed in. Utilities are whole numbers, in the unit in which `compare` rounds
-- them (`PRECISION` to one), and `int` does not overflow.
use alica_engine.Common.{
  ℕ, zero, suc, ◌+◌, ◌-◌, ◌*◌, ◌^◌, Bool, true, false, not, List, [], ◌∷◌, ◌++◌, map, Option, none,
  some, drop, set, get_elem?, if◌then◌else◌, ◌==◌, ltb,
}
use alica_engine.Common.Int.{ℤ, pos, negsuc, ◌+ℤ◌, ◌-ℤ◌, ltb_ℤ, leb_ℤ}
use alica_engine.Model.{Interval, EntryPoint, Plan}

pub record PartialAssignment : Type 0 where
  pub plan : Plan
  pub cardinalities : List Interval
  pub assignment : List ℤ
  pub utility : Interval
  pub num_assigned_agents : ℕ
  pub next_agent_idx : ℕ

abbrev pub precision : ℕ
precision = 2 ^ 30

abbrev pub int_max : ℤ
int_max = pos (2 ^ 31 - 1)

-- `operator-` and `--` of Interval.h.
abbrev pub minus : Interval → ℤ → Interval
minus i v = record { lower = i.lower -ℤ v; upper = i.upper -ℤ v }

-- The bounds before an evaluation, which are the least and the greatest double.
unfoldable pub unknown : Interval
unknown = record {
  lower = negsuc ((2 ^ 53 - 1) * 2 ^ 1001 - 1);
  upper = pos ((2 ^ 53 - 1) * 2 ^ 1001);
}

abbrev pub replicate {ℓ} : {A : Type ℓ} → ℕ → A → List A
replicate zero x = []
replicate (suc n) x = x ∷ replicate n x

-- `prepare`. `successes` is the number of agents that are done with an entry point.
unfoldable pub prepare : Bool → ℕ → (EntryPoint → ℕ) → Plan → PartialAssignment
prepare allow_idling agent_count successes p = record {
  plan = p;
  cardinalities =
      map (λ ep. minus ep.cardinality (pos (successes ep))) p.entry_points
      ++ (if allow_idling then record { lower = pos 0; upper = int_max } ∷ [] else []);
  assignment = replicate agent_count (negsuc 0);
  utility = unknown;
  num_assigned_agents = 0;
  next_agent_idx = 0;
}

-- The loop of `isValid`, with the sum of the minima; `none` is its `return false`.
unfoldable pub sum_min : List Interval → ℤ → Option ℤ
sum_min [] acc = some acc
sum_min (dc ∷ dcs) acc = if ltb_ℤ dc.upper (pos 0) then none else sum_min dcs (acc +ℤ dc.lower)

unfoldable pub is_valid : ℕ → PartialAssignment → Bool
unfolding sum_min
is_valid agent_count pa = elim (sum_min pa.cardinalities (pos 0)) [
  | none ↦ false
  | some least ↦ leb_ℤ least (pos agent_count -ℤ pos pa.num_assigned_agents)
]

unfoldable pub all_satisfied : List Interval → Bool
all_satisfied [] = true
all_satisfied (dc ∷ dcs) = if ltb_ℤ (pos 0) dc.lower then false else all_satisfied dcs

unfoldable pub is_goal : ℕ → PartialAssignment → Bool
unfolding all_satisfied
is_goal agent_count pa =
    if not (agent_count == pa.num_assigned_agents) then false else all_satisfied pa.cardinalities

-- `getAssignedAgentCount(idx)`; an index out of range is `none`.
unfoldable pub get_assigned_agent_count : ℕ → PartialAssignment → Option ℤ
get_assigned_agent_count idx pa = elim (get_elem? pa.plan.entry_points idx) [
  | none ↦ none
  | some ep ↦ elim (get_elem? pa.cardinalities idx) [
    | none ↦ none
    | some dc ↦ some (ep.cardinality.upper -ℤ dc.upper)
  ]
]

-- `assignUnassignedAgent`; an index out of range changes nothing.
unfoldable pub assign_unassigned_agent : ℕ → ℕ → PartialAssignment → PartialAssignment × Bool
assign_unassigned_agent agent_idx ep_idx pa = elim (get_elem? pa.cardinalities ep_idx) [
  | none ↦ (pa, false)
  | some dc ↦
      if ltb_ℤ (pos 0) dc.upper
      then (
        record pa {
          cardinalities = set pa.cardinalities ep_idx (minus dc (pos 1));
          assignment = set pa.assignment agent_idx (pos ep_idx);
          next_agent_idx =
              if pa.next_agent_idx == agent_idx then pa.next_agent_idx + 1 else pa.next_agent_idx;
          num_assigned_agents = pa.num_assigned_agents + 1;
        },
        true,
      )
      else (pa, false)
]

-- The loop at the end of `compare`.
unfoldable pub compare_assignments : List ℤ → List ℤ → Bool
compare_assignments [] bs = false
compare_assignments (a ∷ rest) [] = false
compare_assignments (a ∷ rest) (b ∷ bs) =
    if ltb_ℤ a b then true else if ltb_ℤ b a then false else compare_assignments rest bs

-- `compare`. The second test of the plan ids compares `b` with itself, as in the source.
unfoldable pub compare : PartialAssignment → PartialAssignment → Bool
unfolding compare_assignments
compare a b =
    if ltb_ℤ a.utility.upper b.utility.upper
    then true
    else if ltb_ℤ b.utility.upper a.utility.upper
    then false
    else if ltb a.plan.id b.plan.id
    then false
    else if ltb b.plan.id b.plan.id
    then true
    else if ltb a.num_assigned_agents b.num_assigned_agents
    then true
    else if ltb b.num_assigned_agents a.num_assigned_agents
    then false
    else if ltb_ℤ a.utility.lower b.utility.lower
    then true
    else if ltb_ℤ b.utility.lower a.utility.lower
    then false
    else compare_assignments a.assignment b.assignment

-- The loop at the start of `expand`, over the agents from `_nextAgentIdx` on.
unfoldable pub skip_assigned : List ℤ → ℕ → ℕ
skip_assigned [] i = i
skip_assigned (a ∷ rest) i = if leb_ℤ (pos 0) a then skip_assigned rest (suc i) else i

unfoldable pub next_unassigned : PartialAssignment → PartialAssignment
unfolding skip_assigned
next_unassigned pa = record pa {
  next_agent_idx = skip_assigned (drop pa.next_agent_idx pa.assignment) pa.next_agent_idx;
}
