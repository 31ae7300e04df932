-- ===== src/Assignment/Pairs.antt =====
-- `AgentStatePairs` of Assignment.h and Assignment.cpp: the agents of one entry point with the
-- states that they are in. Agent ids are compared by pointer, here by number.
pub mod Laws
use mathlib.Core.Option
use alica_engine.Common.{
  ℕ, suc, Bool, true, List, [], ◌∷◌, ◌++◌, map, Option, none, some, any, find_if, erase_if, keep,
  remove_at, contains, not, if◌then◌else◌, ◌==◌,
}

pub record AgentStatePair : Type 0 where
  pub agent : ℕ
  pub state : ℕ

abbrev pub AgentStatePairs : Type 0
AgentStatePairs = List AgentStatePair

abbrev pub is_agent : ℕ → AgentStatePair → Bool
is_agent id asp = asp.agent == id

unfoldable pub has_agent : ℕ → AgentStatePairs → Bool
has_agent id = any (is_agent id)

-- `nullptr` is `none`.
unfoldable pub get_state_of_agent : ℕ → AgentStatePairs → Option ℕ
get_state_of_agent id asps = Option.map (λ asp. asp.state) (find_if (is_agent id) asps)

-- `std::remove_if` with the agents that are in the group.
unfoldable pub remove_all_in : List ℕ → AgentStatePairs → AgentStatePairs
remove_all_in agents = keep (λ asp. not (contains asp.agent agents))

unfoldable pub set_state_of_agent : ℕ → ℕ → AgentStatePairs → AgentStatePairs
set_state_of_agent id s [] = []
set_state_of_agent id s (asp ∷ asps) =
    if is_agent id asp then record asp { state = s } ∷ asps else asp ∷ set_state_of_agent id s asps

-- `emplace_back`.
abbrev pub add : ℕ → ℕ → AgentStatePairs → AgentStatePairs
add id s asps = asps ++ record { agent = id; state = s } ∷ []

-- `remove` of an agent that stands in the list (an absent one is undefined behaviour there), and the
-- loop that removes the first entry of an agent at its index.
unfoldable pub remove : ℕ → AgentStatePairs → AgentStatePairs
remove id = erase_if (is_agent id)

unfoldable pub agents : AgentStatePairs → List ℕ
agents = map (λ asp. asp.agent)
