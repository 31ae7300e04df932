-- ===== src/TeamManager.antt =====
-- teammanager/TeamManager.cpp and teammanager/Agent.cpp: the agents of the team, of whom each is active
-- as long as its messages arrive. The map of agents is a list with one entry for each id. Names,
-- properties and the agents' domain variables are left out. The repository's `find` is a parameter.
use alica_engine.Common.{
  ℕ, suc, ◌+◌, Bool, true, false, ◌&&◌, not, List, [], ◌∷◌, ◌++◌, Option, none, some, any, find_if,
  keep, if◌then◌else◌, ◌==◌, ltb,
}
use alica_engine.Model.{EntryPoint}
use alica_engine.Collections.SuccessMarks.{SuccessMarks, mark_successfull}
use alica_engine.Collections.SuccessMarks

pub record Agent : Type 0 where
  pub id : ℕ
  pub active : Bool
  pub ignored : Bool
  pub local : Bool
  pub time_out : ℕ
  pub time_last_msg_received : ℕ
  pub success_marks : SuccessMarks

unfoldable pub set_local : Bool → Agent → Agent
set_local local a = record a { active = if local then true else a.active; local = local }

-- `Agent::update`, at the time `now`: whether the agent has become active or inactive.
unfoldable pub update : ℕ → Agent → Agent × Bool
update now a =
    if a.local
    then (a, false)
    else if a.active && ltb (a.time_last_msg_received + a.time_out) now
    then (record a { success_marks = []; active = false }, true)
    else if not a.active && ltb now (a.time_last_msg_received + a.time_out)
    then (record a { active = true }, true)
    else (a, false)

pub record TeamManager : Type 0 where
  pub agents : List Agent
  pub team_time_out : ℕ
  pub local_agent : ℕ

abbrev pub has_id : ℕ → Agent → Bool
has_id id a = a.id == id

-- `_agents.find(id)`.
abbrev pub find : ℕ → List Agent → Option Agent
find id agents = find_if (has_id id) agents

-- Changes the agent with the id, if there is one.
unfoldable pub edit_agent : ℕ → (Agent → Agent) → List Agent → List Agent
edit_agent id f [] = []
edit_agent id f (a ∷ agents) = if has_id id a then f a ∷ agents else a ∷ edit_agent id f agents

-- The constructor of an agent without a name; the time of the last message is set next.
abbrev pub new_agent : ℕ → ℕ → ℕ → Agent
new_agent time_out id time = record {
  id = id;
  active = false;
  ignored = false;
  local = false;
  time_out = time_out;
  time_last_msg_received = time;
  success_marks = [];
}

unfoldable pub set_time_last_msg_received : ℕ → ℕ → TeamManager → TeamManager
unfolding edit_agent
set_time_last_msg_received id time tm =
    if any (has_id id) tm.agents
    then record tm {
      agents = edit_agent id (λ a. record a { time_last_msg_received = time }) tm.agents;
    }
    else record tm { agents = tm.agents ++ new_agent tm.team_time_out id time ∷ [] }

unfoldable pub is_agent_active : ℕ → TeamManager → Bool
is_agent_active id tm = elim (find id tm.agents) [ none ↦ false | some a ↦ a.active ]

unfoldable pub is_agent_ignored : ℕ → TeamManager → Bool
is_agent_ignored id tm = elim (find id tm.agents) [ none ↦ false | some a ↦ a.ignored ]

unfoldable pub set_agent_ignored : ℕ → Bool → TeamManager → TeamManager
unfolding edit_agent
set_agent_ignored id ignored tm = record tm {
  agents = edit_agent id (λ a. record a { ignored = ignored }) tm.agents;
}

unfoldable pub set_success : ℕ → ℕ → EntryPoint → TeamManager → TeamManager × Bool
unfolding edit_agent mark_successfull
set_success id plan ep tm = (
  record tm {
    agents =
        edit_agent id (λ a. record a { success_marks = mark_successfull plan ep a.success_marks })
          tm.agents;
  },
  any (has_id id) tm.agents,
)

unfoldable pub set_success_marks :
    (ℕ → Option EntryPoint) → ℕ → List ℕ → TeamManager → TeamManager × Bool
unfolding edit_agent SuccessMarks.update
set_success_marks find_ep id eps tm = (
  record tm {
    agents =
        edit_agent id (λ a. record a { success_marks = SuccessMarks.update find_ep eps }) tm.agents;
  },
  any (has_id id) tm.agents,
)

unfoldable pub active_agents : TeamManager → List Agent
active_agents tm = keep (λ a. a.active) tm.agents

-- The loop of `getTeamSize`.
unfoldable pub count_active : List Agent → ℕ
count_active [] = 0
count_active (a ∷ agents) = if a.active then suc (count_active agents) else count_active agents

unfoldable pub get_team_size : TeamManager → ℕ
unfolding count_active
get_team_size tm = count_active tm.agents
