-- ===== src/RoleAssignment/Tests.antt =====
-- Runs of the role assignment on small inputs.
use alica_engine.Common.{
  ℕ, zero, suc, ◌≡◌, refl, Bool, true, false, List, [], ◌∷◌, none, some, any, if◌then◌else◌,
}
use alica_engine.TeamManager.{Agent, TeamManager, has_id, active_agents}
use alica_engine.RoleAssignment.{Role, RoleAssignment, calculate_roles, tick, update}
use alica_engine.RoleAssignment.Roles.{role_in, default_of, calculate_roles-default}

abbrev agent_at : ℕ → Bool → Agent
agent_at id active = record {
  id = id;
  active = active;
  ignored = false;
  local = false;
  time_out = 10;
  time_last_msg_received = 0;
  success_marks = [];
}

abbrev team : TeamManager
team = record {
  agents = agent_at 1 true ∷ agent_at 2 false ∷ agent_at 3 true ∷ [];
  team_time_out = 10;
  local_agent = 1;
}

-- The agents 1 and 2 are keepers by default, and the others strikers.
abbrev default_role : ℕ → ℕ
default_role zero = 0
default_role (suc zero) = 0
default_role (suc (suc zero)) = 0
default_role (suc (suc (suc n))) = 1

abbrev roles : List Role
roles =
    record { id = 50; name = 1 } ∷ record { id = 51; name = 0 } ∷ record { id = 52; name = 0 } ∷ []

abbrev before : RoleAssignment
before = record { update_roles = true; robot_role_mapping = []; own_role = none; sent_roles = [] }

after_tick :
    tick default_role roles 1 true team (update before)
    ≡ some (record {
      update_roles = false;
      robot_role_mapping = record { agent = 1; role = 51 } ∷ record { agent = 3; role = 50 } ∷ [];
      own_role = some 51;
      sent_roles = 51 ∷ [];
    })
unfolding tick update
after_tick = refl

-- An agent without a role of its default name.
no_role : calculate_roles (λ a. 7) roles 1 true team before ≡ none
unfolding calculate_roles
no_role = refl

calculate_roles-default_example :
    (s' : RoleAssignment) × (calculate_roles default_role roles 1 true team before ≡ some s')
    × ((id : ℕ)
        → role_in id s'.robot_role_mapping ≡ (
            if any (has_id id) (active_agents team)
            then default_of default_role roles id
            else none))
    × (s'.own_role
        ≡ (if any (has_id 1) (active_agents team) then default_of default_role roles 1 else none))
unfolding active_agents
calculate_roles-default_example =
    calculate_roles-default default_role roles 1 true team before (refl, (refl, tt))
