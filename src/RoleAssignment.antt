-- ===== src/RoleAssignment.antt =====
-- StaticRoleAssignment.cpp: the role of each robot, by the default role of its configuration. Names are
-- numbers, the default role of an agent is a parameter, and a role is given by its id. The abort of the
-- engine is `none`.
pub mod Roles
mod Tests
use alica_engine.Common.{
  ℕ, Bool, true, false, ◌&&◌, not, List, [], ◌∷◌, ◌++◌, Option, none, some, any, find_if,
  if◌then◌else◌, ◌==◌,
}
use alica_engine.TeamManager.{Agent, TeamManager, active_agents}

pub record Role : Type 0 where
  pub id : ℕ
  pub name : ℕ

-- An entry of `robotRoleMapping`.
pub record RobotRole : Type 0 where
  pub agent : ℕ
  pub role : ℕ

-- `sent_roles` are the role switches that have been sent.
pub record RoleAssignment : Type 0 where
  pub update_roles : Bool
  pub robot_role_mapping : List RobotRole
  pub own_role : Option ℕ
  pub sent_roles : List ℕ

abbrev pub of_robot : ℕ → RobotRole → Bool
of_robot id x = x.agent == id

-- `emplace` leaves an entry that is there as it is.
unfoldable pub emplace : ℕ → ℕ → List RobotRole → List RobotRole
emplace id role m = if any (of_robot id) m then m else m ++ record { agent = id; role = role } ∷ []

abbrev pub is_own : Option ℕ → ℕ → Bool
is_own none role = false
is_own (some r) role = r == role

abbrev pub has_name : ℕ → Role → Bool
has_name name r = r.name == name

module _ (default_role : ℕ → ℕ) (roles : List Role) (me : ℕ) (may_send : Bool) where
  -- An agent has got a role.
  unfoldable pub set_role : ℕ → ℕ → RoleAssignment → RoleAssignment
  unfolding emplace
  set_role id role s =
      let s' = record s { robot_role_mapping = emplace id role s.robot_role_mapping } in
      if id == me && not (is_own s.own_role role)
      then record s' {
        own_role = some role;
        sent_roles = if may_send then s.sent_roles ++ role ∷ [] else s.sent_roles;
      }
      else s'

  unfoldable pub assign_roles : List Agent → RoleAssignment → Option RoleAssignment
  unfolding set_role
  assign_roles [] s = some s
  assign_roles (a ∷ agents) s = elim (find_if (has_name (default_role a.id)) roles) [
    | none ↦ none
    | some r ↦ assign_roles agents (set_role a.id r.id s)
  ]

  unfoldable pub calculate_roles : TeamManager → RoleAssignment → Option RoleAssignment
  unfolding assign_roles active_agents
  calculate_roles tm s = assign_roles (active_agents tm) (record s { robot_role_mapping = [] })

  unfoldable pub tick : TeamManager → RoleAssignment → Option RoleAssignment
  unfolding calculate_roles
  tick tm s =
      if s.update_roles then calculate_roles tm (record s { update_roles = false }) else some s

unfoldable pub update : RoleAssignment → RoleAssignment
update s = record s { update_roles = true }
