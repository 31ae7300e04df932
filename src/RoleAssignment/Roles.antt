-- ===== src/RoleAssignment/Roles.antt =====
-- StaticRoleAssignment::calculateRoles: which role a robot has.
use mathlib.Core.Option
use alica_engine.Common.{
  ℕ, ◌≡◌, refl, sym, ap, ◌∙◌, Bool, true, false, ◌||◌, ◌&&◌, not, List, [], ◌∷◌, ◌++◌, Option, none,
  some, any, find_if, All, if◌then◌else◌, ◌==◌, eq_of_==,
}
use alica_engine.TeamManager.{Agent, TeamManager, has_id, active_agents}
use alica_engine.RoleAssignment.{
  Role, RobotRole, RoleAssignment, of_robot, emplace, is_own, has_name, set_role, assign_roles,
  calculate_roles,
}

-- The role of a robot in the mapping.
abbrev pub role_in : ℕ → List RobotRole → Option ℕ
role_in id m = Option.map (λ x. x.role) (find_if (of_robot id) m)

abbrev pub default_of : (ℕ → ℕ) → List Role → ℕ → Option ℕ
default_of default_role roles id =
    Option.map (λ r. r.id) (find_if (has_name (default_role id)) roles)

-- What is there, or else the other.
abbrev pub or_else : Option ℕ → Option ℕ → Option ℕ
or_else none o = o
or_else (some x) o = some x

role_in-append :
    (id : ℕ) (x : RobotRole) (m : List RobotRole)
    → role_in id (m ++ x ∷ [])
      ≡ or_else (role_in id m) (if of_robot id x then some x.role else none)
role_in-append id x [] = pick (of_robot id x)
  where
    pick :
        (b : Bool)
        → Option.map (λ y. y.role) (if b then some x else none) ≡ (if b then some x.role else none)
    pick true = refl
    pick false = refl
role_in-append id x (y ∷ m) = pick (of_robot id y) (role_in-append id x m)
  where
    pick :
        (b : Bool)
        → role_in id (m ++ x ∷ [])
          ≡ or_else (role_in id m) (if of_robot id x then some x.role else none)
        → Option.map (λ z. z.role) (if b then some y else find_if (of_robot id) (m ++ x ∷ []))
          ≡ or_else
              (Option.map (λ z. z.role) (if b then some y else find_if (of_robot id) m))
              (if of_robot id x then some x.role else none)
    pick true h = refl
    pick false h = h

-- An entry that is there has a role.
or_else-there :
    (id : ℕ) (m : List RobotRole) (o : Option ℕ)
    → any (of_robot id) m ≡ true
    → or_else (role_in id m) o ≡ role_in id m
or_else-there id [] o h = absurd (cc)
or_else-there id (y ∷ m) o h = pick (of_robot id y) h (or_else-there id m o)
  where
    pick :
        (b : Bool)
        → (b || any (of_robot id) m) ≡ true
        → (any (of_robot id) m ≡ true → or_else (role_in id m) o ≡ role_in id m)
        → or_else (Option.map (λ z. z.role) (if b then some y else find_if (of_robot id) m)) o
          ≡ Option.map (λ z. z.role) (if b then some y else find_if (of_robot id) m)
    pick true h r = refl
    pick false h r = r h

or_else-none : (o : Option ℕ) → or_else o none ≡ o
or_else-none none = refl
or_else-none (some x) = refl

role_in-emplace :
    (id' id role : ℕ) (m : List RobotRole)
    → role_in id' (emplace id role m)
      ≡ or_else (role_in id' m) (if id == id' then some role else none)
unfolding emplace
role_in-emplace id' id role m = pick (any (of_robot id) m) refl (id == id') refl
  where
    x : RobotRole
    x = record { agent = id; role = role }

    pick :
        (b : Bool)
        → any (of_robot id) m ≡ b
        → (c : Bool) → (id == id') ≡ c
        → role_in id' (if b then m else m ++ x ∷ [])
          ≡ or_else (role_in id' m) (if id == id' then some role else none)
    pick false e c k = role_in-append id' x m
    pick true e true k = sym (
        or_else-there id' m (if id == id' then some role else none)
          (ap (λ n. any (of_robot n) m) (sym (eq_of_== id id' k)) ∙ e))
    pick true e false k = sym (
        ap (λ d. or_else (role_in id' m) (if d then some role else none)) k
        ∙ or_else-none (role_in id' m))

or_else-or_else : (o p q : Option ℕ) → or_else (or_else o p) q ≡ or_else o (or_else p q)
or_else-or_else none p q = refl
or_else-or_else (some x) p q = refl

found {ℓ} :
    {A : Type ℓ} (p : A → Bool) (xs : List A) → any p xs ≡ true → (x : A) × (find_if p xs ≡ some x)
found p [] h = absurd (cc)
found {A = A} p (x ∷ xs) h = pick (p x) h (found p xs)
  where
    pick :
        (b : Bool)
        → (b || any p xs) ≡ true
        → (any p xs ≡ true → (y : A) × (find_if p xs ≡ some y))
        → (y : A) × ((if b then some x else find_if p xs) ≡ some y)
    pick true h r = (x, refl)
    pick false h r = r h

module _ (default_role : ℕ → ℕ) (roles : List Role) (me : ℕ) (may_send : Bool) where
  abbrev given : ℕ → ℕ → RoleAssignment → RoleAssignment
  given = set_role default_role roles me may_send

  set_role-mapping :
      (id role : ℕ) (s : RoleAssignment)
      → (given id role s).robot_role_mapping ≡ emplace id role s.robot_role_mapping
  unfolding set_role
  set_role-mapping id role s = pick (id == me && not (is_own s.own_role role))
    where
      s' : RoleAssignment
      s' = record s { robot_role_mapping = emplace id role s.robot_role_mapping }

      pick :
          (b : Bool)
          → (let out : RoleAssignment =
                if b
                then record s' {
                  own_role = some role;
                  sent_roles = if may_send then s.sent_roles ++ role ∷ [] else s.sent_roles;
                }
                else s' in
              out.robot_role_mapping)
            ≡ emplace id role s.robot_role_mapping
      pick true = refl
      pick false = refl

  set_role-own :
      (id role : ℕ) (s : RoleAssignment)
      → (given id role s).own_role ≡ (if id == me then some role else s.own_role)
  unfolding set_role
  set_role-own id role s = pick (id == me) (is_own s.own_role role) (same s.own_role)
    where
      s' : RoleAssignment
      s' = record s { robot_role_mapping = emplace id role s.robot_role_mapping }

      same : (o : Option ℕ) → is_own o role ≡ true → o ≡ some role
      same none h = absurd (cc)
      same (some r) h = ap some (eq_of_== r role h)

      pick :
          (b c : Bool)
          → (c ≡ true → s.own_role ≡ some role)
          → (let out : RoleAssignment =
                if b && not c
                then record s' {
                  own_role = some role;
                  sent_roles = if may_send then s.sent_roles ++ role ∷ [] else s.sent_roles;
                }
                else s' in
              out.own_role)
            ≡ (if b then some role else s.own_role)
      pick true true h = h refl
      pick true false h = refl
      pick false c h = refl

  -- After the assignment of the agents from the state `s`.
  record Assigned (agents : List Agent) (s s' : RoleAssignment) : Type 0 where
    mapping :
        (id : ℕ)
        → role_in id s'.robot_role_mapping
          ≡ or_else
              (role_in id s.robot_role_mapping)
              (if any (has_id id) agents then default_of default_role roles id else none)
    own :
        s'.own_role
        ≡ (if any (has_id me) agents then default_of default_role roles me else s.own_role)

  assign_step :
      (a : Agent) (agents : List Agent) (r : Role) (s s' : RoleAssignment)
      → find_if (has_name (default_role a.id)) roles ≡ some r
      → Assigned agents (given a.id r.id s) s'
      → Assigned (a ∷ agents) s s'
  assign_step a agents r s s' e h = record {
    mapping = λ id.
        h.mapping id
        ∙ ap (λ m. or_else (role_in id m) (rest id)) (set_role-mapping a.id r.id s)
        ∙ ap (λ o. or_else o (rest id)) (role_in-emplace id a.id r.id s.robot_role_mapping)
        ∙ or_else-or_else (role_in id s.robot_role_mapping) _ (rest id)
        ∙ ap (or_else (role_in id s.robot_role_mapping)) (first id (a.id == id) refl);
    own =
        h.own
        ∙ ap (λ o. if any (has_id me) agents then default_of default_role roles me else o)
            (set_role-own a.id r.id s)
        ∙ mine (a.id == me) (any (has_id me) agents) refl;
  }
    where
      rest : ℕ → Option ℕ
      rest id = if any (has_id id) agents then default_of default_role roles id else none

      named : (id : ℕ) → (a.id == id) ≡ true → some r.id ≡ default_of default_role roles id
      named id k = sym (
          ap (λ o. Option.map (λ (x : Role). x.id) o)
            (ap (λ n. find_if (has_name (default_role n)) roles) (sym (eq_of_== a.id id k)) ∙ e))

      first :
          (id : ℕ) (b : Bool)
          → (a.id == id) ≡ b
          → or_else (if b then some r.id else none) (rest id)
            ≡ (if b || any (has_id id) agents then default_of default_role roles id else none)
      first id true k = named id k
      first id false k = refl

      mine :
          (b c : Bool)
          → (a.id == me) ≡ b
          → (if c then default_of default_role roles me else if b then some r.id else s.own_role)
            ≡ (if b || c then default_of default_role roles me else s.own_role)
      mine true true k = refl
      mine true false k = named me k
      mine false c k = refl

  assign_roles-Assigned :
      (agents : List Agent) (s : RoleAssignment)
      → All (λ a. any (has_name (default_role a.id)) roles ≡ true) agents
      → (s' : RoleAssignment) × (assign_roles default_role roles me may_send agents s ≡ some s')
        × Assigned agents s s'
  unfolding assign_roles
  assign_roles-Assigned [] s h = (
    s,
    refl,
    record { mapping = λ id. sym (or_else-none (role_in id s.robot_role_mapping)); own = refl },
  )
  assign_roles-Assigned (a ∷ agents) s h =
      let (r, e) = found (has_name (default_role a.id)) roles h.0 in
      let (s', eq, done) = assign_roles-Assigned agents (given a.id r.id s) h.1 in
      (
        s',
        ap
              (λ (o : Option Role). elim o [
                | none ↦ none
                | some x ↦ assign_roles default_role roles me may_send agents (given a.id x.id s)
              ])
              e
            ∙ eq,
        assign_step a agents r s s' e done,
      )

-- If the default role of every active agent is the name of a role, the roles can be calculated, and then
-- exactly the active agents have a role, which is the first with the name of their default role. This
-- agent's own role is that one too, if it is active, and else the one that it had.
pub calculate_roles-default :
    (default_role : ℕ → ℕ) (roles : List Role) (me : ℕ) (may_send : Bool) (tm : TeamManager)
    (s : RoleAssignment)
    → All (λ a. any (has_name (default_role a.id)) roles ≡ true) (active_agents tm)
    → (s' : RoleAssignment) × (calculate_roles default_role roles me may_send tm s ≡ some s')
      × ((id : ℕ)
          → role_in id s'.robot_role_mapping ≡ (
              if any (has_id id) (active_agents tm)
              then default_of default_role roles id
              else none))
      × (s'.own_role ≡ (
          if any (has_id me) (active_agents tm)
          then default_of default_role roles me
          else s.own_role))
unfolding calculate_roles
calculate_roles-default default_role roles me may_send tm s h =
    let (s', eq, done) =
      assign_roles-Assigned default_role roles me may_send (active_agents tm)
        (record s { robot_role_mapping = [] }) h in
    (s', eq, done.mapping, done.own)
