-- ===== src/TeamObserver/Agents.antt =====
-- teammanager/Agent.cpp: how changes of single agents leave a property of the agents that hold plan trees.
use alica_engine.Common.{
  ℕ, ◌+◌, ◌≡◌, refl, ap, ◌∙◌, Bool, true, false, ◌&&◌, ◌||◌, not, List, [], ◌∷◌, ◌++◌, Option, none,
  some, All, any, find_if, if◌then◌else◌, ◌==◌, ltb, ==-refl,
}
use alica_engine.TeamManager.{Agent, has_id, edit_agent}
use alica_engine.TeamObserver.{AgentTree, Queued}

-- An agent of the team: a local one is active, and it has the team's time out.
abbrev pub Sound : ℕ → Agent → Type 0
Sound time_out a = (a.local ≡ true → a.active ≡ true) × a.time_out ≡ time_out

-- A message that has arrived less than the time out ago.
abbrev pub Fresh : ℕ → ℕ → Queued → Type 0
Fresh now time_out q = ltb now (q.time + time_out) ≡ true

-- An agent that is active, or becomes so with the next update.
abbrev pub live : ℕ → Agent → Bool
live now a = a.active || (not a.local && ltb now (a.time_last_msg_received + a.time_out))

abbrev pub holds_at : (Agent → Bool) → Option Agent → Bool
holds_at p none = false
holds_at p (some a) = p a

abbrev pub Held : (Agent → Bool) → List Agent → AgentTree → Type 0
Held p agents t = holds_at p (find_if (has_id t.agent) agents) ≡ true

-- The trees that are held are those of agents with the property.
abbrev pub HeldBy : (Agent → Bool) → List Agent → List AgentTree → Type 0
HeldBy p agents trees = All (Held p agents) trees

pub live-Sound :
    (now time_out time : ℕ) (a : Agent)
    → Sound time_out a
    → ltb now (time + time_out) ≡ true
    → live now (record a { time_last_msg_received = time }) ≡ true
live-Sound now time_out time a s h =
    pick a.local a.active s.0 (ap (λ k. ltb now (time + k)) s.1 ∙ h)
  where
    pick :
        (l b : Bool)
        → (l ≡ true → b ≡ true)
        → ltb now (time + a.time_out) ≡ true
        → (b || (not l && ltb now (time + a.time_out))) ≡ true
    pick true b k e = ap (λ x. x || false) (k refl)
    pick false true k e = refl
    pick false false k e = e

-- A change of an agent that leaves its id as it is.
module _ (p : Agent → Bool) (S : Agent → Type 0) (f : Agent → Agent)
    (same : (a : Agent) → (f a).id ≡ a.id) where
  has_id-change : (id : ℕ) (a : Agent) → has_id id (f a) ≡ has_id id a
  has_id-change id a = ap (λ n. n == id) (same a)

  -- The agent that is changed keeps the property.
  pub edit_agent-holds :
      ((a : Agent) → S a → p a ≡ true → p (f a) ≡ true)
      → (id id' : ℕ) (agents : List Agent) → All S agents
      → holds_at p (find_if (has_id id') agents) ≡ true
      → holds_at p (find_if (has_id id') (edit_agent id f agents)) ≡ true
  unfolding edit_agent
  edit_agent-holds k id id' [] s h = h
  edit_agent-holds k id id' (a ∷ agents) s h =
      pick (has_id id a) (has_id id' a) (has_id-change id' a) refl h
        (edit_agent-holds k id id' agents s.1)
    where
      pick :
          (b c : Bool)
          → has_id id' (f a) ≡ c
          → has_id id' a ≡ c
          → holds_at p (if c then some a else find_if (has_id id') agents) ≡ true
          → (holds_at p (find_if (has_id id') agents) ≡ true
              → holds_at p (find_if (has_id id') (edit_agent id f agents)) ≡ true)
          → holds_at p
              (find_if (has_id id') (if b then f a ∷ agents else a ∷ edit_agent id f agents))
            ≡ true
      pick true true e1 e2 h r =
          ap (λ x. holds_at p (if x then some (f a) else find_if (has_id id') agents)) e1
          ∙ k a s.0 h
      pick true false e1 e2 h r =
          ap (λ x. holds_at p (if x then some (f a) else find_if (has_id id') agents)) e1 ∙ h
      pick false true e1 e2 h r =
          ap (λ x. holds_at p (if x then some a else find_if (has_id id') (edit_agent id f agents)))
            e2
          ∙ h
      pick false false e1 e2 h r =
          ap (λ x. holds_at p (if x then some a else find_if (has_id id') (edit_agent id f agents)))
            e2
          ∙ r h

  -- The agent that is changed gets the property.
  pub edit_agent-makes :
      ((a : Agent) → S a → p (f a) ≡ true)
      → (id : ℕ) (agents : List Agent) → All S agents
      → any (has_id id) agents ≡ true
      → holds_at p (find_if (has_id id) (edit_agent id f agents)) ≡ true
  unfolding edit_agent
  edit_agent-makes k id [] s h = absurd (cc)
  edit_agent-makes k id (a ∷ agents) s h =
      pick (has_id id a) (has_id-change id a) refl h (edit_agent-makes k id agents s.1)
    where
      pick :
          (b : Bool)
          → has_id id (f a) ≡ b
          → has_id id a ≡ b
          → (b || any (has_id id) agents) ≡ true
          → (any (has_id id) agents ≡ true
              → holds_at p (find_if (has_id id) (edit_agent id f agents)) ≡ true)
          → holds_at p
              (find_if (has_id id) (if b then f a ∷ agents else a ∷ edit_agent id f agents))
            ≡ true
      pick true e1 e2 h r =
          ap (λ x. holds_at p (if x then some (f a) else find_if (has_id id) agents)) e1 ∙ k a s.0
      pick false e1 e2 h r =
          ap (λ x. holds_at p (if x then some a else find_if (has_id id) (edit_agent id f agents)))
            e2
          ∙ r h

  pub edit_agent-All :
      ((a : Agent) → S a → S (f a))
      → (id : ℕ) (agents : List Agent) → All S agents
      → All S (edit_agent id f agents)
  unfolding edit_agent
  edit_agent-All k id [] s = tt
  edit_agent-All k id (a ∷ agents) s = pick (has_id id a) (edit_agent-All k id agents s.1)
    where
      pick :
          (b : Bool)
          → All S (edit_agent id f agents)
          → All S (if b then f a ∷ agents else a ∷ edit_agent id f agents)
      pick true r = (k a s.0, s.1)
      pick false r = (s.0, r)

module _ (p : Agent → Bool) (x : Agent) where
  pub append-holds :
      (id : ℕ) (agents : List Agent)
      → holds_at p (find_if (has_id id) agents) ≡ true
      → holds_at p (find_if (has_id id) (agents ++ x ∷ [])) ≡ true
  append-holds id [] h = absurd (cc)
  append-holds id (a ∷ agents) h = pick (has_id id a) h (append-holds id agents)
    where
      pick :
          (b : Bool)
          → holds_at p (if b then some a else find_if (has_id id) agents) ≡ true
          → (holds_at p (find_if (has_id id) agents) ≡ true
              → holds_at p (find_if (has_id id) (agents ++ x ∷ [])) ≡ true)
          → holds_at p (if b then some a else find_if (has_id id) (agents ++ x ∷ [])) ≡ true
      pick true h r = h
      pick false h r = r h

  pub append-makes :
      p x ≡ true
      → (agents : List Agent) → any (has_id x.id) agents ≡ false
      → holds_at p (find_if (has_id x.id) (agents ++ x ∷ [])) ≡ true
  append-makes k [] h = ap (λ b. holds_at p (if b then some x else none)) (==-refl x.id) ∙ k
  append-makes k (a ∷ agents) h = pick (has_id x.id a) h (append-makes k agents)
    where
      pick :
          (b : Bool)
          → (b || any (has_id x.id) agents) ≡ false
          → (any (has_id x.id) agents ≡ false
              → holds_at p (find_if (has_id x.id) (agents ++ x ∷ [])) ≡ true)
          → holds_at p (if b then some a else find_if (has_id x.id) (agents ++ x ∷ [])) ≡ true
      pick true h r = absurd (cc)
      pick false h r = r h
