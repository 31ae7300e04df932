-- ===== src/AuthorityManager/Heard.antt =====
-- AuthorityManager::handleIncomingAuthorityMessage: of whom the team manager hears.
use mathlib.Core.Path.{subst}
use alica_engine.Common.{
  ℕ, ◌≡◌, refl, sym, ap, ◌∙◌, eq_of_==, Bool, true, false, ◌||◌, not, List, [], ◌∷◌, ◌++◌, Option,
  none, some, any, All, All-every, find_if, if◌then◌else◌, ◌==◌, ==-refl,
}
use alica_engine.Authority.CycleManager.{EntryPointRobots, AllocationAuthorityInfo}
use alica_engine.TeamManager.{
  Agent, TeamManager, has_id, new_agent, edit_agent, set_time_last_msg_received, is_agent_ignored,
}
use alica_engine.TeamObserver.Agents.{
  holds_at, edit_agent-holds, edit_agent-makes, append-holds, append-makes,
}
use alica_engine.AuthorityManager.{
  hear_robots, hear_entries, hear_message, handle_incoming_authority_message,
}

-- An agent of whom something has been heard at the time.
abbrev pub heard_at : ℕ → Agent → Bool
heard_at now a = a.time_last_msg_received == now

abbrev pub heard : ℕ → ℕ → TeamManager → Bool
heard now id tm = holds_at (heard_at now) (find_if (has_id id) tm.agents)

-- Hearing of some agents forgets of none, and leaves it open who this agent is.
record Hears (now : ℕ) (tm tm' : TeamManager) : Type 0 where
  me : tm'.local_agent ≡ tm.local_agent
  still : (id : ℕ) → heard now id tm ≡ true → heard now id tm' ≡ true

same-Hears : (now : ℕ) (tm : TeamManager) → Hears now tm tm
same-Hears now tm = record { me = refl; still = λ id h. h }

then-Hears :
    (now : ℕ) (tm tm1 tm2 : TeamManager) → Hears now tm tm1 → Hears now tm1 tm2 → Hears now tm tm2
then-Hears now tm tm1 tm2 h k = record {
  me = k.me ∙ h.me;
  still = λ id e. k.still id (h.still id e);
}

abbrev AnyAgent : Agent → Type 0
AnyAgent a = Unit

set_time-Hears :
    (now id : ℕ) (tm : TeamManager)
    → Hears now tm (set_time_last_msg_received id now tm)
      × (heard now id (set_time_last_msg_received id now tm) ≡ true)
unfolding set_time_last_msg_received
set_time-Hears now id tm = pick (any (has_id id) tm.agents) refl
  where
    all : All AnyAgent tm.agents
    all = All-every AnyAgent (λ a. tt) tm.agents

    pick :
        (b : Bool)
        → any (has_id id) tm.agents ≡ b
        → let tm' : TeamManager =
            if b
            then record tm {
              agents = edit_agent id (λ a. record a { time_last_msg_received = now }) tm.agents;
            }
            else record tm { agents = tm.agents ++ new_agent tm.team_time_out id now ∷ [] } in
          Hears now tm tm' × (heard now id tm' ≡ true)
    pick true e = (
      record {
        me = refl;
        still = λ id' h.
            edit_agent-holds (heard_at now) AnyAgent _ (λ a. refl) (λ a u k. ==-refl now) id id'
              tm.agents all h;
      },
      edit_agent-makes (heard_at now) AnyAgent _ (λ a. refl) (λ a u. ==-refl now) id tm.agents all
          e,
    )
    pick false e = (
      record {
        me = refl;
        still = λ id' h.
            append-holds (heard_at now) (new_agent tm.team_time_out id now) id' tm.agents h;
      },
      append-makes (heard_at now) (new_agent tm.team_time_out id now) (==-refl now) tm.agents e,
    )

abbrev step : ℕ → ℕ → TeamManager → TeamManager
step now rid tm = if not (rid == tm.local_agent) then set_time_last_msg_received rid now tm else tm

step-Hears :
    (now rid : ℕ) (tm : TeamManager)
    → Hears now tm (step now rid tm)
      × ((rid == tm.local_agent) ≡ false → heard now rid (step now rid tm) ≡ true)
step-Hears now rid tm = pick (rid == tm.local_agent)
  where
    pick :
        (b : Bool)
        → let tm' : TeamManager = if not b then set_time_last_msg_received rid now tm else tm in
          Hears now tm tm' × (b ≡ false → heard now rid tm' ≡ true)
    pick true = (same-Hears now tm, (λ e. absurd (cc)))
    pick false = ((set_time-Hears now rid tm).0, (λ e. (set_time-Hears now rid tm).1))

hear_robots-Hears :
    (now : ℕ) (robots : List ℕ) (tm : TeamManager) → Hears now tm (hear_robots now robots tm)
unfolding hear_robots
hear_robots-Hears now [] tm = same-Hears now tm
hear_robots-Hears now (r ∷ robots) tm =
    then-Hears now tm (step now r tm) (hear_robots now robots (step now r tm))
      (step-Hears now r tm).0 (hear_robots-Hears now robots (step now r tm))

hear_entries-Hears :
    (now : ℕ) (eprs : List EntryPointRobots) (tm : TeamManager)
    → Hears now tm (hear_entries now eprs tm)
unfolding hear_entries
hear_entries-Hears now [] tm = same-Hears now tm
hear_entries-Hears now (e ∷ eprs) tm =
    then-Hears now tm (hear_robots now e.robots tm)
      (hear_entries now eprs (hear_robots now e.robots tm)) (hear_robots-Hears now e.robots tm)
      (hear_entries-Hears now eprs (hear_robots now e.robots tm))

abbrev pub names : ℕ → EntryPointRobots → Bool
names id e = any (λ r. r == id) e.robots

hear_robots-heard :
    (now id : ℕ) (robots : List ℕ) (tm : TeamManager)
    → any (λ r. r == id) robots ≡ true
    → (id == tm.local_agent) ≡ false
    → heard now id (hear_robots now robots tm) ≡ true
unfolding hear_robots
hear_robots-heard now id [] tm h other = absurd (cc)
hear_robots-heard now id (r ∷ robots) tm h other = pick (r == id) refl h (λ k.
    hear_robots-heard now id robots tm' k (ap (λ x. id == x) (step-Hears now r tm).0.me ∙ other))
  where
    tm' : TeamManager
    tm' = step now r tm

    first : r ≡ id → heard now id tm' ≡ true
    first e =
        ap (λ k. heard now k tm') (sym e)
        ∙ (step-Hears now r tm).1 (ap (λ k. k == tm.local_agent) e ∙ other)

    pick :
        (b : Bool)
        → (r == id) ≡ b
        → (b || any (λ x. x == id) robots) ≡ true
        → (any (λ x. x == id) robots ≡ true → heard now id (hear_robots now robots tm') ≡ true)
        → heard now id (hear_robots now robots tm') ≡ true
    pick true e h rest = (hear_robots-Hears now robots tm').still id (first (eq_of_== r id e))
    pick false e h rest = rest h

hear_entries-heard :
    (now id : ℕ) (eprs : List EntryPointRobots) (tm : TeamManager)
    → any (names id) eprs ≡ true
    → (id == tm.local_agent) ≡ false
    → heard now id (hear_entries now eprs tm) ≡ true
unfolding hear_entries
hear_entries-heard now id [] tm h other = absurd (cc)
hear_entries-heard now id (e ∷ eprs) tm h other =
    pick (names id e) h (hear_robots-heard now id e.robots tm) (λ k.
      hear_entries-heard now id eprs tm' k
        (ap (λ x. id == x) (hear_robots-Hears now e.robots tm).me ∙ other))
  where
    tm' : TeamManager
    tm' = hear_robots now e.robots tm

    pick :
        (b : Bool)
        → (b || any (names id) eprs) ≡ true
        → (b ≡ true → (id == tm.local_agent) ≡ false → heard now id tm' ≡ true)
        → (any (names id) eprs ≡ true → heard now id (hear_entries now eprs tm') ≡ true)
        → heard now id (hear_entries now eprs tm') ≡ true
    pick true h first rest = (hear_entries-Hears now eprs tm').still id (first refl other)
    pick false h first rest = rest h

-- What is heard from a message of the agent `sender`.
abbrev Told : (ℕ → ℕ → Bool) → ℕ → ℕ → AllocationAuthorityInfo → TeamManager → TeamManager → Type 0
Told greater now sender aai tm tm' =
    (heard now sender tm' ≡ true)
    × (greater sender tm.local_agent ≡ true
        → (id : ℕ) → any (names id) aai.entry_point_robots ≡ true
        → (id == tm.local_agent) ≡ false
        → heard now id tm' ≡ true)

hear_message-Told :
    (greater : ℕ → ℕ → Bool) (now sender : ℕ) (aai : AllocationAuthorityInfo) (tm : TeamManager)
    → (sender == tm.local_agent) ≡ false
    → Told greater now sender aai tm (hear_message greater now sender aai tm)
unfolding hear_message
hear_message-Told greater now sender aai tm other =
    pick (sender == tm.local_agent) (greater sender tm.local_agent) other
  where
    tm1 : TeamManager
    tm1 = set_time_last_msg_received sender now tm

    tm2 : TeamManager
    tm2 = hear_entries now aai.entry_point_robots tm1

    first : Hears now tm tm1 × (heard now sender tm1 ≡ true)
    first = set_time-Hears now sender tm

    pick :
        (b g : Bool)
        → b ≡ false
        → let tm' : TeamManager = if not b then if g then tm2 else tm1 else tm in
          (heard now sender tm' ≡ true)
          × (g ≡ true
              → (id : ℕ) → any (names id) aai.entry_point_robots ≡ true
              → (id == tm.local_agent) ≡ false
              → heard now id tm' ≡ true)
    pick true g e = absurd (cc)
    pick false true e = (
      (hear_entries-Hears now aai.entry_point_robots tm1).still sender first.1,
      (λ u id h k.
          hear_entries-heard now id aai.entry_point_robots tm1 h
            (ap (λ x. id == x) first.0.me ∙ k)),
    )
    pick false false e = (first.1, (λ u. absurd (cc)))

-- A message of another agent that is not ignored and has a greater id than this one goes into the queue,
-- and its sender and every agent other than this one that it names count as heard of now.
pub handle_incoming_authority_message-heard :
    (greater : ℕ → ℕ → Bool) (now sender id : ℕ) (aai : AllocationAuthorityInfo) (tm : TeamManager)
    (queue : List AllocationAuthorityInfo)
    → aai.sender_id ≡ some sender
    → is_agent_ignored sender tm ≡ false
    → (sender == tm.local_agent) ≡ false
    → greater sender tm.local_agent ≡ true
    → any (names id) aai.entry_point_robots ≡ true
    → (id == tm.local_agent) ≡ false
    → let out = handle_incoming_authority_message greater now aai tm queue in
      (out.1 ≡ queue ++ aai ∷ []) × (heard now sender out.0 ≡ true) × (heard now id out.0 ≡ true)
unfolding handle_incoming_authority_message
handle_incoming_authority_message-heard greater now sender id aai tm queue from here other above
      named not_me =
    subst
      (λ out.
        (out.1 ≡ queue ++ aai ∷ []) × (heard now sender out.0 ≡ true) × (heard now id out.0 ≡ true))
      (sym taken) (refl, told.0, told.1 above id named not_me)
  where
    told : Told greater now sender aai tm (hear_message greater now sender aai tm)
    told = hear_message-Told greater now sender aai tm other

    queued : Bool → TeamManager × List AllocationAuthorityInfo
    queued b =
        if b then (tm, queue) else (hear_message greater now sender aai tm, queue ++ aai ∷ [])

    taken :
        handle_incoming_authority_message greater now aai tm queue
        ≡ (hear_message greater now sender aai tm, queue ++ aai ∷ [])
    taken =
        ap
          (λ (o : Option ℕ). elim o [
            | none ↦ (tm, queue)
            | some x ↦
                if is_agent_ignored x tm
                then (tm, queue)
                else (hear_message greater now x aai tm, queue ++ aai ∷ [])
          ])
          from
        ∙ ap queued here
