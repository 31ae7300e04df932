-- ===== src/TeamObserver/Active.antt =====
-- TeamObserver.cpp, updateTeamPlanTrees: which plan trees are held, by the activity of their agents.
use alica_engine.Common.{
  ℕ, ◌+◌, ◌≡◌, refl, ap, ◌∙◌, Bool, true, false, ◌&&◌, not, List, [], ◌∷◌, ◌++◌, Option, none, some,
  All, any, find_if, keep, if◌then◌else◌, ◌==◌, arith, ltb, All-every, All-keep, All-imp, All-both,
  All-append, keep-All,
}
use alica_engine.Common.Int.{ℤ}
use alica_engine.Model.{State, EntryPoint}
use alica_engine.TeamManager.{
  Agent, TeamManager, has_id, edit_agent, new_agent, set_time_last_msg_received, set_success_marks,
  is_agent_active,
}
use alica_engine.TeamManager
use alica_engine.TeamObserver.{
  AgentTree, Queued, Received, TeamObserver, of_agent, store_tree, take_tree, take_messages,
  update_agents, update_team_plan_trees, spt_from_message,
}
use alica_engine.TeamObserver.Agents.{
  Sound, Fresh, live, holds_at, Held, HeldBy, live-Sound, edit_agent-holds, edit_agent-makes,
  edit_agent-All, append-holds, append-makes,
}

-- Sound agents, and plan trees of agents that are live.
record Ready (now : ℕ) (time_out : ℕ) (o : TeamObserver) : Type 0 where
  time_out_set : o.team.team_time_out ≡ time_out
  sound : All (Sound time_out) o.team.agents
  trees_live : HeldBy (live now) o.team.agents o.simple_plan_trees

new_agent-Sound : (T id time : ℕ) → Sound T (new_agent T id time)
new_agent-Sound T id time = ((λ h. absurd (cc)), refl)

-- What the receipt of a message does to the agents.
record Refreshed (now time_out id : ℕ) (tm tm' : TeamManager) : Type 0 where
  time_out_kept : tm'.team_time_out ≡ tm.team_time_out
  still_sound : All (Sound time_out) tm'.agents
  live_kept :
      (id' : ℕ)
      → holds_at (live now) (find_if (has_id id') tm.agents) ≡ true
      → holds_at (live now) (find_if (has_id id') tm'.agents) ≡ true
  sender_live : holds_at (live now) (find_if (has_id id) tm'.agents) ≡ true

set_time-Refreshed :
    (now T id time : ℕ) (tm : TeamManager)
    → tm.team_time_out ≡ T
    → All (Sound T) tm.agents
    → ltb now (time + T) ≡ true
    → Refreshed now T id tm (set_time_last_msg_received id time tm)
unfolding set_time_last_msg_received
set_time-Refreshed now T id time tm e s fresh = pick (any (has_id id) tm.agents) refl
  where
    made_live : live now (new_agent tm.team_time_out id time) ≡ true
    made_live = ap (λ k. ltb now (time + k)) e ∙ fresh

    pick :
        (b : Bool)
        → any (has_id id) tm.agents ≡ b
        → Refreshed now T id tm (
            if b
            then record tm {
              agents = edit_agent id (λ a. record a { time_last_msg_received = time }) tm.agents;
            }
            else record tm { agents = tm.agents ++ new_agent tm.team_time_out id time ∷ [] })
    pick true k = record {
      time_out_kept = refl;
      still_sound = edit_agent-All (live now) (Sound T) _ (λ a. refl) (λ a h. h) id tm.agents s;
      live_kept = λ id' h.
          edit_agent-holds (live now) (Sound T) _ (λ a. refl)
            (λ a h _. live-Sound now T time a h fresh) id id' tm.agents s h;
      sender_live =
          edit_agent-makes (live now) (Sound T) _ (λ a. refl)
            (λ a h. live-Sound now T time a h fresh) id tm.agents s k;
    }
    pick false k = record {
      time_out_kept = refl;
      still_sound = All-append (Sound T) tm.agents _ s (((λ h. absurd (cc)), e), tt);
      live_kept =
          λ id' h. append-holds (live now) (new_agent tm.team_time_out id time) id' tm.agents h;
      sender_live =
          append-makes (live now) (new_agent tm.team_time_out id time) made_live tm.agents k;
    }

store_tree-All :
    (P : AgentTree → Type 0) (t : AgentTree)
    → P t
    → (trees : List AgentTree) → All P trees
    → All P (store_tree t trees)
unfolding store_tree
store_tree-All P t h [] k = (h, tt)
store_tree-All P t h (x ∷ trees) k = pick (of_agent t.agent x) (store_tree-All P t h trees k.1)
  where
    pick :
        (b : Bool)
        → All P (store_tree t trees)
        → All P (if b then t ∷ trees else x ∷ store_tree t trees)
    pick true r = (h, k.1)
    pick false r = (k.0, r)

-- The successes of an agent have no part in whether it is live.
marks-Refreshed :
    (find_ep : ℕ → Option EntryPoint) (now T id : ℕ) (eps : List ℕ) (tm tm' : TeamManager)
    → Refreshed now T id tm tm'
    → Refreshed now T id tm (set_success_marks find_ep id eps tm').0
unfolding set_success_marks
marks-Refreshed find_ep now T id eps tm tm' r = record {
  time_out_kept = r.time_out_kept;
  still_sound =
      edit_agent-All (live now) (Sound T) _ (λ a. refl) (λ a h. h) id tm'.agents r.still_sound;
  live_kept = λ id' h.
      edit_agent-holds (live now) (Sound T) _ (λ a. refl) (λ a _ k. k) id id' tm'.agents
        r.still_sound (r.live_kept id' h);
  sender_live =
      edit_agent-holds (live now) (Sound T) _ (λ a. refl) (λ a _ k. k) id id tm'.agents
        r.still_sound r.sender_live;
}

module _ (find_state : ℤ → Option State) (find_ep : ℕ → Option EntryPoint) (now T : ℕ) where
  take_tree-Ready :
      (q : Queued) (r : Received) (o : TeamObserver)
      → Fresh now T q
      → Ready now T o
      → Ready now T (take_tree find_state find_ep q r o)
  unfolding take_tree
  take_tree-Ready q (Received.tree nodes) o f h =
      let id = q.info.sender_id in
      let first = set_time-Refreshed now T id q.time o.team h.time_out_set h.sound f in
      let all =
        marks-Refreshed find_ep now T id q.info.succeeded_eps o.team
          (set_time_last_msg_received id q.time o.team) first in
      let tm =
        (set_success_marks find_ep id q.info.succeeded_eps
          (set_time_last_msg_received id q.time o.team)).0 in
      record {
        time_out_set = all.time_out_kept ∙ h.time_out_set;
        sound = all.still_sound;
        trees_live =
            store_tree-All (Held (live now) tm.agents) _ all.sender_live o.simple_plan_trees (
              All-imp (Held (live now) o.team.agents) (Held (live now) tm.agents)
                (λ t k. all.live_kept t.agent k) o.simple_plan_trees h.trees_live);
      }
  take_tree-Ready q Received.rejected o f h = h
  take_tree-Ready q Received.undefined o f h = h

  take_messages-Ready :
      (queue : List Queued) (o : TeamObserver)
      → All (Fresh now T) queue
      → Ready now T o
      → Ready now T (take_messages find_state find_ep queue o)
  unfolding take_messages
  take_messages-Ready [] o f h = h
  take_messages-Ready (q ∷ queue) o f h =
      take_messages-Ready queue
        (take_tree find_state find_ep q (spt_from_message find_state q.info.state_ids) o) f.1
        (take_tree-Ready q (spt_from_message find_state q.info.state_ids) o f.0 h)

-- The agents after an update, and those that have become inactive.
abbrev updated : ℕ → Agent → Agent
updated now a = (TeamManager.update now a).0

abbrev gone : ℕ → Agent → Bool
gone now a = (TeamManager.update now a).1 && not (updated now a).active

updated-id : (now : ℕ) (a : Agent) → (updated now a).id ≡ a.id
unfolding TeamManager.update
updated-id now a = ground arith

-- A live agent is active after the update, or it has just become inactive.
updated-active :
    (now : ℕ) (a : Agent) → live now a ≡ true → gone now a ≡ false → (updated now a).active ≡ true
unfolding TeamManager.update
updated-active now a h k = ground arith

abbrev gone_at : ℕ → Option Agent → Bool
gone_at now none = false
gone_at now (some a) = gone now a

-- The trees that are left when an agent has been updated.
abbrev left_trees : ℕ → Agent → List AgentTree → List AgentTree
left_trees now a trees =
    if gone now a then keep (λ t. not (of_agent (updated now a).id t)) trees else trees

update_agents-All :
    (P : AgentTree → Type 0) (now : ℕ) (agents : List Agent) (trees : List AgentTree)
    → All P trees
    → All P (update_agents now agents trees).1
unfolding update_agents
update_agents-All P now [] trees h = h
update_agents-All P now (a ∷ agents) trees h =
    update_agents-All P now agents (left_trees now a trees) (pick (gone now a))
  where
    pick :
        (b : Bool)
        → All P (if b then keep (λ t. not (of_agent (updated now a).id t)) trees else trees)
    pick true = All-keep P _ trees h
    pick false = h

-- A live agent that does not become inactive is active among the updated ones.
update_agents-active :
    (now id : ℕ) (agents : List Agent) (trees : List AgentTree)
    → holds_at (live now) (find_if (has_id id) agents) ≡ true
    → gone_at now (find_if (has_id id) agents) ≡ false
    → holds_at (λ a. a.active) (find_if (has_id id) (update_agents now agents trees).0) ≡ true
unfolding update_agents
update_agents-active now id [] trees h k = absurd (cc)
update_agents-active now id (a ∷ agents) trees h k =
    pick (has_id id a) h k (ap (λ n. n == id) (updated-id now a))
      (update_agents-active now id agents (left_trees now a trees))
  where
    rest : List Agent
    rest = (update_agents now agents (left_trees now a trees)).0

    pick :
        (b : Bool)
        → holds_at (live now) (if b then some a else find_if (has_id id) agents) ≡ true
        → gone_at now (if b then some a else find_if (has_id id) agents) ≡ false
        → has_id id (updated now a) ≡ b
        → (holds_at (live now) (find_if (has_id id) agents) ≡ true
            → gone_at now (find_if (has_id id) agents) ≡ false
            → holds_at (λ x. x.active) (find_if (has_id id) rest) ≡ true)
        → holds_at
            (λ x. x.active)
            (if has_id id (updated now a) then some (updated now a) else find_if (has_id id) rest)
          ≡ true
    pick true h k e r =
        ap
          (λ c.
            holds_at (λ x. x.active) (if c then some (updated now a) else find_if (has_id id) rest))
          e
        ∙ updated-active now a h k
    pick false h k e r =
        ap
          (λ c.
            holds_at (λ x. x.active) (if c then some (updated now a) else find_if (has_id id) rest))
          e
        ∙ r h k

-- The trees that are left are not those of an agent that has become inactive.
update_agents-gone :
    (now : ℕ) (agents : List Agent) (trees : List AgentTree)
    → All
        (λ t. gone_at now (find_if (has_id t.agent) agents) ≡ false)
        (update_agents now agents trees).1
unfolding update_agents
update_agents-gone now [] trees = All-every (λ (t : AgentTree). false ≡ false) (λ t. refl) trees
update_agents-gone now (a ∷ agents) trees =
    All-imp (λ t. Stays t × gone_at now (find_if (has_id t.agent) agents) ≡ false)
      (λ t. gone_at now (find_if (has_id t.agent) (a ∷ agents)) ≡ false)
      (λ t h. join (has_id t.agent a) t h.1 h.0) out
      (All-both Stays (λ t. gone_at now (find_if (has_id t.agent) agents) ≡ false) out
        (update_agents-All Stays now agents (left_trees now a trees) (pick (gone now a) refl))
        (update_agents-gone now agents (left_trees now a trees)))
  where
    out : List AgentTree
    out = (update_agents now agents (left_trees now a trees)).1

    -- The trees of the first agent stay only if it is not gone.
    Stays : AgentTree → Type 0
    Stays t = has_id t.agent a ≡ true → gone now a ≡ false

    join :
        (b : Bool) (t : AgentTree)
        → gone_at now (find_if (has_id t.agent) agents) ≡ false
        → (b ≡ true → gone now a ≡ false)
        → gone_at now (if b then some a else find_if (has_id t.agent) agents) ≡ false
    join true t h k = k refl
    join false t h k = h

    other : (t : AgentTree) → not (of_agent (updated now a).id t) ≡ true → Stays t
    other t h k = absurd (ground (arith, updated-id now a))

    pick :
        (b : Bool)
        → gone now a ≡ b
        → All Stays (if b then keep (λ t. not (of_agent (updated now a).id t)) trees else trees)
    pick true e =
        All-imp (λ (t : AgentTree). not (of_agent (updated now a).id t) ≡ true) Stays other _
          (keep-All (λ t. not (of_agent (updated now a).id t)) trees)
    pick false e = All-every Stays (λ t k. e) trees

-- An update of the team's plan trees at the time `now` leaves only plan trees of active agents, whatever
-- messages are in the queue, if each of them has arrived less than the team's time out ago. Before it,
-- every plan tree is one of an active agent, local agents are active, and every agent has the team's
-- time out.
pub update_team_plan_trees-active :
    (find_state : ℤ → Option State) (find_ep : ℕ → Option EntryPoint) (now : ℕ) (o : TeamObserver)
    → All (Fresh now o.team.team_time_out) o.msg_queue
    → All (Sound o.team.team_time_out) o.team.agents
    → All (λ t. is_agent_active t.agent o.team ≡ true) o.simple_plan_trees
    → let o' = (update_team_plan_trees find_state find_ep now o).0 in
      All (λ t. is_agent_active t.agent o'.team ≡ true) o'.simple_plan_trees
unfolding update_team_plan_trees is_agent_active
update_team_plan_trees-active find_state find_ep now o fresh sound active =
    All-imp
      (λ t.
        Held (live now) taken.team.agents t
        × gone_at now (find_if (has_id t.agent) taken.team.agents) ≡ false)
      (λ t. is_agent_active t.agent (update_team_plan_trees find_state find_ep now o).0.team ≡ true)
      (λ t h. update_agents-active now t.agent taken.team.agents taken.simple_plan_trees h.0 h.1)
      out
      (All-both (Held (live now) taken.team.agents)
        (λ t. gone_at now (find_if (has_id t.agent) taken.team.agents) ≡ false) out
        (update_agents-All (Held (live now) taken.team.agents) now taken.team.agents
          taken.simple_plan_trees ready.trees_live)
        (update_agents-gone now taken.team.agents taken.simple_plan_trees))
  where
    taken : TeamObserver
    taken = take_messages find_state find_ep o.msg_queue o

    out : List AgentTree
    out = (update_agents now taken.team.agents taken.simple_plan_trees).1

    active_live :
        (a : Option Agent) → holds_at (λ x. x.active) a ≡ true → holds_at (live now) a ≡ true
    active_live none h = h
    active_live (some a) h = ground arith

    ready : Ready now o.team.team_time_out taken
    ready =
        take_messages-Ready find_state find_ep now o.team.team_time_out o.msg_queue o fresh
          (record {
            time_out_set = refl;
            sound = sound;
            trees_live =
                All-imp (λ t. is_agent_active t.agent o.team ≡ true) (Held (live now) o.team.agents)
                  (λ t h. active_live (find_if (has_id t.agent) o.team.agents) h)
                  o.simple_plan_trees active;
          })
