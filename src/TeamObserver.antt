-- ===== src/TeamObserver.antt =====
-- TeamObserver.cpp and SimplePlanTree.cpp: what an agent knows of the plans that the others execute. The
-- nodes of a plan tree stand in a list, in the order in which they are made, and a pointer is an index;
-- the children of a node are those whose parent it is, in this order.
pub mod Roundtrip
pub mod Agents
pub mod Active
pub mod Marks
pub mod Inhabited
pub mod Successes
mod Tests
use alica_engine.Common.{
  ℕ, zero, suc, ◌+◌, Bool, true, false, List, [], ◌∷◌, ◌++◌, Option, none, some, length, get_elem?,
  any, keep, not, ◌&&◌, ◌||◌, if◌then◌else◌, ◌==◌,
}
use alica_engine.Common.Int.{ℤ, pos, negsuc}
use alica_engine.Model.{State, EntryPoint, Plan}
use alica_engine.Collections.SuccessMarks.{SuccessMarks, succeeded_entry_points, remove_plan}
use alica_engine.Collections.SuccessCollection.{SuccessCollection, set_success}
use alica_engine.Collections.SuccessCollection
use alica_engine.TeamManager.{
  Agent, TeamManager, edit_agent, set_time_last_msg_received, is_agent_ignored, set_success_marks,
  active_agents,
}
use alica_engine.TeamManager

-- The state of a node also gives its entry point. The sender and the time of receipt, which every node of
-- a tree shares, are left out.
pub record SimplePlanTree : Type 0 where
  pub state : State
  pub parent : Option ℕ

-- A tree, a null pointer, or the use of a null pointer, which is undefined behaviour.
pub data Received : Type 0 where
  tree : List SimplePlanTree → Received
  rejected : Received
  undefined : Received

abbrev parent_of : ℕ → List SimplePlanTree → Option ℕ
parent_of i nodes = elim (get_elem? nodes i) [ none ↦ none | some n ↦ n.parent ]

module _ (find_state : ℤ → Option State) where
  -- The loop over the ids. A node without a parent to hang on is undefined behaviour, and an unknown
  -- state is refused.
  unfoldable pub read_ids : List ℤ → List SimplePlanTree → Option ℕ → Option ℕ → Received
  read_ids [] nodes cur cur_parent = tree nodes
  read_ids (negsuc zero ∷ ids) nodes cur cur_parent = read_ids ids nodes none cur
  read_ids (negsuc (suc zero) ∷ ids) nodes cur none = rejected
  read_ids (negsuc (suc zero) ∷ ids) nodes cur (some q) =
      read_ids ids nodes (some q) (parent_of q nodes)
  read_ids (negsuc (suc (suc n)) ∷ ids) nodes cur none = undefined
  read_ids (negsuc (suc (suc n)) ∷ ids) nodes cur (some q) = elim (find_state (negsuc (n + 2))) [
    | none ↦ rejected
    | some s ↦
        read_ids ids (nodes ++ record { state = s; parent = some q } ∷ []) (some (length nodes))
          (some q)
  ]
  read_ids (pos n ∷ ids) nodes cur none = undefined
  read_ids (pos n ∷ ids) nodes cur (some q) = elim (find_state (pos n)) [
    | none ↦ rejected
    | some s ↦
        read_ids ids (nodes ++ record { state = s; parent = some q } ∷ []) (some (length nodes))
          (some q)
  ]

  unfoldable pub spt_from_message : List ℤ → Received
  unfolding read_ids
  spt_from_message [] = rejected
  spt_from_message (id ∷ ids) = elim (find_state id) [
    | none ↦ rejected
    | some s ↦ read_ids ids (record { state = s; parent = none } ∷ []) (some 0) none
  ]

-- A message: the sender, its states, and the entry points it has finished.
pub record PlanTreeInfo : Type 0 where
  pub sender_id : ℕ
  pub state_ids : List ℤ
  pub succeeded_eps : List ℕ

-- A message in the queue, with the time of its receipt.
pub record Queued : Type 0 where
  pub info : PlanTreeInfo
  pub time : ℕ

-- An entry of `_simplePlanTrees`.
pub record AgentTree : Type 0 where
  pub agent : ℕ
  pub nodes : List SimplePlanTree
  pub is_new : Bool

pub record TeamObserver : Type 0 where
  pub team : TeamManager
  pub msg_queue : List Queued
  pub simple_plan_trees : List AgentTree

unfoldable pub handle_plan_tree_info : ℕ → PlanTreeInfo → TeamObserver → TeamObserver
unfolding is_agent_ignored
handle_plan_tree_info now incoming o =
    if not (incoming.sender_id == o.team.local_agent)
    then if is_agent_ignored incoming.sender_id o.team
      then o
      else record o { msg_queue = o.msg_queue ++ record { info = incoming; time = now } ∷ [] }
    else o

abbrev pub of_agent : ℕ → AgentTree → Bool
of_agent id t = t.agent == id

-- `_simplePlanTrees[id] = spt`.
unfoldable pub store_tree : AgentTree → List AgentTree → List AgentTree
store_tree t [] = t ∷ []
store_tree t (x ∷ xs) = if of_agent t.agent x then t ∷ xs else x ∷ store_tree t xs

-- The loop that updates the agents at the time `now`, drops the trees of those that have become inactive, and tells
-- whether any agent changed.
unfoldable pub update_agents : ℕ → List Agent → List AgentTree → List Agent × List AgentTree × Bool
unfolding TeamManager.update
update_agents now [] trees = ([], trees, false)
update_agents now (a ∷ agents) trees =
    let (a', changed) = TeamManager.update now a in
    let gone = changed && not a'.active in
    let (agents', trees', some_changed) =
      update_agents now agents (if gone then keep (λ t. not (of_agent a'.id t)) trees else trees) in
    (a' ∷ agents', trees', changed || some_changed)

module _ (find_state : ℤ → Option State) (find_ep : ℕ → Option EntryPoint) where
  -- What a message from the queue leads to, by the tree that was read from it.
  unfoldable pub take_tree : Queued → Received → TeamObserver → TeamObserver
  unfolding store_tree set_time_last_msg_received set_success_marks
  take_tree q (tree nodes) o = record o {
    team =
        (set_success_marks find_ep q.info.sender_id q.info.succeeded_eps
          (set_time_last_msg_received q.info.sender_id q.time o.team)).0;
    simple_plan_trees =
        store_tree (record { agent = q.info.sender_id; nodes = nodes; is_new = true })
          o.simple_plan_trees;
  }
  take_tree q rejected o = o
  take_tree q undefined o = o

  unfoldable pub take_messages : List Queued → TeamObserver → TeamObserver
  unfolding take_tree spt_from_message
  take_messages [] o = o
  take_messages (q ∷ queue) o =
      take_messages queue (take_tree q (spt_from_message find_state q.info.state_ids) o)

  unfoldable pub update_team_plan_trees : ℕ → TeamObserver → TeamObserver × Bool
  unfolding take_messages update_agents
  update_team_plan_trees now o =
      let o' = take_messages o.msg_queue o in
      let (agents', trees', changed) = update_agents now o'.team.agents o'.simple_plan_trees in
      (
        record o' {
          team = record o'.team { agents = agents' };
          msg_queue = [];
          simple_plan_trees = trees';
        },
        changed,
      )

-- The successes of an agent in a plan.
unfoldable pub marks_of : ℕ → SuccessMarks → List EntryPoint
unfolding succeeded_entry_points
marks_of plan m = elim (succeeded_entry_points plan m) [ none ↦ [] | some eps ↦ eps ]

abbrev pub own_marks : TeamManager → SuccessMarks
own_marks tm = elim (TeamManager.find tm.local_agent tm.agents) [
  | none ↦ []
  | some a ↦ a.success_marks
]

unfoldable pub count_successes : ℕ → List Agent → ℕ
unfolding marks_of
count_successes plan [] = 0
count_successes plan (a ∷ agents) =
    length (marks_of plan a.success_marks) + count_successes plan agents

unfoldable pub successes_in_plan : ℕ → TeamManager → ℕ
unfolding count_successes marks_of active_agents
successes_in_plan plan tm =
    count_successes plan (active_agents tm) + length (marks_of plan (own_marks tm))

abbrev pub set_each : ℕ → List EntryPoint → SuccessCollection → SuccessCollection
set_each agent [] sc = sc
set_each agent (ep ∷ eps) sc = set_each agent eps (set_success agent ep sc)

-- The loop over the active agents other than the own one.
unfoldable pub set_others : ℕ → ℕ → List Agent → SuccessCollection → SuccessCollection
unfolding marks_of set_success
set_others me plan [] sc = sc
set_others me plan (a ∷ agents) sc =
    set_others me plan agents
      (if a.id == me then sc else set_each a.id (marks_of plan a.success_marks) sc)

unfoldable pub create_success_collection : Plan → TeamManager → SuccessCollection
unfolding set_others marks_of active_agents SuccessCollection.for_plan
create_success_collection p tm =
    set_each tm.local_agent (marks_of p.id (own_marks tm))
      (set_others tm.local_agent p.id (active_agents tm) (SuccessCollection.for_plan p))

unfoldable pub update_success_collection :
    Plan → TeamManager → SuccessCollection → SuccessCollection
unfolding set_others marks_of active_agents SuccessCollection.clear
update_success_collection p tm sc =
    set_each tm.local_agent (marks_of p.id (own_marks tm))
      (set_others tm.local_agent p.id (active_agents tm) (SuccessCollection.clear sc))

-- `containsPlan`, by the plan of each node's entry point.
unfoldable pub contains_plan : (State → ℕ) → ℕ → List SimplePlanTree → Bool
contains_plan plan_of plan nodes = any (λ n. plan_of n.state == plan) nodes

unfoldable pub notify_robot_left_plan : (State → ℕ) → ℕ → TeamObserver → TeamObserver
unfolding contains_plan edit_agent remove_plan
notify_robot_left_plan plan_of plan o =
    if any (λ t. contains_plan plan_of plan t.nodes) o.simple_plan_trees then o else record o {
      team = record o.team {
        agents =
            edit_agent o.team.local_agent
              (λ a. record a { success_marks = remove_plan plan a.success_marks }) o.team.agents;
      };
    }
