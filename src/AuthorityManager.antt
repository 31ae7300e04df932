-- ===== src/AuthorityManager.antt =====
-- allocationauthority/AuthorityManager.cpp: the messages about who has the authority over the allocation
-- of a plan. They wait in a queue until they are given to the running plans that they are about. The
-- interval of a plan, which its cycle manager changes, is a field of the plan there. The order of agent
-- ids and the factors of the interval are parameters.
pub mod Queue
pub mod Walk
pub mod Heard
mod Tests
use alica_engine.Common.{
  ℕ, zero, suc, ◌+◌, Bool, true, false, ◌&&◌, ◌||◌, not, List, [], ◌∷◌, ◌++◌, map, Option, none,
  some, length, get_elem?, remove_at, if◌then◌else◌, ◌==◌,
}
use alica_engine.Common.Int.{ℤ, pos, negsuc}
use alica_engine.Model.{EntryPoint, Plan}
use alica_engine.Assignment.{AssignmentData}
use alica_engine.Authority.CycleManager.{
  EntryPointRobots, AllocationAuthorityInfo, needs_sending, sent, handle_authority_info,
}
use alica_engine.TeamManager.{TeamManager, is_agent_ignored, set_time_last_msg_received}
use alica_engine.RunningPlan.{RunningPlan, World, is_retired, modify}

-- `id == n`, where the id of a message may be -1.
abbrev pub is_id : ℤ → ℕ → Bool
is_id (pos m) n = m == n
is_id (negsuc m) n = false

abbrev pub is_none : ℤ → Bool
is_none (pos m) = false
is_none (negsuc m) = m == 0

abbrev pub id_or_none : Option ℕ → ℤ
id_or_none none = negsuc 0
id_or_none (some n) = pos n

-- The loops over the robots of a message from an agent with a greater id.
unfoldable pub hear_robots : ℕ → List ℕ → TeamManager → TeamManager
unfolding set_time_last_msg_received
hear_robots now [] tm = tm
hear_robots now (rid ∷ robots) tm =
    hear_robots now robots
      (if not (rid == tm.local_agent) then set_time_last_msg_received rid now tm else tm)

unfoldable pub hear_entries : ℕ → List EntryPointRobots → TeamManager → TeamManager
unfolding hear_robots
hear_entries now [] tm = tm
hear_entries now (epr ∷ eprs) tm = hear_entries now eprs (hear_robots now epr.robots tm)

-- What a message from another agent tells of the team.
unfoldable pub hear_message :
    (ℕ → ℕ → Bool) → ℕ → ℕ → AllocationAuthorityInfo → TeamManager → TeamManager
unfolding set_time_last_msg_received hear_entries
hear_message greater now sender aai tm =
    if not (sender == tm.local_agent)
    then if greater sender tm.local_agent
      then hear_entries now aai.entry_point_robots (set_time_last_msg_received sender now tm)
      else set_time_last_msg_received sender now tm
    else tm

-- A message without a sender, which is undefined behaviour there, is dropped.
unfoldable pub handle_incoming_authority_message :
    (ℕ → ℕ → Bool)
    → ℕ
    → AllocationAuthorityInfo
    → TeamManager
    → List AllocationAuthorityInfo
    → TeamManager × List AllocationAuthorityInfo
unfolding hear_message is_agent_ignored
handle_incoming_authority_message greater now aai tm queue = elim aai.sender_id [
  | none ↦ (tm, queue)
  | some sender ↦
      if is_agent_ignored sender tm
      then (tm, queue)
      else (hear_message greater now sender aai tm, queue ++ aai ∷ [])
]

-- `same_context` is the condition on the parent, `same_plan` that on the plan and its type. A plan that
-- is not a behaviour has an active plan.
abbrev pub same_context : AllocationAuthorityInfo → Option ℕ → (ℕ → Option ℕ) → Bool
same_context aai none state_at = is_none aai.parent_state
same_context aai (some q) state_at = elim (state_at q) [
  | none ↦ false
  | some s ↦ is_id aai.parent_state s
]

abbrev pub is_opt_id : ℤ → Option ℕ → Bool
is_opt_id id none = false
is_opt_id id (some n) = is_id id n

unfoldable pub authority_matches_plan : AllocationAuthorityInfo → ℕ → World → Bool
authority_matches_plan aai p w =
    let r = w.plan_at p in
    not (is_retired r)
    && (same_context aai r.parent (λ q. (w.plan_at q).state)
        && (is_opt_id aai.plan_id r.plan
            || (not (is_none aai.plan_type) && is_opt_id aai.plan_type r.plan_type)))

-- The running plans with the queue, the intervals of the plans, and what has been sent.
pub record Delivery : Type 0 where
  pub world : World
  pub queue : List AllocationAuthorityInfo
  pub interval_of : ℕ → ℕ
  pub outbox : List AllocationAuthorityInfo

abbrev pub set_interval : Option ℕ → ℕ → (ℕ → ℕ) → ℕ → ℕ
set_interval none i f n = f n
set_interval (some p) i f n = if n == p then i else f n

abbrev pub interval_at : Option ℕ → (ℕ → ℕ) → ℕ
interval_at none f = 0
interval_at (some p) f = f p

-- The robots of each entry point.
unfoldable pub robots_working : List EntryPoint → AssignmentData → List EntryPointRobots
robots_working [] groups = []
robots_working (ep ∷ eps) [] = []
robots_working (ep ∷ eps) (group ∷ groups) =
    record { entrypoint = ep.id; robots = map (λ x. x.agent) group } ∷ robots_working eps groups

abbrev pub entry_points_of : Option Plan → List EntryPoint
entry_points_of none = []
entry_points_of (some p) = p.entry_points

abbrev pub parent_state_of : Option ℕ → World → Option ℕ
parent_state_of none w = none
parent_state_of (some q) w = (w.plan_at q).state

module _ (increase decrease : ℕ → ℕ) (greater : ℕ → ℕ → Bool) (now me : ℕ) (may_send : Bool) where
  unfoldable pub send_allocation : ℕ → Delivery → Delivery
  unfolding robots_working
  send_allocation p s =
      let r = s.world.plan_at p in
      let aai : AllocationAuthorityInfo = record {
        sender_id = some me;
        plan_id = id_or_none r.plan;
        parent_state = id_or_none (parent_state_of r.parent s.world);
        plan_type = id_or_none r.plan_type;
        authority = some me;
        entry_point_robots =
            robots_working (entry_points_of r.assignment.plan) r.assignment.assignment_data;
      } in
      if not may_send then s else record s { outbox = s.outbox ++ aai ∷ [] }

  unfoldable pub shout : ℕ → Delivery → Delivery
  unfolding send_allocation modify sent
  shout p s =
      let told = send_allocation p s in
      if needs_sending now (s.world.plan_at p).cycle_management
      then record told {
        world =
            modify p (λ r. record r { cycle_management = sent now r.cycle_management }) told.world;
      }
      else s

  -- `rp.editCycleManagement().handleAuthorityInfo(aai)`.
  unfoldable pub hand_over : ℕ → AllocationAuthorityInfo → Delivery → Delivery
  unfolding modify handle_authority_info
  hand_over p aai s =
      let r = s.world.plan_at p in
      let (cm, i) =
        handle_authority_info increase decrease greater now aai r.cycle_management
          (interval_at r.plan s.interval_of) in
      record s {
        world = modify p (λ x. record x { cycle_management = cm }) s.world;
        interval_of = set_interval r.plan i s.interval_of;
      }

  -- The loop over the queue at the index `i`, with the number of rounds left.
  unfoldable pub deliver_loop : ℕ → ℕ → ℕ → Delivery → Delivery
  unfolding hand_over authority_matches_plan
  deliver_loop zero i p s = s
  deliver_loop (suc rounds) i p s = elim (get_elem? s.queue i) [
    | none ↦ s
    | some aai ↦
        let erased =
          deliver_loop rounds i p (record (hand_over p aai s) { queue = remove_at s.queue i }) in
        let next = deliver_loop rounds (i + 1) p s in
        if authority_matches_plan aai p s.world then erased else next
  ]

  unfoldable pub deliver : ℕ → Delivery → Delivery
  unfolding deliver_loop
  deliver p s = deliver_loop (length s.queue) 0 p s

  abbrev pub for_each : (ℕ → Delivery → Delivery) → List ℕ → Delivery → Delivery
  for_each f [] s = s
  for_each f (c ∷ cs) s = for_each f cs (f c s)

  -- The first argument bounds the depth.
  unfoldable pub process_plan : ℕ → ℕ → Delivery → Delivery
  unfolding shout deliver
  process_plan zero p s = s
  process_plan (suc d) p s =
      let s' = deliver p (shout p s) in
      if (s.world.plan_at p).behaviour
      then s
      else for_each (process_plan d) (s'.world.plan_at p).children s'

  unfoldable pub tick : ℕ → Option ℕ → Delivery → Delivery
  unfolding process_plan
  tick d none s = record s { queue = [] }
  tick d (some p) s = record (process_plan d p s) { queue = [] }
