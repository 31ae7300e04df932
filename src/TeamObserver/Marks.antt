-- ===== src/TeamObserver/Marks.antt =====
-- TeamObserver.cpp: the own success marks, which are told to the others and dropped when nobody is left in
-- their plan, and the tick of the observer. The update of the assignments is a parameter of the tick. The
-- plans of the running plans are met depth first, where the source keeps a queue; they are only looked up.
use alica_engine.Common.{
  ℕ, zero, suc, ◌≡◌, refl, sym, ap, ◌∙◌, Bool, true, false, ◌||◌, not, List, [], ◌∷◌, ◌++◌, map,
  Option, none, some, any, find_if, keep, contains, if◌then◌else◌, ◌==◌,
}
use alica_engine.Common.Int.{ℤ}
use alica_engine.Model.{State, EntryPoint}
use alica_engine.Collections.SuccessMarks.{SuccessMarks, limit_to_plans, succeeded, to_id_grp}
use alica_engine.Collections.SuccessMarks.Laws.{succeeded-limit_to_plans}
use alica_engine.RunningPlan.{World}
use alica_engine.TeamManager.{Agent, TeamManager, has_id, edit_agent, active_agents}
use alica_engine.TeamManager
use alica_engine.TeamObserver.{
  SimplePlanTree, AgentTree, TeamObserver, own_marks, contains_plan, update_team_plan_trees,
}

abbrev pub present_each : (ℕ → List ℕ) → List ℕ → List ℕ
present_each f [] = []
present_each f (c ∷ cs) = f c ++ present_each f cs

abbrev pub active_plan : Option ℕ → List ℕ
active_plan none = []
active_plan (some n) = n ∷ []

-- The plans of the tree of running plans; the first argument bounds the depth.
unfoldable pub present_below : ℕ → World → ℕ → List ℕ
present_below zero w p = []
present_below (suc d) w p =
    let below =
      active_plan (w.plan_at p).plan ++ present_each (present_below d w) (w.plan_at p).children in
    if (w.plan_at p).behaviour then [] else below

abbrev pub present_running : ℕ → World → Option ℕ → List ℕ
present_running d w none = []
present_running d w (some root) = present_below d w root

-- The plans of the states in the plan trees of the others.
unfoldable pub present_trees : (State → ℕ) → List AgentTree → List ℕ
present_trees plan_of [] = []
present_trees plan_of (t ∷ trees) =
    map (λ n. plan_of n.state) t.nodes ++ present_trees plan_of trees

unfoldable pub clean_own_success_marks :
    (State → ℕ) → ℕ → World → Option ℕ → TeamObserver → TeamObserver
unfolding present_below present_trees limit_to_plans edit_agent
clean_own_success_marks plan_of d w root o =
    let present = present_running d w root ++ present_trees plan_of o.simple_plan_trees in
    record o {
      team = record o.team {
        agents =
            edit_agent o.team.local_agent
              (λ a. record a { success_marks = limit_to_plans present a.success_marks })
              o.team.agents;
      };
    }

-- The ids of the message that `doBroadCast` sends beside those of the states, if it may.
unfoldable pub do_broad_cast : Bool → List ℤ → TeamObserver → Option (ℕ × List ℤ × List ℕ)
unfolding to_id_grp
do_broad_cast may_send msg o =
    if not may_send then none else some (o.team.local_agent, msg, to_id_grp (own_marks o.team))

abbrev pub processed : AgentTree → AgentTree
processed t = record t { is_new = false }

abbrev pub ids_of : List Agent → List ℕ
ids_of agents = map (λ a. a.id) agents

-- With the new plan trees, the active agents and those without a new plan tree.
unfoldable pub tick :
    (ℤ → Option State)
    → (ℕ → Option EntryPoint)
    → (State → ℕ)
    → (List AgentTree → List ℕ → List ℕ → World → World × Bool)
    → ℕ
    → ℕ
    → Option ℕ
    → World
    → TeamObserver
    → TeamObserver × World × Bool
unfolding update_team_plan_trees clean_own_success_marks active_agents
tick find_state find_ep plan_of update_assignment d now root w o =
    let (updated, changed) = update_team_plan_trees find_state find_ep now o in
    let o' = clean_own_success_marks plan_of d w root updated in
    let old = keep (λ t. not t.is_new) o'.simple_plan_trees in
    let (w', told) =
      update_assignment (keep (λ t. t.is_new) o'.simple_plan_trees) (ids_of (active_agents o'.team))
        (map (λ t. t.agent) old) w in
    elim root [
      | none ↦ (o', w, changed)
      | some p ↦ (record o' { simple_plan_trees = map processed o'.simple_plan_trees }, w', changed)
    ]

any-map {ℓ} :
    {A : Type ℓ} (f : A → ℕ) (p : ℕ) (xs : List A) → any (λ x. f x == p) xs ≡ contains p (map f xs)
any-map f p [] = refl
any-map f p (x ∷ xs) = ap (λ b. (f x == p) || b) (any-map f p xs)

pub contains-append :
    (p : ℕ) (xs ys : List ℕ) → contains p (xs ++ ys) ≡ (contains p xs || contains p ys)
contains-append p [] ys = refl
contains-append p (x ∷ xs) ys = pick (x == p) (contains-append p xs ys)
  where
    pick :
        (b : Bool)
        → contains p (xs ++ ys) ≡ (contains p xs || contains p ys)
        → (b || contains p (xs ++ ys)) ≡ ((b || contains p xs) || contains p ys)
    pick true h = refl
    pick false h = h

contains-present_trees :
    (plan_of : State → ℕ) (p : ℕ) (trees : List AgentTree)
    → contains p (present_trees plan_of trees) ≡ any (λ t. contains_plan plan_of p t.nodes) trees
unfolding present_trees contains_plan
contains-present_trees plan_of p [] = refl
contains-present_trees plan_of p (t ∷ trees) =
    contains-append p (map (λ n. plan_of n.state) t.nodes) (present_trees plan_of trees)
    ∙ ap (λ b. b || contains p (present_trees plan_of trees))
        (sym (any-map (λ (n : SimplePlanTree). plan_of n.state) p t.nodes))
    ∙ ap (λ b. any (λ n. plan_of n.state == p) t.nodes || b)
        (contains-present_trees plan_of p trees)

-- The marks of the agent with the id.
abbrev marks_at : ℕ → List Agent → SuccessMarks
marks_at id agents = elim (TeamManager.find id agents) [ none ↦ [] | some a ↦ a.success_marks ]

marks_at-edit_agent :
    (id : ℕ) (f : SuccessMarks → SuccessMarks)
    → f [] ≡ []
    → (agents : List Agent)
    → marks_at id (edit_agent id (λ a. record a { success_marks = f a.success_marks }) agents)
      ≡ f (marks_at id agents)
unfolding edit_agent
marks_at-edit_agent id f e [] = sym e
marks_at-edit_agent id f e (a ∷ agents) =
    pick (has_id id a) refl (marks_at-edit_agent id f e agents)
  where
    a' : Agent
    a' = record a { success_marks = f a.success_marks }

    rest : List Agent
    rest = edit_agent id (λ x. record x { success_marks = f x.success_marks }) agents

    pick :
        (b : Bool)
        → has_id id a ≡ b
        → marks_at id rest ≡ f (marks_at id agents)
        → marks_at id (if b then a' ∷ agents else a ∷ rest)
          ≡ f (elim (if b then some a else find_if (has_id id) agents) [
            | none ↦ []
            | some x ↦ x.success_marks
          ])
    pick true k h =
        ap
          (λ b. elim (if b then some a' else find_if (has_id id) agents) [
            | none ↦ []
            | some x ↦ x.success_marks
          ])
          k
    pick false k h =
        ap
          (λ b. elim (if b then some a else find_if (has_id id) rest) [
            | none ↦ []
            | some x ↦ x.success_marks
          ])
          k
        ∙ h

-- A success of this agent is kept exactly if one of the two traversals meets its plan.
pub clean_own_success_marks-succeeded :
    (plan_of : State → ℕ) (d p : ℕ) (ep : EntryPoint) (w : World) (root : Option ℕ)
    (o : TeamObserver)
    → succeeded p ep (own_marks (clean_own_success_marks plan_of d w root o).team) ≡ (
        if contains p (present_running d w root)
          || any (λ t. contains_plan plan_of p t.nodes) o.simple_plan_trees
        then succeeded p ep (own_marks o.team)
        else false)
unfolding clean_own_success_marks
clean_own_success_marks-succeeded plan_of d p ep w root o =
    ap (succeeded p ep)
      (marks_at-edit_agent o.team.local_agent (limit_to_plans present) none_left o.team.agents)
    ∙ succeeded-limit_to_plans p ep present (own_marks o.team)
    ∙ ap (λ b. if b then succeeded p ep (own_marks o.team) else false)
        (contains-append p (present_running d w root) (present_trees plan_of o.simple_plan_trees)
          ∙ ap (λ b. contains p (present_running d w root) || b)
              (contains-present_trees plan_of p o.simple_plan_trees))
  where
    present : List ℕ
    present = present_running d w root ++ present_trees plan_of o.simple_plan_trees

    none_left : limit_to_plans present [] ≡ []
    none_left = refl
