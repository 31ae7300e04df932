-- ===== src/RunningPlan/Tree/Move.antt =====
-- RunningPlan::moveState: what moving to another state does to the running plan and to its children.
use mathlib.Core.Option
use alica_engine.Common.{
  ℕ, ◌≤◌, ◌≡◌, refl, ap, ◌∙◌, Bool, true, false, [], Option, none, some, if◌then◌else◌, ◌==◌,
  contains, get_elem?, arith, eq_of_==,
}
use alica_engine.Model.{StateType, EntryPoint, Plan, Distinct}
use alica_engine.Assignment.{Assignment, AssignmentData}
use alica_engine.Assignment.Edit.{move_all_from_to}
use alica_engine.Assignment.Placement.{state_in}
use alica_engine.Assignment.Bulk.{moved, move_all-placement}
use alica_engine.RunningPlan.{RunningPlan, World, Env, same_id, is_retired, modify, each}
use alica_engine.RunningPlan.Status.{
  edit_assignment, clear_failed_children, enter_state, enter_typed, notify_success, use_state,
  revoke_all_constraints, push_success,
}
use alica_engine.RunningPlan.Tree.{
  deactivate_children, clear_children, set_parent, move_all, move_state, entry_points_of,
}
use alica_engine.RunningPlan.Tree.Deactivate.{Ranked, Below, shut, each-shut, deactivate-shut}
use alica_engine.RunningPlan.Tree.Fields.{
  Preserves, orphan, modify_self, modify_keeps, clear_children_keeps, deactivate_children_keeps,
  use_state_keeps, notify-plans,
}

module _ (env : Env) (next p : ℕ) (w : World) where
  -- The world before the own state changes, and after.
  abbrev left : World
  left = clear_children p (deactivate_children env.depth p w)

  abbrev relocated : World
  relocated =
      modify p
        (edit_assignment (move_all (left.plan_at p).entry_point (left.plan_at p).state (some next)))
        left

  abbrev entered : World
  entered = use_state env (some next) p relocated

  left_keeps {ℓ} :
      {X : Type ℓ} (field_ : RunningPlan → X) (q : ℕ)
      → Preserves field_ shut
      → Preserves field_ (set_parent none)
      → Preserves field_ orphan
      → field_ (left.plan_at q) ≡ field_ (w.plan_at q)
  left_keeps field_ q h k l =
      clear_children_keeps field_ p q (deactivate_children env.depth p w) k l
      ∙ deactivate_children_keeps field_ env.depth p q w h

  -- The active state, where `useState` finds it or sets it.
  use_state-state : (v : World) → ((use_state env (some next) p v).plan_at p).state ≡ some next
  unfolding use_state
  use_state-state v = pick (same_id (v.plan_at p).state (some next)) refl
    where
      same : (o : Option ℕ) → same_id o (some next) ≡ true → o ≡ some next
      same none h = absurd (cc)
      same (some s) h = ap some (eq_of_== s next h)

      typed : (t : StateType) (r : RunningPlan) → (enter_typed env t next r).state ≡ some next
      typed StateType.normal r = refl
      typed StateType.failure r = refl
      typed StateType.success r = refl

      changed : World
      changed =
          notify_success env (some next) (v.plan_at p) (modify p (enter_state env (some next)) v)

      changed_state : (changed.plan_at p).state ≡ some next
      changed_state =
          ap (λ f. (f p).state)
            (notify-plans env (some next) (v.plan_at p) (modify p (enter_state env (some next)) v))
          ∙ ap (λ r. r.state) (modify_self p (enter_state env (some next)) v)
          ∙ typed (env.states next).state_type (v.plan_at p)

      pick :
          (b : Bool)
          → same_id (v.plan_at p).state (some next) ≡ b
          → ((if b then v else changed).plan_at p).state ≡ some next
      pick true h = same (v.plan_at p).state h
      pick false h = changed_state

  abbrev rooms : RunningPlan → AssignmentData
  rooms r = r.assignment.assignment_data

  abbrev place : RunningPlan → Option EntryPoint × Option ℕ × Assignment
  place r = (r.entry_point, r.state, r.assignment)

  -- Success data aside, `useState` leaves the assignment alone.
  use_state-rooms :
      (v : World) → rooms ((use_state env (some next) p v).plan_at p) ≡ rooms (v.plan_at p)
  unfolding enter_state
  use_state-rooms v = use_state_keeps rooms env (some next) p p v typed (λ r. refl)
    where
      pushed :
          (e : Option EntryPoint) (a : Assignment)
          → (push_success env.my_id e a).assignment_data ≡ a.assignment_data
      pushed none a = refl
      pushed (some e) a = refl

      typed : (t : StateType) (s : ℕ) → Preserves rooms (enter_typed env t s)
      typed StateType.normal s r = refl
      typed StateType.failure s r = refl
      typed StateType.success s r = pushed r.entry_point r.assignment

  move-rooms :
      rooms ((move_state env next p w).plan_at p)
      ≡ (move_all
          (w.plan_at p).entry_point
          (w.plan_at p).state
          (some next)
          (w.plan_at p).assignment).assignment_data
  unfolding move_state clear_failed_children revoke_all_constraints
  move-rooms =
      modify_keeps rooms p p clear_failed_children entered (λ r. refl)
      ∙ use_state-rooms relocated
      ∙ ap rooms (
          modify_self p
            (edit_assignment
              (move_all (left.plan_at p).entry_point (left.plan_at p).state (some next)))
            left)
      ∙ ap
          (λ (t : Option EntryPoint × Option ℕ × Assignment).
            (move_all t.0 t.1 (some next) t.2).assignment_data)
          (left_keeps place p (λ r. refl) (λ r. refl) (λ r. refl))

  use_state-children :
      (v : World) → ((use_state env (some next) p v).plan_at p).children ≡ (v.plan_at p).children
  unfolding enter_state
  use_state-children v = use_state_keeps (λ r. r.children) env (some next) p p v typed (λ r. refl)
    where
      typed : (t : StateType) (s : ℕ) → Preserves (λ r. r.children) (enter_typed env t s)
      typed StateType.normal s r = refl
      typed StateType.failure s r = refl
      typed StateType.success s r = refl

  -- Moving to another state: the running plan is in that state, without children and without a record
  -- of failed plans.
  pub move_state-enters :
      (((move_state env next p w).plan_at p).state ≡ some next)
      × (((move_state env next p w).plan_at p).children ≡ [])
      × (((move_state env next p w).plan_at p).failed_sub_plans ≡ [])
  unfolding move_state clear_failed_children clear_children
  move_state-enters = (
    modify_keeps (λ r. r.state) p p clear_failed_children entered (λ r. refl)
        ∙ use_state-state relocated,
    modify_keeps (λ r. r.children) p p clear_failed_children entered (λ r. refl)
        ∙ use_state-children relocated
        ∙ modify_keeps (λ r. r.children) p p
            (edit_assignment
              (move_all (left.plan_at p).entry_point (left.plan_at p).state (some next)))
            left (λ r. refl)
        ∙ ap (λ r. r.children)
            (modify_self p orphan (
              each (λ c. modify c (set_parent none))
                ((deactivate_children env.depth p w).plan_at p).children
                (deactivate_children env.depth p w))),
    ap (λ r. r.failed_sub_plans) (modify_self p clear_failed_children entered),
  )

-- The agents move along: with the entry point at the index `j` and the state `from` active, the agents
-- of that entry point that were in `from` are in the next state, and every other agent is where it was.
pub move_state-placement :
    (env : Env) (next p b i j from : ℕ) (ep : EntryPoint) (plan : Plan) (w : World)
    → (w.plan_at p).entry_point ≡ some ep
    → (w.plan_at p).state ≡ some from
    → (w.plan_at p).assignment.plan ≡ some plan
    → Distinct plan.entry_points
    → get_elem? plan.entry_points j ≡ some ep
    → state_in b i ((move_state env next p w).plan_at p).assignment.assignment_data ≡ (
        if i == j
        then Option.map (moved from next) (state_in b i (w.plan_at p).assignment.assignment_data)
        else state_in b i (w.plan_at p).assignment.assignment_data)
move_state-placement env next p b i j from ep plan w at_ep at_state of_plan distinct at =
    ap (state_in b i) (move-rooms env next p w)
    ∙ ap
        (λ e.
          state_in b i
            (move_all e (w.plan_at p).state (some next) (w.plan_at p).assignment).assignment_data)
        at_ep
    ∙ ap
        (λ s.
          state_in b i (move_all (some ep) s (some next) (w.plan_at p).assignment).assignment_data)
        at_state
    ∙ ap
        (λ o. state_in b i (
          move_all_from_to ep from next (entry_points_of o)
            (w.plan_at p).assignment.assignment_data))
        of_plan
    ∙ move_all-placement b i j from next ep plan.entry_points
        (w.plan_at p).assignment.assignment_data distinct at

-- What ran in the old state ends: where a running plan ranks above its children, and at most at the
-- depth of the environment, each running plan in the tree of a child is retired.
pub move_state-retires :
    (rank : ℕ → ℕ) (env : Env) (next p c q : ℕ) (w : World)
    → Ranked rank w
    → rank p ≤ env.depth
    → contains c (w.plan_at p).children ≡ true
    → Below w c q
    → is_retired ((move_state env next p w).plan_at q) ≡ true
unfolding move_state clear_failed_children deactivate_children revoke_all_constraints enter_state
move_state-retires rank env next p c q w ranked low child below =
    let gone = deactivate_children env.depth p w in
    modify_keeps (λ r. is_retired r) p q clear_failed_children (entered env next p w) (λ r. refl)
    ∙ use_state_keeps (λ r. is_retired r) env (some next) p q (relocated env next p w) typed
        (λ r. refl)
    ∙ modify_keeps (λ r. is_retired r) p q
        (edit_assignment (
          move_all ((left env next p w).plan_at p).entry_point ((left env next p w).plan_at p).state
            (some next)))
        (left env next p w) (λ r. refl)
    ∙ clear_children_keeps (λ r. is_retired r) p q gone (λ r. refl) (λ r. refl)
    ∙ ap (λ r. is_retired r)
        (each-shut rank env.depth c q (w.plan_at p).children w (deactivate-shut rank env.depth)
          ranked (λ x m. omega (arith, ranked p x m)) child below)
  where
    typed : (t : StateType) (s : ℕ) → Preserves (λ r. is_retired r) (enter_typed env t s)
    typed StateType.normal s r = refl
    typed StateType.failure s r = refl
    typed StateType.success s r = refl
