-- ===== src/Assignment/Success.antt =====
-- The success of a plan and of its tasks.
use mathlib.Core.Bool.{false≢true}
use alica_engine.Common.{
  ℕ, ◌≤◌, length, ◌≡◌, refl, ◌⊎◌, ◌↔◌, Option-cases, inl, inr, Bool, true, false, List, [], ◌∷◌,
  some, arith, Bool-cases,
}
use alica_engine.Common.Int.{pos, ◌≤ℤ◌}
use alica_engine.Model.{EntryPoint, Plan}
use alica_engine.Assignment.{
  Assignment, task_done, required_done, is_successful, any_done, is_any_task_successful,
}

-- At least one agent has finished the task, and the minimum of the entry point is reached.
abbrev pub Done : EntryPoint → List ℕ → Type 0
Done ep done = (1 ≤ length done) × (ep.cardinality.lower ≤ℤ pos (length done))

task_done_sound : (ep : EntryPoint) (done : List ℕ) → task_done ep done ≡ true → Done ep done
task_done_sound ep [] h = absurd (cc)
task_done_sound ep (a ∷ done) h = (omega arith, ground arith)

task_done_complete : (ep : EntryPoint) (done : List ℕ) → Done ep done → task_done ep done ≡ true
task_done_complete ep [] h = absurd (omega (arith, h.0))
task_done_complete ep (a ∷ done) h = ground (arith, h.1)

-- The tasks that are required are done, at the same position in the two lists.
abbrev pub RequiredDone : List EntryPoint → List (List ℕ) → Type 0
RequiredDone [] g = Unit
RequiredDone (ep ∷ eps) [] = ⊥
RequiredDone (ep ∷ eps) (done ∷ g) =
    (ep.success_required ≡ true → Done ep done) × RequiredDone eps g

abbrev pub HasRequired : List EntryPoint → Type 0
HasRequired [] = ⊥
HasRequired (ep ∷ eps) = (ep.success_required ≡ true) ⊎ HasRequired eps

required_done_sound :
    (eps : List EntryPoint) (g : List (List ℕ)) (ret : Bool)
    → required_done eps g ret ≡ true
    → RequiredDone eps g × ((ret ≡ true) ⊎ (HasRequired eps × (any_done eps g ≡ true)))
unfolding required_done any_done
required_done_sound [] g ret h = (tt, inl h)
required_done_sound (ep ∷ eps) [] ret h = absurd (cc)
required_done_sound (ep ∷ eps) (done ∷ g) ret h = elim (Bool-cases (ep.success_required)) [
  | inl required ↦ elim (Bool-cases (task_done ep done)) [
    | inl finished ↦
        let (rest, _) = required_done_sound eps g true (ground arith) in
        (((λ _. task_done_sound ep done finished), rest), inr (inl required, ground arith))
    | inr missing ↦ absurd (ground arith)
  ]
  | inr optional ↦
      let (rest, why) = required_done_sound eps g ret (ground arith) in
      (
        ((λ r. absurd (ground arith)), rest),
        elim why [ inl set ↦ inl set | inr (has, any) ↦ inr (inr has, ground arith) ],
      )
]

required_done_complete :
    (eps : List EntryPoint) (g : List (List ℕ)) (ret : Bool)
    → RequiredDone eps g
    → (ret ≡ true) ⊎ HasRequired eps
    → required_done eps g ret ≡ true
unfolding required_done
required_done_complete [] g ret done (inl h) = h
required_done_complete [] g ret done (inr h) = absurd h
required_done_complete (ep ∷ eps) [] ret done h = absurd done
required_done_complete (ep ∷ eps) (g ∷ gs) ret done h = elim (Bool-cases ep.success_required) [
  | inl required ↦
      rw (required, task_done_complete ep g (done.0 required))
        (required_done_complete eps gs true done.1 (inl refl))
  | inr optional ↦ rw optional (
      required_done_complete eps gs ret done.1 (elim h [
        | inl set ↦ inl set
        | inr (inl required) ↦ absurd (ground arith)
        | inr (inr more) ↦ inr more
      ]))
]

-- An assignment is successful exactly when it belongs to a plan that has a required task and every
-- required task of the plan is done, by at least one agent and the minimum of its entry point.
pub is_successful_iff :
    (a : Assignment) (p : Plan)
    → a.plan ≡ some p
    → (is_successful a ≡ true)
      ↔ (RequiredDone p.entry_points a.success_data.success_data × HasRequired p.entry_points)
unfolding is_successful
is_successful_iff a p plan = (
  (λ h.
      let (done, why) =
        required_done_sound p.entry_points a.success_data.success_data false (ground arith) in
      (done, elim why [ inl e ↦ absurd (false≢true e) | inr (has, _) ↦ has ])),
  λ h.
      rw (plan, is_successful)
        (required_done_complete p.entry_points a.success_data.success_data false h.0 (inr h.1)),
)

-- A successful assignment has a successful task.
pub successful-any_task :
    (a : Assignment) → is_successful a ≡ true → is_any_task_successful a ≡ true
unfolding is_successful is_any_task_successful
successful-any_task a h = elim (Option-cases a.plan) [
  | inl none_ ↦ absurd (ground arith)
  | inr (p, plan) ↦
      let (done, why) =
        required_done_sound p.entry_points a.success_data.success_data false (ground arith) in
      elim why [
        | inl e ↦ absurd (false≢true e)
        | inr (_, any) ↦ rw (plan, is_any_task_successful) any
      ]
]
