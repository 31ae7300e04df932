-- ===== src/RuleBook/Flags.antt =====
-- The operations on the tree of running plans leave the flag of a failure that waits alone.
use alica_engine.Common.{ℕ, ◌≡◌, refl, ap, Bool, false, Option}
use alica_engine.Model.{StateType}
use alica_engine.RunningPlan.{RunningPlan, World, Env, modify}
use alica_engine.RunningPlan.Status.{
  set_failure_handling_needed, enter_typed, enter_state, use_state, revoke_all_constraints,
}
use alica_engine.RunningPlan.Tree.{deactivate_children, clear_children}
use alica_engine.RunningPlan.Tree.Fields.{
  Preserves, modify_self, modify_keeps, clear_children_keeps, deactivate_children_keeps,
  use_state_keeps,
}

abbrev pub flag : RunningPlan → Bool
flag r = r.info.fail_handling_needed

-- Whether the failure of a running plan waits to be handled.
abbrev pub waits : World → ℕ → Bool
waits w p = flag (w.plan_at p)

pub modify-waits :
    (q p : ℕ) (f : RunningPlan → RunningPlan) (w : World)
    → ((r : RunningPlan) → (f r).info.fail_handling_needed ≡ r.info.fail_handling_needed)
    → waits (modify q f w) p ≡ waits w p
modify-waits = modify_keeps flag

pub clear_children-waits : (q p : ℕ) (w : World) → waits (clear_children q w) p ≡ waits w p
clear_children-waits q p w = clear_children_keeps flag q p w (λ r. refl) (λ r. refl)

pub deactivate_children-waits :
    (d q p : ℕ) (w : World) → waits (deactivate_children d q w) p ≡ waits w p
unfolding revoke_all_constraints
deactivate_children-waits d q p w = deactivate_children_keeps flag d q p w (λ r. refl)

pub use_state-waits :
    (env : Env) (s : Option ℕ) (q p : ℕ) (w : World) → waits (use_state env s q w) p ≡ waits w p
unfolding enter_state
use_state-waits env s q p w = use_state_keeps flag env s q p w typed (λ r. refl)
  where
    typed : (t : StateType) (s : ℕ) → Preserves flag (enter_typed env t s)
    typed StateType.normal s r = refl
    typed StateType.failure s r = refl
    typed StateType.success s r = refl

pub handled : (p : ℕ) (w : World) → waits (modify p (set_failure_handling_needed false) w) p ≡ false
unfolding set_failure_handling_needed
handled p w = ap flag (modify_self p (set_failure_handling_needed false) w)
