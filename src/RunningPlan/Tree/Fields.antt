-- ===== src/RunningPlan/Tree/Fields.antt =====
-- Fields of a running plan that an operation on the tree of running plans leaves alone (RunningPlan.cpp).
use alica_engine.Common.{
  ℕ, ◌≡◌, refl, ap, ◌∙◌, inl, inr, Bool, true, false, List, [], ◌∷◌, Option, none, some,
  if◌then◌else◌, ◌==◌, ==-refl,
}
use alica_engine.Model.{StateType, EntryPoint}
use alica_engine.RunningPlan.{RunningPlan, World, Env, same_id, modify, each}
use alica_engine.RunningPlan.Status.{
  enter_state, enter_typed, notify_typed, success_call, notify_success, use_state,
}
use alica_engine.RunningPlan.Tree.{deactivate, deactivate_children, clear_children, set_parent}
use alica_engine.RunningPlan.Tree.Deactivate.{shut, Touched, Touched-each, Touched-deactivate}

abbrev pub orphan : RunningPlan → RunningPlan
orphan r = record r { children = [] }

pub modify_self :
    (p : ℕ) (f : RunningPlan → RunningPlan) (w : World) → (modify p f w).plan_at p ≡ f (w.plan_at p)
unfolding modify
modify_self p f w = ap (λ b. if b then f (w.plan_at p) else w.plan_at p) (==-refl p)

module _ {ℓ} {X : Type ℓ} (field_ : RunningPlan → X) where
  -- A change that leaves the field alone.
  abbrev pub Preserves : (RunningPlan → RunningPlan) → Type ℓ
  Preserves f = (r : RunningPlan) → field_ (f r) ≡ field_ r

  pub modify_keeps :
      (q p : ℕ) (f : RunningPlan → RunningPlan) (w : World)
      → Preserves f
      → field_ ((modify q f w).plan_at p) ≡ field_ (w.plan_at p)
  unfolding modify
  modify_keeps q p f w h = pick (p == q)
    where
      pick : (b : Bool) → field_ (if b then f (w.plan_at p) else w.plan_at p) ≡ field_ (w.plan_at p)
      pick true = h (w.plan_at p)
      pick false = refl

  Touched-field :
      {w v : World} (p : ℕ)
      → Preserves shut
      → Touched w v
      → field_ (v.plan_at p) ≡ field_ (w.plan_at p)
  Touched-field {w} p h t = elim (t.plans p) [
    | inl e ↦ ap field_ e
    | inr e ↦ ap field_ e ∙ h (w.plan_at p)
  ]

  orphans-keep :
      (p : ℕ) (cs : List ℕ) (w : World)
      → Preserves (set_parent none)
      → field_ ((each (λ c. modify c (set_parent none)) cs w).plan_at p) ≡ field_ (w.plan_at p)
  orphans-keep p [] w h = refl
  orphans-keep p (c ∷ cs) w h =
      orphans-keep p cs (modify c (set_parent none) w) h ∙ modify_keeps c p (set_parent none) w h

  pub clear_children_keeps :
      (q p : ℕ) (w : World)
      → Preserves (set_parent none)
      → Preserves orphan
      → field_ ((clear_children q w).plan_at p) ≡ field_ (w.plan_at p)
  unfolding clear_children
  clear_children_keeps q p w h k =
      let orphans = each (λ c. modify c (set_parent none)) (w.plan_at q).children w in
      modify_keeps q p orphan orphans k ∙ orphans-keep p (w.plan_at q).children w h

  pub deactivate_children_keeps :
      (d q p : ℕ) (w : World)
      → Preserves shut
      → field_ ((deactivate_children d q w).plan_at p) ≡ field_ (w.plan_at p)
  unfolding deactivate_children
  deactivate_children_keeps d q p w h =
      Touched-field p h
        (Touched-each (deactivate d) (Touched-deactivate d) (w.plan_at q).children w)

  module _ (env : Env) where
    enter-Preserves :
        (s : Option ℕ)
        → ((t : StateType) (s : ℕ) → Preserves (enter_typed env t s))
        → Preserves (enter_state env none)
        → Preserves (enter_state env s)
    unfolding enter_state
    enter-Preserves none h k r = k r
    enter-Preserves (some s) h k r = h (env.states s).state_type s r

pub notify-plans :
    (env : Env) (s : Option ℕ) (r : RunningPlan) (w : World)
    → (notify_success env s r w).plan_at ≡ w.plan_at
unfolding notify_success
notify-plans env none r w = refl
notify-plans env (some s) r w = typed (env.states s).state_type
  where
    called : (ep : Option EntryPoint) → (success_call env r.plan ep w).plan_at ≡ w.plan_at
    called none = refl
    called (some ep) = refl

    typed : (t : StateType) → (notify_typed env t r w).plan_at ≡ w.plan_at
    typed StateType.normal = refl
    typed StateType.failure = refl
    typed StateType.success = called r.entry_point

pub use_state_keeps {ℓ} :
    {X : Type ℓ} (field_ : RunningPlan → X) (env : Env) (s : Option ℕ) (q p : ℕ) (w : World)
    → ((t : StateType) (s : ℕ) → Preserves field_ (enter_typed env t s))
    → Preserves field_ (enter_state env none)
    → field_ ((use_state env s q w).plan_at p) ≡ field_ (w.plan_at p)
unfolding use_state
use_state_keeps field_ env s q p w h k = pick (same_id (w.plan_at q).state s)
  where
    pick :
        (b : Bool)
        → field_ (
            (if b
                then w
                else notify_success env s (w.plan_at q) (modify q (enter_state env s) w)).plan_at
              p)
          ≡ field_ (w.plan_at p)
    pick true = refl
    pick false =
        ap (λ f. field_ (f p)) (notify-plans env s (w.plan_at q) (modify q (enter_state env s) w))
        ∙ modify_keeps field_ q p (enter_state env s) w (enter-Preserves field_ env s h k)
