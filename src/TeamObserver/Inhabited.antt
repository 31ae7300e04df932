-- ===== src/TeamObserver/Inhabited.antt =====
-- TeamObserver::cleanOwnSuccessMarks: who is in a plan.

use alica_engine.Common.{
  ℕ, zero, suc, ◌<◌, ◌≡◌, refl, sym, ap, ◌∙◌, ◌⊎◌, inl, inr, ◌↔◌, Bool, true, false, ◌||◌, List, [],
  ◌∷◌, ◌++◌, Option, none, some, any, Has, contains, if◌then◌else◌, ◌==◌, arith, eq_of_==, ==-refl,
}
use alica_engine.Model.{State, EntryPoint}
use alica_engine.Collections.SuccessMarks.{succeeded}
use alica_engine.RunningPlan.{World}
use alica_engine.RunningPlan.Tree.Deactivate.{Ranked}
use alica_engine.TeamObserver.{SimplePlanTree, AgentTree, TeamObserver, own_marks, contains_plan}
use alica_engine.TeamObserver.Marks.{
  present_each, active_plan, present_below, present_running, clean_own_success_marks,
  contains-append, clean_own_success_marks-succeeded,
}

-- The plan `n` is executed by the running plan `p`, or in the tree below it. A behaviour executes no plan.
pub data Executes (w : World) : ℕ → ℕ → Type 0 where
  here : (p n : ℕ) → (w.plan_at p).behaviour ≡ false → (w.plan_at p).plan ≡ some n → Executes w p n
  below :
      (p c n : ℕ)
      → (w.plan_at p).behaviour ≡ false
      → contains c (w.plan_at p).children ≡ true
      → Executes w c n
      → Executes w p n

abbrev pub ExecutesFrom : World → Option ℕ → ℕ → Type 0
ExecutesFrom w none n = ⊥
ExecutesFrom w (some root) n = Executes w root n

-- Some plan tree has a node with a state of the plan.
abbrev pub Reported : (State → ℕ) → ℕ → List AgentTree → Type 0
Reported plan_of n trees = Has (λ t. Has (λ x. plan_of x.state ≡ n) t.nodes) trees

or_cases : (a b : Bool) → (a || b) ≡ true → (a ≡ true) ⊎ (b ≡ true)
or_cases true b h = inl refl
or_cases false b h = inr h

or_left : (a b : Bool) → a ≡ true → (a || b) ≡ true
or_left a b h = ap (λ x. x || b) h

or_right : (a b : Bool) → b ≡ true → (a || b) ≡ true
or_right true b h = refl
or_right false b h = h

present_each_sound :
    (f : ℕ → List ℕ) (n : ℕ) (cs : List ℕ)
    → contains n (present_each f cs) ≡ true
    → (c : ℕ) × (contains c cs ≡ true) × (contains n (f c) ≡ true)
present_each_sound f n [] h = absurd (cc)
present_each_sound f n (c ∷ cs) h =
    elim (or_cases (contains n (f c)) (contains n (present_each f cs))
      (sym (contains-append n (f c) (present_each f cs)) ∙ h)) [
        | inl first ↦ (c, or_left (c == c) (contains c cs) (==-refl c), first)
        | inr rest ↦
            let (x, member, found) = present_each_sound f n cs rest in
            (x, or_right (c == x) (contains x cs) member, found)
      ]

present_each_complete :
    (f : ℕ → List ℕ) (n c : ℕ) (cs : List ℕ)
    → contains c cs ≡ true
    → contains n (f c) ≡ true
    → contains n (present_each f cs) ≡ true
present_each_complete f n c [] h k = absurd (cc)
present_each_complete f n c (x ∷ cs) h k =
    contains-append n (f x) (present_each f cs) ∙ elim (or_cases (x == c) (contains c cs) h) [
      | inl same ↦
          or_left (contains n (f x)) (contains n (present_each f cs))
            (ap (λ y. contains n (f y)) (eq_of_== x c same) ∙ k)
      | inr later ↦
          or_right (contains n (f x)) (contains n (present_each f cs))
            (present_each_complete f n c cs later k)
    ]

active_plan_sound : (o : Option ℕ) (n : ℕ) → contains n (active_plan o) ≡ true → o ≡ some n
active_plan_sound none n h = absurd (cc)
active_plan_sound (some m) n h = ap some (eq_of_== m n (ground arith))

-- The traversal to the depth `d` finds only what is executed.
present_below_sound :
    (d p n : ℕ) (w : World) → contains n (present_below d w p) ≡ true → Executes w p n
unfolding present_below
present_below_sound zero p n w h = absurd (cc)
present_below_sound (suc d) p n w h =
    pick (w.plan_at p).behaviour refl h (λ c k. present_below_sound d c n w k)
  where
    pick :
        (b : Bool)
        → (w.plan_at p).behaviour ≡ b
        → contains n (
            if b
            then []
            else active_plan (w.plan_at p).plan
              ++ present_each (present_below d w) (w.plan_at p).children)
          ≡ true
        → ((c : ℕ) → contains n (present_below d w c) ≡ true → Executes w c n)
        → Executes w p n
    pick true e h r = absurd (cc)
    pick false e h r =
        elim (or_cases (contains n (active_plan (w.plan_at p).plan))
          (contains n (present_each (present_below d w) (w.plan_at p).children))
          (sym (
              contains-append n (active_plan (w.plan_at p).plan)
                (present_each (present_below d w) (w.plan_at p).children))
            ∙ h)) [
              | inl own ↦ here p n e (active_plan_sound (w.plan_at p).plan n own)
              | inr deeper ↦
                  let (c, member, found) =
                    present_each_sound (present_below d w) n (w.plan_at p).children deeper in
                  below p c n e member (r c found)
            ]

-- Where the depth exceeds the rank, it finds everything.
present_below_complete :
    (rank : ℕ → ℕ) (d p n : ℕ) (w : World)
    → Ranked rank w
    → rank p < d
    → Executes w p n
    → contains n (present_below d w p) ≡ true
unfolding present_below
present_below_complete rank zero p n w ranked enough x = absurd (omega arith)
present_below_complete rank (suc d) p n w ranked enough (here _ _ e own) =
    ap
      (λ b. contains n (
        if b
        then []
        else active_plan (w.plan_at p).plan
          ++ present_each (present_below d w) (w.plan_at p).children))
      e
    ∙ contains-append n (active_plan (w.plan_at p).plan)
        (present_each (present_below d w) (w.plan_at p).children)
    ∙ or_left (contains n (active_plan (w.plan_at p).plan)) _
        (ap (λ o. contains n (active_plan o)) own ∙ or_left (n == n) false (==-refl n))
present_below_complete rank (suc d) p n w ranked enough (below _ c _ e member x) =
    ap
      (λ b. contains n (
        if b
        then []
        else active_plan (w.plan_at p).plan
          ++ present_each (present_below d w) (w.plan_at p).children))
      e
    ∙ contains-append n (active_plan (w.plan_at p).plan)
        (present_each (present_below d w) (w.plan_at p).children)
    ∙ or_right (contains n (active_plan (w.plan_at p).plan)) _ (
        present_each_complete (present_below d w) n c (w.plan_at p).children member (
          let lower = ranked p c member in
          present_below_complete rank d c n w ranked (omega arith) x))

any_sound {ℓ} :
    {A : Type ℓ} (p : A → Bool) (P : A → Type 0)
    → ((x : A) → p x ≡ true → P x)
    → (xs : List A) → any p xs ≡ true
    → Has P xs
any_sound p P each [] h = absurd (cc)
any_sound p P each (x ∷ xs) h = elim (or_cases (p x) (any p xs) h) [
  | inl first ↦ inl (each x first)
  | inr rest ↦ inr (any_sound p P each xs rest)
]

any_complete {ℓ} :
    {A : Type ℓ} (p : A → Bool) (P : A → Type 0)
    → ((x : A) → P x → p x ≡ true)
    → (xs : List A) → Has P xs
    → any p xs ≡ true
any_complete p P each [] h = absurd h
any_complete p P each (x ∷ xs) (inl first) = or_left (p x) (any p xs) (each x first)
any_complete p P each (x ∷ xs) (inr rest) =
    or_right (p x) (any p xs) (any_complete p P each xs rest)

module _ (plan_of : State → ℕ) (n : ℕ) where
  abbrev holds : AgentTree → Bool
  holds t = contains_plan plan_of n t.nodes

  sound-Reported : (trees : List AgentTree) → any holds trees ≡ true → Reported plan_of n trees
  unfolding contains_plan
  sound-Reported =
      any_sound holds (λ t. Has (λ x. plan_of x.state ≡ n) t.nodes)
        (λ t.
          any_sound (λ x. plan_of x.state == n) (λ (x : SimplePlanTree). plan_of x.state ≡ n)
            (λ x. eq_of_== (plan_of x.state) n) t.nodes)

  complete-Reported : (trees : List AgentTree) → Reported plan_of n trees → any holds trees ≡ true
  unfolding contains_plan
  complete-Reported =
      any_complete holds (λ t. Has (λ x. plan_of x.state ≡ n) t.nodes)
        (λ t.
          any_complete (λ x. plan_of x.state == n) (λ (x : SimplePlanTree). plan_of x.state ≡ n)
            (λ x e. ap (λ k. k == n) e ∙ ==-refl n) t.nodes)

-- The depth exceeds the rank of the root, if there is one.
abbrev pub DeepEnough : (ℕ → ℕ) → ℕ → Option ℕ → Type 0
DeepEnough rank d none = Unit
DeepEnough rank d (some root) = rank root < d

running_sound :
    (d n : ℕ) (w : World) (root : Option ℕ)
    → contains n (present_running d w root) ≡ true
    → ExecutesFrom w root n
running_sound d n w none h = absurd (cc)
running_sound d n w (some root) h = present_below_sound d root n w h

running_complete :
    (rank : ℕ → ℕ) (d n : ℕ) (w : World) (root : Option ℕ)
    → Ranked rank w
    → DeepEnough rank d root
    → ExecutesFrom w root n
    → contains n (present_running d w root) ≡ true
running_complete rank d n w none ranked enough x = absurd x
running_complete rank d n w (some root) ranked enough x =
    present_below_complete rank d root n w ranked enough x

if_true : (b c : Bool) → (if b then c else false) ≡ true → (b ≡ true) × (c ≡ true)
if_true true c h = (refl, h)
if_true false c h = absurd (cc)

-- This agent counts as successful in a task of a plan after the clean-up exactly if it did so before, and
-- the plan is executed in the tree of its own running plans or reported in the plan tree of another agent.
-- A running plan ranks above its children, and the depth given exceeds the rank of the root.
pub clean_own_success_marks_iff :
    (plan_of : State → ℕ) (rank : ℕ → ℕ) (d n : ℕ) (ep : EntryPoint) (w : World) (root : Option ℕ)
    (o : TeamObserver)
    → Ranked rank w
    → DeepEnough rank d root
    → (succeeded n ep (own_marks (clean_own_success_marks plan_of d w root o).team) ≡ true) ↔ (
        (succeeded n ep (own_marks o.team) ≡ true)
        × (ExecutesFrom w root n ⊎ Reported plan_of n o.simple_plan_trees))
clean_own_success_marks_iff plan_of rank d n ep w root o ranked enough = (forth, back)
  where
    running : Bool
    running = contains n (present_running d w root)

    others : Bool
    others = any (holds plan_of n) o.simple_plan_trees

    before : Bool
    before = succeeded n ep (own_marks o.team)

    cleaned :
        succeeded n ep (own_marks (clean_own_success_marks plan_of d w root o).team)
        ≡ (if running || others then before else false)
    cleaned = clean_own_success_marks-succeeded plan_of d n ep w root o

    somebody :
        (running ≡ true) ⊎ (others ≡ true)
        → ExecutesFrom w root n ⊎ Reported plan_of n o.simple_plan_trees
    somebody (inl h) = inl (running_sound d n w root h)
    somebody (inr h) = inr (sound-Reported plan_of n o.simple_plan_trees h)

    present :
        ExecutesFrom w root n ⊎ Reported plan_of n o.simple_plan_trees → (running || others) ≡ true
    present (inl x) = or_left running others (running_complete rank d n w root ranked enough x)
    present (inr x) = or_right running others (complete-Reported plan_of n o.simple_plan_trees x)

    forth :
        succeeded n ep (own_marks (clean_own_success_marks plan_of d w root o).team) ≡ true
        → (before ≡ true) × (ExecutesFrom w root n ⊎ Reported plan_of n o.simple_plan_trees)
    forth h =
        let (some_, was) = if_true (running || others) before (sym cleaned ∙ h) in
        (was, somebody (or_cases running others some_))

    back :
        (before ≡ true) × (ExecutesFrom w root n ⊎ Reported plan_of n o.simple_plan_trees)
        → succeeded n ep (own_marks (clean_own_success_marks plan_of d w root o).team) ≡ true
    back h = cleaned ∙ ap (λ b. if b then before else false) (present h.1) ∙ h.0
