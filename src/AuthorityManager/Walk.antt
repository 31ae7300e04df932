-- ===== src/AuthorityManager/Walk.antt =====
-- AuthorityManager::processPlan: the walk through the tree of running plans.
use mathlib.Core.Path.{subst}
use alica_engine.Common.{
  ℕ, zero, suc, ◌≡◌, refl, sym, ap, ◌∙◌, Bool, true, false, ◌||◌, not, List, [], ◌∷◌, ◌++◌, any,
  keep, if◌then◌else◌,
}
use alica_engine.Authority.CycleManager.{AllocationAuthorityInfo, sent, needs_sending}
use alica_engine.RunningPlan.{modify}
use alica_engine.AuthorityManager.{
  Delivery, send_allocation, shout, deliver, for_each, process_plan,
}
use alica_engine.AuthorityManager.Queue.{
  Shape, shapes, shapes-modify, matches_in, not_for, for_plan, hand_each-shapes, deliver-for_plan,
}

abbrev visited_each : (ℕ → List ℕ) → List ℕ → List ℕ
visited_each f [] = []
visited_each f (c ∷ cs) = f c ++ visited_each f cs

-- The plans of the tree in preorder, without the behaviours, down to the depth.
unfoldable pub visited : ℕ → (ℕ → Shape) → ℕ → List ℕ
visited zero sh p = []
visited (suc d) sh p =
    let below = p ∷ visited_each (visited d sh) (sh p).children in
    if (sh p).behaviour then [] else below

-- The messages that are about none of the plans.
abbrev pub for_none :
    (ℕ → Shape) → List ℕ → List AllocationAuthorityInfo → List AllocationAuthorityInfo
for_none sh ps = keep (λ m. not (any (λ q. matches_in sh q m) ps))

for_none-nil :
    (sh : ℕ → Shape) (queue : List AllocationAuthorityInfo) → for_none sh [] queue ≡ queue
for_none-nil sh [] = refl
for_none-nil sh (m ∷ queue) = ap (λ l. m ∷ l) (for_none-nil sh queue)

-- Keeping what passes one test and then what passes another.
keep-keep {ℓ} :
    {A : Type ℓ} (p q : A → Bool) (xs : List A)
    → keep q (keep (λ x. not (p x)) xs) ≡ keep (λ x. not (p x || not (q x))) xs
keep-keep p q [] = refl
keep-keep p q (x ∷ xs) = pick (p x) (q x) refl (keep-keep p q xs)
  where
    pick :
        (b c : Bool)
        → q x ≡ c
        → keep q (keep (λ y. not (p y)) xs) ≡ keep (λ y. not (p y || not (q y))) xs
        → keep q (if not b then x ∷ keep (λ y. not (p y)) xs else keep (λ y. not (p y)) xs) ≡ (
            if not (b || not c)
            then x ∷ keep (λ y. not (p y || not (q y))) xs
            else keep (λ y. not (p y || not (q y))) xs)
    pick true c e h = h
    pick false true e h =
        ap
          (λ d.
            if d then x ∷ keep q (keep (λ y. not (p y)) xs) else keep q (keep (λ y. not (p y)) xs))
          e
        ∙ ap (λ l. x ∷ l) h
    pick false false e h =
        ap
          (λ d.
            if d then x ∷ keep q (keep (λ y. not (p y)) xs) else keep q (keep (λ y. not (p y)) xs))
          e
        ∙ h

keep-ext {ℓ} :
    {A : Type ℓ} (p q : A → Bool) → ((x : A) → p x ≡ q x) → (xs : List A) → keep p xs ≡ keep q xs
keep-ext p q h [] = refl
keep-ext p q h (x ∷ xs) =
    ap (λ b. if b then x ∷ keep p xs else keep p xs) (h x)
    ∙ ap (λ l. if q x then x ∷ l else l) (keep-ext p q h xs)

not-not : (b : Bool) → not (not b) ≡ b
not-not true = refl
not-not false = refl

any-append {ℓ} :
    {A : Type ℓ} (p : A → Bool) (xs ys : List A) → (any p xs || any p ys) ≡ any p (xs ++ ys)
any-append p [] ys = refl
any-append p (x ∷ xs) ys = pick (p x) (any-append p xs ys)
  where
    pick :
        (b : Bool)
        → (any p xs || any p ys) ≡ any p (xs ++ ys)
        → ((b || any p xs) || any p ys) ≡ (b || any p (xs ++ ys))
    pick true h = refl
    pick false h = h

for_none-append :
    (sh : ℕ → Shape) (ps qs : List ℕ) (queue : List AllocationAuthorityInfo)
    → for_none sh qs (for_none sh ps queue) ≡ for_none sh (ps ++ qs) queue
for_none-append sh ps qs queue =
    keep-keep (λ m. any (λ q. matches_in sh q m) ps) (λ m. not (any (λ q. matches_in sh q m) qs))
      queue
    ∙ keep-ext _ _
        (λ m.
          ap (λ b. not (any (λ q. matches_in sh q m) ps || b))
            (not-not (any (λ q. matches_in sh q m) qs))
          ∙ ap not (any-append (λ q. matches_in sh q m) ps qs))
        queue

not_for-one :
    (sh : ℕ → Shape) (p : ℕ) (queue : List AllocationAuthorityInfo)
    → not_for sh p queue ≡ for_none sh (p ∷ []) queue
not_for-one sh p queue = keep-ext _ _ (λ m. pick (matches_in sh p m)) queue
  where
    pick : (b : Bool) → not b ≡ not (b || false)
    pick true = refl
    pick false = refl

-- A walk over the plans `ps` takes the messages about them, and changes only cycle managers.
record Takes (ps : List ℕ) (s t : Delivery) : Type 0 where
  same : shapes t.world ≡ shapes s.world
  left : t.queue ≡ for_none (shapes s.world) ps s.queue

nothing-Takes : (s : Delivery) → Takes [] s s
nothing-Takes s = record { same = refl; left = sym (for_none-nil (shapes s.world) s.queue) }

then-Takes :
    (ps qs : List ℕ) (s t u : Delivery) → Takes ps s t → Takes qs t u → Takes (ps ++ qs) s u
then-Takes ps qs s t u h k = record {
  same = k.same ∙ h.same;
  left =
      k.left
      ∙ ap (λ sh. for_none sh qs t.queue) h.same
      ∙ ap (for_none (shapes s.world) qs) h.left
      ∙ for_none-append (shapes s.world) ps qs s.queue;
}

module _ (increase decrease : ℕ → ℕ) (greater : ℕ → ℕ → Bool) (now me : ℕ) (may_send : Bool) where
  shout-Takes :
      (p : ℕ) (s : Delivery) → Takes [] s (shout increase decrease greater now me may_send p s)
  unfolding shout send_allocation
  shout-Takes p s =
      pick (needs_sending now (s.world.plan_at p).cycle_management)
        (send_allocation increase decrease greater now me may_send p s) (sends may_send)
    where
      sends : (b : Bool) → Takes [] s (send_allocation increase decrease greater now me b p s)
      sends true = record { same = refl; left = sym (for_none-nil (shapes s.world) s.queue) }
      sends false = nothing-Takes s

      pick :
          (b : Bool) (t : Delivery)
          → Takes [] s t
          → Takes [] s (
              if b
              then record t {
                world =
                    modify p
                      (λ r. record r { cycle_management = sent now r.cycle_management })
                      t.world;
              }
              else s)
      pick true t h = record {
        same = shapes-modify p (λ r. sent now r.cycle_management) t.world ∙ h.same;
        left = h.left;
      }
      pick false t h = nothing-Takes s

  deliver-Takes :
      (p : ℕ) (s : Delivery)
      → Takes (p ∷ []) s (deliver increase decrease greater now me may_send p s)
  deliver-Takes p s = record {
    same =
        ap (λ t. shapes t.world) (deliver-for_plan increase decrease greater now me may_send p s)
        ∙ hand_each-shapes increase decrease greater now me may_send p
            (for_plan (shapes s.world) p s.queue) s;
    left =
        ap (λ t. t.queue) (deliver-for_plan increase decrease greater now me may_send p s)
        ∙ not_for-one (shapes s.world) p s.queue;
  }

  each-Takes :
      (f : ℕ → Delivery → Delivery) (F : (ℕ → Shape) → ℕ → List ℕ)
      → ((c : ℕ) (s : Delivery) → Takes (F (shapes s.world) c) s (f c s))
      → (cs : List ℕ) (s : Delivery)
      → Takes
          (visited_each (F (shapes s.world)) cs)
          s
          (for_each increase decrease greater now me may_send f cs s)
  each-Takes f F h [] s = nothing-Takes s
  each-Takes f F h (c ∷ cs) s =
      let rest = for_each increase decrease greater now me may_send f cs (f c s) in
      subst (λ sh. Takes (F (shapes s.world) c ++ visited_each (F sh) cs) s rest) (h c s).same
        (then-Takes (F (shapes s.world) c) (visited_each (F (shapes (f c s).world)) cs) s (f c s)
          rest (h c s) (each-Takes f F h cs (f c s)))

  process_plan-Takes :
      (d p : ℕ) (s : Delivery)
      → Takes
          (visited d (shapes s.world) p)
          s
          (process_plan increase decrease greater now me may_send d p s)
  unfolding process_plan visited
  process_plan-Takes zero p s = nothing-Takes s
  process_plan-Takes (suc d) p s = pick (s.world.plan_at p).behaviour (
      subst
        (λ sh.
          Takes (p ∷ visited_each (visited d sh) (sh p).children) s
            (walked (s'.world.plan_at p).children))
        before.same
        (then-Takes (p ∷ [])
          (visited_each (visited d (shapes s'.world)) (s'.world.plan_at p).children) s s'
          (walked (s'.world.plan_at p).children) before
          (each-Takes (process_plan increase decrease greater now me may_send d) (visited d)
            (process_plan-Takes d) (s'.world.plan_at p).children s')))
    where
      s' : Delivery
      s' =
          deliver increase decrease greater now me may_send p
            (shout increase decrease greater now me may_send p s)

      before : Takes (p ∷ []) s s'
      before =
          then-Takes [] (p ∷ []) s (shout increase decrease greater now me may_send p s) s'
            (shout-Takes p s)
            (deliver-Takes p (shout increase decrease greater now me may_send p s))

      walked : List ℕ → Delivery
      walked cs =
          for_each increase decrease greater now me may_send
            (process_plan increase decrease greater now me may_send d) cs s'

      pick :
          (b : Bool)
          → Takes
              (p ∷ visited_each (visited d (shapes s.world)) (s.world.plan_at p).children)
              s
              (walked (s'.world.plan_at p).children)
          → Takes
              (if b
                then []
                else p ∷ visited_each (visited d (shapes s.world)) (s.world.plan_at p).children)
              s
              (if b then s else walked (s'.world.plan_at p).children)
      pick true h = nothing-Takes s
      pick false h = h

  -- The walk through the tree takes from the queue exactly the messages that are about one of the running
  -- plans that it visits; every other message stays, in its order. The plans, their states and their
  -- children are as before.
  pub process_plan-queue :
      (d p : ℕ) (s : Delivery)
      → let t = process_plan increase decrease greater now me may_send d p s in
        (t.queue ≡ for_none (shapes s.world) (visited d (shapes s.world) p) s.queue)
        × (shapes t.world ≡ shapes s.world)
  process_plan-queue d p s = ((process_plan-Takes d p s).left, (process_plan-Takes d p s).same)
