-- ===== src/AuthorityManager/Queue.antt =====
-- AuthorityManager::processPlan: which running plans the messages of the queue are given to.
use mathlib.Core.Path.{fun_ext}
use mathlib.Core.List.{append_assoc}
use alica_engine.Common.{
  ℕ, ◌+◌, ◌≡◌, refl, sym, ap, ◌∙◌, Bool, true, false, ◌&&◌, ◌||◌, not, List, [], ◌∷◌, ◌++◌, Option,
  none, some, length, get_elem?, remove_at, keep, if◌then◌else◌, ◌==◌, length-append,
}
use alica_engine.Authority.CycleManager.{
  CycleManager, AllocationAuthorityInfo, handle_authority_info,
}
use alica_engine.RunningPlan.{RunningPlan, World, is_retired, modify}
use alica_engine.AuthorityManager.{
  Delivery, is_none, same_context, is_opt_id, authority_matches_plan, hand_over, deliver_loop,
  deliver, interval_at,
}

-- What the search for the running plans of a message reads.
pub record Shape : Type 0 where
  pub plan : Option ℕ
  pub state : Option ℕ
  pub parent : Option ℕ
  pub plan_type : Option ℕ
  pub retired : Bool
  pub behaviour : Bool
  pub children : List ℕ

abbrev pub shape : RunningPlan → Shape
shape r = record {
  plan = r.plan;
  state = r.state;
  parent = r.parent;
  plan_type = r.plan_type;
  retired = is_retired r;
  behaviour = r.behaviour;
  children = r.children;
}

abbrev pub shapes : World → ℕ → Shape
shapes w q = shape (w.plan_at q)

abbrev pub matches_in : (ℕ → Shape) → ℕ → AllocationAuthorityInfo → Bool
matches_in sh p aai =
    not (sh p).retired
    && (same_context aai (sh p).parent (λ q. (sh q).state)
        && (is_opt_id aai.plan_id (sh p).plan
            || (not (is_none aai.plan_type) && is_opt_id aai.plan_type (sh p).plan_type)))

-- A new cycle manager does not change what the search reads.
pub shapes-modify :
    (p : ℕ) (f : RunningPlan → CycleManager) (w : World)
    → shapes (modify p (λ r. record r { cycle_management = f r }) w) ≡ shapes w
unfolding modify
shapes-modify p f w = fun_ext (λ q. pick q (q == p))
  where
    pick :
        (q : ℕ) (b : Bool)
        → shape
            (if b then record (w.plan_at q) { cycle_management = f (w.plan_at q) } else w.plan_at q)
          ≡ shape (w.plan_at q)
    pick q true = refl
    pick q false = refl

module _ (increase decrease : ℕ → ℕ) (greater : ℕ → ℕ → Bool) (now me : ℕ) (may_send : Bool) where
  -- The messages are given to a running plan one after the other.
  abbrev pub hand_each : ℕ → List AllocationAuthorityInfo → Delivery → Delivery
  hand_each p [] s = s
  hand_each p (m ∷ ms) s =
      hand_each p ms (hand_over increase decrease greater now me may_send p m s)

  hand_over-shapes :
      (p : ℕ) (m : AllocationAuthorityInfo) (s : Delivery)
      → shapes (hand_over increase decrease greater now me may_send p m s).world ≡ shapes s.world
  unfolding hand_over
  hand_over-shapes p m s =
      shapes-modify p
        (λ x.
          (handle_authority_info increase decrease greater now m
            (s.world.plan_at p).cycle_management
            (interval_at (s.world.plan_at p).plan s.interval_of)).0)
        s.world

  pub hand_each-shapes :
      (p : ℕ) (ms : List AllocationAuthorityInfo) (s : Delivery)
      → shapes (hand_each p ms s).world ≡ shapes s.world
  hand_each-shapes p [] s = refl
  hand_each-shapes p (m ∷ ms) s =
      hand_each-shapes p ms (hand_over increase decrease greater now me may_send p m s)
      ∙ hand_over-shapes p m s

-- The messages for a running plan, and the others, each in the order of the queue.
abbrev pub for_plan : (ℕ → Shape) → ℕ → List AllocationAuthorityInfo → List AllocationAuthorityInfo
for_plan sh p = keep (matches_in sh p)

abbrev pub not_for : (ℕ → Shape) → ℕ → List AllocationAuthorityInfo → List AllocationAuthorityInfo
not_for sh p = keep (λ m. not (matches_in sh p m))

at_length {ℓ} :
    {A : Type ℓ} (pre : List A) (m : A) (post : List A)
    → get_elem? (pre ++ m ∷ post) (length pre) ≡ some m
at_length [] m post = refl
at_length (x ∷ pre) m post = at_length pre m post

remove_at-length {ℓ} :
    {A : Type ℓ} (pre : List A) (m : A) (post : List A)
    → remove_at (pre ++ m ∷ post) (length pre) ≡ pre ++ post
remove_at-length [] m post = refl
remove_at-length (x ∷ pre) m post = ap (λ l. x ∷ l) (remove_at-length pre m post)

module _ (increase decrease : ℕ → ℕ) (greater : ℕ → ℕ → Bool) (now me : ℕ) (may_send : Bool) where
  abbrev given : ℕ → List AllocationAuthorityInfo → Delivery → Delivery
  given = hand_each increase decrease greater now me may_send

  abbrev hand : ℕ → AllocationAuthorityInfo → Delivery → Delivery
  hand = hand_over increase decrease greater now me may_send

  abbrev loop : ℕ → ℕ → ℕ → Delivery → Delivery
  loop = deliver_loop increase decrease greater now me may_send

  -- The loop when the part `pre` of the queue has been passed over.
  loop-split :
      (p : ℕ) (post pre : List AllocationAuthorityInfo) (s : Delivery)
      → loop (length post) (length pre) p (record s { queue = pre ++ post })
        ≡ record (given p (for_plan (shapes s.world) p post) s) {
          queue = pre ++ not_for (shapes s.world) p post;
        }
  unfolding deliver_loop authority_matches_plan
  loop-split p [] pre s = refl
  loop-split p (m ∷ post) pre s =
      ap (body (remove_at (pre ++ m ∷ post) (length pre))) (at_length pre m post)
      ∙ ap (λ q. body q (some m)) (remove_at-length pre m post)
      ∙ pick (matches_in (shapes s.world) p m)
          (loop-split p post pre (hand p m s)
            ∙ ap
                (λ sh. record (given p (for_plan sh p post) (hand p m s)) {
                  queue = pre ++ not_for sh p post;
                })
                (hand_over-shapes increase decrease greater now me may_send p m s))
          (ap (λ k. loop (length post) k p (record s { queue = pre ++ m ∷ post }))
              (sym (length-append pre (m ∷ [])))
            ∙ ap (λ q. loop (length post) (length (pre ++ m ∷ [])) p (record s { queue = q }))
                (sym (append_assoc pre (m ∷ []) post))
            ∙ loop-split p post (pre ++ m ∷ []) s
            ∙ ap (λ q. record (given p (for_plan (shapes s.world) p post) s) { queue = q })
                (append_assoc pre (m ∷ []) (not_for (shapes s.world) p post)))
    where
      body : List AllocationAuthorityInfo → Option AllocationAuthorityInfo → Delivery
      body q o = elim o [
        | none ↦ record s { queue = pre ++ m ∷ post }
        | some aai ↦
            if matches_in (shapes s.world) p aai
            then loop (length post) (length pre) p (record (hand p aai s) { queue = q })
            else loop (length post) (length pre + 1) p (record s { queue = pre ++ m ∷ post })
      ]

      pick :
          (b : Bool) {u v : Delivery}
          → u ≡ record (given p (for_plan (shapes s.world) p post) (hand p m s)) {
            queue = pre ++ not_for (shapes s.world) p post;
          }
          → v ≡ record (given p (for_plan (shapes s.world) p post) s) {
            queue = pre ++ m ∷ not_for (shapes s.world) p post;
          }
          → (if b then u else v)
            ≡ record (given p
                (if b
                  then m ∷ for_plan (shapes s.world) p post
                  else for_plan (shapes s.world) p post)
                s) {
                  queue =
                      pre
                      ++ (if not b
                          then m ∷ not_for (shapes s.world) p post
                          else not_for (shapes s.world) p post);
                }
      pick true h k = h
      pick false h k = k

  -- The loop over the queue, which erases as it goes, gives the running plan exactly the messages that
  -- match it, in their order, and leaves exactly the others in the queue, in their order.
  pub deliver-for_plan :
      (p : ℕ) (s : Delivery)
      → deliver increase decrease greater now me may_send p s
        ≡ record (given p (for_plan (shapes s.world) p s.queue) s) {
          queue = not_for (shapes s.world) p s.queue;
        }
  unfolding deliver
  deliver-for_plan p s = loop-split p s.queue [] s
