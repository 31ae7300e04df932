-- ===== src/TeamObserver/Roundtrip.antt =====
-- What one agent tells of its plans (RunningPlan::toMessage) and another understands
-- (TeamObserver::sptFromMessage).
use mathlib.Core.List.{append-nil, append_assoc}
use alica_engine.Common.{
  ℕ, zero, suc, ◌+◌, ◌≡◌, refl, sym, ap, ◌∙◌, Bool, true, false, ◌||◌, List, [], ◌∷◌, ◌++◌, Option,
  none, some, length, get_elem?, if◌then◌else◌, length-append, ltb,
}
use alica_engine.Common.Int.{ℤ, pos}
use alica_engine.Model.{State}
use alica_engine.RunningPlan.{World, is_retired}
use alica_engine.RunningPlan.Message.{
  open_, close, Told, push, note_depth, tell_each, tell_children, tell_state, to_message,
}
use alica_engine.TeamObserver.{
  SimplePlanTree, Received, tree, parent_of, read_ids, spt_from_message,
}

-- A tree of states. A running plan whose children have no states is a node without any.
mutual
  pub data Tree : Type 0 where
    leaf : ℕ → Tree
    node : ℕ → Forest → Tree

  pub data Forest : Type 0 where
    nil : Forest
    cons : Tree → Forest → Forest

-- The ids of a tree, and then those that follow.
unfoldable mutual
  pub onto : Tree → List ℤ → List ℤ
  onto (leaf s) rest = pos s ∷ rest
  onto (node s f) rest = pos s ∷ open_ ∷ forest_onto f (close ∷ rest)

  pub forest_onto : Forest → List ℤ → List ℤ
  forest_onto nil rest = rest
  forest_onto (cons t f) rest = onto t (forest_onto f rest)

-- Every state of the tree is known to the receiver.
unfoldable mutual
  pub Known : (ℤ → Option State) → (ℕ → State) → Tree → Type 0
  Known find_state state (leaf s) = find_state (pos s) ≡ some (state s)
  Known find_state state (node s f) =
      (find_state (pos s) ≡ some (state s)) × KnownForest find_state state f

  pub KnownForest : (ℤ → Option State) → (ℕ → State) → Forest → Type 0
  KnownForest find_state state nil = Unit
  KnownForest find_state state (cons t f) =
      Known find_state state t × KnownForest find_state state f

abbrev pub join : Forest → Forest → Forest
join nil g = g
join (cons t f) g = cons t (join f g)

abbrev shown_each : (ℕ → Forest) → List ℕ → Forest
shown_each f [] = nil
shown_each f (c ∷ cs) = join (f c) (shown_each f cs)

abbrev shown_at : (ℕ → Forest) → List ℕ → ℕ → Tree
shown_at f [] s = leaf s
shown_at f (c ∷ cs) s = node s (shown_each f (c ∷ cs))

abbrev shown_in : (ℕ → Forest) → List ℕ → Option ℕ → Forest
shown_in f cs none = nil
shown_in f cs (some s) = cons (shown_at f cs s) nil

-- The states of a tree of running plans: behaviours, retired running plans and those without a state
-- do not show.
unfoldable pub shown : ℕ → World → ℕ → Forest
shown zero w p = nil
shown (suc d) w p =
    let here = shown_in (shown d w) (w.plan_at p).children (w.plan_at p).state in
    if (w.plan_at p).behaviour || is_retired (w.plan_at p) then nil else here

forest_onto-join :
    (f g : Forest) (rest : List ℤ)
    → forest_onto (join f g) rest ≡ forest_onto f (forest_onto g rest)
unfolding forest_onto
forest_onto-join nil g rest = refl
forest_onto-join (cons t f) g rest = ap (onto t) (forest_onto-join f g rest)

-- A teller that adds to the message what `F` shows.
abbrev Tells : (ℕ → Told → Told) → (ℕ → Forest) → Type 0
Tells f F =
    (p : ℕ) (t : Told) (rest : List ℤ)
    → (f p t).message ++ rest ≡ t.message ++ forest_onto (F p) rest

each-Tells :
    (f : ℕ → Told → Told) (F : ℕ → Forest)
    → Tells f F
    → (cs : List ℕ) (t : Told) (rest : List ℤ)
    → (tell_each f cs t).message ++ rest ≡ t.message ++ forest_onto (shown_each F cs) rest
unfolding forest_onto
each-Tells f F h [] t rest = refl
each-Tells f F h (c ∷ cs) t rest =
    each-Tells f F h cs (f c t) rest
    ∙ h c t (forest_onto (shown_each F cs) rest)
    ∙ ap (λ x. t.message ++ x) (sym (forest_onto-join (F c) (shown_each F cs) rest))

children-Tells :
    (f : ℕ → Told → Told) (F : ℕ → Forest)
    → Tells f F
    → (cs : List ℕ) (s : ℕ) (t u : Told) (rest : List ℤ) → u.message ≡ t.message ++ pos s ∷ []
    → (tell_children f cs u).message ++ rest ≡ t.message ++ onto (shown_at F cs s) rest
unfolding onto
children-Tells f F h [] s t u rest e = ap (λ m. m ++ rest) e ∙ append_assoc t.message _ rest
children-Tells f F h (c ∷ cs) s t u rest e =
    append_assoc (tell_each f (c ∷ cs) (push open_ u)).message (close ∷ []) rest
    ∙ each-Tells f F h (c ∷ cs) (push open_ u) (close ∷ rest)
    ∙ append_assoc u.message (open_ ∷ []) _
    ∙ ap (λ m. m ++ open_ ∷ forest_onto (shown_each F (c ∷ cs)) (close ∷ rest)) e
    ∙ append_assoc t.message (pos s ∷ []) _

note_depth-message : (p k : ℕ) (t : Told) → (note_depth p k t).message ≡ t.message
note_depth-message p k t = pick (ltb t.depth k)
  where
    pick :
        (b : Bool) → (if b then record t { deepest_node = p; depth = k } else t).message ≡ t.message
    pick true = refl
    pick false = refl

state-Tells :
    (f : ℕ → Told → Told) (F : ℕ → Forest)
    → Tells f F
    → (p k : ℕ) (s : Option ℕ) (cs : List ℕ) (t : Told) (rest : List ℤ)
    → (tell_state f p k s cs t).message ++ rest ≡ t.message ++ forest_onto (shown_in F cs s) rest
unfolding forest_onto
state-Tells f F h p k none cs t rest = refl
state-Tells f F h p k (some s) cs t rest =
    children-Tells f F h cs s t (note_depth p k (push (pos s) t)) rest
      (note_depth-message p k (push (pos s) t))

to_message-Tells : (d : ℕ) (w : World) (k : ℕ) → Tells (to_message d w k) (shown d w)
unfolding to_message shown forest_onto
to_message-Tells zero w k p t rest = refl
to_message-Tells (suc d) w k p t rest =
    pick ((w.plan_at p).behaviour || is_retired (w.plan_at p))
      (tell_state (to_message d w (k + 1)) p k (w.plan_at p).state (w.plan_at p).children t)
      (shown_in (shown d w) (w.plan_at p).children (w.plan_at p).state)
      (state-Tells (to_message d w (k + 1)) (shown d w) (to_message-Tells d w (k + 1)) p k
        (w.plan_at p).state (w.plan_at p).children t rest)
  where
    pick :
        (b : Bool) (u : Told) (F : Forest)
        → u.message ++ rest ≡ t.message ++ forest_onto F rest
        → (if b then t else u).message ++ rest
          ≡ t.message ++ forest_onto (if b then nil else F) rest
    pick true u F h = refl
    pick false u F h = h

-- The nodes of a tree in preorder, numbered from `n` on, each with the number of its parent.
unfoldable mutual
  pub preorder : (ℕ → State) → Option ℕ → ℕ → Tree → List SimplePlanTree
  preorder state q n (leaf s) = record { state = state s; parent = q } ∷ []
  preorder state q n (node s f) =
      record { state = state s; parent = q } ∷ preorder_forest state (some n) (n + 1) f

  pub preorder_forest : (ℕ → State) → Option ℕ → ℕ → Forest → List SimplePlanTree
  preorder_forest state q n nil = []
  preorder_forest state q n (cons t f) =
      preorder state q n t ++ preorder_forest state q (n + length (preorder state q n t)) f

at_end :
    (xs ys : List SimplePlanTree) (x : SimplePlanTree)
    → get_elem? ((xs ++ x ∷ []) ++ ys) (length xs) ≡ some x
at_end [] ys x = refl
at_end (y ∷ xs) ys x = at_end xs ys x

parent_of-at_end :
    (xs ys : List SimplePlanTree) (s : State) (q : Option ℕ)
    → parent_of (length xs) ((xs ++ record { state = s; parent = q } ∷ []) ++ ys) ≡ q
parent_of-at_end xs ys s q =
    ap (λ (o : Option SimplePlanTree). elim o [ none ↦ none | some n ↦ n.parent ])
      (at_end xs ys (record { state = s; parent = q }))

module _ (find_state : ℤ → Option State) (state : ℕ → State) where
  abbrev made : ℕ → Option ℕ → SimplePlanTree
  made s q = record { state = state s; parent = q }

  read-pos :
      (s q : ℕ) (rest : List ℤ) (nodes : List SimplePlanTree) (cur : Option ℕ)
      → find_state (pos s) ≡ some (state s)
      → read_ids find_state (pos s ∷ rest) nodes cur (some q)
        ≡ read_ids find_state rest (nodes ++ made s (some q) ∷ []) (some (length nodes)) (some q)
  unfolding read_ids
  read-pos s q rest nodes cur known =
      ap
        (λ (o : Option State). elim o [
          | none ↦ Received.rejected
          | some x ↦
              read_ids find_state rest (nodes ++ record { state = x; parent = some q } ∷ [])
                (some (length nodes)) (some q)
        ])
        known

  mutual
    unfolding read_ids onto forest_onto preorder preorder_forest Known KnownForest

    read-tree :
        (t : Tree) (q : ℕ) (rest : List ℤ) (nodes : List SimplePlanTree) (cur : Option ℕ)
        → Known find_state state t
        → read_ids find_state (onto t rest) nodes cur (some q)
          ≡ read_ids find_state rest
              (nodes ++ preorder state (some q) (length nodes) t)
              (some (length nodes))
              (some q)
    read-tree (leaf s) q rest nodes cur known = read-pos s q rest nodes cur known
    read-tree (node s f) q rest nodes cur known =
        let n = length nodes in
        let nodes1 = nodes ++ made s (some q) ∷ [] in
        let below = preorder_forest state (some n) (length nodes1) f in
        read-pos s q (open_ ∷ forest_onto f (close ∷ rest)) nodes cur known.0
        ∙ read-forest f n rest nodes1 none known.1
        ∙ ap (λ o. read_ids find_state rest (nodes1 ++ below) (some n) o)
            (parent_of-at_end nodes below (state s) (some q))
        ∙ ap (λ ns. read_ids find_state rest ns (some n) (some q))
            (append_assoc nodes (made s (some q) ∷ []) below
              ∙ ap (λ k. nodes ++ made s (some q) ∷ preorder_forest state (some n) k f)
                  (length-append nodes (made s (some q) ∷ [])))

    read-forest :
        (f : Forest) (n : ℕ) (rest : List ℤ) (nodes : List SimplePlanTree) (cur : Option ℕ)
        → KnownForest find_state state f
        → read_ids find_state (forest_onto f (close ∷ rest)) nodes cur (some n)
          ≡ read_ids find_state rest
              (nodes ++ preorder_forest state (some n) (length nodes) f)
              (some n)
              (parent_of n (nodes ++ preorder_forest state (some n) (length nodes) f))
    read-forest nil n rest nodes cur known =
        ap (λ ns. read_ids find_state rest ns (some n) (parent_of n ns)) (sym (append-nil nodes))
    read-forest (cons t f) n rest nodes cur known =
        let first = preorder state (some n) (length nodes) t in
        read-tree t n (forest_onto f (close ∷ rest)) nodes cur known.0
        ∙ read-forest f n rest (nodes ++ first) (some (length nodes)) known.1
        ∙ ap (λ ns. read_ids find_state rest ns (some n) (parent_of n ns))
            (append_assoc nodes first _
              ∙ ap (λ k. nodes ++ (first ++ preorder_forest state (some n) k f))
                  (length-append nodes first))

  root-tree :
      (t : Tree)
      → Known find_state state t
      → spt_from_message find_state (onto t []) ≡ tree (preorder state none 0 t)
  unfolding spt_from_message onto preorder read_ids Known
  root-tree (leaf s) known = ap first_node known
    where
      first_node : Option State → Received
      first_node none = Received.rejected
      first_node (some x) = tree (record { state = x; parent = none } ∷ [])
  root-tree (node s f) known =
      ap
        (λ (o : Option State). elim o [
          | none ↦ Received.rejected
          | some x ↦
              read_ids find_state (open_ ∷ forest_onto f (close ∷ []))
                (record { state = x; parent = none } ∷ []) (some 0) none
        ])
        known.0
      ∙ read-forest f 0 [] (made s none ∷ []) none known.1

abbrev pub untold : ℕ → Told
untold p = record { message = []; deepest_node = p; depth = 0 }

-- An agent understands what another one tells: the message about a tree of running plans whose states
-- form the tree `t` is received as the nodes of `t` in preorder, each with its parent, if the receiver
-- knows every state of it.
pub spt_from_message-to_message :
    (find_state : ℤ → Option State) (state : ℕ → State) (d p : ℕ) (w : World) (t : Tree)
    → Known find_state state t
    → shown d w p ≡ cons t nil
    → spt_from_message find_state (to_message d w 0 p (untold p)).message
      ≡ tree (preorder state none 0 t)
unfolding forest_onto
spt_from_message-to_message find_state state d p w t known shows =
    ap (spt_from_message find_state) (
      sym (append-nil (to_message d w 0 p (untold p)).message)
      ∙ to_message-Tells d w 0 p (untold p) []
      ∙ ap (λ F. forest_onto F []) shows)
    ∙ root-tree find_state state t known
