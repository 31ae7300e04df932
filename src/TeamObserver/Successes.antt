-- ===== src/TeamObserver/Successes.antt =====
-- TeamObserver.cpp: the collections of the successes that the team knows about.
use alica_engine.Common.{ℕ, ◌≡◌, refl, ap, ◌∙◌, List, [], ◌∷◌, map, some, length, arith}
use alica_engine.Model.{Plan}
use alica_engine.Collections.SuccessCollection.{SuccessCollection}
use alica_engine.Collections.SuccessCollection
use alica_engine.TeamManager.{TeamManager}
use alica_engine.TeamObserver.{
  create_success_collection, update_success_collection, set_each, set_others, marks_of, own_marks,
}
use alica_engine.TeamManager.{active_agents}

abbrev no_agents {ℓ} : {A : Type ℓ} → A → List ℕ
no_agents x = []

map-no_agents {ℓ κ} :
    {A : Type ℓ} {B : Type κ} (xs : List A) (ys : List B)
    → length xs ≡ length ys
    → map no_agents xs ≡ map no_agents ys
map-no_agents [] [] e = refl
map-no_agents [] (y ∷ ys) e = absurd (omega arith)
map-no_agents (x ∷ xs) [] e = absurd (omega arith)
map-no_agents (x ∷ xs) (y ∷ ys) e = ap (λ l. [] ∷ l) (map-no_agents xs ys (omega arith))

clear-for_plan :
    (p : Plan) (sc : SuccessCollection)
    → sc.plan ≡ some p
    → length sc.success_data ≡ length p.entry_points
    → SuccessCollection.clear sc ≡ SuccessCollection.for_plan p
unfolding SuccessCollection.clear SuccessCollection.for_plan
clear-for_plan p sc e l =
    ap (λ o. record { plan = o; success_data = map (λ _. []) sc.success_data }) e
    ∙ ap (λ d. record { plan = some p; success_data = d })
        (map-no_agents sc.success_data p.entry_points l)

-- Bringing the collection of a plan up to date gives the collection that would be made anew: nothing of
-- what it held remains.
pub update_success_collection-create :
    (p : Plan) (tm : TeamManager) (sc : SuccessCollection)
    → sc.plan ≡ some p
    → length sc.success_data ≡ length p.entry_points
    → update_success_collection p tm sc ≡ create_success_collection p tm
unfolding update_success_collection create_success_collection
update_success_collection-create p tm sc e l =
    ap
      (λ c.
        set_each tm.local_agent (marks_of p.id (own_marks tm))
          (set_others tm.local_agent p.id (active_agents tm) c))
      (clear-for_plan p sc e l)
