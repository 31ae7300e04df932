-- ===== src/Collections/SuccessMarks/Message.antt =====
-- The marks of collections/SuccessMarks.cpp as the entry point ids of a message, and back.
use mathlib.Core.Path.{subst}
use alica_engine.Common.{
  ℕ, ◌≡◌, ◌≢◌, refl, sym, ◌∙◌, inl, inr, Bool, true, false, ◌&&◌, List, [], ◌∷◌, ◌++◌, map, Option,
  none, some, any, any-append, All, if◌then◌else◌, ◌==◌, arith, Bool-cases, Option-cases, eq_of_==,
  ne_of_==,
}
use alica_engine.Model.{EntryPoint}
use alica_engine.Collections.SuccessMarks.{
  PlanMarks, SuccessMarks, has_entry_point, succeeded_entry_points, push_new, add_found,
  update_loop, update, succeeded, to_id_grp,
}
use alica_engine.Collections.SuccessMarks.Laws.{succeeded-add_found, succeeded-cons}

-- The id names the entry point `f`, for the plan `q`.
abbrev pub names : (ℕ → Option EntryPoint) → ℕ → EntryPoint → ℕ → Bool
names find q f id = elim (find id) [ none ↦ false | some ep ↦ q == ep.plan && f.id == ep.id ]

succeeded-update_loop :
    (find : ℕ → Option EntryPoint) (q : ℕ) (f : EntryPoint) (ids : List ℕ) (m : SuccessMarks)
    → succeeded q f (update_loop find ids m)
      ≡ (if any (names find q f) ids then true else succeeded q f m)
unfolding update_loop
succeeded-update_loop find q f [] m = refl
succeeded-update_loop find q f (id ∷ ids) m = elim (Option-cases (find id)) [
  | inl e ↦ rw (e, names, update_loop) (succeeded-update_loop find q f ids m)
  | inr (ep, e) ↦
      rw (e, names, update_loop)
        (succeeded-update_loop find q f ids (add_found ep m)
          ∙ ground (arith, succeeded-add_found q f ep m))
]

-- After `update` a task is marked exactly when the message holds an id that the repository resolves to
-- it, whatever was marked before.
pub succeeded-update :
    (find : ℕ → Option EntryPoint) (q : ℕ) (f : EntryPoint) (ids : List ℕ)
    → succeeded q f (update find ids) ≡ any (names find q f) ids
unfolding update succeeded succeeded_entry_points
succeeded-update find q f ids = ground (arith, succeeded-update_loop find q f ids [])

-- The plan of each mark's entry points is the mark's, and the repository holds them.
abbrev pub IsFiled : (ℕ → Option EntryPoint) → PlanMarks → Type 0
IsFiled find x = All (λ e. (e.plan ≡ x.plan) × (find e.id ≡ some e)) x.entry_points

-- No plan has two entries, and each is filed.
abbrev pub IsWellFormed : (ℕ → Option EntryPoint) → SuccessMarks → Type 0
IsWellFormed find [] = Unit
IsWellFormed find (x ∷ xs) = IsFiled find x × All (λ y. x.plan ≢ y.plan) xs × IsWellFormed find xs

names-filed :
    (find : ℕ → Option EntryPoint) (q : ℕ) (f : EntryPoint) (p : ℕ) (l : List EntryPoint)
    → All (λ e. (e.plan ≡ p) × (find e.id ≡ some e)) l
    → any (names find q f) (map (λ e. e.id) l) ≡ (if p == q then has_entry_point f l else false)
names-filed find q f p [] h = ground arith
names-filed find q f p (e ∷ l) h =
    let there = h.0.1 in
    let same = h.0.0 in rw (there, names) (ground (arith, names-filed find q f p l h.1, same))

not_marked :
    (q : ℕ) (f : EntryPoint) (xs : SuccessMarks)
    → All (λ y. q ≢ y.plan) xs
    → succeeded q f xs ≡ false
unfolding succeeded succeeded_entry_points
not_marked q f [] h = refl
not_marked q f (x ∷ xs) h = ground (arith, h.0, succeeded-cons q f x xs, not_marked q f xs h.1)

succeeded-to_id_grp :
    (find : ℕ → Option EntryPoint) (q : ℕ) (f : EntryPoint) (m : SuccessMarks)
    → IsWellFormed find m
    → any (names find q f) (to_id_grp m) ≡ succeeded q f m
unfolding to_id_grp succeeded succeeded_entry_points
succeeded-to_id_grp find q f [] h = refl
succeeded-to_id_grp find q f (x ∷ xs) (filed, distinct, wf) =
    any-append (names find q f) (map (λ e. e.id) x.entry_points) (to_id_grp xs)
    ∙ elim (Bool-cases (x.plan == q)) [
      | inl same ↦ ground (
        arith,
        names-filed find q f x.plan x.entry_points filed,
        succeeded-to_id_grp find q f xs wf,
        succeeded-cons q f x xs,
        not_marked q f xs (subst (λ p. All (λ y. p ≢ y.plan) xs) (eq_of_== x.plan q same) distinct),
      )
      | inr other ↦ ground (
        arith,
        names-filed find q f x.plan x.entry_points filed,
        succeeded-to_id_grp find q f xs wf,
        succeeded-cons q f x xs,
      )
    ]

-- Sending the marks and reading them again loses nothing: of well-formed marks, each task is marked
-- after `update` with the ids of `toIdGrp` exactly when it was marked before.
pub update-to_id_grp :
    (find : ℕ → Option EntryPoint) (q : ℕ) (f : EntryPoint) (m : SuccessMarks)
    → IsWellFormed find m
    → succeeded q f (update find (to_id_grp m)) ≡ succeeded q f m
update-to_id_grp find q f m wf =
    succeeded-update find q f (to_id_grp m) ∙ succeeded-to_id_grp find q f m wf

push_new-IsFiled :
    (find : ℕ → Option EntryPoint) (p : ℕ) (e : EntryPoint) (l : List EntryPoint)
    → e.plan ≡ p
    → find e.id ≡ some e
    → All (λ x. (x.plan ≡ p) × (find x.id ≡ some x)) l
    → All (λ x. (x.plan ≡ p) × (find x.id ≡ some x)) (push_new e l)
push_new-IsFiled find p e l plan at h = elim (Bool-cases (has_entry_point e l)) [
  | inl old ↦ rw old h
  | inr new ↦ rw new (at_end l h)
]
  where
    at_end :
        (l : List EntryPoint)
        → All (λ x. (x.plan ≡ p) × (find x.id ≡ some x)) l
        → All (λ x. (x.plan ≡ p) × (find x.id ≡ some x)) (l ++ e ∷ [])
    at_end [] h = ((plan, at), tt)
    at_end (x ∷ l) h = (h.0, at_end l h.1)

add_found-other :
    (k : ℕ) (e : EntryPoint) (xs : SuccessMarks)
    → k ≢ e.plan
    → All (λ y. k ≢ y.plan) xs
    → All (λ y. k ≢ y.plan) (add_found e xs)
unfolding add_found
add_found-other k e [] ne h = (ne, tt)
add_found-other k e (x ∷ xs) ne h = elim (Bool-cases (x.plan == e.plan)) [
  | inl same ↦ rw (same, add_found) h
  | inr other ↦ rw (other, add_found) (h.0, add_found-other k e xs ne h.1)
]

add_found-IsWellFormed :
    (find : ℕ → Option EntryPoint) (e : EntryPoint) (m : SuccessMarks)
    → find e.id ≡ some e
    → IsWellFormed find m
    → IsWellFormed find (add_found e m)
unfolding add_found
add_found-IsWellFormed find e [] at h = (((refl, at), tt), tt, tt)
add_found-IsWellFormed find e (x ∷ xs) at (filed, distinct, wf) =
    elim (Bool-cases (x.plan == e.plan)) [
      | inl same ↦
          rw (same, add_found)
            (
              push_new-IsFiled find x.plan e x.entry_points (sym (eq_of_== x.plan e.plan same)) at
                  filed,
              distinct,
              wf,
            )
      | inr other ↦
          rw (other, add_found)
            (
              filed,
              add_found-other x.plan e xs (ne_of_== x.plan e.plan other) distinct,
              add_found-IsWellFormed find e xs at wf,
            )
    ]

update_loop-IsWellFormed :
    (find : ℕ → Option EntryPoint) (ids : List ℕ) (m : SuccessMarks)
    → ((id : ℕ) (e : EntryPoint) → find id ≡ some e → find e.id ≡ some e)
    → IsWellFormed find m
    → IsWellFormed find (update_loop find ids m)
unfolding update_loop
update_loop-IsWellFormed find [] m by_id h = h
update_loop-IsWellFormed find (id ∷ ids) m by_id h = elim (Option-cases (find id)) [
  | inl e ↦ rw (e, update_loop) (update_loop-IsWellFormed find ids m by_id h)
  | inr (ep, e) ↦
      rw (e, update_loop)
        (update_loop-IsWellFormed find ids (add_found ep m) by_id
          (add_found-IsWellFormed find ep m (by_id id ep e) h))
]

-- The marks that `update` reads from a message are well-formed, where the repository finds an entry
-- point that it knows by the entry point's own id.
pub update-IsWellFormed :
    (find : ℕ → Option EntryPoint) (ids : List ℕ)
    → ((id : ℕ) (e : EntryPoint) → find id ≡ some e → find e.id ≡ some e)
    → IsWellFormed find (update find ids)
unfolding update
update-IsWellFormed find ids by_id = update_loop-IsWellFormed find ids [] by_id tt
