-- ===== src/Synchronisation/Ready.antt =====
-- What it means that syncmodule/Synchronisation.cpp has heard from every agent that it is ready.
use mathlib.Core.Bool.{false≢true}
use alica_engine.Common.{
  ℕ, ◌≡◌, refl, ◌⊎◌, inl, inr, Bool, true, false, List, [], ◌∷◌, Option, none, some, contains,
  get_elem?, All, All-imp, ◌==◌, arith, Bool-cases, eq_of_==,
}
use alica_engine.Synchronisation.{SyncRow, Synchronisation, own_row, all_in, all_sync_ready}
use alica_engine.Synchronisation.Receive.{integrate_sync_ready}
use alica_engine.Synchronisation.Agreement.{push_once, contains-push_once}

-- This agent, or one whose `SyncReady` has come in.
abbrev pub Ready : ℕ → List ℕ → ℕ → Type 0
Ready my_id readys id = (id ≡ my_id) ⊎ (contains id readys ≡ true)

-- The agent has a row of its own, and the test holds for every agent that has acknowledged it.
abbrev pub Acknowledgers : (ℕ → Type 0) → Synchronisation → Type 0
Acknowledgers P s =
    (i : ℕ) × (row : SyncRow) × (s.my_row ≡ some i)
    × (get_elem? s.sync_matrix i ≡ some row)
    × All P row.received_by

-- Every other agent that has acknowledged the own row has sent a `SyncReady`.
abbrev pub AllReady : Synchronisation → Type 0
AllReady s = Acknowledgers (Ready s.my_id s.received_sync_readys) s

all_in-Ready :
    (my_id : ℕ) (robots readys : List ℕ)
    → all_in my_id robots readys ≡ true
    → All (Ready my_id readys) robots
unfolding all_in
all_in-Ready my_id [] readys h = tt
all_in-Ready my_id (r ∷ robots) readys h = elim (Bool-cases (r == my_id)) [
  | inl me ↦ (inl (eq_of_== r my_id me), all_in-Ready my_id robots readys (ground arith))
  | inr other ↦ elim (Bool-cases (contains r readys)) [
    | inl sent_ ↦ (inr sent_, all_in-Ready my_id robots readys (ground arith))
    | inr missing ↦ absurd (false≢true (rw (other, missing, all_in) at h))
  ]
]

pub all_sync_ready-AllReady : (s : Synchronisation) → all_sync_ready s ≡ true → AllReady s
unfolding all_sync_ready own_row
all_sync_ready-AllReady s h = at_row s.my_row refl
  where
    check : Option SyncRow → Bool
    check o = elim o [
      | none ↦ false
      | some row ↦ all_in s.my_id row.received_by s.received_sync_readys
    ]

    with_row :
        (i : ℕ)
        → s.my_row ≡ some i
        → (o : Option SyncRow) → get_elem? s.sync_matrix i ≡ o
        → check o ≡ true
        → AllReady s
    with_row i e none at k = absurd (cc)
    with_row i e (some row) at k =
        (i, row, e, at, all_in-Ready s.my_id row.received_by s.received_sync_readys k)

    at_row : (o : Option ℕ) → s.my_row ≡ o → AllReady s
    at_row none e = absurd (false≢true (rw (e, all_sync_ready, own_row) at h))
    at_row (some i) e =
        with_row i e (get_elem? s.sync_matrix i) refl (rw (e, all_sync_ready, own_row) at h)

-- As before, where a `SyncReady` of the sender comes in.
pub integrate_sync_ready-Acknowledgers :
    (sender : ℕ) (s : Synchronisation)
    → all_sync_ready (integrate_sync_ready sender s).0 ≡ true
    → Acknowledgers (λ id. (id ≡ sender) ⊎ Ready s.my_id s.received_sync_readys id) s
unfolding integrate_sync_ready
integrate_sync_ready-Acknowledgers sender s h =
    let (i, row, e, at, all) = all_sync_ready-AllReady (integrate_sync_ready sender s).0 h in
    (
      i,
      row,
      e,
      at,
      All-imp (Ready s.my_id (push_once sender s.received_sync_readys)) _ heard row.received_by all,
    )
  where
    heard :
        (id : ℕ)
        → Ready s.my_id (push_once sender s.received_sync_readys) id
        → (id ≡ sender) ⊎ Ready s.my_id s.received_sync_readys id
    heard id (inl me) = inr (inl me)
    heard id (inr sent_) = elim (Bool-cases (id == sender)) [
      | inl same ↦ inl (eq_of_== id sender same)
      | inr other ↦ inr (inr (ground (arith, contains-push_once id sender s.received_sync_readys)))
    ]
