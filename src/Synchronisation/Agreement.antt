-- ===== src/Synchronisation/Agreement.antt =====
-- What it means that a synchronisation of syncmodule/Synchronisation.cpp is ready.
use mathlib.Core.Bool.{false≢true}
use alica_engine.Common.{
  ℕ, suc, ◌+◌, ◌≡◌, refl, sym, ap, ◌∙◌, inl, inr, true, ◌&&◌, List, [], ◌∷◌, ◌++◌, Option, none,
  some, contains, get_elem?, any-append, All, if◌then◌else◌, ◌==◌, arith, Bool-cases, Option-cases,
  eq_of_==,
}
use alica_engine.Synchronisation.{
  SyncRow, Synchronisation, own_row, find_holding, collect, all_acknowledged, is_sync_complete,
}

-- Some agent believes in the condition of the transition, and is among those that have acknowledged.
abbrev pub Backed : List SyncRow → List ℕ → ℕ → Type 0
Backed m received_by t =
    (j : ℕ) × (row : SyncRow) × (get_elem? m j ≡ some row)
    × (row.sync_data.transition_id ≡ t)
    × (row.sync_data.condition_holds ≡ true)
    × (contains row.sync_data.robot_id received_by ≡ true)

-- The agent has a row of its own, and for every transition some agent that has acknowledged this row
-- believes in the transition's condition.
abbrev pub Agreed : Synchronisation → Type 0
Agreed s =
    (row : SyncRow) × (own_row s.my_row s.sync_matrix ≡ some row)
    × All (Backed s.sync_matrix row.received_by) s.connected_transitions

-- The row with an index.
abbrev Row : List SyncRow → ℕ → Type 0
Row m j = (row : SyncRow) × (get_elem? m j ≡ some row)

none_is_not_some {ℓ} : {A : Type ℓ} {x : A} → ◌≡◌ {A = Option A} none (some x) → ⊥
none_is_not_some h = cc

find_holding_sound :
    (t : ℕ) (m : List SyncRow) (i j : ℕ)
    → find_holding t m i ≡ some j
    → (k : ℕ) × (j ≡ i + k)
      × ((row : SyncRow) × (get_elem? m k ≡ some row)
          × (row.sync_data.transition_id ≡ t)
          × (row.sync_data.condition_holds ≡ true))
unfolding find_holding
find_holding_sound t [] i j h = absurd (cc)
find_holding_sound t (row ∷ m) i j h =
    elim (Bool-cases (row.sync_data.transition_id == t && row.sync_data.condition_holds)) [
      | inl yes_ ↦ (0, ground arith, (row, refl, ground arith, ground arith))
      | inr no_ ↦
          let (k, at, found) = find_holding_sound t m (suc i) j (ground arith) in
          (suc k, omega arith, found)
    ]

all_acknowledged_sound :
    (is : List ℕ) (m : List SyncRow) (received_by : List ℕ) (i : ℕ) (row : SyncRow)
    → all_acknowledged is m received_by ≡ true
    → contains i is ≡ true
    → get_elem? m i ≡ some row
    → contains row.sync_data.robot_id received_by ≡ true
unfolding all_acknowledged
all_acknowledged_sound [] m received_by i row h member at = absurd (cc)
all_acknowledged_sound (k ∷ is) m received_by i row h member at =
    elim (Option-cases (get_elem? m k)) [
      | inl out ↦ absurd (false≢true (rw (all_acknowledged, out) at h))
      | inr (r, here) ↦ elim (Bool-cases (contains r.sync_data.robot_id received_by)) [
        | inr not_ ↦ absurd (false≢true (rw (all_acknowledged, here, not_) at h))
        | inl acked ↦
            let rest : all_acknowledged is m received_by ≡ true =
              rw (all_acknowledged, here, acked) at h in
            elim (Bool-cases (k == i)) [
              | inl same ↦
                  let at' : some r ≡ some row =
                    sym here ∙ ap (get_elem? m) (eq_of_== k i same) ∙ at in
                  let eq : r ≡ row = cc in rw (← eq) acked
              | inr other ↦ all_acknowledged_sound is m received_by i row rest (ground arith) at
            ]
      ]
    ]

abbrev pub push_once : ℕ → List ℕ → List ℕ
push_once i ok = if contains i ok then ok else ok ++ i ∷ []

pub contains-push_once :
    (k i : ℕ) (ok : List ℕ) → contains k (push_once i ok) ≡ (if k == i then true else contains k ok)
contains-push_once k i ok = elim (Bool-cases (k == i)) [
  | inl same ↦ rw (same, eq_of_== k i same) (ground (arith, any-append (λ x. x == i) ok (i ∷ [])))
  | inr other ↦ ground (arith, any-append (λ x. x == k) ok (i ∷ []))
]

collect-keeps :
    (ts : List ℕ) (m : List SyncRow) (ok rows_ok : List ℕ) (i : ℕ)
    → collect ts m ok ≡ some rows_ok
    → contains i ok ≡ true
    → contains i rows_ok ≡ true
unfolding collect
collect-keeps [] m ok rows_ok i h member = let eq : ok ≡ rows_ok = cc in rw (← eq) member
collect-keeps (t ∷ ts) m ok rows_ok i h member = elim (Option-cases (find_holding t m 0)) [
  | inl out ↦ absurd (none_is_not_some (rw (collect, out) at h))
  | inr (k, at) ↦
      collect-keeps ts m (push_once k ok) rows_ok i (rw (collect, at) at h)
        (ground (arith, contains-push_once i k ok))
]

collect-Backed :
    (ts : List ℕ) (m : List SyncRow) (ok rows_ok received_by : List ℕ)
    → collect ts m ok ≡ some rows_ok
    → all_acknowledged rows_ok m received_by ≡ true
    → All (Backed m received_by) ts
unfolding collect
collect-Backed [] m ok rows_ok received_by h acked = tt
collect-Backed (t ∷ ts) m ok rows_ok received_by h acked =
    elim (Option-cases (find_holding t m 0)) [
      | inl out ↦ absurd (none_is_not_some (rw (collect, out) at h))
      | inr (k, at) ↦
          let rest : collect ts m (push_once k ok) ≡ some rows_ok = rw (collect, at) at h in
          let (j, eq, (row, here, tr, holds)) = find_holding_sound t m 0 k at in
          let member : contains j rows_ok ≡ true =
            collect-keeps ts m (push_once k ok) rows_ok j rest
              (ground (arith, contains-push_once j k ok)) in
          (
            (
              j,
              row,
              here,
              tr,
              holds,
              all_acknowledged_sound rows_ok m received_by j row acked member here,
            ),
            collect-Backed ts m (push_once k ok) rows_ok received_by rest acked,
          )
    ]

-- When the synchronisation counts as complete, the agents agree.
pub is_sync_complete-Agreed : (s : Synchronisation) → is_sync_complete s ≡ true → Agreed s
unfolding is_sync_complete
is_sync_complete-Agreed s h =
    elim (Option-cases (collect s.connected_transitions s.sync_matrix [])) [
      | inl out ↦ absurd (false≢true (rw (is_sync_complete, out) at h))
      | inr (rows_ok, collected) ↦ elim (Option-cases (own_row s.my_row s.sync_matrix)) [
        | inl alone ↦ absurd (false≢true (rw (is_sync_complete, collected, alone) at h))
        | inr (row, own) ↦
            let acked : all_acknowledged rows_ok s.sync_matrix row.received_by ≡ true =
              rw (is_sync_complete, collected, own) at h in
            (
              row,
              own,
              collect-Backed s.connected_transitions s.sync_matrix [] rows_ok row.received_by
                  collected acked,
            )
      ]
    ]
