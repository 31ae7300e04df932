-- ===== src/Synchronisation/Own.antt =====
-- The own condition and single parts of a talk keep a synchronisation of
-- syncmodule/Synchronisation.cpp safe.
use mathlib.Core.Bool.{false≢true}
use alica_engine.Common.{
  sym, ℕ, ◌≡◌, refl, inl, inr, Bool, true, false, List, [], ◌∷◌, ◌++◌, Option, none, some, length,
  get_elem?, set, any, if◌then◌else◌, Bool-cases, Option-cases,
}
use alica_engine.Synchronisation.{
  SyncData, SyncRow, Synchronisation, Output, own_row, is_sync_complete, all_sync_ready, send_talk,
  send_sync_ready, becomes_ready, announce, change_row, change_own_data, same_data, own_data,
  row_of, unready_unless,
}
use alica_engine.Synchronisation.Receive.{merge, Progress, check_done, integrate_one}
use alica_engine.Synchronisation.Agreement.{is_sync_complete-Agreed}
use alica_engine.Synchronisation.Events.{is_done, ReadyAgreed, Safe}

pub becomes_ready-Safe :
    (now : ℕ) (s : Synchronisation) → is_sync_complete s ≡ true → Safe (becomes_ready now s)
unfolding becomes_ready send_sync_ready
becomes_ready-Safe now s h =
    let agreed = is_sync_complete-Agreed s h in
    elim (Option-cases (own_row s.my_row s.sync_matrix)) [
      | inl e ↦ rw (e, becomes_ready, send_sync_ready) ((λ _. agreed), λ d. absurd (cc))
      | inr (row, e) ↦ rw (e, becomes_ready, send_sync_ready) ((λ _. agreed), λ d. absurd (cc))
    ]

announce-Safe :
    (now : ℕ) (sd : SyncData) (s : Synchronisation) → ReadyAgreed s → Safe (announce now sd s)
unfolding announce send_talk
announce-Safe now sd s h = elim (Bool-cases (is_sync_complete s)) [
  | inl e ↦ rw (e, announce) (becomes_ready-Safe now s e)
  | inr e ↦ rw (e, announce) (h, λ d. absurd (cc))
]

pub if_cases {ℓ κ} :
    {A : Type ℓ} (P : A → Type κ) (b : Bool) (x y : A) → P x → P y → P (if b then x else y)
if_cases P true x y px py = px
if_cases P false x y px py = py

pub unchanged-Safe : (s : Synchronisation) → ReadyAgreed s → Safe (s, [])
unchanged-Safe s h = (h, λ d. absurd (cc))

change_row-Safe :
    (now : ℕ) (sd : SyncData) (r : Option ℕ) (s : Synchronisation)
    → r ≡ s.my_row
    → ReadyAgreed s
    → Safe (change_row now sd r s)
unfolding change_row own_row
change_row-Safe now sd none s e h =
    announce-Safe now sd
      (record s {
        sync_matrix = s.sync_matrix ++ row_of sd s.my_id ∷ [];
        my_row = some (length s.sync_matrix);
      })
      (λ is_ready.
        let (row, own, _) = h is_ready in absurd (no_row s.my_row s.sync_matrix row (sym e) own))
  where
    no_row :
        (r : Option ℕ) (m : List SyncRow) (row : SyncRow) → r ≡ none → own_row r m ≡ some row → ⊥
    no_row none m row e own = cc
    no_row (some i) m row e own = cc
change_row-Safe now sd (some i) s e h = elim (Option-cases (get_elem? s.sync_matrix i)) [
  | inl out ↦ rw (out, change_row) (unchanged-Safe s h)
  | inr (row, at) ↦ elim (Bool-cases (same_data sd row.sync_data)) [
    | inl same ↦ rw (at, same, change_row) (unchanged-Safe s h)
    | inr other ↦
        rw (at, other, change_row)
          (announce-Safe now sd
            (record s {
              sync_matrix =
                  set s.sync_matrix i (record row { sync_data = sd; received_by = s.my_id ∷ [] });
              ready_for_sync = false;
            })
            (λ is_ready. absurd (false≢true is_ready)))
  ]
]

unready_unless-ReadyAgreed :
    (b : Bool) (s : Synchronisation) → ReadyAgreed s → ReadyAgreed (unready_unless b s)
unready_unless-ReadyAgreed true s h = h
unready_unless-ReadyAgreed false s h = λ is_ready. absurd (false≢true is_ready)

pub change_own_data-Safe :
    (now t : ℕ) (holds : Bool) (s : Synchronisation)
    → ReadyAgreed s
    → Safe (change_own_data now t holds s)
unfolding change_own_data
change_own_data-Safe now t holds s h =
    change_row-Safe now (own_data t holds s) s.my_row (unready_unless holds s)
      (unready_unless-row holds s) (unready_unless-ReadyAgreed holds s h)
  where
    unready_unless-row : (b : Bool) (s : Synchronisation) → s.my_row ≡ (unready_unless b s).my_row
    unready_unless-row true s = refl
    unready_unless-row false s = refl

pub check_done-Safe :
    (p : Synchronisation × List Output)
    → Safe p
    → p.0.ready_for_sync ≡ true
    → Safe ((check_done p).state, (check_done p).out)
unfolding check_done
check_done-Safe (s, out) safe is_ready = elim (Bool-cases (all_sync_ready s)) [
  | inl e ↦ rw (e, check_done) (safe.0, λ d. (safe.0 is_ready, e))
  | inr e ↦ rw (e, check_done) safe
]

pub becomes_ready-ready :
    (now : ℕ) (s : Synchronisation) → (becomes_ready now s).0.ready_for_sync ≡ true
unfolding becomes_ready send_sync_ready
becomes_ready-ready now s = refl

abbrev pub SafeProgress : Progress → Type 0
SafeProgress p = Safe (p.state, p.out)

pub integrate_one-Safe :
    (now sender : ℕ) (sd : SyncData) (s : Synchronisation)
    → SafeProgress (integrate_one now sender sd s)
unfolding integrate_one
integrate_one-Safe now sender sd s =
    let s' : Synchronisation = record s { sync_matrix = merge sender sd s.sync_matrix } in
    elim (Bool-cases (is_sync_complete s')) [
      | inl e ↦
          rw (e, integrate_one)
            (check_done-Safe (becomes_ready now s') (becomes_ready-Safe now s' e)
              (becomes_ready-ready now s'))
      | inr e ↦ rw (e, integrate_one) ((λ is_ready. absurd (false≢true is_ready)), λ d. absurd (cc))
    ]

pub becomes_ready-quiet :
    (now : ℕ) (s : Synchronisation) → any is_done (becomes_ready now s).1 ≡ false
unfolding becomes_ready send_sync_ready
becomes_ready-quiet now s = elim (Option-cases (own_row s.my_row s.sync_matrix)) [
  | inl e ↦ rw (e, becomes_ready, send_sync_ready) refl
  | inr (row, e) ↦ rw (e, becomes_ready, send_sync_ready) refl
]

pub check_done-quiet :
    (p : Synchronisation × List Output)
    → any is_done p.1 ≡ false
    → (check_done p).finished ≡ false
    → any is_done (check_done p).out ≡ false
unfolding check_done
check_done-quiet (s, out) h quiet = elim (Bool-cases (all_sync_ready s)) [
  | inl e ↦ absurd (false≢true (sym (rw (check_done, e) at quiet)))
  | inr e ↦ rw (e, check_done) h
]
