-- ===== src/Synchronisation/Messages.antt =====
-- The messages and the clock keep a synchronisation of syncmodule/Synchronisation.cpp safe.

use alica_engine.Common.{
  ℕ, ◌+◌, ◌≡◌, refl, inl, inr, Bool, true, false, ◌&&◌, not, List, [], ◌∷◌, ◌++◌, none, some,
  contains, any, any-append, if◌then◌else◌, ◌==◌, ltb, leb, arith, Bool-cases, Option-cases,
}
use alica_engine.Synchronisation.{
  SyncData, Synchronisation, Timeouts, Output, done, own_row, is_sync_complete, all_sync_ready,
  send_talk, becomes_ready,
}
use alica_engine.Synchronisation.Receive.{
  merge, check_done, integrate_one, integrate_loop, integrate_sync_talk, integrate_sync_ready,
  talk_again,
}
use alica_engine.Synchronisation.Events.{is_done, ReadyAgreed, Safe}
use alica_engine.Synchronisation.Own.{
  if_cases, unchanged-Safe, becomes_ready-quiet, check_done-quiet, integrate_one-Safe,
}

-- A part of a talk that does not finish the synchronisation does not announce that it is done.
integrate_one-quiet :
    (now sender : ℕ) (sd : SyncData) (s : Synchronisation)
    → (integrate_one now sender sd s).finished ≡ false
    → any is_done (integrate_one now sender sd s).out ≡ false
unfolding integrate_one
integrate_one-quiet now sender sd s quiet =
    let s' : Synchronisation = record s { sync_matrix = merge sender sd s.sync_matrix } in
    elim (Bool-cases (is_sync_complete s')) [
      | inl e ↦
          let quiet' : (check_done (becomes_ready now s')).finished ≡ false =
            rw (integrate_one, e) at quiet in
          rw (e, integrate_one)
            (check_done-quiet (becomes_ready now s') (becomes_ready-quiet now s') quiet')
      | inr e ↦ rw (e, integrate_one) refl
    ]

integrate_loop-Safe :
    (now sender : ℕ) (sds : List SyncData) (s : Synchronisation)
    → ReadyAgreed s
    → Safe (integrate_loop now sender sds s)
unfolding integrate_loop
integrate_loop-Safe now sender [] s h = unchanged-Safe s h
integrate_loop-Safe now sender (sd ∷ sds) s h =
    let safe = integrate_one-Safe now sender sd s in
    let p = integrate_one now sender sd s in
    let rest = integrate_loop-Safe now sender sds p.state safe.0 in
    elim (Bool-cases p.finished) [
      | inl e ↦ rw e safe
      | inr e ↦ rw e (
        rest.0,
        λ d. rest.1 (
            ground (
              arith,
              any-append is_done p.out (integrate_loop now sender sds p.state).1,
              integrate_one-quiet now sender sd s e,
            )),
      )
    ]

pub integrate_sync_talk-Safe :
    (now sender : ℕ) (sds : List SyncData) (tick : ℕ) (s : Synchronisation)
    → ReadyAgreed s
    → Safe (integrate_sync_talk now sender sds tick s).0
unfolding integrate_sync_talk
integrate_sync_talk-Safe now sender sds tick s h =
    if_cases (λ (r : (Synchronisation × List Output) × Bool). Safe r.0) s.ready_for_sync _ _
      (unchanged-Safe s h)
      (if_cases (λ (r : (Synchronisation × List Output) × Bool). Safe r.0)
        (not (leb tick (s.last_tick + 2))) _ _ (unchanged-Safe s h)
        (integrate_loop-Safe now sender sds s h))

done_when :
    (b c : Bool) → any is_done (if b && c then done ∷ [] else []) ≡ true → (b ≡ true) × (c ≡ true)
done_when true true d = (refl, refl)
done_when true false d = absurd (cc)
done_when false c d = absurd (cc)

pub integrate_sync_ready-Safe :
    (sender : ℕ) (s : Synchronisation) → ReadyAgreed s → Safe (integrate_sync_ready sender s)
unfolding integrate_sync_ready
integrate_sync_ready-Safe sender s h =
    let readys =
      if contains sender s.received_sync_readys
      then s.received_sync_readys
      else s.received_sync_readys ++ sender ∷ [] in
    let s' : Synchronisation = record s { received_sync_readys = readys } in
    (
      h,
      λ d.
          let (is_ready, all) = done_when s.ready_for_sync (all_sync_ready s') d in
          (h is_ready, all),
    )

pub talk_again-Safe :
    (t : Timeouts) (now : ℕ) (s : Synchronisation) → ReadyAgreed s → Safe (talk_again t now s)
unfolding talk_again send_talk
talk_again-Safe t now s h =
    if_cases Safe
      (not (s.last_talk_time == 0)
        && ltb (t.talk_time_out + s.last_talk_time) now
        && not s.ready_for_sync)
      _ _ talks (unchanged-Safe s h)
  where
    talks : Safe (elim (own_row s.my_row s.sync_matrix) [
      | none ↦ (s, [])
      | some row ↦ send_talk now row.sync_data s
    ])
    talks = elim (Option-cases (own_row s.my_row s.sync_matrix)) [
      | inl e ↦ rw e (unchanged-Safe s h)
      | inr (row, e) ↦ rw e (h, λ d. absurd (cc))
    ]
