-- ===== src/SyncModule/Follow.antt =====
-- SyncModule: which transitions can be taken in step.

use alica_engine.Common.{
  ℕ, ◌≡◌, ◌⊎◌, refl, ap, ◌∙◌, Bool, true, false, ◌&&◌, ◌||◌, not, List, [], ◌∷◌, ◌++◌, Option, none,
  some, find_if, keep, contains, if◌then◌else◌, ◌==◌, ==-refl,
}
use alica_engine.Synchronisation.{Output, all_sync_ready}
use alica_engine.Synchronisation.Receive.{integrate_sync_ready}
use alica_engine.Synchronisation.Ready.{Ready, Acknowledgers, integrate_sync_ready-Acknowledgers}
use alica_engine.SyncModule.{
  Entry, SyncModule, is_for, synchronisation_done, follow_sync_transition, serve, run_in_set,
  on_sync_ready,
}

-- A transition becomes one that can be taken in step on a `SyncReady` only if its synchronisation was
-- ready, and every agent that has acknowledged this agent's row is this agent, the sender, or one whose
-- `SyncReady` had come in before.
pub on_sync_ready-agreed :
    (may_send : Bool) (ignored known : ℕ → Bool) (sender t : ℕ) (m : SyncModule)
    → contains t m.synched_transitions ≡ false
    → contains t (on_sync_ready may_send ignored known sender t m).synched_transitions ≡ true
    → (e : Entry) × (find_if (is_for t) m.synch_set ≡ some e)
      × (e.sync.ready_for_sync ≡ true)
      × Acknowledgers
          (λ id. (id ≡ sender) ⊎ Ready e.sync.my_id e.sync.received_sync_readys id)
          e.sync
unfolding on_sync_ready integrate_sync_ready serve
on_sync_ready-agreed may_send ignored known sender t m before after =
    pick (not m.running || sender == m.my_id) (ignored sender || not (known t))
      (find_if (is_for t) m.synch_set) refl after
  where
    Goal : Type 0
    Goal =
        (e : Entry) × (find_if (is_for t) m.synch_set ≡ some e)
        × (e.sync.ready_for_sync ≡ true)
        × Acknowledgers (λ id. (id ≡ sender) ⊎ Ready e.sync.my_id e.sync.received_sync_readys id)
            e.sync

    both : (a b : Bool) → (a && b) ≡ true → (a ≡ true) × (b ≡ true)
    both true true h = (refl, refl)
    both true false h = absurd (cc)
    both false b h = absurd (cc)

    outputs :
        (e : Entry)
        → find_if (is_for t) m.synch_set ≡ some e
        → (b : Bool)
        → (e.sync.ready_for_sync && all_sync_ready (integrate_sync_ready sender e.sync).0) ≡ b
        → contains t
            (run_in_set may_send t
              ((integrate_sync_ready sender e.sync).0, (if b then Output.done ∷ [] else []))
              m).synched_transitions
          ≡ true
        → Goal
    outputs e here true k h =
        let (r, a) = both _ _ k in (e, here, r, integrate_sync_ready-Acknowledgers sender e.sync a)
    outputs e here false k h = absurd (cc)

    pick :
        (b c : Bool) (o : Option Entry)
        → find_if (is_for t) m.synch_set ≡ o
        → (let out : SyncModule = if b then m else if c then m else elim o [
          | none ↦ m
          | some e ↦ run_in_set may_send t (integrate_sync_ready sender e.sync) m
        ] in
            contains t out.synched_transitions ≡ true)
        → Goal
    pick true c o here h = absurd (cc)
    pick false true o here h = absurd (cc)
    pick false false none here h = absurd (cc)
    pick false false (some e) here h = outputs e here _ refl h

contains-append : (t : ℕ) (xs : List ℕ) → contains t (xs ++ t ∷ []) ≡ true
contains-append t [] = ap (λ b. b || false) (==-refl t)
contains-append t (x ∷ xs) = pick (x == t) (contains-append t xs)
  where
    pick : (b : Bool) → contains t (xs ++ t ∷ []) ≡ true → (b || contains t (xs ++ t ∷ [])) ≡ true
    pick true h = refl
    pick false h = h

contains-removed : (t : ℕ) (xs : List ℕ) → contains t (keep (λ x. not (x == t)) xs) ≡ false
contains-removed t [] = refl
contains-removed t (x ∷ xs) = pick (x == t) refl (contains-removed t xs)
  where
    pick :
        (b : Bool)
        → (x == t) ≡ b
        → contains t (keep (λ y. not (y == t)) xs) ≡ false
        → contains t
            (if not b then x ∷ keep (λ y. not (y == t)) xs else keep (λ y. not (y == t)) xs)
          ≡ false
    pick true e h = h
    pick false e h = ap (λ b. b || contains t (keep (λ y. not (y == t)) xs)) e ∙ h

-- When a synchronisation is done, its transition can be followed, and only once: the second question is
-- answered with no.
pub follow_sync_transition-done :
    (t : ℕ) (m : SyncModule)
    → let first = follow_sync_transition t (synchronisation_done t m) in
      (first.1 ≡ true) × ((follow_sync_transition t first.0).1 ≡ false)
unfolding follow_sync_transition synchronisation_done
follow_sync_transition-done t m =
    pick (contains t (m.synched_transitions ++ t ∷ [])) (contains-append t m.synched_transitions)
  where
    m' : SyncModule
    m' = synchronisation_done t m

    left : List ℕ
    left = keep (λ x. not (x == t)) (m.synched_transitions ++ t ∷ [])

    again : SyncModule → SyncModule × Bool
    again n =
        if contains t n.synched_transitions
        then (
          record n { synched_transitions = keep (λ x. not (x == t)) n.synched_transitions },
          true,
        )
        else (n, false)

    no :
        (b : Bool) (n : SyncModule)
        → b ≡ false
        → (let out : SyncModule × Bool =
              if b
              then (
                record n { synched_transitions = keep (λ x. not (x == t)) n.synched_transitions },
                true,
              )
              else (n, false) in
            out.1)
          ≡ false
    no true n e = absurd (cc)
    no false n e = refl

    pick :
        (b : Bool)
        → b ≡ true
        → let first : SyncModule × Bool =
            if b then (record m' { synched_transitions = left }, true) else (m', false) in
          (first.1 ≡ true) × ((again first.0).1 ≡ false)
    pick true e = (
      refl,
      no (contains t left) (record m' { synched_transitions = left })
          (contains-removed t (m.synched_transitions ++ t ∷ [])),
    )
    pick false e = absurd (cc)
