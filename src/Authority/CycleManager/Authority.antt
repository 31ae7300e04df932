-- ===== src/Authority/CycleManager/Authority.antt =====
-- Who yields to whom: the modes of the cycle managers of a team.
use alica_engine.Common.{ℕ, ◌≡◌, ◌≢◌, ◌⊎◌, inl, inr, Bool, true, false, List, [], ◌∷◌, some, arith}
use alica_engine.Authority.CycleManager.{
  AllocationAuthorityInfo, CycleManager, observing, overridden, overriding, answer_authority,
  handle_authority_info, sent,
}
use alica_engine.Authority.CycleManager.Events.{
  Event, updates, receives, sends, records, Managed, step, run, handle_cases, update_cases,
  record_cases,
}

-- The order on agent ids, of another package: a strict total order.
pub record IsIdOrder (greater : ℕ → ℕ → Bool) : Type 0 where
  pub irrefl : (a : ℕ) → greater a a ≡ false
  pub asym : (a b : ℕ) → greater a b ≡ true → greater b a ≡ false
  pub total : (a b : ℕ) → a ≢ b → (greater a b ≡ true) ⊎ (greater b a ≡ true)

-- A manager that is overridden holds the allocation of an agent whose id is greater than its own.
abbrev pub YieldsToGreater : (ℕ → ℕ → Bool) → CycleManager → Type 0
YieldsToGreater greater cm =
    cm.cycle_state ≡ overridden
    → (rid : ℕ) × (cm.fixed_allocation.authority ≡ some rid) × (greater rid cm.my_id ≡ true)

module _ (increase decrease : ℕ → ℕ) (greater : ℕ → ℕ → Bool) where
  step-YieldsToGreater :
      (m : Managed) (e : Event)
      → YieldsToGreater greater m.0
      → YieldsToGreater greater (step increase decrease greater m e).0
  unfolding step sent
  step-YieldsToGreater (cm, interval) (updates now b) h =
      update_cases increase decrease (λ (m : Managed). YieldsToGreater greater m.0) now interval b
        cm h (λ k. cc) (λ _ k. cc) h
  step-YieldsToGreater (cm, interval) (receives now aai) h =
      handle_cases increase decrease greater (λ (m : Managed). YieldsToGreater greater m.0) now
        interval aai cm h (λ rid from above _. (rid, from, above)) (λ k. cc)
  step-YieldsToGreater (cm, interval) (sends now) h = h
  step-YieldsToGreater (cm, interval) (records r same old_eps old new_eps new) h =
      record_cases (λ (m : CycleManager). YieldsToGreater greater m) r same old_eps old new_eps new
        cm h (λ _ _. h)

  run-YieldsToGreater :
      (es : List Event) (m : Managed)
      → YieldsToGreater greater m.0
      → YieldsToGreater greater (run increase decrease greater m es).0
  unfolding run
  run-YieldsToGreater [] m h = h
  run-YieldsToGreater (e ∷ es) m h =
      run-YieldsToGreater es (step increase decrease greater m e) (step-YieldsToGreater m e h)

  -- Whatever messages, updates, sent messages and new assignments a manager that was observing goes
  -- through, while it is overridden it holds the allocation of an agent with a greater id than its own.
  pub run-overridden :
      (es : List Event) (cm : CycleManager) (interval : ℕ)
      → cm.cycle_state ≡ observing
      → (run increase decrease greater (cm, interval) es).0.cycle_state ≡ overridden
      → let cm' = (run increase decrease greater (cm, interval) es).0 in
        (rid : ℕ) × (cm'.fixed_allocation.authority ≡ some rid) × (greater rid cm'.my_id ≡ true)
  run-overridden es cm interval watching = run-YieldsToGreater es (cm, interval) (λ k. absurd (cc))

  -- When two enabled managers that both claim the authority receive each other's message, exactly
  -- one of them yields: the one with the smaller id is overridden and takes the other's allocation,
  -- and the one with the greater id keeps its claim.
  pub conflict_resolved :
      (now later i k : ℕ) (from_a from_b : AllocationAuthorityInfo) (a b : CycleManager)
      → IsIdOrder greater
      → a.enabled ≡ true
      → b.enabled ≡ true
      → a.cycle_state ≡ overriding
      → b.cycle_state ≡ overriding
      → from_a.authority ≡ some a.my_id
      → from_b.authority ≡ some b.my_id
      → a.my_id ≢ b.my_id
      → let a' = (handle_authority_info increase decrease greater now from_b a i).0 in
        let b' = (handle_authority_info increase decrease greater later from_a b k).0 in
        ((greater a.my_id b.my_id ≡ true)
          × (a' ≡ a)
          × (b'.cycle_state ≡ overridden)
          × (b'.fixed_allocation ≡ from_a))
        ⊎ ((greater b.my_id a.my_id ≡ true)
            × (b' ≡ b)
            × (a'.cycle_state ≡ overridden)
            × (a'.fixed_allocation ≡ from_b))
  unfolding handle_authority_info answer_authority
  conflict_resolved now later i k from_a from_b a b order ea eb sa sb fa fb ne =
      elim (order.total a.my_id b.my_id ne) [
        | inl above ↦ inl (ground (arith, order.asym a.my_id b.my_id above))
        | inr above ↦ inr (ground (arith, order.asym b.my_id a.my_id above))
      ]
