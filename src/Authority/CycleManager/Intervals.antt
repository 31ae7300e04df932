-- ===== src/Authority/CycleManager/Intervals.antt =====
-- The bounds of the authority interval, and the flags that no event changes.
use alica_engine.Common.{ℕ, ◌≤◌, Bool, List, [], ◌∷◌, arith}
use alica_engine.Authority.CycleManager.{CycleManager, sent}
use alica_engine.Authority.CycleManager.Events.{
  Event, updates, receives, sends, records, Managed, step, run, handle_cases, update_cases,
  record_cases,
}

-- The interval of the plan lies between the configured bounds.
abbrev pub WithinBounds : Managed → Type 0
WithinBounds (cm, interval) =
    (cm.minimal_override_interval ≤ interval) × (interval ≤ cm.maximal_override_interval)

module _ (increase decrease : ℕ → ℕ) (greater : ℕ → ℕ → Bool) where
  step-WithinBounds :
      (m : Managed) (e : Event)
      → ((x : ℕ) → x ≤ increase x)
      → ((x : ℕ) → decrease x ≤ x)
      → WithinBounds m
      → WithinBounds (step increase decrease greater m e)
  unfolding step sent
  step-WithinBounds (cm, interval) (updates now b) inc dec h =
      update_cases increase decrease WithinBounds now interval b cm h h
        (λ _. ground (arith, inc interval)) (ground (arith, dec interval))
  step-WithinBounds (cm, interval) (receives now aai) inc dec h =
      handle_cases increase decrease greater WithinBounds now interval aai cm h
        (λ rid from above. h) (ground (arith, inc interval))
  step-WithinBounds (cm, interval) (sends now) inc dec h = h
  step-WithinBounds (cm, interval) (records r same old_eps old new_eps new) inc dec h =
      record_cases (λ (m : CycleManager). WithinBounds (m, interval)) r same old_eps old new_eps new
        cm h (λ _ _. h)

  -- Where the two factors do not shrink and do not grow an interval, the authority interval of the
  -- plan stays between the configured bounds through any life of its manager.
  pub run-WithinBounds :
      (es : List Event) (m : Managed)
      → ((x : ℕ) → x ≤ increase x)
      → ((x : ℕ) → decrease x ≤ x)
      → WithinBounds m
      → WithinBounds (run increase decrease greater m es)
  unfolding run
  run-WithinBounds [] m inc dec h = h
  run-WithinBounds (e ∷ es) m inc dec h =
      run-WithinBounds es (step increase decrease greater m e) inc dec
        (step-WithinBounds m e inc dec h)
