-- ===== src/SyncModule/Late.antt =====
-- SyncModule::tick, whose counter goes up with every synchronisation.
use alica_engine.Common.{
  ℕ, ◌+◌, ◌≤◌, ◌≡◌, refl, ap, ◌∙◌, Bool, true, false, not, List, [], ◌∷◌, ◌++◌, Option, none,
  length, ◌&&◌, ltb, if◌then◌else◌, arith, leb,
}
use alica_engine.Synchronisation.{Synchronisation, Timeouts, Output}
use alica_engine.Synchronisation.Receive.{is_valid, revoke, talk_again}
use alica_engine.SyncModule.{
  Entry, SyncModule, sends, run_in_set, serve_all, send, serve, put, tick_loop, tick,
}

is_valid-late :
    (t : Timeouts) (now cur_tick : ℕ) (s : Synchronisation)
    → s.last_tick + 3 ≤ cur_tick
    → (is_valid t now cur_tick s).1 ≡ false
unfolding is_valid
is_valid-late t now cur_tick s h =
    ap
      (λ (b : Bool).
        let out : (Synchronisation × List Output) × Bool =
          if not b then (revoke now s, false) else (
            talk_again t now s,
            not (t.fail_on_sync_time_out && ltb (t.sync_time_out + s.sync_start_time) now),
          ) in
        out.1)
      not_leb
  where
    not_leb : leb cur_tick (s.last_tick + 2) ≡ false
    not_leb = ground arith

module _ (may_send : Bool) where
  serve-ticks : (t : ℕ) (o : Output) (m : SyncModule) → (serve may_send t o m).ticks ≡ m.ticks
  unfolding serve
  serve-ticks t (Output.talk sd) m = send-ticks may_send
    where
      send-ticks : (b : Bool) → (send b (sends t (Output.talk sd)) m).ticks ≡ m.ticks
      send-ticks true = refl
      send-ticks false = refl
  serve-ticks t Output.ready m = send-ticks may_send
    where
      send-ticks : (b : Bool) → (send b (sends t Output.ready) m).ticks ≡ m.ticks
      send-ticks true = refl
      send-ticks false = refl
  serve-ticks t Output.done m = refl

  serve_all-ticks :
      (t : ℕ) (os : List Output) (m : SyncModule) → (serve_all may_send t os m).ticks ≡ m.ticks
  serve_all-ticks t [] m = refl
  serve_all-ticks t (o ∷ os) m = serve_all-ticks t os (serve may_send t o m) ∙ serve-ticks t o m

  tick_loop-late :
      (timeouts : ℕ → Timeouts) (now : ℕ) (before : List Entry) (e : Entry) (after : List Entry)
      (m : SyncModule)
      → e.sync.last_tick + 3 ≤ m.ticks + length before
      → tick_loop may_send timeouts now (before ++ e ∷ after) m ≡ none
  unfolding tick_loop
  tick_loop-late timeouts now [] e after m h =
      stop (tick_loop may_send timeouts now after (record m' { ticks = m'.ticks + 1 }))
        (is_valid-late (timeouts e.transition) now m.ticks e.sync (omega arith))
    where
      m' : SyncModule
      m' =
          run_in_set may_send e.transition (is_valid (timeouts e.transition) now m.ticks e.sync).0 m

      stop : {b : Bool} (o : Option SyncModule) → b ≡ false → (if b then o else none) ≡ none
      stop o k = ap (λ c. if c then o else none) k
  tick_loop-late timeouts now (x ∷ before) e after m h =
      pick (is_valid (timeouts x.transition) now m.ticks x.sync).1 (
        tick_loop-late timeouts now before e after (record m' { ticks = m'.ticks + 1 })
          (omega (arith, ticks_same)))
    where
      m' : SyncModule
      m' =
          run_in_set may_send x.transition (is_valid (timeouts x.transition) now m.ticks x.sync).0 m

      ticks_same : m'.ticks ≡ m.ticks
      ticks_same =
          serve_all-ticks x.transition (is_valid (timeouts x.transition) now m.ticks x.sync).0.1
            (record m {
              synch_set =
                  put x.transition (is_valid (timeouts x.transition) now m.ticks x.sync).0.0
                    m.synch_set;
            })

      pick : (b : Bool) {o : Option SyncModule} → o ≡ none → (if b then o else none) ≡ none
      pick true k = k
      pick false k = refl

-- The counter goes up with every synchronisation and not with every tick, so that the fourth
-- synchronisation of an agent counts as out of date in the tick in which it has been brought up to date:
-- with three or more synchronisations before it, the tick ends in the undefined behaviour of the erasure
-- inside the loop.
pub tick-late :
    (may_send : Bool) (timeouts : ℕ → Timeouts) (now : ℕ) (before : List Entry) (e : Entry)
    (after : List Entry) (m : SyncModule)
    → m.synch_set ≡ before ++ e ∷ after
    → 3 ≤ length before
    → e.sync.last_tick ≤ m.ticks
    → tick may_send timeouts now m ≡ none
unfolding tick
tick-late may_send timeouts now before e after m eq many old =
    ap (λ es. tick_loop may_send timeouts now es m) eq
    ∙ tick_loop-late may_send timeouts now before e after m (omega arith)
