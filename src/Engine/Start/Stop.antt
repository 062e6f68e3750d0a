-- ===== src/Engine/Start/Stop.antt =====
-- `stop` and `reset` of src/engine/receive-engine.ts: the end of a session.
use notestr.Prelude.{
  ℕ, ◌+◌, ◌≡◌, ◌⊎◌, refl, ◌∙◌, ap, Text, Bool, true, false, Option, none, some, List, [], ◌∷◌, map,
  arith,
}
use notestr.Engine.Types.{IngestSignal, uninitialized, stopped}
use notestr.Engine.World.{
  World, no_degradation, pass, next_await, stop_now, is_halted, stale, emit_state_changed,
  build_checkpoint, ◌>>=◌, call,
}
use notestr.Engine.Writes.{
  StoreCall, settle, attempt_once, write, save_checkpoint_resilient, committed,
}
use notestr.Engine.Handlers.{run_job, process_signal}
use notestr.Engine.Retry.{Ingest, enter_retrying_deferred}
use notestr.Engine.Serial.{on_signal, run_jobs}
use notestr.Engine.Start.{Outcome, resolved, rejected}
use notestr.Engine.Start.Recovery.{stop}
use notestr.Persistence.{Disk, clear_group_state, save_checkpoint, clear_stages}
use notestr.Persistence.Crash.{Crash}
use notestr.Prelude.{ltb, if◌then◌else◌}

-- A stopped engine of that generation.
abbrev IsStopped : ℕ → World → Type 0
IsStopped gen w = (w.lifecycle ≡ stopped) × (w.generation ≡ gen)

pass-IsStopped : (gen : ℕ) (w : World) → IsStopped gen w → IsStopped gen (pass w)
unfolding pass stop_now
pass-IsStopped gen w h = ground arith

settle-IsStopped :
    (gen : ℕ) (fails : Bool) (t : Disk) (r : Option (Unit {0} × Disk)) (w : World)
    → IsStopped gen w
    → IsStopped gen (settle fails t r w).1
unfolding settle
settle-IsStopped gen true t r w h = pass-IsStopped gen (record w { disk = t }) h
settle-IsStopped gen false t none w h = pass-IsStopped gen w h
settle-IsStopped gen false t (some (u, d)) w h = pass-IsStopped gen (record w { disk = d }) h

committed-IsStopped :
    (gen n : ℕ) (r : Option (Unit {0}) × World) → IsStopped gen r.1 → IsStopped gen (committed n r)
committed-IsStopped gen n (none, w) h = h
committed-IsStopped gen n (some u, w) h = go (ltb w.last_committed_save_counter n)
  where
    go : (b : Bool) → IsStopped gen (if b then record w { last_committed_save_counter = n } else w)
    go true = h
    go false = h

save_checkpoint_resilient-IsStopped :
    (gen : ℕ) (g : Text) (w : World)
    → IsStopped gen w
    → IsStopped gen (save_checkpoint_resilient g w)
unfolding save_checkpoint_resilient attempt_once
save_checkpoint_resilient-IsStopped gen g w h =
    let n = w.checkpoint_save_counter + 1 in
    let w₁ = record w { checkpoint_save_counter = n } in
    let save : StoreCall (Unit {0}) = write λ d. save_checkpoint d (build_checkpoint g w₁) in
    committed-IsStopped gen n (attempt_once save w₁) (
      settle-IsStopped gen (next_await w₁).fails (save.torn (next_await w₁).torn w₁.disk)
        (save.run w₁.disk) w₁ h)

stop_now-IsStopped :
    (w : World) → is_halted w.lifecycle ≡ false → IsStopped (w.generation + 1) (stop_now w)
unfolding stop_now emit_state_changed
stop_now-IsStopped w running = rw running (refl, refl)

stop-IsStopped :
    (g : Text) (w : World) → is_halted w.lifecycle ≡ false → IsStopped (w.generation + 1) (stop g w)
unfolding stop
stop-IsStopped g w running =
    let s =
      save_checkpoint_resilient-IsStopped (w.generation + 1) g (stop_now w)
        (stop_now-IsStopped w running) in
    rw running s

stale_job :
    (g : Text) (ingest : Ingest) (fuel gen : ℕ) (signal : IngestSignal) (w : World)
    → w.generation ≡ gen + 1
    → (run_job gen
        (call (process_signal g (enter_retrying_deferred g ingest fuel gen) signal gen))
        w).1
      ≡ w
unfolding run_job ◌>>=◌
stale_job g ingest fuel gen signal w e = let old : stale gen w ≡ true = ground arith in rw old refl

stale_jobs :
    (g : Text) (ingest : Ingest) (fuel gen : ℕ) (signals : List IngestSignal) (w : World)
    → w.generation ≡ gen + 1
    → run_jobs g ingest fuel (map (λ s. on_signal s gen) signals) w ≡ w
unfolding run_jobs
stale_jobs g ingest fuel gen [] w e = refl
stale_jobs g ingest fuel gen (signal ∷ signals) w e =
    let queued = map (λ (s : IngestSignal). on_signal s gen) signals in
    ap (λ (v : World). run_jobs g ingest fuel queued v) (stale_job g ingest fuel gen signal w e)
    ∙ stale_jobs g ingest fuel gen signals w e

-- `stop` ends a running session for good: the engine is stopped, whatever happens while its last
-- checkpoint is written, and the signals of that session that still stand in the serial queue change
-- nothing when their turn comes: not the stores, not what the listeners were told, not the state.
pub stop-silences :
    (g : Text) (ingest : Ingest) (fuel : ℕ) (signals : List IngestSignal) (w : World)
    → is_halted w.lifecycle ≡ false
    → ((stop g w).lifecycle ≡ stopped)
      × (run_jobs g ingest fuel (map (λ s. on_signal s w.generation) signals) (stop g w) ≡ stop g w)
stop-silences g ingest fuel signals w running =
    let s = stop-IsStopped g w running in
    (s.0, stale_jobs g ingest fuel w.generation signals (stop g w) s.1)

-- What `reset` clears in the engine.
pub record IsCleared (w : World) : Type 0 where
  pub no_reasons : w.degradation ≡ no_degradation
  pub watermark : w.last_ingested_seq ≡ 0
  pub not_bootstrapped : w.bootstrap_completed ≡ false
  pub no_catch_up : w.catch_up_invocation_count ≡ 0
  pub not_latched : w.pending_deferred_retry ≡ false

-- How a reset ends: the stores are purged and the engine may start again; or `stop` came while the
-- stores were purged; or the purge was refused, and the stores are as a crash of it can leave them.
pub data ResetEnds (g : Text) (w : World) : Outcome × World → Type 0 where
  purged :
      {w' : World}
      → clear_group_state g w.disk ≡ some w'.disk
      → w'.lifecycle ≡ uninitialized
      → ResetEnds g w (resolved, w')
  overtaken :
      {w' : World}
      → clear_group_state g w.disk ≡ some w'.disk
      → (next_await w).stops ≡ true
      → ResetEnds g w (resolved, w')
  refused :
      {w' : World}
      → ((next_await w).fails ≡ true) ⊎ (clear_group_state g w.disk ≡ none)
      → (w'.disk ≡ w.disk) ⊎ Crash (clear_stages g) w.disk w'.disk
      → ResetEnds g w (rejected, w')
