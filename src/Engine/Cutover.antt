-- ===== src/Engine/Cutover.antt =====
-- src/engine/receive-engine.ts: the last two steps of the cutover, the drain of the live buffer and the
-- start of live. The buffer is an argument: the signals that it yields until it is found empty. Jobs
-- of other callers do not come between the signals here.
use notestr.Prelude.{ℕ, Text, false, List, [], ◌∷◌, ltb}
use notestr.Engine.Types.{IngestSignal, buffering_live, live, recovered}
use notestr.Engine.Policy.{deferred_size}
use notestr.Engine.World.{Exec, ◌>>=◌, ◌>>◌, pure, gets, modify, call, emit, alive}
use notestr.Engine.Handlers.{process_signal, run_job, when}
use notestr.Engine.Retry.{Ingest, transition_to, enter_retrying_deferred}

-- `enterLive`.
unfoldable pub enter_live : Text → Ingest → ℕ → ℕ → Exec (Unit {0})
unfolding transition_to enter_retrying_deferred
enter_live group_id ingest_persisted fuel gen = do
  alive gen
  call (transition_to group_id gen live)
  alive gen
  emit recovered
  latched ← gets λ w. w.pending_deferred_retry
  when latched (do
    modify λ w. record w { pending_deferred_retry = false }
    parked ← gets λ w. deferred_size w.policy
    when (ltb 0 parked) (call (enter_retrying_deferred group_id ingest_persisted fuel gen)))

unfoldable pub drain_live_buffer : Text → Ingest → ℕ → ℕ → List IngestSignal → Exec (Unit {0})
unfolding process_signal run_job
drain_live_buffer group_id ingest_persisted fuel gen [] = pure tt
drain_live_buffer group_id ingest_persisted fuel gen (signal ∷ buffer) = do
  call (
      run_job gen (
        process_signal group_id (enter_retrying_deferred group_id ingest_persisted fuel gen) signal
          gen))
  alive gen
  drain_live_buffer group_id ingest_persisted fuel gen buffer

-- `enterBufferingLive`.
unfoldable pub enter_buffering_live : Text → Ingest → ℕ → ℕ → List IngestSignal → Exec (Unit {0})
unfolding transition_to drain_live_buffer enter_live
enter_buffering_live group_id ingest_persisted fuel gen buffer = do
  alive gen
  call (transition_to group_id gen buffering_live)
  alive gen
  drain_live_buffer group_id ingest_persisted fuel gen buffer
  call (enter_live group_id ingest_persisted fuel gen)
