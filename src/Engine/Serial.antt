-- ===== src/Engine/Serial.antt =====
-- The serial queue of src/engine/receive-engine.ts (`enqueue`, `enqueueGen`): the jobs run one after
-- the other, each to its end.
use notestr.Prelude.{ℕ, Text, List, [], ◌∷◌}
use notestr.Domain.Events.{TaskEvent}
use notestr.Engine.Types.{IngestSignal}
use notestr.Engine.World.{World, call}
use notestr.Engine.Handlers.{process_signal, run_job, accept_local}
use notestr.Engine.Retry.{Ingest, enter_retrying_deferred}

pub data Job : Type 0 where
  on_signal : IngestSignal → (gen : ℕ) → Job
  on_local : (rumor_id : Text) → TaskEvent → Job

unfoldable pub run_jobs : Text → Ingest → ℕ → List Job → World → World
run_jobs group_id ingest_persisted fuel [] w = w
run_jobs group_id ingest_persisted fuel (on_signal signal gen ∷ jobs) w =
    run_jobs group_id ingest_persisted fuel jobs
      (run_job gen
        (call (
          process_signal group_id (enter_retrying_deferred group_id ingest_persisted fuel gen)
            signal gen))
        w).1
run_jobs group_id ingest_persisted fuel (on_local rumor_id payload ∷ jobs) w =
    run_jobs group_id ingest_persisted fuel jobs (accept_local group_id rumor_id payload w).1
