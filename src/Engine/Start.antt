-- ===== src/Engine/Start.antt =====
-- src/engine/receive-engine.ts: `start`, `stop`, `reset` and the ways from them to the cutover: the
-- bootstrap fetch with its timer, the recovery from the stores, and the catch-up. A promise that is
-- rejected is a value, `rejected`. Where the timer of the bootstrap fetch is due while the fetch
-- awaits its next signal, its callback runs to its end before that signal is looked at.
pub mod Recovery
pub mod Paths
pub mod Routes
pub mod Reach
pub mod Stop
use notestr.Prelude.{
  ℕ, ◌+◌, Text, Bool, true, false, not, ◌||◌, Option, none, some, List, [], ◌∷◌, map, keep, any,
  same, find, length, ltb, leb, ◌==◌, if◌then◌else◌,
}
use notestr.Domain.Events.{AcceptedDomainEvent}
use notestr.Engine.Types.{
  RawProtocolFact, EngineLifecycleState, uninitialized, joining, recovering, catching_up,
  EngineCheckpoint, IngestSignal, unreadable,
}
use notestr.Engine.Policy.{IngestPolicy, mark_processed, enqueue_deferred}
use notestr.Engine.World.{
  World, Exec, Flow, done, returned, ◌>>=◌, ◌>>◌, pure, return_now, gets, modify, call, alive, pass,
  next_await, bootstrap_unresolved, preserve_and_replay_recovery, persistence_write_failing,
  add_degradation_reason, clear_degradation_reason, no_degradation, is_halted, stop_now,
  emit_state_changed, set_policy,
}
use notestr.Engine.Writes.{save_deferred_ids_with_retry, save_checkpoint_resilient}
use notestr.Engine.Handlers.{process_signal, run_job, when}
use notestr.Engine.Retry.{Ingest, transition_to, for_await, enter_retrying_deferred}
use notestr.Engine.Cutover.{enter_buffering_live}
use notestr.Persistence.{
  Disk, load_facts, load_accepted_events, load_deferred_ids, load_checkpoint, clear_group_state,
}

-- `DEFAULT_T_JOIN_MS`.
abbrev pub default_t_join_ms : ℕ
default_t_join_ms = 8000

-- How a promise settles.
pub data Outcome : Type 0 where
  resolved rejected : Outcome

-- An async iterable of the adapter: what it yields, and whether it throws after that.
pub record Feed : Type 0 where
  pub signals : List IngestSignal
  pub throws : Bool

-- What the adapter yields in one session; `live_buffer` is what `openLive` delivers up to the end of
-- the cutover.
pub record Adapter : Type 0 where
  pub fetch_bootstrap : Feed
  pub catch_up : Feed
  pub live_buffer : List IngestSignal
  pub ingest_persisted : Ingest

pub data StartOrigin : Type 0 where
  welcome restored : StartOrigin

-- The await of a promise: an early `return;` resolves it.
abbrev pub settled : Flow Outcome × World → Outcome × World
settled (done o, w) = (o, w)
settled (returned, w) = (resolved, w)

abbrev pub awaited : Exec Outcome → Exec Outcome
awaited m w = let (o, w') = settled (m w) in (done o, w')

-- The await of a read of the stores; `none` where it throws.
unfoldable pub read_stores {ℓ} : {A : Type ℓ} → (Disk → A) → Exec (Option A)
read_stores f w = (done (if (next_await w).fails then none else some (f w.disk)), pass w)

-- `await enqueueGen(gen, () => processSignal(signal, gen))`.
unfoldable pub enqueue_signal : Text → Ingest → ℕ → ℕ → IngestSignal → Exec (Unit {0})
unfolding process_signal run_job enter_retrying_deferred
enqueue_signal group_id ingest fuel gen signal = call (
    run_job gen
      (process_signal group_id (enter_retrying_deferred group_id ingest fuel gen) signal gen))

-- The increment of `catchUpInvocationCount`; the result is the new count.
abbrev pub count_catch_up : Exec ℕ
count_catch_up = do
  modify λ w. record w { catch_up_invocation_count = w.catch_up_invocation_count + 1 }
  gets λ w. w.catch_up_invocation_count

-- The drain of `catchUp`, and the step to the live buffer, in which neither `openLive` nor
-- `ingestPersisted` throws. A drain that throws ends the way to live.
unfoldable pub drain_catch_up : Text → Adapter → ℕ → ℕ → Exec Outcome
unfolding enqueue_signal for_await enter_buffering_live
drain_catch_up group_id adapter fuel gen = do
  for_await gen (enqueue_signal group_id adapter.ingest_persisted fuel gen) adapter.catch_up.signals
  if adapter.catch_up.throws
      then (do alive gen; modify (add_degradation_reason persistence_write_failing); return_now)
      else (do
        call (enter_buffering_live group_id adapter.ingest_persisted fuel gen adapter.live_buffer)
        pure resolved)

-- `enterCatchingUp`.
unfoldable pub enter_catching_up : Text → Adapter → ℕ → ℕ → Exec Outcome
unfolding transition_to drain_catch_up
enter_catching_up group_id adapter fuel gen = do
  alive gen
  call (transition_to group_id gen catching_up)
  alive gen
  modify (clear_degradation_reason preserve_and_replay_recovery)
  count ← count_catch_up
  if ltb 1 count then pure rejected else drain_catch_up group_id adapter fuel gen

-- The timer of the bootstrap fetch: whether it has fired. When it fires now, its callback starts the
-- catch-up, and nobody looks at how that settles.
unfoldable pub join_timer : Text → Adapter → ℕ → ℕ → (deadline : ℕ) → Bool → Exec Bool
unfolding enter_catching_up
join_timer group_id adapter fuel gen deadline true = pure true
join_timer group_id adapter fuel gen deadline false = do
  now ← gets λ w. w.clock
  if ltb now deadline then pure false else (do
    call (do
      alive gen
      modify (add_degradation_reason bootstrap_unresolved)
      outcome ← awaited (enter_catching_up group_id adapter fuel gen)
      pure tt)
    pure true)

-- `for await (const signal of adapter.fetchBootstrap())`; the result says whether the timer fired.
unfoldable pub drain_bootstrap :
    Text → Adapter → ℕ → ℕ → (deadline : ℕ) → Bool → List IngestSignal → Exec Bool
unfolding join_timer enqueue_signal
drain_bootstrap group_id adapter fuel gen deadline fired [] = do
  modify pass
  join_timer group_id adapter fuel gen deadline fired
drain_bootstrap group_id adapter fuel gen deadline fired (signal ∷ signals) = do
  modify pass
  fired_now ← join_timer group_id adapter fuel gen deadline fired
  alive gen
  enqueue_signal group_id adapter.ingest_persisted fuel gen signal
  alive gen
  drain_bootstrap group_id adapter fuel gen deadline fired_now signals

-- The `catch` of `runBootstrapFetch`.
unfoldable pub bootstrap_failed : Text → Adapter → ℕ → ℕ → Bool → Exec Outcome
unfolding enter_catching_up
bootstrap_failed group_id adapter fuel gen true = do alive gen; pure resolved
bootstrap_failed group_id adapter fuel gen false = do
  alive gen
  modify (add_degradation_reason bootstrap_unresolved)
  enter_catching_up group_id adapter fuel gen

-- The catch-up stands inside the `try`: where it throws, the `catch` runs.
abbrev pub catch_rejection : Text → Adapter → ℕ → ℕ → Outcome → Exec Outcome
catch_rejection group_id adapter fuel gen resolved = pure resolved
catch_rejection group_id adapter fuel gen rejected =
    bootstrap_failed group_id adapter fuel gen false

-- The rest of the `try` once `fetchBootstrap` has ended.
unfoldable pub bootstrap_fetched : Text → Adapter → ℕ → ℕ → Bool → Exec Outcome
unfolding enter_catching_up bootstrap_failed
bootstrap_fetched group_id adapter fuel gen true = do
  alive gen
  modify λ w. record w { bootstrap_completed = true }
  modify (clear_degradation_reason bootstrap_unresolved)
  modify λ w. save_checkpoint_resilient group_id w
  alive gen
  pure resolved
bootstrap_fetched group_id adapter fuel gen false = do
  alive gen
  modify λ w. record w { bootstrap_completed = true }
  outcome ← awaited (enter_catching_up group_id adapter fuel gen)
  catch_rejection group_id adapter fuel gen outcome

-- `runBootstrapFetch`.
unfoldable pub run_bootstrap_fetch : Text → Adapter → ℕ → ℕ → ℕ → Exec Outcome
unfolding drain_bootstrap bootstrap_failed bootstrap_fetched
run_bootstrap_fetch group_id adapter t_join_ms fuel gen = do
  alive gen
  now ← gets λ w. w.clock
  fired ←
      drain_bootstrap group_id adapter fuel gen (now + t_join_ms) false
        adapter.fetch_bootstrap.signals
  if adapter.fetch_bootstrap.throws
      then bootstrap_failed group_id adapter fuel gen fired
      else bootstrap_fetched group_id adapter fuel gen fired

-- `enterJoining`.
unfoldable pub enter_joining : Text → Adapter → ℕ → ℕ → ℕ → Exec Outcome
unfolding transition_to run_bootstrap_fetch
enter_joining group_id adapter t_join_ms fuel gen = do
  alive gen
  modify λ w. record w { bootstrap_completed = false }
  call (transition_to group_id gen joining)
  alive gen
  run_bootstrap_fetch group_id adapter t_join_ms fuel gen
