-- ===== src/Engine/Handlers.antt =====
-- src/engine/receive-engine.ts: one function for each signal of the adapter, and `acceptLocal`.
-- `alive gen` after an await is `if (gen !== generation) return;`. What happens on an
-- epoch change while live, `enterRetryingDeferred`, is an argument.
use notestr.Prelude.{ℕ, ◌++◌, Text, lit, Bool, true, false, Option, none, some, ltb, if◌then◌else◌}
use notestr.Domain.Events.{
  TaskEvent, task_created, task_updated, task_status_changed, task_assigned, task_deleted,
  SourceKind, mls_rumor, bootstrap_kind_30078, AcceptedDomainEvent, or_else,
  derive_mls_accepted_event_id, derive_bootstrap_accepted_event_id,
}
use notestr.Engine.Types.{
  RawProtocolFact, RawProtocolFactInput, ReceiptSource, bootstrap_snapshot, historical,
  live_delivery, EngineLifecycleState, live, MessageSignal, IngestSignal, message, deferred,
  skipped, malformed, epoch_advanced, DeferredReason, envelope_received, envelope_deferred,
  domain_event_accepted, domain_event_rejected, group_epoch_advanced, group_ratchet_advanced,
}
use notestr.Engine.Policy.{
  has_processed, mark_processed, has_deferred, enqueue_deferred, remove_deferred, deferred_fact_ids,
  deferred_size,
}
use notestr.Engine.World.{
  World, Exec, ◌>>=◌, ◌>>◌, pure, return_now, gets, modify, call, emit, alive, advance_watermark,
  set_policy,
}
use notestr.Engine.Writes.{
  append_fact_with_retry, append_accepted_event_with_retry, accept_deferred_fact_with_retry,
  save_deferred_ids_with_retry,
}

-- `taskIdOf`.
abbrev pub task_id_of : TaskEvent → Text
task_id_of (task_created task) = task.id
task_id_of (task_updated id changes stamp) = id
task_id_of (task_status_changed id status stamp) = id
task_id_of (task_assigned id assignee stamp) = id
task_id_of (task_deleted id stamp) = id

abbrev pub source_kind_of : ReceiptSource → SourceKind
source_kind_of bootstrap_snapshot = bootstrap_kind_30078
source_kind_of historical = mls_rumor
source_kind_of live_delivery = mls_rumor

abbrev pub event_id_of : Text → MessageSignal → Text
event_id_of group_id signal = elim signal.receipt_source [
  | bootstrap_snapshot ↦ derive_bootstrap_accepted_event_id group_id (task_id_of signal.payload)
  | _ ↦ derive_mls_accepted_event_id signal.rumor_id
]

-- The event that a message becomes.
abbrev pub accepted_event : Text → MessageSignal → Text → World → AcceptedDomainEvent
accepted_event group_id signal fact_id w = record {
  id = event_id_of group_id signal;
  fact_id = fact_id;
  source_kind = source_kind_of signal.receipt_source;
  group_id = group_id;
  accepted_at = w.clock;
  epoch = signal.epoch;
  payload = signal.payload;
}

-- `if (outcome === undefined) return;`
abbrev pub landed_or_return {ℓ} : {A : Type ℓ} → Option A → Exec A
landed_or_return none = return_now
landed_or_return (some a) = pure a

-- `if (test) { body }`
abbrev pub when : Bool → Exec (Unit {0}) → Exec (Unit {0})
when b body = if b then body else pure tt

abbrev pub is_live : EngineLifecycleState → Bool
is_live live = true
is_live _ = false

-- The append that every handler starts with.
unfoldable pub append_or_return : ℕ → RawProtocolFactInput → Exec RawProtocolFact
unfolding append_fact_with_retry
append_or_return gen fact = do
  outcome ← append_fact_with_retry gen fact
  appended ← landed_or_return outcome
  alive gen
  pure appended.fact

-- What is done once the accepted event is stored.
abbrev pub note_accepted : AcceptedDomainEvent → World → World
note_accepted event w = record w {
  policy = mark_processed w.policy event.id;
  last_accepted_domain_event_id = some event.id;
}

-- `ingestPolicy.removeDeferred(id); await saveDeferredIdsWithRetry(...)`.
unfoldable pub unpark : Text → ℕ → Text → Exec (Unit {0})
unfolding save_deferred_ids_with_retry
unpark group_id gen fact_id = do
  set_policy λ p. remove_deferred p fact_id
  ids ← gets λ w. deferred_fact_ids w.policy
  saved ← save_deferred_ids_with_retry group_id gen ids
  alive gen

-- The write of a message's event: at once with the un-parking where the fact waits.
unfoldable pub store_event : Text → ℕ → Text → AcceptedDomainEvent → Exec (Unit {0})
unfolding unpark accept_deferred_fact_with_retry append_accepted_event_with_retry
store_event group_id gen fact_id event = do
  parked ← gets λ w. has_deferred w.policy fact_id
  if parked
      then (do
        accepted ← accept_deferred_fact_with_retry group_id gen fact_id event
        alive gen
        stored ← landed_or_return accepted
        unpark group_id gen fact_id)
      else (do
        appended ← append_accepted_event_with_retry gen event
        alive gen
        landed_or_return appended)

unfoldable pub handle_message : Text → MessageSignal → ℕ → Exec (Unit {0})
unfolding append_or_return store_event
handle_message group_id signal gen = do
  fact ← append_or_return gen signal.fact
  emit (envelope_received fact.id)
  known ← gets λ w. has_processed w.policy (event_id_of group_id signal)
  event ← gets (accepted_event group_id signal fact.id)
  if known then advance_watermark fact.seq else (do
    store_event group_id gen fact.id event
    modify (note_accepted event)
    advance_watermark fact.seq
    emit (domain_event_accepted event))

-- The entry of the queue that `handleDeferred` makes; whether it is new is its result.
abbrev pub park : RawProtocolFact → DeferredReason → Exec Bool
park fact reason = do
  outcome ← gets λ w. enqueue_deferred w.policy fact.id fact reason w.clock
  set_policy λ p. outcome.1
  pure outcome.0

unfoldable pub handle_deferred : Text → RawProtocolFactInput → DeferredReason → ℕ → Exec (Unit {0})
unfolding append_or_return save_deferred_ids_with_retry
handle_deferred group_id input reason gen = do
  fact ← append_or_return gen input
  emit (envelope_received fact.id)
  is_new ← park fact reason
  ids ← gets λ w. deferred_fact_ids w.policy
  deferred_durable ←
      if is_new
      then (do saved ← save_deferred_ids_with_retry group_id gen ids; alive gen; pure saved)
      else pure true
  when deferred_durable (advance_watermark fact.seq)
  emit (envelope_deferred fact.id reason)

unfoldable pub handle_skipped : RawProtocolFactInput → ℕ → Exec (Unit {0})
unfolding append_or_return
handle_skipped input gen = do
  fact ← append_or_return gen input
  advance_watermark fact.seq
  emit (envelope_received fact.id)
  emit group_ratchet_advanced

unfoldable pub handle_malformed : Text → RawProtocolFactInput → ℕ → Exec (Unit {0})
unfolding append_or_return unpark
handle_malformed group_id input gen = do
  fact ← append_or_return gen input
  advance_watermark fact.seq
  emit (envelope_received fact.id)
  parked ← gets λ w. has_deferred w.policy fact.id
  when parked (unpark group_id gen fact.id)
  emit (domain_event_rejected fact.id (lit "parse_error"))

unfoldable pub handle_epoch_advanced : Exec (Unit {0}) → Text → Text → Exec (Unit {0})
handle_epoch_advanced enter_retrying_deferred new_epoch prev_epoch = do
  modify λ w. record w { last_epoch = some new_epoch }
  emit (group_epoch_advanced new_epoch prev_epoch)
  at_live ← gets λ w. is_live w.lifecycle
  parked ← gets λ w. deferred_size w.policy
  if at_live
      then when (ltb 0 parked) (call enter_retrying_deferred)
      else modify λ w. record w { pending_deferred_retry = true }

-- `processSignal`.
unfoldable pub process_signal : Text → Exec (Unit {0}) → IngestSignal → ℕ → Exec (Unit {0})
unfolding handle_message handle_deferred handle_skipped handle_malformed handle_epoch_advanced
process_signal group_id enter (message signal) gen = call (handle_message group_id signal gen)
process_signal group_id enter (deferred fact reason epoch) gen =
    call (handle_deferred group_id fact reason gen)
process_signal group_id enter (skipped fact) gen = call (handle_skipped fact gen)
process_signal group_id enter (malformed fact error) gen = call (handle_malformed group_id fact gen)
process_signal group_id enter (epoch_advanced new_epoch prev_epoch) gen =
    call (handle_epoch_advanced enter new_epoch prev_epoch)

-- A job of the serial queue: `enqueueGen` looks at the generation when its turn has come.
unfoldable pub run_job : ℕ → Exec (Unit {0}) → Exec (Unit {0})
run_job gen job = do alive gen; job

abbrev pub local_event : Text → Text → TaskEvent → World → AcceptedDomainEvent
local_event group_id rumor_id payload w = record {
  id = derive_mls_accepted_event_id rumor_id;
  fact_id = lit "local:" ++ rumor_id;
  source_kind = mls_rumor;
  group_id = group_id;
  accepted_at = w.clock;
  epoch = or_else w.last_epoch (lit "unknown");
  payload = payload;
}

-- `acceptLocal`, with the generation as it is when the job runs.
unfoldable pub accept_local : Text → Text → TaskEvent → Exec (Unit {0})
unfolding append_accepted_event_with_retry
accept_local group_id rumor_id payload = do
  gen ← gets λ w. w.generation
  known ← gets λ w. has_processed w.policy (derive_mls_accepted_event_id rumor_id)
  event ← gets (local_event group_id rumor_id payload)
  if known then return_now else (do
    appended ← append_accepted_event_with_retry gen event
    stored ← landed_or_return appended
    alive gen
    modify (note_accepted event)
    emit (domain_event_accepted event))
