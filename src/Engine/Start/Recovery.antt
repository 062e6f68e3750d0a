-- ===== src/Engine/Start/Recovery.antt =====
-- src/engine/receive-engine.ts: `enterRecovering` and the calls of the engine's owner, `start`, `stop`
-- and `reset`. A stored checkpoint that `isValidCheckpoint` turns down is treated as a read that
-- fails, as the code does.
use notestr.Prelude.{
  ℕ, ◌+◌, Text, Bool, true, false, not, ◌||◌, Option, none, some, List, [], ◌∷◌, keep, any, same,
  length, ltb, ◌==◌, if◌then◌else◌,
}
use notestr.Prelude.Dict.{Dict, get, set}
use notestr.Domain.Events.{AcceptedDomainEvent, or_else}
use notestr.Engine.Types.{
  RawProtocolFact, EngineLifecycleState, uninitialized, recovering, EngineCheckpoint, unreadable,
}
use notestr.Engine.Policy.{IngestPolicy, mark_processed, enqueue_deferred, create_ingest_policy}
use notestr.Engine.World.{
  World, Exec, ◌>>=◌, ◌>>◌, pure, gets, modify, call, alive, pass, next_await,
  preserve_and_replay_recovery, add_degradation_reason, no_degradation, is_halted, stop_now,
  emit_state_changed, set_policy,
}
use notestr.Engine.Writes.{save_deferred_ids_with_retry, save_checkpoint_resilient}
use notestr.Engine.Handlers.{when}
use notestr.Engine.Retry.{transition_to, for_await}
use notestr.Engine.Start.{
  Adapter, StartOrigin, welcome, restored, Outcome, resolved, rejected, settled, read_stores,
  enqueue_signal, enter_catching_up, enter_joining,
}
use notestr.Persistence.{
  Disk, load_facts, load_accepted_events, load_deferred_ids, load_checkpoint, clear_group_state,
  torn_clear,
}

-- The first statements of `enterRecovering`; `none` is the way by preserve-and-replay.
unfoldable pub restore_position : Option EngineCheckpoint → World → World
restore_position none w = add_degradation_reason preserve_and_replay_recovery (record w {
  last_ingested_seq = 0;
  last_epoch = none;
  last_accepted_domain_event_id = none;
  bootstrap_completed = true;
})
restore_position (some checkpoint) w = record w {
  last_ingested_seq = checkpoint.last_ingested_seq;
  last_epoch = checkpoint.last_epoch;
  last_accepted_domain_event_id = checkpoint.last_accepted_domain_event_id;
  bootstrap_completed = true;
}

unfoldable pub mark_all_processed : List AcceptedDomainEvent → IngestPolicy → IngestPolicy
mark_all_processed [] p = p
mark_all_processed (event ∷ events) p = mark_all_processed events (mark_processed p event.id)

-- R2a: the parked ids that no accepted event stands for.
unfoldable pub live_deferred_ids : List AcceptedDomainEvent → List Text → List Text
live_deferred_ids accepted_log deferred_ids =
    keep (λ id. not (any (λ (e : AcceptedDomainEvent). same e.fact_id id) accepted_log))
      deferred_ids

-- `new Map(rawLog.map(...))`.
unfoldable pub facts_by_id : List RawProtocolFact → Dict RawProtocolFact → Dict RawProtocolFact
facts_by_id [] m = m
facts_by_id (fact ∷ facts) m = facts_by_id facts (set fact.id fact m)

-- R2: the parked facts go back to the queue.
unfoldable pub rebuild_queue : List Text → Dict RawProtocolFact → ℕ → IngestPolicy → IngestPolicy
rebuild_queue [] facts now p = p
rebuild_queue (id ∷ ids) facts now p = rebuild_queue ids facts now (elim (get id facts) [
  | none ↦ p
  | some fact ↦ (enqueue_deferred p fact.id fact unreadable now).1
])

-- R3: the facts beyond the watermark.
unfoldable pub gap_facts : List RawProtocolFact → ℕ → List RawProtocolFact
gap_facts raw_log watermark = keep (λ f. ltb watermark f.seq) raw_log

-- What `Promise.all` reads for the recovery.
pub record Stores : Type 0 where
  pub raw_log : List RawProtocolFact
  pub accepted_log : List AcceptedDomainEvent
  pub deferred_ids : List Text

unfoldable pub load_stores : Text → Disk → Stores
load_stores group_id d = record {
  raw_log = load_facts d group_id;
  accepted_log = load_accepted_events d group_id;
  deferred_ids = load_deferred_ids d group_id;
}

abbrev pub is_empty_list {ℓ} : {A : Type ℓ} → List A → Bool
is_empty_list [] = true
is_empty_list (x ∷ xs) = false

-- R1 to R4, once the stores are read.
unfoldable pub recover_from : Text → Adapter → ℕ → ℕ → Option Stores → Exec Outcome
unfolding save_deferred_ids_with_retry for_await enqueue_signal enter_catching_up
recover_from group_id adapter fuel gen none = pure rejected
recover_from group_id adapter fuel gen (some stores) = do
  alive gen
  set_policy (mark_all_processed stores.accepted_log)
  let ids = live_deferred_ids stores.accepted_log stores.deferred_ids
  when (not (length ids == length stores.deferred_ids))
      (do saved ← save_deferred_ids_with_retry group_id gen ids; alive gen)
  now ← gets λ w. w.clock
  set_policy (rebuild_queue ids (facts_by_id stores.raw_log []) now)
  gap ← gets λ w. gap_facts stores.raw_log w.last_ingested_seq
  signals ← gets (adapter.ingest_persisted gap)
  when (not (is_empty_list gap))
      (for_await gen (enqueue_signal group_id adapter.ingest_persisted fuel gen) signals)
  alive gen
  enter_catching_up group_id adapter fuel gen

-- `enterRecovering`.
unfoldable pub enter_recovering : Text → Adapter → ℕ → ℕ → Option EngineCheckpoint → Exec Outcome
unfolding transition_to read_stores recover_from
enter_recovering group_id adapter fuel gen checkpoint = do
  alive gen
  modify (restore_position checkpoint)
  call (transition_to group_id gen recovering)
  alive gen
  stores ← read_stores (load_stores group_id)
  recover_from group_id adapter fuel gen stores

-- The end of `start` where no checkpoint can be used.
unfoldable pub start_from_logs : Text → Adapter → ℕ → ℕ → ℕ → Option Stores → Exec Outcome
unfolding enter_joining enter_recovering
start_from_logs group_id adapter t_join_ms fuel gen none = pure rejected
start_from_logs group_id adapter t_join_ms fuel gen (some stores) = do
  alive gen
  if is_empty_list stores.raw_log
      then (if is_empty_list stores.accepted_log
          then enter_joining group_id adapter t_join_ms fuel gen
          else enter_recovering group_id adapter fuel gen none)
      else enter_recovering group_id adapter fuel gen none

-- The routing of a restored group by its checkpoint.
unfoldable pub start_from_checkpoint :
    Text → Adapter → ℕ → ℕ → ℕ → Option EngineCheckpoint → Exec Outcome
unfolding enter_joining enter_recovering start_from_logs read_stores
start_from_checkpoint group_id adapter t_join_ms fuel gen none = do
  stores ← read_stores (load_stores group_id)
  start_from_logs group_id adapter t_join_ms fuel gen stores
start_from_checkpoint group_id adapter t_join_ms fuel gen (some checkpoint) =
    if checkpoint.bootstrap_completed
    then enter_recovering group_id adapter fuel gen (some checkpoint)
    else enter_joining group_id adapter t_join_ms fuel gen

abbrev pub join_options {ℓ} : {A : Type ℓ} → Option (Option A) → Option A
join_options none = none
join_options (some a) = a

-- The `try` of `start`.
unfoldable pub start_session : Text → Adapter → ℕ → ℕ → ℕ → StartOrigin → Exec Outcome
unfolding enter_joining read_stores start_from_checkpoint
start_session group_id adapter t_join_ms fuel gen welcome =
    enter_joining group_id adapter t_join_ms fuel gen
start_session group_id adapter t_join_ms fuel gen restored = do
  loaded ← read_stores λ d. load_checkpoint d group_id
  alive gen
  start_from_checkpoint group_id adapter t_join_ms fuel gen (join_options loaded)

abbrev pub is_uninitialized : EngineLifecycleState → Bool
is_uninitialized uninitialized = true
is_uninitialized _ = false

-- `start`.
unfoldable pub start : Text → Adapter → ℕ → ℕ → StartOrigin → World → Outcome × World
unfolding start_session
start group_id adapter t_join_ms fuel origin w =
    if not (is_uninitialized w.lifecycle) || w.start_in_flight
    then (rejected, w)
    else (let gen = w.generation + 1 in
        let (outcome, w') = settled (
          start_session group_id adapter t_join_ms fuel gen origin
            (record w { start_in_flight = true; generation = gen })) in
        (outcome, record w' { start_in_flight = false }))

-- `stop`.
unfoldable pub stop : Text → World → World
stop group_id w =
    if is_halted w.lifecycle then w else save_checkpoint_resilient group_id (stop_now w)

-- What `reset` does before it clears the stores.
unfoldable pub reset_now : World → World
reset_now w = record w {
  generation = w.generation + 1;
  active_persistence_failures = 0;
  degradation = no_degradation;
  last_epoch = none;
  last_ingested_seq = 0;
  last_accepted_domain_event_id = none;
  bootstrap_completed = false;
  pending_deferred_retry = false;
  catch_up_invocation_count = 0;
  policy = or_else (create_ingest_policy w.policy.options) w.policy;
}

-- The part of `reset` after the await of `clearGroupState`.
unfoldable pub finish_reset : ℕ → Bool → (torn : Disk) → Option Disk → World → Outcome × World
finish_reset gen true torn cleared w = (rejected, pass (record w { disk = torn }))
finish_reset gen false torn none w = (rejected, pass w)
finish_reset gen false torn (some d) w =
    let w' = pass (record w { disk = d }) in
    if gen == w'.generation
    then (resolved, emit_state_changed (record w' { lifecycle = uninitialized }))
    else (resolved, w')

-- `reset`.
unfoldable pub reset : Text → World → Outcome × World
unfolding reset_now finish_reset
reset group_id w =
    let v = reset_now w in
    finish_reset v.generation (next_await v).fails (torn_clear group_id (next_await v).torn v.disk)
      (clear_group_state group_id v.disk) v
