-- ===== src/Tests/Sessions.antt =====
-- The ingest policy, the retried writes and the jobs of a session on concrete data.
use notestr.Prelude.{
  ℕ, ◌≡◌, ◌≢◌, ◌≤◌, ◌⊎◌, inl, inr, refl, sym, ◌∙◌, ap, subst, Text, lit, Bool, true, false, not,
  Option, none, some, List, [], ◌∷◌, ◌++◌, arith, same, All, keep, map, ltb, leb, length, drop,
  if◌then◌else◌, ◌+◌, ◌-◌, ◌<◌, find, any,
}
use notestr.Prelude.{Bool-cases}
use notestr.Prelude.Dict.{get, has, IsMap}
use notestr.Domain.Events.{AcceptedDomainEvent, TaskEvent}
use notestr.Engine.Types.{
  RawProtocolFact, RawProtocolFactInput, AppendFactResult, MessageSignal, IngestSignal, message,
  deferred, epoch_advanced, live_delivery, live, unreadable, DeferredReason, EngineLifecycleState,
}
use notestr.Engine.Policy.{
  IngestPolicy, IngestPolicyOptions, DeferredPolicyEntry, create_ingest_policy,
  default_ingest_policy_options, enqueue_deferred, retry_batch, exhausted_entries, deferred_size,
  prune_deferred, is_expired, is_exhausted, has_processed,
}
use notestr.Engine.Policy.Queue.{IsQueue, enqueue_deferred-drop}
use notestr.Engine.Policy.Calls.{enqueues, records, prunes, run_calls, run_calls-IsQueue}
use notestr.Engine.Policy.Budget.{prune_deferred-keep, attempts_of, is_exhausted-attempts_of}
use notestr.Engine.World.{World, Await, quiet, no_degradation}
use notestr.Engine.Writes.{
  StoreCall, single, with_persistence_retry, retry_loop, persistence_retry_max_attempts,
  persistence_retry_delay_ms, persistence_retry_base_delay_ms, persistence_retry_max_delay_ms,
}
use notestr.Engine.Writes.Budget.{with_persistence_retry-fuel, persistence_retry_delay_ms-bounds}
use notestr.Engine.Handlers.{process_signal}
use notestr.Engine.Retry.{Ingest, enter_retrying_deferred}
use notestr.Engine.Serial.{Job, on_signal, on_local, run_jobs}
use notestr.Engine.Session.{IsSession, announced}
use notestr.Engine.Session.Waits.{Retried, with_persistence_retry-Retried}
use notestr.Engine.Session.Rounds.{enter_retrying_deferred-IsSession, run_jobs-IsSession}
use notestr.Persistence.{Disk, empty_disk, append_fact}
use notestr.Tests.{group, created}
use notestr.Tests.Stores.{input_of, fact_of}

abbrev entry_of : Text → ℕ → ℕ → DeferredPolicyEntry
entry_of id queued_at attempts = record {
  fact_id = id;
  fact = fact_of id 1;
  reason = unreadable;
  queued_at = queued_at;
  attempts = attempts;
}

abbrev pub small_options : IngestPolicyOptions
small_options = record { max_deferred_size = 2; max_deferred_age_sec = 10; max_retry_attempts = 3 }

abbrev pub fresh_policy : IngestPolicy
fresh_policy = record { options = small_options; processed = []; waiting = [] }

abbrev full_policy : IngestPolicy
full_policy = record fresh_policy {
  waiting = (lit "f1", entry_of (lit "f1") 0 3) ∷ (lit "f2", entry_of (lit "f2") 9000 0) ∷ [];
}

create_ingest_policy-small : create_ingest_policy small_options ≡ some fresh_policy
unfolding create_ingest_policy
create_ingest_policy-small = refl

run_calls-IsQueue_example : IsQueue (
    run_calls fresh_policy (
      enqueues (lit "f1") (fact_of (lit "f1") 1) unreadable 0
      ∷ records (lit "f1")
      ∷ prunes 20_000
      ∷ []))
run_calls-IsQueue_example =
    run_calls-IsQueue small_options fresh_policy
      (enqueues (lit "f1") (fact_of (lit "f1") 1) unreadable 0
        ∷ records (lit "f1")
        ∷ prunes 20_000
        ∷ [])
      create_ingest_policy-small

enqueue_deferred-drop_example :
    let new = full_policy.waiting ++ (lit "f3", entry_of (lit "f3") 9500 0) ∷ [] in
    enqueue_deferred full_policy (lit "f3") (fact_of (lit "f3") 1) unreadable 9500 ≡ (
      if has (lit "f3") full_policy.waiting then (false, full_policy) else (
        true,
        record full_policy { waiting = drop (length new - full_policy.max_deferred_size) new },
      ))
enqueue_deferred-drop_example =
    enqueue_deferred-drop full_policy (lit "f3") (fact_of (lit "f3") 1) unreadable 9500

full_policy-IsMap : IsMap full_policy.waiting
unfolding has same
full_policy-IsMap = (refl, (refl, tt))

prune_deferred-keep_example :
    ((prune_deferred full_policy 12_000).0
      ≡ map (λ e. e.1) (keep (λ e. is_expired full_policy 12_000 e.1) full_policy.waiting))
    × ((prune_deferred full_policy 12_000).1.waiting
        ≡ keep (λ e. not (is_expired full_policy 12_000 e.1)) full_policy.waiting)
prune_deferred-keep_example = prune_deferred-keep full_policy 12_000 full_policy-IsMap

get-full_policy : get (lit "f2") full_policy.waiting ≡ some (entry_of (lit "f2") 9000 0)
unfolding get same
get-full_policy = refl

is_exhausted-attempts_of_example :
    is_exhausted (attempts_of 3 full_policy (lit "f2")) (lit "f2")
    ≡ leb full_policy.max_retry_attempts ((entry_of (lit "f2") 9000 0).attempts + 3)
is_exhausted-attempts_of_example =
    is_exhausted-attempts_of 3 full_policy (lit "f2") (entry_of (lit "f2") 9000 0) get-full_policy

-- A write is refused once and then lands.
abbrev pub busy_world : World
busy_world = record {
  lifecycle = live;
  degradation = no_degradation;
  last_epoch = none;
  last_ingested_seq = 0;
  last_accepted_domain_event_id = none;
  bootstrap_completed = true;
  pending_deferred_retry = false;
  catch_up_invocation_count = 0;
  start_in_flight = false;
  generation = 1;
  active_persistence_failures = 0;
  checkpoint_save_counter = 0;
  last_committed_save_counter = 0;
  policy = fresh_policy;
  disk = empty_disk;
  emitted = [];
  clock = 0;
  schedule = record quiet { fails = true } ∷ [];
}

busy_world-IsSession : IsSession group busy_world
unfolding announced has_processed any
busy_world-IsSession = record {
  once = tt;
  known = λ id h. ground arith;
  stored = λ id h. ground arith;
}

abbrev append_one : StoreCall AppendFactResult
append_one = single λ d. append_fact d (input_of (lit "f1"))

with_persistence_retry-Retried_example :
    Retried 1 append_one busy_world (with_persistence_retry 1 append_one busy_world)
with_persistence_retry-Retried_example = with_persistence_retry-Retried 1 append_one busy_world

with_persistence_retry-fuel_example :
    retry_loop (persistence_retry_max_attempts + 5) 1 false 1 append_one busy_world
    ≡ with_persistence_retry 1 append_one busy_world
with_persistence_retry-fuel_example = with_persistence_retry-fuel 5 1 append_one busy_world

persistence_retry_delay_ms-bounds_example :
    (persistence_retry_base_delay_ms ≤ persistence_retry_delay_ms 3)
    × (persistence_retry_delay_ms 3 ≤ persistence_retry_max_delay_ms)
    × (persistence_retry_delay_ms 3 ≤ persistence_retry_delay_ms (3 + 1))
persistence_retry_delay_ms-bounds_example = persistence_retry_delay_ms-bounds 3

abbrev pub first_message : IngestSignal
first_message = message (record {
  fact = input_of (lit "f1");
  rumor_id = lit "r1";
  payload = created.payload;
  epoch = lit "1";
  receipt_source = live_delivery;
})

-- The adapter still cannot read what it is given.
abbrev pub unreadable_again : Ingest
unreadable_again facts w =
    map (λ (f : RawProtocolFact). deferred f.input unreadable (lit "2")) facts

enter_retrying_deferred-IsSession_example :
    IsSession group (enter_retrying_deferred group unreadable_again 3 1 busy_world).1
enter_retrying_deferred-IsSession_example =
    enter_retrying_deferred-IsSession group unreadable_again 3 1 busy_world busy_world-IsSession

abbrev three_jobs : List Job
three_jobs =
    on_signal first_message 1
    ∷ on_local (lit "r1") created.payload
    ∷ on_signal (epoch_advanced (lit "2") (lit "1")) 1
    ∷ []

run_jobs-IsSession_example :
    IsSession group (run_jobs group unreadable_again 3 three_jobs busy_world)
run_jobs-IsSession_example =
    run_jobs-IsSession group unreadable_again 3 three_jobs busy_world busy_world-IsSession

-- The message is refused once, retried and announced; the local copy of it is not announced again.
run_jobs-three_jobs :
    announced (run_jobs group unreadable_again 3 three_jobs busy_world).emitted ≡ lit "r1" ∷ []
unfolding announced run_jobs notestr.Engine.Handlers.run_job notestr.Engine.World.◌>>=◌
    notestr.Engine.Handlers.accept_local has_processed any process_signal notestr.Engine.World.pass
    notestr.Engine.World.add_degradation_reason notestr.Engine.World.emit_if_changed
    notestr.Engine.World.health notestr.Engine.World.emit_state_changed
    notestr.Engine.World.stop_now append_fact notestr.Persistence.append_fact_update
    notestr.Persistence.next_seq notestr.Persistence.stored_facts
    notestr.Persistence.load_accepted_events notestr.Persistence.append_accepted_update
    notestr.Engine.Types.raw_facts_key notestr.Engine.Types.accepted_events_key
    notestr.Engine.Types.deferred_ids_key notestr.Engine.Writes.unmark_failing
    notestr.Engine.Writes.mark_failing notestr.Engine.Writes.settle
    notestr.Engine.Writes.after_attempt notestr.Engine.Writes.retry_delay
    notestr.Engine.Writes.attempt_once notestr.Engine.Writes.reported retry_loop
    with_persistence_retry notestr.Engine.World.clear_degradation_reason
    notestr.Engine.Policy.has_deferred notestr.Engine.Policy.mark_processed
    notestr.Engine.Policy.deferred_size notestr.Prelude.Dict.has notestr.Prelude.Dict.get
    notestr.Prelude.Dict.set same find notestr.Persistence.append_accepted_event
    notestr.Domain.Events.derive_mls_accepted_event_id notestr.Engine.Handlers.handle_message
    notestr.Engine.Handlers.store_event notestr.Engine.Handlers.append_or_return
    notestr.Engine.Writes.append_fact_with_retry
    notestr.Engine.Writes.append_accepted_event_with_retry
    notestr.Engine.Writes.persistence_retry_delay_ms notestr.Engine.Handlers.handle_epoch_advanced
run_jobs-three_jobs = refl
