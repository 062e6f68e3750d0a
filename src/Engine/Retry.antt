-- ===== src/Engine/Retry.antt =====
-- src/engine/receive-engine.ts: the retry of parked facts (the transitions L8 and L9). The adapter's
-- `ingestPersisted` is an argument: what it yields for a batch in a world. The rounds of
-- `enterRetryingDeferred` are counted by fuel.
use notestr.Prelude.{
  ℕ, zero, suc, Text, lit, Bool, true, false, not, ◌&&◌, Option, none, some, List, [], ◌∷◌, map,
  length, ltb, if◌then◌else◌,
}
use notestr.Domain.Events.{AcceptedDomainEvent}
use notestr.Engine.Types.{
  RawProtocolFact, RawProtocolFactInput, EngineLifecycleState, live, retrying_deferred,
  MessageSignal, IngestSignal, message, deferred, skipped, malformed, epoch_advanced,
  DeferredReason, envelope_received, envelope_deferred, domain_event_accepted,
  domain_event_rejected, group_ratchet_advanced, deferred_retry_started,
}
use notestr.Engine.Policy.{
  IngestPolicy, DeferredPolicyEntry, has_processed, deferred_fact_ids, deferred_size, retry_batch,
  record_attempt, refund_attempt, remove_deferred, exhausted_entries, prune_deferred,
}
use notestr.Engine.World.{
  World, Exec, ◌>>=◌, ◌>>◌, pure, return_now, gets, modify, call, emit, alive, pass,
  emit_state_changed, advance_watermark, set_policy,
}
use notestr.Engine.Writes.{
  accept_deferred_fact_with_retry, save_deferred_ids_with_retry, save_checkpoint_resilient,
  reason_deferred_ttl_expired, reason_retry_exhausted,
}
use notestr.Engine.Handlers.{
  append_or_return, accepted_event, event_id_of, note_accepted, unpark, when, handle_epoch_advanced,
}

-- `transitionTo`.
unfoldable pub transition_to : Text → ℕ → EngineLifecycleState → Exec (Unit {0})
transition_to group_id gen new_lifecycle = do
  alive gen
  modify λ w. emit_state_changed (record w { lifecycle = new_lifecycle })
  modify λ w. save_checkpoint_resilient group_id w

-- The branch on the result of `acceptDeferredFactWithRetry`: a failed write gives the attempt back
-- and returns.
unfoldable pub accept_or_refund :
    AcceptedDomainEvent → RawProtocolFact → Option (Unit {0}) → Exec (Unit {0})
accept_or_refund event fact none = do set_policy λ p. refund_attempt p fact.id; return_now
accept_or_refund event fact (some u) = do
  modify (note_accepted event)
  advance_watermark fact.seq
  emit (domain_event_accepted event)

unfoldable pub retry_message : Text → MessageSignal → ℕ → Exec (Unit {0})
unfolding append_or_return accept_or_refund unpark
retry_message group_id signal gen = do
  fact ← append_or_return gen signal.fact
  emit (envelope_received fact.id)
  known ← gets λ w. has_processed w.policy (event_id_of group_id signal)
  event ← gets (accepted_event group_id signal fact.id)
  if known then advance_watermark fact.seq else (do
    accepted ← accept_deferred_fact_with_retry group_id gen fact.id event
    alive gen
    accept_or_refund event fact accepted)
  unpark group_id gen fact.id

unfoldable pub retry_deferred : RawProtocolFactInput → DeferredReason → ℕ → Exec (Unit {0})
unfolding append_or_return
retry_deferred input reason gen = do
  fact ← append_or_return gen input
  advance_watermark fact.seq
  emit (envelope_received fact.id)
  emit (envelope_deferred fact.id reason)

unfoldable pub retry_skipped : Text → RawProtocolFactInput → ℕ → Exec (Unit {0})
unfolding append_or_return unpark
retry_skipped group_id input gen = do
  fact ← append_or_return gen input
  advance_watermark fact.seq
  emit (envelope_received fact.id)
  emit group_ratchet_advanced
  unpark group_id gen fact.id

unfoldable pub retry_malformed : Text → RawProtocolFactInput → ℕ → Exec (Unit {0})
unfolding append_or_return unpark
retry_malformed group_id input gen = do
  fact ← append_or_return gen input
  advance_watermark fact.seq
  emit (envelope_received fact.id)
  emit (domain_event_rejected fact.id (lit "parse_error"))
  unpark group_id gen fact.id

-- `handleDeferredRetrySignal`.
unfoldable pub handle_deferred_retry_signal :
    Text → Exec (Unit {0}) → IngestSignal → ℕ → Exec (Unit {0})
unfolding retry_message retry_deferred retry_skipped retry_malformed handle_epoch_advanced
handle_deferred_retry_signal group_id enter (message signal) gen =
    call (retry_message group_id signal gen)
handle_deferred_retry_signal group_id enter (deferred fact reason epoch) gen =
    call (retry_deferred fact reason gen)
handle_deferred_retry_signal group_id enter (skipped fact) gen =
    call (retry_skipped group_id fact gen)
handle_deferred_retry_signal group_id enter (malformed fact error) gen =
    call (retry_malformed group_id fact gen)
handle_deferred_retry_signal group_id enter (epoch_advanced new_epoch prev_epoch) gen =
    call (handle_epoch_advanced enter new_epoch prev_epoch)

-- `for await (const signal of signals)`, with the checks of the generation around the body.
unfoldable pub for_await :
    ℕ → (IngestSignal → Exec (Unit {0})) → List IngestSignal → Exec (Unit {0})
for_await gen body [] = modify pass
for_await gen body (signal ∷ signals) = do
  modify pass
  alive gen
  body signal
  alive gen
  for_await gen body signals

abbrev pub record_attempts : List DeferredPolicyEntry → IngestPolicy → IngestPolicy
record_attempts [] p = p
record_attempts (e ∷ batch) p = record_attempts batch (record_attempt p e.fact_id)

abbrev pub remove_entries : List DeferredPolicyEntry → IngestPolicy → IngestPolicy
remove_entries [] p = p
remove_entries (e ∷ es) p = remove_entries es (remove_deferred p e.fact_id)

-- What `adapter.ingestPersisted` yields, as a function of the facts and the world; it does not throw.
abbrev pub Ingest : Type 0
Ingest = List RawProtocolFact → World → List IngestSignal

unfoldable pub run_deferred_retry_pass :
    Text → Ingest → Exec (Unit {0}) → ℕ → List DeferredPolicyEntry → Exec (Unit {0})
unfolding handle_deferred_retry_signal for_await
run_deferred_retry_pass group_id ingest_persisted enter gen [] = return_now
run_deferred_retry_pass group_id ingest_persisted enter gen (e ∷ batch) = do
  set_policy (record_attempts (e ∷ batch))
  signals ← gets (ingest_persisted (map (λ x. x.fact) (e ∷ batch)))
  for_await gen (λ signal. handle_deferred_retry_signal group_id enter signal gen) signals

-- `for (const entry of entries) emit(domain_event_rejected)`.
unfoldable pub reject_all : Text → List DeferredPolicyEntry → Exec (Unit {0})
reject_all reason [] = pure tt
reject_all reason (e ∷ es) = do emit (domain_event_rejected e.fact_id reason); reject_all reason es

-- The end that `pruneAndReportTtlExpired` and `reportAndRemoveExhausted` share.
unfoldable pub save_and_reject : Text → ℕ → Text → List DeferredPolicyEntry → Exec (Unit {0})
unfolding save_deferred_ids_with_retry reject_all
save_and_reject group_id gen reason [] = return_now
save_and_reject group_id gen reason (e ∷ es) = do
  ids ← gets λ w. deferred_fact_ids w.policy
  saved ← save_deferred_ids_with_retry group_id gen ids
  alive gen
  reject_all reason (e ∷ es)

unfoldable pub prune_and_report_ttl_expired : Text → ℕ → Exec (Unit {0})
unfolding save_and_reject
prune_and_report_ttl_expired group_id gen = do
  pruned ← gets λ w. prune_deferred w.policy w.clock
  set_policy λ p. pruned.1
  save_and_reject group_id gen reason_deferred_ttl_expired pruned.0

unfoldable pub report_and_remove_exhausted : Text → ℕ → Exec (Unit {0})
unfolding save_and_reject
report_and_remove_exhausted group_id gen = do
  exhausted ← gets λ w. exhausted_entries w.policy
  set_policy (remove_entries exhausted)
  save_and_reject group_id gen reason_retry_exhausted exhausted

-- The part of a round that retries the batch; the result is the new `everEnteredRetrying`.
unfoldable pub retry_batch_now :
    Text → Ingest → Exec (Unit {0}) → ℕ → Bool → List DeferredPolicyEntry → Exec Bool
unfolding transition_to run_deferred_retry_pass
retry_batch_now group_id ingest_persisted enter gen ever [] = pure ever
retry_batch_now group_id ingest_persisted enter gen ever (e ∷ batch) = do
  when (not ever) (do call (transition_to group_id gen retrying_deferred); alive gen)
  emit (deferred_retry_started (length (e ∷ batch)))
  call (run_deferred_retry_pass group_id ingest_persisted enter gen (e ∷ batch))
  alive gen
  pure true

-- The loop of `enterRetryingDeferred`. It may run on; the model stops where its fuel is used up, so that
-- it is a prefix of the rounds of the code.
unfoldable pub retry_rounds : Text → Ingest → ℕ → ℕ → Bool → Exec (Unit {0})
unfolding prune_and_report_ttl_expired report_and_remove_exhausted retry_batch_now
retry_rounds group_id ingest_persisted zero gen ever = return_now
retry_rounds group_id ingest_persisted (suc fuel) gen ever = do
  call (prune_and_report_ttl_expired group_id gen)
  alive gen
  batch ← gets λ w. retry_batch w.policy
  entered ←
      retry_batch_now group_id ingest_persisted
        (retry_rounds group_id ingest_persisted fuel gen false) gen ever batch
  call (report_and_remove_exhausted group_id gen)
  alive gen
  latched ← gets λ w. w.pending_deferred_retry && ltb 0 (deferred_size w.policy)
  modify λ w. record w { pending_deferred_retry = false }
  if latched
      then retry_rounds group_id ingest_persisted fuel gen entered
      else when entered (call (transition_to group_id gen live))

-- `enterRetryingDeferred`.
unfoldable pub enter_retrying_deferred : Text → Ingest → ℕ → ℕ → Exec (Unit {0})
unfolding retry_rounds
enter_retrying_deferred group_id ingest_persisted fuel gen = do
  alive gen
  retry_rounds group_id ingest_persisted fuel gen false
