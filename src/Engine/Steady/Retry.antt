-- ===== src/Engine/Steady/Retry.antt =====
-- The retry of parked facts and the handling of any signal in src/engine/receive-engine.ts are steady.
use notestr.Prelude.{
  ℕ, zero, suc, refl, Text, Bool, true, false, not, Option, none, some, List, [], ◌∷◌,
}
use notestr.Domain.Events.{AcceptedDomainEvent}
use notestr.Engine.Types.{
  RawProtocolFact, RawProtocolFactInput, DeferredReason, MessageSignal, IngestSignal, message,
  deferred, skipped, malformed, epoch_advanced, live, retrying_deferred,
}
use notestr.Engine.Policy.{DeferredPolicyEntry}
use notestr.Engine.World.{Exec, pass}
use notestr.Engine.Handlers.{process_signal, run_job}
use notestr.Engine.Retry.{
  Ingest, accept_or_refund, retry_message, retry_deferred, retry_skipped, retry_malformed,
  handle_deferred_retry_signal, for_await, run_deferred_retry_pass, reject_all, save_and_reject,
  prune_and_report_ttl_expired, report_and_remove_exhausted, retry_batch_now, retry_rounds,
  enter_retrying_deferred,
}
use notestr.Engine.Steady.{
  Leaves, bind-Leaves, call-Leaves, modify-Leaves, gets-Leaves, pure-Leaves, return-Leaves,
  alive-Leaves, if-Leaves, set_policy-Leaves, advance_watermark-Leaves,
}
use notestr.Engine.Steady.Writes.{
  emit-Leaves, pass-Steady, transition_to-Leaves, accept_deferred_fact_with_retry-Leaves,
  save_deferred_ids_with_retry-Leaves,
}
use notestr.Engine.Steady.Handlers.{
  when-Leaves, append_or_return-Leaves, note_accepted-Leaves, unpark-Leaves,
  handle_epoch_advanced-Leaves, process_signal-Leaves,
}

accept_or_refund-Leaves :
    (event : AcceptedDomainEvent) (fact : RawProtocolFact) (o : Option (Unit {0}))
    → Leaves (accept_or_refund event fact o)
unfolding accept_or_refund
accept_or_refund-Leaves event fact none = bind-Leaves (set_policy-Leaves _) λ u. return-Leaves
accept_or_refund-Leaves event fact (some u) =
    bind-Leaves (note_accepted-Leaves event)
      λ v. bind-Leaves (advance_watermark-Leaves fact.seq) λ x. emit-Leaves _

retry_message-Leaves :
    (g : Text) (signal : MessageSignal) (gen : ℕ) → Leaves (retry_message g signal gen)
unfolding retry_message
retry_message-Leaves g signal gen = bind-Leaves (append_or_return-Leaves gen signal.fact) λ fact.
    bind-Leaves (emit-Leaves _) λ u. bind-Leaves (gets-Leaves _) λ known.
      bind-Leaves (gets-Leaves _) λ event.
        bind-Leaves
          (if-Leaves known (advance_watermark-Leaves fact.seq) (
            bind-Leaves (accept_deferred_fact_with_retry-Leaves g gen fact.id event)
              λ o. bind-Leaves (alive-Leaves gen) λ v. accept_or_refund-Leaves event fact o))
          λ x. unpark-Leaves g gen fact.id

retry_deferred-Leaves :
    (input : RawProtocolFactInput) (reason : DeferredReason) (gen : ℕ)
    → Leaves (retry_deferred input reason gen)
unfolding retry_deferred
retry_deferred-Leaves input reason gen = bind-Leaves (append_or_return-Leaves gen input) λ fact.
    bind-Leaves (advance_watermark-Leaves fact.seq)
      λ u. bind-Leaves (emit-Leaves _) λ v. emit-Leaves _

retry_skipped-Leaves :
    (g : Text) (input : RawProtocolFactInput) (gen : ℕ) → Leaves (retry_skipped g input gen)
unfolding retry_skipped
retry_skipped-Leaves g input gen = bind-Leaves (append_or_return-Leaves gen input) λ fact.
    bind-Leaves (advance_watermark-Leaves fact.seq) λ u.
      bind-Leaves (emit-Leaves _) λ v. bind-Leaves (emit-Leaves _) λ x. unpark-Leaves g gen fact.id

retry_malformed-Leaves :
    (g : Text) (input : RawProtocolFactInput) (gen : ℕ) → Leaves (retry_malformed g input gen)
unfolding retry_malformed
retry_malformed-Leaves g input gen = bind-Leaves (append_or_return-Leaves gen input) λ fact.
    bind-Leaves (advance_watermark-Leaves fact.seq) λ u.
      bind-Leaves (emit-Leaves _) λ v. bind-Leaves (emit-Leaves _) λ x. unpark-Leaves g gen fact.id

handle_deferred_retry_signal-Leaves :
    (g : Text) (enter : Exec (Unit {0})) (signal : IngestSignal) (gen : ℕ)
    → Leaves enter
    → Leaves (handle_deferred_retry_signal g enter signal gen)
unfolding handle_deferred_retry_signal
handle_deferred_retry_signal-Leaves g enter (message signal) gen p =
    call-Leaves (retry_message-Leaves g signal gen)
handle_deferred_retry_signal-Leaves g enter (deferred fact reason epoch) gen p =
    call-Leaves (retry_deferred-Leaves fact reason gen)
handle_deferred_retry_signal-Leaves g enter (skipped fact) gen p =
    call-Leaves (retry_skipped-Leaves g fact gen)
handle_deferred_retry_signal-Leaves g enter (malformed fact error) gen p =
    call-Leaves (retry_malformed-Leaves g fact gen)
handle_deferred_retry_signal-Leaves g enter (epoch_advanced new_epoch prev_epoch) gen p =
    call-Leaves (handle_epoch_advanced-Leaves enter new_epoch prev_epoch p)

pub for_await-Leaves :
    (gen : ℕ) (body : IngestSignal → Exec (Unit {0})) (signals : List IngestSignal)
    → ((signal : IngestSignal) → Leaves (body signal))
    → Leaves (for_await gen body signals)
unfolding for_await
for_await-Leaves gen body [] h = modify-Leaves pass pass-Steady
for_await-Leaves gen body (signal ∷ signals) h = bind-Leaves (modify-Leaves pass pass-Steady) λ u.
    bind-Leaves (alive-Leaves gen) λ v.
      bind-Leaves (h signal)
        λ x. bind-Leaves (alive-Leaves gen) λ y. for_await-Leaves gen body signals h

run_deferred_retry_pass-Leaves :
    (g : Text) (ingest : Ingest) (enter : Exec (Unit {0})) (gen : ℕ)
    (batch : List DeferredPolicyEntry)
    → Leaves enter
    → Leaves (run_deferred_retry_pass g ingest enter gen batch)
unfolding run_deferred_retry_pass
run_deferred_retry_pass-Leaves g ingest enter gen [] p = return-Leaves
run_deferred_retry_pass-Leaves g ingest enter gen (e ∷ batch) p =
    bind-Leaves (set_policy-Leaves _) λ u. bind-Leaves (gets-Leaves _) λ signals.
      for_await-Leaves gen _ signals
        λ signal. handle_deferred_retry_signal-Leaves g enter signal gen p

reject_all-Leaves : (reason : Text) (es : List DeferredPolicyEntry) → Leaves (reject_all reason es)
unfolding reject_all
reject_all-Leaves reason [] = pure-Leaves tt
reject_all-Leaves reason (e ∷ es) = bind-Leaves (emit-Leaves _) λ u. reject_all-Leaves reason es

save_and_reject-Leaves :
    (g : Text) (gen : ℕ) (reason : Text) (es : List DeferredPolicyEntry)
    → Leaves (save_and_reject g gen reason es)
unfolding save_and_reject
save_and_reject-Leaves g gen reason [] = return-Leaves
save_and_reject-Leaves g gen reason (e ∷ es) = bind-Leaves (gets-Leaves _) λ ids.
    bind-Leaves (save_deferred_ids_with_retry-Leaves g gen ids)
      λ saved. bind-Leaves (alive-Leaves gen) λ u. reject_all-Leaves reason (e ∷ es)

prune_and_report_ttl_expired-Leaves :
    (g : Text) (gen : ℕ) → Leaves (prune_and_report_ttl_expired g gen)
unfolding prune_and_report_ttl_expired
prune_and_report_ttl_expired-Leaves g gen =
    bind-Leaves (gets-Leaves _)
      λ pruned. bind-Leaves (set_policy-Leaves _) λ u. save_and_reject-Leaves g gen _ pruned.0

report_and_remove_exhausted-Leaves :
    (g : Text) (gen : ℕ) → Leaves (report_and_remove_exhausted g gen)
unfolding report_and_remove_exhausted
report_and_remove_exhausted-Leaves g gen =
    bind-Leaves (gets-Leaves _)
      λ exhausted. bind-Leaves (set_policy-Leaves _) λ u. save_and_reject-Leaves g gen _ exhausted

retry_batch_now-Leaves :
    (g : Text) (ingest : Ingest) (enter : Exec (Unit {0})) (gen : ℕ) (ever : Bool)
    (batch : List DeferredPolicyEntry)
    → Leaves enter
    → Leaves (retry_batch_now g ingest enter gen ever batch)
unfolding retry_batch_now
retry_batch_now-Leaves g ingest enter gen ever [] p = pure-Leaves ever
retry_batch_now-Leaves g ingest enter gen ever (e ∷ batch) p =
    bind-Leaves
      (when-Leaves (not ever) (
        bind-Leaves (call-Leaves (transition_to-Leaves g gen retrying_deferred))
          λ u. alive-Leaves gen))
      λ v. bind-Leaves (emit-Leaves _) λ x.
        bind-Leaves (call-Leaves (run_deferred_retry_pass-Leaves g ingest enter gen (e ∷ batch) p))
          λ y. bind-Leaves (alive-Leaves gen) λ z. pure-Leaves true

retry_rounds-Leaves :
    (g : Text) (ingest : Ingest) (fuel gen : ℕ) (ever : Bool)
    → Leaves (retry_rounds g ingest fuel gen ever)
unfolding retry_rounds
retry_rounds-Leaves g ingest zero gen ever = return-Leaves
retry_rounds-Leaves g ingest (suc fuel) gen ever =
    bind-Leaves (call-Leaves (prune_and_report_ttl_expired-Leaves g gen)) λ u.
      bind-Leaves (alive-Leaves gen) λ v. bind-Leaves (gets-Leaves _) λ batch.
        bind-Leaves
          (retry_batch_now-Leaves g ingest _ gen ever batch
            (retry_rounds-Leaves g ingest fuel gen false))
          λ entered. bind-Leaves (call-Leaves (report_and_remove_exhausted-Leaves g gen)) λ x.
            bind-Leaves (alive-Leaves gen) λ y. bind-Leaves (gets-Leaves _) λ latched.
              bind-Leaves
                (modify-Leaves _
                  λ w. record { counted = refl; quiet = λ h. (h, refl); told = λ h. h })
                λ z.
                  if-Leaves latched (retry_rounds-Leaves g ingest fuel gen entered)
                    (when-Leaves entered (call-Leaves (transition_to-Leaves g gen live)))

pub enter_retrying_deferred-Leaves :
    (g : Text) (ingest : Ingest) (fuel gen : ℕ) → Leaves (enter_retrying_deferred g ingest fuel gen)
unfolding enter_retrying_deferred
enter_retrying_deferred-Leaves g ingest fuel gen =
    bind-Leaves (alive-Leaves gen) λ u. retry_rounds-Leaves g ingest fuel gen false

pub signal_job-Leaves :
    (g : Text) (ingest : Ingest) (fuel gen : ℕ) (signal : IngestSignal)
    → Leaves (run_job gen (process_signal g (enter_retrying_deferred g ingest fuel gen) signal gen))
unfolding run_job
signal_job-Leaves g ingest fuel gen signal =
    bind-Leaves (alive-Leaves gen)
      λ u. process_signal-Leaves g _ signal gen (enter_retrying_deferred-Leaves g ingest fuel gen)
