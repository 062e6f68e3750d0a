-- ===== src/Engine/Session/Rounds.antt =====
-- The rounds of the retry of parked facts keep the promise of the session.
use notestr.Prelude.{ℕ, zero, suc, ◌≡◌, refl, ap, Text, Bool, false, not, none, List, [], ◌∷◌}
use notestr.Domain.Events.{TaskEvent}
use notestr.Engine.Types.{IngestSignal, message, deferred, skipped, malformed, epoch_advanced}
use notestr.Engine.Policy.{IngestPolicy, remove_deferred}
use notestr.Engine.World.{World, Exec, call}
use notestr.Engine.Handlers.{process_signal, run_job, accept_local, when}
use notestr.Engine.Session.{IsSession, Triple, announced}
use notestr.Engine.Session.Triples.{bind, Calm-IsSession}
use notestr.Engine.Session.Writes.{
  save-Triple, gets-Triple, alive-Triple, read-Triple, if-Triple, weaken, conclude,
}
use notestr.Engine.Session.Local.{accept_local-Triple}
use notestr.Engine.Session.Jobs.{
  Any, say-Triple, handle_epoch_advanced-Triple, keeps, process_signal-IsSession_from,
}
use notestr.Engine.Session.Waits.{pass-Idle}
use notestr.Engine.Policy.{DeferredPolicyEntry, record_attempt, prune_deferred}
use notestr.Engine.World.{pass}
use notestr.Engine.Serial.{Job, on_signal, on_local, run_jobs}
use notestr.Engine.Retry.{
  Ingest, handle_deferred_retry_signal, for_await, record_attempts, remove_entries,
  run_deferred_retry_pass, reject_all, save_and_reject, prune_and_report_ttl_expired,
  report_and_remove_exhausted, retry_batch_now, retry_rounds, enter_retrying_deferred,
}
use notestr.Engine.Types.{live, retrying_deferred}
use notestr.Engine.Session.Writes.{same_disk-Keeps}
use notestr.Engine.Session.Passes.{
  At, Safe, call-Safe, alive-Safe, calm-Safe, transition_to-Safe, policy-Safe, retry_message-Safe,
  retry_deferred-Safe, retry_skipped-Safe, retry_malformed-Safe,
}

record_attempts-processed :
    (batch : List DeferredPolicyEntry) (p : IngestPolicy)
    → (record_attempts batch p).processed ≡ p.processed
unfolding record_attempt
record_attempts-processed [] p = refl
record_attempts-processed (e ∷ batch) p =
    record_attempts-processed batch (record_attempt p e.fact_id)

remove_entries-processed :
    (es : List DeferredPolicyEntry) (p : IngestPolicy)
    → (remove_entries es p).processed ≡ p.processed
unfolding remove_deferred
remove_entries-processed [] p = refl
remove_entries-processed (e ∷ es) p = remove_entries-processed es (remove_deferred p e.fact_id)

module _ (g : Text) where
  handle_deferred_retry_signal-Safe :
      (enter : Exec (Unit {0})) (signal : IngestSignal) (gen : ℕ)
      → ((v : World) → IsSession g v → IsSession g (enter v).1)
      → Safe g (handle_deferred_retry_signal g enter signal gen)
  unfolding handle_deferred_retry_signal
  handle_deferred_retry_signal-Safe enter (message signal) gen h =
      call-Safe g (retry_message-Safe g signal gen)
  handle_deferred_retry_signal-Safe enter (deferred fact reason epoch) gen h =
      call-Safe g (retry_deferred-Safe g fact reason gen)
  handle_deferred_retry_signal-Safe enter (skipped fact) gen h =
      call-Safe g (retry_skipped-Safe g fact gen)
  handle_deferred_retry_signal-Safe enter (malformed fact error) gen h =
      call-Safe g (retry_malformed-Safe g fact gen)
  handle_deferred_retry_signal-Safe enter (epoch_advanced new_epoch prev_epoch) gen h =
      call-Safe g (handle_epoch_advanced-Triple g enter new_epoch prev_epoch h)

  pub for_await-Safe :
      (gen : ℕ) (body : IngestSignal → Exec (Unit {0})) (signals : List IngestSignal)
      → ((signal : IngestSignal) → Safe g (body signal))
      → Safe g (for_await gen body signals)
  unfolding for_await
  for_await-Safe gen body [] h =
      calm-Safe g _ (λ w. ((pass-Idle w).0, same_disk-Keeps g w (pass w) (pass-Idle w).1))
  for_await-Safe gen body (signal ∷ signals) h =
      bind g (calm-Safe g _ (λ w. ((pass-Idle w).0, same_disk-Keeps g w (pass w) (pass-Idle w).1)))
        λ u. bind g (alive-Safe g gen) λ v.
          bind g (h signal) λ x. bind g (alive-Safe g gen) λ y. for_await-Safe gen body signals h

  run_deferred_retry_pass-Safe :
      (ingest : Ingest) (enter : Exec (Unit {0})) (gen : ℕ) (batch : List DeferredPolicyEntry)
      → ((v : World) → IsSession g v → IsSession g (enter v).1)
      → Safe g (run_deferred_retry_pass g ingest enter gen batch)
  unfolding run_deferred_retry_pass
  run_deferred_retry_pass-Safe ingest enter gen [] h = record { run = λ w s. s.0.0 }
  run_deferred_retry_pass-Safe ingest enter gen (e ∷ batch) h =
      bind g (policy-Safe g _ (record_attempts-processed (e ∷ batch))) λ u.
        bind g (read-Triple g (At g) _) λ signals.
          for_await-Safe gen _ signals
            (λ signal. handle_deferred_retry_signal-Safe enter signal gen h)

  reject_all-Safe : (reason : Text) (es : List DeferredPolicyEntry) → Safe g (reject_all reason es)
  unfolding reject_all announced
  reject_all-Safe reason [] = record { run = λ w s. s }
  reject_all-Safe reason (e ∷ es) =
      bind g (say-Triple g _ (λ xs. refl)) λ u. reject_all-Safe reason es

  save_and_reject-Safe :
      (gen : ℕ) (reason : Text) (es : List DeferredPolicyEntry)
      → Safe g (save_and_reject g gen reason es)
  unfolding save_and_reject
  save_and_reject-Safe gen reason [] = record { run = λ w s. s.0.0 }
  save_and_reject-Safe gen reason (e ∷ es) = bind g (read-Triple g (At g) _) λ ids.
      bind g (save-Triple g Any none gen ids)
        λ saved. bind g (alive-Safe g gen) λ u. reject_all-Safe reason (e ∷ es)

  prune_and_report_ttl_expired-Safe : (gen : ℕ) → Safe g (prune_and_report_ttl_expired g gen)
  unfolding prune_and_report_ttl_expired prune_deferred
  prune_and_report_ttl_expired-Safe gen =
      bind g (gets-Triple g (At g) λ w. prune_deferred w.policy w.clock) λ pruned.
        bind g {Q = λ u. At g}
          (record {
            run = λ w s. (
              (
                Calm-IsSession g w (record w { policy = pruned.1 })
                    (ap (λ (r : List DeferredPolicyEntry × IngestPolicy). r.1.processed) s.1) refl
                    (λ id a. a) s.0.0.0,
                tt,
              ),
              tt,
            );
          })
          λ u. save_and_reject-Safe gen _ pruned.0

  report_and_remove_exhausted-Safe : (gen : ℕ) → Safe g (report_and_remove_exhausted g gen)
  unfolding report_and_remove_exhausted
  report_and_remove_exhausted-Safe gen = bind g (read-Triple g (At g) _) λ exhausted.
      bind g (policy-Safe g _ (remove_entries-processed exhausted))
        λ u. save_and_reject-Safe gen _ exhausted

  pub whole-Safe : {m : Exec (Unit {0})} → Safe g m → Safe g (call m)
  whole-Safe t = call-Safe g (weaken g (At g) (λ w s. ((s, tt), tt)) t)

  pub when-Safe : (b : Bool) {m : Exec (Unit {0})} → Safe g m → Safe g (when b m)
  when-Safe b t = if-Triple g b t (record { run = λ w s. s })

  retry_batch_now-Safe :
      (ingest : Ingest) (enter : Exec (Unit {0})) (gen : ℕ) (ever : Bool)
      (batch : List DeferredPolicyEntry)
      → ((v : World) → IsSession g v → IsSession g (enter v).1)
      → Triple g (At g) (retry_batch_now g ingest enter gen ever batch) (λ u. At g)
  unfolding retry_batch_now announced
  retry_batch_now-Safe ingest enter gen ever [] h = record { run = λ w s. s }
  retry_batch_now-Safe ingest enter gen ever (e ∷ batch) h =
      bind g
        (when-Safe (not ever)
          (bind g (whole-Safe (transition_to-Safe g gen retrying_deferred)) λ u. alive-Safe g gen))
        λ u. bind g (say-Triple g _ (λ es. refl)) λ v.
          bind g (whole-Safe (run_deferred_retry_pass-Safe ingest enter gen (e ∷ batch) h))
            λ x. bind g (alive-Safe g gen) λ y. record { run = λ w s. s }

  retry_rounds-Safe :
      (ingest : Ingest) (fuel gen : ℕ) (ever : Bool)
      → Triple g (IsSession g) (retry_rounds g ingest fuel gen ever) (λ u. At g)
  unfolding retry_rounds
  retry_rounds-Safe ingest zero gen ever = record { run = λ w s. s }
  retry_rounds-Safe ingest (suc fuel) gen ever =
      weaken g (At g) (λ w s. ((s, tt), tt))
        (bind g (whole-Safe (prune_and_report_ttl_expired-Safe gen)) λ u.
          bind g (alive-Safe g gen) λ v. bind g (read-Triple g (At g) _) λ batch.
            bind g
              (retry_batch_now-Safe ingest (retry_rounds g ingest fuel gen false) gen ever batch
                (λ v s. keeps g v (retry_rounds-Safe ingest fuel gen false) s))
              λ entered. bind g (whole-Safe (report_and_remove_exhausted-Safe gen)) λ x.
                bind g (alive-Safe g gen) λ y. bind g (read-Triple g (At g) _) λ latched.
                  bind g (calm-Safe g _ (λ w. ((refl, refl, refl), λ id a. a))) λ z.
                    if-Triple g latched
                      (weaken g (IsSession g) (λ w s. s.0.0)
                        (retry_rounds-Safe ingest fuel gen entered))
                      (when-Safe entered (whole-Safe (transition_to-Safe g gen live))))

  -- In a session no event was announced twice, what was announced is noted as known, and what is
  -- known is in the accepted log. The retry of the parked facts leaves a session, whatever the
  -- adapter yields, whatever the writes and the waits bring, and however many rounds the fuel
  -- allows.
  pub enter_retrying_deferred-IsSession :
      (ingest : Ingest) (fuel gen : ℕ) (w : World)
      → IsSession g w
      → IsSession g (enter_retrying_deferred g ingest fuel gen w).1
  unfolding enter_retrying_deferred
  enter_retrying_deferred-IsSession ingest fuel gen w s =
      keeps g w
        (bind g (alive-Triple g (IsSession g) gen (λ v p. p))
          λ u. retry_rounds-Safe ingest fuel gen false)
        s

  -- The handling of any signal, with the retry of the parked facts that it may start, leaves a
  -- session: no event was announced twice, what was announced is noted as known, and what is known
  -- is in the accepted log, whatever the writes and the waits bring.
  pub process_signal-IsSession :
      (ingest : Ingest) (fuel : ℕ) (signal : IngestSignal) (gen : ℕ) (w : World)
      → IsSession g w
      → IsSession g (process_signal g (enter_retrying_deferred g ingest fuel gen) signal gen w).1
  process_signal-IsSession ingest fuel signal gen w s =
      process_signal-IsSession_from g (enter_retrying_deferred g ingest fuel gen) signal gen w
        (λ v h. enter_retrying_deferred-IsSession ingest fuel gen v h) s

  accept_local-IsSession :
      (rumor_id : Text) (payload : TaskEvent) (w : World)
      → IsSession g w
      → IsSession g (accept_local g rumor_id payload w).1
  accept_local-IsSession rumor_id payload w s =
      keeps g w (conclude g (λ u v h. ((h, tt), tt)) (accept_local-Triple g rumor_id payload)) s

  -- From a session the serial queue reaches sessions only, whatever jobs it runs in whatever
  -- order, with a generation that is current or not, and whatever the writes and the waits bring:
  -- no event is announced twice, what was announced is noted as known, and what is known is in the
  -- accepted log.
  pub run_jobs-IsSession :
      (ingest : Ingest) (fuel : ℕ) (jobs : List Job) (w : World)
      → IsSession g w
      → IsSession g (run_jobs g ingest fuel jobs w)
  unfolding run_jobs run_job
  run_jobs-IsSession ingest fuel [] w s = s
  run_jobs-IsSession ingest fuel (on_signal signal gen ∷ jobs) w s =
      run_jobs-IsSession ingest fuel jobs _ (
        keeps g w
          (bind g (alive-Triple g (IsSession g) gen (λ v p. p)) λ u. record {
            run = λ v h. ((process_signal-IsSession ingest fuel signal gen v h, tt), tt);
          })
          s)
  run_jobs-IsSession ingest fuel (on_local rumor_id payload ∷ jobs) w s =
      run_jobs-IsSession ingest fuel jobs _ (accept_local-IsSession rumor_id payload w s)
