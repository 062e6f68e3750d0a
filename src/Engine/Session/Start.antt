-- ===== src/Engine/Session/Start.antt =====
-- `start` of src/engine/receive-engine.ts makes and keeps a session.
use notestr.Prelude.{ℕ, ◌+◌, refl, ltb, Text, Bool, true, false, List, [], ◌∷◌}
use notestr.Engine.Types.{IngestSignal, catching_up, joining}
use notestr.Engine.World.{
  World, Exec, Flow, done, returned, modify, pure, pass, DegradationReason, bootstrap_unresolved,
  preserve_and_replay_recovery, persistence_write_failing, add_degradation_reason,
  clear_degradation_reason, health, set_reason,
}
use notestr.Engine.Handlers.{run_job}
use notestr.Engine.Retry.{Ingest}
use notestr.Engine.Session.{Ends, Triple}
use notestr.Engine.Session.Waits.{Idle, pass-Idle, emit_if_changed-Idle}
use notestr.Engine.Session.Triples.{bind}
use notestr.Engine.Session.Writes.{read-Triple, if-Triple, same_disk-Keeps}
use notestr.Engine.Session.Passes.{
  At, Safe, alive-Safe, calm-Safe, transition_to-Safe, save_checkpoint_resilient-Calm,
}
use notestr.Engine.Session.Rounds.{whole-Safe, for_await-Safe, process_signal-IsSession}
use notestr.Engine.Session.Cutover.{session-Safe, enter_buffering_live-IsSession}
use notestr.Engine.Cutover.{enter_buffering_live}
use notestr.Engine.Start.{
  Adapter, Outcome, resolved, rejected, settled, awaited, enqueue_signal, drain_catch_up,
  enter_catching_up, join_timer, drain_bootstrap, bootstrap_failed, catch_rejection,
  bootstrap_fetched, run_bootstrap_fetch, enter_joining,
}

module _ (g : Text) where
  -- An action that keeps the session, whatever it answers.
  abbrev pub Sound {ℓ} : {A : Type ℓ} → Exec A → Type 0
  Sound m = Triple g (At g) m (λ a. At g)

  pub unchanged-Safe : (f : World → World) → ((w : World) → Idle w (f w)) → Safe g (modify f)
  unchanged-Safe f h = calm-Safe g f (λ w. ((h w).0, same_disk-Keeps g w (f w) (h w).1))

  pub add_degradation_reason-Safe :
      (r : DegradationReason) → Safe g (modify (add_degradation_reason r))
  unfolding add_degradation_reason
  add_degradation_reason-Safe r = unchanged-Safe _ λ w.
      emit_if_changed-Idle (health w) (record w { degradation = set_reason r true w.degradation })

  clear_degradation_reason-Safe :
      (r : DegradationReason) → Safe g (modify (clear_degradation_reason r))
  unfolding clear_degradation_reason
  clear_degradation_reason-Safe r = unchanged-Safe _ λ w.
      emit_if_changed-Idle (health w) (record w { degradation = set_reason r false w.degradation })

  pub answer-Sound {ℓ} : {A : Type ℓ} (a : A) → Sound (pure a)
  answer-Sound a = record { run = λ w s. s }

  pub enqueue_signal-Safe :
      (ingest : Ingest) (fuel gen : ℕ) (signal : IngestSignal)
      → Safe g (enqueue_signal g ingest fuel gen signal)
  unfolding enqueue_signal run_job
  enqueue_signal-Safe ingest fuel gen signal = whole-Safe g (
      bind g (alive-Safe g gen)
        λ u. session-Safe g λ w s. process_signal-IsSession g ingest fuel signal gen w s)

  awaited-Sound : {m : Exec Outcome} → Sound m → Sound (awaited m)
  awaited-Sound {m = m} p = record { run = λ w s. go (m w) (p.run w s) }
    where
      go : (r : Flow Outcome × World) → Ends g (λ (o : Outcome). At g) r → At g (settled r).1
      go (done o, w) s = s
      go (returned, w) s = ((s, tt), tt)

  module _ (adapter : Adapter) (fuel gen : ℕ) where
    drain_catch_up-Sound : Sound (drain_catch_up g adapter fuel gen)
    unfolding drain_catch_up
    drain_catch_up-Sound =
        bind g
          (for_await-Safe g gen _ adapter.catch_up.signals
            (λ signal. enqueue_signal-Safe adapter.ingest_persisted fuel gen signal))
          λ u.
            if-Triple g adapter.catch_up.throws
              (bind g (alive-Safe g gen) λ v.
                bind g (add_degradation_reason-Safe persistence_write_failing)
                  λ x. record { run = λ w s. s.0.0 })
              (bind g (whole-Safe g cutover) λ v. answer-Sound resolved)
      where
        cutover :
            Safe g (enter_buffering_live g adapter.ingest_persisted fuel gen adapter.live_buffer)
        cutover = session-Safe g λ w s.
            enter_buffering_live-IsSession g adapter.ingest_persisted fuel gen adapter.live_buffer w
              s

    pub enter_catching_up-Sound : Sound (enter_catching_up g adapter fuel gen)
    unfolding enter_catching_up
    enter_catching_up-Sound = bind g (alive-Safe g gen) λ u.
        bind g (whole-Safe g (transition_to-Safe g gen catching_up)) λ v.
          bind g (alive-Safe g gen) λ x.
            bind g (clear_degradation_reason-Safe preserve_and_replay_recovery) λ y.
              bind g
                (bind g (unchanged-Safe _ (λ w. ((refl, refl, refl), refl)))
                  λ z. read-Triple g (At g) _)
                λ count. if-Triple g (ltb 1 count) (answer-Sound rejected) drain_catch_up-Sound

    join_timer-Sound :
        (deadline : ℕ) (fired : Bool) → Sound (join_timer g adapter fuel gen deadline fired)
    unfolding join_timer
    join_timer-Sound deadline true = answer-Sound true
    join_timer-Sound deadline false = bind g (read-Triple g (At g) _) λ now.
        if-Triple g (ltb now deadline) (answer-Sound false) (
          bind g
            (whole-Safe g (
              bind g (alive-Safe g gen) λ u.
                bind g (add_degradation_reason-Safe bootstrap_unresolved)
                  λ v. bind g (awaited-Sound enter_catching_up-Sound) λ o. answer-Sound tt))
            λ u. answer-Sound true)

    drain_bootstrap-Sound :
        (deadline : ℕ) (fired : Bool) (signals : List IngestSignal)
        → Sound (drain_bootstrap g adapter fuel gen deadline fired signals)
    unfolding drain_bootstrap
    drain_bootstrap-Sound deadline fired [] =
        bind g (unchanged-Safe pass pass-Idle) λ u. join_timer-Sound deadline fired
    drain_bootstrap-Sound deadline fired (signal ∷ signals) =
        bind g (unchanged-Safe pass pass-Idle) λ u. bind g (join_timer-Sound deadline fired) λ now.
          bind g (alive-Safe g gen) λ v.
            bind g (enqueue_signal-Safe adapter.ingest_persisted fuel gen signal)
              λ x. bind g (alive-Safe g gen) λ y. drain_bootstrap-Sound deadline now signals

    bootstrap_failed-Sound : (fired : Bool) → Sound (bootstrap_failed g adapter fuel gen fired)
    unfolding bootstrap_failed
    bootstrap_failed-Sound true = bind g (alive-Safe g gen) λ u. answer-Sound resolved
    bootstrap_failed-Sound false =
        bind g (alive-Safe g gen) λ u.
          bind g (add_degradation_reason-Safe bootstrap_unresolved) λ v. enter_catching_up-Sound

    catch_rejection-Sound : (o : Outcome) → Sound (catch_rejection g adapter fuel gen o)
    catch_rejection-Sound resolved = answer-Sound resolved
    catch_rejection-Sound rejected = bootstrap_failed-Sound false

    bootstrap_fetched-Sound : (fired : Bool) → Sound (bootstrap_fetched g adapter fuel gen fired)
    unfolding bootstrap_fetched
    bootstrap_fetched-Sound true = bind g (alive-Safe g gen) λ u.
        bind g (unchanged-Safe _ (λ w. ((refl, refl, refl), refl))) λ v.
          bind g (clear_degradation_reason-Safe bootstrap_unresolved) λ x.
            bind g (calm-Safe g _ (save_checkpoint_resilient-Calm g))
              λ y. bind g (alive-Safe g gen) λ z. answer-Sound resolved
    bootstrap_fetched-Sound false = bind g (alive-Safe g gen) λ u.
        bind g (unchanged-Safe _ (λ w. ((refl, refl, refl), refl)))
          λ v. bind g (awaited-Sound enter_catching_up-Sound) λ o. catch_rejection-Sound o

    pub enter_joining-Sound : (t_join_ms : ℕ) → Sound (enter_joining g adapter t_join_ms fuel gen)
    unfolding enter_joining run_bootstrap_fetch
    enter_joining-Sound t_join_ms = bind g (alive-Safe g gen) λ u.
        bind g (unchanged-Safe _ (λ w. ((refl, refl, refl), refl))) λ v.
          bind g (whole-Safe g (transition_to-Safe g gen joining)) λ x.
            bind g (alive-Safe g gen) λ y. bind g (alive-Safe g gen) λ z.
              bind g (read-Triple g (At g) _) λ now.
                bind g
                  (drain_bootstrap-Sound (now + t_join_ms) false adapter.fetch_bootstrap.signals)
                  λ fired.
                    if-Triple g adapter.fetch_bootstrap.throws (bootstrap_failed-Sound fired)
                      (bootstrap_fetched-Sound fired)
