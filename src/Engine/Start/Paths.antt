-- ===== src/Engine/Start/Paths.antt =====
-- The ways of src/engine/receive-engine.ts from `start` to the catch-up, for any two predicates: one that
-- holds before the catch-up and one that holds after it.
use notestr.Prelude.{
  ℕ, ◌+◌, ◌≡◌, refl, Text, Bool, true, false, not, Option, none, some, List, [], ◌∷◌, ltb, length,
  ◌==◌,
}
use notestr.Engine.Types.{IngestSignal, EngineCheckpoint, joining}
use notestr.Engine.World.{
  World, Exec, Flow, done, returned, call, alive, pass, bootstrap_unresolved,
  preserve_and_replay_recovery,
}
use notestr.Engine.Writes.{save_deferred_ids_with_retry}
use notestr.Engine.Steady.{Steady, set_policy-Leaves}
use notestr.Engine.Steady.Writes.{
  pass-Steady, add_degradation_reason-Steady, clear_degradation_reason-Steady,
  save_checkpoint_resilient-Steady, transition_to-Leaves, save_deferred_ids_with_retry-Leaves,
}
use notestr.Engine.Steady.Retry.{signal_job-Leaves}
use notestr.Engine.Ensures.{
  Ended, Ensures, Stable, bind-Ensures, answer, if-Ensures, when-Ensures, call-Ensures,
  modify-Ensures, gets-Ensures,
}
use notestr.Engine.Retry.{Ingest, for_await}
use notestr.Engine.Start.{
  Adapter, Outcome, resolved, rejected, settled, awaited, enqueue_signal, enter_catching_up,
  join_timer, drain_bootstrap, bootstrap_failed, catch_rejection, bootstrap_fetched,
  run_bootstrap_fetch, enter_joining,
}
use notestr.Engine.Start.Recovery.{restore_position, Stores, recover_from, is_empty_list}

abbrev pub Settles : (World → Type 0) → Outcome → World → Type 0
Settles Over o w = (o ≡ resolved) × Over w

pub restore_position-Steady :
    (c : Option EngineCheckpoint) (w : World) → Steady w (restore_position c w)
unfolding restore_position
restore_position-Steady (some c) w = record {
  counted = refl;
  quiet = λ h. (h, refl);
  told = λ h. h;
}
restore_position-Steady none w =
    let v = record w {
      last_ingested_seq = 0;
      last_epoch = none;
      last_accepted_domain_event_id = none;
      bootstrap_completed = true;
    } in
    let s = add_degradation_reason-Steady preserve_and_replay_recovery v in
    record { counted = s.counted; quiet = s.quiet; told = s.told }

completed-Steady : (b : Bool) (w : World) → Steady w (record w { bootstrap_completed = b })
completed-Steady b w = record { counted = refl; quiet = λ h. (h, refl); told = λ h. h }

pub enqueue_signal-Ensures :
    {P E : World → Type 0} (g : Text) (ingest : Ingest) (fuel gen : ℕ) (signal : IngestSignal)
    → Stable P
    → Ensures P (enqueue_signal g ingest fuel gen signal) (λ u. P) E
unfolding enqueue_signal
enqueue_signal-Ensures g ingest fuel gen signal stable =
    call-Ensures stable (signal_job-Leaves g ingest fuel gen signal)

pub for_await-Ensures :
    {P E : World → Type 0} (gen : ℕ) (body : IngestSignal → Exec (Unit {0}))
    (signals : List IngestSignal)
    → Stable P
    → Ensures P (alive gen) (λ u. P) E
    → ((signal : IngestSignal) → Ensures P (body signal) (λ u. P) E)
    → Ensures P (for_await gen body signals) (λ u. P) E
unfolding for_await
for_await-Ensures gen body [] stable live h = modify-Ensures stable pass pass-Steady
for_await-Ensures gen body (signal ∷ signals) stable live h =
    bind-Ensures (modify-Ensures stable pass pass-Steady) λ u. bind-Ensures live λ v.
      bind-Ensures (h signal)
        λ x. bind-Ensures live λ y. for_await-Ensures gen body signals stable live h

module _ (g : Text) (adapter : Adapter) (t_join_ms fuel gen : ℕ) (Fresh Over E : World → Type 0)
    (fresh : Stable Fresh) (over : Stable Over)
    (fresh_alive : Ensures Fresh (alive gen) (λ u. Fresh) E)
    (over_alive : Ensures Over (alive gen) (λ u. Over) E) (early : (w : World) → E w → Over w)
    (caught_up : Ensures Fresh (enter_catching_up g adapter fuel gen) (Settles Over) E) where
  abbrev Timed : Bool → World → Type 0
  Timed true = Over
  Timed false = Fresh

  Timed-Stable : (b : Bool) → Stable (Timed b)
  Timed-Stable true = over
  Timed-Stable false = fresh

  timer_alive : (b : Bool) → Ensures (Timed b) (alive gen) (λ u. Timed b) E
  timer_alive true = over_alive
  timer_alive false = fresh_alive

  -- An awaited call settles either way.
  awaited-Ensures : Ensures Fresh (awaited (enter_catching_up g adapter fuel gen)) (Settles Over) E
  awaited-Ensures = record {
    run = λ w h. go (enter_catching_up g adapter fuel gen w) (caught_up.run w h);
  }
    where
      go :
          (r : Flow Outcome × World)
          → Ended (Settles Over) E r
          → Settles Over (settled r).0 (settled r).1
      go (done o, w) h = h
      go (returned, w) h = (refl, early w h)

  call-Over :
      (m : Exec (Unit {0})) → Ensures Fresh m (λ u. Over) E → Ensures Fresh (call m) (λ u. Over) E
  call-Over m p = record { run = λ w h. go (m w) (p.run w h) }
    where
      go : (r : Flow (Unit {0}) × World) → Ended (λ (u : Unit {0}). Over) E r → Over r.1
      go (done u, w) h = h
      go (returned, w) h = early w h

  join_timer-Ensures :
      (deadline : ℕ) (fired : Bool)
      → Ensures (Timed fired) (join_timer g adapter fuel gen deadline fired) Timed E
  unfolding join_timer
  join_timer-Ensures deadline true = answer true (λ w h. h)
  join_timer-Ensures deadline false = bind-Ensures (gets-Ensures _) λ now.
      if-Ensures (ltb now deadline) (answer false (λ w h. h)) (
        bind-Ensures
          (call-Over _ (
            bind-Ensures fresh_alive λ u.
              bind-Ensures
                (modify-Ensures fresh _ (add_degradation_reason-Steady bootstrap_unresolved))
                λ v. bind-Ensures awaited-Ensures λ o. answer tt (λ w h. h.1)))
          λ u. answer true (λ w h. h))

  drain_bootstrap-Ensures :
      (deadline : ℕ) (fired : Bool) (signals : List IngestSignal)
      → Ensures (Timed fired) (drain_bootstrap g adapter fuel gen deadline fired signals) Timed E
  unfolding drain_bootstrap
  drain_bootstrap-Ensures deadline fired [] =
      bind-Ensures (modify-Ensures (Timed-Stable fired) pass pass-Steady)
        λ u. join_timer-Ensures deadline fired
  drain_bootstrap-Ensures deadline fired (signal ∷ signals) =
      bind-Ensures (modify-Ensures (Timed-Stable fired) pass pass-Steady) λ u.
        bind-Ensures (join_timer-Ensures deadline fired) λ now. bind-Ensures (timer_alive now) λ v.
          bind-Ensures
            (enqueue_signal-Ensures g adapter.ingest_persisted fuel gen signal (Timed-Stable now))
            λ x. bind-Ensures (timer_alive now) λ y. drain_bootstrap-Ensures deadline now signals

  bootstrap_failed-Ensures :
      (fired : Bool)
      → Ensures (Timed fired) (bootstrap_failed g adapter fuel gen fired) (Settles Over) E
  unfolding bootstrap_failed
  bootstrap_failed-Ensures true = bind-Ensures over_alive λ u. answer resolved (λ w h. (refl, h))
  bootstrap_failed-Ensures false = bind-Ensures fresh_alive λ u.
      bind-Ensures (modify-Ensures fresh _ (add_degradation_reason-Steady bootstrap_unresolved))
        λ v. caught_up

  catch_rejection-Ensures :
      (o : Outcome)
      → Ensures (Settles Over o) (catch_rejection g adapter fuel gen o) (Settles Over) E
  catch_rejection-Ensures resolved = answer resolved (λ w h. h)
  catch_rejection-Ensures rejected = record { run = λ w h. absurd_outcome h.0 }
    where
      absurd_outcome : {A : Type 0} → rejected ≡ resolved → A
      absurd_outcome e = cc

  bootstrap_fetched-Ensures :
      (fired : Bool)
      → Ensures (Timed fired) (bootstrap_fetched g adapter fuel gen fired) (Settles Over) E
  unfolding bootstrap_fetched
  bootstrap_fetched-Ensures true = bind-Ensures over_alive λ u.
      bind-Ensures (modify-Ensures over _ (completed-Steady true)) λ v.
        bind-Ensures (modify-Ensures over _ (clear_degradation_reason-Steady bootstrap_unresolved))
          λ x.
            bind-Ensures (modify-Ensures over _ (save_checkpoint_resilient-Steady g))
              λ y. bind-Ensures over_alive λ z. answer resolved (λ w h. (refl, h))
  bootstrap_fetched-Ensures false = bind-Ensures fresh_alive λ u.
      bind-Ensures (modify-Ensures fresh _ (completed-Steady true))
        λ v. bind-Ensures awaited-Ensures λ o. catch_rejection-Ensures o

  run_bootstrap_fetch-Ensures :
      Ensures Fresh (run_bootstrap_fetch g adapter t_join_ms fuel gen) (Settles Over) E
  unfolding run_bootstrap_fetch
  run_bootstrap_fetch-Ensures = bind-Ensures fresh_alive λ u. bind-Ensures (gets-Ensures _) λ now.
      bind-Ensures (drain_bootstrap-Ensures (now + t_join_ms) false adapter.fetch_bootstrap.signals)
        λ fired.
          if-Ensures adapter.fetch_bootstrap.throws (bootstrap_failed-Ensures fired)
            (bootstrap_fetched-Ensures fired)

  pub enter_joining-Ensures :
      Ensures Fresh (enter_joining g adapter t_join_ms fuel gen) (Settles Over) E
  unfolding enter_joining
  enter_joining-Ensures = bind-Ensures fresh_alive λ u.
      bind-Ensures (modify-Ensures fresh _ (completed-Steady false)) λ v.
        bind-Ensures (call-Ensures fresh (transition_to-Leaves g gen joining))
          λ x. bind-Ensures fresh_alive λ y. run_bootstrap_fetch-Ensures

  -- The recovery, once its stores are read.
  pub recovered-Ensures :
      (stores : Stores)
      → Ensures Fresh (recover_from g adapter fuel gen (some stores)) (Settles Over) E
  unfolding recover_from
  recovered-Ensures stores = bind-Ensures fresh_alive λ u.
      bind-Ensures (modify-Ensures fresh _ ((set_policy-Leaves _).run)) λ v.
        bind-Ensures
          (when-Ensures (not (length _ == length stores.deferred_ids))
            (bind-Ensures (saved _) λ s. fresh_alive))
          λ x. bind-Ensures (gets-Ensures _) λ now.
            bind-Ensures (modify-Ensures fresh _ ((set_policy-Leaves _).run)) λ y.
              bind-Ensures (gets-Ensures _) λ gap. bind-Ensures (gets-Ensures _) λ signals.
                bind-Ensures
                  (when-Ensures (not (is_empty_list gap)) (
                    for_await-Ensures gen _ signals fresh fresh_alive (λ signal.
                      enqueue_signal-Ensures g adapter.ingest_persisted fuel gen signal fresh)))
                  λ z. bind-Ensures fresh_alive λ a. caught_up
    where
      saved :
          (ids : List Text) → Ensures Fresh (save_deferred_ids_with_retry g gen ids) (λ b. Fresh) E
      saved ids = record {
        run = λ w h. fresh w _ ((save_deferred_ids_with_retry-Leaves g gen ids).run w) h;
      }
