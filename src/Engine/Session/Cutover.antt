-- ===== src/Engine/Session/Cutover.antt =====
-- The end of the cutover keeps the promise of the session.
use notestr.Prelude.{ℕ, ltb, refl, Text, List, [], ◌∷◌}
use notestr.Engine.Types.{IngestSignal, buffering_live, live}
use notestr.Engine.World.{World, Exec, Flow, done, returned}
use notestr.Engine.Handlers.{process_signal, run_job}
use notestr.Engine.Retry.{Ingest, enter_retrying_deferred}
use notestr.Engine.Cutover.{enter_live, drain_live_buffer, enter_buffering_live}
use notestr.Engine.Session.{IsSession, announced, Ends}
use notestr.Engine.Session.Triples.{bind}
use notestr.Engine.Session.Writes.{read-Triple, weaken}
use notestr.Engine.Session.Jobs.{say-Triple, keeps}
use notestr.Engine.Session.Passes.{At, Safe, alive-Safe, calm-Safe, transition_to-Safe}
use notestr.Engine.Session.Rounds.{
  when-Safe, whole-Safe, enter_retrying_deferred-IsSession, process_signal-IsSession,
}

module _ (g : Text) where
  pub session-Safe :
      {m : Exec (Unit {0})} → ((w : World) → IsSession g w → IsSession g (m w).1) → Safe g m
  session-Safe {m = m} h = record { run = λ w s. go (m w) (h w s.0.0) }
    where
      go : (r : Flow (Unit {0}) × World) → IsSession g r.1 → Ends g (λ u. At g) r
      go (done u, v) t = ((t, tt), tt)
      go (returned, v) t = t

  enter_live-Safe : (ingest : Ingest) (fuel gen : ℕ) → Safe g (enter_live g ingest fuel gen)
  unfolding enter_live announced
  enter_live-Safe ingest fuel gen = bind g (alive-Safe g gen) λ u.
      bind g (whole-Safe g (transition_to-Safe g gen live)) λ v. bind g (alive-Safe g gen) λ x.
        bind g (say-Triple g _ (λ es. refl)) λ y. bind g (read-Triple g (At g) _) λ latched.
          when-Safe g latched (
            bind g (calm-Safe g _ (λ w. ((refl, refl, refl), λ id a. a))) λ z.
              bind g (read-Triple g (At g) _) λ parked. when-Safe g (ltb 0 parked) (record {
                run =
                    λ w s. ((enter_retrying_deferred-IsSession g ingest fuel gen w s.0.0, tt), tt);
              }))

  drain_live_buffer-Safe :
      (ingest : Ingest) (fuel gen : ℕ) (buffer : List IngestSignal)
      → Safe g (drain_live_buffer g ingest fuel gen buffer)
  unfolding drain_live_buffer run_job
  drain_live_buffer-Safe ingest fuel gen [] = record { run = λ w s. s }
  drain_live_buffer-Safe ingest fuel gen (signal ∷ buffer) =
      bind g (whole-Safe g (bind g (alive-Safe g gen) λ u. job))
        λ u. bind g (alive-Safe g gen) λ v. drain_live_buffer-Safe ingest fuel gen buffer
    where
      job : Safe g (process_signal g (enter_retrying_deferred g ingest fuel gen) signal gen)
      job = session-Safe λ w s. process_signal-IsSession g ingest fuel signal gen w s

  pub enter_buffering_live-IsSession :
      (ingest : Ingest) (fuel gen : ℕ) (buffer : List IngestSignal) (w : World)
      → IsSession g w
      → IsSession g (enter_buffering_live g ingest fuel gen buffer w).1
  unfolding enter_buffering_live
  enter_buffering_live-IsSession ingest fuel gen buffer w s =
      keeps g w
        (weaken g (At g) (λ v h. ((h, tt), tt))
          (bind g (alive-Safe g gen) λ u.
            bind g (whole-Safe g (transition_to-Safe g gen buffering_live)) λ v.
              bind g (alive-Safe g gen) λ x.
                bind g (drain_live_buffer-Safe ingest fuel gen buffer)
                  λ y. whole-Safe g (enter_live-Safe ingest fuel gen)))
        s
