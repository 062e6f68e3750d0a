-- ===== src/Engine/Session/Jobs.antt =====
-- Every job of the serial queue of src/engine/receive-engine.ts keeps the promise of the session.
use notestr.Prelude.{ℕ, ◌≡◌, refl, Text, none, List, ◌∷◌, arith, ltb}
use notestr.Engine.Types.{
  EngineOutputEvent, RawProtocolFact, RawProtocolFactInput, DeferredReason, IngestSignal, message,
  deferred, skipped, malformed, epoch_advanced,
}
use notestr.Engine.Policy.{IngestPolicy, enqueue_deferred}
use notestr.Engine.World.{World, Exec, Flow, done, returned, ◌>>=◌, emit, modify, advance_watermark}
use notestr.Engine.Handlers.{
  append_or_return, handle_deferred, handle_skipped, handle_malformed, process_signal,
  handle_epoch_advanced, park,
}
use notestr.Engine.Session.{IsSession, Ends, Triple, announced}
use notestr.Engine.Session.Triples.{bind, State, Calm-IsSession}
use notestr.Engine.Session.Writes.{
  Holds, append_or_return-Triple, save-Triple, unpark-Triple, alive-Triple, read-Triple, if-Triple,
  weaken, conclude,
}
use notestr.Engine.Session.Once.{emit-Triple, advance-Triple, handle_message-Triple}

-- Nothing more is known of the policy.
abbrev pub Any : List Text → Type 0
Any ids = Unit

module _ (g : Text) where
  pub received-Triple :
      (input : RawProtocolFactInput) (gen : ℕ) {A : Type 0} {Q : A → World → Type 0}
      {f : RawProtocolFact → Exec A}
      → ((fact : RawProtocolFact) → Triple g (Holds g Any none) (f fact) Q)
      → Triple g (IsSession g) (append_or_return gen input >>= f) Q
  received-Triple input gen h =
      bind g
        (weaken g (State g λ p. Unit {0}) (λ w s. (s, tt)) (append_or_return-Triple g _ gen input))
        λ fact. weaken g (Holds g Any none) (λ w s. (s, tt)) (h fact)

  pub say-Triple :
      (e : EngineOutputEvent)
      → ((es : List EngineOutputEvent) → announced (e ∷ es) ≡ announced es)
      → Triple g (Holds g Any none) (emit e) (λ u. Holds g Any none)
  say-Triple e q =
      conclude g (λ u w s. (s, tt))
        (weaken g (State g λ p. Unit {0}) (λ w s. s.0) (emit-Triple g _ e q))

  pub cover-Triple :
      (seq : ℕ) → Triple g (Holds g Any none) (advance_watermark seq) (λ u. Holds g Any none)
  cover-Triple seq =
      conclude g (λ u w s. (s, tt))
        (weaken g (State g λ p. Unit {0}) (λ w s. s.0) (advance-Triple g _ seq))

  handle_skipped-Triple :
      (input : RawProtocolFactInput) (gen : ℕ)
      → Triple g (IsSession g) (handle_skipped input gen) (λ u. Holds g Any none)
  unfolding handle_skipped announced
  handle_skipped-Triple input gen = received-Triple input gen λ fact.
      bind g (cover-Triple fact.seq)
        λ u. bind g (say-Triple _ (λ es. refl)) λ v. say-Triple _ (λ es. refl)

  handle_malformed-Triple :
      (input : RawProtocolFactInput) (gen : ℕ)
      → Triple g (IsSession g) (handle_malformed g input gen) (λ u. Holds g Any none)
  unfolding handle_malformed announced
  handle_malformed-Triple input gen = received-Triple input gen λ fact.
      bind g (cover-Triple fact.seq) λ u. bind g (say-Triple _ (λ es. refl)) λ v.
        bind g (read-Triple g (Holds g Any none) _) λ parked.
          bind g
            (if-Triple g {Q = λ u. Holds g Any none} parked (unpark-Triple g Any none gen fact.id)
              (record { run = λ w s. s }))
            λ x. say-Triple _ (λ es. refl)

  enqueue_deferred-processed :
      (p : IngestPolicy) (id : Text) (fact : RawProtocolFact) (reason : DeferredReason) (now : ℕ)
      → (enqueue_deferred p id fact reason now).1.processed ≡ p.processed
  unfolding enqueue_deferred
  enqueue_deferred-processed p id fact reason now = ground arith

  park-Triple :
      (fact : RawProtocolFact) (reason : DeferredReason)
      → Triple g (Holds g Any none) (park fact reason) (λ u. Holds g Any none)
  unfolding ◌>>=◌
  park-Triple fact reason = record {
    run = λ w s. (
      (
        Calm-IsSession g w _ (enqueue_deferred-processed w.policy fact.id fact reason w.clock) refl
            (λ id a. a) s.0.0,
        tt,
      ),
      tt,
    );
  }

  handle_deferred-Triple :
      (input : RawProtocolFactInput) (reason : DeferredReason) (gen : ℕ)
      → Triple g (IsSession g) (handle_deferred g input reason gen) (λ u. Holds g Any none)
  unfolding handle_deferred announced
  handle_deferred-Triple input reason gen = received-Triple input gen λ fact.
      bind g (say-Triple _ (λ es. refl)) λ v. bind g (park-Triple fact reason) λ is_new.
        bind g (read-Triple g (Holds g Any none) _) λ ids.
          bind g
            (if-Triple g {Q = λ u. Holds g Any none} is_new
              (bind g (save-Triple g Any none gen ids) λ saved.
                bind g (alive-Triple g (Holds g Any none) gen (λ w p. p.0.0))
                  λ u. record { run = λ w s. s })
              (record { run = λ w s. s }))
            λ durable.
              bind g
                (if-Triple g {Q = λ u. Holds g Any none} durable (cover-Triple fact.seq)
                  (record { run = λ w s. s }))
                λ x. say-Triple _ (λ es. refl)

  -- A write to fields that a session does not speak of.
  pub move-Triple :
      (f : World → World)
      → ((w : World) → Holds g Any none w → Holds g Any none (f w))
      → Triple g (Holds g Any none) (modify f) (λ u. Holds g Any none)
  move-Triple f h = record { run = h }

  pub handle_epoch_advanced-Triple :
      (enter : Exec (Unit {0})) (new_epoch prev_epoch : Text)
      → ((v : World) → IsSession g v → IsSession g (enter v).1)
      → Triple g
          (IsSession g)
          (handle_epoch_advanced enter new_epoch prev_epoch)
          (λ u. Holds g Any none)
  unfolding handle_epoch_advanced announced
  handle_epoch_advanced-Triple enter new_epoch prev_epoch e =
      weaken g (Holds g Any none) (λ w s. ((s, tt), tt))
        (bind g
          (move-Triple _ (λ w s. ((Calm-IsSession g w _ refl refl (λ id a. a) s.0.0, tt), tt)))
          λ u. bind g (say-Triple _ (λ es. refl)) λ v.
            bind g (read-Triple g (Holds g Any none) _) λ at_live.
              bind g (read-Triple g (Holds g Any none) _) λ parked.
                if-Triple g at_live
                  (if-Triple g (ltb 0 parked) (record { run = λ w s. ((e w s.0.0, tt), tt) })
                    (record { run = λ w s. s }))
                  (move-Triple _
                    (λ w s. ((Calm-IsSession g w _ refl refl (λ id a. a) s.0.0, tt), tt))))

  pub keeps :
      {m : Exec (Unit {0})} (w : World)
      → Triple g (IsSession g) m (λ u. Holds g Any none)
      → IsSession g w
      → IsSession g (m w).1
  keeps {m = m} w t s = go (m w) (t.run w s)
    where
      go : (r : Flow (Unit {0}) × World) → Ends g (λ u. Holds g Any none) r → IsSession g r.1
      go (done u, v) h = h.0.0
      go (returned, v) h = h

  -- Whatever a job does, the session after it announces no event twice, knows what it announced,
  -- and has stored what it knows, where the retry pass that an epoch change starts keeps that.
  pub process_signal-IsSession_from :
      (enter : Exec (Unit {0})) (signal : IngestSignal) (gen : ℕ) (w : World)
      → ((v : World) → IsSession g v → IsSession g (enter v).1)
      → IsSession g w
      → IsSession g (process_signal g enter signal gen w).1
  unfolding process_signal
  process_signal-IsSession_from enter (message signal) gen w e s =
      keeps w (conclude g (λ u w s. ((s, tt), tt)) (handle_message-Triple g signal gen)) s
  process_signal-IsSession_from enter (deferred fact reason epoch) gen w e s =
      keeps w (handle_deferred-Triple fact reason gen) s
  process_signal-IsSession_from enter (skipped fact) gen w e s =
      keeps w (handle_skipped-Triple fact gen) s
  process_signal-IsSession_from enter (malformed fact error) gen w e s =
      keeps w (handle_malformed-Triple fact gen) s
  process_signal-IsSession_from enter (epoch_advanced new_epoch prev_epoch) gen w e s =
      keeps w (handle_epoch_advanced-Triple enter new_epoch prev_epoch e) s
