-- ===== src/Engine/Session/Passes.antt =====
-- The retry of parked facts in src/engine/receive-engine.ts keeps the promise of the session.
use notestr.Prelude.{
  ℕ, ◌+◌, ◌≡◌, refl, sym, ap, subst, Text, Bool, true, false, Option, none, some, arith, ltb,
  if◌then◌else◌, inl, inr, Bool-cases,
}
use notestr.Domain.Events.{AcceptedDomainEvent}
use notestr.Engine.Types.{RawProtocolFact, RawProtocolFactInput, MessageSignal, DeferredReason}
use notestr.Engine.Policy.{IngestPolicy, has_processed}
use notestr.Engine.World.{
  World, Exec, ◌>>=◌, ◌>>◌, alive, modify, call, set_policy, advance_watermark,
}
use notestr.Engine.Writes.{StoreCall, write, accept_call, accept_deferred_fact_with_retry}
use notestr.Engine.Handlers.{accepted_event, event_id_of}
use notestr.Engine.Session.{IsSession, Triple, announced}
use notestr.Engine.Session.Waits.{Calm}
use notestr.Engine.Session.Triples.{Keeps, bind, State, Ran, reported-Triple, Calm-IsSession}
use notestr.Persistence.{Disk, load_accepted_events}
use notestr.Engine.Session.Writes.{
  Holds, set_policy-Triple, gets-Triple, unpark-Triple, alive-Triple, write-eq, weaken, conclude,
}
use notestr.Engine.Session.Once.{accept_deferred_fact-Keeps, accept-Grows, New, announce-Triple}
use notestr.Engine.Session.Jobs.{Any, received-Triple, say-Triple, cover-Triple, keeps}
use notestr.Engine.Session.Waits.{
  Calm-trans, Tried, took, failed, attempt_once-Tried, single-Torn, Idle,
}
use notestr.Engine.Policy.{refund_attempt}
use notestr.Engine.World.{emit_state_changed, build_checkpoint}
use notestr.Engine.Writes.{save_checkpoint_resilient, commit_counter, committed}
use notestr.Persistence.{save_checkpoint}
use notestr.Engine.Retry.{
  transition_to, accept_or_refund, retry_message, retry_deferred, retry_skipped, retry_malformed,
}
use notestr.Engine.Types.{EngineLifecycleState, EngineCheckpoint}
use notestr.Engine.Session.Writes.{same_disk-Keeps}

save_checkpoint-accepted :
    (c : EngineCheckpoint) (d d' : Disk) (g : Text)
    → save_checkpoint d c ≡ some d'
    → load_accepted_events d' g ≡ load_accepted_events d g
unfolding save_checkpoint load_accepted_events
save_checkpoint-accepted c d d' g e = ground arith

module _ (g : Text) where
  abbrev pub At : World → Type 0
  At = Holds g Any none

  abbrev pub Safe : Exec (Unit {0}) → Type 0
  Safe m = Triple g At m (λ u. At)

  pub call-Safe : {m : Exec (Unit {0})} → Triple g (IsSession g) m (λ u. At) → Safe (call m)
  call-Safe {m = m} t = record { run = λ w s. ((keeps g w t s.0.0, tt), tt) }

  pub calm-Safe :
      (f : World → World)
      → ((w : World) → Calm w (f w) × Keeps g w.disk (f w).disk)
      → Safe (modify f)
  calm-Safe f h = record {
    run = λ w s. (
      (
        Calm-IsSession g w (f w) (ap (λ (p : IngestPolicy). p.processed) (h w).0.0) (h w).0.1
            (h w).1 s.0.0,
        tt,
      ),
      tt,
    );
  }

  commit_counter-Calm : (n : ℕ) (w : World) → Idle w (commit_counter n w)
  commit_counter-Calm n w = elim (Bool-cases (ltb w.last_committed_save_counter n)) [
    | inl e ↦ rw e ((refl, refl, refl), refl)
    | inr e ↦ rw e ((refl, refl, refl), refl)
  ]

  pub alive-Safe : (gen : ℕ) → Safe (alive gen)
  alive-Safe gen = alive-Triple g At gen (λ w p. p.0.0)

  pub save_checkpoint_resilient-Calm :
      (w : World)
      → Calm w (save_checkpoint_resilient g w) × Keeps g w.disk (save_checkpoint_resilient g w).disk
  unfolding save_checkpoint_resilient
  save_checkpoint_resilient-Calm w = go _ (attempt_once-Tried save w₁)
    where
      n : ℕ
      n = w.checkpoint_save_counter + 1

      w₁ : World
      w₁ = record w { checkpoint_save_counter = n }

      save : StoreCall (Unit {0})
      save = write λ d. save_checkpoint d (build_checkpoint g w₁)

      go :
          (r : Option (Unit {0}) × World)
          → Tried save w₁ r
          → Calm w (committed n r) × Keeps g w.disk (committed n r).disk
      go r (failed {w' = w'} i t) = (i, same_disk-Keeps g w w' (single-Torn t))
      go r (took {a = a} {w' = w'} e c) =
          let j = commit_counter-Calm n w' in
          let q =
            save_checkpoint-accepted (build_checkpoint g w₁) w.disk w'.disk g
              (write-eq (λ d. save_checkpoint d (build_checkpoint g w₁)) w.disk w'.disk a e) in
          (
            Calm-trans w w' (commit_counter n w') c j.0,
            λ id h. same_disk-Keeps g w' (commit_counter n w') j.1 id (rw q h),
          )

  pub transition_to-Safe : (gen : ℕ) (l : EngineLifecycleState) → Safe (transition_to g gen l)
  unfolding transition_to emit_state_changed announced
  transition_to-Safe gen l = bind g (alive-Safe gen) λ u.
      bind g (calm-Safe _ (λ w. ((refl, refl, refl), λ id a. a)))
        λ v. calm-Safe _ save_checkpoint_resilient-Calm

  pub policy-Safe :
      (f : IngestPolicy → IngestPolicy)
      → ((p : IngestPolicy) → (f p).processed ≡ p.processed)
      → Safe (set_policy f)
  policy-Safe f h = set_policy-Triple g Any none f h

  accept_or_refund-Safe :
      (event : AcceptedDomainEvent) (fact : RawProtocolFact) (o : Option (Unit {0}))
      → event.group_id ≡ g
      → Triple g
          (λ w.
            State g (λ p. New event.id p.processed) w × Ran (accept_call g fact.id event) o w.disk)
          (accept_or_refund event fact o)
          (λ u. At)
  unfolding accept_or_refund ◌>>=◌ refund_attempt
  accept_or_refund-Safe event fact none q = record {
    run = λ w s. Calm-IsSession g w _ refl refl (λ id a. a) s.0.0;
  }
  accept_or_refund-Safe event fact (some u) q =
      conclude g (λ v w s. ((s, tt), tt))
        (weaken g (Holds g (New event.id) (some event.id))
          (λ w p. (p.0, (accept_deferred_fact-Keeps g fact.id event p.1.0 w.disk u q p.1.1).1))
          (announce-Triple g fact.seq event))

  -- The part of `retry_message` that depends on whether the event is known.
  retry_known-Safe :
      (signal : MessageSignal) (gen : ℕ) (fact : RawProtocolFact) (known : Bool)
      (event : AcceptedDomainEvent)
      → Triple g
          (λ w.
            (At w × (known ≡ has_processed w.policy (event_id_of g signal)))
            × (event ≡ accepted_event g signal fact.id w))
          (if known
            then advance_watermark fact.seq
            else (accept_deferred_fact_with_retry g gen fact.id event >>= λ accepted.
                alive gen >> accept_or_refund event fact accepted))
          (λ u. At)
  unfolding accept_deferred_fact_with_retry has_processed
  retry_known-Safe signal gen fact true event = weaken g At (λ w h. h.0.0) (cover-Triple g fact.seq)
  retry_known-Safe signal gen fact false event = record {
    run = λ w h.
        let q = ap (λ (e : AcceptedDomainEvent). e.group_id) h.1 in
        let R = λ (p : IngestPolicy). New event.id p.processed in
        let accept = accept_call g fact.id event in
        let whole =
          bind g (reported-Triple g R gen fact.id accept (accept-Grows g fact.id event q)) λ o.
            bind g (alive-Triple g (λ w. State g R w × Ran accept o w.disk) gen (λ w p. p.0.0))
              λ u. accept_or_refund-Safe event fact o q in
        whole.run w (
          h.0.0.0.0,
          subst (λ (x : AcceptedDomainEvent). has_processed w.policy x.id ≡ false) (sym h.1)
              (sym h.0.1),
        );
  }

  pub retry_message-Safe :
      (signal : MessageSignal) (gen : ℕ)
      → Triple g (IsSession g) (retry_message g signal gen) (λ u. At)
  unfolding retry_message announced
  retry_message-Safe signal gen = received-Triple g signal.fact gen λ fact.
      bind g (say-Triple g _ (λ es. refl)) λ v. bind g (gets-Triple g At _) λ known.
        bind g (gets-Triple g _ _) λ event.
          bind g (retry_known-Safe signal gen fact known event)
            λ u. unpark-Triple g Any none gen fact.id

  pub retry_deferred-Safe :
      (input : RawProtocolFactInput) (reason : DeferredReason) (gen : ℕ)
      → Triple g (IsSession g) (retry_deferred input reason gen) (λ u. At)
  unfolding retry_deferred announced
  retry_deferred-Safe input reason gen = received-Triple g input gen λ fact.
      bind g (cover-Triple g fact.seq)
        λ u. bind g (say-Triple g _ (λ es. refl)) λ v. say-Triple g _ (λ es. refl)

  pub retry_skipped-Safe :
      (input : RawProtocolFactInput) (gen : ℕ)
      → Triple g (IsSession g) (retry_skipped g input gen) (λ u. At)
  unfolding retry_skipped announced
  retry_skipped-Safe input gen = received-Triple g input gen λ fact.
      bind g (cover-Triple g fact.seq) λ u.
        bind g (say-Triple g _ (λ es. refl))
          λ v. bind g (say-Triple g _ (λ es. refl)) λ x. unpark-Triple g Any none gen fact.id

  pub retry_malformed-Safe :
      (input : RawProtocolFactInput) (gen : ℕ)
      → Triple g (IsSession g) (retry_malformed g input gen) (λ u. At)
  unfolding retry_malformed announced
  retry_malformed-Safe input gen = received-Triple g input gen λ fact.
      bind g (cover-Triple g fact.seq) λ u.
        bind g (say-Triple g _ (λ es. refl))
          λ v. bind g (say-Triple g _ (λ es. refl)) λ x. unpark-Triple g Any none gen fact.id
