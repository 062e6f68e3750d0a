-- ===== src/Engine/Session/Once.antt =====
-- `handleMessage` of src/engine/receive-engine.ts keeps the promise of the session.
use notestr.Prelude.{
  List, Bool, Bool-cases, inl, inr, subst, ◌||◌, ℕ, ◌≡◌, refl, sym, ap, Text, true, false, some,
  ◌∷◌, any, same, ltb, if◌then◌else◌,
}
use notestr.Domain.Events.{AcceptedDomainEvent}
use notestr.Engine.Types.{
  EngineOutputEvent, domain_event_accepted, envelope_received, MessageSignal,
}
use notestr.Engine.Policy.{IngestPolicy, has_processed}
use notestr.Engine.World.{World, ◌>>◌, emit, modify, advance_watermark}
use notestr.Engine.Writes.{
  write, answered, accept_call, append_accepted_event_with_retry, accept_deferred_fact_with_retry,
}
use notestr.Engine.Handlers.{
  note_accepted, accepted_event, event_id_of, store_event, handle_message,
}
use notestr.Engine.Session.{IsSession, Triple, announced}
use notestr.Engine.Session.Triples.{
  Grows, single-Grows, Keeps, bind, State, Ran, reported-Triple, announce-IsSession, Calm-IsSession,
}
use notestr.Persistence.{
  is_empty, torn_accept, torn_stages, accept_stages, Disk, append_accepted_event,
  accept_deferred_fact,
}
use notestr.Persistence.Crash.{
  IsAccepted, append_accepted_event-IsAccepted_mono, append_accepted_event-IsAccepted,
  Crash-accepted, torn_stages-Crash, accept_deferred_fact-IsAccepted,
  accept_deferred_fact-IsAccepted_mono,
}
use notestr.Engine.Session.Writes.{
  Holds, append_or_return-Triple, gets-Triple, unpark-Triple, alive-Triple, landed-Triple, write-eq,
  read-Triple, if-Triple, weaken, conclude,
}

-- The event is not known.
abbrev pub New : Text → List Text → Type 0
New id ids = any (λ i. same i id) ids ≡ false

module _ (g : Text) where
  pub accept_deferred_fact-Keeps :
      (fact_id : Text) (event : AcceptedDomainEvent) (d d' : Disk) (u : Unit {0})
      → event.group_id ≡ g
      → answered (λ d. accept_deferred_fact d g fact_id event) d ≡ some (u, d')
      → Keeps g d d' × IsAccepted d' g event.id
  accept_deferred_fact-Keeps fact_id event d d' u q e =
      subst
        (λ h.
          accept_deferred_fact d h fact_id event ≡ some d'
          → Keeps h d d' × IsAccepted d' h event.id)
        q
        (λ r. (
          λ id a. accept_deferred_fact-IsAccepted_mono d d' fact_id event id r a,
          (accept_deferred_fact-IsAccepted d d' fact_id event r).0,
        ))
        (write-eq (λ d. accept_deferred_fact d g fact_id event) d d' u e)

  pub accept-Grows :
      (fact_id : Text) (event : AcceptedDomainEvent)
      → event.group_id ≡ g
      → Grows g (accept_call g fact_id event)
  unfolding torn_accept
  accept-Grows fact_id event q = (
    λ d d' u e. (accept_deferred_fact-Keeps fact_id event d d' u q e).0,
    λ flags d. elim (Bool-cases (is_empty g || is_empty fact_id)) [
      | inl e ↦ rw e (λ id a. a)
      | inr e ↦ rw e (left flags d)
    ],
  )
    where
      left :
          (flags : List Bool) (d : Disk)
          → Keeps g d (torn_stages flags (accept_stages g fact_id event) d)
      left flags d =
          subst (λ h. Keeps h d (torn_stages flags (accept_stages h fact_id event) d)) q
            (Crash-accepted d _ fact_id event
              (torn_stages-Crash flags (accept_stages event.group_id fact_id event) d))

  pub append_accepted_event-Keeps :
      (event : AcceptedDomainEvent) (d d' : Disk) (u : Unit {0})
      → event.group_id ≡ g
      → answered (λ d. append_accepted_event d event) d ≡ some (u, d')
      → Keeps g d d' × IsAccepted d' g event.id
  append_accepted_event-Keeps event d d' u q e =
      let r = write-eq (λ d. append_accepted_event d event) d d' u e in
      subst (λ h. Keeps h d d' × IsAccepted d' h event.id) q
        (
          λ id a. append_accepted_event-IsAccepted_mono d d' event id r a,
          append_accepted_event-IsAccepted d d' event r,
        )

  -- In a session that does not know the event, the write of the event keeps that, and stores it.
  store_event-Triple :
      (Q : List Text → Type 0) (gen : ℕ) (fact_id : Text) (event : AcceptedDomainEvent)
      → event.group_id ≡ g
      → Triple g
          (State g (λ p. Q p.processed))
          (store_event g gen fact_id event)
          (λ u. Holds g Q (some event.id))
  unfolding store_event append_accepted_event_with_retry accept_deferred_fact_with_retry
  store_event-Triple Q gen fact_id event q =
      let R = λ (p : IngestPolicy). Q p.processed in
      let accept = accept_call g fact_id event in
      let append = write λ d. append_accepted_event d event in
      bind g (read-Triple g (State g R) _) λ parked.
        if-Triple g parked
          (bind g (reported-Triple g R gen fact_id accept (accept-Grows fact_id event q)) λ o.
            bind g (alive-Triple g (λ w. State g R w × Ran accept o w.disk) gen (λ w p. p.0.0)) λ u.
              bind g (landed-Triple g R accept o) λ a.
                weaken g (Holds g Q (some event.id))
                  (λ w p.
                    (p.0, (accept_deferred_fact-Keeps fact_id event p.1.0 w.disk a q p.1.1).1))
                  (unpark-Triple g Q (some event.id) gen fact_id))
          (bind g
            (reported-Triple g R gen event.fact_id append
              (single-Grows g _ (λ d d' u e. (append_accepted_event-Keeps event d d' u q e).0)))
            λ o.
              bind g (alive-Triple g (λ w. State g R w × Ran append o w.disk) gen (λ w p. p.0.0))
                λ u.
                  conclude g
                    (λ a w p. (p.0, (append_accepted_event-Keeps event p.1.0 w.disk a q p.1.1).1))
                    (landed-Triple g R append o))

  pub emit-Triple :
      (R : IngestPolicy → Type 0) (e : EngineOutputEvent)
      → ((es : List EngineOutputEvent) → announced (e ∷ es) ≡ announced es)
      → Triple g (State g R) (emit e) (λ u. State g R)
  emit-Triple R e q = record {
    run = λ w h. (Calm-IsSession g w _ refl (q w.emitted) (λ id a. a) h.0, h.1);
  }

  pub advance-Triple :
      (R : IngestPolicy → Type 0) (seq : ℕ)
      → Triple g (State g R) (advance_watermark seq) (λ u. State g R)
  advance-Triple R seq = record {
    run = λ w h. elim (Bool-cases (ltb w.last_ingested_seq seq)) [
      | inl e ↦ rw e (Calm-IsSession g w _ refl refl (λ id a. a) h.0, h.1)
      | inr e ↦ rw e h
    ];
  }

  -- The announcement of an event that is stored and was not known.
  pub announce-Triple :
      (seq : ℕ) (event : AcceptedDomainEvent)
      → Triple g
          (Holds g (New event.id) (some event.id))
          (modify (note_accepted event)
            >> (advance_watermark seq >> emit (domain_event_accepted event)))
          (λ u. IsSession g)
  unfolding has_processed any
  announce-Triple seq event =
      let P = λ (w : World).
        IsSession g (record w { emitted = domain_event_accepted event ∷ w.emitted }) in
      bind g {Q = λ u. P} (record { run = λ w h. announce-IsSession g w event h.0.1 h.1 h.0.0 })
        λ u.
          bind g {Q = λ u. P}
            (record {
              run = λ w h. elim (Bool-cases (ltb w.last_ingested_seq seq)) [
                | inl e ↦ rw e (
                    Calm-IsSession g
                      (record w { emitted = domain_event_accepted event ∷ w.emitted }) _ refl refl
                      (λ id a. a) h)
                | inr e ↦ rw e h
              ];
            })
            λ u. record { run = λ w h. h }

  pub handle_message-Triple :
      (signal : MessageSignal) (gen : ℕ)
      → Triple g (IsSession g) (handle_message g signal gen) (λ u. IsSession g)
  unfolding handle_message announced has_processed
  handle_message-Triple signal gen =
      weaken g (State g λ p. Unit {0}) (λ w h. (h, tt))
        (bind g (append_or_return-Triple g _ gen signal.fact) λ fact.
          bind g (emit-Triple (λ p. Unit {0}) (envelope_received fact.id) (λ es. refl)) λ u.
            bind g (gets-Triple g (State g λ p. Unit {0}) _)
              λ known. bind g (gets-Triple g _ _) λ event. go known fact.seq fact.id event)
    where
      new :
          (w : World) (event : AcceptedDomainEvent) (fact_id : Text)
          → false ≡ has_processed w.policy (event_id_of g signal)
          → event ≡ accepted_event g signal fact_id w
          → New event.id w.policy.processed
      new w event fact_id e q =
          subst (λ (x : AcceptedDomainEvent). has_processed w.policy x.id ≡ false) (sym q) (sym e)

      go :
          (known : Bool) (seq : ℕ) (fact_id : Text) (event : AcceptedDomainEvent)
          → Triple g
              (λ w.
                (State g (λ p. Unit {0}) w
                  × (known ≡ has_processed w.policy (event_id_of g signal)))
                × (event ≡ accepted_event g signal fact_id w))
              (if known
                then advance_watermark seq
                else (store_event g gen fact_id event
                    >> (modify (note_accepted event)
                        >> (advance_watermark seq >> emit (domain_event_accepted event)))))
              (λ u. IsSession g)
      go true seq fact_id event =
          conclude g (λ u w h. h.0)
            (weaken g (State g λ p. Unit {0}) (λ w h. h.0.0) (advance-Triple (λ p. Unit {0}) seq))
      go false seq fact_id event = record {
        run = λ w h.
            (bind g
                (store_event-Triple (New event.id) gen fact_id event
                  (ap (λ (e : AcceptedDomainEvent). e.group_id) h.1))
                λ u. announce-Triple seq event).run
              w (h.0.0.0, new w event fact_id h.0.1 h.1);
      }
