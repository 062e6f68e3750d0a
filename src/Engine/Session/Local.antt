-- ===== src/Engine/Session/Local.antt =====
-- `acceptLocal` of src/engine/receive-engine.ts keeps the promise of the session.
use notestr.Prelude.{ℕ, ◌≡◌, sym, ap, subst, Text, Bool, true, false, some, any, if◌then◌else◌}
use notestr.Domain.Events.{AcceptedDomainEvent, TaskEvent, derive_mls_accepted_event_id}
use notestr.Engine.Types.{domain_event_accepted}
use notestr.Engine.Policy.{IngestPolicy, has_processed}
use notestr.Engine.World.{return_now, ◌>>=◌, ◌>>◌, emit, alive, modify}
use notestr.Engine.Writes.{write, append_accepted_event_with_retry}
use notestr.Engine.Handlers.{landed_or_return, note_accepted, accept_local, local_event}
use notestr.Engine.Session.{IsSession, Triple}
use notestr.Engine.Session.Triples.{
  bind, single-Grows, State, Ran, reported-Triple, announce-IsSession,
}
use notestr.Persistence.{append_accepted_event}
use notestr.Engine.Session.Writes.{gets-Triple, alive-Triple, landed-Triple, read-Triple}
use notestr.Engine.Session.Once.{New, append_accepted_event-Keeps}

module _ (g : Text) where
  pub accept_local-Triple :
      (rumor_id : Text) (payload : TaskEvent)
      → Triple g (IsSession g) (accept_local g rumor_id payload) (λ u. IsSession g)
  unfolding accept_local append_accepted_event_with_retry has_processed any ◌>>=◌
  accept_local-Triple rumor_id payload = bind g (read-Triple g (IsSession g) _) λ gen.
      bind g (gets-Triple g (IsSession g) _)
        λ known. bind g (gets-Triple g _ _) λ event. go gen known event
    where
      accept :
          (gen : ℕ) (event : AcceptedDomainEvent)
          → event.group_id ≡ g
          → Triple g
              (State g λ p. New event.id p.processed)
              (append_accepted_event_with_retry gen event >>= λ appended.
                landed_or_return appended
                >> (alive gen
                    >> (modify (note_accepted event) >> emit (domain_event_accepted event))))
              (λ u. IsSession g)
      accept gen event q =
          let R = λ (p : IngestPolicy). New event.id p.processed in
          let append = write λ d. append_accepted_event d event in
          bind g
            (reported-Triple g R gen event.fact_id append
              (single-Grows g _ (λ d d' u e. (append_accepted_event-Keeps g event d d' u q e).0)))
            λ o. bind g (landed-Triple g R append o) λ a.
              bind g
                (alive-Triple g (λ w. State g R w × Ran append (some a) w.disk) gen (λ w p. p.0.0))
                λ u. record {
                  run = λ w p.
                      announce-IsSession g w event p.0.1
                        (append_accepted_event-Keeps g event p.1.0 w.disk a q p.1.1).1 p.0.0;
                }

      go :
          (gen : ℕ) (known : Bool) (event : AcceptedDomainEvent)
          → Triple g
              (λ w.
                (IsSession g w
                  × (known ≡ has_processed w.policy (derive_mls_accepted_event_id rumor_id)))
                × (event ≡ local_event g rumor_id payload w))
              (if known
                then return_now
                else (append_accepted_event_with_retry gen event >>= λ appended.
                    landed_or_return appended
                    >> (alive gen
                        >> (modify (note_accepted event) >> emit (domain_event_accepted event)))))
              (λ u. IsSession g)
      go gen true event = record { run = λ w h. h.0.0 }
      go gen false event = record {
        run = λ w h. (accept gen event (ap (λ (e : AcceptedDomainEvent). e.group_id) h.1)).run w (
          h.0.0,
          subst (λ (x : AcceptedDomainEvent). has_processed w.policy x.id ≡ false) (sym h.1)
              (sym h.0.1),
        );
      }
