-- ===== src/Engine/Session/Triples.antt =====
-- The rules by which the handlers of src/engine/receive-engine.ts are shown to keep a session.
use notestr.Prelude.{
  ℕ, ◌≡◌, refl, sym, ap, subst, Text, Bool, true, false, Option, none, some, List, [], ◌∷◌, any,
  any-append, same, same_iff, ◌⊎◌, arith, inl, inr,
}
use notestr.Domain.Events.{AcceptedDomainEvent}
use notestr.Engine.Types.{domain_event_accepted}
use notestr.Engine.Policy.{IngestPolicy, has_processed, mark_processed}
use notestr.Engine.World.{World, Exec, Flow, done, returned, proceed, ◌>>=◌}
use notestr.Engine.Writes.{
  StoreCall, single, RetryOutcome, reported, report_if_exhausted, with_persistence_retry,
}
use notestr.Engine.Handlers.{note_accepted}
use notestr.Engine.Session.{IsSession, Ends, Triple, Once, announced}
use notestr.Engine.Session.Waits.{
  Calm, Torn, untorn, torn_once, Retried, wrote, refused, abandoned, with_persistence_retry-Retried,
}
use notestr.Persistence.{Disk}
use notestr.Persistence.Crash.{IsAccepted}

-- The accepted events of the group stay on the disk.
abbrev pub Keeps : Text → Disk → Disk → Type 0
Keeps g d d' = (id : Text) → IsAccepted d g id → IsAccepted d' g id

-- Where a write landed, its store call left the disk as it is.
abbrev pub Ran : {A : Type 0} → StoreCall A → Option A → Disk → Type 0
Ran attempt none d' = Unit
Ran attempt (some a) d' = (d : Disk) × (attempt.run d ≡ some (a, d'))

any-cons {ℓ} :
    {A : Type ℓ} (p : A → Bool) (a : A) (xs : List A)
    → any p (a ∷ xs) ≡ true
    → (p a ≡ true) ⊎ (any p xs ≡ true)
unfolding any
any-cons p a xs h = ground arith

pub has_processed-mark :
    (p : IngestPolicy) (new id : Text)
    → has_processed (mark_processed p new) id ≡ true
    → (has_processed p id ≡ true) ⊎ (new ≡ id)
unfolding mark_processed has_processed any
has_processed-mark p new id h =
    ground (arith, any-append (λ i. same i id) p.processed (new ∷ []), same_iff new id)

pub has_processed-marked :
    (p : IngestPolicy) (new id : Text)
    → (has_processed p id ≡ true) ⊎ (same new id ≡ true)
    → has_processed (mark_processed p new) id ≡ true
unfolding mark_processed has_processed any
has_processed-marked p new id h =
    ground (arith, h, any-append (λ i. same i id) p.processed (new ∷ []), same_iff new id)

module _ (g : Text) where
  pub bind {ℓ κ} :
      {A : Type ℓ} {B : Type κ} {P : World → Type 0} {Q : A → World → Type 0}
      {R : B → World → Type 0} {m : Exec A} {f : A → Exec B}
      → Triple g P m Q
      → ((a : A) → Triple g (Q a) (f a) R)
      → Triple g P (m >>= f) R
  unfolding ◌>>=◌
  bind {A = A} {B = B} {Q = Q} {R = R} {m = m} {f = f} p q = record {
    run = λ w h. go (m w) (p.run w h);
  }
    where
      go : (r : Flow A × World) → Ends g Q r → Ends g R (proceed r.0 f r.1)
      go (done a, w) h = (q a).run w h
      go (returned, w) h = h

  pub Calm-IsSession :
      (w w' : World)
      → w'.policy.processed ≡ w.policy.processed
      → announced w'.emitted ≡ announced w.emitted
      → Keeps g w.disk w'.disk
      → IsSession g w
      → IsSession g w'
  unfolding has_processed
  Calm-IsSession w w' p a k s = record {
    once = subst Once (sym a) s.once;
    known = λ id h. rw p (s.known id (rw (sym a) h));
    stored = λ id h. k id (s.stored id (rw (sym p) h));
  }

  -- The event that was just stored is noted and announced.
  pub announce-IsSession :
      (w : World) (event : AcceptedDomainEvent)
      → has_processed w.policy event.id ≡ false
      → IsAccepted w.disk g event.id
      → IsSession g w
      → IsSession g
          (record (note_accepted event w) { emitted = domain_event_accepted event ∷ w.emitted })
  unfolding announced
  announce-IsSession w event new stored s = record {
    once = (ground (arith, s.known event.id), s.once);
    known = λ id h.
        has_processed-marked w.policy event.id id
          (elim (any-cons (λ (i : Text). same i id) event.id (announced w.emitted) h) [
            | inl e ↦ inr e
            | inr e ↦ inl (s.known id e)
          ]);
    stored = λ id h. elim (has_processed-mark w.policy event.id id h) [
      | inl k ↦ s.stored id k
      | inr e ↦ subst (IsAccepted w.disk g) e stored
    ];
  }

  -- The rejection of a write that gave up announces nothing.
  report-IsSession :
      (fact_id : Text) (exhausted : Bool) (w : World)
      → IsSession g w
      → IsSession g (report_if_exhausted fact_id exhausted w)
  unfolding announced
  report-IsSession fact_id true w s = Calm-IsSession w _ refl refl (λ id h. h) s
  report-IsSession fact_id false w s = s

  -- A session in which `R` holds of the policy.
  abbrev pub State : (IngestPolicy → Type 0) → World → Type 0
  State R w = IsSession g w × R w.policy

  pub Calm-State :
      (R : IngestPolicy → Type 0) (w w' : World)
      → Calm w w'
      → Keeps g w.disk w'.disk
      → State R w
      → State R w'
  Calm-State R w w' c k s = (
    Calm-IsSession w w' (ap (λ (p : IngestPolicy). p.processed) c.0) c.1 k s.0,
    subst R (sym c.0) s.1,
  )

  -- Neither the whole call nor what is left where it is refused loses an accepted event.
  abbrev pub Grows : {A : Type 0} → StoreCall A → Type 0
  Grows {A = A} attempt =
      ((d d' : Disk) (a : A) → attempt.run d ≡ some (a, d') → Keeps g d d')
      × ((flags : List Bool) (d : Disk) → Keeps g d (attempt.torn flags d))

  pub single-Grows :
      {A : Type 0} (f : Disk → Option (A × Disk))
      → ((d d' : Disk) (a : A) → f d ≡ some (a, d') → Keeps g d d')
      → Grows (single f)
  single-Grows f h = (h, λ flags d id a. a)

  pub Torn-Keeps :
      {A : Type 0} {attempt : StoreCall A} {d d' : Disk}
      → Grows attempt
      → Torn attempt d d'
      → Keeps g d d'
  Torn-Keeps grows untorn = λ id a. a
  Torn-Keeps {d = d} grows (torn_once flags p) =
      λ id a. Torn-Keeps grows p id (grows.1 flags d id a)

  reported-State :
      {A : Type 0} (R : IngestPolicy → Type 0) (gen : ℕ) (fact_id : Text) (attempt : StoreCall A)
      (w : World) (r : RetryOutcome A × World)
      → Grows attempt
      → Retried gen attempt w r
      → State R w
      → Ends g (λ o w'. State R w' × Ran attempt o w'.disk) (reported fact_id r)
  unfolding reported
  reported-State R gen fact_id attempt w r grows (wrote {a = a} {w' = w'} {d = d} t e s c) h =
      (Calm-State R w w' c (λ id x. grows.0 d w'.disk a e id (Torn-Keeps grows t id x)) h, (d, e))
  reported-State R gen fact_id attempt w r grows (refused {w' = w'} i t) h =
      let (s, q) = Calm-State R w w' i (Torn-Keeps grows t) h in
      ((report-IsSession fact_id true w' s, q), tt)
  reported-State R gen fact_id attempt w r grows (abandoned {w' = w'} t (inl e) c) h =
      (Calm-State R w w' c (Torn-Keeps grows e) h, tt)
  reported-State R gen fact_id attempt w r grows (abandoned {w' = w'} t (inr (a, d, u, e)) c) h =
      (Calm-State R w w' c (λ id x. grows.0 d w'.disk a e id (Torn-Keeps grows u id x)) h, tt)

  -- A retried write keeps the session, and where it lands its store call has been made.
  pub reported-Triple :
      {A : Type 0} (R : IngestPolicy → Type 0) (gen : ℕ) (fact_id : Text) (attempt : StoreCall A)
      → Grows attempt
      → Triple g
          (State R)
          (λ w. reported fact_id (with_persistence_retry gen attempt w))
          (λ o w. State R w × Ran attempt o w.disk)
  reported-Triple R gen fact_id attempt grows = record {
    run = λ w h.
        reported-State R gen fact_id attempt w _ grows
          (with_persistence_retry-Retried gen attempt w) h;
  }
