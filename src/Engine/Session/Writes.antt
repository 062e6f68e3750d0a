-- ===== src/Engine/Session/Writes.antt =====
-- The writes of a session, as src/engine/receive-engine.ts makes them: each keeps the session.
use notestr.Prelude.{
  ℕ, ◌≡◌, refl, sym, subst, Text, Bool, true, false, Option, none, some, List, [], arith,
  if◌then◌else◌, inl, inr, Option-cases, Bool-cases,
}
use notestr.Engine.Types.{RawProtocolFactInput, AppendFactResult}
use notestr.Engine.Policy.{IngestPolicy, remove_deferred}
use notestr.Engine.World.{World, Exec, Flow, done, returned, stale, alive, gets, set_policy}
use notestr.Engine.Writes.{
  StoreCall, RetryOutcome, write, answered, single, append_fact_with_retry,
  save_deferred_ids_with_retry,
}
use notestr.Engine.Handlers.{append_or_return, landed_or_return, unpark}
use notestr.Engine.Session.{IsSession, Ends, Triple}
use notestr.Engine.Session.Waits.{
  Retried, wrote, refused, abandoned, with_persistence_retry-Retried,
}
use notestr.Engine.Session.Triples.{
  Keeps, bind, State, Ran, Calm-State, reported-Triple, Calm-IsSession, Grows, single-Grows,
  Torn-Keeps,
}
use notestr.Persistence.{Disk, append_fact, save_deferred_ids, load_accepted_events}
use notestr.Persistence.Crash.{IsAccepted}

pub append_fact-accepted :
    (fact : RawProtocolFactInput) (d d' : Disk) (a : AppendFactResult) (g : Text)
    → append_fact d fact ≡ some (a, d')
    → load_accepted_events d' g ≡ load_accepted_events d g
unfolding append_fact load_accepted_events
append_fact-accepted fact d d' a g e = ground arith

save_deferred_ids-accepted :
    (h : Text) (ids : List Text) (d d' : Disk) (g : Text)
    → save_deferred_ids d h ids ≡ some d'
    → load_accepted_events d' g ≡ load_accepted_events d g
unfolding save_deferred_ids load_accepted_events
save_deferred_ids-accepted h ids d d' g e = ground arith

pub same_disk-Keeps : (g : Text) (w w' : World) → w'.disk ≡ w.disk → Keeps g w.disk w'.disk
same_disk-Keeps g w w' e id a = subst (λ d. IsAccepted d g id) (sym e) a

pub write-eq :
    (f : Disk → Option Disk) (d d' : Disk) (u : Unit {0})
    → answered f d ≡ some (u, d')
    → f d ≡ some d'
write-eq f d d' u e = elim (Option-cases (f d)) [ inl n ↦ ground arith | inr (x, n) ↦ ground arith ]

-- The event is stored, where one is named.
abbrev pub Stored : Text → Option Text → World → Type 0
Stored g none w = Unit
Stored g (some id) w = IsAccepted w.disk g id

policy-Stored :
    (g : Text) (o : Option Text) (w : World) (p : IngestPolicy)
    → Stored g o w
    → Stored g o (record w { policy = p })
policy-Stored g none w p h = tt
policy-Stored g (some id) w p h = h

module _ (g : Text) where
  append_fact-Keeps :
      (fact : RawProtocolFactInput) (d d' : Disk) (a : AppendFactResult)
      → append_fact d fact ≡ some (a, d')
      → Keeps g d d'
  append_fact-Keeps fact d d' a e id h = rw (append_fact-accepted fact d d' a g e) h

  pub landed-Triple :
      {A : Type 0} (R : IngestPolicy → Type 0) (attempt : StoreCall A) (o : Option A)
      → Triple g
          (λ w. State g R w × Ran attempt o w.disk)
          (landed_or_return o)
          (λ a w. State g R w × Ran attempt (some a) w.disk)
  landed-Triple R attempt none = record { run = λ w p. p.0.0 }
  landed-Triple R attempt (some a) = record { run = λ w p. p }

  -- `if (gen !== generation) return;`
  pub alive-Triple :
      (P : World → Type 0) (gen : ℕ)
      → ((w : World) → P w → IsSession g w)
      → Triple g P (alive gen) (λ u w. P w)
  alive-Triple P gen h = record {
    run = λ w p. elim (Bool-cases (stale gen w)) [
      | inl s ↦ rw (s, alive) (h w p)
      | inr s ↦ rw (s, alive) p
    ];
  }

  pub append_or_return-Triple :
      (R : IngestPolicy → Type 0) (gen : ℕ) (fact : RawProtocolFactInput)
      → Triple g (State g R) (append_or_return gen fact) (λ u w. State g R w)
  unfolding append_or_return append_fact_with_retry
  append_or_return-Triple R gen fact =
      let attempt = single λ (d : Disk). append_fact d fact in
      bind g (reported-Triple g R gen fact.id attempt (single-Grows g _ (append_fact-Keeps fact)))
        λ o. bind g (landed-Triple R attempt o) λ a.
          bind g (alive-Triple (λ w. State g R w × Ran attempt (some a) w.disk) gen (λ w p. p.0.0))
            λ u. record { run = λ w p. p.0 }

  save_deferred_ids-Keeps :
      (ids : List Text) (d d' : Disk) (u : Unit {0})
      → answered (λ d. save_deferred_ids d g ids) d ≡ some (u, d')
      → Keeps g d d'
  save_deferred_ids-Keeps ids d d' u e id h =
      rw
        (save_deferred_ids-accepted g ids d d' g
          (write-eq (λ d. save_deferred_ids d g ids) d d' u e))
        h

  Retried-State :
      (R : IngestPolicy → Type 0) (gen : ℕ) (attempt : StoreCall (Unit {0})) (w : World)
      (r : RetryOutcome (Unit {0}) × World) (id : Text)
      → Grows g attempt
      → Retried gen attempt w r
      → State g R w
      → State g R r.1 × (IsAccepted w.disk g id → IsAccepted r.1.disk g id)
  Retried-State R gen attempt w r id grows (wrote {a = a} {w' = w'} {d = d} t e s c) h =
      let k : Keeps g w.disk w'.disk =
        λ id x. grows.0 d w'.disk a e id (Torn-Keeps g grows t id x) in
      (Calm-State g R w w' c k h, k id)
  Retried-State R gen attempt w r id grows (refused {w' = w'} i t) h =
      let k = Torn-Keeps g grows t in (Calm-State g R w w' i k h, k id)
  Retried-State R gen attempt w r id grows (abandoned {w' = w'} t (inl e) c) h =
      let k = Torn-Keeps g grows e in (Calm-State g R w w' c k h, k id)
  Retried-State R gen attempt w r id grows (abandoned {w' = w'} t (inr (a, d, u, e)) c) h =
      let k : Keeps g w.disk w'.disk =
        λ id x. grows.0 d w'.disk a e id (Torn-Keeps g grows u id x) in
      (Calm-State g R w w' c k h, k id)

  abbrev pub Holds : (List Text → Type 0) → Option Text → World → Type 0
  Holds Q o w = State g (λ p. Q p.processed) w × Stored g o w

  pub save-Triple :
      (Q : List Text → Type 0) (o : Option Text) (gen : ℕ) (ids : List Text)
      → Triple g (Holds Q o) (save_deferred_ids_with_retry g gen ids) (λ u. Holds Q o)
  unfolding save_deferred_ids_with_retry
  save-Triple Q none gen ids = record {
    run = λ w h. (
      (Retried-State (λ p. Q p.processed) gen (write λ d. save_deferred_ids d g ids) w _ []
          (single-Grows g _ (save_deferred_ids-Keeps ids)) (with_persistence_retry-Retried gen _ w)
          h.0).0,
      tt,
    );
  }
  save-Triple Q (some id) gen ids = record {
    run = λ w h.
        let (s, k) =
          Retried-State (λ p. Q p.processed) gen (write λ d. save_deferred_ids d g ids) w _ id
            (single-Grows g _ (save_deferred_ids-Keeps ids))
            (with_persistence_retry-Retried gen _ w) h.0 in
        (s, k h.1);
  }

  pub set_policy-Triple :
      (Q : List Text → Type 0) (o : Option Text) (f : IngestPolicy → IngestPolicy)
      → ((p : IngestPolicy) → (f p).processed ≡ p.processed)
      → Triple g (Holds Q o) (set_policy f) (λ u. Holds Q o)
  set_policy-Triple Q o f e = record {
    run = λ w h. (
      (Calm-IsSession g w _ (e w.policy) refl (λ id a. a) h.0.0, subst Q (sym (e w.policy)) h.0.1),
      policy-Stored g o w (f w.policy) h.1,
    );
  }

  pub read-Triple :
      {A : Type 0} (P : World → Type 0) (f : World → A) → Triple g P (gets f) (λ a w. P w)
  read-Triple P f = record { run = λ w p. p }

  pub if-Triple :
      {A : Type 0} {P : World → Type 0} {Q : A → World → Type 0} {m n : Exec A} (b : Bool)
      → Triple g P m Q
      → Triple g P n Q
      → Triple g P (if b then m else n) Q
  if-Triple true s t = s
  if-Triple false s t = t

  pub weaken :
      {A : Type 0} {P' : World → Type 0} {Q : A → World → Type 0} {m : Exec A} (P : World → Type 0)
      → ((w : World) → P' w → P w)
      → Triple g P m Q
      → Triple g P' m Q
  weaken P i t = record { run = λ w p. t.run w (i w p) }

  pub conclude :
      {A : Type 0} {P : World → Type 0} {Q Q' : A → World → Type 0} {m : Exec A}
      → ((a : A) (w : World) → Q a w → Q' a w)
      → Triple g P m Q
      → Triple g P m Q'
  conclude {A = A} {Q = Q} {Q' = Q'} {m = m} i t = record { run = λ w p. go (m w) (t.run w p) }
    where
      go : (r : Flow A × World) → Ends g Q r → Ends g Q' r
      go (done a, w) h = i a w h
      go (returned, w) h = h

  pub gets-Triple :
      {A : Type 0} (P : World → Type 0) (f : World → A)
      → Triple g P (gets f) (λ a w. P w × (a ≡ f w))
  gets-Triple P f = record { run = λ w p. (p, refl) }

  -- The un-parking of a fact, in a session that keeps `Q` of the processed ids and the event `id`.
  pub unpark-Triple :
      (Q : List Text → Type 0) (o : Option Text) (gen : ℕ) (fact_id : Text)
      → Triple g (Holds Q o) (unpark g gen fact_id) (λ u. Holds Q o)
  unfolding unpark remove_deferred
  unpark-Triple Q o gen fact_id = bind g (set_policy-Triple Q o _ (λ p. refl)) λ u.
      bind g (gets-Triple (Holds Q o) _) λ ids.
        bind g (record { run = λ w p. (save-Triple Q o gen ids).run w p.0 })
          λ saved. alive-Triple (Holds Q o) gen (λ w p. p.0.0)
