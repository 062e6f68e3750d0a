-- ===== src/Persistence/Crash.antt =====
-- What a crash between two writes leaves: `acceptDeferredFact` and `clearGroupState`.
use notestr.Prelude.{
  ◌≡◌, ◌⊎◌, inl, inr, refl, Text, true, false, not, some, List, [], ◌∷◌, any, keep, any-append,
  same, same_refl, arith, Option-cases, Bool, none, subst, sym, ap, ◌∙◌, Bool-cases,
}
use notestr.Prelude.Dict.{get, get-set}
use notestr.Domain.Events.{AcceptedDomainEvent, or_else}
use notestr.Engine.Types.{accepted_events_key, deferred_ids_key}
use notestr.Persistence.{
  Disk, load_accepted_events, load_deferred_ids, append_accepted_update, append_accepted_event,
  remove_deferred_id, accept_deferred_fact, StoreWrite, run_writes, run_landed, run_stages,
  torn_stages, accept_stages,
}

-- The event is in the accepted log of the group.
abbrev pub IsAccepted : Disk → Text → Text → Type 0
IsAccepted d g id =
    any (λ (e : AcceptedDomainEvent). same e.id id) (load_accepted_events d g) ≡ true

abbrev pub IsDeferred : Disk → Text → Text → Type 0
IsDeferred d g id = any (λ (i : Text). same i id) (load_deferred_ids d g) ≡ true

-- Of the writes of a stage, some have landed.
pub data Landed : List StoreWrite → Disk → Disk → Type 0 where
  no_more : {d : Disk} → Landed [] d d
  lands :
      {w : StoreWrite} {ws : List StoreWrite} {d m d' : Disk}
      → w d ≡ some m
      → Landed ws m d'
      → Landed (w ∷ ws) d d'
  misses :
      {w : StoreWrite} {ws : List StoreWrite} {d d' : Disk} → Landed ws d d' → Landed (w ∷ ws) d d'

-- The stores that a crash, or a refusal of a write, can leave of a call: some writes of a stage have
-- landed, and all of the stages before it.
pub data Crash : List (List StoreWrite) → Disk → Disk → Type 0 where
  at_end : {d : Disk} → Crash [] d d
  within :
      {s : List StoreWrite} {ss : List (List StoreWrite)} {d d' : Disk}
      → Landed s d d'
      → Crash (s ∷ ss) d d'
  beyond :
      {s : List StoreWrite} {ss : List (List StoreWrite)} {d m d' : Disk}
      → run_writes s d ≡ some m
      → Crash ss m d'
      → Crash (s ∷ ss) d d'

Landed-none : (ws : List StoreWrite) (d : Disk) → Landed ws d d
Landed-none [] d = no_more
Landed-none (w ∷ ws) d = misses (Landed-none ws d)

run_landed-Landed :
    (flags : List Bool) (ws : List StoreWrite) (d : Disk) → Landed ws d (run_landed flags ws d).2
unfolding run_landed
run_landed-Landed flags [] d = no_more
run_landed-Landed [] (w ∷ ws) d = Landed-none (w ∷ ws) d
run_landed-Landed (true ∷ flags) (w ∷ ws) d = elim (Option-cases (w d)) [
  | inl n ↦ rw (n, run_landed) (Landed-none (w ∷ ws) d)
  | inr (m, e) ↦ rw (e, run_landed) (lands e (run_landed-Landed flags ws m))
]
run_landed-Landed (false ∷ flags) (w ∷ ws) d = misses (run_landed-Landed flags ws d)

run_landed-whole :
    (flags : List Bool) (ws : List StoreWrite) (d : Disk)
    → (run_landed flags ws d).0 ≡ true
    → run_writes ws d ≡ some (run_landed flags ws d).2
unfolding run_landed run_writes
run_landed-whole flags [] d h = refl
run_landed-whole [] (w ∷ ws) d h = cc
run_landed-whole (true ∷ flags) (w ∷ ws) d h = elim (Option-cases (w d)) [
  | inl n ↦ absurd (refused n (rw (n, run_landed) at h))
  | inr (m, e) ↦
      rw (e, run_landed, run_writes) (run_landed-whole flags ws m (rw (e, run_landed) at h))
]
  where
    refused : w d ≡ none → false ≡ true → ⊥
    refused n k = cc
run_landed-whole (false ∷ flags) (w ∷ ws) d h = cc

pub torn_stages-Crash :
    (flags : List Bool) (ss : List (List StoreWrite)) (d : Disk)
    → Crash ss d (torn_stages flags ss d)
unfolding torn_stages
torn_stages-Crash flags [] d = at_end
torn_stages-Crash flags (s ∷ ss) d = elim (Bool-cases (run_landed flags s d).0) [
  | inl e ↦ rw e (
      beyond (run_landed-whole flags s d e)
        (torn_stages-Crash (run_landed flags s d).1 ss (run_landed flags s d).2))
  | inr e ↦ rw e (within (run_landed-Landed flags s d))
]

pub Crash-cases :
    {s : List StoreWrite} {ss : List (List StoreWrite)} {d d' : Disk}
    → Crash (s ∷ ss) d d'
    → Landed s d d' ⊎ ((m : Disk) × (run_writes s d ≡ some m) × Crash ss m d')
Crash-cases (within l) = inl l
Crash-cases (beyond {m = m} e c) = inr (m, e, c)

pub Crash-end : {d d' : Disk} → Crash [] d d' → d' ≡ d
Crash-end at_end = refl

pub Landed-end : {d d' : Disk} → Landed [] d d' → d' ≡ d
Landed-end no_more = refl

pub Landed-cases :
    {w : StoreWrite} {ws : List StoreWrite} {d d' : Disk}
    → Landed (w ∷ ws) d d'
    → ((m : Disk) × (w d ≡ some m) × Landed ws m d') ⊎ Landed ws d d'
Landed-cases (lands {m = m} e l) = inl (m, e, l)
Landed-cases (misses l) = inr l

-- A stage of one write has landed or it has not.
pub Landed-one : {w : StoreWrite} {d d' : Disk} → Landed (w ∷ []) d d' → (w d ≡ some d') ⊎ (d' ≡ d)
Landed-one {w = w} {d = d} l = elim (Landed-cases l) [
  | inl (m, e, rest) ↦ inl (subst (λ x. w d ≡ some x) (sym (Landed-end rest)) e)
  | inr rest ↦ inr (Landed-end rest)
]

pub run_writes-one :
    (w : StoreWrite) (d d' : Disk) → run_writes (w ∷ []) d ≡ some d' → w d ≡ some d'
unfolding run_writes
run_writes-one w d d' e = elim (Option-cases (w d)) [
  | inl n ↦ ground (arith, n)
  | inr (m, k) ↦ k ∙ (rw (k, run_writes) at e)
]

pub some_inj : {a b : Disk} → some a ≡ some b → a ≡ b
some_inj {a = a} e = ap (λ o. or_else o a) e

-- What a crash can leave of the two writes: nothing, the first alone, or both.
accept_stages-cases :
    (g fact_id : Text) (event : AcceptedDomainEvent) (d d' : Disk)
    → Crash (accept_stages g fact_id event) d d'
    → (d' ≡ d)
      ⊎ (append_accepted_event d event ≡ some d')
      ⊎ ((m : Disk) × (append_accepted_event d event ≡ some m)
          × (d' ≡ remove_deferred_id m g fact_id))
unfolding accept_stages
accept_stages-cases g fact_id event d d' crash = elim (Crash-cases crash) [
  | inl l ↦ elim (Landed-one l) [ inl e ↦ inr (inl e) | inr e ↦ inl e ]
  | inr (m, e, c) ↦
      let first = run_writes-one (λ d. append_accepted_event d event) d m e in
      elim (Crash-cases c) [
        | inl l ↦ elim (Landed-one l) [
          | inl k ↦ inr (inr (m, first, some_inj (sym k)))
          | inr k ↦ inr (inl (subst (λ x. append_accepted_event d event ≡ some x) (sym k) first))
        ]
        | inr (n, k, end) ↦
            let second = run_writes-one (λ d. some (remove_deferred_id d g fact_id)) m n k in
            inr (inr (m, first, Crash-end end ∙ some_inj (sym second)))
      ]
]

any-append_accepted_update :
    (es : List AcceptedDomainEvent) (event : AcceptedDomainEvent)
    → any (λ (e : AcceptedDomainEvent). same e.id event.id) (append_accepted_update es event) ≡ true
unfolding append_accepted_update any
any-append_accepted_update es event = ground (
  arith,
  any-append (λ (e : AcceptedDomainEvent). same e.id event.id) es (event ∷ []),
  same_refl event.id,
)

any-append_accepted_update_mono :
    (es : List AcceptedDomainEvent) (event : AcceptedDomainEvent) (id : Text)
    → any (λ (e : AcceptedDomainEvent). same e.id id) es ≡ true
    → any (λ (e : AcceptedDomainEvent). same e.id id) (append_accepted_update es event) ≡ true
unfolding append_accepted_update
any-append_accepted_update_mono es event id h =
    ground (arith, any-append (λ (e : AcceptedDomainEvent). same e.id id) es (event ∷ []))

pub load_accepted_events-append :
    (d d' : Disk) (event : AcceptedDomainEvent)
    → append_accepted_event d event ≡ some d'
    → load_accepted_events d' event.group_id
      ≡ append_accepted_update (load_accepted_events d event.group_id) event
unfolding append_accepted_event load_accepted_events
load_accepted_events-append d d' event e =
    let key = accepted_events_key event.group_id in
    ground (
      arith,
      get-set key key (append_accepted_update (or_else (get key d.accepted_events) []) event)
          d.accepted_events,
      same_refl key,
    )

pub append_accepted_event-IsAccepted :
    (d d' : Disk) (event : AcceptedDomainEvent)
    → append_accepted_event d event ≡ some d'
    → IsAccepted d' event.group_id event.id
append_accepted_event-IsAccepted d d' event e =
    rw (load_accepted_events-append d d' event e)
      (any-append_accepted_update (load_accepted_events d event.group_id) event)

pub append_accepted_event-IsAccepted_mono :
    (d d' : Disk) (event : AcceptedDomainEvent) (id : Text)
    → append_accepted_event d event ≡ some d'
    → IsAccepted d event.group_id id
    → IsAccepted d' event.group_id id
append_accepted_event-IsAccepted_mono d d' event id e h =
    rw (load_accepted_events-append d d' event e)
      (any-append_accepted_update_mono (load_accepted_events d event.group_id) event id h)

pub load_accepted_events-remove :
    (d : Disk) (g h fact_id : Text)
    → load_accepted_events (remove_deferred_id d g fact_id) h ≡ load_accepted_events d h
unfolding remove_deferred_id load_accepted_events
load_accepted_events-remove d g h fact_id = refl

any-keep-not :
    (id : Text) (ids : List Text)
    → any (λ (i : Text). same i id) (keep (λ i. not (same i id)) ids) ≡ false
unfolding any keep
any-keep-not id [] = refl
any-keep-not id (i ∷ ids) = ground (arith, any-keep-not id ids)

load_deferred_ids-remove :
    (d : Disk) (g fact_id : Text)
    → load_deferred_ids (remove_deferred_id d g fact_id) g
      ≡ keep (λ id. not (same id fact_id)) (load_deferred_ids d g)
unfolding remove_deferred_id load_deferred_ids
load_deferred_ids-remove d g fact_id =
    let key = deferred_ids_key g in
    ground (
      arith,
      get-set key key (keep (λ id. not (same id fact_id)) (or_else (get key d.deferred_ids) []))
          d.deferred_ids,
      same_refl key,
    )

-- A call of `acceptDeferredFact` that returns has made its first write and then its second.
accept_deferred_fact-eq-some :
    (d d' : Disk) (g fact_id : Text) (event : AcceptedDomainEvent)
    → accept_deferred_fact d g fact_id event ≡ some d'
    → (m : Disk) × (append_accepted_event d event ≡ some m) × (d' ≡ remove_deferred_id m g fact_id)
unfolding accept_deferred_fact accept_stages run_stages run_writes
accept_deferred_fact-eq-some d d' g fact_id event e =
    elim (Option-cases (append_accepted_event d event)) [
      | inl n ↦ ground arith
      | inr (m, n) ↦ (m, n, ground arith)
    ]

-- When `acceptDeferredFact` returns, the event is accepted and the fact is no longer deferred.
pub accept_deferred_fact-IsAccepted :
    (d d' : Disk) (fact_id : Text) (event : AcceptedDomainEvent)
    → accept_deferred_fact d event.group_id fact_id event ≡ some d'
    → IsAccepted d' event.group_id event.id
      × (any (λ (i : Text). same i fact_id) (load_deferred_ids d' event.group_id) ≡ false)
accept_deferred_fact-IsAccepted d d' fact_id event e =
    let (m, n, p) = accept_deferred_fact-eq-some d d' event.group_id fact_id event e in
    (
      rw (p, load_accepted_events-remove m event.group_id event.group_id fact_id)
          (append_accepted_event-IsAccepted d m event n),
      rw (p, load_deferred_ids-remove m event.group_id fact_id)
          (any-keep-not fact_id (load_deferred_ids m event.group_id)),
    )

pub accept_deferred_fact-IsAccepted_mono :
    (d d' : Disk) (fact_id : Text) (event : AcceptedDomainEvent) (id : Text)
    → accept_deferred_fact d event.group_id fact_id event ≡ some d'
    → IsAccepted d event.group_id id
    → IsAccepted d' event.group_id id
accept_deferred_fact-IsAccepted_mono d d' fact_id event id e a =
    let (m, n, p) = accept_deferred_fact-eq-some d d' event.group_id fact_id event e in
    rw (p, load_accepted_events-remove m event.group_id event.group_id fact_id)
      (append_accepted_event-IsAccepted_mono d m event id n a)

load_deferred_ids-append :
    (d d' : Disk) (event : AcceptedDomainEvent) (g : Text)
    → append_accepted_event d event ≡ some d'
    → load_deferred_ids d' g ≡ load_deferred_ids d g
unfolding append_accepted_event load_deferred_ids
load_deferred_ids-append d d' event g e = ground arith

-- No crash loses an accepted event.
pub Crash-accepted :
    (d d' : Disk) (fact_id : Text) (event : AcceptedDomainEvent)
    → Crash (accept_stages event.group_id fact_id event) d d'
    → (id : Text) → IsAccepted d event.group_id id
    → IsAccepted d' event.group_id id
Crash-accepted d d' fact_id event crash =
    let g = event.group_id in
    elim (accept_stages-cases g fact_id event d d' crash) [
      | inl e ↦ λ id a. rw e a
      | inr (inl e) ↦ λ id a. append_accepted_event-IsAccepted_mono d d' event id e a
      | inr (inr (m, e, r)) ↦ λ id a.
          rw (r, load_accepted_events-remove m g g fact_id)
            (append_accepted_event-IsAccepted_mono d m event id e a)
    ]

-- Wherever a crash or a refusal stops `acceptDeferredFact`, a fact that was deferred is deferred still
-- or its event is in the accepted log, and nothing that was accepted is lost.
pub accept_stages-Crash :
    (d d' : Disk) (fact_id : Text) (event : AcceptedDomainEvent)
    → Crash (accept_stages event.group_id fact_id event) d d'
    → IsDeferred d event.group_id fact_id
    → (IsDeferred d' event.group_id fact_id ⊎ IsAccepted d' event.group_id event.id)
      × ((id : Text) → IsAccepted d event.group_id id → IsAccepted d' event.group_id id)
accept_stages-Crash d d' fact_id event crash h =
    let g = event.group_id in
    (
      elim (accept_stages-cases g fact_id event d d' crash) [
        | inl e ↦ inl (rw e h)
        | inr (inl e) ↦ inr (append_accepted_event-IsAccepted d d' event e)
        | inr (inr (m, e, r)) ↦ inr (
            rw (r, load_accepted_events-remove m g g fact_id)
              (append_accepted_event-IsAccepted d m event e))
      ],
      Crash-accepted d d' fact_id event crash,
    )
