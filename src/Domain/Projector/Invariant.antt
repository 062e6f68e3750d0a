-- ===== src/Domain/Projector/Invariant.antt =====
-- The shape of a projection, and how an event moves the writer stamps of its tasks.
use notestr.Prelude.{
  ◌≡◌, inl, inr, true, false, some, none, List, [], ◌∷◌, arith, Bool, if◌then◌else◌, same_iff,
  same_refl, All, sym, subst, Text, Option-cases, Bool-cases, refl,
}
use notestr.Prelude.Dict.{
  IsMap, get, has, set, delete, has-set, get-set, get-delete, set-IsMap, delete-IsMap,
}
use notestr.Domain.Events.{
  Task, TaskEvent, TieBreakFields, AcceptedDomainEvent, task_created, task_updated,
  task_status_changed, task_assigned, task_deleted, or_else,
}
use notestr.Domain.TieBreak.{task_wins_over}
use notestr.Domain.TieBreak.Order.{task_wins_over_irrefl}
use notestr.Domain.Projector.{
  TaskProjection, with_changes, with_status, with_assignee, stored, if_wins, apply_payload,
  apply_event, fold_events, build_projection,
}

-- Each task is stored under its own id.
abbrev pub Keyed : TaskProjection → Type 0
Keyed [] = Unit
Keyed ((k, t) ∷ p) = (k ≡ t.id) × Keyed p

-- No id stands twice, and each task is stored under its own id.
pub record IsProjection (p : TaskProjection) : Type 0 where
  pub no_twice : IsMap p
  pub keyed : Keyed p

set-Keyed : (k : Text) (t : Task) (p : TaskProjection) → k ≡ t.id → Keyed p → Keyed (set k t p)
unfolding set
set-Keyed k t [] e h = (e, tt)
set-Keyed k t ((j, u) ∷ p) e h = ground (arith, set-Keyed k t p e h.1, same_iff j k)

delete-Keyed : (k : Text) (p : TaskProjection) → Keyed p → Keyed (delete k p)
unfolding delete
delete-Keyed k [] h = tt
delete-Keyed k ((j, u) ∷ p) h = ground (arith, delete-Keyed k p h.1)

get-Keyed : (k : Text) (p : TaskProjection) (t : Task) → Keyed p → get k p ≡ some t → k ≡ t.id
unfolding get
get-Keyed k [] t h e = cc
get-Keyed k ((j, u) ∷ p) t h e = ground (arith, get-Keyed k p t h.1, same_iff j k)

set-IsProjection :
    (k : Text) (t : Task) (p : TaskProjection)
    → k ≡ t.id
    → IsProjection p
    → IsProjection (set k t p)
set-IsProjection k t p e h = record {
  no_twice = set-IsMap k t p h.no_twice;
  keyed = set-Keyed k t p e h.keyed;
}

if-IsProjection :
    (b : Bool) (p q : TaskProjection)
    → IsProjection p
    → IsProjection q
    → IsProjection (if b then p else q)
if-IsProjection true p q h k = h
if-IsProjection false p q h k = k

if_wins-IsProjection :
    (p : TaskProjection) (i : Text) (w : TieBreakFields) (write : Task → TaskProjection)
    → IsProjection p
    → ((t : Task) → i ≡ t.id → IsProjection (write t))
    → IsProjection (if_wins p i w write)
if_wins-IsProjection p i w write h k = elim (Option-cases (get i p)) [
  | inl e ↦ rw (e, if_wins) h
  | inr (t, e) ↦
      rw (e, if_wins)
        (if-IsProjection (task_wins_over w t.stamp) _ _ (k t (get-Keyed i p t h.keyed e)) h)
]

-- An update that carries an id carries the one of its task.
abbrev pub KeepsId : TaskEvent → Type 0
KeepsId (task_updated i c w) = or_else c.new_id i ≡ i
KeepsId _ = Unit

apply_payload-IsProjection :
    (p : TaskProjection) (e : TaskEvent)
    → KeepsId e
    → IsProjection p
    → IsProjection (apply_payload p e)
unfolding apply_payload
apply_payload-IsProjection p (task_created t) q h =
    if-IsProjection (has t.id p) p _ h (set-IsProjection t.id t p refl h)
apply_payload-IsProjection p (task_updated i c w) q h =
    if_wins-IsProjection p i w _ h
      (λ t e. set-IsProjection i _ p (subst (λ j. i ≡ or_else c.new_id j) e (sym q)) h)
apply_payload-IsProjection p (task_status_changed i c w) q h =
    if_wins-IsProjection p i w _ h (λ t e. set-IsProjection i _ p e h)
apply_payload-IsProjection p (task_assigned i c w) q h =
    if_wins-IsProjection p i w _ h (λ t e. set-IsProjection i _ p e h)
apply_payload-IsProjection p (task_deleted i w) q h =
    if_wins-IsProjection p i w _ h
      (λ t e. record { no_twice = delete-IsMap i p h.no_twice; keyed = delete-Keyed i p h.keyed })

fold_events-IsProjection :
    (p : TaskProjection) (es : List AcceptedDomainEvent)
    → All (λ e. KeepsId e.payload) es
    → IsProjection p
    → IsProjection (fold_events p es)
unfolding fold_events apply_event
fold_events-IsProjection p [] q h = h
fold_events-IsProjection p (e ∷ es) q h =
    fold_events-IsProjection (apply_payload p e.payload) es q.1
      (apply_payload-IsProjection p e.payload q.0 h)

-- Where no update of the log carries an id other than that of its task, the projection holds no task id
-- twice and keeps each task under its own id.
pub build_projection-IsProjection :
    (es : List AcceptedDomainEvent)
    → All (λ e. KeepsId e.payload) es
    → IsProjection (build_projection es)
unfolding build_projection
build_projection-IsProjection es q =
    unfold fold_events in fold_events-IsProjection [] es q (record { no_twice = tt; keyed = tt })

-- The event as it is stored wins over nothing that it wrote itself.
stored_ties : (w : TieBreakFields) → task_wins_over w (stored w) ≡ false
stored_ties w =
    task_wins_over_irrefl w (stored w)
      (record { same_time = refl; same_author = refl; same_device = refl })

-- A lost tie-break, and a missing task, leave the projection.
pub if_wins_loses :
    (p : TaskProjection) (i : Text) (w : TieBreakFields) (write : Task → TaskProjection) (t : Task)
    → get i p ≡ some t
    → task_wins_over w t.stamp ≡ false
    → if_wins p i w write ≡ p
if_wins_loses p i w write t e l = rw (e, if_wins, l)

pub if_wins_missing :
    (p : TaskProjection) (i : Text) (w : TieBreakFields) (write : Task → TaskProjection)
    → get i p ≡ none
    → if_wins p i w write ≡ p
if_wins_missing p i w write e = rw (e, if_wins)

pub if_wins_hit :
    (p : TaskProjection) (i : Text) (w : TieBreakFields) (write : Task → TaskProjection) (t : Task)
    → get i p ≡ some t
    → task_wins_over w t.stamp ≡ true
    → if_wins p i w write ≡ write t
if_wins_hit p i w write t e l = rw (e, if_wins, l)

if_wins_idem :
    (p : TaskProjection) (i : Text) (w : TieBreakFields)
    (write : TaskProjection → Task → TaskProjection)
    → ((t : Task) → if_wins (write p t) i w (write (write p t)) ≡ write p t)
    → if_wins (if_wins p i w (write p)) i w (write (if_wins p i w (write p)))
      ≡ if_wins p i w (write p)
if_wins_idem p i w write k = elim (Option-cases (get i p)) [
  | inl e ↦ rw (if_wins_missing p i w (write p) e) (if_wins_missing p i w (write p) e)
  | inr (t, e) ↦ elim (Bool-cases (task_wins_over w t.stamp)) [
    | inl l ↦ rw (if_wins_hit p i w (write p) t e l) (k t)
    | inr l ↦ rw (if_wins_loses p i w (write p) t e l) (if_wins_loses p i w (write p) t e l)
  ]
]

set_idem :
    (p : TaskProjection) (i : Text) (w : TieBreakFields) (g : Task → Task)
    → ((t : Task) → (g t).stamp ≡ stored w)
    → let q = if_wins p i w (λ t. set i (g t) p) in if_wins q i w (λ t. set i (g t) q) ≡ q
set_idem p i w g h =
    if_wins_idem p i w (λ q t. set i (g t) q)
      λ t.
        if_wins_loses (set i (g t) p) i w _ (g t) (ground (arith, get-set i i (g t) p, same_refl i))
          (rw (h t) (stored_ties w))

apply_payload_idem :
    (p : TaskProjection) (e : TaskEvent)
    → IsMap p
    → apply_payload (apply_payload p e) e ≡ apply_payload p e
unfolding apply_payload
apply_payload_idem p (task_created t) h = ground (arith, has-set t.id t.id t p, same_refl t.id)
apply_payload_idem p (task_updated i c w) h = set_idem p i w (with_changes c w) (λ t. refl)
apply_payload_idem p (task_status_changed i c w) h = set_idem p i w (with_status c w) (λ t. refl)
apply_payload_idem p (task_assigned i c w) h = set_idem p i w (with_assignee c w) (λ t. refl)
apply_payload_idem p (task_deleted i w) h =
    if_wins_idem p i w (λ q t. delete i q)
      (λ t. if_wins_missing (delete i p) i w _ (ground (arith, get-delete i i p h, same_refl i)))

-- On a projection that holds no task id twice an event that is applied twice in a row has the effect of one
-- application.
pub apply_event_idem :
    (p : TaskProjection) (e : AcceptedDomainEvent)
    → IsMap p
    → apply_event (apply_event p e) e ≡ apply_event p e
unfolding apply_event
apply_event_idem p e h = apply_payload_idem p e.payload h
