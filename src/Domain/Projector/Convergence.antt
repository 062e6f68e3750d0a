-- ===== src/Domain/Projector/Convergence.antt =====
-- Writes of one field to tasks: the order in which they arrive does not matter.
use mathlib.Core.List.{Mem, Perm, Permᴰ, mem-cons_self, mem-cons_of_mem, map}
use mathlib.Core.List.Permᴰ
use mathlib.Core.Logic.{∥∥₁_elim}
use notestr.Prelude.{◌≡◌, refl, sym, ap, ◌∙◌, List, [], ◌∷◌, Text, Option}
use notestr.Domain.Events.{
  Task, TaskStatus, TieBreakFields, task_status_changed, task_assigned, AcceptedDomainEvent,
}
use notestr.Domain.Projector.{TaskProjection, apply_event, fold_events}
use notestr.Domain.Projector.Commute.{FieldWrite, Agree, write, write_comm}

module _ {A : Type 0} (put : A → Task → Task)
    (put_put : (a b : A) (v w : TieBreakFields) (t : Task)
      → record (put a (record (put b t) { stamp = v })) { stamp = w }
        ≡ record (put a t) { stamp = w }) where
  unfoldable pub writes : TaskProjection → List (FieldWrite A) → TaskProjection
  writes p [] = p
  writes p (e ∷ es) = writes (write put put_put p e) es

  writes-perm :
      {es fs : List (FieldWrite A)} (p : TaskProjection)
      → ((e f : FieldWrite A) → Mem e es → Mem f es → Agree e f)
      → Permᴰ es fs
      → writes p es ≡ writes p fs
  unfolding writes
  writes-perm p h Permᴰ.nil = refl
  writes-perm p h (Permᴰ.cons {a = a} {b = b} {l₁ = l} e q) =
      ap (λ x. writes (write put put_put p x) l) e
      ∙ writes-perm (write put put_put p b)
          (λ x y mx my. h x y (mem-cons_of_mem a mx) (mem-cons_of_mem a my)) q
  writes-perm p h (Permᴰ.swap {a = a} {b = b} {a' = a'} {l = l} e f) =
      ap (λ q. writes q l)
        (write_comm put put_put p a b (h a b mem-cons_self (mem-cons_of_mem a mem-cons_self)))
      ∙ (ap (λ x. writes (write put put_put (write put put_put p x) a) l) f
          ∙ ap (λ x. writes (write put put_put (write put put_put p a') x) l) e)
  writes-perm p h (Permᴰ.trans q r) =
      writes-perm p h q
      ∙ writes-perm p
          (λ x y mx my. h x y (Permᴰ.mem (Permᴰ.symm q) mx) (Permᴰ.mem (Permᴰ.symm q) my)) r

TaskProjection-set : IsSet TaskProjection
TaskProjection-set = hlevel

-- The events of a list of status changes; whatever else an event carries is given by `meta`.
abbrev pub status_events :
    (FieldWrite TaskStatus → AcceptedDomainEvent)
    → List (FieldWrite TaskStatus)
    → List AcceptedDomainEvent
status_events meta =
    map λ e. record (meta e) { payload = task_status_changed e.task_id e.value e.stamp }

fold_events-writes_status :
    (meta : FieldWrite TaskStatus → AcceptedDomainEvent) (p : TaskProjection)
    (es : List (FieldWrite TaskStatus))
    → fold_events p (status_events meta es)
      ≡ writes (λ s t. record t { status = s }) (λ a b v w t. refl) p es
unfolding fold_events apply_event writes write
fold_events-writes_status meta p [] = refl
fold_events-writes_status meta p (e ∷ es) =
    fold_events-writes_status meta (write (λ s t. record t { status = s }) (λ a b v w t. refl) p e)
      es

-- The same status changes in another order give the same projection, if changes of one task by the
-- same writer at the same time set the same status.
pub fold_events-perm_status :
    (meta : FieldWrite TaskStatus → AcceptedDomainEvent) (p : TaskProjection)
    (es fs : List (FieldWrite TaskStatus))
    → ((e f : FieldWrite TaskStatus) → Mem e es → Mem f es → Agree e f)
    → Perm es fs
    → fold_events p (status_events meta es) ≡ fold_events p (status_events meta fs)
fold_events-perm_status meta p es fs h q =
    fold_events-writes_status meta p es
    ∙ (∥∥₁_elim q (TaskProjection-set _ _) (writes-perm _ _ p h)
        ∙ sym (fold_events-writes_status meta p fs))

abbrev pub assigned_events :
    (FieldWrite (Option Text) → AcceptedDomainEvent)
    → List (FieldWrite (Option Text))
    → List AcceptedDomainEvent
assigned_events meta =
    map λ e. record (meta e) { payload = task_assigned e.task_id e.value e.stamp }

fold_events-writes_assigned :
    (meta : FieldWrite (Option Text) → AcceptedDomainEvent) (p : TaskProjection)
    (es : List (FieldWrite (Option Text)))
    → fold_events p (assigned_events meta es)
      ≡ writes (λ s t. record t { assignee = s }) (λ a b v w t. refl) p es
unfolding fold_events apply_event writes write
fold_events-writes_assigned meta p [] = refl
fold_events-writes_assigned meta p (e ∷ es) =
    fold_events-writes_assigned meta
      (write (λ s t. record t { assignee = s }) (λ a b v w t. refl) p e) es

-- The same assignments in another order give the same projection, if assignments of one task by the
-- same writer at the same time set the same assignee.
pub fold_events-perm_assigned :
    (meta : FieldWrite (Option Text) → AcceptedDomainEvent) (p : TaskProjection)
    (es fs : List (FieldWrite (Option Text)))
    → ((e f : FieldWrite (Option Text)) → Mem e es → Mem f es → Agree e f)
    → Perm es fs
    → fold_events p (assigned_events meta es) ≡ fold_events p (assigned_events meta fs)
fold_events-perm_assigned meta p es fs h q =
    fold_events-writes_assigned meta p es
    ∙ (∥∥₁_elim q (TaskProjection-set _ _) (writes-perm _ _ p h)
        ∙ sym (fold_events-writes_assigned meta p fs))
