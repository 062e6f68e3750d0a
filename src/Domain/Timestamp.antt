-- ===== src/Domain/Timestamp.antt =====
-- src/store/task-store-utils.ts: the guard of the sender against edits within one second.
use notestr.Prelude.{
  ◌+◌, ◌<◌, ◌%◌, ◌==◌, ℕ, ◌≡◌, refl, ap, true, Option, none, some, ltb, leb, arith, if◌then◌else◌,
}
use notestr.Domain.Events.{
  Task, TieBreakFields, TaskEvent, task_created, task_updated, task_status_changed, task_assigned,
  task_deleted, or_else,
}
use notestr.Domain.TieBreak.{task_wins_over}

-- The stamp of a mutation; a creation has none.
abbrev pub stamp_of : TaskEvent → Option TieBreakFields
stamp_of (task_created task) = none
stamp_of (task_updated id changes stamp) = some stamp
stamp_of (task_status_changed id status stamp) = some stamp
stamp_of (task_assigned id assignee stamp) = some stamp
stamp_of (task_deleted id stamp) = some stamp

-- `n + 1` for a whole number n that a double holds: one more is rounded to a double, to the even one of
-- two at the same distance. From 2^53 on the doubles are two apart, from 2^54 on four.
unfoldable number_succ : ℕ → ℕ
number_succ n =
    if ltb n 9007199254740992
    then n + 1
    else if ltb n 18014398509481984
    then (if n % 4 == 2 then n + 2 else n)
    else n

-- `{ ...event, updatedAt: existing.updatedAt + 1 }` where the event is not later.
unfoldable later_stamp : TieBreakFields → Task → TieBreakFields
unfolding number_succ
later_stamp stamp existing =
    if leb stamp.updated_at existing.updated_at
    then record stamp { updated_at = number_succ existing.updated_at }
    else stamp

unfoldable bump : TaskEvent → Task → TaskEvent
unfolding later_stamp
bump (task_created task) existing = task_created task
bump (task_updated id changes stamp) existing = task_updated id changes (later_stamp stamp existing)
bump (task_status_changed id status stamp) existing =
    task_status_changed id status (later_stamp stamp existing)
bump (task_assigned id assignee stamp) existing =
    task_assigned id assignee (later_stamp stamp existing)
bump (task_deleted id stamp) existing = task_deleted id (later_stamp stamp existing)

-- `ensureMonotonicTimestamp`.
unfoldable pub ensure_monotonic_timestamp : TaskEvent → Option Task → TaskEvent
unfolding bump
ensure_monotonic_timestamp event none = event
ensure_monotonic_timestamp event (some existing) = bump event existing

later_stamp-wins :
    (stamp : TieBreakFields) (existing : Task)
    → existing.updated_at < 9007199254740992
    → (task_wins_over (later_stamp stamp existing) existing.stamp ≡ true)
      × (ltb existing.updated_at stamp.updated_at ≡ true → later_stamp stamp existing ≡ stamp)
unfolding later_stamp number_succ task_wins_over
later_stamp-wins stamp existing small = (ground arith, λ h. ground arith)

some-inj : {a b : TieBreakFields} → some a ≡ some b → a ≡ b
some-inj {a = a} e = ap (λ o. or_else o a) e

guarded :
    (make : TieBreakFields → TaskEvent) (s : TieBreakFields) (existing : Task)
    (stamp : TieBreakFields)
    → existing.updated_at < 9007199254740992
    → s ≡ stamp
    → stamp_of (make (later_stamp s existing)) ≡ some (later_stamp s existing)
    → (new : TieBreakFields) × (stamp_of (make (later_stamp s existing)) ≡ some new)
      × (task_wins_over new existing.stamp ≡ true)
      × (ltb existing.updated_at stamp.updated_at ≡ true → make (later_stamp s existing) ≡ make s)
guarded make s existing stamp small e q =
    let (wins, same) = later_stamp-wins s existing small in
    (later_stamp s existing, q, wins, λ h. ap make (same (rw e h)))

-- Where the time of the task is below 2^53, the stamp of a guarded mutation wins over the task that it
-- changes, and a mutation that is later already is left as it is.
pub ensure_monotonic_timestamp-wins :
    (event : TaskEvent) (existing : Task) (stamp : TieBreakFields)
    → stamp_of event ≡ some stamp
    → existing.updated_at < 9007199254740992
    → (new : TieBreakFields) × (stamp_of (ensure_monotonic_timestamp event (some existing))
        ≡ some new)
      × (task_wins_over new existing.stamp ≡ true)
      × (ltb existing.updated_at stamp.updated_at ≡ true
          → ensure_monotonic_timestamp event (some existing) ≡ event)
unfolding ensure_monotonic_timestamp bump
ensure_monotonic_timestamp-wins (task_created task) existing stamp e small = ground arith
ensure_monotonic_timestamp-wins (task_updated id changes s) existing stamp e small =
    guarded (task_updated id changes) s existing stamp small (some-inj e) refl
ensure_monotonic_timestamp-wins (task_status_changed id status s) existing stamp e small =
    guarded (task_status_changed id status) s existing stamp small (some-inj e) refl
ensure_monotonic_timestamp-wins (task_assigned id assignee s) existing stamp e small =
    guarded (task_assigned id assignee) s existing stamp small (some-inj e) refl
ensure_monotonic_timestamp-wins (task_deleted id s) existing stamp e small =
    guarded (task_deleted id) s existing stamp small (some-inj e) refl
