-- ===== src/Domain/Projector.antt =====
-- src/domain/task-projector.ts: tasks are a fold of the accepted events.
pub mod Phases
pub mod Invariant
pub mod Commute
pub mod Convergence
use notestr.Prelude.{◌-◌, ◌<◌, Bool, Option, none, some, List, [], ◌∷◌, leb, if◌then◌else◌}
use notestr.Prelude.{Text}
use notestr.Prelude.Dict.{Dict, get, has, set, delete}
use notestr.Domain.Events.{
  Task, TaskStatus, TaskEvent, TieBreakFields, Changes, task_created, task_updated,
  task_status_changed, task_assigned, task_deleted, or_else, AcceptedDomainEvent, phase_order,
}
use notestr.Domain.TieBreak.{task_wins_over, device_of}

abbrev pub TaskProjection : Type 0
TaskProjection = Dict Task

-- `EMPTY_PROJECTION`.
abbrev pub empty_projection : TaskProjection
empty_projection = []

-- The three writer fields as a win stores them: a missing device becomes `""`.
abbrev pub stored : TieBreakFields → TieBreakFields
stored f = record f { updated_by_device = some (device_of f) }

-- A stable insertion of one event, as `sort` places it by the difference of the phases.
unfoldable pub insert_by_phase :
    AcceptedDomainEvent → List AcceptedDomainEvent → List AcceptedDomainEvent
insert_by_phase e [] = e ∷ []
insert_by_phase e (x ∷ xs) =
    if leb (phase_order e.source_kind) (phase_order x.source_kind)
    then e ∷ (x ∷ xs)
    else x ∷ insert_by_phase e xs

-- `replayOrder`: a stable sort.
unfoldable pub replay_order : List AcceptedDomainEvent → List AcceptedDomainEvent
unfolding insert_by_phase
replay_order [] = []
replay_order (e ∷ es) = insert_by_phase e (replay_order es)

-- A mutation: no task or a lost tie-break leaves the projection as it is.
abbrev pub if_wins :
    TaskProjection → Text → TieBreakFields → (Task → TaskProjection) → TaskProjection
if_wins projection task_id stamp write = elim (get task_id projection) [
  | none ↦ projection
  | some existing ↦ if task_wins_over stamp existing.stamp then write existing else projection
]

-- `{ ...existing, ...payload.changes, … }`, `{ ...existing, status, … }` and
-- `{ ...existing, assignee, … }`.
abbrev pub with_changes : Changes → TieBreakFields → Task → Task
with_changes changes stamp existing = record {
  id = or_else changes.new_id existing.id;
  title = or_else changes.new_title existing.title;
  description = or_else changes.new_description existing.description;
  status = or_else changes.new_status existing.status;
  assignee = or_else changes.new_assignee existing.assignee;
  created_by = or_else changes.new_created_by existing.created_by;
  created_at = or_else changes.new_created_at existing.created_at;
  stamp = stored stamp;
}

abbrev pub with_status : TaskStatus → TieBreakFields → Task → Task
with_status status stamp existing = record existing { status = status; stamp = stored stamp }

abbrev pub with_assignee : Option Text → TieBreakFields → Task → Task
with_assignee assignee stamp existing = record existing {
  assignee = assignee;
  stamp = stored stamp;
}

-- The `switch` of `applyEvent`.
unfoldable pub apply_payload : TaskProjection → TaskEvent → TaskProjection
apply_payload projection (task_created task) =
    if has task.id projection then projection else set task.id task projection
apply_payload projection (task_updated task_id changes stamp) =
    if_wins projection task_id stamp
      λ existing. set task_id (with_changes changes stamp existing) projection
apply_payload projection (task_status_changed task_id status stamp) =
    if_wins projection task_id stamp
      λ existing. set task_id (with_status status stamp existing) projection
apply_payload projection (task_assigned task_id assignee stamp) =
    if_wins projection task_id stamp
      λ existing. set task_id (with_assignee assignee stamp existing) projection
apply_payload projection (task_deleted task_id stamp) =
    if_wins projection task_id stamp λ existing. delete task_id projection

-- `applyEvent`.
unfoldable pub apply_event : TaskProjection → AcceptedDomainEvent → TaskProjection
unfolding apply_payload
apply_event projection event = apply_payload projection event.payload

-- `events.reduce(applyEvent, projection)`.
unfoldable pub fold_events : TaskProjection → List AcceptedDomainEvent → TaskProjection
fold_events projection [] = projection
fold_events projection (e ∷ es) = fold_events (apply_event projection e) es

-- `buildProjection`.
unfoldable pub build_projection : List AcceptedDomainEvent → TaskProjection
unfolding fold_events
build_projection events = fold_events empty_projection events
