-- ===== src/Domain/Reducer.antt =====
-- src/store/task-reducer.ts: the older reducer, with the tie-break written out in each case; it
-- folds to the same tasks as the projector.
use notestr.Prelude.{
  ◌≡◌, refl, ap, ◌∙◌, Bool, ◌&&◌, ◌||◌, none, some, List, [], ◌∷◌, map, arith, ltb, ◌==◌, same,
  before, same_iff, before_irrefl, if◌then◌else◌, Text, Option-cases, inl, inr,
}
use notestr.Prelude.Dict.{Dict, get, has, set, delete}
use notestr.Domain.Events.{
  Task, TaskEvent, TieBreakFields, task_created, task_updated, task_status_changed, task_assigned,
  task_deleted, or_else, AcceptedDomainEvent,
}
use notestr.Domain.TieBreak.{task_wins_over, device_of}
use notestr.Domain.Projector.{
  stored, if_wins, apply_payload, apply_event, fold_events, build_projection,
}

-- `TaskState`.
abbrev pub TaskState : Type 0
TaskState = Dict Task

-- The condition after `existing &&`.
unfoldable pub newer : TieBreakFields → TieBreakFields → Bool
newer event existing =
    ltb existing.updated_at event.updated_at
    || (event.updated_at == existing.updated_at
        && (before event.updated_by existing.updated_by
            || (same event.updated_by existing.updated_by
                && before (device_of event) (device_of existing))))

abbrev if_newer : TaskState → Text → TieBreakFields → (Task → TaskState) → TaskState
if_newer next task_id stamp write = elim (get task_id next) [
  | none ↦ next
  | some existing ↦ if newer stamp existing.stamp then write existing else next
]

-- `applyEvent` of the reducer.
unfoldable pub reduce : TaskState → TaskEvent → TaskState
reduce next (task_created task) = if has task.id next then next else set task.id task next
reduce next (task_updated task_id changes stamp) = if_newer next task_id stamp λ existing.
    set task_id
      (record {
        id = or_else changes.new_id existing.id;
        title = or_else changes.new_title existing.title;
        description = or_else changes.new_description existing.description;
        status = or_else changes.new_status existing.status;
        assignee = or_else changes.new_assignee existing.assignee;
        created_by = or_else changes.new_created_by existing.created_by;
        created_at = or_else changes.new_created_at existing.created_at;
        stamp = stored stamp;
      })
      next
reduce next (task_status_changed task_id status stamp) =
    if_newer next task_id stamp
      λ existing. set task_id (record existing { status = status; stamp = stored stamp }) next
reduce next (task_assigned task_id assignee stamp) =
    if_newer next task_id stamp
      λ existing. set task_id (record existing { assignee = assignee; stamp = stored stamp }) next
reduce next (task_deleted task_id stamp) =
    if_newer next task_id stamp λ existing. delete task_id next

replay_from : TaskState → List TaskEvent → TaskState
replay_from state [] = state
replay_from state (e ∷ es) = replay_from (reduce state e) es

-- `replayEvents`.
unfoldable pub replay_events : List TaskEvent → TaskState
unfolding replay_from
replay_events events = replay_from [] events

-- The flat cascade of the projector decides as the nested expression of the reducer does.
newer-task_wins_over : (a b : TieBreakFields) → newer a b ≡ task_wins_over a b
unfolding newer task_wins_over
newer-task_wins_over a b =
    ground (arith, same_iff a.updated_by b.updated_by, before_irrefl b.updated_by)

if_newer-if_wins :
    (s : TaskState) (i : Text) (w : TieBreakFields) (write : Task → TaskState)
    → if_newer s i w write ≡ if_wins s i w write
if_newer-if_wins s i w write = elim (Option-cases (get i s)) [
  | inl e ↦ rw (e, if_newer, if_wins)
  | inr (t, e) ↦ rw (e, if_newer, if_wins, newer-task_wins_over)
]

reduce-apply_payload : (s : TaskState) (e : TaskEvent) → reduce s e ≡ apply_payload s e
unfolding reduce apply_payload
reduce-apply_payload s (task_created task) = refl
reduce-apply_payload s (task_updated i c w) = if_newer-if_wins s i w _
reduce-apply_payload s (task_status_changed i c w) = if_newer-if_wins s i w _
reduce-apply_payload s (task_assigned i c w) = if_newer-if_wins s i w _
reduce-apply_payload s (task_deleted i w) = if_newer-if_wins s i w _

replay_from-fold_events :
    (s : TaskState) (es : List AcceptedDomainEvent)
    → replay_from s (map (λ e. e.payload) es) ≡ fold_events s es
unfolding replay_from fold_events apply_event
replay_from-fold_events s [] = refl
replay_from-fold_events s (e ∷ es) =
    ap (λ t. replay_from t (map (λ x. x.payload) es)) (reduce-apply_payload s e.payload)
    ∙ replay_from-fold_events (apply_payload s e.payload) es

-- Over any log the reducer's replay of the payloads and the projector's projection are the same
-- map of tasks, entry by entry and in the same order.
pub replay_events-build_projection :
    (es : List AcceptedDomainEvent) → replay_events (map (λ e. e.payload) es) ≡ build_projection es
unfolding replay_events build_projection
replay_events-build_projection es = unfold replay_from in replay_from-fold_events [] es
