-- ===== src/Domain/Events.antt =====
-- src/domain/task-events.ts and src/domain/domain-events.ts: tasks, the events on the wire, and
-- the accepted events with their idempotency keys. Numbers are non-negative integers.
use notestr.Prelude.{ℕ, ◌++◌, Text, lit, Option, none, some}

-- `TASK_EVENT_KIND`.
abbrev pub task_event_kind : ℕ
task_event_kind = 31337

pub data TaskStatus : Type 0 where
  opened in_progress done cancelled : TaskStatus

-- The fields by which the last writer of a task is known (`TieBreakFields` of task-crdt.ts); an
-- event and a task carry them alike.
pub record TieBreakFields : Type 0 where
  pub updated_at : ℕ
  pub updated_by : Text
  pub updated_by_device : Option Text

pub record Task : Type 0 where
  pub id : Text
  pub title : Text
  pub description : Text
  pub status : TaskStatus
  pub assignee : Option Text
  pub created_by : Text
  pub created_at : ℕ
  pub stamp : TieBreakFields
  pub open stamp use *

-- `Partial<Pick<Task, "title" | "description">>`, and what a received object may have beside it: the
-- shape tests let any other member through, and the spread of it overwrites that field of the task.
pub record Changes : Type 0 where
  pub new_title : Option Text
  pub new_description : Option Text
  pub new_id : Option Text
  pub new_status : Option TaskStatus
  pub new_assignee : Option (Option Text)
  pub new_created_by : Option Text
  pub new_created_at : Option ℕ

pub data TaskEvent : Type 0 where
  task_created : Task → TaskEvent
  task_updated : Text → Changes → TieBreakFields → TaskEvent
  task_status_changed : Text → TaskStatus → TieBreakFields → TaskEvent
  task_assigned : Text → Option Text → TieBreakFields → TaskEvent
  task_deleted : Text → TieBreakFields → TaskEvent

-- `a ?? b`.
abbrev pub or_else {ℓ} : {A : Type ℓ} → Option A → A → A
or_else none d = d
or_else (some a) d = a

-- `createTask`: the clock in seconds and the fresh id are its arguments.
unfoldable pub create_task : Text → Text → Text → Text → (now : ℕ) (uuid : Text) → Task
create_task title description created_by updated_by_device now uuid = record {
  id = uuid;
  title = title;
  description = description;
  status = opened;
  assignee = none;
  created_by = created_by;
  created_at = now;
  stamp = record {
    updated_at = now;
    updated_by = created_by;
    updated_by_device = some updated_by_device;
  };
}

pub data SourceKind : Type 0 where
  mls_rumor bootstrap_kind_30078 : SourceKind

-- `SOURCE_KIND_PHASE_ORDER`.
abbrev pub phase_order : SourceKind → ℕ
phase_order bootstrap_kind_30078 = 0
phase_order mls_rumor = 1

pub record AcceptedDomainEvent : Type 0 where
  pub id : Text
  pub fact_id : Text
  pub source_kind : SourceKind
  pub group_id : Text
  pub accepted_at : ℕ
  pub epoch : Text
  pub payload : TaskEvent

unfoldable pub derive_mls_accepted_event_id : Text → Text
derive_mls_accepted_event_id rumor_id = rumor_id

unfoldable pub derive_bootstrap_accepted_event_id : Text → Text → Text
derive_bootstrap_accepted_event_id group_id task_id =
    lit "bootstrap:" ++ (group_id ++ (lit ":" ++ task_id))
