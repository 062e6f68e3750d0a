-- ===== src/Adapter.antt =====
-- src/integration/marmot-adapter.ts: the values that `JSON.parse` yields, and the tests of their shape.
-- Numbers are non-negative integers. A test with a type guard yields the value as the type that the
-- guard gives it.
pub mod Messages
pub mod Codec
pub mod Bootstrap
pub mod Winners
pub mod Epochs
pub mod Snapshots
use notestr.Prelude.{
  ℕ, Text, lit, Bool, Option, none, some, List, [], ◌∷◌, ◌==◌, same, if◌then◌else◌,
}
use notestr.Domain.Events.{
  TaskStatus, opened, in_progress, done, cancelled, TieBreakFields, Task, Changes, TaskEvent,
  task_created, task_updated, task_status_changed, task_assigned, task_deleted,
}

mutual
  pub data Json : Type 0 where
    null : Json
    boolean : Bool → Json
    number : ℕ → Json
    string : Text → Json
    array : Items → Json
    object : Members → Json

  pub data Items : Type 0 where
    no_items : Items
    item : Json → Items → Items

  pub data Members : Type 0 where
    no_members : Members
    member : Text → Json → Members → Members

infixl 5 ◌>>=◌
abbrev pub ◌>>=◌ {ℓ κ} : {A : Type ℓ} {B : Type κ} → Option A → (A → Option B) → Option B
none >>= f = none
some a >>= f = f a

abbrev pub items : Items → List Json
items no_items = []
items (item j js) = j ∷ items js

-- A member of an object; `none` is `undefined`.
unfoldable pub lookup : Text → Members → Option Json
lookup key no_members = none
lookup key (member name j ms) = if same name key then some j else lookup key ms

-- `typeof value === "object" && value !== null`; an array has none of the members that are read.
abbrev pub as_object : Json → Option Members
as_object (object ms) = some ms
as_object (array js) = some no_members
as_object _ = none

-- `typeof x === "string"`.
abbrev pub as_string : Option Json → Option Text
as_string (some (string s)) = some s
as_string _ = none

-- `typeof x === "number"`.
abbrev pub as_number : Option Json → Option ℕ
as_number (some (number n)) = some n
as_number _ = none

-- `x === null || typeof x === "string"`.
abbrev pub as_nullable : Option Json → Option (Option Text)
as_nullable (some null) = some none
as_nullable (some (string s)) = some (some s)
as_nullable _ = none

-- `x === undefined || typeof x === "string"`.
abbrev pub as_optional : Option Json → Option (Option Text)
as_optional none = some none
as_optional (some (string s)) = some (some s)
as_optional _ = none

-- `TASK_STATUSES`.
unfoldable pub status_of : Text → Option TaskStatus
status_of s =
    if same s (lit "open")
    then some opened
    else if same s (lit "in_progress")
    then some in_progress
    else if same s (lit "done")
    then some done
    else if same s (lit "cancelled")
    then some cancelled
    else none

abbrev pub valid_status : Members → Option TaskStatus
valid_status ms = do s ← as_string (lookup (lit "status") ms); status_of s

-- The fields of the tie-break, which tasks and mutations share.
unfoldable pub valid_stamp : Members → Option TieBreakFields
valid_stamp ms = do
  updated_at ← as_number (lookup (lit "updatedAt") ms)
  updated_by ← as_string (lookup (lit "updatedBy") ms)
  updated_by_device ← as_optional (lookup (lit "updatedByDevice") ms)
  some (record {
    updated_at = updated_at;
    updated_by = updated_by;
    updated_by_device = updated_by_device;
  })

unfoldable pub valid_fields : Members → Option Task
valid_fields ms = do
  id ← as_string (lookup (lit "id") ms)
  title ← as_string (lookup (lit "title") ms)
  description ← as_string (lookup (lit "description") ms)
  status ← valid_status ms
  assignee ← as_nullable (lookup (lit "assignee") ms)
  created_by ← as_string (lookup (lit "createdBy") ms)
  created_at ← as_number (lookup (lit "createdAt") ms)
  stamp ← valid_stamp ms
  some (record {
    id = id;
    title = title;
    description = description;
    status = status;
    assignee = assignee;
    created_by = created_by;
    created_at = created_at;
    stamp = stamp;
  })

-- `isValidTask`.
unfoldable pub is_valid_task : Option Json → Option Task
is_valid_task none = none
is_valid_task (some j) = do ms ← as_object j; valid_fields ms

-- `hasValidMutationFields`, the tie-break fields apart.
unfoldable pub has_valid_mutation_fields : Members → Option (Text × TieBreakFields)
has_valid_mutation_fields ms = do
  task_id ← as_string (lookup (lit "taskId") ms)
  stamp ← valid_stamp ms
  some (task_id, stamp)

-- `isValidChanges`, with the value that it lets through. It tests the title and the description only;
-- of the other members those that fit the field of a task are kept, any others are outside the model.
unfoldable pub is_valid_changes : Option Json → Option Changes
is_valid_changes none = none
is_valid_changes (some j) = do
  ms ← as_object j
  title ← as_optional (lookup (lit "title") ms)
  description ← as_optional (lookup (lit "description") ms)
  some (record {
    new_title = title;
    new_description = description;
    new_id = as_string (lookup (lit "id") ms);
    new_status = valid_status ms;
    new_assignee = as_nullable (lookup (lit "assignee") ms);
    new_created_by = as_string (lookup (lit "createdBy") ms);
    new_created_at = as_number (lookup (lit "createdAt") ms);
  })

-- The `switch` of `isTaskEvent`.
unfoldable pub event_of_type : Text → Members → Option TaskEvent
event_of_type type ms =
    if same type (lit "task.created")
    then (do task ← is_valid_task (lookup (lit "task") ms); some (task_created task))
    else if same type (lit "task.updated")
    then (do
      (task_id, stamp) ← has_valid_mutation_fields ms
      changes ← is_valid_changes (lookup (lit "changes") ms)
      some (task_updated task_id changes stamp))
    else if same type (lit "task.status_changed")
    then (do
      (task_id, stamp) ← has_valid_mutation_fields ms
      status ← valid_status ms
      some (task_status_changed task_id status stamp))
    else if same type (lit "task.assigned")
    then (do
      (task_id, stamp) ← has_valid_mutation_fields ms
      assignee ← as_nullable (lookup (lit "assignee") ms)
      some (task_assigned task_id assignee stamp))
    else if same type (lit "task.deleted")
    then (do (task_id, stamp) ← has_valid_mutation_fields ms; some (task_deleted task_id stamp))
    else none

-- `isTaskEvent`.
unfoldable pub is_task_event : Json → Option TaskEvent
is_task_event j = do
  ms ← as_object j
  type ← as_string (lookup (lit "type") ms)
  event_of_type type ms
