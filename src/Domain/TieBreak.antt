-- ===== src/Domain/TieBreak.antt =====
-- src/domain/task-crdt.ts: the one tie-break rule of task merges.
pub mod Order
use notestr.Prelude.{Bool, Text, ltb, ◌==◌, same, before, lit, []}
use notestr.Prelude.{if◌then◌else◌}
use notestr.Domain.Events.{TieBreakFields, or_else}

-- `updatedByDevice ?? ""`.
abbrev pub device_of : TieBreakFields → Text
device_of f = or_else f.updated_by_device []

-- `taskWinsOver`: `if (a !== b) return …` is the last branch of each test here.
unfoldable pub task_wins_over : TieBreakFields → TieBreakFields → Bool
task_wins_over candidate existing =
    if candidate.updated_at == existing.updated_at
    then if same candidate.updated_by existing.updated_by
      then before (device_of candidate) (device_of existing)
      else before candidate.updated_by existing.updated_by
    else ltb existing.updated_at candidate.updated_at
