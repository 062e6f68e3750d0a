-- ===== src/Outbox.antt =====
-- src/integration/publish-outbox.ts: the durable outbox of a group, as `persistEntry` writes it.
pub mod Cap
pub mod Bridge
pub mod Windows
pub mod Send
pub mod Machine
pub mod Echo
use notestr.Prelude.{
  ℕ, ◌+◌, ◌-◌, ◌≤◌, ◌≡◌, ◌⊎◌, inl, inr, refl, ◌∙◌, ap, Text, Bool, true, false, Option, none, some,
  List, [], ◌∷◌, ◌++◌, length, drop, find, any, any-find-none, length-append, length-drop, leb, ltb,
  same, same_refl, arith, if◌then◌else◌, Bool-cases,
}
use notestr.Prelude.Dict.{Dict, get, set}
use notestr.Domain.Events.{TaskEvent, or_else}
use notestr.Engine.Types.{outbox_key}

pub data OutboxStatus : Type 0 where
  pending sent reconciled failed : OutboxStatus

pub record OutboxEntry : Type 0 where
  pub rumor_id : Text
  pub group_id : Text
  pub created_at : ℕ
  pub task_event : TaskEvent
  pub status : OutboxStatus
  pub attempts : ℕ
  pub last_attempt_at : Option ℕ
  pub last_error : Option Text
  pub sent_event_id : Option Text
  pub own_echo_observed_at : Option ℕ

abbrev pub max_outbox_entries_per_group : ℕ
max_outbox_entries_per_group = 256

-- `existing.map(...)` at the first index with the rumor id, `[...existing, snapshot]` without one.
unfoldable pub upsert : OutboxEntry → List OutboxEntry → List OutboxEntry
upsert entry [] = entry ∷ []
upsert entry (e ∷ es) = if same e.rumor_id entry.rumor_id then entry ∷ es else e ∷ upsert entry es

-- The stable sort by `createdAt`.
unfoldable pub insert_by_age : OutboxEntry → List OutboxEntry → List OutboxEntry
insert_by_age e [] = e ∷ []
insert_by_age e (x ∷ xs) =
    if leb e.created_at x.created_at then e ∷ (x ∷ xs) else x ∷ insert_by_age e xs

unfoldable pub sort_by_age : List OutboxEntry → List OutboxEntry
unfolding insert_by_age
sort_by_age [] = []
sort_by_age (e ∷ es) = insert_by_age e (sort_by_age es)

-- The updater of `persistEntry`.
unfoldable pub persist_update : OutboxEntry → List OutboxEntry → List OutboxEntry
unfolding upsert sort_by_age
persist_update entry existing =
    let next = upsert entry existing in
    if leb (length next) max_outbox_entries_per_group
    then next
    else drop (length next - max_outbox_entries_per_group) (sort_by_age next)

-- The stored outbox of a group.
unfoldable pub load_outbox : Dict (List OutboxEntry) → Text → List OutboxEntry
load_outbox outbox group_id = or_else (get (outbox_key group_id) outbox) []

unfoldable pub persist_entry :
    Text → OutboxEntry → Dict (List OutboxEntry) → Dict (List OutboxEntry)
unfolding persist_update load_outbox
persist_entry group_id entry outbox =
    set (outbox_key group_id) (persist_update entry (load_outbox outbox group_id)) outbox
