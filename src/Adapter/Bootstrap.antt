-- ===== src/Adapter/Bootstrap.antt =====
-- src/integration/marmot-adapter.ts: `fetchBootstrap`. What the relays answer, the members of the group
-- and the signer's `nip44.decrypt` are arguments; a promise that is rejected and a call that throws are
-- `inl`.
use notestr.Prelude.{
  ℕ, Text, lit, Bool, Option, none, some, List, [], ◌∷◌, ◌++◌, map, keep, any, ltb, ◌==◌, same, ◌⊎◌,
  inl, inr, if◌then◌else◌,
}
use notestr.Prelude.Dict.{Dict, get, set}
use notestr.Domain.Events.{Task, task_created}
use notestr.Domain.TieBreak.{task_wins_over}
use notestr.Engine.Types.{
  NostrEvent, RawProtocolFactInput, bootstrap_snapshot, IngestSignal, message,
}
use notestr.Adapter.{
  Json, array, ◌>>=◌, items, lookup, as_object, as_string, as_number, is_valid_task,
}
use notestr.Adapter.Messages.{Thrown}

-- `Array.isArray`.
abbrev pub as_array : Option Json → Option (List Json)
as_array (some (array js)) = some (items js)
as_array _ = none

abbrev pub when_true {ℓ} : {A : Type ℓ} → Bool → Option A → Option A
when_true b o = if b then o else none

-- `isTaskStateSyncPayload`; where it holds, the tasks of the payload.
unfoldable pub is_task_state_sync_payload : (group_id : Text) → Json → Option (List Json)
is_task_state_sync_payload group_id j = do
  ms ← as_object j
  version ← as_number (lookup (lit "version") ms)
  type ← as_string (lookup (lit "type") ms)
  group ← as_string (lookup (lit "groupId") ms)
  tasks ← as_array (lookup (lit "tasks") ms)
  when_true (version == 1)
      (when_true (same type (lit "task.state_sync")) (when_true (same group group_id) (some tasks)))

-- The inner loop: the winner of each task so far, and the next task.
unfoldable pub keep_winner : Task → Dict Task → Dict Task
keep_winner task winners = elim (get task.id winners) [
  | none ↦ set task.id task winners
  | some existing ↦
      if task_wins_over task.stamp existing.stamp then set task.id task winners else winners
]

unfoldable pub merge_tasks : List Json → Dict Task → Dict Task
merge_tasks [] winners = winners
merge_tasks (j ∷ js) winners = elim (is_valid_task (some j)) [
  | none ↦ merge_tasks js winners
  | some task ↦ merge_tasks js (keep_winner task winners)
]

-- The session of the adapter that `fetchBootstrap` reads.
pub record BootstrapDeps : Type 0 where
  pub group_id : Text
  pub member_pubkeys : List Text
  pub decrypt : (pubkey content : Text) → Thrown ⊎ Text
  pub parse : Text → Thrown ⊎ Json
  pub epoch : Text
  pub now : ℕ

-- The tasks of a snapshot; one that is not readable has none.
unfoldable pub snapshot_tasks : BootstrapDeps → NostrEvent → List Json
snapshot_tasks deps event = elim (deps.decrypt event.pubkey event.content) [
  | inl err ↦ []
  | inr plaintext ↦ elim (deps.parse plaintext) [
    | inl err ↦ []
    | inr parsed ↦ elim (is_task_state_sync_payload deps.group_id parsed) [
      | none ↦ []
      | some tasks ↦ tasks
    ]
  ]
]

-- The outer loop.
unfoldable pub merge_snapshots : BootstrapDeps → List NostrEvent → Dict Task → Dict Task
merge_snapshots deps [] winners = winners
merge_snapshots deps (event ∷ events) winners =
    merge_snapshots deps events (merge_tasks (snapshot_tasks deps event) winners)

-- The author-authenticity gate.
unfoldable pub qualifying : BootstrapDeps → List NostrEvent → List NostrEvent
qualifying deps events = keep (λ e. any (λ member. same member e.pubkey) deps.member_pubkeys) events

unfoldable pub representative : NostrEvent → List NostrEvent → NostrEvent
representative latest [] = latest
representative latest (e ∷ es) =
    representative (if ltb latest.created_at e.created_at then e else latest) es

abbrev pub shared_fact : BootstrapDeps → NostrEvent → RawProtocolFactInput
shared_fact deps event = record {
  id = event.id;
  group_id = deps.group_id;
  nostr_event_id = event.id;
  nostr_event = event;
  received_at = deps.now;
  receipt_source = bootstrap_snapshot;
  epoch_at_receipt = deps.epoch;
}

abbrev pub bootstrap_signal : BootstrapDeps → RawProtocolFactInput → Task → IngestSignal
bootstrap_signal deps fact task = message (record {
  fact = fact;
  rumor_id = lit "bootstrap:" ++ (deps.group_id ++ (lit ":" ++ task.id));
  payload = task_created task;
  epoch = deps.epoch;
  receipt_source = bootstrap_snapshot;
})

unfoldable pub bootstrap_signals : BootstrapDeps → List NostrEvent → List IngestSignal
bootstrap_signals deps [] = []
bootstrap_signals deps (event ∷ events) =
    map (λ winner. bootstrap_signal deps (shared_fact deps (representative event events)) winner.1)
      (merge_snapshots deps (event ∷ events) [])

-- `fetchBootstrap`; `nip44` says whether the signer can decrypt.
unfoldable pub fetch_bootstrap :
    (nip44 : Bool) → BootstrapDeps → (answer : Thrown ⊎ List NostrEvent) → List IngestSignal
fetch_bootstrap nip44 deps (inl err) = []
fetch_bootstrap nip44 deps (inr events) =
    if nip44 then bootstrap_signals deps (qualifying deps events) else []
