-- ===== src/Outbox/Send.antt =====
-- src/integration/publish-outbox.ts: the attempts to send and the calls of an outbox's owner. What
-- happens in the bridge while `sendApplicationRumor` is awaited is a list of steps, and its end is an
-- error message or none. The lock of the group lets one attempt run at a time.
pub mod Attribution
pub mod Marks
pub mod Attempt
pub mod Restart
use notestr.Prelude.{ℕ, Text, Bool, true, false, Option, none, some, List, [], ◌∷◌}
use notestr.Prelude.{◌++◌, keep, not, same, any, if◌then◌else◌}
use notestr.Domain.Events.{TaskEvent}
use notestr.Engine.Types.{NostrEvent}
use notestr.Outbox.{OutboxEntry, pending, load_outbox}
use notestr.Outbox.Bridge.{
  Bridge, Notice, publish_failed, register_outbox_entry, get_outbox_entry, rehydrate_outbox_entries,
  mark_outbox_attempt_started, mark_outbox_sent_fallback, mark_outbox_failed, is_hooked,
}
use notestr.Outbox.Windows.{
  reconcile_own_echo, begin_outbox_publish_window, end_outbox_publish_window,
  remove_outbox_expectation, observe_publish,
}

pub data BridgeStep : Type 0 where
  published : NostrEvent → BridgeStep
  returned_echo : (fact_id group_id : Text) → (now : ℕ) → BridgeStep
  registered : OutboxEntry → BridgeStep

unfoldable pub run_steps : List BridgeStep → Bridge → Bridge
run_steps [] b = b
run_steps (published event ∷ steps) b = run_steps steps (observe_publish event b)
run_steps (returned_echo fact_id group_id now ∷ steps) b =
    run_steps steps (reconcile_own_echo fact_id group_id now b).1
run_steps (registered entry ∷ steps) b = run_steps steps (register_outbox_entry entry b)

-- One await of `sendApplicationRumor`, and the clock before and after it.
pub record SendRun : Type 0 where
  pub steps : List BridgeStep
  pub failure : Option Text
  pub started_at : ℕ
  pub ended_at : ℕ

-- The end of an attempt, once the window is closed.
unfoldable pub settle_attempt : OutboxEntry → Option Text → ℕ → Bridge → Bridge
settle_attempt entry none now b = mark_outbox_sent_fallback entry.rumor_id now b
settle_attempt entry (some error) now b =
    let b' = mark_outbox_failed entry.rumor_id error now b in
    record b' { notices = publish_failed entry.group_id entry.task_event error ∷ b'.notices }

abbrev pub drop_expectation : (h_tag rumor_id : Text) → Option Text → Bridge → Bridge
drop_expectation h_tag rumor_id none b = b
drop_expectation h_tag rumor_id (some error) b = remove_outbox_expectation h_tag rumor_id b

-- `doAttemptSend`: `none` where the entry is no longer tracked, and the caller gets its own object back.
unfoldable pub do_attempt_send :
    (h_tag : Text) → OutboxEntry → SendRun → Bridge → Option OutboxEntry × Bridge
do_attempt_send h_tag entry run b =
    let b₁ = mark_outbox_attempt_started entry.rumor_id run.started_at b in
    let b₂ = begin_outbox_publish_window h_tag entry.rumor_id b₁ in
    let b₃ = run_steps run.steps b₂ in
    let b₄ = drop_expectation h_tag entry.rumor_id run.failure b₃ in
    let b₅ = end_outbox_publish_window h_tag run.ended_at b₄ in
    let b₆ = settle_attempt entry run.failure run.ended_at b₅ in
    (get_outbox_entry entry.rumor_id b₆, b₆)

abbrev pub fresh_entry : (rumor_id group_id : Text) → (created_at : ℕ) → TaskEvent → OutboxEntry
fresh_entry rumor_id group_id created_at task_event = record {
  rumor_id = rumor_id;
  group_id = group_id;
  created_at = created_at;
  task_event = task_event;
  status = pending;
  attempts = 0;
  last_attempt_at = none;
  last_error = none;
  sent_event_id = none;
  own_echo_observed_at = none;
}

-- `publish` after `onLocalAccept`.
unfoldable pub publish :
    (h_tag rumor_id group_id : Text)
    → (created_at : ℕ) → TaskEvent
    → SendRun
    → Bridge
    → Option OutboxEntry × Bridge
publish h_tag rumor_id group_id created_at task_event run b =
    let entry = fresh_entry rumor_id group_id created_at task_event in
    do_attempt_send h_tag entry run (register_outbox_entry entry b)

-- `retry` after `onLocalAccept`; `none` is the error that it throws.
unfoldable pub retry :
    (h_tag rumor_id : Text) → SendRun → Bridge → Option (Option OutboxEntry × Bridge)
retry h_tag rumor_id run b = elim (get_outbox_entry rumor_id b) [
  | none ↦ none
  | some entry ↦ some (do_attempt_send h_tag entry run b)
]

unfoldable pub load_persisted : Text → Bridge → List OutboxEntry × Bridge
load_persisted group_id b =
    let stored = load_outbox b.stored group_id in (stored, rehydrate_outbox_entries stored b)

-- `createPublishOutbox` registers the hooks of the group.
unfoldable pub create_publish_outbox : Text → Bridge → Bridge
create_publish_outbox group_id b = record b {
  hooks = if is_hooked group_id b then b.hooks else b.hooks ++ group_id ∷ [];
}

unfoldable pub dispose : Text → Bridge → Bridge
dispose group_id b = record b { hooks = keep (λ g. not (same g group_id)) b.hooks }
