-- ===== src/Tests/Sending.antt =====
-- The sender's guard and the durable outbox on concrete data.
use notestr.Prelude.{
  ℕ, ◌≡◌, ◌≤◌, ◌<◌, refl, Text, lit, Bool, true, false, Option, none, some, List, [], ◌∷◌, length,
  ltb, find, same, if◌then◌else◌, arith,
}
use notestr.Prelude.Dict.{Dict}
use notestr.Domain.Events.{TieBreakFields, TaskEvent, task_status_changed, done}
use notestr.Domain.TieBreak.{task_wins_over}
use notestr.Domain.Timestamp.{stamp_of, ensure_monotonic_timestamp, ensure_monotonic_timestamp-wins}
use notestr.Engine.Types.{outbox_key}
use notestr.Outbox.{
  OutboxEntry, pending, sent, max_outbox_entries_per_group, upsert, load_outbox, persist_entry,
}
use notestr.Outbox.Cap.{of_rumor, persist_entry-cap}
use notestr.Tests.{group, created, task_at, stamp_at}

abbrev finished : TaskEvent
finished = task_status_changed (lit "t1") done (stamp_at 3 (lit "ann"))

ensure_monotonic_timestamp-wins_example :
    (new : TieBreakFields) × (stamp_of
        (ensure_monotonic_timestamp finished (some (task_at 3 (lit "milk"))))
      ≡ some new)
    × (task_wins_over new (task_at 3 (lit "milk")).stamp ≡ true)
    × (ltb (task_at 3 (lit "milk")).updated_at (stamp_at 3 (lit "ann")).updated_at ≡ true
        → ensure_monotonic_timestamp finished (some (task_at 3 (lit "milk"))) ≡ finished)
ensure_monotonic_timestamp-wins_example =
    ensure_monotonic_timestamp-wins finished (task_at 3 (lit "milk")) (stamp_at 3 (lit "ann")) refl
      (omega arith)

-- The edit comes in the second of the last one and is moved to the next.
ensure_monotonic_timestamp-same_second :
    ensure_monotonic_timestamp finished (some (task_at 3 (lit "milk")))
    ≡ task_status_changed (lit "t1") done (stamp_at 4 (lit "ann"))
unfolding ensure_monotonic_timestamp
ensure_monotonic_timestamp-same_second = refl

abbrev pub sending : OutboxEntry
sending = record {
  rumor_id = lit "r1";
  group_id = group;
  created_at = 7;
  task_event = created.payload;
  status = pending;
  attempts = 1;
  last_attempt_at = some 7;
  last_error = none;
  sent_event_id = none;
  own_echo_observed_at = none;
}

abbrev one_sending : Dict (List OutboxEntry)
one_sending = (outbox_key group, sending ∷ []) ∷ []

abbrev pub delivered : OutboxEntry
delivered = record sending { status = sent; sent_event_id = some (lit "n1") }

persist_entry-cap_example :
    (length (load_outbox (persist_entry group delivered one_sending) group)
      ≤ max_outbox_entries_per_group)
    × (length (upsert delivered (load_outbox one_sending group)) ≤ max_outbox_entries_per_group
        → (id : Text)
        → find (of_rumor id) (load_outbox (persist_entry group delivered one_sending) group) ≡ (
            if same delivered.rumor_id id
            then some delivered
            else find (of_rumor id) (load_outbox one_sending group)))
persist_entry-cap_example = persist_entry-cap one_sending group delivered

persist_entry-delivered :
    load_outbox (persist_entry group delivered one_sending) group ≡ delivered ∷ []
unfolding load_outbox notestr.Prelude.Dict.get persist_entry notestr.Prelude.Dict.set same
    outbox_key
persist_entry-delivered = refl
