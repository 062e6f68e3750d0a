-- ===== src/Outbox/Windows.antt =====
-- src/integration/marmot-adapter.ts: the outbox bridge's match of returning events, and the windows in
-- which a published event is attributed to an entry.
use notestr.Prelude.{
  any, ℕ, ◌+◌, ◌-◌, Text, lit, Bool, true, false, not, ◌&&◌, Option, none, some, List, [], ◌∷◌,
  ◌++◌, ltb, ◌==◌, same, if◌then◌else◌,
}
use notestr.Prelude.Dict.{Dict, get, has, set, delete}
use notestr.Domain.Events.{or_else}
use notestr.Engine.Types.{NostrEvent}
use notestr.Outbox.{OutboxStatus, reconciled, OutboxEntry}
use notestr.Outbox.Bridge.{
  Bridge, OutboxWindowState, notify_outbox_persist, clear_outbox_entry, mark_outbox_sent,
}
use notestr.Persistence.{is_empty}

abbrev pub is_reconciled : OutboxStatus → Bool
is_reconciled reconciled = true
is_reconciled _ = false

abbrev pub is_id : Text → Option Text → Bool
is_id id none = false
is_id id (some x) = same x id

-- The test of `reconcileOwnEcho`.
abbrev pub echoes : (fact_id group_id : Text) → OutboxEntry → Bool
echoes fact_id group_id entry =
    is_id fact_id entry.sent_event_id
    && (same entry.group_id group_id && not (is_reconciled entry.status))

unfoldable pub first_echoed :
    (fact_id group_id : Text) → Dict OutboxEntry → Option (Text × OutboxEntry)
first_echoed fact_id group_id [] = none
first_echoed fact_id group_id ((k, entry) ∷ m) =
    if echoes fact_id group_id entry then some (k, entry) else first_echoed fact_id group_id m

abbrev pub observed : ℕ → OutboxEntry → OutboxEntry
observed now entry = record entry { status = reconciled; own_echo_observed_at = some now }

-- `reconcileOwnEcho`; the entry is kept under its rumor id.
unfoldable pub reconcile_own_echo :
    (fact_id group_id : Text) → ℕ → Bridge → Option OutboxEntry × Bridge
reconcile_own_echo fact_id group_id now b = elim (first_echoed fact_id group_id b.entries) [
  | none ↦ (none, b)
  | some (k, entry) ↦ (
    some (observed now entry),
    clear_outbox_entry k (
        notify_outbox_persist (observed now entry)
          (record b { entries = set k (observed now entry) b.entries })),
  )
]

unfoldable pub begin_outbox_publish_window : (h_tag rumor_id : Text) → Bridge → Bridge
begin_outbox_publish_window h_tag rumor_id b = record b {
  dispatch_in_flight =
      set h_tag (or_else (get h_tag b.dispatch_in_flight) 0 + 1) b.dispatch_in_flight;
  window_state =
      if has h_tag b.window_state
      then b.window_state
      else set h_tag (record { count = 0; first_event_id = none }) b.window_state;
  expected_by_h_tag =
      set h_tag (or_else (get h_tag b.expected_by_h_tag) [] ++ rumor_id ∷ []) b.expected_by_h_tag;
}

-- The queue of a tag; an empty one is deleted.
abbrev pub put_queue : Text → List Text → Dict (List Text) → Dict (List Text)
put_queue h_tag [] m = delete h_tag m
put_queue h_tag (id ∷ ids) m = set h_tag (id ∷ ids) m

-- `state.count === 1 && state.firstEventId`.
abbrev pub attributed_id : OutboxWindowState → Option Text
attributed_id state =
    if state.count == 1
    then elim state.first_event_id [ none ↦ none | some id ↦ if is_empty id then none else some id ]
    else none

-- The end of `endOutboxPublishWindow`, for the front of the queue.
unfoldable pub attribute : (h_tag : Text) → OutboxWindowState → ℕ → List Text → Bridge → Bridge
attribute h_tag state now [] b = b
attribute h_tag state now (rumor_id ∷ queue) b =
    let b' = record b { expected_by_h_tag = put_queue h_tag queue b.expected_by_h_tag } in
    if is_empty rumor_id
    then b'
    else elim (attributed_id state) [ none ↦ b' | some id ↦ mark_outbox_sent rumor_id id now b' ]

unfoldable pub end_outbox_publish_window : (h_tag : Text) → ℕ → Bridge → Bridge
end_outbox_publish_window h_tag now b =
    let cur = or_else (get h_tag b.dispatch_in_flight) 0 in
    if ltb 1 cur
    then record b { dispatch_in_flight = set h_tag (cur - 1) b.dispatch_in_flight }
    else (let b' = record b {
      dispatch_in_flight = delete h_tag b.dispatch_in_flight;
      window_state = delete h_tag b.window_state;
    } in
        elim (get h_tag b.window_state) [
          | none ↦ b'
          | some state ↦ attribute h_tag state now (or_else (get h_tag b.expected_by_h_tag) []) b'
        ])

-- `queue.splice(queue.indexOf(rumorId), 1)`.
unfoldable pub remove_first : Text → List Text → List Text
remove_first id [] = []
remove_first id (x ∷ xs) = if same x id then xs else x ∷ remove_first id xs

unfoldable pub remove_outbox_expectation : (h_tag rumor_id : Text) → Bridge → Bridge
remove_outbox_expectation h_tag rumor_id b = elim (get h_tag b.expected_by_h_tag) [
  | none ↦ b
  | some queue ↦
      if any (λ id. same id rumor_id) queue
      then record b {
        expected_by_h_tag = put_queue h_tag (remove_first rumor_id queue) b.expected_by_h_tag;
      }
      else b
]

abbrev pub group_event_kind : ℕ
group_event_kind = 445

abbrev pub is_h_tag : List Text → Option Text
is_h_tag [] = none
is_h_tag (name ∷ []) = none
is_h_tag (name ∷ value ∷ rest) = if same name (lit "h") then some value else none

-- `hTagEntry?.[1]`.
unfoldable pub h_tag_of : List (List Text) → Option Text
h_tag_of [] = none
h_tag_of (tag ∷ tags) = elim (is_h_tag tag) [ none ↦ h_tag_of tags | some value ↦ some value ]

abbrev pub count_event : Text → OutboxWindowState → OutboxWindowState
count_event id state = record {
  count = state.count + 1;
  first_event_id = if state.count == 0 then some id else state.first_event_id;
}

-- The count of an event in the open window of its tag.
unfoldable pub count_published : (h_tag id : Text) → Bridge → Bridge
count_published h_tag id b =
    if is_empty h_tag
    then b
    else if ltb 0 (or_else (get h_tag b.dispatch_in_flight) 0)
    then elim (get h_tag b.window_state) [
      | none ↦ b
      | some state ↦ record b { window_state = set h_tag (count_event id state) b.window_state }
    ]
    else b

-- What the wrapped `network.publish` does before it publishes.
unfoldable pub observe_publish : NostrEvent → Bridge → Bridge
observe_publish event b =
    if event.kind == group_event_kind
    then elim (h_tag_of event.tags) [ none ↦ b | some h_tag ↦ count_published h_tag event.id b ]
    else b
