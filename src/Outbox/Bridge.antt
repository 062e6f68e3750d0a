-- ===== src/Outbox/Bridge.antt =====
-- src/integration/marmot-adapter.ts: the outbox bridge, the state of its module and each function that
-- changes it. The durable write of a persist hook, which nobody waits for, takes place at once and is
-- not refused.
use notestr.Prelude.{
  ℕ, ◌+◌, ◌-◌, Text, Bool, true, false, Option, none, some, List, [], ◌∷◌, ◌++◌, map, keep, any,
  length, leb, ◌==◌, same, if◌then◌else◌,
}
use notestr.Prelude.Dict.{Dict, get, set, delete}
use notestr.Domain.Events.{TaskEvent}
use notestr.Outbox.{
  OutboxStatus, pending, sent, reconciled, failed, OutboxEntry, max_outbox_entries_per_group,
  sort_by_age, persist_entry,
}

-- What the owner of an outbox is told: `onPendingCleared` and the failure event.
pub data Notice : Type 0 where
  pending_cleared : (rumor_id : Text) → Notice
  publish_failed : (group_id : Text) → TaskEvent → (error : Text) → Notice

pub record OutboxWindowState : Type 0 where
  pub count : ℕ
  pub first_event_id : Option Text

pub record Bridge : Type 0 where
  pub entries : Dict OutboxEntry
  -- The groups whose outbox has registered its hooks.
  pub hooks : List Text
  -- The stored outboxes.
  pub stored : Dict (List OutboxEntry)
  -- The newest first.
  pub notices : List Notice
  pub dispatch_in_flight : Dict ℕ
  pub window_state : Dict OutboxWindowState
  pub expected_by_h_tag : Dict (List Text)

abbrev pub is_hooked : Text → Bridge → Bool
is_hooked group_id b = any (λ g. same g group_id) b.hooks

abbrev pub is_cleared : OutboxStatus → Bool
is_cleared pending = false
is_cleared sent = false
is_cleared reconciled = true
is_cleared failed = true

-- `notifyOutboxPersist` with the hook that `createPublishOutbox` registers.
unfoldable pub notify_outbox_persist : OutboxEntry → Bridge → Bridge
notify_outbox_persist entry b =
    if is_hooked entry.group_id b
    then record b {
      stored = persist_entry entry.group_id entry b.stored;
      notices =
          if is_cleared entry.status then pending_cleared entry.rumor_id ∷ b.notices else b.notices;
    }
    else b

abbrev pub take {ℓ} : {A : Type ℓ} → ℕ → List A → List A
take n [] = []
take n (x ∷ xs) = if n == 0 then [] else x ∷ take (n - 1) xs

-- `outboxEntries.delete` and the eviction hook for each victim.
unfoldable pub evict_all : List OutboxEntry → Bridge → Bridge
evict_all [] b = b
evict_all (victim ∷ victims) b = evict_all victims (record b {
  entries = delete victim.rumor_id b.entries;
  notices =
      if is_hooked victim.group_id b
      then pending_cleared victim.rumor_id ∷ b.notices
      else b.notices;
})

unfoldable pub group_entries : Text → Dict OutboxEntry → List OutboxEntry
group_entries group_id entries = keep (λ e. same e.group_id group_id) (map (λ e. e.1) entries)

-- `enforceOutboxCap`.
unfoldable pub enforce_outbox_cap : Text → Bridge → Bridge
enforce_outbox_cap group_id b =
    let es = group_entries group_id b.entries in
    if leb (length es) max_outbox_entries_per_group
    then b
    else evict_all (take (length es - max_outbox_entries_per_group) (sort_by_age es)) b

unfoldable pub register_outbox_entry : OutboxEntry → Bridge → Bridge
register_outbox_entry entry b =
    enforce_outbox_cap entry.group_id
      (notify_outbox_persist entry (record b { entries = set entry.rumor_id entry b.entries }))

unfoldable pub get_outbox_entry : Text → Bridge → Option OutboxEntry
get_outbox_entry rumor_id b = get rumor_id b.entries

abbrev pub set_entries : List OutboxEntry → Dict OutboxEntry → Dict OutboxEntry
set_entries [] m = m
set_entries (e ∷ es) m = set_entries es (set e.rumor_id e m)

-- `groupIds`, a set in insertion order.
abbrev pub group_ids : List OutboxEntry → List Text → List Text
group_ids [] ids = ids
group_ids (e ∷ es) ids =
    group_ids es (if any (λ g. same g e.group_id) ids then ids else ids ++ e.group_id ∷ [])

unfoldable pub enforce_caps : List Text → Bridge → Bridge
enforce_caps [] b = b
enforce_caps (g ∷ gs) b = enforce_caps gs (enforce_outbox_cap g b)

unfoldable pub rehydrate_outbox_entries : List OutboxEntry → Bridge → Bridge
rehydrate_outbox_entries es b =
    enforce_caps (group_ids es []) (record b { entries = set_entries es b.entries })

unfoldable pub clear_outbox_entry : Text → Bridge → Bridge
clear_outbox_entry rumor_id b = record b { entries = delete rumor_id b.entries }

unfoldable pub reset_outbox_entries_for_identity_change : Bridge → Bridge
reset_outbox_entries_for_identity_change b = record b { entries = [] }

-- A change of the tracked entry, and the notice of it.
unfoldable pub mark_entry : (OutboxEntry → OutboxEntry) → Text → Bridge → Bridge
mark_entry change rumor_id b = elim (get rumor_id b.entries) [
  | none ↦ b
  | some entry ↦
      notify_outbox_persist (change entry)
        (record b { entries = set rumor_id (change entry) b.entries })
]

unfoldable pub mark_outbox_attempt_started : Text → ℕ → Bridge → Bridge
mark_outbox_attempt_started rumor_id now b =
    mark_entry
      (λ entry. record entry {
        status = pending;
        attempts = entry.attempts + 1;
        last_attempt_at = some now;
        last_error = none;
      })
      rumor_id b

abbrev pub is_pending : OutboxStatus → Bool
is_pending pending = true
is_pending _ = false

-- `!entry || entry.status !== "pending"`, negated.
abbrev pub tracked_pending : Text → Bridge → Bool
tracked_pending rumor_id b = elim (get rumor_id b.entries) [
  | none ↦ false
  | some entry ↦ is_pending entry.status
]

unfoldable pub mark_outbox_sent : Text → (sent_event_id : Text) → ℕ → Bridge → Bridge
mark_outbox_sent rumor_id sent_event_id now b =
    if tracked_pending rumor_id b
    then mark_entry
        (λ entry. record entry {
          status = sent;
          sent_event_id = some sent_event_id;
          last_attempt_at = some now;
        })
        rumor_id b
    else b

unfoldable pub mark_outbox_sent_fallback : Text → ℕ → Bridge → Bridge
mark_outbox_sent_fallback rumor_id now b =
    if tracked_pending rumor_id b
    then mark_entry (λ entry. record entry { status = sent; last_attempt_at = some now }) rumor_id b
    else b

unfoldable pub mark_outbox_failed : Text → (error : Text) → ℕ → Bridge → Bridge
mark_outbox_failed rumor_id error now b =
    mark_entry
      (λ entry. record entry {
        status = failed;
        last_attempt_at = some now;
        last_error = some error;
      })
      rumor_id b
