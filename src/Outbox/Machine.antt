-- ===== src/Outbox/Machine.antt =====
-- The states through which an entry of the outbox may go, and that the outbox bridge of
-- src/integration/marmot-adapter.ts keeps to them.
use notestr.Prelude.{ℕ, ◌≡◌, ◌⊎◌, Text, Bool, true, false, Option, none, some, List, [], ◌∷◌, same}
use notestr.Prelude.Dict.{Dict, get, IsMap}
use notestr.Domain.Events.{TaskEvent}
use notestr.Outbox.{OutboxStatus, pending, sent, failed, OutboxEntry}
use notestr.Outbox.Bridge.{
  Bridge, register_outbox_entry, clear_outbox_entry, reset_outbox_entries_for_identity_change,
  mark_outbox_attempt_started, mark_outbox_sent, mark_outbox_sent_fallback, mark_outbox_failed,
  is_pending,
}
use notestr.Outbox.Windows.{reconcile_own_echo}
use notestr.Outbox.Send.{fresh_entry}

-- The calls of the bridge that change its entries, but for the load of stored entries.
pub data BridgeCall : Type 0 where
  registers : (rumor_id group_id : Text) → (created_at : ℕ) → TaskEvent → BridgeCall
  starts : (rumor_id : Text) → (now : ℕ) → BridgeCall
  sends : (rumor_id event_id : Text) → (now : ℕ) → BridgeCall
  falls_back : (rumor_id : Text) → (now : ℕ) → BridgeCall
  fails : (rumor_id error : Text) → (now : ℕ) → BridgeCall
  echoes_back : (fact_id group_id : Text) → (now : ℕ) → BridgeCall
  clears : (rumor_id : Text) → BridgeCall
  changes_identity : BridgeCall

unfoldable pub run_bridge_call : BridgeCall → Bridge → Bridge
run_bridge_call (registers id g at event) b = register_outbox_entry (fresh_entry id g at event) b
run_bridge_call (starts id now) b = mark_outbox_attempt_started id now b
run_bridge_call (sends id event_id now) b = mark_outbox_sent id event_id now b
run_bridge_call (falls_back id now) b = mark_outbox_sent_fallback id now b
run_bridge_call (fails id error now) b = mark_outbox_failed id error now b
run_bridge_call (echoes_back fact_id g now) b = (reconcile_own_echo fact_id g now b).1
run_bridge_call (clears id) b = clear_outbox_entry id b
run_bridge_call changes_identity b = reset_outbox_entries_for_identity_change b

unfoldable pub run_bridge_calls : List BridgeCall → Bridge → Bridge
run_bridge_calls [] b = b
run_bridge_calls (c ∷ cs) b = run_bridge_calls cs (run_bridge_call c b)

abbrev pub status_in : Option OutboxEntry → Option OutboxStatus
status_in none = none
status_in (some e) = some e.status

abbrev pub status_of : Text → Bridge → Option OutboxStatus
status_of id b = status_in (get id b.entries)

-- Whether a call is about the rumor id; any id may be that of an echo.
unfoldable pub concerns : Text → BridgeCall → Bool
concerns id (registers k group_id created_at event) = same k id
concerns id (starts k now) = same k id
concerns id (sends k event_id now) = same k id
concerns id (falls_back k now) = same k id
concerns id (fails k error now) = same k id
concerns id (echoes_back fact_id group_id now) = true
concerns id (clears k) = same k id
concerns id changes_identity = true

-- The specification: how each call may change the status of one rumor id; `none` is an entry that is
-- not tracked. The calls that mark an entry as sent change a pending one only.
pub data StatusStep (id : Text)
    : BridgeCall → Option OutboxStatus → Option OutboxStatus → Type 0 where
  registered :
      {s : Option OutboxStatus} {k g : Text} {created_at : ℕ} {event : TaskEvent}
      → k ≡ id
      → StatusStep id (registers k g created_at event) s (some pending)
  evicted :
      {s : Option OutboxStatus} {k g : Text} {created_at : ℕ} {event : TaskEvent}
      → StatusStep id (registers k g created_at event) s none
  begun :
      {s : OutboxStatus} {k : Text} {now : ℕ}
      → k ≡ id
      → StatusStep id (starts k now) (some s) (some pending)
  confirmed :
      {k event_id : Text} {now : ℕ}
      → k ≡ id
      → StatusStep id (sends k event_id now) (some pending) (some sent)
  fell_back :
      {k : Text} {now : ℕ} → k ≡ id → StatusStep id (falls_back k now) (some pending) (some sent)
  not_confirmed :
      {s : OutboxStatus} {k event_id : Text} {now : ℕ}
      → is_pending s ≡ false
      → StatusStep id (sends k event_id now) (some s) (some s)
  not_fallen_back :
      {s : OutboxStatus} {k : Text} {now : ℕ}
      → is_pending s ≡ false
      → StatusStep id (falls_back k now) (some s) (some s)
  refused :
      {s : OutboxStatus} {k error : Text} {now : ℕ}
      → k ≡ id
      → StatusStep id (fails k error now) (some s) (some failed)
  echoed :
      {s : Option OutboxStatus} {fact_id g : Text} {now : ℕ}
      → StatusStep id (echoes_back fact_id g now) s none
  not_echoed :
      {s : Option OutboxStatus} {fact_id g : Text} {now : ℕ}
      → StatusStep id (echoes_back fact_id g now) s s
  cleared : {s : Option OutboxStatus} {k : Text} → k ≡ id → StatusStep id (clears k) s none
  forgotten : {s : Option OutboxStatus} → StatusStep id changes_identity s none
  elsewhere :
      {s : Option OutboxStatus} {c : BridgeCall} → concerns id c ≡ false → StatusStep id c s s
  untracked : {c : BridgeCall} → StatusStep id c none none

-- A step for each call.
pub data StatusRun (id : Text)
    : List BridgeCall → Option OutboxStatus → Option OutboxStatus → Type 0 where
  at_rest : {s : Option OutboxStatus} → StatusRun id [] s s
  and_then :
      {c : BridgeCall} {cs : List BridgeCall} {s t u : Option OutboxStatus}
      → StatusStep id c s t
      → StatusRun id cs t u
      → StatusRun id (c ∷ cs) s u

-- The dictionary holds a key once, and its change is a step of the call for the rumor id.
abbrev Follows : Text → BridgeCall → Dict OutboxEntry → Dict OutboxEntry → Type 0
Follows id c m m' = IsMap m' × StatusStep id c (status_in (get id m)) (status_in (get id m'))

-- An eviction leaves the status of a rumor id or drops it.
abbrev Evicts : Text → Dict OutboxEntry → Dict OutboxEntry → Type 0
Evicts id m m' =
    IsMap m' × ((status_in (get id m') ≡ status_in (get id m)) ⊎ (status_in (get id m') ≡ none))

abbrev waiting : Option OutboxEntry → Bool
waiting none = false
waiting (some x) = is_pending x.status
