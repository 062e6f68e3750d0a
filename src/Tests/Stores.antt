-- ===== src/Tests/Stores.antt =====
-- The stores on concrete data.
use notestr.Prelude.{
  ℕ, ◌≡◌, ◌≢◌, ◌≤◌, ◌⊎◌, inl, inr, refl, sym, ◌∙◌, ap, subst, Text, lit, Bool, true, false, not,
  Option, none, some, List, [], ◌∷◌, ◌++◌, arith, same, All, keep, map, ltb, leb, length, drop,
  if◌then◌else◌, ◌+◌, ◌-◌, ◌<◌, find, any,
}
use notestr.Prelude.Dict.{get, has, IsMap}
use notestr.Engine.Types.{
  NostrEvent, RawProtocolFactInput, RawProtocolFact, live_delivery, raw_facts_key,
  accepted_events_key, deferred_ids_key,
}
use notestr.Persistence.{
  Disk, empty_disk, stored_facts, append_fact, load_facts, load_accepted_events, load_deferred_ids,
  load_checkpoint, append_accepted_event, accept_deferred_fact, save_deferred_ids, save_checkpoint,
  clear_group_state, accept_stages, clear_stages, clear_checkpoint, clear_raw_log,
  clear_deferred_ids,
}
use notestr.Persistence.RawLog.{IsLog, Appended, append_fact-Appended}
use notestr.Persistence.Crash.{
  IsAccepted, IsDeferred, Crash, within, beyond, lands, misses, no_more, accept_stages-Crash,
}
use notestr.Persistence.Clear.{
  IsStore, clear_stages-Crash, clear_group_state-empty, clear_group_state-other,
}
use notestr.Tests.{group, created}

abbrev pub envelope : Text → NostrEvent
envelope id = record {
  id = id;
  pubkey = lit "ann";
  created_at = 1;
  kind = 445;
  tags = [];
  content = lit "x";
  sig = lit "s";
}

abbrev pub input_of : Text → RawProtocolFactInput
input_of id = record {
  id = id;
  group_id = group;
  nostr_event_id = id;
  nostr_event = envelope id;
  received_at = 1;
  receipt_source = live_delivery;
  epoch_at_receipt = lit "1";
}

abbrev pub fact_of : Text → ℕ → RawProtocolFact
fact_of id n = record { input = input_of id; seq = n }

abbrev pub one_fact : Disk
one_fact = record empty_disk { raw_facts = (raw_facts_key group, fact_of (lit "f1") 1 ∷ []) ∷ [] }

pub one_fact-IsLog : IsLog (stored_facts one_fact group)
unfolding stored_facts any get same raw_facts_key
one_fact-IsLog = record { rising = (omega arith, tt); distinct = (refl, tt) }

abbrev two_facts : Disk
two_facts = record empty_disk {
  raw_facts = (raw_facts_key group, fact_of (lit "f1") 1 ∷ fact_of (lit "f2") 2 ∷ []) ∷ [];
}

append_fact-second :
    append_fact one_fact (input_of (lit "f2"))
    ≡ some (record { fact = fact_of (lit "f2") 2; duplicate = false }, two_facts)
unfolding append_fact notestr.Persistence.append_fact_update notestr.Prelude.Dict.set find same
    stored_facts raw_facts_key get notestr.Persistence.next_seq
append_fact-second = refl

append_fact-Appended_example :
    IsLog (stored_facts two_facts group)
    × Appended
        (stored_facts one_fact group)
        (stored_facts two_facts group)
        (input_of (lit "f2"))
        (record { fact = fact_of (lit "f2") 2; duplicate = false })
    × ((h : Text) → same group h ≡ false → stored_facts two_facts h ≡ stored_facts one_fact h)
append_fact-Appended_example =
    append_fact-Appended one_fact two_facts (input_of (lit "f2"))
      (record { fact = fact_of (lit "f2") 2; duplicate = false }) one_fact-IsLog append_fact-second

-- The fact of the event waits.
abbrev parked_disk : Disk
parked_disk = record one_fact { deferred_ids = (deferred_ids_key group, lit "f" ∷ []) ∷ [] }

abbrev accepted_disk : Disk
accepted_disk = record parked_disk {
  accepted_events = (accepted_events_key group, created ∷ []) ∷ [];
}

abbrev settled_disk : Disk
settled_disk = record accepted_disk { deferred_ids = (deferred_ids_key group, []) ∷ [] }

append_accepted_event-parked : append_accepted_event parked_disk created ≡ some accepted_disk
unfolding append_accepted_event notestr.Prelude.Dict.set notestr.Persistence.append_accepted_update
    any load_accepted_events get
append_accepted_event-parked = refl

accept_deferred_fact-parked :
    accept_deferred_fact parked_disk group (lit "f") created ≡ some settled_disk
unfolding accept_deferred_fact accept_stages notestr.Persistence.run_stages
    notestr.Persistence.run_writes append_accepted_event notestr.Persistence.remove_deferred_id
    notestr.Prelude.Dict.set notestr.Persistence.append_accepted_update same any deferred_ids_key
    load_accepted_events keep get load_deferred_ids
accept_deferred_fact-parked = refl

-- The crash comes after the first write.
parked_disk-Crash : Crash (accept_stages group (lit "f") created) parked_disk accepted_disk
unfolding accept_stages
parked_disk-Crash = within (lands append_accepted_event-parked no_more)

parked_disk-IsDeferred : IsDeferred parked_disk group (lit "f")
unfolding any load_deferred_ids get same deferred_ids_key
parked_disk-IsDeferred = refl

accept_stages-Crash_example :
    (IsDeferred accepted_disk group (lit "f") ⊎ IsAccepted accepted_disk group created.id)
    × ((id : Text) → IsAccepted parked_disk group id → IsAccepted accepted_disk group id)
accept_stages-Crash_example =
    accept_stages-Crash parked_disk accepted_disk (lit "f") created parked_disk-Crash
      parked_disk-IsDeferred

accepted_disk-IsStore : IsStore accepted_disk
unfolding has
accepted_disk-IsStore = record {
  raw_facts_once = (refl, tt);
  accepted_events_once = (refl, tt);
  checkpoints_once = tt;
  deferred_ids_once = (refl, tt);
}

-- The checkpoint is cleared, and of the others the raw log and the parked ids.
abbrev partly_cleared : Disk
partly_cleared =
    clear_deferred_ids group (clear_raw_log group (clear_checkpoint group accepted_disk))

partly_cleared-Crash : Crash (clear_stages group) accepted_disk partly_cleared
unfolding clear_stages notestr.Persistence.run_writes
partly_cleared-Crash = beyond refl (within (lands refl (misses (lands refl no_more))))

clear_stages-Crash_example :
    (partly_cleared ≡ accepted_disk) ⊎ (load_checkpoint partly_cleared group ≡ none)
clear_stages-Crash_example =
    clear_stages-Crash accepted_disk group partly_cleared accepted_disk-IsStore partly_cleared-Crash

clear_group_state-accepted : clear_group_state group accepted_disk ≡ some empty_disk
unfolding clear_group_state notestr.Persistence.clear_deferred_ids clear_stages
    notestr.Persistence.run_stages notestr.Persistence.run_writes notestr.Prelude.Dict.delete
    notestr.Persistence.clear_accepted_log notestr.Persistence.clear_raw_log
    notestr.Persistence.clear_checkpoint same raw_facts_key accepted_events_key deferred_ids_key
clear_group_state-accepted = refl

clear_group_state-empty_example :
    (load_checkpoint empty_disk group ≡ none)
    × (stored_facts empty_disk group ≡ [])
    × (load_accepted_events empty_disk group ≡ [])
    × (load_deferred_ids empty_disk group ≡ [])
clear_group_state-empty_example =
    clear_group_state-empty accepted_disk empty_disk group accepted_disk-IsStore
      clear_group_state-accepted

clear_group_state-other_example :
    (load_checkpoint empty_disk (lit "h") ≡ load_checkpoint accepted_disk (lit "h"))
    × (stored_facts empty_disk (lit "h") ≡ stored_facts accepted_disk (lit "h"))
    × (load_accepted_events empty_disk (lit "h") ≡ load_accepted_events accepted_disk (lit "h"))
    × (load_deferred_ids empty_disk (lit "h") ≡ load_deferred_ids accepted_disk (lit "h"))
unfolding same
clear_group_state-other_example =
    clear_group_state-other accepted_disk empty_disk group (lit "h") accepted_disk-IsStore
      clear_group_state-accepted refl
