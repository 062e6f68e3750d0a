-- ===== src/Persistence.antt =====
-- src/persistence: the raw log, the accepted log, the deferred ids and the checkpoints, each a
-- database of its own with one entry for each group. A call that throws returns `none`; a call
-- returns the stores as it leaves them.
pub mod RawLog
pub mod Crash
pub mod Clear
use notestr.Prelude.{
  ℕ, suc, ◌+◌, Text, Bool, true, false, not, ◌||◌, Option, none, some, List, [], ◌∷◌, ◌++◌, leb,
  same, keep, any, find, if◌then◌else◌,
}
use notestr.Prelude.Dict.{Dict, get, set, delete}
use notestr.Domain.Events.{AcceptedDomainEvent, or_else}
use notestr.Engine.Types.{
  RawProtocolFact, RawProtocolFactInput, AppendFactResult, EngineCheckpoint, raw_facts_key,
  accepted_events_key, engine_checkpoints_key, deferred_ids_key,
}

pub record Disk : Type 0 where
  pub raw_facts : Dict (List RawProtocolFact)
  pub accepted_events : Dict (List AcceptedDomainEvent)
  pub checkpoints : Dict EngineCheckpoint
  pub deferred_ids : Dict (List Text)

abbrev pub empty_disk : Disk
empty_disk = record { raw_facts = []; accepted_events = []; checkpoints = []; deferred_ids = [] }

-- `!text`.
abbrev pub is_empty : Text → Bool
is_empty [] = true
is_empty (c ∷ s) = false

-- What the databases hold for a group, `[]` where there is nothing.
unfoldable pub stored_facts : Disk → Text → List RawProtocolFact
stored_facts d g = or_else (get (raw_facts_key g) d.raw_facts) []

-- `loadAcceptedEvents`, and the `stored ?? []` of the updates.
unfoldable pub load_accepted_events : Disk → Text → List AcceptedDomainEvent
load_accepted_events d g = or_else (get (accepted_events_key g) d.accepted_events) []

unfoldable pub load_deferred_ids : Disk → Text → List Text
load_deferred_ids d g = or_else (get (deferred_ids_key g) d.deferred_ids) []

-- `existing.length === 0 ? 1 : existing[existing.length - 1].seq + 1`.
unfoldable pub next_seq : List RawProtocolFact → ℕ
next_seq [] = 1
next_seq (f ∷ []) = f.seq + 1
next_seq (f ∷ g ∷ fs) = next_seq (g ∷ fs)

-- The updater of `appendFact`.
unfoldable pub append_fact_update :
    List RawProtocolFact → RawProtocolFactInput → AppendFactResult × List RawProtocolFact
append_fact_update existing fact = elim (find (λ f. same f.id fact.id) existing) [
  | some found ↦ (record { fact = found; duplicate = true }, existing)
  | none ↦ (
    record { fact = record { input = fact; seq = next_seq existing }; duplicate = false },
    existing ++ record { input = fact; seq = next_seq existing } ∷ [],
  )
]

unfoldable pub append_fact : Disk → RawProtocolFactInput → Option (AppendFactResult × Disk)
append_fact d fact =
    if is_empty fact.id || is_empty fact.group_id
    then none
    else (let (outcome, stored) = append_fact_update (stored_facts d fact.group_id) fact in
        some
          (outcome, record d { raw_facts = set (raw_facts_key fact.group_id) stored d.raw_facts }))

-- The stable sort by `seq` of `loadFacts`.
unfoldable pub insert_by_seq : RawProtocolFact → List RawProtocolFact → List RawProtocolFact
insert_by_seq f [] = f ∷ []
insert_by_seq f (g ∷ gs) = if leb f.seq g.seq then f ∷ (g ∷ gs) else g ∷ insert_by_seq f gs

unfoldable pub sort_by_seq : List RawProtocolFact → List RawProtocolFact
unfolding insert_by_seq
sort_by_seq [] = []
sort_by_seq (f ∷ fs) = insert_by_seq f (sort_by_seq fs)

unfoldable pub load_facts : Disk → Text → List RawProtocolFact
load_facts d g = sort_by_seq (stored_facts d g)

-- The updater of `appendAcceptedEvent`.
unfoldable pub append_accepted_update :
    List AcceptedDomainEvent → AcceptedDomainEvent → List AcceptedDomainEvent
append_accepted_update existing event =
    if any (λ e. same e.id event.id) existing then existing else existing ++ event ∷ []

unfoldable pub append_accepted_event : Disk → AcceptedDomainEvent → Option Disk
append_accepted_event d event =
    if is_empty event.id || is_empty event.group_id
    then none
    else (let stored = append_accepted_update (load_accepted_events d event.group_id) event in
        some (record d {
          accepted_events = set (accepted_events_key event.group_id) stored d.accepted_events;
        }))

unfoldable pub save_deferred_ids : Disk → Text → List Text → Option Disk
save_deferred_ids d g ids =
    if is_empty g
    then none
    else some (record d { deferred_ids = set (deferred_ids_key g) ids d.deferred_ids })

-- The second write of `acceptDeferredFact`.
unfoldable pub remove_deferred_id : Disk → Text → Text → Disk
remove_deferred_id d g fact_id = record d {
  deferred_ids =
      set (deferred_ids_key g) (keep (λ id. not (same id fact_id)) (load_deferred_ids d g))
        d.deferred_ids;
}

-- A write of one database; `none` where it throws.
abbrev pub StoreWrite : Type 0
StoreWrite = Disk → Option Disk

unfoldable pub run_writes : List StoreWrite → Disk → Option Disk
run_writes [] d = some d
run_writes (w ∷ ws) d = elim (w d) [ none ↦ none | some d' ↦ run_writes ws d' ]

-- A call that spans several databases: its stages come one after another, and the writes of a stage
-- run together.
unfoldable pub run_stages : List (List StoreWrite) → Disk → Option Disk
run_stages [] d = some d
run_stages (s ∷ ss) d = elim (run_writes s d) [ none ↦ none | some d' ↦ run_stages ss d' ]

-- Of the writes of a stage, those that the flags name; whether they are all, and the other flags.
unfoldable pub run_landed : List Bool → List StoreWrite → Disk → Bool × List Bool × Disk
run_landed flags [] d = (true, flags, d)
run_landed [] (w ∷ ws) d = (false, [], d)
run_landed (true ∷ flags) (w ∷ ws) d = elim (w d) [
  | none ↦ (false, [], d)
  | some d' ↦ run_landed flags ws d'
]
run_landed (false ∷ flags) (w ∷ ws) d = (false, [], (run_landed flags ws d).2)

-- What a refused call leaves: a stage begins only when the one before it has landed.
unfoldable pub torn_stages : List Bool → List (List StoreWrite) → Disk → Disk
torn_stages flags [] d = d
torn_stages flags (s ∷ ss) d =
    let (whole, others, d') = run_landed flags s d in if whole then torn_stages others ss d' else d'

-- The two writes of `acceptDeferredFact`.
unfoldable pub accept_stages : Text → Text → AcceptedDomainEvent → List (List StoreWrite)
accept_stages g fact_id event =
    ((λ d. append_accepted_event d event) ∷ [])
    ∷ ((λ d. some (remove_deferred_id d g fact_id)) ∷ [])
    ∷ []

unfoldable pub accept_deferred_fact : Disk → Text → Text → AcceptedDomainEvent → Option Disk
accept_deferred_fact d g fact_id event =
    if is_empty g || is_empty fact_id then none else run_stages (accept_stages g fact_id event) d

unfoldable pub torn_accept : Text → Text → AcceptedDomainEvent → List Bool → Disk → Disk
torn_accept g fact_id event flags d =
    if is_empty g || is_empty fact_id
    then d
    else torn_stages flags (accept_stages g fact_id event) d

unfoldable pub save_checkpoint : Disk → EngineCheckpoint → Option Disk
save_checkpoint d checkpoint =
    if is_empty checkpoint.group_id
    then none
    else some (record d {
      checkpoints = set (engine_checkpoints_key checkpoint.group_id) checkpoint d.checkpoints;
    })

unfoldable pub load_checkpoint : Disk → Text → Option EngineCheckpoint
load_checkpoint d g = get (engine_checkpoints_key g) d.checkpoints

-- The four removals of `clearGroupState`.
unfoldable pub clear_checkpoint : Text → Disk → Disk
clear_checkpoint g d = record d { checkpoints = delete (engine_checkpoints_key g) d.checkpoints }

unfoldable pub clear_raw_log : Text → Disk → Disk
clear_raw_log g d = record d { raw_facts = delete (raw_facts_key g) d.raw_facts }

unfoldable pub clear_accepted_log : Text → Disk → Disk
clear_accepted_log g d = record d {
  accepted_events = delete (accepted_events_key g) d.accepted_events;
}

unfoldable pub clear_deferred_ids : Text → Disk → Disk
clear_deferred_ids g d = record d { deferred_ids = delete (deferred_ids_key g) d.deferred_ids }

-- The checkpoint goes first; the other three removals run together.
unfoldable pub clear_stages : Text → List (List StoreWrite)
clear_stages g =
    ((λ d. some (clear_checkpoint g d)) ∷ [])
    ∷ ((λ d. some (clear_raw_log g d))
        ∷ (λ d. some (clear_accepted_log g d))
        ∷ (λ d. some (clear_deferred_ids g d))
        ∷ [])
    ∷ []

unfoldable pub clear_group_state : Text → Disk → Option Disk
clear_group_state g d = if is_empty g then none else run_stages (clear_stages g) d

unfoldable pub torn_clear : Text → List Bool → Disk → Disk
torn_clear g flags d = if is_empty g then d else torn_stages flags (clear_stages g) d
