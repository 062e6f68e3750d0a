-- ===== src/Engine/Policy.antt =====
-- src/engine/ingest-policy.ts: which events were accepted in this session, and the bounded queue of
-- facts that wait for another try.
pub mod Queue
pub mod Calls
pub mod Budget
use notestr.Prelude.{
  ℕ, ◌+◌, ◌-◌, ◌*◌, Text, Bool, true, false, not, ◌||◌, Option, none, some, List, [], ◌∷◌, ◌++◌,
  map, length, leb, ltb, ◌==◌, keep, any, same, if◌then◌else◌,
}
use notestr.Prelude.Dict.{Dict, get, has, set, delete}
use notestr.Engine.Types.{RawProtocolFact, DeferredReason}

pub record IngestPolicyOptions : Type 0 where
  pub max_deferred_size : ℕ
  pub max_deferred_age_sec : ℕ
  pub max_retry_attempts : ℕ

-- `DEFAULT_INGEST_POLICY_OPTIONS`.
abbrev pub default_ingest_policy_options : IngestPolicyOptions
default_ingest_policy_options = record {
  max_deferred_size = 500;
  max_deferred_age_sec = 60 * 60 * 24 * 7;
  max_retry_attempts = 20;
}

pub record DeferredPolicyEntry : Type 0 where
  pub fact_id : Text
  pub fact : RawProtocolFact
  pub reason : DeferredReason
  pub queued_at : ℕ
  pub attempts : ℕ

pub record IngestPolicy : Type 0 where
  pub options : IngestPolicyOptions
  pub open options use *
  pub processed : List Text
  pub waiting : Dict DeferredPolicyEntry

-- `createIngestPolicy`; `none` is the error that it throws.
unfoldable pub create_ingest_policy : IngestPolicyOptions → Option IngestPolicy
create_ingest_policy options =
    if options.max_deferred_size == 0
      || (options.max_deferred_age_sec == 0 || options.max_retry_attempts == 0)
    then none
    else some (record { options = options; processed = []; waiting = [] })

unfoldable pub has_processed : IngestPolicy → Text → Bool
has_processed p event_id = any (λ id. same id event_id) p.processed

unfoldable pub mark_processed : IngestPolicy → Text → IngestPolicy
unfolding has_processed
mark_processed p event_id =
    if has_processed p event_id then p else record p { processed = p.processed ++ event_id ∷ [] }

-- `while (deferred.size > max) evictEldest()`.
unfoldable pub evict_eldest : ℕ → Dict DeferredPolicyEntry → Dict DeferredPolicyEntry
evict_eldest max [] = []
evict_eldest max (e ∷ m) = if ltb max (length (e ∷ m)) then evict_eldest max m else e ∷ m

-- The result says whether the fact is new in the queue.
unfoldable pub enqueue_deferred :
    IngestPolicy → Text → RawProtocolFact → DeferredReason → ℕ → Bool × IngestPolicy
unfolding evict_eldest
enqueue_deferred p fact_id fact reason now = if has fact_id p.waiting then (false, p) else (
  true,
  record p {
    waiting = evict_eldest p.max_deferred_size (
        set fact_id
          (record {
            fact_id = fact_id;
            fact = fact;
            reason = reason;
            queued_at = now;
            attempts = 0;
          })
          p.waiting);
  },
)

unfoldable pub has_deferred : IngestPolicy → Text → Bool
has_deferred p fact_id = has fact_id p.waiting

unfoldable pub remove_deferred : IngestPolicy → Text → IngestPolicy
remove_deferred p fact_id = record p { waiting = delete fact_id p.waiting }

unfoldable pub deferred_fact_ids : IngestPolicy → List Text
deferred_fact_ids p = map (λ e. e.0) p.waiting

unfoldable pub entries : IngestPolicy → List DeferredPolicyEntry
entries p = map (λ e. e.1) p.waiting

unfoldable pub retry_batch : IngestPolicy → List DeferredPolicyEntry
unfolding entries
retry_batch p = keep (λ e. ltb e.attempts p.max_retry_attempts) (entries p)

-- A write to the stored entry object.
unfoldable pub update_entry :
    (DeferredPolicyEntry → DeferredPolicyEntry)
    → Text
    → Dict DeferredPolicyEntry
    → Dict DeferredPolicyEntry
update_entry f fact_id [] = []
update_entry f fact_id ((k, e) ∷ m) =
    if same k fact_id then (k, f e) ∷ m else (k, e) ∷ update_entry f fact_id m

unfoldable pub record_attempt : IngestPolicy → Text → IngestPolicy
unfolding update_entry
record_attempt p fact_id = record p {
  waiting = update_entry (λ e. record e { attempts = e.attempts + 1 }) fact_id p.waiting;
}

-- `-` stops at 0, as the test `entry.attempts > 0` makes it.
unfoldable pub refund_attempt : IngestPolicy → Text → IngestPolicy
unfolding update_entry
refund_attempt p fact_id = record p {
  waiting = update_entry (λ e. record e { attempts = e.attempts - 1 }) fact_id p.waiting;
}

unfoldable pub is_exhausted : IngestPolicy → Text → Bool
is_exhausted p fact_id = elim (get fact_id p.waiting) [
  | none ↦ false
  | some e ↦ leb p.max_retry_attempts e.attempts
]

unfoldable pub exhausted_entries : IngestPolicy → List DeferredPolicyEntry
unfolding entries
exhausted_entries p = keep (λ e. leb p.max_retry_attempts e.attempts) (entries p)

-- `nowMs - entry.queuedAt > cutoffMs`, over the integers.
abbrev pub is_expired : IngestPolicy → ℕ → DeferredPolicyEntry → Bool
is_expired p now e = ltb (e.queued_at + p.max_deferred_age_sec * 1000) now

unfoldable pub expired_ids : IngestPolicy → ℕ → List Text
expired_ids p now = map (λ e. e.0) (keep (λ e. is_expired p now e.1) p.waiting)

unfoldable pub get_all : List Text → Dict DeferredPolicyEntry → List DeferredPolicyEntry
get_all [] m = []
get_all (id ∷ ids) m = elim (get id m) [ none ↦ get_all ids m | some e ↦ e ∷ get_all ids m ]

unfoldable pub delete_all : List Text → Dict DeferredPolicyEntry → Dict DeferredPolicyEntry
delete_all [] m = m
delete_all (id ∷ ids) m = delete_all ids (delete id m)

-- The removed entries and the policy without them.
unfoldable pub prune_deferred : IngestPolicy → ℕ → List DeferredPolicyEntry × IngestPolicy
unfolding expired_ids get_all delete_all
prune_deferred p now =
    let to_delete = expired_ids p now in
    (get_all to_delete p.waiting, record p { waiting = delete_all to_delete p.waiting })

unfoldable pub deferred_size : IngestPolicy → ℕ
deferred_size p = length p.waiting
