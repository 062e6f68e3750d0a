-- ===== src/FailedWelcomes.antt =====
-- src/marmot/failed-welcomes.ts: the record of the invitations that could not be joined. The database
-- lists its keys in the order of the table. `announced` counts the change events.
pub mod Prune
use notestr.Prelude.{
  ℕ, ◌+◌, ◌-◌, Text, Bool, true, false, Option, none, some, List, [], ◌∷◌, map, keep, ltb, leb,
  if◌then◌else◌,
}
use notestr.Prelude.Dict.{Dict, get, set, delete}
use notestr.Outbox.Bridge.{take}

pub record FailedWelcomeRecord : Type 0 where
  pub recorded_at : ℕ
  pub gift_wrap_event_id : Text
  pub inner_kind : ℕ
  pub inner_created_at : ℕ
  pub inviter_pubkey : Option Text
  pub group_id : Option Text
  pub kp_ref : Option Text
  pub failure_reason : Text
  pub failure_detail : Text

pub record FailedWelcomes : Type 0 where
  pub records : Dict FailedWelcomeRecord
  pub announced : ℕ

unfoldable pub dispatch_changed : FailedWelcomes → FailedWelcomes
dispatch_changed d = record d { announced = d.announced + 1 }

unfoldable pub append_failed_welcome : FailedWelcomeRecord → FailedWelcomes → FailedWelcomes
append_failed_welcome r d = dispatch_changed (record d {
  records =
      set r.gift_wrap_event_id (record r { failure_detail = take 500 r.failure_detail }) d.records;
})

unfoldable pub keys : Dict FailedWelcomeRecord → List Text
keys m = map (λ e. e.0) m

-- `getItem` of each key, without those that have no record.
unfoldable pub read_all : List Text → Dict FailedWelcomeRecord → List FailedWelcomeRecord
read_all [] m = []
read_all (k ∷ ks) m = elim (get k m) [ none ↦ read_all ks m | some r ↦ r ∷ read_all ks m ]

abbrev pub is_since : ℕ → FailedWelcomeRecord → Bool
is_since since r = leb since r.recorded_at

abbrev pub filter_since : Option ℕ → List FailedWelcomeRecord → List FailedWelcomeRecord
filter_since none rs = rs
filter_since (some since) rs = keep (is_since since) rs

-- The stable sort by `b.recordedAt - a.recordedAt`.
unfoldable pub insert_newest :
    FailedWelcomeRecord → List FailedWelcomeRecord → List FailedWelcomeRecord
insert_newest x [] = x ∷ []
insert_newest x (y ∷ ys) =
    if leb y.recorded_at x.recorded_at then x ∷ y ∷ ys else y ∷ insert_newest x ys

unfoldable pub sort_newest : List FailedWelcomeRecord → List FailedWelcomeRecord
sort_newest [] = []
sort_newest (x ∷ xs) = insert_newest x (sort_newest xs)

abbrev pub limit_to : Option ℕ → List FailedWelcomeRecord → List FailedWelcomeRecord
limit_to none rs = rs
limit_to (some limit) rs = take limit rs

unfoldable pub load_failed_welcomes :
    (since limit : Option ℕ) → FailedWelcomes → List FailedWelcomeRecord
load_failed_welcomes since limit d =
    limit_to limit (sort_newest (filter_since since (read_all (keys d.records) d.records)))

unfoldable pub forget_failed_welcome : Text → FailedWelcomes → FailedWelcomes
forget_failed_welcome id d = dispatch_changed (record d { records = delete id d.records })

unfoldable pub prune_key : (cutoff : ℕ) → Text → Dict FailedWelcomeRecord → Dict FailedWelcomeRecord
prune_key cutoff k m = elim (get k m) [
  | none ↦ m
  | some r ↦ if ltb r.recorded_at cutoff then delete k m else m
]

unfoldable pub prune_keys :
    (cutoff : ℕ) → List Text → Dict FailedWelcomeRecord → Dict FailedWelcomeRecord
prune_keys cutoff [] m = m
prune_keys cutoff (k ∷ ks) m = prune_keys cutoff ks (prune_key cutoff k m)

-- `pruneOlderThan`; a negative cutoff prunes nothing, as 0 does.
unfoldable pub prune_older_than : (ms now : ℕ) → FailedWelcomes → FailedWelcomes
prune_older_than ms now d =
    dispatch_changed (record d { records = prune_keys (now - ms) (keys d.records) d.records })
