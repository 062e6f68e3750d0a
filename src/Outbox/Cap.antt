-- ===== src/Outbox/Cap.antt =====
-- The cap of the durable outbox, and what a write of an entry keeps.
use notestr.Prelude.{
  ◌+◌, ◌-◌, ◌≤◌, ◌<◌, ◌≡◌, refl, Text, Bool, some, List, [], ◌∷◌, length, find, length-drop, same,
  same_refl, same_iff, arith, if◌then◌else◌,
}
use notestr.Prelude.Dict.{Dict, get, get-set}
use notestr.Domain.Events.{or_else}
use notestr.Engine.Types.{outbox_key}
use notestr.Outbox.{
  OutboxEntry, max_outbox_entries_per_group, upsert, insert_by_age, sort_by_age, persist_update,
  load_outbox, persist_entry,
}

length-insert_by_age :
    (e : OutboxEntry) (xs : List OutboxEntry) → length (insert_by_age e xs) ≡ length xs + 1
unfolding insert_by_age
length-insert_by_age e [] = refl
length-insert_by_age e (x ∷ xs) = ground (arith, length-insert_by_age e xs)

length-sort_by_age : (xs : List OutboxEntry) → length (sort_by_age xs) ≡ length xs
unfolding sort_by_age
length-sort_by_age [] = refl
length-sort_by_age (x ∷ xs) =
    ground (arith, length-insert_by_age x (sort_by_age xs), length-sort_by_age xs)

length-persist_update :
    (entry : OutboxEntry) (es : List OutboxEntry)
    → length (persist_update entry es) ≤ max_outbox_entries_per_group
unfolding persist_update
length-persist_update entry es = ground (
  arith,
  length-drop (length (upsert entry es) - max_outbox_entries_per_group)
      (sort_by_age (upsert entry es)),
  length-sort_by_age (upsert entry es),
)

abbrev pub of_rumor : Text → OutboxEntry → Bool
of_rumor id e = same e.rumor_id id

pub find-upsert :
    (entry : OutboxEntry) (id : Text) (es : List OutboxEntry)
    → find (of_rumor id) (upsert entry es)
      ≡ (if same entry.rumor_id id then some entry else find (of_rumor id) es)
unfolding upsert find
find-upsert entry id [] = ground arith
find-upsert entry id (e ∷ es) = ground (
  arith,
  find-upsert entry id es,
  same_iff e.rumor_id entry.rumor_id,
  same_iff e.rumor_id id,
  same_iff entry.rumor_id id,
)

pub length-upsert_le :
    (entry : OutboxEntry) (es : List OutboxEntry) → length (upsert entry es) ≤ length es + 1
unfolding upsert
length-upsert_le entry [] = omega arith
length-upsert_le entry (e ∷ es) = ground (arith, length-upsert_le entry es)

pub persist_update-below :
    (entry : OutboxEntry) (es : List OutboxEntry)
    → length es < max_outbox_entries_per_group
    → persist_update entry es ≡ upsert entry es
unfolding persist_update
persist_update-below entry es h = ground (arith, length-upsert_le entry es)

persist_update-within :
    (entry : OutboxEntry) (es : List OutboxEntry)
    → length (upsert entry es) ≤ max_outbox_entries_per_group
    → persist_update entry es ≡ upsert entry es
unfolding persist_update
persist_update-within entry es h = ground arith

pub load_outbox-persist_entry :
    (outbox : Dict (List OutboxEntry)) (group_id : Text) (entry : OutboxEntry)
    → load_outbox (persist_entry group_id entry outbox) group_id
      ≡ persist_update entry (load_outbox outbox group_id)
unfolding persist_entry load_outbox
load_outbox-persist_entry outbox group_id entry =
    let key = outbox_key group_id in
    ground (
      arith,
      get-set key key (persist_update entry (or_else (get key outbox) [])) outbox,
      same_refl key,
    )

-- The outbox of a group never holds more entries than the cap once an entry was written, whatever it
-- held before. Where the entries with the written one in its place, or after the others when its rumor
-- id is new, are no more than the cap, the written entry is found by its rumor id as it was written, and
-- each other rumor id finds what it found before.
pub persist_entry-cap :
    (outbox : Dict (List OutboxEntry)) (group_id : Text) (entry : OutboxEntry)
    → (length (load_outbox (persist_entry group_id entry outbox) group_id)
        ≤ max_outbox_entries_per_group)
      × (length (upsert entry (load_outbox outbox group_id)) ≤ max_outbox_entries_per_group
          → (id : Text)
          → find (of_rumor id) (load_outbox (persist_entry group_id entry outbox) group_id) ≡ (
              if same entry.rumor_id id
              then some entry
              else find (of_rumor id) (load_outbox outbox group_id)))
persist_entry-cap outbox group_id entry =
    let es = load_outbox outbox group_id in
    let e = load_outbox-persist_entry outbox group_id entry in
    (
      rw e (length-persist_update entry es),
      λ h id. rw (e, persist_update-within entry es h) (find-upsert entry id es),
    )
