-- ===== src/Outbox/Send/Restart.antt =====
-- src/integration/publish-outbox.ts: what a restart brings back from the stored outbox.
use notestr.Prelude.{
  ◌+◌, ◌≤◌, ◌<◌, ◌≡◌, refl, sym, ap, ◌∙◌, Text, true, false, Option, none, some, List, [], ◌∷◌, map,
  keep, length, find, any, leb, same, same_iff, if◌then◌else◌, arith, length-keep-le, Bool-cases,
  inl, inr,
}
use notestr.Prelude.Dict.{Dict, get, set, get-set}
use notestr.Outbox.{OutboxEntry, max_outbox_entries_per_group, upsert, persist_entry, load_outbox}
use notestr.Outbox.Cap.{
  of_rumor, find-upsert, length-upsert_le, persist_update-below, load_outbox-persist_entry,
}
use notestr.Outbox.Bridge.{
  Bridge, is_hooked, notify_outbox_persist, group_entries, enforce_outbox_cap, enforce_caps,
  set_entries, group_ids, rehydrate_outbox_entries, get_outbox_entry,
}
use notestr.Outbox.Send.{load_persisted}

-- No rumor id stands twice in the stored outbox.
abbrev pub EachOnce : List OutboxEntry → Type 0
EachOnce [] = Unit {0}
EachOnce (e ∷ es) = (any (of_rumor e.rumor_id) es ≡ false) × EachOnce es

any-upsert :
    (entry : OutboxEntry) (id : Text) (es : List OutboxEntry)
    → any (of_rumor id) (upsert entry es)
      ≡ (if same entry.rumor_id id then true else any (of_rumor id) es)
unfolding upsert any
any-upsert entry id [] = ground arith
any-upsert entry id (e ∷ es) = ground (
  arith,
  any-upsert entry id es,
  same_iff e.rumor_id entry.rumor_id,
  same_iff e.rumor_id id,
  same_iff entry.rumor_id id,
)

upsert-EachOnce :
    (entry : OutboxEntry) (es : List OutboxEntry) → EachOnce es → EachOnce (upsert entry es)
unfolding upsert any
upsert-EachOnce entry [] h = (refl, tt)
upsert-EachOnce entry (e ∷ es) h = elim (Bool-cases (same e.rumor_id entry.rumor_id)) [
  | inl here ↦ rw here (any_of entry e es ((same_iff e.rumor_id entry.rumor_id).0 here) h.0, h.1)
  | inr other ↦ rw other (
    rw (any-upsert entry e.rumor_id es) (
        ground
          (arith, h.0, same_iff e.rumor_id entry.rumor_id, same_iff entry.rumor_id e.rumor_id)),
    upsert-EachOnce entry es h.1,
  )
]
  where
    any_of :
        (entry e : OutboxEntry) (es : List OutboxEntry)
        → e.rumor_id ≡ entry.rumor_id
        → any (of_rumor e.rumor_id) es ≡ false
        → any (of_rumor entry.rumor_id) es ≡ false
    any_of entry e es q k = ap (λ (id : Text). any (of_rumor id) es) (sym q) ∙ k

find-none :
    (id : Text) (es : List OutboxEntry)
    → any (of_rumor id) es ≡ false
    → find (of_rumor id) es ≡ none
unfolding any find
find-none id [] h = refl
find-none id (e ∷ es) h = ground (arith, find-none id es)

abbrev or_tracked : Option OutboxEntry → Option OutboxEntry → Option OutboxEntry
or_tracked none o = o
or_tracked (some e) o = some e

get-set_entries :
    (id : Text) (es : List OutboxEntry) (m : Dict OutboxEntry)
    → EachOnce es
    → get id (set_entries es m) ≡ or_tracked (find (of_rumor id) es) (get id m)
unfolding find
get-set_entries id [] m h = refl
get-set_entries id (e ∷ es) m h = elim (Bool-cases (same e.rumor_id id)) [
  | inl here ↦
      let gone : find (of_rumor id) es ≡ none =
        find-none id es
          (ap (λ (k : Text). any (of_rumor k) es) (sym ((same_iff e.rumor_id id).0 here)) ∙ h.0) in
      rw (get-set_entries id es (set e.rumor_id e m) h.1, gone, get-set e.rumor_id id e m, here)
        refl
  | inr other ↦
      rw (get-set_entries id es (set e.rumor_id e m) h.1, get-set e.rumor_id id e m, other) refl
]

length-set : (k : Text) (e : OutboxEntry) (m : Dict OutboxEntry) → length (set k e m) ≤ length m + 1
unfolding set
length-set k e [] = omega arith
length-set k e (x ∷ m) = ground (arith, length-set k e m)

length-set_entries :
    (es : List OutboxEntry) (m : Dict OutboxEntry)
    → length (set_entries es m) ≤ length m + length es
length-set_entries [] m = omega arith
length-set_entries (e ∷ es) m =
    omega (arith, length-set_entries es (set e.rumor_id e m), length-set e.rumor_id e m)

length-map : (m : Dict OutboxEntry) → length (map (λ (e : Text × OutboxEntry). e.1) m) ≡ length m
length-map [] = refl
length-map (e ∷ m) = omega (arith, length-map m)

enforce_outbox_cap-below :
    (g : Text) (b : Bridge)
    → length b.entries ≤ max_outbox_entries_per_group
    → enforce_outbox_cap g b ≡ b
unfolding enforce_outbox_cap group_entries
enforce_outbox_cap-below g b h =
    let small : leb
          (length (
            keep (λ (e : OutboxEntry). same e.group_id g)
              (map (λ (e : Text × OutboxEntry). e.1) b.entries)))
          max_outbox_entries_per_group
        ≡ true =
      ground (
        arith,
        h,
        length-map b.entries,
        length-keep-le (λ (e : OutboxEntry). same e.group_id g)
            (map (λ (e : Text × OutboxEntry). e.1) b.entries),
      ) in
    rw small refl

enforce_caps-below :
    (gs : List Text) (b : Bridge)
    → length b.entries ≤ max_outbox_entries_per_group
    → enforce_caps gs b ≡ b
unfolding enforce_caps
enforce_caps-below [] b h = refl
enforce_caps-below (g ∷ gs) b h =
    ap (enforce_caps gs) (enforce_outbox_cap-below g b h) ∙ enforce_caps-below gs b h

-- The module state after a restart: of the bridge only what is stored is left.
abbrev pub restarted : Bridge → Bridge
restarted b = record {
  entries = [];
  hooks = [];
  stored = b.stored;
  notices = [];
  dispatch_in_flight = [];
  window_state = [];
  expected_by_h_tag = [];
}

load_persisted-get :
    (g id : Text) (b : Bridge)
    → EachOnce (load_outbox b.stored g)
    → length (load_outbox b.stored g) ≤ max_outbox_entries_per_group
    → get_outbox_entry id (load_persisted g (restarted b)).1
      ≡ find (of_rumor id) (load_outbox b.stored g)
unfolding load_persisted rehydrate_outbox_entries get_outbox_entry get
load_persisted-get g id b once small =
    let es = load_outbox b.stored g in
    let c = record (restarted b) { entries = set_entries es [] } in
    let below : length c.entries ≤ max_outbox_entries_per_group =
      omega (arith, small, length-set_entries es []) in
    ap (λ (x : Bridge). get id x.entries) (enforce_caps-below (group_ids es []) c below)
    ∙ (get-set_entries id es [] once ∙ or_nothing (find (of_rumor id) es))
  where
    or_nothing : (o : Option OutboxEntry) → or_tracked o none ≡ o
    or_nothing none = refl
    or_nothing (some e) = refl

notify-stored :
    (entry : OutboxEntry) (b : Bridge)
    → is_hooked entry.group_id b ≡ true
    → (notify_outbox_persist entry b).stored ≡ persist_entry entry.group_id entry b.stored
unfolding notify_outbox_persist
notify-stored entry b h = rw h refl

-- Where the stored outbox of the group holds each rumor id once and is not full, what the hook persists
-- is what a restart brings back: after the status of an entry was persisted, the page was closed at any
-- time and the outbox was loaded again, the entry is tracked as it was persisted, and each other entry
-- that was stored is tracked as it was stored.
pub load_persisted-notify :
    (entry : OutboxEntry) (id : Text) (b : Bridge)
    → is_hooked entry.group_id b ≡ true
    → EachOnce (load_outbox b.stored entry.group_id)
    → length (load_outbox b.stored entry.group_id) < max_outbox_entries_per_group
    → get_outbox_entry id
        (load_persisted entry.group_id (restarted (notify_outbox_persist entry b))).1
      ≡ (if same entry.rumor_id id
          then some entry
          else find (of_rumor id) (load_outbox b.stored entry.group_id))
load_persisted-notify entry id b hooked once small =
    let g = entry.group_id in
    let es = load_outbox b.stored g in
    let kept : load_outbox (notify_outbox_persist entry b).stored g ≡ upsert entry es =
      ap (λ (s : Dict (List OutboxEntry)). load_outbox s g) (notify-stored entry b hooked)
      ∙ (load_outbox-persist_entry b.stored g entry ∙ persist_update-below entry es small) in
    load_persisted-get g id (notify_outbox_persist entry b)
      (rw kept (upsert-EachOnce entry es once))
      (rw kept (omega (arith, small, length-upsert_le entry es)))
    ∙ (ap (find (of_rumor id)) kept ∙ find-upsert entry id es)
