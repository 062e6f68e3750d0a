-- ===== src/Outbox/Send/Marks.antt =====
-- src/integration/marmot-adapter.ts: what the marks of the outbox bridge make of a tracked entry. They
-- leave the windows and the queues.
use notestr.Prelude.{
  ℕ, ◌+◌, ◌≡◌, refl, Text, true, Option, none, some, if◌then◌else◌, arith, Bool-cases, inl, inr,
}
use notestr.Prelude.Dict.{get, set, get-set_here}
use notestr.Outbox.{OutboxEntry, pending, sent, failed}
use notestr.Outbox.Bridge.{
  Bridge, notify_outbox_persist, mark_entry, mark_outbox_sent, mark_outbox_sent_fallback,
  tracked_pending, is_pending,
}

-- The windows and queues of two bridges are the same.
abbrev pub SameRoutes : Bridge → Bridge → Type 0
SameRoutes b b' =
    (b'.dispatch_in_flight ≡ b.dispatch_in_flight)
    × (b'.window_state ≡ b.window_state)
    × (b'.expected_by_h_tag ≡ b.expected_by_h_tag)

pub notify-entries :
    (e : OutboxEntry) (b : Bridge)
    → ((notify_outbox_persist e b).entries ≡ b.entries) × SameRoutes b (notify_outbox_persist e b)
unfolding notify_outbox_persist
notify-entries e b = ground arith

pub mark_entry-entries :
    (f : OutboxEntry → OutboxEntry) (id : Text) (e : OutboxEntry) (b : Bridge)
    → get id b.entries ≡ some e
    → ((mark_entry f id b).entries ≡ set id (f e) b.entries) × SameRoutes b (mark_entry f id b)
unfolding mark_entry
mark_entry-entries f id e b h =
    rw (h, mark_entry) (notify-entries (f e) (record b { entries = set id (f e) b.entries }))

-- The tracked entry is `e` and the windows are those of `b`.
abbrev pub Tracks : Text → OutboxEntry → Bridge → Bridge → Type 0
Tracks id e b b' = (get id b'.entries ≡ some e) × SameRoutes b b'

pub mark_entry-Tracks :
    (f : OutboxEntry → OutboxEntry) (id : Text) (e : OutboxEntry) (b : Bridge)
    → get id b.entries ≡ some e
    → Tracks id (f e) b (mark_entry f id b)
mark_entry-Tracks f id e b h =
    let (k, r) = mark_entry-entries f id e b h in (rw k (get-set_here id (f e) b.entries), r)

abbrev pub started : ℕ → OutboxEntry → OutboxEntry
started now e = record e {
  status = pending;
  attempts = e.attempts + 1;
  last_attempt_at = some now;
  last_error = none;
}

abbrev pub fell_back : ℕ → OutboxEntry → OutboxEntry
fell_back now e = record e { status = sent; last_attempt_at = some now }

-- The entry after the window, where `id` is attributed.
abbrev pub attributed : Option Text → ℕ → OutboxEntry → OutboxEntry
attributed none now e = e
attributed (some id) now e = record e {
  status = sent;
  sent_event_id = some id;
  last_attempt_at = some now;
}

-- The entry after an attempt: failed with the error, whatever was published; or sent, with the event
-- id where one is attributed.
abbrev pub attempted : Option Text → Option Text → ℕ → OutboxEntry → OutboxEntry
attempted (some error) id now e = record e {
  status = failed;
  attempts = e.attempts + 1;
  last_attempt_at = some now;
  last_error = some error;
}
attempted none none now e = record e {
  status = sent;
  attempts = e.attempts + 1;
  last_attempt_at = some now;
  last_error = none;
}
attempted none (some id) now e = record e {
  status = sent;
  attempts = e.attempts + 1;
  last_attempt_at = some now;
  last_error = none;
  sent_event_id = some id;
}

pub tracked_is :
    (id : Text) (e : OutboxEntry) (b : Bridge)
    → get id b.entries ≡ some e
    → tracked_pending id b ≡ is_pending e.status
tracked_is id e b h = rw (h, tracked_pending) refl

pub mark_outbox_sent-Tracks :
    (id x : Text) (now : ℕ) (e : OutboxEntry) (b : Bridge)
    → get id b.entries ≡ some e
    → is_pending e.status ≡ true
    → Tracks id (attributed (some x) now e) b (mark_outbox_sent id x now b)
unfolding mark_outbox_sent
mark_outbox_sent-Tracks id x now e b h waiting =
    rw (tracked_is id e b h, waiting, mark_outbox_sent) (mark_entry-Tracks _ id e b h)

pub mark_outbox_sent_fallback-Tracks :
    (id : Text) (now : ℕ) (e : OutboxEntry) (b : Bridge)
    → get id b.entries ≡ some e
    → Tracks id
        (if is_pending e.status then fell_back now e else e)
        b
        (mark_outbox_sent_fallback id now b)
unfolding mark_outbox_sent_fallback
mark_outbox_sent_fallback-Tracks id now e b h = elim (Bool-cases (is_pending e.status)) [
  | inl w ↦
      rw (tracked_is id e b h, w, mark_outbox_sent_fallback)
        (mark_entry-Tracks (fell_back now) id e b h)
  | inr w ↦ rw (tracked_is id e b h, w, mark_outbox_sent_fallback) (h, (refl, refl, refl))
]

-- What the end of an attempt makes of the entry.
abbrev pub settled_as : Option Text → ℕ → OutboxEntry → OutboxEntry
settled_as none now e = if is_pending e.status then fell_back now e else e
settled_as (some error) now e = record e {
  status = failed;
  last_attempt_at = some now;
  last_error = some error;
}
