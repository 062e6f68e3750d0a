-- ===== src/Adapter/Codec.antt =====
-- src/integration/publish-outbox.ts: the rumor of an entry, whose content is `JSON.stringify` of the task
-- event, and the way of that rumor through the adapter of another member.
use Prim.Native.Nat.{◌/◌}
use notestr.Prelude.{
  ℕ, Text, lit, same, same_refl, false, ◌∙◌, Option, none, some, [], ◌∷◌, inr, ◌≡◌, refl, ap,
}
use notestr.Domain.Events.{
  task_event_kind, TaskStatus, opened, in_progress, done, cancelled, TieBreakFields, Task,
  TaskEvent, Changes, task_created, task_updated, task_status_changed, task_assigned, task_deleted,
}
use notestr.Engine.Types.{ReceiptSource, RawProtocolFactInput, message}
use notestr.Adapter.{
  Json, null, number, string, object, Members, no_members, member, lookup, status_of, valid_stamp,
  valid_fields, is_valid_task, has_valid_mutation_fields, is_valid_changes, event_of_type,
  is_task_event, as_nullable, ◌>>=◌, as_optional, as_string, as_number,
}
use notestr.Adapter.Messages.{Rumor, Decoder, translate_application_message, translate_content}

abbrev pub status_text : TaskStatus → Text
status_text opened = lit "open"
status_text in_progress = lit "in_progress"
status_text done = lit "done"
status_text cancelled = lit "cancelled"

-- A member that is left out where it is undefined.
abbrev pub optional : Text → Option Text → Members → Members
optional key none ms = ms
optional key (some s) ms = member key (string s) ms

abbrev pub map_some : {A B : Type 0} → (A → B) → Option A → Option B
map_some f none = none
map_some f (some a) = some (f a)

abbrev pub nullable : Option Text → Json
nullable none = null
nullable (some s) = string s

abbrev pub stamp_members : TieBreakFields → Members
stamp_members stamp = member (lit "updatedAt") (number stamp.updated_at) (
    member (lit "updatedBy") (string stamp.updated_by)
      (optional (lit "updatedByDevice") stamp.updated_by_device no_members))

abbrev pub task_json : Task → Json
task_json task = object (
    member (lit "id") (string task.id) (
      member (lit "title") (string task.title) (
        member (lit "description") (string task.description) (
          member (lit "status") (string (status_text task.status)) (
            member (lit "assignee") (nullable task.assignee) (
              member (lit "createdBy") (string task.created_by)
                (member (lit "createdAt") (number task.created_at) (stamp_members task.stamp))))))))

abbrev pub mutation_members : Text → Members → Members
mutation_members task_id ms = member (lit "taskId") (string task_id) ms

-- The same for a member of any kind.
unfoldable pub present : Text → Option Json → Members → Members
present key none ms = ms
present key (some j) ms = member key j ms

abbrev pub changes_members :
    (title description id status assignee created_by created_at : Option Json) → Members
changes_members title description id status assignee created_by created_at =
    present (lit "title") title (
      present (lit "description") description (
        present (lit "id") id (
          present (lit "status") status (
            present (lit "assignee") assignee (
              present (lit "createdBy") created_by
                (present (lit "createdAt") created_at no_members))))))

-- The `changes` of an update.
abbrev pub changes_json : Changes → Json
changes_json changes = object (
    changes_members (map_some string changes.new_title) (map_some string changes.new_description)
      (map_some string changes.new_id) (map_some (λ s. string (status_text s)) changes.new_status)
      (map_some nullable changes.new_assignee) (map_some string changes.new_created_by)
      (map_some number changes.new_created_at))

-- The value that `JSON.stringify` writes of a task event.
abbrev pub event_json : TaskEvent → Json
event_json (task_created task) = object (
    member (lit "type") (string (lit "task.created"))
      (member (lit "task") (task_json task) no_members))
event_json (task_updated task_id changes stamp) = object (
    member (lit "type") (string (lit "task.updated")) (
      mutation_members task_id
        (member (lit "changes") (changes_json changes) (stamp_members stamp))))
event_json (task_status_changed task_id status stamp) = object (
    member (lit "type") (string (lit "task.status_changed")) (
      mutation_members task_id
        (member (lit "status") (string (status_text status)) (stamp_members stamp))))
event_json (task_assigned task_id assignee stamp) = object (
    member (lit "type") (string (lit "task.assigned")) (
      mutation_members task_id (member (lit "assignee") (nullable assignee) (stamp_members stamp))))
event_json (task_deleted task_id stamp) = object (
    member (lit "type") (string (lit "task.deleted"))
      (mutation_members task_id (stamp_members stamp)))

-- `buildRumorDraft`, with `JSON.stringify` as a parameter.
unfoldable pub build_rumor_draft :
    (stringify : Json → Text) → (created_at : ℕ) → TaskEvent → (pubkey : Text) → Rumor
build_rumor_draft stringify created_at task_event pubkey = record {
  id = [];
  kind = task_event_kind;
  content = stringify (event_json task_event);
  tags = (lit "t" ∷ lit "task" ∷ []) ∷ [];
  created_at = created_at / 1000;
  pubkey = pubkey;
}

unfoldable pub compute_rumor_id :
    (get_event_hash : Rumor → Text)
    → (stringify : Json → Text) → (created_at : ℕ) → TaskEvent
    → (pubkey : Text) → Text
compute_rumor_id get_event_hash stringify created_at task_event pubkey =
    get_event_hash (build_rumor_draft stringify created_at task_event pubkey)

-- `buildRumor`.
unfoldable pub build_rumor :
    (get_event_hash : Rumor → Text)
    → (stringify : Json → Text) → (created_at : ℕ) → TaskEvent
    → (pubkey : Text) → Rumor
build_rumor get_event_hash stringify created_at task_event pubkey =
    let draft = build_rumor_draft stringify created_at task_event pubkey in
    record draft { id = get_event_hash draft }

as_nullable-nullable : (a : Option Text) → as_nullable (some (nullable a)) ≡ some a
as_nullable-nullable none = refl
as_nullable-nullable (some s) = refl

status_of-status_text : (s : TaskStatus) → status_of (status_text s) ≡ some s
unfolding status_of same
status_of-status_text opened = refl
status_of-status_text in_progress = refl
status_of-status_text done = refl
status_of-status_text cancelled = refl

-- A member that may be left out is read back; the members after it have another name.
as_optional-optional :
    (key : Text) (a : Option Text) (ms : Members)
    → lookup key ms ≡ none
    → as_optional (lookup key (optional key a ms)) ≡ some a
unfolding lookup
as_optional-optional key none ms absent = ap as_optional absent
as_optional-optional key (some s) ms absent = rw (same_refl key) refl

device-optional :
    (d : Option Text)
    → as_optional (lookup (lit "updatedByDevice") (optional (lit "updatedByDevice") d no_members))
      ≡ some d
unfolding lookup
device-optional d = as_optional-optional (lit "updatedByDevice") d no_members refl

lookup-skip :
    (key k : Text) (j : Option Json) (ms : Members)
    → same k key ≡ false
    → lookup key (present k j ms) ≡ lookup key ms
unfolding lookup present
lookup-skip key k none ms other = refl
lookup-skip key k (some j) ms other = rw other refl

lookup-hit :
    (key : Text) (j : Option Json) (ms : Members)
    → lookup key ms ≡ none
    → lookup key (present key j ms) ≡ j
unfolding lookup present
lookup-hit key none ms absent = absent
lookup-hit key (some j) ms absent = rw (same_refl key) refl

as_string-map : (a : Option Text) → as_string (map_some string a) ≡ a
as_string-map none = refl
as_string-map (some s) = refl

as_optional-map : (a : Option Text) → as_optional (map_some string a) ≡ some a
as_optional-map none = refl
as_optional-map (some s) = refl

as_nullable-map : (a : Option (Option Text)) → as_nullable (map_some nullable a) ≡ a
as_nullable-map none = refl
as_nullable-map (some none) = refl
as_nullable-map (some (some s)) = refl

as_number-map : (a : Option ℕ) → as_number (map_some number a) ≡ a
as_number-map none = refl
as_number-map (some n) = refl

valid_status-map :
    (a : Option TaskStatus)
    → (as_string (map_some (λ s. string (status_text s)) a) >>= λ s. status_of s) ≡ a
valid_status-map none = refl
valid_status-map (some s) = status_of-status_text s

module _ (t d i s a b c : Option Json) where
  abbrev Reads : Text → Option Json → Type 0
  Reads key j = lookup key (changes_members t d i s a b c) ≡ j

  -- Each member is found under its own name.
  changes_members-lookup :
      Reads (lit "title") t
      × Reads (lit "description") d
      × Reads (lit "id") i
      × Reads (lit "status") s
      × Reads (lit "assignee") a
      × Reads (lit "createdBy") b
      × Reads (lit "createdAt") c
  unfolding lookup same
  changes_members-lookup = (
    lookup-hit (lit "title") t _ (
        lookup-skip (lit "title") (lit "description") d _ refl
        ∙ (lookup-skip (lit "title") (lit "id") i _ refl
            ∙ (lookup-skip (lit "title") (lit "status") s _ refl
                ∙ (lookup-skip (lit "title") (lit "assignee") a _ refl
                    ∙ (lookup-skip (lit "title") (lit "createdBy") b _ refl
                        ∙ (lookup-skip (lit "title") (lit "createdAt") c _ refl)))))),
    lookup-skip (lit "description") (lit "title") t _ refl
        ∙ (lookup-hit (lit "description") d _ (
            lookup-skip (lit "description") (lit "id") i _ refl
            ∙ (lookup-skip (lit "description") (lit "status") s _ refl
                ∙ (lookup-skip (lit "description") (lit "assignee") a _ refl
                    ∙ (lookup-skip (lit "description") (lit "createdBy") b _ refl
                        ∙ (lookup-skip (lit "description") (lit "createdAt") c _ refl)))))),
    lookup-skip (lit "id") (lit "title") t _ refl
        ∙ (lookup-skip (lit "id") (lit "description") d _ refl
            ∙ (lookup-hit (lit "id") i _ (
                lookup-skip (lit "id") (lit "status") s _ refl
                ∙ (lookup-skip (lit "id") (lit "assignee") a _ refl
                    ∙ (lookup-skip (lit "id") (lit "createdBy") b _ refl
                        ∙ (lookup-skip (lit "id") (lit "createdAt") c _ refl)))))),
    lookup-skip (lit "status") (lit "title") t _ refl
        ∙ (lookup-skip (lit "status") (lit "description") d _ refl
            ∙ (lookup-skip (lit "status") (lit "id") i _ refl
                ∙ (lookup-hit (lit "status") s _ (
                    lookup-skip (lit "status") (lit "assignee") a _ refl
                    ∙ (lookup-skip (lit "status") (lit "createdBy") b _ refl
                        ∙ (lookup-skip (lit "status") (lit "createdAt") c _ refl)))))),
    lookup-skip (lit "assignee") (lit "title") t _ refl
        ∙ (lookup-skip (lit "assignee") (lit "description") d _ refl
            ∙ (lookup-skip (lit "assignee") (lit "id") i _ refl
                ∙ (lookup-skip (lit "assignee") (lit "status") s _ refl
                    ∙ (lookup-hit (lit "assignee") a _ (
                        lookup-skip (lit "assignee") (lit "createdBy") b _ refl
                        ∙ (lookup-skip (lit "assignee") (lit "createdAt") c _ refl)))))),
    lookup-skip (lit "createdBy") (lit "title") t _ refl
        ∙ (lookup-skip (lit "createdBy") (lit "description") d _ refl
            ∙ (lookup-skip (lit "createdBy") (lit "id") i _ refl
                ∙ (lookup-skip (lit "createdBy") (lit "status") s _ refl
                    ∙ (lookup-skip (lit "createdBy") (lit "assignee") a _ refl
                        ∙ (lookup-hit (lit "createdBy") b _
                            (lookup-skip (lit "createdBy") (lit "createdAt") c _ refl)))))),
    lookup-skip (lit "createdAt") (lit "title") t _ refl
        ∙ (lookup-skip (lit "createdAt") (lit "description") d _ refl
            ∙ (lookup-skip (lit "createdAt") (lit "id") i _ refl
                ∙ (lookup-skip (lit "createdAt") (lit "status") s _ refl
                    ∙ (lookup-skip (lit "createdAt") (lit "assignee") a _ refl
                        ∙ (lookup-skip (lit "createdAt") (lit "createdBy") b _ refl
                            ∙ (lookup-hit (lit "createdAt") c _ (refl))))))),
  )

is_valid_changes-changes_json :
    (changes : Changes) → is_valid_changes (some (changes_json changes)) ≡ some changes
unfolding is_valid_changes
is_valid_changes-changes_json changes =
    let (t, d, i, s, a, b, c) =
      changes_members-lookup (map_some string changes.new_title)
        (map_some string changes.new_description) (map_some string changes.new_id)
        (map_some (λ s. string (status_text s)) changes.new_status)
        (map_some nullable changes.new_assignee) (map_some string changes.new_created_by)
        (map_some number changes.new_created_at) in
    rw
      (
        t,
        d,
        i,
        s,
        a,
        b,
        c,
        as_optional-map changes.new_title,
        as_optional-map changes.new_description,
        as_string-map changes.new_id,
        valid_status-map changes.new_status,
        as_nullable-map changes.new_assignee,
        as_string-map changes.new_created_by,
        as_number-map changes.new_created_at,
      )
      refl

is_task_event-event_json : (e : TaskEvent) → is_task_event (event_json e) ≡ some e
unfolding is_task_event event_of_type is_valid_task valid_fields has_valid_mutation_fields
    valid_stamp lookup same
is_task_event-event_json (task_created task) =
    rw
      (
        status_of-status_text task.status,
        as_nullable-nullable task.assignee,
        device-optional task.updated_by_device,
      )
      refl
is_task_event-event_json (task_updated task_id changes stamp) =
    rw (device-optional stamp.updated_by_device, is_valid_changes-changes_json changes) refl
is_task_event-event_json (task_status_changed task_id status stamp) =
    rw (status_of-status_text status, device-optional stamp.updated_by_device) refl
is_task_event-event_json (task_assigned task_id assignee stamp) =
    rw (as_nullable-nullable assignee, device-optional stamp.updated_by_device) refl
is_task_event-event_json (task_deleted task_id stamp) =
    rw (device-optional stamp.updated_by_device) refl

-- The rumor that is built of a task event, at whatever time and by whichever member, comes out of the
-- adapter as a message with the same event and the id that `computeRumorId` gives: where
-- `deserializeApplicationData` reads that rumor of the decrypted bytes and `JSON.parse` reads back the
-- value of the event that `JSON.stringify` wrote.
pub translate_application_message-build_rumor :
    {Bytes : Type 0} (decoder : Decoder Bytes) (hash : Rumor → Text) (stringify : Json → Text)
    (created_at : ℕ) (e : TaskEvent) (pubkey : Text) (decrypted : Bytes)
    (fact : RawProtocolFactInput) (epoch : Text) (source : ReceiptSource)
    → decoder.deserialize decrypted ≡ inr (build_rumor hash stringify created_at e pubkey)
    → decoder.parse (stringify (event_json e)) ≡ inr (event_json e)
    → translate_application_message decoder decrypted fact epoch source
      ≡ message (record {
        fact = fact;
        rumor_id = compute_rumor_id hash stringify created_at e pubkey;
        payload = e;
        epoch = epoch;
        receipt_source = source;
      })
unfolding translate_application_message translate_content build_rumor build_rumor_draft
    compute_rumor_id
translate_application_message-build_rumor decoder hash stringify t e pubkey decrypted fact epoch
      source decoded parsed =
    rw (decoded, translate_application_message)
      (rw (parsed, translate_content) (rw (is_task_event-event_json e) refl))
