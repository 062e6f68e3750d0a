-- ===== src/Tests/Adapting.antt =====
-- The adapter on concrete data.
use notestr.Prelude.{
  ℕ, ◌≡◌, refl, Text, lit, true, ◌==◌, none, some, List, [], ◌∷◌, inl, inr, same, keep, any,
  if◌then◌else◌,
}
use notestr.Domain.Events.{Task, done, TaskEvent, task_status_changed}
use notestr.Engine.Types.{NostrEvent, historical, RawProtocolFact, RawProtocolFactInput, message}
use notestr.Adapter.{Json, number, string, array, object, item, no_items, member, no_members}
use notestr.Adapter.Messages.{
  Rumor, Decoder, IngestResult, application_message, new_state, skipped_event, ingest_results,
  translate_application_message,
}
use notestr.Adapter.Codec.{
  task_json, event_json, build_rumor, compute_rumor_id, translate_application_message-build_rumor,
}
use notestr.Adapter.Bootstrap.{BootstrapDeps, qualifying, fetch_bootstrap}
use notestr.Adapter.Snapshots.{Bootstrapped, fetch_bootstrap-Bootstrapped}
use notestr.Adapter.Epochs.{
  envelopes, reports, expected_envelope, highest, EpochRun, ingest_results-reports,
}
use notestr.Tests.{group, task_at}
use notestr.Tests.Bridging.{bridge}
use notestr.Tests.Stores.{fact_of}
use notestr.Prelude.Dict.{Dict}

abbrev finished : TaskEvent
finished =
    task_status_changed (lit "t1") done
      (record { updated_at = 9; updated_by = lit "p"; updated_by_device = some (lit "d") })

-- A printer and a reader that know one value.
abbrev stringify : Json → Text
stringify j = lit "finished"

abbrev hash : Rumor → Text
hash rumor = lit "h1"

abbrev sent_rumor : Rumor
sent_rumor = build_rumor hash stringify 5000 finished (lit "p")

abbrev decoder : Decoder Text
decoder = record {
  deserialize = λ bytes. if same bytes (lit "x") then inr sent_rumor else inl none;
  parse =
      λ s. if same s (lit "finished") then inr (event_json finished) else inl (some (lit "bad"));
  show_epoch = λ n. n ∷ [];
}

abbrev kind_445 : Text → ℕ → NostrEvent
kind_445 id at = record {
  id = id;
  pubkey = lit "p";
  created_at = at;
  kind = 445;
  tags = [];
  content = lit "x";
  sig = lit "s";
}

abbrev envelope_fact : RawProtocolFactInput
envelope_fact = record {
  id = lit "n1";
  group_id = group;
  nostr_event_id = lit "n1";
  nostr_event = kind_445 (lit "n1") 1;
  received_at = 2;
  receipt_source = historical;
  epoch_at_receipt = lit "4";
}

sent_decoded : decoder.deserialize (lit "x") ≡ inr sent_rumor
unfolding same
sent_decoded = refl

sent_parsed : decoder.parse (stringify (event_json finished)) ≡ inr (event_json finished)
unfolding same
sent_parsed = refl

translate_application_message-build_rumor_example :
    translate_application_message decoder (lit "x") envelope_fact (lit "4") historical
    ≡ message (record {
      fact = envelope_fact;
      rumor_id = compute_rumor_id hash stringify 5000 finished (lit "p");
      payload = finished;
      epoch = lit "4";
      receipt_source = historical;
    })
translate_application_message-build_rumor_example =
    translate_application_message-build_rumor decoder hash stringify 5000 finished (lit "p")
      (lit "x") envelope_fact (lit "4") historical sent_decoded sent_parsed

abbrev results : List (IngestResult Text)
results =
    record {
      event = kind_445 (lit "n1") 1;
      outcome = application_message (lit "x");
      epoch_after = 4;
      now = 20;
    }
    ∷ record { event = kind_445 (lit "n2") 2; outcome = new_state; epoch_after = 5; now = 21 }
    ∷ record { event = kind_445 (lit "n7") 3; outcome = skipped_event; epoch_after = 5; now = 22 }
    ∷ []

-- The first event is resubmitted; its stored envelope is of another epoch.
abbrev originals : Dict RawProtocolFact
originals = (lit "n1", fact_of (lit "n1") 1) ∷ []

ingest_results-reports_example :
    (envelopes (ingest_results decoder group historical originals 4 results bridge).0
      ≡ reports decoder group historical originals results)
    × EpochRun decoder 4
        (ingest_results decoder group historical originals 4 results bridge).0
        (highest decoder 4 results)
ingest_results-reports_example =
    ingest_results-reports decoder group historical originals 4 results bridge

-- The stored envelope comes back for it.
reports-original :
    reports decoder group historical originals (keep (λ r. r.epoch_after == 4) results)
    ≡ (fact_of (lit "n1") 1).input ∷ []
unfolding reports expected_envelope keep notestr.Prelude.Dict.get same
reports-original = refl

abbrev snapshot : Task → Json
snapshot task = object (
    member (lit "version") (number 1) (
      member (lit "type") (string (lit "task.state_sync")) (
        member (lit "groupId") (string group)
          (member (lit "tasks") (array (item (task_json task) no_items)) no_members))))

abbrev bootstrap_deps : BootstrapDeps
bootstrap_deps = record {
  group_id = group;
  member_pubkeys = lit "p" ∷ [];
  decrypt = λ pubkey content. inr content;
  parse = λ s.
      if same s (lit "old")
      then inr (snapshot (task_at 3 (lit "a")))
      else inr (snapshot (task_at 8 (lit "b")));
  epoch = lit "4";
  now = 30;
}

abbrev snapshot_event : (id pubkey content : Text) → ℕ → NostrEvent
snapshot_event id pubkey content at = record {
  id = id;
  pubkey = pubkey;
  created_at = at;
  kind = 30078;
  tags = [];
  content = content;
  sig = lit "s";
}

abbrev newer : NostrEvent
newer = snapshot_event (lit "k2") (lit "p") (lit "new") 8

abbrev older : NostrEvent
older = snapshot_event (lit "k1") (lit "p") (lit "old") 3

abbrev stranger : NostrEvent
stranger = snapshot_event (lit "k3") (lit "q") (lit "new") 9

of_members : qualifying bootstrap_deps (newer ∷ stranger ∷ older ∷ []) ≡ newer ∷ older ∷ []
unfolding qualifying keep any same
of_members = refl

fetch_bootstrap-Bootstrapped_example :
    Bootstrapped bootstrap_deps
      (newer ∷ older ∷ [])
      (fetch_bootstrap true bootstrap_deps (inr (newer ∷ stranger ∷ older ∷ [])))
fetch_bootstrap-Bootstrapped_example =
    fetch_bootstrap-Bootstrapped bootstrap_deps (newer ∷ stranger ∷ older ∷ []) newer (older ∷ [])
      of_members
