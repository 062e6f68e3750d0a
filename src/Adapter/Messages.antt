-- ===== src/Adapter/Messages.antt =====
-- src/integration/marmot-adapter.ts: the translation of what `group.ingest` yields into signals of the
-- engine. The MLS group and the decoding of its messages are the library's: what `ingest` yields, with
-- the epoch of the group after each result, is a list, and `deserializeApplicationData`, `JSON.parse`
-- and `toString` of an epoch are parameters. A call that throws is `inl` of what `describeError` reads
-- of the error, if it reads anything.
use notestr.Prelude.{
  ℕ, Text, lit, Option, none, some, List, [], ◌∷◌, ◌++◌, map, ltb, ◌==◌, ◌⊎◌, inl, inr,
  if◌then◌else◌,
}
use notestr.Prelude.Dict.{Dict, get, set}
use notestr.Domain.Events.{task_event_kind, or_else}
use notestr.Engine.Types.{
  NostrEvent, ReceiptSource, historical, live_delivery, RawProtocolFact, RawProtocolFactInput,
  IngestSignal, message, deferred, skipped, malformed, epoch_advanced, unreadable,
}
use notestr.Adapter.{Json, is_task_event}
use notestr.Outbox.Bridge.{Bridge}
use notestr.Outbox.Windows.{reconcile_own_echo}

-- A decrypted rumor.
pub record Rumor : Type 0 where
  pub id : Text
  pub kind : ℕ
  pub content : Text
  pub tags : List (List Text)
  pub created_at : ℕ
  pub pubkey : Text

-- What is caught: a message, or a value that carries none.
abbrev pub Thrown : Type 0
Thrown = Option Text

abbrev pub describe_error : Thrown → Text → Text
describe_error err fallback = or_else err fallback

-- The calls that the translation makes.
pub record Decoder (Bytes : Type 0) : Type 0 where
  pub deserialize : Bytes → Thrown ⊎ Rumor
  pub parse : Text → Thrown ⊎ Json
  pub show_epoch : ℕ → Text

-- `IngestResult`: a `newState` carries a proposal or a commit.
pub data IngestOutcome (Bytes : Type 0) : Type 0 where
  application_message : Bytes → IngestOutcome Bytes
  new_state skipped_event rejected_event unreadable_event : IngestOutcome Bytes

-- A result of `group.ingest`, and the epoch and the clock once it is yielded.
pub record IngestResult (Bytes : Type 0) : Type 0 where
  pub event : NostrEvent
  pub outcome : IngestOutcome Bytes
  pub epoch_after : ℕ
  pub now : ℕ

module _ {Bytes : Type 0} (decoder : Decoder Bytes) where
  -- The end of `translateApplicationMessage`, for the parsed content.
  unfoldable pub translate_content :
      (rumor_id : Text)
      → RawProtocolFactInput
      → (epoch : Text) → ReceiptSource
      → Thrown ⊎ Json
      → IngestSignal
  translate_content rumor_id fact epoch receipt_source (inl err) =
      malformed fact (describe_error err (lit "failed to parse rumor content as JSON"))
  translate_content rumor_id fact epoch receipt_source (inr parsed) = elim (is_task_event parsed) [
    | none ↦ malformed fact (lit "decoded rumor content is not a recognized TaskEvent shape")
    | some payload ↦ message (record {
      fact = fact;
      rumor_id = rumor_id;
      payload = payload;
      epoch = epoch;
      receipt_source = receipt_source;
    })
  ]

  -- `translateApplicationMessage`.
  unfoldable pub translate_application_message :
      Bytes → RawProtocolFactInput → (epoch : Text) → ReceiptSource → IngestSignal
  translate_application_message decrypted fact epoch receipt_source =
      elim (decoder.deserialize decrypted) [
        | inl err ↦
            malformed fact (describe_error err (lit "failed to deserialize application data"))
        | inr rumor ↦
            if rumor.kind == task_event_kind
            then translate_content rumor.id fact epoch receipt_source (decoder.parse rumor.content)
            else skipped fact
      ]

  -- `original ?? { … }`.
  unfoldable pub fact_of :
      (group_id : Text)
      → ReceiptSource
      → Dict RawProtocolFact
      → IngestResult Bytes
      → RawProtocolFactInput
  fact_of group_id receipt_source original_facts result =
      elim (get result.event.id original_facts) [
        | some fact ↦ fact.input
        | none ↦ record {
          id = result.event.id;
          group_id = group_id;
          nostr_event_id = result.event.id;
          nostr_event = result.event;
          received_at = result.now;
          receipt_source = receipt_source;
          epoch_at_receipt = decoder.show_epoch result.epoch_after;
        }
      ]

  -- The signals of a result, the change of the epoch apart, and the echo that it may be.
  unfoldable pub translate_result :
      (group_id : Text)
      → RawProtocolFactInput
      → (epoch : Text) → ReceiptSource
      → (now : ℕ) → IngestOutcome Bytes
      → Bridge
      → List IngestSignal × Bridge
  translate_result group_id fact epoch receipt_source now (application_message decrypted) b =
      (translate_application_message decrypted fact epoch receipt_source ∷ [], b)
  translate_result group_id fact epoch receipt_source now new_state b = ([], b)
  translate_result group_id fact epoch receipt_source now skipped_event b =
      (skipped fact ∷ [], (reconcile_own_echo fact.id fact.group_id now b).1)
  translate_result group_id fact epoch receipt_source now rejected_event b =
      (skipped fact ∷ [], (reconcile_own_echo fact.id fact.group_id now b).1)
  translate_result group_id fact epoch receipt_source now unreadable_event b =
      (deferred fact unreadable epoch ∷ [], b)

  abbrev pub epoch_change : (last_known after : ℕ) → List IngestSignal
  epoch_change last_known after =
      if ltb last_known after
      then epoch_advanced (decoder.show_epoch after) (decoder.show_epoch last_known) ∷ []
      else []

  -- The loop of `doIngestBatch`.
  unfoldable pub ingest_results :
      (group_id : Text)
      → ReceiptSource
      → Dict RawProtocolFact
      → (last_known : ℕ) → List (IngestResult Bytes)
      → Bridge
      → List IngestSignal × Bridge
  ingest_results group_id receipt_source original_facts last_known [] b = ([], b)
  ingest_results group_id receipt_source original_facts last_known (result ∷ results) b =
      let fact = fact_of group_id receipt_source original_facts result in
      let epoch = decoder.show_epoch result.epoch_after in
      let (signals, b') =
        translate_result group_id fact epoch receipt_source result.now result.outcome b in
      let last = if ltb last_known result.epoch_after then result.epoch_after else last_known in
      let (rest, b'') = ingest_results group_id receipt_source original_facts last results b' in
      (signals ++ (epoch_change last_known result.epoch_after ++ rest), b'')

  unfoldable pub facts_by_event : List RawProtocolFact → Dict RawProtocolFact → Dict RawProtocolFact
  facts_by_event [] m = m
  facts_by_event (fact ∷ facts) m = facts_by_event facts (set fact.nostr_event_id fact m)

  -- `doIngestBatch`, with the results of `group.ingest` as a function of the events.
  unfoldable pub do_ingest_batch :
      (group_id : Text)
      → (last_known : ℕ) → (ingest : List NostrEvent → List (IngestResult Bytes)) → List NostrEvent
      → ReceiptSource
      → Dict RawProtocolFact
      → Bridge
      → List IngestSignal × Bridge
  do_ingest_batch group_id last_known ingest [] receipt_source original_facts b = ([], b)
  do_ingest_batch group_id last_known ingest (e ∷ es) receipt_source original_facts b =
      ingest_results group_id receipt_source original_facts last_known (ingest (e ∷ es)) b

  -- `catchUp`; a request of the relays that fails answers with no event.
  unfoldable pub catch_up :
      (group_id : Text)
      → (last_known : ℕ) → (ingest : List NostrEvent → List (IngestResult Bytes))
      → (answer : Thrown ⊎ List NostrEvent) → Bridge
      → List IngestSignal × Bridge
  catch_up group_id last_known ingest (inl err) b =
      do_ingest_batch group_id last_known ingest [] historical [] b
  catch_up group_id last_known ingest (inr events) b =
      do_ingest_batch group_id last_known ingest events historical [] b

  -- The `next` of the subscription in `openLive`.
  unfoldable pub live_event :
      (group_id : Text)
      → (last_known : ℕ) → (ingest : List NostrEvent → List (IngestResult Bytes)) → NostrEvent
      → Bridge
      → List IngestSignal × Bridge
  live_event group_id last_known ingest event b =
      do_ingest_batch group_id last_known ingest (event ∷ []) live_delivery [] b

  -- `ingestPersisted`.
  unfoldable pub ingest_persisted :
      (group_id : Text)
      → (last_known : ℕ) → (ingest : List NostrEvent → List (IngestResult Bytes))
      → List RawProtocolFact
      → Bridge
      → List IngestSignal × Bridge
  ingest_persisted group_id last_known ingest facts b =
      do_ingest_batch group_id last_known ingest (map (λ f. f.nostr_event) facts) historical
        (facts_by_event facts []) b
