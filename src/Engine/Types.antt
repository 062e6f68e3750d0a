-- ===== src/Engine/Types.antt =====
-- src/engine/engine-types.ts: the types that the engine, the stores and the adapter share. The
-- signature and the tags of a relay event are carried along and never read.
use notestr.Prelude.{ℕ, ◌++◌, Text, lit, Bool, Option, List}
use notestr.Domain.Events.{TaskEvent, AcceptedDomainEvent}

pub record NostrEvent : Type 0 where
  pub id : Text
  pub pubkey : Text
  pub created_at : ℕ
  pub kind : ℕ
  pub tags : List (List Text)
  pub content : Text
  pub sig : Text

pub data ReceiptSource : Type 0 where
  historical live_delivery bootstrap_snapshot : ReceiptSource

pub record RawProtocolFactInput : Type 0 where
  pub id : Text
  pub group_id : Text
  pub nostr_event_id : Text
  pub nostr_event : NostrEvent
  pub received_at : ℕ
  pub receipt_source : ReceiptSource
  pub epoch_at_receipt : Text

-- The input with the position that the raw log gave it.
pub record RawProtocolFact : Type 0 where
  pub input : RawProtocolFactInput
  pub open input use *
  pub seq : ℕ

pub record AppendFactResult : Type 0 where
  pub fact : RawProtocolFact
  pub duplicate : Bool

pub data EngineLifecycleState : Type 0 where
  uninitialized joining recovering catching_up buffering_live live retrying_deferred stopped :
      EngineLifecycleState

pub data EngineHealth : Type 0 where
  nominal degraded : EngineHealth

pub record EngineState : Type 0 where
  pub lifecycle : EngineLifecycleState
  pub health : EngineHealth

pub record EngineCheckpoint : Type 0 where
  pub group_id : Text
  pub saved_at : ℕ
  pub engine_state : EngineLifecycleState
  pub last_epoch : Option Text
  pub last_ingested_seq : ℕ
  pub last_accepted_domain_event_id : Option Text
  pub bootstrap_completed : Bool

pub data DeferredReason : Type 0 where
  unreadable epoch_mismatch : DeferredReason

pub data EngineOutputEvent : Type 0 where
  envelope_received : (fact_id : Text) → EngineOutputEvent
  envelope_deferred : (fact_id : Text) → DeferredReason → EngineOutputEvent
  domain_event_accepted : AcceptedDomainEvent → EngineOutputEvent
  domain_event_rejected : (fact_id : Text) → (reason : Text) → EngineOutputEvent
  projection_invalidated : EngineOutputEvent
  group_epoch_advanced : (new_epoch : Text) → (prev_epoch : Text) → EngineOutputEvent
  group_ratchet_advanced : EngineOutputEvent
  engine_state_changed : EngineLifecycleState → EngineHealth → EngineOutputEvent
  deferred_retry_started : (count : ℕ) → EngineOutputEvent
  recovered : EngineOutputEvent

-- A decrypted message that carries a task event.
pub record MessageSignal : Type 0 where
  pub fact : RawProtocolFactInput
  pub rumor_id : Text
  pub payload : TaskEvent
  pub epoch : Text
  pub receipt_source : ReceiptSource

pub data IngestSignal : Type 0 where
  message : MessageSignal → IngestSignal
  deferred : RawProtocolFactInput → DeferredReason → (epoch : Text) → IngestSignal
  skipped : RawProtocolFactInput → IngestSignal
  malformed : RawProtocolFactInput → (error : Text) → IngestSignal
  epoch_advanced : (new_epoch : Text) → (prev_epoch : Text) → IngestSignal

unfoldable pub raw_facts_key : Text → Text
raw_facts_key group_id = lit "notestr:raw-facts:" ++ group_id

unfoldable pub accepted_events_key : Text → Text
accepted_events_key group_id = lit "notestr:accepted-events:" ++ group_id

unfoldable pub engine_checkpoints_key : Text → Text
engine_checkpoints_key group_id = lit "notestr:engine-checkpoints:" ++ group_id

unfoldable pub deferred_ids_key : Text → Text
deferred_ids_key group_id = lit "notestr:deferred-ids:" ++ group_id

unfoldable pub outbox_key : Text → Text
outbox_key group_id = lit "notestr:outbox:" ++ group_id
