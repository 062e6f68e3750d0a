-- ===== src/Engine/Steady/Handlers.antt =====
-- The signal handlers of src/engine/receive-engine.ts are steady.
use notestr.Prelude.{ℕ, ltb, refl, Text, Bool, true, Option, none, some}
use notestr.Domain.Events.{AcceptedDomainEvent}
use notestr.Engine.Types.{
  RawProtocolFact, RawProtocolFactInput, DeferredReason, MessageSignal, IngestSignal, message,
  deferred, skipped, malformed, epoch_advanced,
}
use notestr.Engine.World.{Exec, modify}
use notestr.Engine.Handlers.{
  append_or_return, landed_or_return, when, unpark, store_event, handle_message, handle_deferred,
  handle_skipped, handle_malformed, handle_epoch_advanced, process_signal, note_accepted, park,
}
use notestr.Engine.Steady.{
  Leaves, bind-Leaves, call-Leaves, modify-Leaves, gets-Leaves, pure-Leaves, return-Leaves,
  alive-Leaves, if-Leaves, set_policy-Leaves, advance_watermark-Leaves,
}
use notestr.Engine.Steady.Writes.{
  emit-Leaves, append_fact_with_retry-Leaves, append_accepted_event_with_retry-Leaves,
  accept_deferred_fact_with_retry-Leaves, save_deferred_ids_with_retry-Leaves,
}

landed_or_return-Leaves {ℓ} : {A : Type ℓ} (o : Option A) → Leaves (landed_or_return o)
landed_or_return-Leaves none = return-Leaves
landed_or_return-Leaves (some a) = pure-Leaves a

pub when-Leaves : (b : Bool) {m : Exec (Unit {0})} → Leaves m → Leaves (when b m)
when-Leaves b p = if-Leaves b p (pure-Leaves tt)

pub append_or_return-Leaves :
    (gen : ℕ) (fact : RawProtocolFactInput) → Leaves (append_or_return gen fact)
unfolding append_or_return
append_or_return-Leaves gen fact = bind-Leaves (append_fact_with_retry-Leaves gen fact) λ o.
    bind-Leaves (landed_or_return-Leaves o)
      λ a. bind-Leaves (alive-Leaves gen) λ u. pure-Leaves a.fact

pub note_accepted-Leaves : (event : AcceptedDomainEvent) → Leaves (modify (note_accepted event))
note_accepted-Leaves event =
    modify-Leaves _ λ w. record { counted = refl; quiet = λ h. (h, refl); told = λ h. h }

pub unpark-Leaves : (g : Text) (gen : ℕ) (fact_id : Text) → Leaves (unpark g gen fact_id)
unfolding unpark
unpark-Leaves g gen fact_id = bind-Leaves (set_policy-Leaves _) λ u.
    bind-Leaves (gets-Leaves _)
      λ ids. bind-Leaves (save_deferred_ids_with_retry-Leaves g gen ids) λ saved. alive-Leaves gen

store_event-Leaves :
    (g : Text) (gen : ℕ) (fact_id : Text) (event : AcceptedDomainEvent)
    → Leaves (store_event g gen fact_id event)
unfolding store_event
store_event-Leaves g gen fact_id event = bind-Leaves (gets-Leaves _) λ parked.
    if-Leaves parked
      (bind-Leaves (accept_deferred_fact_with_retry-Leaves g gen fact_id event) λ o.
        bind-Leaves (alive-Leaves gen)
          λ u. bind-Leaves (landed_or_return-Leaves o) λ v. unpark-Leaves g gen fact_id)
      (bind-Leaves (append_accepted_event_with_retry-Leaves gen event)
        λ o. bind-Leaves (alive-Leaves gen) λ u. landed_or_return-Leaves o)

handle_message-Leaves :
    (g : Text) (signal : MessageSignal) (gen : ℕ) → Leaves (handle_message g signal gen)
unfolding handle_message
handle_message-Leaves g signal gen = bind-Leaves (append_or_return-Leaves gen signal.fact) λ fact.
    bind-Leaves (emit-Leaves _) λ u. bind-Leaves (gets-Leaves _) λ known.
      bind-Leaves (gets-Leaves _) λ event. if-Leaves known (advance_watermark-Leaves fact.seq) (
        bind-Leaves (store_event-Leaves g gen fact.id event) λ v.
          bind-Leaves (note_accepted-Leaves event)
            λ x. bind-Leaves (advance_watermark-Leaves fact.seq) λ y. emit-Leaves _)

park-Leaves : (fact : RawProtocolFact) (reason : DeferredReason) → Leaves (park fact reason)
park-Leaves fact reason =
    bind-Leaves (gets-Leaves _)
      λ outcome. bind-Leaves (set_policy-Leaves _) λ u. pure-Leaves outcome.0

handle_deferred-Leaves :
    (g : Text) (input : RawProtocolFactInput) (reason : DeferredReason) (gen : ℕ)
    → Leaves (handle_deferred g input reason gen)
unfolding handle_deferred
handle_deferred-Leaves g input reason gen = bind-Leaves (append_or_return-Leaves gen input) λ fact.
    bind-Leaves (emit-Leaves _) λ u. bind-Leaves (park-Leaves fact reason) λ is_new.
      bind-Leaves (gets-Leaves _) λ ids.
        bind-Leaves
          (if-Leaves is_new
            (bind-Leaves (save_deferred_ids_with_retry-Leaves g gen ids)
              λ saved. bind-Leaves (alive-Leaves gen) λ v. pure-Leaves saved)
            (pure-Leaves true))
          λ durable.
            bind-Leaves (when-Leaves durable (advance_watermark-Leaves fact.seq)) λ x. emit-Leaves _

handle_skipped-Leaves : (input : RawProtocolFactInput) (gen : ℕ) → Leaves (handle_skipped input gen)
unfolding handle_skipped
handle_skipped-Leaves input gen = bind-Leaves (append_or_return-Leaves gen input) λ fact.
    bind-Leaves (advance_watermark-Leaves fact.seq)
      λ u. bind-Leaves (emit-Leaves _) λ v. emit-Leaves _

handle_malformed-Leaves :
    (g : Text) (input : RawProtocolFactInput) (gen : ℕ) → Leaves (handle_malformed g input gen)
unfolding handle_malformed
handle_malformed-Leaves g input gen = bind-Leaves (append_or_return-Leaves gen input) λ fact.
    bind-Leaves (advance_watermark-Leaves fact.seq) λ u. bind-Leaves (emit-Leaves _) λ v.
      bind-Leaves (gets-Leaves _)
        λ parked. bind-Leaves (when-Leaves parked (unpark-Leaves g gen fact.id)) λ x. emit-Leaves _

pub handle_epoch_advanced-Leaves :
    (enter : Exec (Unit {0})) (new_epoch prev_epoch : Text)
    → Leaves enter
    → Leaves (handle_epoch_advanced enter new_epoch prev_epoch)
unfolding handle_epoch_advanced
handle_epoch_advanced-Leaves enter new_epoch prev_epoch p =
    bind-Leaves
      (modify-Leaves _ λ w. record { counted = refl; quiet = λ h. (h, refl); told = λ h. h })
      λ u. bind-Leaves (emit-Leaves _) λ v. bind-Leaves (gets-Leaves _) λ at_live.
        bind-Leaves (gets-Leaves _) λ parked.
          if-Leaves at_live (when-Leaves (ltb 0 parked) (call-Leaves p))
            (modify-Leaves _ λ w. record { counted = refl; quiet = λ h. (h, refl); told = λ h. h })

pub process_signal-Leaves :
    (g : Text) (enter : Exec (Unit {0})) (signal : IngestSignal) (gen : ℕ)
    → Leaves enter
    → Leaves (process_signal g enter signal gen)
unfolding process_signal
process_signal-Leaves g enter (message signal) gen p =
    call-Leaves (handle_message-Leaves g signal gen)
process_signal-Leaves g enter (deferred fact reason epoch) gen p =
    call-Leaves (handle_deferred-Leaves g fact reason gen)
process_signal-Leaves g enter (skipped fact) gen p = call-Leaves (handle_skipped-Leaves fact gen)
process_signal-Leaves g enter (malformed fact error) gen p =
    call-Leaves (handle_malformed-Leaves g fact gen)
process_signal-Leaves g enter (epoch_advanced new_epoch prev_epoch) gen p =
    call-Leaves (handle_epoch_advanced-Leaves enter new_epoch prev_epoch p)
