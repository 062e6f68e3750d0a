-- ===== src/Engine/Steady/Writes.antt =====
-- The waits and the retried writes of src/engine/receive-engine.ts are steady.
use notestr.Prelude.{
  ℕ, zero, suc, ◌+◌, ◌-◌, ◌==◌, ◌≡◌, refl, Text, Bool, true, false, Option, none, some, List, [],
  ◌∷◌, arith, if◌then◌else◌, Bool-cases, inl, inr, leb, ltb,
}
use notestr.Engine.Types.{
  EngineOutputEvent, envelope_received, envelope_deferred, domain_event_accepted,
  domain_event_rejected, projection_invalidated, group_epoch_advanced, group_ratchet_advanced,
  engine_state_changed, deferred_retry_started, recovered, EngineHealth, RawProtocolFactInput,
  EngineLifecycleState,
}
use notestr.Domain.Events.{AcceptedDomainEvent}
use notestr.Engine.World.{
  World, Await, quiet, emit, pass, next_await, later_awaits, stop_now, stale, emit_state_changed,
  emit_if_changed, health, DegradationReason, set_reason, add_degradation_reason,
  clear_degradation_reason, persistence_write_failing, build_checkpoint,
}
use notestr.Engine.Writes.{
  StoreCall, single, accept_call, RetryOutcome, landed, gave_up, settle, attempt_once, retry_delay,
  mark_failing, unmark_failing, after_attempt, retry_loop, with_persistence_retry,
  persistence_retry_delay_ms, persistence_retry_max_attempts, reported, write,
  append_fact_with_retry, append_accepted_event_with_retry, accept_deferred_fact_with_retry,
  save_deferred_ids_with_retry, save_checkpoint_resilient, committed,
}
use notestr.Engine.Retry.{transition_to}
use notestr.Engine.Steady.{
  Undisturbed, told_recovered, Steady, Steady-refl, Steady-trans, Leaves, bind-Leaves,
  modify-Leaves, alive-Leaves,
}
use notestr.Persistence.{
  Disk, save_checkpoint, append_fact, append_accepted_event, save_deferred_ids,
}

pub told_recovered-cons :
    (e : EngineOutputEvent) (es : List EngineOutputEvent)
    → told_recovered es ≡ true
    → told_recovered (e ∷ es) ≡ true
unfolding told_recovered
told_recovered-cons (envelope_received f) es h = h
told_recovered-cons (envelope_deferred f r) es h = h
told_recovered-cons (domain_event_accepted e) es h = h
told_recovered-cons (domain_event_rejected f r) es h = h
told_recovered-cons projection_invalidated es h = h
told_recovered-cons (group_epoch_advanced n p) es h = h
told_recovered-cons group_ratchet_advanced es h = h
told_recovered-cons (engine_state_changed l k) es h = h
told_recovered-cons (deferred_retry_started n) es h = h
told_recovered-cons recovered es h = refl

pub emit-Leaves : (e : EngineOutputEvent) → Leaves (emit e)
emit-Leaves e = record {
  run = λ w. record {
    counted = refl;
    quiet = λ h. (h, refl);
    told = told_recovered-cons e w.emitted;
  };
}

pub emit_state_changed-Steady : (w : World) → Steady w (emit_state_changed w)
unfolding emit_state_changed
emit_state_changed-Steady w = (emit-Leaves (engine_state_changed w.lifecycle (health w))).run w

emit_if_changed-Steady : (b : EngineHealth) (w : World) → Steady w (emit_if_changed b w)
unfolding emit_if_changed
emit_if_changed-Steady b w = ground (arith, emit_state_changed-Steady w, Steady-refl w)

pub add_degradation_reason-Steady :
    (r : DegradationReason) (w : World) → Steady w (add_degradation_reason r w)
unfolding add_degradation_reason
add_degradation_reason-Steady r w =
    let v = record w { degradation = set_reason r true w.degradation } in
    let s = emit_if_changed-Steady (health w) v in
    record { counted = s.counted; quiet = s.quiet; told = s.told }

pub clear_degradation_reason-Steady :
    (r : DegradationReason) (w : World) → Steady w (clear_degradation_reason r w)
unfolding clear_degradation_reason
clear_degradation_reason-Steady r w =
    let v = record w { degradation = set_reason r false w.degradation } in
    let s = emit_if_changed-Steady (health w) v in
    record { counted = s.counted; quiet = s.quiet; told = s.told }

stop_now-counted :
    (w : World) → (stop_now w).catch_up_invocation_count ≡ w.catch_up_invocation_count
unfolding stop_now emit_state_changed
stop_now-counted w = ground arith

stop_now-told :
    (w : World) → told_recovered w.emitted ≡ true → told_recovered (stop_now w).emitted ≡ true
unfolding stop_now emit_state_changed told_recovered
stop_now-told w h = ground arith

later-Undisturbed :
    (w : World)
    → Undisturbed w.schedule
    → ((next_await w).stops ≡ false) × Undisturbed (later_awaits w)
later-Undisturbed w h = go w.schedule h
  where
    go :
        (s : List Await)
        → Undisturbed s
        → ((elim s as (λ x. Await) [ [] ↦ quiet | a ∷ rest ↦ a ]).stops ≡ false)
          × Undisturbed (elim s as (λ x. List Await) [ [] ↦ [] | a ∷ rest ↦ rest ])
    go [] k = (refl, tt)
    go (a ∷ s) k = (k.1, k.2)

pub pass-Steady : (w : World) → Steady w (pass w)
unfolding pass
pass-Steady w = record {
  counted =
      let v = record w { schedule = later_awaits w; clock = w.clock + (next_await w).elapsed } in
      ground (arith, stop_now-counted v);
  quiet = λ h. let (stops, later) = later-Undisturbed w h in rw stops (later, refl);
  told = λ h.
      let v = record w { schedule = later_awaits w; clock = w.clock + (next_await w).elapsed } in
      ground (arith, stop_now-told v h);
}

disk-Steady : (d : Disk) (w : World) → Steady w (pass (record w { disk = d }))
disk-Steady d w =
    let s = pass-Steady (record w { disk = d }) in
    record { counted = s.counted; quiet = s.quiet; told = s.told }

attempt_once-Steady :
    {A : Type 0} (attempt : StoreCall A) (w : World) → Steady w (attempt_once attempt w).1
unfolding attempt_once
attempt_once-Steady {A = A} attempt w = go (next_await w).fails (attempt.run w.disk)
  where
    t : Disk
    t = attempt.torn (next_await w).torn w.disk

    go : (fails : Bool) (r : Option (A × Disk)) → Steady w (settle fails t r w).1
    go true r = disk-Steady t w
    go false none = pass-Steady w
    go false (some (a, d)) = disk-Steady d w

retry_delay-Steady : (ms : ℕ) (w : World) → Steady w (retry_delay ms w)
unfolding retry_delay
retry_delay-Steady ms w =
    let s = pass-Steady (record w { clock = w.clock + ms }) in
    let later : Steady w (pass (record w { clock = w.clock + ms })) = record {
      counted = s.counted;
      quiet = s.quiet;
      told = s.told;
    } in
    ground (arith, pass-Steady w, later)

mark_failing-Steady : (b : Bool) (w : World) → Steady w (mark_failing b w)
unfolding mark_failing
mark_failing-Steady true w = Steady-refl w
mark_failing-Steady false w =
    let v = record w { active_persistence_failures = w.active_persistence_failures + 1 } in
    let s = add_degradation_reason-Steady persistence_write_failing v in
    record { counted = s.counted; quiet = s.quiet; told = s.told }

unmark_failing-Steady : (b : Bool) (w : World) → Steady w (unmark_failing b w)
unfolding unmark_failing
unmark_failing-Steady false w = Steady-refl w
unmark_failing-Steady true w =
    let n = w.active_persistence_failures - 1 in
    let v = record w { active_persistence_failures = n } in
    let s = clear_degradation_reason-Steady persistence_write_failing v in
    let kept : Steady w v = record { counted = refl; quiet = λ h. (h, refl); told = λ h. h } in
    let cleared : Steady w (clear_degradation_reason persistence_write_failing v) = record {
      counted = s.counted;
      quiet = s.quiet;
      told = s.told;
    } in
    go (n == 0) v kept cleared
  where
    go :
        (b : Bool) (v : World)
        → Steady w v
        → Steady w (clear_degradation_reason persistence_write_failing v)
        → Steady w (if b then clear_degradation_reason persistence_write_failing v else v)
    go true v p q = q
    go false v p q = p

after_attempt-Steady :
    {A : Type 0} (n : ℕ) (marked : Bool) (gen : ℕ) (r : Option A) (w w₁ w₂ w₃ : World)
    (rest : RetryOutcome A × World)
    → Steady w w₁
    → Steady w w₂
    → Steady w w₃
    → Steady w rest.1
    → Steady w (after_attempt n marked gen r w₁ w₂ w₃ rest).1
unfolding after_attempt
after_attempt-Steady n marked gen (some a) w w₁ w₂ w₃ rest p q r s =
    let t = Steady-trans w w₁ (unmark_failing marked w₁) p (unmark_failing-Steady marked w₁) in
    elim (Bool-cases (stale gen w₁)) [ inl e ↦ rw e p | inr e ↦ rw e t ]
after_attempt-Steady n marked gen none w w₁ w₂ w₃ rest p q r s = elim (Bool-cases (stale gen w₁)) [
  | inl e ↦ rw e p
  | inr e ↦ elim (Bool-cases (leb persistence_retry_max_attempts n)) [
    | inl f ↦ rw (e, f) q
    | inr f ↦ elim (Bool-cases (stale gen w₃)) [ inl g ↦ rw (e, f, g) r | inr g ↦ rw (e, f, g) s ]
  ]
]

retry_loop-Steady :
    {A : Type 0} (fuel n : ℕ) (marked : Bool) (gen : ℕ) (attempt : StoreCall A) (w : World)
    → Steady w (retry_loop fuel n marked gen attempt w).1
unfolding retry_loop
retry_loop-Steady zero n marked gen attempt w = Steady-refl w
retry_loop-Steady (suc fuel) n marked gen attempt w =
    let w₁ = (attempt_once attempt w).1 in
    let w₂ = mark_failing marked w₁ in
    let w₃ = retry_delay (persistence_retry_delay_ms n) w₂ in
    let p = attempt_once-Steady attempt w in
    let q = Steady-trans w w₁ w₂ p (mark_failing-Steady marked w₁) in
    let r = Steady-trans w w₂ w₃ q (retry_delay-Steady (persistence_retry_delay_ms n) w₂) in
    after_attempt-Steady n marked gen (attempt_once attempt w).0 w w₁ w₂ w₃
      (retry_loop fuel (n + 1) true gen attempt w₃) p q r
      (Steady-trans w w₃ _ r (retry_loop-Steady fuel (n + 1) true gen attempt w₃))

with_persistence_retry-Steady :
    {A : Type 0} (gen : ℕ) (attempt : StoreCall A) (w : World)
    → Steady w (with_persistence_retry gen attempt w).1
unfolding with_persistence_retry
with_persistence_retry-Steady gen attempt w =
    retry_loop-Steady persistence_retry_max_attempts 1 false gen attempt w

reported-Steady :
    {A : Type 0} (fact_id : Text) (w : World) (r : RetryOutcome A × World)
    → Steady w r.1
    → Steady w (reported fact_id r).1
unfolding reported
reported-Steady fact_id w (landed a, v) s = s
reported-Steady fact_id w (gave_up true, v) s =
    Steady-trans w v _ s ((emit-Leaves (domain_event_rejected fact_id _)).run v)
reported-Steady fact_id w (gave_up false, v) s = s

pub append_fact_with_retry-Leaves :
    (gen : ℕ) (fact : RawProtocolFactInput) → Leaves (append_fact_with_retry gen fact)
unfolding append_fact_with_retry
append_fact_with_retry-Leaves gen fact = record {
  run = λ w.
      reported-Steady fact.id w (with_persistence_retry gen (single λ d. append_fact d fact) w)
        (with_persistence_retry-Steady gen (single λ d. append_fact d fact) w);
}

pub append_accepted_event_with_retry-Leaves :
    (gen : ℕ) (event : AcceptedDomainEvent) → Leaves (append_accepted_event_with_retry gen event)
unfolding append_accepted_event_with_retry
append_accepted_event_with_retry-Leaves gen event = record {
  run = λ w.
      reported-Steady event.fact_id w
        (with_persistence_retry gen (write λ d. append_accepted_event d event) w)
        (with_persistence_retry-Steady gen (write λ d. append_accepted_event d event) w);
}

pub accept_deferred_fact_with_retry-Leaves :
    (g : Text) (gen : ℕ) (fact_id : Text) (event : AcceptedDomainEvent)
    → Leaves (accept_deferred_fact_with_retry g gen fact_id event)
unfolding accept_deferred_fact_with_retry
accept_deferred_fact_with_retry-Leaves g gen fact_id event = record {
  run = λ w.
      reported-Steady fact_id w (with_persistence_retry gen (accept_call g fact_id event) w)
        (with_persistence_retry-Steady gen (accept_call g fact_id event) w);
}

pub save_deferred_ids_with_retry-Leaves :
    (g : Text) (gen : ℕ) (ids : List Text) → Leaves (save_deferred_ids_with_retry g gen ids)
unfolding save_deferred_ids_with_retry
save_deferred_ids_with_retry-Leaves g gen ids = record {
  run = λ w. with_persistence_retry-Steady gen (write λ d. save_deferred_ids d g ids) w;
}

committed-Steady :
    (n : ℕ) (w : World) (r : Option (Unit {0}) × World) → Steady w r.1 → Steady w (committed n r)
committed-Steady n w (none, v) s = s
committed-Steady n w (some u, v) s = go (ltb v.last_committed_save_counter n)
  where
    go : (b : Bool) → Steady w (if b then record v { last_committed_save_counter = n } else v)
    go true = record { counted = s.counted; quiet = s.quiet; told = s.told }
    go false = s

pub save_checkpoint_resilient-Steady :
    (g : Text) (w : World) → Steady w (save_checkpoint_resilient g w)
unfolding save_checkpoint_resilient
save_checkpoint_resilient-Steady g w =
    let n = w.checkpoint_save_counter + 1 in
    let w₁ = record w { checkpoint_save_counter = n } in
    let save : StoreCall (Unit {0}) = write λ d. save_checkpoint d (build_checkpoint g w₁) in
    let s = attempt_once-Steady save w₁ in
    committed-Steady n w (attempt_once save w₁)
      (record { counted = s.counted; quiet = s.quiet; told = s.told })

pub transition_to-Leaves :
    (g : Text) (gen : ℕ) (l : EngineLifecycleState) → Leaves (transition_to g gen l)
unfolding transition_to
transition_to-Leaves g gen l = bind-Leaves (alive-Leaves gen) λ u.
    bind-Leaves
      (modify-Leaves _ λ w.
        let s = emit_state_changed-Steady (record w { lifecycle = l }) in
        record { counted = s.counted; quiet = s.quiet; told = s.told })
      λ v. modify-Leaves _ (save_checkpoint_resilient-Steady g)
