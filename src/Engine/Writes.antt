-- ===== src/Engine/Writes.antt =====
-- The writes of receive-engine.ts to the stores: the bounded retry of primary state, and the
-- checkpoint save that does not block.
pub mod Budget
use notestr.Prelude.{
  ℕ, zero, suc, ◌+◌, ◌-◌, ◌*◌, ◌^◌, min, Text, lit, Bool, true, false, Option, none, some, List,
  ◌∷◌, ◌==◌, leb, ltb, if◌then◌else◌,
}
use notestr.Domain.Events.{AcceptedDomainEvent}
use notestr.Engine.Types.{
  RawProtocolFact, RawProtocolFactInput, AppendFactResult, domain_event_rejected,
}
use notestr.Engine.World.{
  World, Exec, Flow, done, returned, ◌>>=◌, ◌>>◌, pure, emit, stale, pass, next_await,
  persistence_write_failing, add_degradation_reason, clear_degradation_reason, build_checkpoint,
}
use notestr.Persistence.{
  Disk, append_fact, append_accepted_event, accept_deferred_fact, torn_accept, save_deferred_ids,
  save_checkpoint,
}

abbrev pub persistence_retry_base_delay_ms : ℕ
persistence_retry_base_delay_ms = 1000

abbrev pub persistence_retry_max_delay_ms : ℕ
persistence_retry_max_delay_ms = 30_000

abbrev pub persistence_retry_backoff_factor : ℕ
persistence_retry_backoff_factor = 2

abbrev pub persistence_retry_max_attempts : ℕ
persistence_retry_max_attempts = 8

abbrev pub reason_retry_exhausted : Text
reason_retry_exhausted = lit "retry-exhausted"

abbrev pub reason_deferred_ttl_expired : Text
reason_deferred_ttl_expired = lit "deferred-ttl-expired"

abbrev pub reason_persistence_exhausted : Text
reason_persistence_exhausted = lit "persistence-exhausted"

-- `persistenceRetryDelayMs`.
unfoldable pub persistence_retry_delay_ms : ℕ → ℕ
persistence_retry_delay_ms attempt_number =
    min (persistence_retry_base_delay_ms * persistence_retry_backoff_factor ^ (attempt_number - 1))
      persistence_retry_max_delay_ms

-- A call of a store: what it answers, `none` where it throws, and what it leaves where the database
-- refuses it, by the writes of it that have landed.
pub record StoreCall {ℓ} (A : Type ℓ) : Type ℓ where
  pub run : Disk → Option (A × Disk)
  pub torn : List Bool → Disk → Disk

-- A call that makes one write.
abbrev pub single {ℓ} : {A : Type ℓ} → (Disk → Option (A × Disk)) → StoreCall A
single f = record { run = f; torn = λ flags d. d }

pub data RetryOutcome {ℓ} (A : Type ℓ) : Type ℓ where
  landed : A → RetryOutcome A
  gave_up : (exhausted : Bool) → RetryOutcome A

-- The end of an attempt, by what the schedule and the store call say.
unfoldable pub settle {ℓ} :
    {A : Type ℓ} → Bool → Disk → Option (A × Disk) → World → Option A × World
settle true t r w = (none, pass (record w { disk = t }))
settle false t none w = (none, pass w)
settle false t (some (a, d)) w = (some a, pass (record w { disk = d }))

-- `await attempt()`.
unfoldable pub attempt_once {ℓ} : {A : Type ℓ} → StoreCall A → World → Option A × World
unfolding settle
attempt_once attempt w =
    settle (next_await w).fails (attempt.torn (next_await w).torn w.disk) (attempt.run w.disk) w

-- `await retryDelay(ms)`: stop() ends the wait at once.
unfoldable pub retry_delay : ℕ → World → World
retry_delay ms w = if (next_await w).stops then pass w else pass (record w { clock = w.clock + ms })

-- The first failure of a write marks the engine as degraded.
unfoldable pub mark_failing : Bool → World → World
mark_failing marked w =
    if marked
    then w
    else add_degradation_reason persistence_write_failing
        (record w { active_persistence_failures = w.active_persistence_failures + 1 })

-- `Math.max(0, n - 1)` is `n - 1` here.
unfoldable pub unmark_failing : Bool → World → World
unmark_failing marked w =
    if marked
    then (let n = w.active_persistence_failures - 1 in
        let w' = record w { active_persistence_failures = n } in
        if n == 0 then clear_degradation_reason persistence_write_failing w' else w')
    else w

-- What `withPersistenceRetry` does after an attempt: `w₁` is the world after it, `w₂` with the
-- failure marked, `w₃` after the delay, and `rest` the further rounds of the loop.
unfoldable pub after_attempt {ℓ} :
    {A : Type ℓ}
    → (attempt_number : ℕ) (marked : Bool) (gen : ℕ) → Option A
    → (w₁ w₂ w₃ : World) → RetryOutcome A × World
    → RetryOutcome A × World
after_attempt attempt_number marked gen (some a) w₁ w₂ w₃ rest =
    if stale gen w₁ then (gave_up false, w₁) else (landed a, unmark_failing marked w₁)
after_attempt attempt_number marked gen none w₁ w₂ w₃ rest =
    if stale gen w₁
    then (gave_up false, w₁)
    else if leb persistence_retry_max_attempts attempt_number
    then (gave_up true, w₂)
    else if stale gen w₃
    then (gave_up false, w₃)
    else rest

-- The loop of `withPersistenceRetry` from the given attempt on; the first argument is fuel.
unfoldable pub retry_loop {ℓ} :
    {A : Type ℓ} → ℕ → ℕ → Bool → ℕ → StoreCall A → World → RetryOutcome A × World
unfolding attempt_once retry_delay mark_failing after_attempt
retry_loop zero attempt_number marked gen attempt w = (gave_up true, w)
retry_loop (suc fuel) attempt_number marked gen attempt w =
    let (r, w₁) = attempt_once attempt w in
    let w₂ = mark_failing marked w₁ in
    let w₃ = retry_delay (persistence_retry_delay_ms attempt_number) w₂ in
    let rest = retry_loop fuel (attempt_number + 1) true gen attempt w₃ in
    after_attempt attempt_number marked gen r w₁ w₂ w₃ rest

-- `withPersistenceRetry`: the fuel is the bound on the attempts, so the loop ends by its own tests.
unfoldable pub with_persistence_retry {ℓ} :
    {A : Type ℓ} → ℕ → StoreCall A → World → RetryOutcome A × World
unfolding retry_loop
with_persistence_retry gen attempt w =
    retry_loop persistence_retry_max_attempts 1 false gen attempt w

-- `reportIfExhausted` after a write that gave up.
abbrev pub report_if_exhausted : Text → Bool → World → World
report_if_exhausted fact_id exhausted w =
    if exhausted
    then record w {
      emitted = domain_event_rejected fact_id reason_persistence_exhausted ∷ w.emitted;
    }
    else w

-- A store call that answers nothing.
abbrev pub answered : (Disk → Option Disk) → Disk → Option (Unit {0} × Disk)
answered f d = elim (f d) [ none ↦ none | some d' ↦ some (tt, d') ]

abbrev pub write : (Disk → Option Disk) → StoreCall (Unit {0})
write f = single (answered f)

-- `acceptDeferredFact`, which spans two databases.
abbrev pub accept_call : Text → Text → AcceptedDomainEvent → StoreCall (Unit {0})
accept_call group_id fact_id event = record {
  run = answered λ d. accept_deferred_fact d group_id fact_id event;
  torn = torn_accept group_id fact_id event;
}

abbrev pub is_landed {ℓ} : {A : Type ℓ} → RetryOutcome A → Bool
is_landed (landed a) = true
is_landed (gave_up exhausted) = false

-- A retried write together with what it reports when it gives up: `none` where it did not land.
unfoldable pub reported {ℓ} : {A : Type ℓ} → Text → RetryOutcome A × World → Flow (Option A) × World
reported fact_id (landed a, w) = (done (some a), w)
reported fact_id (gave_up exhausted, w) = (done none, report_if_exhausted fact_id exhausted w)

unfoldable pub append_fact_with_retry : ℕ → RawProtocolFactInput → Exec (Option AppendFactResult)
unfolding with_persistence_retry reported
append_fact_with_retry gen fact w =
    reported fact.id (with_persistence_retry gen (single λ d. append_fact d fact) w)

unfoldable pub append_accepted_event_with_retry : ℕ → AcceptedDomainEvent → Exec (Option (Unit {0}))
unfolding with_persistence_retry reported
append_accepted_event_with_retry gen event w =
    reported event.fact_id (with_persistence_retry gen (write λ d. append_accepted_event d event) w)

unfoldable pub accept_deferred_fact_with_retry :
    Text → ℕ → Text → AcceptedDomainEvent → Exec (Option (Unit {0}))
unfolding with_persistence_retry reported
accept_deferred_fact_with_retry group_id gen fact_id event w =
    reported fact_id (with_persistence_retry gen (accept_call group_id fact_id event) w)

-- Exhaustion is not reported here; the result says whether the ids landed.
unfoldable pub save_deferred_ids_with_retry : Text → ℕ → List Text → Exec Bool
unfolding with_persistence_retry
save_deferred_ids_with_retry group_id gen ids w =
    let (r, w') = with_persistence_retry gen (write λ d. save_deferred_ids d group_id ids) w in
    (done (is_landed r), w')

abbrev pub commit_counter : ℕ → World → World
commit_counter n w =
    if ltb w.last_committed_save_counter n then record w { last_committed_save_counter = n } else w

-- The two continuations of the first save.
abbrev pub committed : ℕ → Option (Unit {0}) × World → World
committed n (none, w) = w
committed n (some u, w) = commit_counter n w

-- `saveCheckpointResilient` up to its own promise. After a failure it starts a retry that nobody
-- waits for; each try of that is `retried_checkpoint_save`.
unfoldable pub save_checkpoint_resilient : Text → World → World
unfolding attempt_once
save_checkpoint_resilient group_id w =
    let n = w.checkpoint_save_counter + 1 in
    let w₁ = record w { checkpoint_save_counter = n } in
    committed n (attempt_once (write λ d. save_checkpoint d (build_checkpoint group_id w₁)) w₁)

unfoldable pub retried_checkpoint_save : Text → ℕ → ℕ → World → Option (Unit {0}) × World
unfolding attempt_once
retried_checkpoint_save group_id gen n w =
    if stale gen w
    then (some tt, w)
    else if leb n w.last_committed_save_counter
    then (some tt, w)
    else (let (r, w') =
          attempt_once (write λ d. save_checkpoint d (build_checkpoint group_id w)) w in
        elim r [ none ↦ (none, w') | some u ↦ (some tt, commit_counter n w') ])
