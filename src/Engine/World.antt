-- ===== src/Engine/World.antt =====
-- The state of src/engine/receive-engine.ts with the stores behind it, and the actions on it.
-- Between two awaits the engine runs alone. What happens during an await is taken from `schedule`,
-- one item for each: whether the database refuses the write, whether stop() is called, and how much
-- time passes. The engine's session is the closure of `createReceiveEngine`; its timers and the
-- adapter's handles are not part of it.
use notestr.Prelude.{
  ℕ, ◌+◌, Text, Bool, true, false, not, ◌||◌, Option, List, [], ◌∷◌, ◌==◌, ltb, if◌then◌else◌,
}
use notestr.Engine.Types.{
  EngineLifecycleState, uninitialized, catching_up, buffering_live, live, retrying_deferred,
  stopped, EngineHealth, nominal, degraded, EngineState, EngineOutputEvent, engine_state_changed,
  EngineCheckpoint,
}
use notestr.Engine.Policy.{IngestPolicy}
use notestr.Persistence.{Disk}

pub record Await : Type 0 where
  pub fails : Bool
  -- Which writes of a refused call have landed.
  pub torn : List Bool
  pub stops : Bool
  pub elapsed : ℕ

-- An await during which nothing happens, as all are once the schedule has run out.
abbrev pub quiet : Await
quiet = record { fails = false; torn = []; stops = false; elapsed = 0 }

-- The set of degradation reasons.
pub record Degradation : Type 0 where
  pub bootstrap_unresolved : Bool
  pub preserve_and_replay_recovery : Bool
  pub persistence_write_failing : Bool

abbrev pub no_degradation : Degradation
no_degradation = record {
  bootstrap_unresolved = false;
  preserve_and_replay_recovery = false;
  persistence_write_failing = false;
}

pub data DegradationReason : Type 0 where
  bootstrap_unresolved preserve_and_replay_recovery persistence_write_failing : DegradationReason

pub record World : Type 0 where
  pub lifecycle : EngineLifecycleState
  pub degradation : Degradation
  pub last_epoch : Option Text
  pub last_ingested_seq : ℕ
  pub last_accepted_domain_event_id : Option Text
  pub bootstrap_completed : Bool
  pub pending_deferred_retry : Bool
  pub catch_up_invocation_count : ℕ
  pub start_in_flight : Bool
  pub generation : ℕ
  pub active_persistence_failures : ℕ
  pub checkpoint_save_counter : ℕ
  pub last_committed_save_counter : ℕ
  pub policy : IngestPolicy
  pub disk : Disk
  -- What the listeners were told, the newest first.
  pub emitted : List EngineOutputEvent
  pub clock : ℕ
  pub schedule : List Await

-- A call of an async function ends with its result or by an early `return;`.
pub data Flow {ℓ} (A : Type ℓ) : Type ℓ where
  done : A → Flow A
  returned : Flow A

abbrev pub Exec {ℓ} : Type ℓ → Type ℓ
Exec A = World → Flow A × World

abbrev pub proceed {ℓ κ} :
    {A : Type ℓ} {B : Type κ} → Flow A → (A → World → Flow B × World) → World → Flow B × World
proceed (done a) f w = f a w
proceed returned f w = (returned, w)

infixl 10 ◌>>=◌ ◌>>◌
unfoldable pub ◌>>=◌ {ℓ κ} : {A : Type ℓ} {B : Type κ} → Exec A → (A → Exec B) → Exec B
◌>>=◌ m f w = let (r, w') = m w in proceed r f w'

abbrev pub ◌>>◌ {ℓ κ} : {A : Type ℓ} {B : Type κ} → Exec A → Exec B → Exec B
m >> n = m >>= λ _. n

abbrev pub pure {ℓ} : {A : Type ℓ} → A → Exec A
pure a w = (done a, w)

-- `return;`
abbrev pub return_now {ℓ} : {A : Type ℓ} → Exec A
return_now w = (returned, w)

abbrev pub gets {ℓ} : {A : Type ℓ} → (World → A) → Exec A
gets f w = (done (f w), w)

abbrev pub modify : (World → World) → Exec (Unit {0})
modify f w = (done tt, f w)

-- A caller goes on after a call, whichever way it ended.
abbrev pub call : Exec (Unit {0}) → Exec (Unit {0})
call m w = let (r, w') = m w in (done tt, w')

abbrev pub emit : EngineOutputEvent → Exec (Unit {0})
emit e = modify λ w. record w { emitted = e ∷ w.emitted }

-- `gen !== generation`.
abbrev pub stale : ℕ → World → Bool
stale gen w = not (gen == w.generation)

-- `if (gen !== generation) return;`
abbrev pub alive : ℕ → Exec (Unit {0})
alive gen w = if stale gen w then (returned, w) else (done tt, w)

-- `ACTIVE_LIFECYCLES.has(lifecycle)`.
abbrev pub is_active : EngineLifecycleState → Bool
is_active catching_up = true
is_active buffering_live = true
is_active live = true
is_active retrying_deferred = true
is_active _ = false

-- `degradationReasons.size > 0`.
abbrev pub is_degraded : Degradation → Bool
is_degraded d =
    d.bootstrap_unresolved || (d.preserve_and_replay_recovery || d.persistence_write_failing)

unfoldable pub health : World → EngineHealth
health w =
    if is_active w.lifecycle
    then (if is_degraded w.degradation then degraded else nominal)
    else nominal

unfoldable pub get_state : World → EngineState
unfolding health
get_state w = record { lifecycle = w.lifecycle; health = health w }

-- `emitStateChanged` on the world that it reports.
unfoldable pub emit_state_changed : World → World
unfolding health
emit_state_changed w = record w {
  emitted = engine_state_changed w.lifecycle (health w) ∷ w.emitted;
}

abbrev pub is_nominal : EngineHealth → Bool
is_nominal nominal = true
is_nominal degraded = false

-- `if (health() !== before) emitStateChanged();`
unfoldable pub emit_if_changed : EngineHealth → World → World
unfolding health emit_state_changed
emit_if_changed before w =
    if is_nominal before
    then (if is_nominal (health w) then w else emit_state_changed w)
    else if is_nominal (health w)
    then emit_state_changed w
    else w

abbrev pub set_reason : DegradationReason → Bool → Degradation → Degradation
set_reason bootstrap_unresolved b d = record d { bootstrap_unresolved = b }
set_reason preserve_and_replay_recovery b d = record d { preserve_and_replay_recovery = b }
set_reason persistence_write_failing b d = record d { persistence_write_failing = b }

unfoldable pub add_degradation_reason : DegradationReason → World → World
unfolding emit_if_changed
add_degradation_reason reason w =
    emit_if_changed (health w) (record w { degradation = set_reason reason true w.degradation })

unfoldable pub clear_degradation_reason : DegradationReason → World → World
unfolding emit_if_changed
clear_degradation_reason reason w =
    emit_if_changed (health w) (record w { degradation = set_reason reason false w.degradation })

-- `lifecycle === "stopped" || lifecycle === "uninitialized"`.
abbrev pub is_halted : EngineLifecycleState → Bool
is_halted stopped = true
is_halted uninitialized = true
is_halted _ = false

-- What `stop` does before its first await: the bump of the generation makes every continuation of
-- the session stale.
unfoldable pub stop_now : World → World
unfolding emit_state_changed
stop_now w =
    if is_halted w.lifecycle
    then w
    else emit_state_changed (record w {
      generation = w.generation + 1;
      active_persistence_failures = 0;
      lifecycle = stopped;
      degradation = no_degradation;
    })

abbrev pub next_await : World → Await
next_await w = elim w.schedule [ [] ↦ quiet | a ∷ rest ↦ a ]

abbrev pub later_awaits : World → List Await
later_awaits w = elim w.schedule [ [] ↦ [] | a ∷ rest ↦ rest ]

-- The end of an await.
unfoldable pub pass : World → World
unfolding stop_now
pass w =
    let a = next_await w in
    let w' = record w { schedule = later_awaits w; clock = w.clock + a.elapsed } in
    if a.stops then stop_now w' else w'

-- `buildCheckpoint`.
unfoldable pub build_checkpoint : Text → World → EngineCheckpoint
build_checkpoint group_id w = record {
  group_id = group_id;
  saved_at = w.clock;
  engine_state = w.lifecycle;
  last_epoch = w.last_epoch;
  last_ingested_seq = w.last_ingested_seq;
  last_accepted_domain_event_id = w.last_accepted_domain_event_id;
  bootstrap_completed = w.bootstrap_completed;
}

-- `advanceWatermark`.
abbrev pub advance_watermark : ℕ → Exec (Unit {0})
advance_watermark seq =
    modify λ w. if ltb w.last_ingested_seq seq then record w { last_ingested_seq = seq } else w

abbrev pub set_policy : (IngestPolicy → IngestPolicy) → Exec (Unit {0})
set_policy f = modify λ w. record w { policy = f w.policy }
