-- ===== src/Engine/Session/Waits.antt =====
-- The retried writes of src/engine/receive-engine.ts: what they leave alone, and when they land.
use notestr.Prelude.{
  ℕ, zero, suc, ◌+◌, ◌≡◌, refl, ◌∙◌, sym, ap, Bool, true, false, not, List, subst, Option, none,
  some, ◌⊎◌, ◌==◌, leb, arith, Bool-cases, inl, inr,
}
use notestr.Engine.Types.{EngineHealth}
use notestr.Engine.World.{
  World, pass, next_await, stale, stop_now, emit_state_changed, emit_if_changed,
  add_degradation_reason, clear_degradation_reason, later_awaits,
}
use notestr.Engine.Writes.{
  StoreCall, RetryOutcome, landed, gave_up, attempt_once, retry_delay, mark_failing, unmark_failing,
  settle, single, after_attempt, retry_loop, with_persistence_retry, persistence_retry_delay_ms,
  persistence_retry_max_attempts,
}
use notestr.Engine.Session.{announced}
use notestr.Persistence.{Disk}

-- What a wait leaves alone, the stores aside: the policy, the accepted events that were announced
-- and the watermark.
abbrev pub Calm : World → World → Type 0
Calm w w' =
    (w'.policy ≡ w.policy)
    × (announced w'.emitted ≡ announced w.emitted)
    × (w'.last_ingested_seq ≡ w.last_ingested_seq)

abbrev pub Calm-trans : (u v w : World) → Calm u v → Calm v w → Calm u w
Calm-trans u v w p q = (q.0 ∙ p.0, q.1 ∙ p.1, q.2 ∙ p.2)

abbrev pub Idle : World → World → Type 0
Idle w w' = Calm w w' × (w'.disk ≡ w.disk)

pub Idle-trans : (u v w : World) → Idle u v → Idle v w → Idle u w
Idle-trans u v w p q = (Calm-trans u v w p.0 q.0, q.1 ∙ p.1)

pub emit_if_changed-Idle : (b : EngineHealth) (w : World) → Idle w (emit_if_changed b w)
unfolding emit_if_changed emit_state_changed announced
emit_if_changed-Idle b w = ground arith

stop_now-Idle : (w : World) → Idle w (stop_now w)
unfolding stop_now emit_state_changed announced
stop_now-Idle w = ground arith

pub pass-Idle : (w : World) → Idle w (pass w)
unfolding pass
pass-Idle w = ground (
  arith,
  stop_now-Idle (record w { schedule = later_awaits w; clock = w.clock + (next_await w).elapsed }),
)

retry_delay-Idle : (ms : ℕ) (w : World) → Idle w (retry_delay ms w)
unfolding retry_delay
retry_delay-Idle ms w = ground (arith, pass-Idle w, pass-Idle (record w { clock = w.clock + ms }))

mark_failing-Idle : (b : Bool) (w : World) → Idle w (mark_failing b w)
unfolding mark_failing add_degradation_reason emit_if_changed emit_state_changed announced
mark_failing-Idle b w = ground arith

unmark_failing-Idle : (b : Bool) (w : World) → Idle w (unmark_failing b w)
unfolding unmark_failing clear_degradation_reason emit_if_changed emit_state_changed announced
unmark_failing-Idle b w = ground arith

-- What refused tries of a call can leave of the stores.
pub data Torn {ℓ} {A : Type ℓ} (attempt : StoreCall A) : Disk → Disk → Type ℓ where
  untorn : {d : Disk} → Torn attempt d d
  torn_once :
      {d d' : Disk} (flags : List Bool) → Torn attempt (attempt.torn flags d) d' → Torn attempt d d'

pub Torn-trans {ℓ} :
    {A : Type ℓ} {attempt : StoreCall A} {d e f : Disk}
    → Torn attempt d e
    → Torn attempt e f
    → Torn attempt d f
Torn-trans untorn q = q
Torn-trans (torn_once flags p) q = torn_once flags (Torn-trans p q)

-- A call of one write leaves nothing where it is refused.
pub single-Torn {ℓ} :
    {A : Type ℓ} {f : Disk → Option (A × Disk)} {d d' : Disk} → Torn (single f) d d' → d' ≡ d
single-Torn untorn = refl
single-Torn (torn_once flags p) = single-Torn p

Torn-to {ℓ} :
    {A : Type ℓ} {attempt : StoreCall A} {d e f : Disk}
    → f ≡ e
    → Torn attempt d e
    → Torn attempt d f
Torn-to {attempt = attempt} {d = d} p q = subst (Torn attempt d) (sym p) q

-- How one attempt ends.
pub data Tried {ℓ} {A : Type ℓ} (attempt : StoreCall A) (w : World)
    : Option A × World → Type ℓ where
  took :
      {a : A} {w' : World}
      → attempt.run w.disk ≡ some (a, w'.disk)
      → Calm w w'
      → Tried attempt w (some a, w')
  failed : {w' : World} → Calm w w' → Torn attempt w.disk w'.disk → Tried attempt w (none, w')

pub attempt_once-Tried {ℓ} :
    {A : Type ℓ} (attempt : StoreCall A) (w : World) → Tried attempt w (attempt_once attempt w)
unfolding attempt_once settle
attempt_once-Tried {A = A} attempt w = go (next_await w).fails (attempt.run w.disk) refl
  where
    flags : List Bool
    flags = (next_await w).torn

    t : Disk
    t = attempt.torn flags w.disk

    go :
        (b : Bool) (r : Option (A × Disk))
        → attempt.run w.disk ≡ r
        → Tried attempt w (settle b t r w)
    go true r e =
        failed (pass-Idle (record w { disk = t })).0
          (Torn-to (pass-Idle (record w { disk = t })).1 (torn_once flags untorn))
    go false none e = failed (pass-Idle w).0 (Torn-to (pass-Idle w).1 untorn)
    go false (some (a, d)) e =
        took (e ∙ ap (λ x. some (a, x)) (sym (pass-Idle (record w { disk = d })).1))
          (pass-Idle (record w { disk = d })).0

-- How a retried write ends: it lands with the result and the disk of a call on what the refused tries
-- before it left, in a session that is still current; it gives up with what the refused tries left; or
-- the session has ended.
pub data Retried {ℓ} {A : Type ℓ} (gen : ℕ) (attempt : StoreCall A) (w : World)
    : RetryOutcome A × World → Type ℓ where
  wrote :
      {a : A} {w' : World} {d : Disk}
      → Torn attempt w.disk d
      → attempt.run d ≡ some (a, w'.disk)
      → stale gen w' ≡ false
      → Calm w w'
      → Retried gen attempt w (landed a, w')
  refused :
      {w' : World}
      → Calm w w'
      → Torn attempt w.disk w'.disk
      → Retried gen attempt w (gave_up true, w')
  abandoned :
      {w' : World}
      → stale gen w' ≡ true
      → Torn attempt w.disk w'.disk
        ⊎ ((a : A) × (d : Disk) × Torn attempt w.disk d × (attempt.run d ≡ some (a, w'.disk)))
      → Calm w w'
      → Retried gen attempt w (gave_up false, w')

unmark_failing-generation : (b : Bool) (w : World) → (unmark_failing b w).generation ≡ w.generation
unfolding unmark_failing clear_degradation_reason emit_if_changed emit_state_changed
unmark_failing-generation b w = ground arith

took-landed {ℓ} :
    {A : Type ℓ} (marked : Bool) (gen : ℕ) (attempt : StoreCall A) (w w₁ : World) (a : A)
    → attempt.run w.disk ≡ some (a, w₁.disk)
    → Calm w w₁
    → stale gen w₁ ≡ false
    → Retried gen attempt w (landed a, unmark_failing marked w₁)
took-landed marked gen attempt w w₁ a e c current =
    wrote untorn (e ∙ ap (λ x. some (a, x)) (sym (unmark_failing-Idle marked w₁).1))
      (ap (λ x. not (gen == x)) (unmark_failing-generation marked w₁) ∙ current)
      (Calm-trans w w₁ (unmark_failing marked w₁) c (unmark_failing-Idle marked w₁).0)

-- The world `w₃` after a failed attempt and its delay is where the rest of the loop starts.
after_attempt-Retried {ℓ} :
    {A : Type ℓ} (n : ℕ) (marked : Bool) (gen : ℕ) (attempt : StoreCall A) (w : World)
    (r : Option A) (w₁ w₂ w₃ : World) (rest : RetryOutcome A × World)
    → Tried attempt w (r, w₁)
    → Idle w₁ w₂
    → Idle w₂ w₃
    → (Calm w w₃ → Torn attempt w.disk w₃.disk → Retried gen attempt w rest)
    → Retried gen attempt w (after_attempt n marked gen r w₁ w₂ w₃ rest)
unfolding after_attempt
after_attempt-Retried n marked gen attempt w r w₁ w₂ w₃ rest (took {a = a} e c) p q h =
    elim (Bool-cases (stale gen w₁)) [
      | inl s ↦ rw s (abandoned s (inr (a, w.disk, untorn, e)) c)
      | inr s ↦ rw s (took-landed marked gen attempt w w₁ a e c s)
    ]
after_attempt-Retried n marked gen attempt w r w₁ w₂ w₃ rest (failed i t) p q h =
    elim (Bool-cases (stale gen w₁)) [
      | inl s ↦ rw s (abandoned s (inl t) i)
      | inr s ↦ elim (Bool-cases (leb persistence_retry_max_attempts n)) [
        | inl m ↦ rw (s, m) (refused (Calm-trans w w₁ w₂ i p.0) (Torn-to p.1 t))
        | inr m ↦
            let j = Calm-trans w w₂ w₃ (Calm-trans w w₁ w₂ i p.0) q.0 in
            let u = Torn-to q.1 (Torn-to p.1 t) in
            elim (Bool-cases (stale gen w₃)) [
              | inl k ↦ rw (s, m, k) (abandoned k (inl u) j)
              | inr k ↦ rw (s, m, k) (h j u)
            ]
      ]
    ]

Retried-from {ℓ} :
    {A : Type ℓ} (gen : ℕ) (attempt : StoreCall A) (w w₃ : World) (r : RetryOutcome A × World)
    → Calm w w₃
    → Torn attempt w.disk w₃.disk
    → Retried gen attempt w₃ r
    → Retried gen attempt w r
Retried-from gen attempt w w₃ r i t (wrote {w' = w'} u e s c) =
    wrote (Torn-trans t u) e s (Calm-trans w w₃ w' i c)
Retried-from gen attempt w w₃ r i t (refused {w' = w'} j u) =
    refused (Calm-trans w w₃ w' i j) (Torn-trans t u)
Retried-from gen attempt w w₃ r i t (abandoned {w' = w'} s (inl u) c) =
    abandoned s (inl (Torn-trans t u)) (Calm-trans w w₃ w' i c)
Retried-from gen attempt w w₃ r i t (abandoned {w' = w'} s (inr (a, d, u, e)) c) =
    abandoned s (inr (a, d, Torn-trans t u, e)) (Calm-trans w w₃ w' i c)

retry_loop-Retried {ℓ} :
    {A : Type ℓ} (fuel n : ℕ) (marked : Bool) (gen : ℕ) (attempt : StoreCall A) (w : World)
    → Retried gen attempt w (retry_loop fuel n marked gen attempt w)
unfolding retry_loop
retry_loop-Retried zero n marked gen attempt w = refused (refl, refl, refl) untorn
retry_loop-Retried (suc fuel) n marked gen attempt w =
    let (r, w₁) = attempt_once attempt w in
    let w₂ = mark_failing marked w₁ in
    let w₃ = retry_delay (persistence_retry_delay_ms n) w₂ in
    after_attempt-Retried n marked gen attempt w r w₁ w₂ w₃
      (retry_loop fuel (n + 1) true gen attempt w₃) (attempt_once-Tried attempt w)
      (mark_failing-Idle marked w₁) (retry_delay-Idle (persistence_retry_delay_ms n) w₂)
      (λ i t.
        Retried-from gen attempt w w₃ _ i t (retry_loop-Retried fuel (n + 1) true gen attempt w₃))

-- A retried write lands with the result and the disk of one whole call, in a session that is still
-- current; or it gives up; or the session has ended, with at most one whole call made. What the refused
-- tries leave of the stores, before the whole call or in its place, is what the call leaves where it
-- stops between its writes, and nothing else is written. In each case the policy, the announced events
-- and the watermark are untouched.
pub with_persistence_retry-Retried {ℓ} :
    {A : Type ℓ} (gen : ℕ) (attempt : StoreCall A) (w : World)
    → Retried gen attempt w (with_persistence_retry gen attempt w)
unfolding with_persistence_retry
with_persistence_retry-Retried gen attempt w =
    retry_loop-Retried persistence_retry_max_attempts 1 false gen attempt w
