-- ===== src/Engine/Writes/Budget.antt =====
-- The bounds of the retried writes of src/engine/receive-engine.ts: the delay and the attempts.
use notestr.Prelude.{
  ℕ, zero, suc, ◌+◌, ◌*◌, ◌^◌, ◌≤◌, ◌≡◌, refl, ◌∙◌, Bool, true, false, Option, none, some, arith,
  ap,
}
use native.Mathlib.Numerals.{unary_clauses}
use notestr.Engine.World.{World}
use notestr.Engine.Writes.{
  StoreCall, RetryOutcome, persistence_retry_delay_ms, persistence_retry_base_delay_ms,
  persistence_retry_max_delay_ms, persistence_retry_max_attempts, retry_loop, after_attempt,
  with_persistence_retry, attempt_once, mark_failing, retry_delay,
}

pow-suc : (n : ℕ) → 2 ^ suc n ≡ 2 * 2 ^ n
pow-suc n = simp unary_clauses (omega arith)

power-pos : (n : ℕ) → 1 ≤ 2 ^ n
power-pos zero = omega arith
power-pos (suc n) = rw (pow-suc n) (ground (arith, power-pos n))

-- The delay before the next attempt never shrinks, is at least the base delay and at most the
-- greatest delay.
pub persistence_retry_delay_ms-bounds :
    (n : ℕ)
    → (persistence_retry_base_delay_ms ≤ persistence_retry_delay_ms n)
      × (persistence_retry_delay_ms n ≤ persistence_retry_max_delay_ms)
      × (persistence_retry_delay_ms n ≤ persistence_retry_delay_ms (n + 1))
unfolding persistence_retry_delay_ms
persistence_retry_delay_ms-bounds zero = ground arith
persistence_retry_delay_ms-bounds (suc n) = ground (arith, power-pos n, pow-suc n)

-- After the last attempt the rest of the loop is not looked at.
last_attempt :
    {A : Type 0} (n : ℕ) (marked : Bool) (gen : ℕ) (r : Option A) (w₁ w₂ w₃ : World)
    (rest rest' : RetryOutcome A × World)
    → persistence_retry_max_attempts ≤ n
    → after_attempt n marked gen r w₁ w₂ w₃ rest ≡ after_attempt n marked gen r w₁ w₂ w₃ rest'
unfolding after_attempt
last_attempt n marked gen none w₁ w₂ w₃ rest rest' h = ground arith
last_attempt n marked gen (some a) w₁ w₂ w₃ rest rest' h = refl

retry_loop-more :
    {A : Type 0} (fuel more n : ℕ) (marked : Bool) (gen : ℕ) (attempt : StoreCall A) (w : World)
    → persistence_retry_max_attempts ≤ fuel + n
    → retry_loop (suc (fuel + more)) n marked gen attempt w
      ≡ retry_loop (suc fuel) n marked gen attempt w
unfolding retry_loop
retry_loop-more zero more n marked gen attempt w h =
    last_attempt n marked gen _ _ _ _ _ _ (omega arith)
retry_loop-more (suc fuel) more n marked gen attempt w h =
    let w₁ = (attempt_once attempt w).1 in
    let w₂ = mark_failing marked w₁ in
    let w₃ = retry_delay (persistence_retry_delay_ms n) w₂ in
    let e : suc fuel + more ≡ suc (fuel + more) = omega arith in
    ap (after_attempt n marked gen (attempt_once attempt w).0 w₁ w₂ w₃) (
      ap (λ x. retry_loop x (n + 1) true gen attempt w₃) e
      ∙ retry_loop-more fuel more (n + 1) true gen attempt w₃ (omega arith))

-- The fuel of a retried write is enough: with any more of it the write ends the same way.
pub with_persistence_retry-fuel :
    {A : Type 0} (more gen : ℕ) (attempt : StoreCall A) (w : World)
    → retry_loop (persistence_retry_max_attempts + more) 1 false gen attempt w
      ≡ with_persistence_retry gen attempt w
unfolding with_persistence_retry
with_persistence_retry-fuel more gen attempt w =
    let e : persistence_retry_max_attempts + more ≡ suc (7 + more) = omega arith in
    ap (λ n. retry_loop n 1 false gen attempt w) e
    ∙ retry_loop-more 7 more 1 false gen attempt w (omega arith)
