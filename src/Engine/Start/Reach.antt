-- ===== src/Engine/Start/Reach.antt =====
-- src/engine/receive-engine.ts: where nothing disturbs the awaits, `start` reports the recovery.
use notestr.Prelude.{ℕ, ◌≡◌, true, false}
use notestr.Engine.World.{World}
use notestr.Engine.Steady.{Undisturbed, told_recovered}
use notestr.Engine.Ensures.{Ensures}

-- An early return, which does not come about here.
abbrev Never : World → Type 0
Never w = false ≡ true

-- A session whose awaits nothing disturbs.
abbrev Current : ℕ → World → Type 0
Current gen w = Undisturbed w.schedule × (w.generation ≡ gen)

-- The catch-up was counted so often.
abbrev Counted : ℕ → World → Type 0
Counted n w = w.catch_up_invocation_count ≡ n

abbrev Ready : ℕ → ℕ → World → Type 0
Ready gen n w = Current gen w × Counted n w

abbrev Arrived : ℕ → World → Type 0
Arrived gen w = Current gen w × (told_recovered w.emitted ≡ true)
