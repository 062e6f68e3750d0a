-- ===== src/Engine/Steady.antt =====
-- What the handlers of src/engine/receive-engine.ts leave alone: the count of the catch-ups, and, where
-- nothing disturbs the awaits, the generation; and that an announced `recovered` stays announced.
pub mod Writes
pub mod Handlers
pub mod Retry
use notestr.Prelude.{
  ◌≡◌, refl, ◌∙◌, ℕ, ◌+◌, Bool, true, false, List, [], ◌∷◌, arith, if◌then◌else◌, Bool-cases, inl,
  inr,
}
use notestr.Engine.Types.{EngineOutputEvent, recovered}
use notestr.Engine.Policy.{IngestPolicy}
use notestr.Engine.World.{
  World, Await, Exec, Flow, done, returned, proceed, ◌>>=◌, ◌>>◌, pure, return_now, gets, modify,
  call, alive, stale, advance_watermark, set_policy,
}
use notestr.Prelude.{ltb}

-- Whether the listeners were told that the engine has caught up.
unfoldable pub told_recovered : List EngineOutputEvent → Bool
told_recovered [] = false
told_recovered (recovered ∷ es) = true
told_recovered (e ∷ es) = told_recovered es

-- No await of the schedule fails or sees a `stop`; time may pass.
abbrev pub Undisturbed : List Await → Type 0
Undisturbed [] = Unit
Undisturbed (a ∷ awaits) = (a.fails ≡ false) × (a.stops ≡ false) × Undisturbed awaits

pub record Steady (w w' : World) : Type 0 where
  pub counted : w'.catch_up_invocation_count ≡ w.catch_up_invocation_count
  pub quiet : Undisturbed w.schedule → Undisturbed w'.schedule × (w'.generation ≡ w.generation)
  pub told : told_recovered w.emitted ≡ true → told_recovered w'.emitted ≡ true

pub Steady-refl : (w : World) → Steady w w
Steady-refl w = record { counted = refl; quiet = λ h. (h, refl); told = λ h. h }

pub Steady-trans : (u v w : World) → Steady u v → Steady v w → Steady u w
Steady-trans u v w p q = record {
  counted = q.counted ∙ p.counted;
  quiet = λ h. let a = p.quiet h in let b = q.quiet a.0 in (b.0, b.1 ∙ a.1);
  told = λ h. q.told (p.told h);
}

-- An action that leaves these alone from every world.
pub record Leaves {ℓ} {A : Type ℓ} (m : Exec A) : Type 0 where
  pub run : (w : World) → Steady w (m w).1

pub bind-Leaves {ℓ κ} :
    {A : Type ℓ} {B : Type κ} {m : Exec A} {f : A → Exec B}
    → Leaves m
    → ((a : A) → Leaves (f a))
    → Leaves (m >>= f)
unfolding ◌>>=◌
bind-Leaves {A = A} {B = B} {m = m} {f = f} p q = record { run = λ w. go w (m w) (p.run w) }
  where
    go : (w : World) (r : Flow A × World) → Steady w r.1 → Steady w (proceed r.0 f r.1).1
    go w (done a, v) s = Steady-trans w v (f a v).1 s ((q a).run v)
    go w (returned, v) s = s

pub call-Leaves : {m : Exec (Unit {0})} → Leaves m → Leaves (call m)
call-Leaves p = record { run = λ w. p.run w }

pub modify-Leaves : (f : World → World) → ((w : World) → Steady w (f w)) → Leaves (modify f)
modify-Leaves f h = record { run = h }

pub gets-Leaves {ℓ} : {A : Type ℓ} (f : World → A) → Leaves (gets f)
gets-Leaves f = record { run = λ w. Steady-refl w }

pub pure-Leaves {ℓ} : {A : Type ℓ} (a : A) → Leaves (pure a)
pure-Leaves a = record { run = λ w. Steady-refl w }

pub return-Leaves {ℓ} : {A : Type ℓ} → Leaves (return_now {A = A})
return-Leaves = record { run = λ w. Steady-refl w }

pub alive-Leaves : (gen : ℕ) → Leaves (alive gen)
alive-Leaves gen = record { run = λ w. go w (stale gen w) }
  where
    go :
        (w : World) (b : Bool)
        → Steady w (if◌then◌else◌ {A = Flow (Unit {0}) × World} b (returned, w) (done tt, w)).1
    go w true = Steady-refl w
    go w false = Steady-refl w

pub if-Leaves {ℓ} :
    {A : Type ℓ} (b : Bool) {m n : Exec A} → Leaves m → Leaves n → Leaves (if b then m else n)
if-Leaves true p q = p
if-Leaves false p q = q

pub set_policy-Leaves : (f : IngestPolicy → IngestPolicy) → Leaves (set_policy f)
set_policy-Leaves f = record {
  run = λ w. record { counted = refl; quiet = λ h. (h, refl); told = λ h. h };
}

pub advance_watermark-Leaves : (seq : ℕ) → Leaves (advance_watermark seq)
advance_watermark-Leaves seq = record { run = λ w. go w (ltb w.last_ingested_seq seq) }
  where
    go : (w : World) (b : Bool) → Steady w (if b then record w { last_ingested_seq = seq } else w)
    go w true = record { counted = refl; quiet = λ h. (h, refl); told = λ h. h }
    go w false = Steady-refl w
