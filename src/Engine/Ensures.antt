-- ===== src/Engine/Ensures.antt =====
-- Postconditions of the actions of src/engine/receive-engine.ts: one for an action that goes on, one for
-- an early return.
use notestr.Prelude.{◌≡◌, ℕ, Bool, true, false, if◌then◌else◌, arith}
use notestr.Engine.World.{
  World, Exec, Flow, done, returned, proceed, ◌>>=◌, pure, gets, modify, call, alive, stale,
}
use notestr.Engine.Handlers.{when}
use notestr.Engine.Steady.{Steady, Leaves}

abbrev pub Ended {ℓ} :
    {A : Type ℓ} → (A → World → Type 0) → (World → Type 0) → Flow A × World → Type 0
Ended Q E (done a, w) = Q a w
Ended Q E (returned, w) = E w

pub record Ensures {ℓ} {A : Type ℓ} (P : World → Type 0) (m : Exec A) (Q : A → World → Type 0)
    (E : World → Type 0) : Type 0 where
  pub run : (w : World) → P w → Ended Q E (m w)

-- A predicate that no steady action takes away.
abbrev pub Stable : (World → Type 0) → Type 0
Stable P = (u v : World) → Steady u v → P u → P v

pub bind-Ensures {ℓ κ} :
    {A : Type ℓ} {B : Type κ} {P E : World → Type 0} {Q : A → World → Type 0}
    {R : B → World → Type 0} {m : Exec A} {f : A → Exec B}
    → Ensures P m Q E
    → ((a : A) → Ensures (Q a) (f a) R E)
    → Ensures P (m >>= f) R E
unfolding ◌>>=◌
bind-Ensures {A = A} {B = B} {E = E} {Q = Q} {R = R} {m = m} {f = f} p q = record {
  run = λ w h. go (m w) (p.run w h);
}
  where
    go : (r : Flow A × World) → Ended Q E r → Ended R E (proceed r.0 f r.1)
    go (done a, w) h = (q a).run w h
    go (returned, w) h = h

pub before {ℓ} :
    {A : Type ℓ} {P P' E : World → Type 0} {Q : A → World → Type 0} {m : Exec A}
    → ((w : World) → P w → P' w)
    → Ensures P' m Q E
    → Ensures P m Q E
before h p = record { run = λ w x. p.run w (h w x) }

pub after {ℓ} :
    {A : Type ℓ} {P E : World → Type 0} {Q Q' : A → World → Type 0} {m : Exec A}
    → ((a : A) (w : World) → Q a w → Q' a w)
    → Ensures P m Q E
    → Ensures P m Q' E
after {A = A} {P = P} {E = E} {Q = Q} {Q' = Q'} {m = m} h p = record {
  run = λ w x. go (m w) (p.run w x);
}
  where
    go : (r : Flow A × World) → Ended Q E r → Ended Q' E r
    go (done a, w) x = h a w x
    go (returned, w) x = x

pub answer {ℓ} :
    {A : Type ℓ} {P E : World → Type 0} {Q : A → World → Type 0} (a : A)
    → ((w : World) → P w → Q a w)
    → Ensures P (pure a) Q E
answer a h = record { run = h }

pub if-Ensures {ℓ} :
    {A : Type ℓ} {P E : World → Type 0} {Q : A → World → Type 0} (b : Bool) {m n : Exec A}
    → Ensures P m Q E
    → Ensures P n Q E
    → Ensures P (if b then m else n) Q E
if-Ensures true p q = p
if-Ensures false p q = q

pub when-Ensures :
    {P E : World → Type 0} (b : Bool) {m : Exec (Unit {0})}
    → Ensures P m (λ u. P) E
    → Ensures P (when b m) (λ u. P) E
when-Ensures b p = if-Ensures b p (record { run = λ w h. h })

-- A test that fails only where an early return may come.
pub alive-early :
    {P E : World → Type 0} (gen : ℕ) → ((w : World) → P w → E w) → Ensures P (alive gen) (λ u. P) E
alive-early {P = P} {E = E} gen h = record { run = λ w x. go w x (stale gen w) }
  where
    go :
        (w : World)
        → P w
        → (b : Bool)
        → Ended
            (λ (u : Unit {0}). P)
            E
            (if◌then◌else◌ {A = Flow (Unit {0}) × World} b (returned, w) (done tt, w))
    go w x true = h w x
    go w x false = x

-- A test of the generation that is current.
pub alive-current :
    {P E : World → Type 0} (gen : ℕ)
    → ((w : World) → P w → w.generation ≡ gen)
    → Ensures P (alive gen) (λ u. P) E
alive-current {P = P} {E = E} gen h = record { run = λ w x. rw (current w (h w x)) x }
  where
    current : (w : World) → w.generation ≡ gen → stale gen w ≡ false
    current w e = ground arith

module _ {P E : World → Type 0} (stable : Stable P) where
  pub call-Ensures : {m : Exec (Unit {0})} → Leaves m → Ensures P (call m) (λ u. P) E
  call-Ensures {m = m} p = record { run = λ w x. stable w (m w).1 (p.run w) x }

  pub modify-Ensures :
      (f : World → World) → ((w : World) → Steady w (f w)) → Ensures P (modify f) (λ u. P) E
  modify-Ensures f h = record { run = λ w x. stable w (f w) (h w) x }

pub gets-Ensures {ℓ} :
    {A : Type ℓ} {P E : World → Type 0} (f : World → A) → Ensures P (gets f) (λ a. P) E
gets-Ensures f = record { run = λ w x. x }
