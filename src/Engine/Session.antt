-- ===== src/Engine/Session.antt =====
-- What one session of the receive engine promises about the events that it announces.
pub mod Waits
pub mod Triples
pub mod Writes
pub mod Once
pub mod Local
pub mod Jobs
pub mod Passes
pub mod Rounds
pub mod Cutover
pub mod Start
pub mod Recovery
use notestr.Prelude.{◌≡◌, Text, Bool, true, false, List, [], ◌∷◌, any, same}
use notestr.Engine.Types.{EngineOutputEvent, domain_event_accepted}
use notestr.Engine.Policy.{has_processed}
use notestr.Engine.World.{World, Flow, done, returned, Exec}
use notestr.Persistence.Crash.{IsAccepted}

-- The ids of the accepted events that the listeners were told of, the newest first.
unfoldable pub announced : List EngineOutputEvent → List Text
announced [] = []
announced (domain_event_accepted event ∷ es) = event.id ∷ announced es
announced (e ∷ es) = announced es

-- No id stands twice in the list.
abbrev pub Once : List Text → Type 0
Once [] = Unit {0}
Once (id ∷ ids) = (any (λ i. same i id) ids ≡ false) × Once ids

-- No event is announced twice, what is announced is known, and what is known is stored.
pub record IsSession (g : Text) (w : World) : Type 0 where
  pub once : Once (announced w.emitted)
  pub known :
      (id : Text)
      → any (λ i. same i id) (announced w.emitted) ≡ true
      → has_processed w.policy id ≡ true
  pub stored : (id : Text) → has_processed w.policy id ≡ true → IsAccepted w.disk g id

-- How a call ends: with `Q` of its result, or early, as a session.
abbrev pub Ends {ℓ} : {A : Type ℓ} → Text → (A → World → Type 0) → Flow A × World → Type 0
Ends g Q (done a, w) = Q a w
Ends g Q (returned, w) = IsSession g w

pub record Triple {ℓ} {A : Type ℓ} (g : Text) (P : World → Type 0) (m : Exec A)
    (Q : A → World → Type 0) : Type 0 where
  pub run : (w : World) → P w → Ends g Q (m w)
