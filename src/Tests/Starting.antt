-- ===== src/Tests/Starting.antt =====
-- The start of a session on concrete data.
use notestr.Prelude.{◌≡◌, refl, lit, true, false, [], ◌∷◌, map}
use notestr.Engine.Types.{deferred, epoch_advanced, unreadable, uninitialized, stopped}
use notestr.Engine.World.{World, quiet}
use notestr.Engine.Serial.{on_signal, run_jobs}
use notestr.Engine.Start.{Adapter}
use notestr.Engine.Start.Recovery.{stop}
use notestr.Engine.Start.Stop.{stop-silences}
use notestr.Tests.{group}
use notestr.Tests.Stores.{input_of}
use notestr.Tests.Sessions.{busy_world, first_message, unreadable_again}

-- The timer of the bootstrap fetch is due before its first signal.
abbrev fresh_world : World
fresh_world = record busy_world {
  lifecycle = uninitialized;
  bootstrap_completed = false;
  generation = 0;
  schedule = quiet ∷ record quiet { elapsed = 9000 } ∷ [];
}

abbrev one_message : Adapter
one_message = record {
  fetch_bootstrap = record { signals = first_message ∷ []; throws = true };
  catch_up = record {
    signals = first_message ∷ epoch_advanced (lit "2") (lit "1") ∷ [];
    throws = false;
  };
  live_buffer = deferred (input_of (lit "f2")) unreadable (lit "2") ∷ [];
  ingest_persisted = unreadable_again;
}

stop-silences_example :
    ((stop group busy_world).lifecycle ≡ stopped)
    × (run_jobs group unreadable_again 3
          (map (λ s. on_signal s busy_world.generation) (first_message ∷ []))
          (stop group busy_world)
        ≡ stop group busy_world)
stop-silences_example = stop-silences group unreadable_again 3 (first_message ∷ []) busy_world refl
