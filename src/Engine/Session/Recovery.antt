-- ===== src/Engine/Session/Recovery.antt =====
-- The recovery of src/engine/receive-engine.ts makes a session of what the stores hold.
use notestr.Prelude.{◌≡◌, Text, Option, none, some}
use notestr.Prelude.Dict.{Dict}
use notestr.Engine.World.{World}
use notestr.Engine.Session.Passes.{At}
use notestr.Engine.Start.Recovery.{Stores}
use notestr.Persistence.{load_accepted_events}

module _ (g : Text) where
  -- The stores that were read are those of the disk.
  abbrev Read : Option Stores → World → Type 0
  Read none w = At g w
  Read (some stores) w = At g w × (load_accepted_events w.disk g ≡ stores.accepted_log)
