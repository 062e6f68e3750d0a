-- ===== src/Engine/Start/Routes.antt =====
-- `start` of src/engine/receive-engine.ts over the ways from it: the reads of the stores and the routing.
use notestr.Prelude.{ℕ, ◌≡◌, Text, Option, none, some}
use notestr.Engine.Types.{EngineCheckpoint, recovering}
use notestr.Engine.World.{World, alive, Exec}
use notestr.Engine.Steady.Writes.{transition_to-Leaves}
use notestr.Engine.Ensures.{
  Ensures, Stable, bind-Ensures, before, after, answer, if-Ensures, call-Ensures, modify-Ensures,
}
use notestr.Engine.Start.{
  Adapter, StartOrigin, welcome, restored, Outcome, resolved, rejected, read_stores, enter_joining,
}
use notestr.Engine.Start.Recovery.{
  Stores, load_stores, recover_from, enter_recovering, start_from_logs, start_from_checkpoint,
  join_options, start_session, is_empty_list,
}
use notestr.Engine.Start.Paths.{Settles, restore_position-Steady}
use notestr.Persistence.{load_checkpoint}

-- Where a read fails, `Failed` holds.
abbrev pub Came {ℓ} : {A : Type ℓ} → Type 0 → Option A → Type 0
Came Failed none = Failed
Came Failed (some a) = Unit

module _ (g : Text) (adapter : Adapter) (t_join_ms fuel gen : ℕ) (Fresh Over E : World → Type 0)
    (Failed : Type 0) (Final : Outcome → World → Type 0) (fresh : Stable Fresh)
    (fresh_alive : Ensures Fresh (alive gen) (λ u. Fresh) E)
    (over_final : (w : World) → Over w → Final resolved w)
    (failed_final : Failed → (w : World) → Fresh w → Final rejected w)
    (read_checkpoint : Ensures Fresh
      (read_stores (λ d. load_checkpoint d g))
      (λ o w. Came Failed o × Fresh w)
      E)
    (read_logs : Ensures Fresh (read_stores (load_stores g)) (λ o w. Came Failed o × Fresh w) E)
    (joined : Ensures Fresh (enter_joining g adapter t_join_ms fuel gen) (Settles Over) E)
    (recovered : (stores : Stores)
      → Ensures Fresh (recover_from g adapter fuel gen (some stores)) (Settles Over) E) where
  finally : {m : Exec Outcome} → Ensures Fresh m (Settles Over) E → Ensures Fresh m Final E
  finally p = after go p
    where
      go : (o : Outcome) (w : World) → Settles Over o w → Final o w
      go resolved w h = over_final w h.1
      go rejected w h = impossible h.0
        where
          impossible : rejected ≡ resolved → Final rejected w
          impossible e = cc

  recover_from-Final :
      (o : Option Stores)
      → Ensures (λ w. Came Failed o × Fresh w) (recover_from g adapter fuel gen o) Final E
  unfolding recover_from
  recover_from-Final none = answer rejected (λ w h. failed_final h.0 w h.1)
  recover_from-Final (some stores) = before (λ w h. h.1) (finally (recovered stores))

  enter_recovering-Final :
      (c : Option EngineCheckpoint) → Ensures Fresh (enter_recovering g adapter fuel gen c) Final E
  unfolding enter_recovering
  enter_recovering-Final c = bind-Ensures fresh_alive λ u.
      bind-Ensures (modify-Ensures fresh _ (restore_position-Steady c)) λ v.
        bind-Ensures (call-Ensures fresh (transition_to-Leaves g gen recovering))
          λ x. bind-Ensures fresh_alive λ y. bind-Ensures read_logs λ o. recover_from-Final o

  start_from_logs-Final :
      (o : Option Stores)
      → Ensures
          (λ w. Came Failed o × Fresh w)
          (start_from_logs g adapter t_join_ms fuel gen o)
          Final
          E
  unfolding start_from_logs
  start_from_logs-Final none = answer rejected (λ w h. failed_final h.0 w h.1)
  start_from_logs-Final (some stores) =
      before (λ w h. h.1)
        (bind-Ensures fresh_alive λ u.
          if-Ensures (is_empty_list stores.raw_log)
            (if-Ensures (is_empty_list stores.accepted_log) (finally joined)
              (enter_recovering-Final none))
            (enter_recovering-Final none))

  start_from_checkpoint-Final :
      (c : Option EngineCheckpoint)
      → Ensures Fresh (start_from_checkpoint g adapter t_join_ms fuel gen c) Final E
  unfolding start_from_checkpoint
  start_from_checkpoint-Final none = bind-Ensures read_logs λ o. start_from_logs-Final o
  start_from_checkpoint-Final (some c) =
      if-Ensures c.bootstrap_completed (enter_recovering-Final (some c)) (finally joined)

  -- What holds before the session leads to `Final` of how the session settles.
  pub start_session-Final :
      (origin : StartOrigin)
      → Ensures Fresh (start_session g adapter t_join_ms fuel gen origin) Final E
  unfolding start_session
  start_session-Final welcome = finally joined
  start_session-Final restored = bind-Ensures read_checkpoint λ o.
      before (λ w h. h.1)
        (bind-Ensures fresh_alive λ u. start_from_checkpoint-Final (join_options o))
