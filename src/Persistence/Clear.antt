-- ===== src/Persistence/Clear.antt =====
-- `clearGroupState` of src/persistence/deferred-store.ts and the crashes that can stop it.
use notestr.Prelude.{
  ◌≡◌, ◌⊎◌, inl, inr, Text, false, none, some, ◌++◌, [], same, same_refl, same-append, lit, arith,
  List, ◌∷◌, All, ap, sym, ◌∙◌, subst, Option-cases,
}
use notestr.Prelude.Dict.{IsMap, get-delete}
use notestr.Persistence.Crash.{
  Landed, no_more, lands, Crash, Crash-cases, Crash-end, Landed-cases, Landed-end, Landed-one,
  run_writes-one, some_inj,
}
use notestr.Engine.Types.{
  raw_facts_key, accepted_events_key, deferred_ids_key, engine_checkpoints_key,
}
use notestr.Persistence.{
  Disk, load_accepted_events, load_deferred_ids, load_checkpoint, stored_facts, clear_checkpoint,
  clear_raw_log, clear_accepted_log, clear_deferred_ids, clear_group_state, StoreWrite, run_writes,
  run_stages, clear_stages,
}

-- Each database holds at most one entry for a key.
pub record IsStore (d : Disk) : Type 0 where
  pub raw_facts_once : IsMap d.raw_facts
  pub accepted_events_once : IsMap d.accepted_events
  pub checkpoints_once : IsMap d.checkpoints
  pub deferred_ids_once : IsMap d.deferred_ids

checkpoint_cleared :
    (d : Disk) (g : Text) → IsStore d → load_checkpoint (clear_checkpoint g d) g ≡ none
unfolding load_checkpoint clear_checkpoint
checkpoint_cleared d g s =
    let key = engine_checkpoints_key g in
    ground (arith, get-delete key key d.checkpoints s.checkpoints_once, same_refl key)

-- The writes leave the checkpoint of the group.
abbrev Spares : Text → List StoreWrite → Type 0
Spares g ws =
    All (λ w. (d d' : Disk) → w d ≡ some d' → load_checkpoint d' g ≡ load_checkpoint d g) ws

Landed-checkpoint :
    (g : Text) (ws : List StoreWrite) (d d' : Disk)
    → Spares g ws
    → Landed ws d d'
    → load_checkpoint d' g ≡ load_checkpoint d g
Landed-checkpoint g [] d d' h l = ap (λ x. load_checkpoint x g) (Landed-end l)
Landed-checkpoint g (w ∷ ws) d d' h l = elim (Landed-cases l) [
  | inl (m, e, rest) ↦ Landed-checkpoint g ws m d' h.1 rest ∙ h.0 d m e
  | inr rest ↦ Landed-checkpoint g ws d d' h.1 rest
]

run_writes-Landed :
    (ws : List StoreWrite) (d d' : Disk) → run_writes ws d ≡ some d' → Landed ws d d'
unfolding run_writes
run_writes-Landed [] d d' e = subst (Landed [] d) (some_inj e) no_more
run_writes-Landed (w ∷ ws) d d' e = elim (Option-cases (w d)) [
  | inl n ↦ absurd (nothing (rw (n, run_writes) at e))
  | inr (m, k) ↦ lands k (run_writes-Landed ws m d' (rw (k, run_writes) at e))
]
  where
    nothing : none ≡ some d' → ⊥
    nothing p = cc

-- The three removals that run together.
abbrev rest_of : Text → List StoreWrite
rest_of g =
    (λ d. some (clear_raw_log g d))
    ∷ (λ d. some (clear_accepted_log g d))
    ∷ (λ d. some (clear_deferred_ids g d))
    ∷ []

rest-Spares : (g : Text) → Spares g (rest_of g)
unfolding load_checkpoint clear_raw_log clear_accepted_log clear_deferred_ids
rest-Spares g = (
  λ d d' e. ap (λ x. load_checkpoint x g) (sym (some_inj e)),
  (
    λ d d' e. ap (λ x. load_checkpoint x g) (sym (some_inj e)),
    (λ d d' e. ap (λ x. load_checkpoint x g) (sym (some_inj e)), tt),
  ),
)

-- A crash or a refusal in the course of the purge never leaves a checkpoint over logs that are cleared
-- in part: either nothing is cleared, or the checkpoint is gone.
pub clear_stages-Crash :
    (d : Disk) (g : Text) (d' : Disk)
    → IsStore d
    → Crash (clear_stages g) d d'
    → (d' ≡ d) ⊎ (load_checkpoint d' g ≡ none)
unfolding clear_stages
clear_stages-Crash d g d' s crash = elim (Crash-cases crash) [
  | inl l ↦ elim (Landed-one l) [
    | inl e ↦ inr (ap (λ x. load_checkpoint x g) (sym (some_inj e)) ∙ checkpoint_cleared d g s)
    | inr e ↦ inl e
  ]
  | inr (m, e, c) ↦
      let gone : load_checkpoint m g ≡ none =
        ap (λ x. load_checkpoint x g)
          (sym (some_inj (run_writes-one (λ d. some (clear_checkpoint g d)) d m e)))
        ∙ checkpoint_cleared d g s in
      inr (elim (Crash-cases c) [
        | inl l ↦ Landed-checkpoint g (rest_of g) m d' (rest-Spares g) l ∙ gone
        | inr (n, k, end) ↦
            ap (λ x. load_checkpoint x g) (Crash-end end)
            ∙ Landed-checkpoint g (rest_of g) m n (rest-Spares g)
                (run_writes-Landed (rest_of g) m n k)
            ∙ gone
      ])
]

-- After a purge that returns, every load of the group is empty.
pub clear_group_state-empty :
    (d d' : Disk) (g : Text)
    → IsStore d
    → clear_group_state g d ≡ some d'
    → (load_checkpoint d' g ≡ none)
      × (stored_facts d' g ≡ [])
      × (load_accepted_events d' g ≡ [])
      × (load_deferred_ids d' g ≡ [])
unfolding clear_group_state load_checkpoint stored_facts load_accepted_events load_deferred_ids
    clear_stages run_stages run_writes clear_checkpoint clear_raw_log clear_accepted_log
    clear_deferred_ids
clear_group_state-empty d d' g s e =
    let c = engine_checkpoints_key g in
    let r = raw_facts_key g in
    let a = accepted_events_key g in
    let i = deferred_ids_key g in
    ground (
      arith,
      get-delete c c d.checkpoints s.checkpoints_once,
      same_refl c,
      get-delete r r d.raw_facts s.raw_facts_once,
      same_refl r,
      get-delete a a d.accepted_events s.accepted_events_once,
      same_refl a,
      get-delete i i d.deferred_ids s.deferred_ids_once,
      same_refl i,
    )

-- A purge leaves the checkpoint, the logs and the deferred ids of every other group.
pub clear_group_state-other :
    (d d' : Disk) (g h : Text)
    → IsStore d
    → clear_group_state g d ≡ some d'
    → same g h ≡ false
    → (load_checkpoint d' h ≡ load_checkpoint d h)
      × (stored_facts d' h ≡ stored_facts d h)
      × (load_accepted_events d' h ≡ load_accepted_events d h)
      × (load_deferred_ids d' h ≡ load_deferred_ids d h)
unfolding clear_group_state load_checkpoint stored_facts load_accepted_events load_deferred_ids
    clear_stages run_stages run_writes clear_checkpoint clear_raw_log clear_accepted_log
    clear_deferred_ids engine_checkpoints_key raw_facts_key accepted_events_key deferred_ids_key
clear_group_state-other d d' g h s e ne = ground (
  arith,
  get-delete (lit "notestr:engine-checkpoints:" ++ g) (lit "notestr:engine-checkpoints:" ++ h)
      d.checkpoints s.checkpoints_once,
  same-append (lit "notestr:engine-checkpoints:") g h,
  get-delete (lit "notestr:raw-facts:" ++ g) (lit "notestr:raw-facts:" ++ h) d.raw_facts
      s.raw_facts_once,
  same-append (lit "notestr:raw-facts:") g h,
  get-delete (lit "notestr:accepted-events:" ++ g) (lit "notestr:accepted-events:" ++ h)
      d.accepted_events s.accepted_events_once,
  same-append (lit "notestr:accepted-events:") g h,
  get-delete (lit "notestr:deferred-ids:" ++ g) (lit "notestr:deferred-ids:" ++ h) d.deferred_ids
      s.deferred_ids_once,
  same-append (lit "notestr:deferred-ids:") g h,
)
