-- ===== src/Domain/Projector/Phases.antt =====
-- `replayOrder`: which order it gives, and what it means for a projection that is kept up to date
-- event by event.
use notestr.Prelude.{
  ◌≡◌, ◌≢◌, refl, ap, ◌∙◌, Bool, true, false, List, [], ◌∷◌, ◌++◌, arith, All, some, keep,
  keep-append, append-nil, append_assoc, same_refl, same_iff,
}
use notestr.Prelude.Dict.{get, has, set}
use notestr.Domain.Events.{Task, AcceptedDomainEvent, mls_rumor, bootstrap_kind_30078, task_created}
use notestr.Domain.Projector.{
  TaskProjection, insert_by_phase, replay_order, apply_event, fold_events, build_projection,
  empty_projection,
}

abbrev pub is_bootstrap : AcceptedDomainEvent → Bool
is_bootstrap e = elim e.source_kind [ bootstrap_kind_30078 ↦ true | mls_rumor ↦ false ]

abbrev pub is_mls : AcceptedDomainEvent → Bool
is_mls e = elim e.source_kind [ bootstrap_kind_30078 ↦ false | mls_rumor ↦ true ]

abbrev IsMls : AcceptedDomainEvent → Type 0
IsMls e = e.source_kind ≡ mls_rumor

abbrev IsBootstrap : AcceptedDomainEvent → Type 0
IsBootstrap e = e.source_kind ≡ bootstrap_kind_30078

insert_bootstrap :
    (e : AcceptedDomainEvent) (xs : List AcceptedDomainEvent)
    → IsBootstrap e
    → insert_by_phase e xs ≡ e ∷ xs
unfolding insert_by_phase
insert_bootstrap e [] h = refl
insert_bootstrap e (x ∷ xs) h = ground arith

insert_mls :
    (e : AcceptedDomainEvent) (bs ms : List AcceptedDomainEvent)
    → IsMls e
    → All IsBootstrap bs
    → All IsMls ms
    → insert_by_phase e (bs ++ ms) ≡ bs ++ e ∷ ms
unfolding insert_by_phase
insert_mls e [] [] h hb hm = refl
insert_mls e [] (m ∷ ms) h hb hm = ground (arith, hm.0)
insert_mls e (b ∷ bs) ms h hb hm = ground (arith, hb.0, insert_mls e bs ms h hb.1 hm)

keep-IsBootstrap : (es : List AcceptedDomainEvent) → All IsBootstrap (keep is_bootstrap es)
unfolding keep
keep-IsBootstrap [] = tt
keep-IsBootstrap (e ∷ es) = ground (arith, keep-IsBootstrap es)

keep-IsMls : (es : List AcceptedDomainEvent) → All IsMls (keep is_mls es)
unfolding keep
keep-IsMls [] = tt
keep-IsMls (e ∷ es) = ground (arith, keep-IsMls es)

-- The replay order is the bootstrap events followed by the MLS events, each part in the order of
-- the log.
pub replay_order-keep :
    (es : List AcceptedDomainEvent) → replay_order es ≡ keep is_bootstrap es ++ keep is_mls es
unfolding replay_order keep
replay_order-keep [] = refl
replay_order-keep (e ∷ es) =
    ap (insert_by_phase e) (replay_order-keep es)
    ∙ ground (
      arith,
      insert_bootstrap e (keep is_bootstrap es ++ keep is_mls es),
      insert_mls e (keep is_bootstrap es) (keep is_mls es),
      keep-IsBootstrap es,
      keep-IsMls es,
    )

pub fold_events-append :
    (p : TaskProjection) (es fs : List AcceptedDomainEvent)
    → fold_events p (es ++ fs) ≡ fold_events (fold_events p es) fs
unfolding fold_events
fold_events-append p [] fs = refl
fold_events-append p (e ∷ es) fs = fold_events-append (apply_event p e) es fs

replay_order-append_mls :
    (es : List AcceptedDomainEvent) (e : AcceptedDomainEvent)
    → IsMls e
    → replay_order (es ++ e ∷ []) ≡ replay_order es ++ e ∷ []
replay_order-append_mls es e h =
    rw
      (
        replay_order-keep (es ++ e ∷ []),
        replay_order-keep es,
        keep-append is_bootstrap es (e ∷ []),
        keep-append is_mls es (e ∷ []),
      )
      (unfold keep in
        ground (
          arith,
          append-nil (keep is_bootstrap es),
          append_assoc (keep is_bootstrap es) (keep is_mls es) (e ∷ []),
        ))

-- For an MLS event that is appended to the accepted log, the projection kept live (one `applyEvent`)
-- is the projection that a restart rebuilds from the whole log in replay order.
pub build_projection-replay_order :
    (es : List AcceptedDomainEvent) (e : AcceptedDomainEvent)
    → e.source_kind ≡ mls_rumor
    → build_projection (replay_order (es ++ e ∷ []))
      ≡ apply_event (build_projection (replay_order es)) e
unfolding build_projection
build_projection-replay_order es e h =
    rw (replay_order-append_mls es e h)
      (unfold fold_events in fold_events-append empty_projection (replay_order es) (e ∷ []))

-- For a log of two events, an MLS event that creates a task and then a bootstrap event with another
-- content of the same task id: the projection kept live has the task of the MLS event and the one that
-- is rebuilt from the log has the task of the bootstrap event, so the two projections differ.
pub late_bootstrap_differs :
    (m b : AcceptedDomainEvent) (t u : Task)
    → m.source_kind ≡ mls_rumor
    → b.source_kind ≡ bootstrap_kind_30078
    → m.payload ≡ task_created t
    → b.payload ≡ task_created u
    → t.id ≡ u.id
    → t ≢ u
    → let kept_live = apply_event (build_projection (replay_order (m ∷ []))) b in
      let rebuilt = build_projection (replay_order (m ∷ b ∷ [])) in
      (get t.id kept_live ≡ some t) × (get t.id rebuilt ≡ some u) × (rebuilt ≢ kept_live)
unfolding build_projection fold_events apply_event replay_order insert_by_phase get has set
late_bootstrap_differs m b t u hm hb pm pb i ne = (
  ground (arith, same_refl u.id, same_refl t.id, same_iff t.id u.id),
  ground (arith, same_refl u.id, same_refl t.id, same_iff t.id u.id),
  λ e. ne (ground (arith, same_refl u.id, same_refl t.id, same_iff t.id u.id)),
)
