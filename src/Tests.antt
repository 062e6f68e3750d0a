-- ===== src/Tests.antt =====
-- Concrete data, runs of the model on it, and each theorem at a concrete input.
pub mod Stores
pub mod Sessions
pub mod Starting
pub mod Sending
mod Adapting
mod Inviting
pub mod Bridging
pub mod Watermark
use mathlib.Core.List.{Mem, Perm, perm_append_comm, not-mem-nil, mem-cons}
use mathlib.Core.Logic.{∥∥₁_elim}
use notestr.Prelude.{
  ℕ, ◌≡◌, ◌≢◌, ◌≤◌, ◌⊎◌, inl, inr, refl, sym, ◌∙◌, ap, subst, Text, lit, Bool, true, false, not,
  Option, none, some, List, [], ◌∷◌, ◌++◌, arith, same, All, keep, map, ltb, leb, length, drop,
  if◌then◌else◌, ◌+◌, ◌-◌, ◌<◌, find, any,
}
use notestr.Prelude.Dict.{get, has, IsMap}
use notestr.Domain.Events.{
  Task, TaskStatus, opened, in_progress, done, Changes, TaskEvent, TieBreakFields, task_created,
  task_updated, task_status_changed, task_assigned, AcceptedDomainEvent, SourceKind, mls_rumor,
  bootstrap_kind_30078,
}
use notestr.Domain.TieBreak.{task_wins_over}
use notestr.Domain.TieBreak.Order.{SameStamp, task_wins_over_order}
use notestr.Domain.Projector.{
  TaskProjection, empty_projection, build_projection, fold_events, apply_event, apply_payload,
  replay_order,
}
use notestr.Domain.Projector.Commute.{FieldWrite}
use notestr.Domain.Projector.Convergence.{
  fold_events-perm_status, fold_events-perm_assigned, status_events, assigned_events,
}
use notestr.Domain.Projector.Phases.{
  replay_order-keep, build_projection-replay_order, late_bootstrap_differs, is_bootstrap, is_mls,
}
use notestr.Domain.Projector.Invariant.{
  IsProjection, build_projection-IsProjection, apply_event_idem,
}
use notestr.Domain.Reducer.{replay_events, replay_events-build_projection}

abbrev pub group : Text
group = lit "g"

abbrev pub stamp_at : ℕ → Text → TieBreakFields
stamp_at t w = record { updated_at = t; updated_by = w; updated_by_device = none }

abbrev pub task_at : ℕ → Text → Task
task_at t title = record {
  id = lit "t1";
  title = title;
  description = [];
  status = opened;
  assignee = none;
  created_by = lit "ann";
  created_at = 1;
  stamp = stamp_at t (lit "ann");
}

abbrev pub event_of : Text → SourceKind → TaskEvent → AcceptedDomainEvent
event_of id kind payload = record {
  id = id;
  fact_id = lit "f";
  source_kind = kind;
  group_id = group;
  accepted_at = 5;
  epoch = lit "1";
  payload = payload;
}

abbrev pub created : AcceptedDomainEvent
created = event_of (lit "e1") mls_rumor (task_created (task_at 1 (lit "milk")))

abbrev pub snapshot : AcceptedDomainEvent
snapshot = event_of (lit "e2") bootstrap_kind_30078 (task_created (task_at 2 (lit "bread")))

abbrev pub started : AcceptedDomainEvent
started =
    event_of (lit "e3") mls_rumor
      (task_status_changed (lit "t1") in_progress (stamp_at 3 (lit "bob")))

abbrev write_of : {A : Type 0} → A → ℕ → Text → FieldWrite A
write_of a t w = record { task_id = lit "t1"; value = a; stamp = stamp_at t w }

member_value :
    {A : Type 0}
    → IsSet A
    → (v : A) (es : List (FieldWrite A)) (e : FieldWrite A)
    → All (λ (x : FieldWrite A). x.value ≡ v) es
    → Mem e es
    → e.value ≡ v
member_value s v [] e h m = elim (not-mem-nil m) [ ]
member_value s v (x ∷ es) e h m = ∥∥₁_elim (mem-cons.0 m) (s _ _) λ c. elim c [
  | inl q ↦ ap (λ (y : FieldWrite _). y.value) q ∙ h.0
  | inr n ↦ member_value s v es e h.1 n
]

status-set : IsSet TaskStatus
status-set = hlevel

assignee-set : IsSet (Option Text)
assignee-set = hlevel

task_wins_over_order_example :
    ((task_wins_over (stamp_at 1 (lit "a")) (stamp_at 2 (lit "b")) ≡ true)
      ⊎ (task_wins_over (stamp_at 2 (lit "b")) (stamp_at 1 (lit "a")) ≡ true)
      ⊎ SameStamp (stamp_at 1 (lit "a")) (stamp_at 2 (lit "b")))
    × (task_wins_over (stamp_at 1 (lit "a")) (stamp_at 2 (lit "b")) ≡ true
        → task_wins_over (stamp_at 2 (lit "b")) (stamp_at 1 (lit "a")) ≡ false)
    × (SameStamp (stamp_at 1 (lit "a")) (stamp_at 2 (lit "b"))
        → task_wins_over (stamp_at 1 (lit "a")) (stamp_at 2 (lit "b")) ≡ false)
    × (task_wins_over (stamp_at 1 (lit "a")) (stamp_at 2 (lit "b")) ≡ true
        → task_wins_over (stamp_at 2 (lit "b")) (stamp_at 2 (lit "c")) ≡ true
        → task_wins_over (stamp_at 1 (lit "a")) (stamp_at 2 (lit "c")) ≡ true)
task_wins_over_order_example =
    task_wins_over_order (stamp_at 1 (lit "a")) (stamp_at 2 (lit "b")) (stamp_at 2 (lit "c"))

abbrev w1 : FieldWrite TaskStatus
w1 = write_of in_progress 2 (lit "ann")

abbrev w2 : FieldWrite TaskStatus
w2 = write_of in_progress 3 (lit "bob")

fold_events-perm_status_example :
    fold_events (build_projection (created ∷ [])) (status_events (λ e. started) (w1 ∷ w2 ∷ []))
    ≡ fold_events (build_projection (created ∷ [])) (status_events (λ e. started) (w2 ∷ w1 ∷ []))
fold_events-perm_status_example =
    fold_events-perm_status (λ e. started) (build_projection (created ∷ [])) (w1 ∷ w2 ∷ [])
      (w2 ∷ w1 ∷ [])
      (λ e f me mf ids tie.
        member_value status-set in_progress (w1 ∷ w2 ∷ []) e (refl, (refl, tt)) me
        ∙ sym (member_value status-set in_progress (w1 ∷ w2 ∷ []) f (refl, (refl, tt)) mf))
      (perm_append_comm (w1 ∷ []) (w2 ∷ []))

abbrev a1 : FieldWrite (Option Text)
a1 = write_of (some (lit "bob")) 2 (lit "ann")

abbrev a2 : FieldWrite (Option Text)
a2 = write_of (some (lit "bob")) 3 (lit "bob")

fold_events-perm_assigned_example :
    fold_events (build_projection (created ∷ [])) (assigned_events (λ e. started) (a1 ∷ a2 ∷ []))
    ≡ fold_events (build_projection (created ∷ [])) (assigned_events (λ e. started) (a2 ∷ a1 ∷ []))
fold_events-perm_assigned_example =
    fold_events-perm_assigned (λ e. started) (build_projection (created ∷ [])) (a1 ∷ a2 ∷ [])
      (a2 ∷ a1 ∷ [])
      (λ e f me mf ids tie.
        member_value assignee-set (some (lit "bob")) (a1 ∷ a2 ∷ []) e (refl, (refl, tt)) me
        ∙ sym (member_value assignee-set (some (lit "bob")) (a1 ∷ a2 ∷ []) f (refl, (refl, tt)) mf))
      (perm_append_comm (a1 ∷ []) (a2 ∷ []))

replay_order-keep_example :
    replay_order (created ∷ snapshot ∷ [])
    ≡ keep is_bootstrap (created ∷ snapshot ∷ []) ++ keep is_mls (created ∷ snapshot ∷ [])
replay_order-keep_example = replay_order-keep (created ∷ snapshot ∷ [])

build_projection-replay_order_example :
    build_projection (replay_order (snapshot ∷ started ∷ []))
    ≡ apply_event (build_projection (replay_order (snapshot ∷ []))) started
build_projection-replay_order_example = build_projection-replay_order (snapshot ∷ []) started refl

zero_one : task_at 1 (lit "milk") ≢ task_at 2 (lit "bread")
zero_one e =
    let q : (task_at 1 (lit "milk")).stamp.updated_at ≡ 2 =
      ap (λ (t : Task). t.stamp.updated_at) e in
    ground arith

late_bootstrap_differs_example :
    let kept_live = apply_event (build_projection (replay_order (created ∷ []))) snapshot in
    let rebuilt = build_projection (replay_order (created ∷ snapshot ∷ [])) in
    (get (task_at 1 (lit "milk")).id kept_live ≡ some (task_at 1 (lit "milk")))
    × (get (task_at 1 (lit "milk")).id rebuilt ≡ some (task_at 2 (lit "bread")))
    × (rebuilt ≢ kept_live)
late_bootstrap_differs_example =
    late_bootstrap_differs created snapshot (task_at 1 (lit "milk")) (task_at 2 (lit "bread")) refl
      refl refl refl refl (λ e. zero_one e)

replay_events-build_projection_example :
    replay_events (map (λ (e : AcceptedDomainEvent). e.payload) (created ∷ started ∷ []))
    ≡ build_projection (created ∷ started ∷ [])
replay_events-build_projection_example = replay_events-build_projection (created ∷ started ∷ [])

abbrev changed : Option Text → AcceptedDomainEvent
changed id = record started {
  id = lit "e3";
  payload =
      task_updated (lit "t1")
        (record {
          new_title = none;
          new_description = none;
          new_id = id;
          new_status = none;
          new_assignee = none;
          new_created_by = none;
          new_created_at = none;
        })
        (task_at 2 (lit "milk")).stamp;
}

abbrev renamed : AcceptedDomainEvent
renamed = changed (some (lit "t1"))

abbrev moved : AcceptedDomainEvent
moved = changed (some (lit "t9"))

build_projection-IsProjection_example : IsProjection (build_projection (created ∷ renamed ∷ []))
build_projection-IsProjection_example =
    build_projection-IsProjection (created ∷ renamed ∷ []) (tt, (refl, tt))

-- An update that carries another id leaves the task under the old one.
build_projection-other_id :
    get (lit "t1") (build_projection (created ∷ moved ∷ []))
    ≡ some (record (task_at 2 (lit "milk")) {
      id = lit "t9";
      stamp = record (stamp_at 2 (lit "ann")) { updated_by_device = some [] };
    })
unfolding build_projection fold_events apply_event apply_payload get has notestr.Prelude.Dict.set
    same task_wins_over
build_projection-other_id = refl

apply_event_idem_example :
    apply_event (apply_event (build_projection (created ∷ [])) started) started
    ≡ apply_event (build_projection (created ∷ [])) started
apply_event_idem_example =
    apply_event_idem (build_projection (created ∷ [])) started
      (build_projection-IsProjection (created ∷ []) (tt, tt)).no_twice
