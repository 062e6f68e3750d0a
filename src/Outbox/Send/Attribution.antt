-- ===== src/Outbox/Send/Attribution.antt =====
-- marmot-adapter.ts: which of the events that are published in a window is attributed.
use notestr.Prelude.{
  ◌+◌, ◌≡◌, refl, sym, subst, ap, ◌∙◌, Text, Bool, false, ◌&&◌, Option, none, some, List, [], ◌∷◌,
  map, keep, length, ltb, ◌==◌, same, same_iff, if◌then◌else◌, arith, Bool-cases, Option-cases, inl,
  inr,
}
use notestr.Prelude.Dict.{get, IsMap, get-set, set-IsMap, get-set_here}
use notestr.Domain.Events.{or_else}
use notestr.Engine.Types.{NostrEvent}
use notestr.Outbox.Bridge.{Bridge, OutboxWindowState}
use notestr.Outbox.Windows.{
  observe_publish, count_published, count_event, h_tag_of, group_event_kind, attributed_id, is_id,
}
use notestr.Outbox.Send.{published, run_steps}
use notestr.Persistence.{is_empty}

-- The published event carries the tag of the group.
abbrev pub is_of_tag : Text → NostrEvent → Bool
is_of_tag h_tag event = (event.kind == group_event_kind) && is_id h_tag (h_tag_of event.tags)

-- The id of the only event of the list.
abbrev pub sole_id : List NostrEvent → Option Text
sole_id [] = none
sole_id (event ∷ []) = if is_empty event.id then none else some event.id
sole_id (event ∷ other ∷ events) = none

abbrev pub count_all : List NostrEvent → OutboxWindowState → OutboxWindowState
count_all [] s = s
count_all (event ∷ events) s = count_all events (count_event event.id s)

count_all-count :
    (events : List NostrEvent) (s : OutboxWindowState)
    → (count_all events s).count ≡ s.count + length events
count_all-count [] s = omega arith
count_all-count (event ∷ events) s = omega (arith, count_all-count events (count_event event.id s))

abbrev pub no_event : OutboxWindowState
no_event = record { count = 0; first_event_id = none }

pub attributed_id-count_all :
    (events : List NostrEvent) → attributed_id (count_all events no_event) ≡ sole_id events
attributed_id-count_all [] = refl
attributed_id-count_all (event ∷ []) = refl
attributed_id-count_all (event ∷ other ∷ events) =
    let s = count_event other.id (count_event event.id no_event) in
    let many : ((count_all events s).count == 1) ≡ false =
      ground (arith, count_all-count events s) in
    rw many refl

module _ (h_tag : Text) where
  -- `b'` is `b` but for its windows, and the one of the tag is `s`.
  abbrev pub Counted : Bridge → Bridge → OutboxWindowState → Type 0
  Counted b b' s =
      (b' ≡ record b { window_state = b'.window_state })
      × (get h_tag b'.window_state ≡ some s)
      × IsMap b'.window_state

  count_published-here :
      (id : Text) (b : Bridge) (s : OutboxWindowState)
      → is_empty h_tag ≡ false
      → get h_tag b.dispatch_in_flight ≡ some 1
      → get h_tag b.window_state ≡ some s
      → IsMap b.window_state
      → Counted b (count_published h_tag id b) (count_event id s)
  unfolding count_published
  count_published-here id b s filled busy window once =
      rw (filled, busy, window)
        (
          refl,
          get-set_here h_tag (count_event id s) b.window_state,
          set-IsMap h_tag (count_event id s) b.window_state once,
        )

  count_published-other :
      (tag id : Text) (b : Bridge) (s : OutboxWindowState)
      → same tag h_tag ≡ false
      → get h_tag b.window_state ≡ some s
      → IsMap b.window_state
      → Counted b (count_published tag id b) s
  unfolding count_published
  count_published-other tag id b s other window once = elim (Bool-cases (is_empty tag)) [
    | inl e ↦ rw e (refl, window, once)
    | inr e ↦ elim (Bool-cases (ltb 0 (or_else (get tag b.dispatch_in_flight) 0))) [
      | inr f ↦ rw (e, f) (refl, window, once)
      | inl f ↦ elim (Option-cases (get tag b.window_state)) [
        | inl n ↦ rw (e, f, n) (refl, window, once)
        | inr (t, n) ↦
            rw (e, f, n)
              (
                refl,
                rw (get-set tag h_tag (count_event id t) b.window_state, other) window,
                set-IsMap tag (count_event id t) b.window_state once,
              )
      ]
    ]
  ]

  observe_publish-Counted :
      (event : NostrEvent) (b : Bridge) (s : OutboxWindowState)
      → is_empty h_tag ≡ false
      → get h_tag b.dispatch_in_flight ≡ some 1
      → get h_tag b.window_state ≡ some s
      → IsMap b.window_state
      → Counted b
          (observe_publish event b)
          (if is_of_tag h_tag event then count_event event.id s else s)
  unfolding observe_publish
  observe_publish-Counted event b s filled busy window once =
      elim (Bool-cases (event.kind == group_event_kind)) [
        | inr k ↦ rw k (refl, window, once)
        | inl k ↦ elim (Option-cases (h_tag_of event.tags)) [
          | inl n ↦ rw (k, n) (refl, window, once)
          | inr (tag, n) ↦ elim (Bool-cases (same tag h_tag)) [
            | inr other ↦
                rw (k, n, other) (count_published-other tag event.id b s other window once)
            | inl here ↦
                rw (k, n, here)
                  (subst (λ t. Counted b (count_published t event.id b) (count_event event.id s))
                    (sym ((same_iff tag h_tag).0 here))
                    (count_published-here event.id b s filled busy window once))
          ]
        ]
      ]

  pub run_published-Counted :
      (events : List NostrEvent) (b : Bridge) (s : OutboxWindowState)
      → is_empty h_tag ≡ false
      → get h_tag b.dispatch_in_flight ≡ some 1
      → get h_tag b.window_state ≡ some s
      → IsMap b.window_state
      → Counted b (run_steps (map published events) b) (count_all (keep (is_of_tag h_tag) events) s)
  unfolding run_steps keep
  run_published-Counted [] b s filled busy window once = (refl, window, once)
  run_published-Counted (event ∷ events) b s filled busy window once =
      let v = observe_publish event b in
      let t = if is_of_tag h_tag event then count_event event.id s else s in
      let (e, w, m) = observe_publish-Counted event b s filled busy window once in
      let same_busy : get h_tag v.dispatch_in_flight ≡ some 1 =
        ap (λ (x : Bridge). get h_tag x.dispatch_in_flight) e ∙ busy in
      let rest = run_published-Counted events v t filled same_busy w m in
      elim (Bool-cases (is_of_tag h_tag event)) [
        | inl k ↦ rw k (then_rest (count_event event.id s) e (rw k at rest))
        | inr k ↦ rw k (then_rest s e (rw k at rest))
      ]
    where
      then_rest :
          (t : OutboxWindowState)
          → observe_publish event b
            ≡ record b { window_state = (observe_publish event b).window_state }
          → Counted
              (observe_publish event b)
              (run_steps (map published events) (observe_publish event b))
              (count_all (keep (is_of_tag h_tag) events) t)
          → Counted b
              (run_steps (map published events) (observe_publish event b))
              (count_all (keep (is_of_tag h_tag) events) t)
      then_rest t e (f, x, y) = (
        f
            ∙ ap
                (λ (c : Bridge). record c {
                  window_state =
                      (run_steps (map published events) (observe_publish event b)).window_state;
                })
                e,
        x,
        y,
      )
