-- ===== src/Adapter/Winners.antt =====
-- The winner of each task over the snapshots of the members, in src/integration/marmot-adapter.ts.
use notestr.Prelude.{
  Text, true, false, Option, none, some, List, [], ◌∷◌, ◌++◌, same, same_iff, ◌≡◌, refl, sym, ap,
  ◌∙◌, subst, ◌⊎◌, inl, inr, arith, Bool-cases, Option-cases,
}
use notestr.Prelude.Dict.{Dict, get, set, IsMap, get-set, get-set_here, set-IsMap}
use notestr.Domain.Events.{Task, TieBreakFields}
use notestr.Domain.TieBreak.{task_wins_over}
use notestr.Domain.TieBreak.Order.{
  SameStamp, task_wins_over_irrefl, task_wins_over_trans, task_wins_over_total,
  task_wins_over_asymm,
}
use notestr.Engine.Types.{NostrEvent}
use notestr.Adapter.{Json, is_valid_task}
use notestr.Adapter.Bootstrap.{
  BootstrapDeps, keep_winner, merge_tasks, snapshot_tasks, merge_snapshots,
}

-- Membership.
abbrev pub In : {A : Type 0} → A → List A → Type 0
In x [] = ⊥
In x (y ∷ ys) = (y ≡ x) ⊎ In x ys

-- The valid tasks among parsed values.
unfoldable pub valid_tasks : List Json → List Task
valid_tasks [] = []
valid_tasks (j ∷ js) = elim (is_valid_task (some j)) [
  | none ↦ valid_tasks js
  | some task ↦ task ∷ valid_tasks js
]

-- What the snapshots offer, in the order of the relays.
unfoldable pub offered : BootstrapDeps → List NostrEvent → List Task
offered deps [] = []
offered deps (event ∷ events) = valid_tasks (snapshot_tasks deps event) ++ offered deps events

unfoldable keep_winners : List Task → Dict Task → Dict Task
keep_winners [] m = m
keep_winners (t ∷ ts) m = keep_winners ts (keep_winner t m)

keep_winners-append :
    (ts us : List Task) (m : Dict Task)
    → keep_winners (ts ++ us) m ≡ keep_winners us (keep_winners ts m)
unfolding keep_winners
keep_winners-append [] us m = refl
keep_winners-append (t ∷ ts) us m = keep_winners-append ts us (keep_winner t m)

merge_tasks-winners :
    (js : List Json) (m : Dict Task) → merge_tasks js m ≡ keep_winners (valid_tasks js) m
unfolding merge_tasks valid_tasks keep_winners
merge_tasks-winners [] m = refl
merge_tasks-winners (j ∷ js) m = elim (Option-cases (is_valid_task (some j))) [
  | inl n ↦ rw (n, merge_tasks, valid_tasks, keep_winners) (merge_tasks-winners js m)
  | inr (t, s) ↦
      rw (s, merge_tasks, valid_tasks, keep_winners) (merge_tasks-winners js (keep_winner t m))
]

merge_snapshots-winners :
    (deps : BootstrapDeps) (es : List NostrEvent) (m : Dict Task)
    → merge_snapshots deps es m ≡ keep_winners (offered deps es) m
unfolding merge_snapshots offered keep_winners
merge_snapshots-winners deps [] m = refl
merge_snapshots-winners deps (e ∷ es) m =
    merge_snapshots-winners deps es (merge_tasks (snapshot_tasks deps e) m)
    ∙ ap (keep_winners (offered deps es)) (merge_tasks-winners (snapshot_tasks deps e) m)
    ∙ sym (keep_winners-append (valid_tasks (snapshot_tasks deps e)) (offered deps es) m)

beats_same : (a b c : TieBreakFields) → SameStamp b c → task_wins_over a b ≡ task_wins_over a c
unfolding task_wins_over
beats_same a b c h = ground (arith, h.same_time, h.same_author, h.same_device)

-- Not to be beaten is transitive.
not_beaten_trans :
    (a b c : TieBreakFields)
    → task_wins_over a b ≡ false
    → task_wins_over b c ≡ false
    → task_wins_over a c ≡ false
not_beaten_trans a b c h k =
    ground (arith, task_wins_over_total b c, task_wins_over_trans a c b, beats_same a b c)

-- The table holds, of the tasks that have been seen, one for each id that is beaten by none of them.
pub record IsBest (Seen : Task → Type 0) (m : Dict Task) : Type 0 where
  pub held : (k : Text) (t : Task) → get k m ≡ some t → Seen t × (t.id ≡ k)
  pub covered :
      (u : Task)
      → Seen u
      → (t : Task) × (get u.id m ≡ some t) × (task_wins_over u.stamp t.stamp ≡ false)

keep_winner-here :
    (t : Task) (m : Dict Task)
    → (w : Task) × (get t.id (keep_winner t m) ≡ some w)
      × (task_wins_over t.stamp w.stamp ≡ false)
      × ((w ≡ t) ⊎ (get t.id m ≡ some w))
      × ((v : Task) → get t.id m ≡ some v → task_wins_over v.stamp w.stamp ≡ false)
unfolding keep_winner
keep_winner-here t m = elim (Option-cases (get t.id m)) [
  | inl n ↦ (t, rw (n, keep_winner) (get-set_here t.id t m), never t, inl refl, λ v e. cc)
  | inr (old, s) ↦ elim (Bool-cases (task_wins_over t.stamp old.stamp)) [
    | inl wins ↦ (
      t,
      rw (s, keep_winner) (rw wins (get-set_here t.id t m)),
      never t,
      inl refl,
      λ v e.
          subst (λ x. task_wins_over x.stamp t.stamp ≡ false) (held_once old v s e)
            (task_wins_over_asymm t.stamp old.stamp wins),
    )
    | inr loses ↦ (
      old,
      rw (s, keep_winner) (rw loses s),
      loses,
      inr s,
      λ v e.
          subst (λ x. task_wins_over x.stamp old.stamp ≡ false) (held_once old v s e) (never old),
    )
  ]
]
  where
    never : (x : Task) → task_wins_over x.stamp x.stamp ≡ false
    never x =
        task_wins_over_irrefl x.stamp x.stamp
          (record { same_time = refl; same_author = refl; same_device = refl })

    held_once : (a b : Task) → get t.id m ≡ some a → get t.id m ≡ some b → a ≡ b
    held_once a b h k = cc

keep_winner-elsewhere :
    (t : Task) (k : Text) (m : Dict Task) → same t.id k ≡ false → get k (keep_winner t m) ≡ get k m
unfolding keep_winner
keep_winner-elsewhere t k m other = elim (Option-cases (get t.id m)) [
  | inl n ↦ rw (n, keep_winner) put
  | inr (old, s) ↦ elim (Bool-cases (task_wins_over t.stamp old.stamp)) [
    | inl wins ↦ rw (s, keep_winner) (rw wins put)
    | inr loses ↦ rw (s, keep_winner) (rw loses refl)
  ]
]
  where
    put : get k (set t.id t m) ≡ get k m
    put = rw (get-set t.id k t m, other) refl

-- One more task is seen.
keep_winner-IsBest :
    (Seen : Task → Type 0) (t : Task) (m : Dict Task)
    → IsBest Seen m
    → IsBest (λ u. Seen u ⊎ (t ≡ u)) (keep_winner t m)
keep_winner-IsBest Seen t m best =
    let (w, kept, fresh, origin, older) = keep_winner-here t m in
    record {
      held = λ k v e. elim (Bool-cases (same t.id k)) [
        | inl here ↦ (
          elim origin [
            | inl new ↦ inr (sym new ∙ unique (get k (keep_winner t m)) w v (at k here w kept) e)
            | inr old ↦ inl (
                subst Seen (unique (get k (keep_winner t m)) w v (at k here w kept) e)
                  (best.held t.id w old).0)
          ],
          elim origin [
            | inl new ↦
                ap (λ x. x.id)
                  (sym (unique (get k (keep_winner t m)) w v (at k here w kept) e) ∙ new)
                ∙ (same_iff t.id k).0 here
            | inr old ↦
                ap (λ x. x.id) (sym (unique (get k (keep_winner t m)) w v (at k here w kept) e))
                ∙ (best.held t.id w old).1
                ∙ (same_iff t.id k).0 here
          ],
        )
        | inr other ↦
            let (seen, named) = best.held k v (sym (keep_winner-elsewhere t k m other) ∙ e) in
            (inl seen, named)
      ];
      covered = λ u s. elim s [
        | inl seen ↦
            let (v, got, loses) = best.covered u seen in
            elim (Bool-cases (same t.id u.id)) [
              | inl here ↦ (
                w,
                at u.id here w kept,
                not_beaten_trans u.stamp v.stamp w.stamp loses
                    (older v (ap (λ k. get k m) ((same_iff t.id u.id).0 here) ∙ got)),
              )
              | inr other ↦ (v, keep_winner-elsewhere t u.id m other ∙ got, loses)
            ]
        | inr new ↦
            subst
              (λ u.
                (x : Task) × (get u.id (keep_winner t m) ≡ some x)
                × (task_wins_over u.stamp x.stamp ≡ false))
              new (w, kept, fresh)
      ];
    }
  where
    unique : (o : Option Task) (a b : Task) → o ≡ some a → o ≡ some b → a ≡ b
    unique o a b h k = cc

    at :
        (k : Text)
        → same t.id k ≡ true
        → (w : Task) → get t.id (keep_winner t m) ≡ some w
        → get k (keep_winner t m) ≡ some w
    at k here w e = subst (λ j. get j (keep_winner t m) ≡ some w) ((same_iff t.id k).0 here) e

IsBest-map :
    (P Q : Task → Type 0) (m : Dict Task)
    → ((u : Task) → P u → Q u)
    → ((u : Task) → Q u → P u)
    → IsBest P m
    → IsBest Q m
IsBest-map P Q m f g best = record {
  held = λ k t e. let (p, q) = best.held k t e in (f t p, q);
  covered = λ u q. best.covered u (g u q);
}

keep_winners-IsBest :
    (Seen : Task → Type 0) (ts : List Task) (m : Dict Task)
    → IsBest Seen m
    → IsBest (λ u. Seen u ⊎ In u ts) (keep_winners ts m)
unfolding keep_winners
keep_winners-IsBest Seen [] m best =
    IsBest-map Seen (λ u. Seen u ⊎ In u []) m (λ u s. inl s)
      (λ u s. elim s [ inl p ↦ p | inr n ↦ absurd n ]) best
keep_winners-IsBest Seen (t ∷ ts) m best =
    IsBest-map (λ u. (Seen u ⊎ (t ≡ u)) ⊎ In u ts) (λ u. Seen u ⊎ In u (t ∷ ts))
      (keep_winners ts (keep_winner t m))
      (λ u s. elim s [ inl (inl p) ↦ inl p | inl (inr e) ↦ inr (inl e) | inr n ↦ inr (inr n) ])
      (λ u s. elim s [ inl p ↦ inl (inl p) | inr (inl e) ↦ inl (inr e) | inr (inr n) ↦ inr n ])
      (keep_winners-IsBest (λ u. Seen u ⊎ (t ≡ u)) ts (keep_winner t m)
        (keep_winner-IsBest Seen t m best))

-- The table of the snapshots, from an empty one.
pub merge_snapshots-IsBest :
    (deps : BootstrapDeps) (es : List NostrEvent)
    → IsBest (λ u. In u (offered deps es)) (merge_snapshots deps es [])
unfolding get
merge_snapshots-IsBest deps es =
    subst (IsBest (λ u. In u (offered deps es))) (sym (merge_snapshots-winners deps es [])) (
      IsBest-map (λ u. ⊥ ⊎ In u (offered deps es)) (λ u. In u (offered deps es))
        (keep_winners (offered deps es) []) (λ u s. elim s [ inl n ↦ absurd n | inr p ↦ p ])
        (λ u p. inr p)
        (keep_winners-IsBest (λ u. ⊥) (offered deps es) []
          (record { held = λ k t e. cc; covered = λ u n. absurd n })))

keep_winner-IsMap : (t : Task) (m : Dict Task) → IsMap m → IsMap (keep_winner t m)
unfolding keep_winner
keep_winner-IsMap t m once = elim (Option-cases (get t.id m)) [
  | inl n ↦ rw (n, keep_winner) (set-IsMap t.id t m once)
  | inr (old, s) ↦ elim (Bool-cases (task_wins_over t.stamp old.stamp)) [
    | inl wins ↦ rw (s, keep_winner) (rw wins (set-IsMap t.id t m once))
    | inr loses ↦ rw (s, keep_winner) (rw loses once)
  ]
]

keep_winners-IsMap : (ts : List Task) (m : Dict Task) → IsMap m → IsMap (keep_winners ts m)
unfolding keep_winners
keep_winners-IsMap [] m once = once
keep_winners-IsMap (t ∷ ts) m once =
    keep_winners-IsMap ts (keep_winner t m) (keep_winner-IsMap t m once)

pub merge_snapshots-IsMap :
    (deps : BootstrapDeps) (es : List NostrEvent) → IsMap (merge_snapshots deps es [])
merge_snapshots-IsMap deps es =
    subst IsMap (sym (merge_snapshots-winners deps es []))
      (keep_winners-IsMap (offered deps es) [] tt)
