-- ===== src/Adapter/Snapshots.antt =====
-- What `fetchBootstrap` of src/integration/marmot-adapter.ts yields, over the snapshots of the members.
use notestr.Prelude.{
  Text, true, false, none, some, List, [], ◌∷◌, map, same, same_iff, ltb, ◌≤◌, ◌≡◌, refl, sym, ap,
  same_refl, ◌∙◌, subst, inl, inr, arith, Bool-cases,
}
use notestr.Prelude.Dict.{Dict, get, has, IsMap, get-none}
use notestr.Domain.Events.{Task}
use notestr.Domain.TieBreak.{task_wins_over}
use notestr.Engine.Types.{NostrEvent, IngestSignal}
use notestr.Adapter.Bootstrap.{
  BootstrapDeps, merge_snapshots, qualifying, representative, shared_fact, bootstrap_signal,
  bootstrap_signals, fetch_bootstrap,
}
use notestr.Adapter.Winners.{In, offered, IsBest, merge_snapshots-IsBest, merge_snapshots-IsMap}

-- No two tasks have one id.
abbrev Distinct : List Task → Type 0
Distinct [] = Unit
Distinct (t ∷ ts) = ((u : Task) → In u ts → u.id ≡ t.id → ⊥) × Distinct ts

-- The task is offered, and no offered task with its id wins over it.
record Wins (among : List Task) (t : Task) : Type 0 where
  offered_itself : In t among
  unbeaten : (u : Task) → In u among → u.id ≡ t.id → task_wins_over u.stamp t.stamp ≡ false

record Newest (es : List NostrEvent) (e : NostrEvent) : Type 0 where
  among_them : In e es
  newest : (x : NostrEvent) → In x es → x.created_at ≤ e.created_at

-- What the bootstrap owes for the snapshots that qualify.
pub record Bootstrapped (deps : BootstrapDeps) (es : List NostrEvent) (signals : List IngestSignal)
    : Type 0 where
  latest : NostrEvent
  latest_newest : Newest es latest
  tasks : List Task
  announced : signals ≡ map (bootstrap_signal deps (shared_fact deps latest)) tasks
  once : Distinct tasks
  winners : (t : Task) → In t tasks → Wins (offered deps es) t
  complete : (u : Task) → In u (offered deps es) → (t : Task) × In t tasks × (t.id ≡ u.id)

Newest-later :
    (e f r : NostrEvent) (es : List NostrEvent)
    → e.created_at ≤ f.created_at
    → Newest (f ∷ es) r
    → Newest (e ∷ f ∷ es) r
Newest-later e f r es later n = record {
  among_them = inr n.among_them;
  newest = λ x s. elim s [
    | inl first ↦ rw (sym first) (omega (arith, later, n.newest f (inl refl)))
    | inr rest ↦ n.newest x rest
  ];
}

Newest-earlier :
    (e f r : NostrEvent) (es : List NostrEvent)
    → f.created_at ≤ e.created_at
    → Newest (e ∷ es) r
    → Newest (e ∷ f ∷ es) r
Newest-earlier e f r es earlier n = record {
  among_them = elim n.among_them [ inl first ↦ inl first | inr rest ↦ inr (inr rest) ];
  newest = λ x s. elim s [
    | inl first ↦ n.newest x (inl first)
    | inr (inl second) ↦ rw (sym second) (omega (arith, earlier, n.newest e (inl refl)))
    | inr (inr rest) ↦ n.newest x (inr rest)
  ];
}

representative-Newest :
    (e : NostrEvent) (es : List NostrEvent) → Newest (e ∷ es) (representative e es)
unfolding representative
representative-Newest e [] = record {
  among_them = inl refl;
  newest = λ x s. elim s [ inl same_one ↦ rw (sym same_one) (omega arith) | inr n ↦ absurd n ];
}
representative-Newest e (f ∷ es) = elim (Bool-cases (ltb e.created_at f.created_at)) [
  | inl later ↦
      rw later
        (Newest-later e f (representative f es) es (ground arith) (representative-Newest f es))
  | inr earlier ↦
      rw earlier
        (Newest-earlier e f (representative e es) es (ground arith) (representative-Newest e es))
]

abbrev Keyed : Dict Task → Type 0
Keyed m = (k : Text) (t : Task) → get k m ≡ some t → t.id ≡ k

value-entry :
    (t : Task) (m : Dict Task)
    → IsMap m
    → In t (map (λ e. e.1) m)
    → (k : Text) × (get k m ≡ some t) × (has k m ≡ true)
unfolding get has
value-entry t [] once n = absurd n
value-entry t ((j, v) ∷ m) once s = elim s [
  | inl here ↦ (j, rw (same_refl j) (ap some here), rw (same_refl j) refl)
  | inr rest ↦
      let (k, got, present) = value-entry t m once.1 rest in
      elim (Bool-cases (same j k)) [
        | inl clash ↦ absurd (other_key k clash present)
        | inr other ↦ (k, rw other got, rw other present)
      ]
]
  where
    other_key : (k : Text) → same j k ≡ true → has k m ≡ true → ⊥
    other_key k clash present =
        let absent : has k m ≡ false =
          subst (λ i. has i m ≡ false) ((same_iff j k).0 clash) once.0 in
        cc

entry-value : (k : Text) (t : Task) (m : Dict Task) → get k m ≡ some t → In t (map (λ e. e.1) m)
unfolding get
entry-value k t [] e = cc
entry-value k t ((j, v) ∷ m) e = elim (Bool-cases (same j k)) [
  | inl here ↦ inl (head here)
  | inr other ↦ inr (entry-value k t m (tail other))
]
  where
    head : same j k ≡ true → v ≡ t
    head here = ground (arith, e, here)

    tail : same j k ≡ false → get k m ≡ some t
    tail other = ground (arith, e, other)

absent : (j k : Text) (m : Dict Task) → has j m ≡ false → j ≡ k → has k m ≡ true → ⊥
absent j k m missing e present =
    let gone : has k m ≡ false = subst (λ i. has i m ≡ false) e missing in cc

tail-Keyed : (j : Text) (v : Task) (m : Dict Task) → has j m ≡ false → Keyed ((j, v) ∷ m) → Keyed m
unfolding get
tail-Keyed j v m missing keyed k t got = elim (Bool-cases (same j k)) [
  | inl clash ↦ absurd (gone ((same_iff j k).0 clash))
  | inr other ↦ keyed k t (rw other got)
]
  where
    gone : j ≡ k → ⊥
    gone e =
        let none_here : get k m ≡ none = get-none k m (subst (λ i. has i m ≡ false) e missing) in cc

values-Distinct : (m : Dict Task) → IsMap m → Keyed m → Distinct (map (λ e. e.1) m)
unfolding get
values-Distinct [] once keyed = tt
values-Distinct ((j, v) ∷ m) once keyed = (
  λ u s e.
      let (k, got, present) = value-entry u m once.1 s in
      absent j k m once.0
        (sym (keyed j v (rw (same_refl j) refl)) ∙ sym e ∙ tail-Keyed j v m once.0 keyed k u got)
        present,
  values-Distinct m once.1 (tail-Keyed j v m once.0 keyed),
)

announced_by :
    (f : Task → IngestSignal) (m : Dict Task) → map (λ w. f w.1) m ≡ map f (map (λ w. w.1) m)
announced_by f [] = refl
announced_by f ((j, v) ∷ m) = ap (λ s. f v ∷ s) (announced_by f m)

-- A task in the table wins among all that are offered.
entry-Wins :
    (ts : List Task) (m : Dict Task) (k : Text) (t : Task)
    → IsBest (λ u. In u ts) m
    → get k m ≡ some t
    → Wins ts t
entry-Wins ts m k t best got = record {
  offered_itself = (best.held k t got).0;
  unbeaten = λ u s e.
      let (w, held_u, loses) = best.covered u s in
      let same_key : u.id ≡ k = e ∙ (best.held k t got).1 in
      let same_task : w ≡ t = unique w (subst (λ i. get i m ≡ some w) same_key held_u) in
      subst (λ x. task_wins_over u.stamp x.stamp ≡ false) same_task loses;
}
  where
    unique : (w : Task) → get k m ≡ some w → w ≡ t
    unique w h = cc

bootstrap_signals-Bootstrapped :
    (deps : BootstrapDeps) (e : NostrEvent) (es : List NostrEvent)
    → Bootstrapped deps (e ∷ es) (bootstrap_signals deps (e ∷ es))
unfolding bootstrap_signals
bootstrap_signals-Bootstrapped deps e es =
    let m : Dict Task = merge_snapshots deps (e ∷ es) [] in
    let single = merge_snapshots-IsMap deps (e ∷ es) in
    let best = merge_snapshots-IsBest deps (e ∷ es) in
    record {
      latest = representative e es;
      latest_newest = representative-Newest e es;
      tasks = map (λ w. w.1) m;
      announced = announced_by (bootstrap_signal deps (shared_fact deps (representative e es))) m;
      once = values-Distinct m single (λ k t got. (best.held k t got).1);
      winners = λ t s.
          let (k, got, present) = value-entry t m single s in
          entry-Wins (offered deps (e ∷ es)) m k t best got;
      complete = λ u s.
          let (t, got, loses) = best.covered u s in
          (t, entry-value u.id t m got, (best.held u.id t got).1);
    }

-- Where some snapshot is of a member of the group, the bootstrap yields one message for each task that
-- a readable snapshot of a member offers, and no other. The task of a message is one that was offered,
-- and no offered task of its id wins over it: so the order in which the relays answer decides only
-- between tasks that tie. All messages share the fact of a newest such snapshot.
pub fetch_bootstrap-Bootstrapped :
    (deps : BootstrapDeps) (events : List NostrEvent) (e : NostrEvent) (es : List NostrEvent)
    → qualifying deps events ≡ e ∷ es
    → Bootstrapped deps (e ∷ es) (fetch_bootstrap true deps (inr events))
unfolding fetch_bootstrap
fetch_bootstrap-Bootstrapped deps events e es members =
    rw members (bootstrap_signals-Bootstrapped deps e es)
