-- ===== src/FailedWelcomes/Prune.antt =====
-- The prune of src/marmot/failed-welcomes.ts against the filter of its load.
use notestr.Prelude.{
  ℕ, ◌-◌, Text, Bool, true, false, not, Option, none, some, List, [], ◌∷◌, map, keep, any, same,
  same_refl, same_iff, ltb, ◌≡◌, refl, sym, ap, ◌∙◌, arith, Bool-cases, Option-cases, inl, inr,
  if◌then◌else◌,
}
use notestr.Prelude.Dict.{Dict, get, has, delete, IsMap, delete-IsMap}
use notestr.FailedWelcomes.{
  FailedWelcomeRecord, FailedWelcomes, keys, read_all, is_since, sort_newest, limit_to,
  load_failed_welcomes, prune_key, prune_keys, prune_older_than, dispatch_changed,
}

abbrev Table : Type 0
Table = Dict FailedWelcomeRecord

abbrev values : Table → List FailedWelcomeRecord
values m = map (λ e. e.1) m

abbrev lacks : Text → List Text → Bool
lacks j ks = not (any (λ k. same j k) ks)

lacks-keys : (j : Text) (m : Table) → has j m ≡ false → lacks j (keys m) ≡ true
unfolding keys has any
lacks-keys j [] h = refl
lacks-keys j ((k, v) ∷ m) h = ground (arith, same_iff j k, same_iff k j, lacks-keys j m)

lacks-cons :
    (j k : Text) (ks : List Text)
    → lacks j (k ∷ ks) ≡ true
    → (same j k ≡ false) × (lacks j ks ≡ true)
unfolding any
lacks-cons j k ks h = ground arith

read_all-lacks :
    (ks : List Text) (j : Text) (v : FailedWelcomeRecord) (m : Table)
    → lacks j ks ≡ true
    → read_all ks ((j, v) ∷ m) ≡ read_all ks m
unfolding read_all any get
read_all-lacks [] j v m h = refl
read_all-lacks (k ∷ ks) j v m h =
    let (other, rest) = lacks-cons j k ks h in
    elim (Option-cases (get k m)) [
      | inl n ↦ rw (other, read_all) (rw (n, read_all) (read_all-lacks ks j v m rest))
      | inr (r, e) ↦
          rw (other, read_all) (rw (e, read_all) (ap (λ rs. r ∷ rs) (read_all-lacks ks j v m rest)))
    ]

read_all-keys : (m : Table) → IsMap m → read_all (keys m) m ≡ values m
unfolding read_all keys get
read_all-keys [] once = refl
read_all-keys ((j, v) ∷ m) once =
    rw (same_refl j, read_all)
      (ap (λ rs. v ∷ rs)
        (read_all-lacks (keys m) j v m (lacks-keys j m once.0) ∙ read_all-keys m once.1))

prune_key-other :
    (cutoff : ℕ) (k j : Text) (v : FailedWelcomeRecord) (m : Table)
    → same j k ≡ false
    → prune_key cutoff k ((j, v) ∷ m) ≡ (j, v) ∷ prune_key cutoff k m
unfolding prune_key get delete
prune_key-other cutoff k j v m other = elim (Option-cases (get k m)) [
  | inl n ↦ rw (other, prune_key) (rw (n, prune_key) refl)
  | inr (r, e) ↦ elim (Bool-cases (ltb r.recorded_at cutoff)) [
    | inl old ↦ rw (other, prune_key) (rw (e, prune_key) (rw old (rw other refl)))
    | inr fresh ↦ rw (other, prune_key) (rw (e, prune_key) (rw fresh refl))
  ]
]

prune_keys-lacks :
    (cutoff : ℕ) (ks : List Text) (j : Text) (v : FailedWelcomeRecord) (m : Table)
    → lacks j ks ≡ true
    → prune_keys cutoff ks ((j, v) ∷ m) ≡ (j, v) ∷ prune_keys cutoff ks m
unfolding prune_keys any
prune_keys-lacks cutoff [] j v m h = refl
prune_keys-lacks cutoff (k ∷ ks) j v m h =
    let (other, rest) = lacks-cons j k ks h in
    ap (prune_keys cutoff ks) (prune_key-other cutoff k j v m other)
    ∙ prune_keys-lacks cutoff ks j v (prune_key cutoff k m) rest

prune_keys-IsMap :
    (cutoff : ℕ) (ks : List Text) (m : Table) → IsMap m → IsMap (prune_keys cutoff ks m)
unfolding prune_keys prune_key
prune_keys-IsMap cutoff [] m once = once
prune_keys-IsMap cutoff (k ∷ ks) m once =
    prune_keys-IsMap cutoff ks (prune_key cutoff k m) (elim (Option-cases (get k m)) [
      | inl n ↦ rw (n, prune_key) once
      | inr (r, e) ↦ elim (Bool-cases (ltb r.recorded_at cutoff)) [
        | inl old ↦ rw (e, prune_key) (rw old (delete-IsMap k m once))
        | inr fresh ↦ rw (e, prune_key) (rw fresh once)
      ]
    ])

prune_key-here :
    (cutoff : ℕ) (j : Text) (v : FailedWelcomeRecord) (m : Table)
    → prune_key cutoff j ((j, v) ∷ m) ≡ (if ltb v.recorded_at cutoff then m else (j, v) ∷ m)
unfolding prune_key get delete
prune_key-here cutoff j v m = rw (same_refl j, prune_key) (rw (same_refl j) refl)

values-prune_keys :
    (cutoff : ℕ) (m : Table)
    → IsMap m
    → values (prune_keys cutoff (keys m) m) ≡ keep (is_since cutoff) (values m)
unfolding prune_keys keys keep
values-prune_keys cutoff [] once = refl
values-prune_keys cutoff ((j, v) ∷ m) once = elim (Bool-cases (ltb v.recorded_at cutoff)) [
  | inl old ↦
      let since : is_since cutoff v ≡ false = ground arith in
      ap (λ t. values (prune_keys cutoff (keys m) t)) (prune_key-here cutoff j v m ∙ rw old refl)
      ∙ values-prune_keys cutoff m once.1
      ∙ rw since refl
  | inr fresh ↦
      let since : is_since cutoff v ≡ true = ground arith in
      ap (λ t. values (prune_keys cutoff (keys m) t)) (prune_key-here cutoff j v m ∙ rw fresh refl)
      ∙ ap values (prune_keys-lacks cutoff (keys m) j v m (lacks-keys j m once.0))
      ∙ ap (λ rs. v ∷ rs) (values-prune_keys cutoff m once.1)
      ∙ rw since refl
]

-- A load after a prune is the load before it with the age as its filter: the prune removes exactly the
-- records that are older than the given time, and no load shows anything else of it. The table holds
-- no key twice.
pub load_failed_welcomes-prune :
    (ms now : ℕ) (limit : Option ℕ) (d : FailedWelcomes)
    → IsMap d.records
    → load_failed_welcomes none limit (prune_older_than ms now d)
      ≡ load_failed_welcomes (some (now - ms)) limit d
unfolding load_failed_welcomes prune_older_than dispatch_changed
load_failed_welcomes-prune ms now limit d once =
    let pruned = prune_keys (now - ms) (keys d.records) d.records in
    ap (λ rs. limit_to limit (sort_newest rs))
      (read_all-keys pruned (prune_keys-IsMap (now - ms) (keys d.records) d.records once)
        ∙ values-prune_keys (now - ms) d.records once
        ∙ ap (keep (is_since (now - ms))) (sym (read_all-keys d.records once)))
