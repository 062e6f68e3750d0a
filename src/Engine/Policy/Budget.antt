-- ===== src/Engine/Policy/Budget.antt =====
-- The retry budget and the age limit of parked facts.
use notestr.Prelude.{
  ℕ, zero, suc, ◌+◌, ◌≡◌, refl, ◌∙◌, ap, Text, Bool, false, some, List, [], ◌∷◌, length, All, arith,
  same, same_iff, same_refl, keep, map, ltb, leb, not, Bool-cases, inl, inr,
}
use notestr.Prelude.Dict.{Dict, IsMap, get, has, delete}
use notestr.Engine.Policy.{
  IngestPolicy, DeferredPolicyEntry, record_attempt, update_entry, retry_batch, exhausted_entries,
  entries, is_exhausted, get_all, delete_all, prune_deferred, is_expired, deferred_size,
}

-- Each parked entry is in the next batch or is exhausted, and in one of the two only.
retry_batch-exhausted_entries :
    (p : IngestPolicy) → length (retry_batch p) + length (exhausted_entries p) ≡ deferred_size p
unfolding retry_batch exhausted_entries entries deferred_size keep
retry_batch-exhausted_entries p = go p.waiting
  where
    go :
        (m : Dict DeferredPolicyEntry)
        → length (
              keep
                (λ (e : DeferredPolicyEntry). ltb e.attempts p.max_retry_attempts)
                (map (λ e. e.1) m))
            + length (
                keep
                  (λ (e : DeferredPolicyEntry). leb p.max_retry_attempts e.attempts)
                  (map (λ e. e.1) m))
          ≡ length m
    go [] = omega arith
    go (e ∷ m) = ground (arith, go m)

skip_get_all :
    (k : Text) (e : DeferredPolicyEntry) (m : Dict DeferredPolicyEntry) (ids : List Text)
    → All (λ i. same k i ≡ false) ids
    → get_all ids ((k, e) ∷ m) ≡ get_all ids m
unfolding get_all get
skip_get_all k e m [] h = refl
skip_get_all k e m (i ∷ ids) h = ground (arith, h.0, skip_get_all k e m ids h.1)

skip_delete_all :
    (k : Text) (e : DeferredPolicyEntry) (m : Dict DeferredPolicyEntry) (ids : List Text)
    → All (λ i. same k i ≡ false) ids
    → delete_all ids ((k, e) ∷ m) ≡ (k, e) ∷ delete_all ids m
unfolding delete_all delete
skip_delete_all k e m [] h = refl
skip_delete_all k e m (i ∷ ids) h = rw h.0 (skip_delete_all k e (delete i m) ids h.1)

take_get_all :
    (k : Text) (e : DeferredPolicyEntry) (m : Dict DeferredPolicyEntry) (ids : List Text)
    → get_all (k ∷ ids) ((k, e) ∷ m) ≡ e ∷ get_all ids ((k, e) ∷ m)
unfolding get_all get
take_get_all k e m ids = ground (arith, same_refl k)

delete_first :
    (k : Text) (e : DeferredPolicyEntry) (m : Dict DeferredPolicyEntry) → delete k ((k, e) ∷ m) ≡ m
unfolding delete
delete_first k e m = ground (arith, same_refl k)

abbrev old_ids : (DeferredPolicyEntry → Bool) → Dict DeferredPolicyEntry → List Text
old_ids old m = map (λ e. e.0) (keep (λ e. old e.1) m)

module _ (old : DeferredPolicyEntry → Bool) where
  old_ids-apart :
      (k : Text) (m : Dict DeferredPolicyEntry)
      → has k m ≡ false
      → All (λ i. same k i ≡ false) (old_ids old m)
  unfolding keep has
  old_ids-apart k [] h = tt
  old_ids-apart k ((j, e) ∷ m) h = ground (arith, old_ids-apart k m, same_iff k j, same_iff j k)

  get_all-old_ids :
      (m : Dict DeferredPolicyEntry)
      → IsMap m
      → get_all (old_ids old m) m ≡ map (λ e. e.1) (keep (λ e. old e.1) m)
  unfolding keep get_all
  get_all-old_ids [] h = refl
  get_all-old_ids ((k, e) ∷ m) h = elim (Bool-cases (old e)) [
    | inl b ↦ rw b (
        take_get_all k e m (old_ids old m)
        ∙ ap (◌∷◌ e)
            (skip_get_all k e m (old_ids old m) (old_ids-apart k m h.0) ∙ get_all-old_ids m h.1))
    | inr b ↦
        rw b (skip_get_all k e m (old_ids old m) (old_ids-apart k m h.0) ∙ get_all-old_ids m h.1)
  ]

  delete_all-old_ids :
      (m : Dict DeferredPolicyEntry)
      → IsMap m
      → delete_all (old_ids old m) m ≡ keep (λ e. not (old e.1)) m
  unfolding keep delete_all
  delete_all-old_ids [] h = refl
  delete_all-old_ids ((k, e) ∷ m) h = elim (Bool-cases (old e)) [
    | inl b ↦ rw b (ap (delete_all (old_ids old m)) (delete_first k e m) ∙ delete_all-old_ids m h.1)
    | inr b ↦ rw b (
        skip_delete_all k e m (old_ids old m) (old_ids-apart k m h.0)
        ∙ ap (◌∷◌ (k, e)) (delete_all-old_ids m h.1))
  ]

-- The prune removes the entries that are older than the age limit, answers with them in queue order,
-- and keeps all the others in theirs.
pub prune_deferred-keep :
    (p : IngestPolicy) (now : ℕ)
    → IsMap p.waiting
    → ((prune_deferred p now).0 ≡ map (λ e. e.1) (keep (λ e. is_expired p now e.1) p.waiting))
      × ((prune_deferred p now).1.waiting ≡ keep (λ e. not (is_expired p now e.1)) p.waiting)
unfolding prune_deferred
prune_deferred-keep p now h = (
  get_all-old_ids (is_expired p now) p.waiting h,
  delete_all-old_ids (is_expired p now) p.waiting h,
)

get-update_entry :
    (f : DeferredPolicyEntry → DeferredPolicyEntry) (k : Text) (m : Dict DeferredPolicyEntry)
    (e : DeferredPolicyEntry)
    → get k m ≡ some e
    → get k (update_entry f k m) ≡ some (f e)
unfolding get update_entry
get-update_entry f k [] e h = cc
get-update_entry f k (x ∷ m) e h = ground (arith, get-update_entry f k m e)

pub attempts_of : ℕ → IngestPolicy → Text → IngestPolicy
attempts_of zero p id = p
attempts_of (suc n) p id = attempts_of n (record_attempt p id) id

-- A parked fact is exhausted exactly when its recorded attempts reach the budget.
pub is_exhausted-attempts_of :
    (n : ℕ) (p : IngestPolicy) (id : Text) (e : DeferredPolicyEntry)
    → get id p.waiting ≡ some e
    → is_exhausted (attempts_of n p id) id ≡ leb p.max_retry_attempts (e.attempts + n)
unfolding is_exhausted attempts_of
is_exhausted-attempts_of zero p id e h = rw (h, is_exhausted) (ground arith)
is_exhausted-attempts_of (suc n) p id e h =
    is_exhausted-attempts_of n (record_attempt p id) id (record e { attempts = e.attempts + 1 })
      (unfold record_attempt in get-update_entry _ id p.waiting e h)
    ∙ unfold record_attempt in ground arith
