-- ===== src/Engine/Policy/Queue.antt =====
-- The queue of parked facts keeps within its cap, and drops the eldest first.
use notestr.Prelude.{
  ℕ, zero, suc, ◌+◌, ◌-◌, ◌≤◌, ◌≡◌, refl, Text, true, false, some, List, [], ◌∷◌, ◌++◌, length,
  length-drop, drop, arith, same_iff, ltb, if◌then◌else◌, Bool-cases, inl, inr,
}
use notestr.Prelude.Dict.{Dict, IsMap, has, set, delete, set-IsMap, delete-IsMap}
use notestr.Engine.Types.{RawProtocolFact, DeferredReason}
use notestr.Engine.Policy.{
  IngestPolicy, IngestPolicyOptions, DeferredPolicyEntry, create_ingest_policy, mark_processed,
  evict_eldest, enqueue_deferred, remove_deferred, record_attempt, refund_attempt, update_entry,
  expired_ids, delete_all, prune_deferred,
}

-- No fact is parked twice, the queue is within its cap, each entry stands under its own id.
abbrev Named : Dict DeferredPolicyEntry → Type 0
Named [] = Unit
Named ((k, e) ∷ m) = (e.fact_id ≡ k) × Named m

pub record IsQueue (p : IngestPolicy) : Type 0 where
  pub once : IsMap p.waiting
  pub within_cap : length p.waiting ≤ p.max_deferred_size
  pub named : Named p.waiting

set_fresh :
    (k : Text) (e : DeferredPolicyEntry) (m : Dict DeferredPolicyEntry)
    → has k m ≡ false
    → set k e m ≡ m ++ (k, e) ∷ []
unfolding set has
set_fresh k e [] h = refl
set_fresh k e ((j, f) ∷ m) h = ground (arith, set_fresh k e m)

-- Eviction keeps the youngest entries, as many as the cap allows.
evict_eldest-drop :
    (max : ℕ) (m : Dict DeferredPolicyEntry) → evict_eldest max m ≡ drop (length m - max) m
unfolding evict_eldest
evict_eldest-drop max [] = let z : 0 - max ≡ 0 = omega arith in rw z
evict_eldest-drop max (e ∷ m) = elim (Bool-cases (ltb max (length (e ∷ m)))) [
  | inl b ↦
      let z : length (e ∷ m) - max ≡ suc (length m - max) = ground arith in
      rw (b, z) (evict_eldest-drop max m)
  | inr b ↦ let z : length (e ∷ m) - max ≡ 0 = ground arith in rw (b, z)
]

drop-IsMap : (n : ℕ) (m : Dict DeferredPolicyEntry) → IsMap m → IsMap (drop n m)
drop-IsMap zero m h = h
drop-IsMap (suc n) [] h = h
drop-IsMap (suc n) (e ∷ m) h = drop-IsMap n m h.1

drop-Named : (n : ℕ) (m : Dict DeferredPolicyEntry) → Named m → Named (drop n m)
drop-Named zero m h = h
drop-Named (suc n) [] h = h
drop-Named (suc n) (e ∷ m) h = drop-Named n m h.1

set-Named :
    (k : Text) (e : DeferredPolicyEntry) (m : Dict DeferredPolicyEntry)
    → e.fact_id ≡ k
    → Named m
    → Named (set k e m)
unfolding set
set-Named k e [] p h = (p, tt)
set-Named k e ((j, f) ∷ m) p h = ground (arith, set-Named k e m p h.1, same_iff j k)

delete-Named : (k : Text) (m : Dict DeferredPolicyEntry) → Named m → Named (delete k m)
unfolding delete
delete-Named k [] h = tt
delete-Named k ((j, f) ∷ m) h = ground (arith, delete-Named k m h.1)

length-delete-le : (k : Text) (m : Dict DeferredPolicyEntry) → length (delete k m) ≤ length m
unfolding delete
length-delete-le k [] = omega arith
length-delete-le k (e ∷ m) = ground (arith, length-delete-le k m)

module _ (f : DeferredPolicyEntry → DeferredPolicyEntry) (k : Text) where
  pub length-update_entry : (m : Dict DeferredPolicyEntry) → length (update_entry f k m) ≡ length m
  unfolding update_entry
  length-update_entry [] = refl
  length-update_entry (e ∷ m) = ground (arith, length-update_entry m)

  has-update_entry :
      (j : Text) (m : Dict DeferredPolicyEntry) → has j (update_entry f k m) ≡ has j m
  unfolding update_entry has
  has-update_entry j [] = refl
  has-update_entry j (e ∷ m) = ground (arith, has-update_entry j m)

  update_entry-IsMap : (m : Dict DeferredPolicyEntry) → IsMap m → IsMap (update_entry f k m)
  unfolding update_entry
  update_entry-IsMap [] h = tt
  update_entry-IsMap (e ∷ m) h = ground (arith, update_entry-IsMap m h.1, has-update_entry e.0 m)

  update_entry-Named :
      ((e : DeferredPolicyEntry) → (f e).fact_id ≡ e.fact_id)
      → (m : Dict DeferredPolicyEntry) → Named m
      → Named (update_entry f k m)
  unfolding update_entry
  update_entry-Named q [] h = tt
  update_entry-Named q ((j, e) ∷ m) h = ground (arith, update_entry-Named q m h.1, q e)

set-IsQueue_waiting :
    (p : IngestPolicy) (m : Dict DeferredPolicyEntry)
    → IsMap m
    → Named m
    → IsQueue (record p { waiting = evict_eldest p.max_deferred_size m })
set-IsQueue_waiting p m o n = rw (evict_eldest-drop p.max_deferred_size m) (record {
  once = drop-IsMap (length m - p.max_deferred_size) m o;
  within_cap = omega (arith, length-drop (length m - p.max_deferred_size) m);
  named = drop-Named (length m - p.max_deferred_size) m n;
})

pub enqueue_deferred-IsQueue :
    (p : IngestPolicy) (id : Text) (fact : RawProtocolFact) (reason : DeferredReason) (now : ℕ)
    → IsQueue p
    → IsQueue (enqueue_deferred p id fact reason now).1
unfolding enqueue_deferred
enqueue_deferred-IsQueue p id fact reason now h = elim (Bool-cases (has id p.waiting)) [
  | inl b ↦ rw (b, enqueue_deferred) h
  | inr b ↦
      rw (b, enqueue_deferred)
        (set-IsQueue_waiting p _ (set-IsMap id _ p.waiting h.once)
          (set-Named id _ p.waiting refl h.named))
]

pub remove_deferred-IsQueue :
    (p : IngestPolicy) (id : Text) → IsQueue p → IsQueue (remove_deferred p id)
unfolding remove_deferred
remove_deferred-IsQueue p id h = record {
  once = delete-IsMap id p.waiting h.once;
  within_cap = omega (arith, length-delete-le id p.waiting, h.within_cap);
  named = delete-Named id p.waiting h.named;
}

pub record_attempt-IsQueue :
    (p : IngestPolicy) (id : Text) → IsQueue p → IsQueue (record_attempt p id)
unfolding record_attempt
record_attempt-IsQueue p id h = record {
  once = update_entry-IsMap _ id p.waiting h.once;
  within_cap =
      rw (length-update_entry (λ e. record e { attempts = e.attempts + 1 }) id p.waiting)
        h.within_cap;
  named = update_entry-Named _ id (λ e. refl) p.waiting h.named;
}

pub refund_attempt-IsQueue :
    (p : IngestPolicy) (id : Text) → IsQueue p → IsQueue (refund_attempt p id)
unfolding refund_attempt
refund_attempt-IsQueue p id h = record {
  once = update_entry-IsMap _ id p.waiting h.once;
  within_cap =
      rw (length-update_entry (λ e. record e { attempts = e.attempts - 1 }) id p.waiting)
        h.within_cap;
  named = update_entry-Named _ id (λ e. refl) p.waiting h.named;
}

pub mark_processed-IsQueue :
    (p : IngestPolicy) (id : Text) → IsQueue p → IsQueue (mark_processed p id)
unfolding mark_processed
mark_processed-IsQueue p id h = ground arith

delete_all-IsQueue :
    (p : IngestPolicy) (ids : List Text) (m : Dict DeferredPolicyEntry)
    → IsQueue (record p { waiting = m })
    → IsQueue (record p { waiting = delete_all ids m })
unfolding delete_all remove_deferred
delete_all-IsQueue p [] m h = h
delete_all-IsQueue p (id ∷ ids) m h =
    delete_all-IsQueue p ids (delete id m) (remove_deferred-IsQueue (record p { waiting = m }) id h)

pub prune_deferred-IsQueue :
    (p : IngestPolicy) (now : ℕ) → IsQueue p → IsQueue (prune_deferred p now).1
unfolding prune_deferred
prune_deferred-IsQueue p now h = delete_all-IsQueue p (expired_ids p now) p.waiting h

pub create_ingest_policy-IsQueue :
    (o : IngestPolicyOptions) (p : IngestPolicy) → create_ingest_policy o ≡ some p → IsQueue p
unfolding create_ingest_policy
create_ingest_policy-IsQueue o p e = ground arith

-- A new fact goes to the end of the queue; the entries that the cap has no room for are dropped
-- from its front. A parked fact is not queued again.
pub enqueue_deferred-drop :
    (p : IngestPolicy) (id : Text) (fact : RawProtocolFact) (reason : DeferredReason) (now : ℕ)
    → let new =
        p.waiting
        ++ (
          id,
          record { fact_id = id; fact = fact; reason = reason; queued_at = now; attempts = 0 },
        )
          ∷ [] in
      enqueue_deferred p id fact reason now ≡ (
        if has id p.waiting
        then (false, p)
        else (true, record p { waiting = drop (length new - p.max_deferred_size) new }))
unfolding enqueue_deferred
enqueue_deferred-drop p id fact reason now = elim (Bool-cases (has id p.waiting)) [
  | inl b ↦ rw (b, enqueue_deferred)
  | inr b ↦
      rw (b, enqueue_deferred, set_fresh id _ p.waiting b, evict_eldest-drop p.max_deferred_size _)
]
