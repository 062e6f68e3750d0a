-- ===== src/Engine/Watermark.antt =====
-- The watermark `lastIngestedSeq` of src/engine/receive-engine.ts.
use notestr.Prelude.{
  ℕ, ◌≡◌, ◌≤◌, ◌<◌, ◌⊎◌, inl, inr, Text, none, some, List, [], ◌∷◌, ltb, All, find, arith, subst,
  true, Bool-cases,
}
use notestr.Engine.Types.{
  RawProtocolFact, RawProtocolFactInput, AppendFactResult, envelope_received,
  group_ratchet_advanced,
}
use notestr.Engine.World.{World, Exec, ◌>>=◌, ◌>>◌, pure, emit, alive, stale, advance_watermark}
use notestr.Engine.Writes.{
  single, RetryOutcome, reported, append_fact_with_retry, with_persistence_retry,
}
use notestr.Engine.Handlers.{append_or_return, landed_or_return, handle_skipped}
use notestr.Engine.Session.Waits.{
  single-Torn, Retried, wrote, refused, abandoned, with_persistence_retry-Retried,
}
use notestr.Engine.Session.Writes.{append_fact-accepted}
use notestr.Persistence.RawLog.{IsLog, has_id, append_fact-Appended}
use notestr.Persistence.{append_fact, stored_facts, load_accepted_events}

-- What is done with the fact of a skipped signal.
abbrev skip_fact : RawProtocolFact → Exec (Unit {0})
skip_fact fact = do
  advance_watermark fact.seq
  emit (envelope_received fact.id)
  emit group_ratchet_advanced

-- How the handling of a skipped signal ends: the watermark is left because the fact was not written or
-- the session has ended, or the fact is written and covered.
data Skipped (gen : ℕ) (input : RawProtocolFactInput) (w : World) : World → Type 0 where
  left_behind :
      {w' : World}
      → w'.last_ingested_seq ≡ w.last_ingested_seq
      → (w'.disk ≡ w.disk) ⊎ (stale gen w' ≡ true)
      → Skipped gen input w w'
  covered :
      {w' : World} (a : AppendFactResult)
      → append_fact w.disk input ≡ some (a, w'.disk)
      → a.fact.seq ≤ w'.last_ingested_seq
      → Skipped gen input w w'

skip_fact-covers :
    (input : RawProtocolFactInput) (gen : ℕ) (w w' : World) (a : AppendFactResult)
    → append_fact w.disk input ≡ some (a, w'.disk)
    → Skipped gen input w (skip_fact a.fact w').1
unfolding ◌>>=◌
skip_fact-covers input gen w w' a e = elim (Bool-cases (ltb w'.last_ingested_seq a.fact.seq)) [
  | inl b ↦ rw b (covered a e (ground arith))
  | inr b ↦ rw b (covered a e (ground arith))
]

-- A skipped signal covers its fact or leaves the watermark.
handle_skipped-Skipped :
    (input : RawProtocolFactInput) (gen : ℕ) (w : World)
    → Skipped gen input w (handle_skipped input gen w).1
unfolding handle_skipped append_or_return append_fact_with_retry ◌>>=◌
handle_skipped-Skipped input gen w =
    go (with_persistence_retry gen (single λ d. append_fact d input) w)
      (with_persistence_retry-Retried gen _ w)
  where
    go :
        (r : RetryOutcome AppendFactResult × World)
        → Retried gen (single λ d. append_fact d input) w r
        → Skipped gen input w
            ((((λ v. reported input.id r) >>= λ o.
                  landed_or_return o >>= λ a. alive gen >>= λ u. pure a.fact)
                >>= skip_fact)
              w).1
    go r (wrote {a = a} {w' = w'} {d = d} t e s c) = rw s (
        skip_fact-covers input gen w w' a
          (subst (λ x. append_fact x input ≡ some (a, w'.disk)) (single-Torn t) e))
    go r (refused i t) = left_behind i.2 (inl (single-Torn t))
    go r (abandoned t o c) = left_behind c.2 (inr t)

below :
    (n m : ℕ) (fs : List RawProtocolFact)
    → All (λ f. f.seq < n) fs
    → n ≤ m
    → All (λ f. f.seq ≤ m) fs
below n m [] h le = tt
below n m (f ∷ fs) h le = (ground (arith, h.0), below n m fs h.1 le)

fresh-seq :
    (input : RawProtocolFactInput) (w w' : World) (a : AppendFactResult)
    → IsLog (stored_facts w.disk input.group_id)
    → find (has_id input.id) (stored_facts w.disk input.group_id) ≡ none
    → append_fact w.disk input ≡ some (a, w'.disk)
    → All (λ f. f.seq < a.fact.seq) (stored_facts w.disk input.group_id)
fresh-seq input w w' a log new e =
    let r = (append_fact-Appended w.disk w'.disk input a log e).1 in
    elim (Bool-cases a.duplicate) [
      | inl d ↦ ground (arith, (r.on_duplicate d).1)
      | inr d ↦ (r.on_fresh d).2
    ]

-- A skipped signal with a fresh envelope ends in one of two ways. It leaves the watermark, and then the
-- stores are as they were or the session has ended; or its envelope is appended, the watermark is at or
-- past the new position and that of every fact that the log held, an event of which was not accepted
-- included, and the accepted events are as they were.
pub handle_skipped-passes :
    (input : RawProtocolFactInput) (gen : ℕ) (w : World)
    → IsLog (stored_facts w.disk input.group_id)
    → find (has_id input.id) (stored_facts w.disk input.group_id) ≡ none
    → let w' = (handle_skipped input gen w).1 in
      ((w'.last_ingested_seq ≡ w.last_ingested_seq) × ((w'.disk ≡ w.disk) ⊎ (stale gen w' ≡ true)))
      ⊎ ((a : AppendFactResult) × (append_fact w.disk input ≡ some (a, w'.disk))
          × (a.fact.seq ≤ w'.last_ingested_seq)
          × All (λ f. f.seq ≤ w'.last_ingested_seq) (stored_facts w.disk input.group_id)
          × ((g : Text) → load_accepted_events w'.disk g ≡ load_accepted_events w.disk g))
handle_skipped-passes input gen w log new =
    go (handle_skipped input gen w).1 (handle_skipped-Skipped input gen w)
  where
    go :
        (w' : World)
        → Skipped gen input w w'
        → ((w'.last_ingested_seq ≡ w.last_ingested_seq)
            × ((w'.disk ≡ w.disk) ⊎ (stale gen w' ≡ true)))
          ⊎ ((a : AppendFactResult) × (append_fact w.disk input ≡ some (a, w'.disk))
              × (a.fact.seq ≤ w'.last_ingested_seq)
              × All (λ f. f.seq ≤ w'.last_ingested_seq) (stored_facts w.disk input.group_id)
              × ((g : Text) → load_accepted_events w'.disk g ≡ load_accepted_events w.disk g))
    go w' (left_behind e o) = inl (e, o)
    go w' (covered a e le) = inr (
      a,
      e,
      le,
      below a.fact.seq w'.last_ingested_seq (stored_facts w.disk input.group_id)
          (fresh-seq input w w' a log new e) le,
      λ g. append_fact-accepted input w.disk w'.disk a g e,
    )
