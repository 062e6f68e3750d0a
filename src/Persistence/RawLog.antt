-- ===== src/Persistence/RawLog.antt =====
-- The raw log of src/persistence/raw-event-log-store.ts: positions rise, ids are distinct, and a
-- duplicate delivery changes nothing.
use notestr.Prelude.{
  ℕ, ◌≤◌, ◌<◌, ◌≡◌, refl, ap, ◌∙◌, Text, Bool, true, false, none, some, List, [], ◌∷◌, ◌++◌, All,
  any, find, any-append, any-find-none, same, same_iff, same_refl, arith, Option-cases, inl, inr,
  lit, same-append, if◌then◌else◌,
}
use mathlib.Core.Path.{subst₂}
use notestr.Prelude.Dict.{set, get-set}
use notestr.Engine.Types.{RawProtocolFact, RawProtocolFactInput, AppendFactResult, raw_facts_key}
use notestr.Persistence.{
  Disk, stored_facts, next_seq, append_fact_update, append_fact, insert_by_seq, sort_by_seq,
  load_facts,
}

-- The positions rise along the log, all above `n`.
abbrev pub Rising : ℕ → List RawProtocolFact → Type 0
Rising n [] = Unit
Rising n (f ∷ fs) = (n < f.seq) × Rising f.seq fs

abbrev pub has_id : Text → RawProtocolFact → Bool
has_id id f = same f.id id

abbrev pub Distinct : List RawProtocolFact → Type 0
Distinct [] = Unit
Distinct (f ∷ fs) = (any (has_id f.id) fs ≡ false) × Distinct fs

pub record IsLog (fs : List RawProtocolFact) : Type 0 where
  pub rising : Rising 0 fs
  pub distinct : Distinct fs

next_seq-pos : (fs : List RawProtocolFact) → 0 < next_seq fs
unfolding next_seq
next_seq-pos [] = omega arith
next_seq-pos (f ∷ []) = omega arith
next_seq-pos (f ∷ g ∷ fs) = next_seq-pos (g ∷ fs)

next_seq_above :
    (n : ℕ) (f : RawProtocolFact) (fs : List RawProtocolFact)
    → Rising n (f ∷ fs)
    → n < next_seq (f ∷ fs)
unfolding next_seq
next_seq_above n f [] h = omega arith
next_seq_above n f (g ∷ fs) h = omega (arith, next_seq_above f.seq g fs h.1)

-- The next position is above every position of the log.
pub seq-lt-next_seq :
    (n : ℕ) (fs : List RawProtocolFact) → Rising n fs → All (λ f. f.seq < next_seq fs) fs
unfolding next_seq
seq-lt-next_seq n [] h = tt
seq-lt-next_seq n (f ∷ []) h = (omega arith, tt)
seq-lt-next_seq n (f ∷ g ∷ fs) h =
    (next_seq_above f.seq g fs h.1, seq-lt-next_seq f.seq (g ∷ fs) h.1)

Rising-snoc :
    (n : ℕ) (fs : List RawProtocolFact) (f : RawProtocolFact)
    → Rising n fs
    → n < f.seq
    → next_seq fs ≤ f.seq
    → Rising n (fs ++ f ∷ [])
unfolding next_seq
Rising-snoc n [] f h p q = (p, tt)
Rising-snoc n (g ∷ []) f h p q = (h.0, (omega arith, tt))
Rising-snoc n (g ∷ k ∷ fs) f h p q =
    (h.0, Rising-snoc g.seq (k ∷ fs) f h.1 (omega (arith, next_seq_above g.seq k fs h.1)) q)

Distinct-snoc :
    (fs : List RawProtocolFact) (f : RawProtocolFact)
    → Distinct fs
    → any (has_id f.id) fs ≡ false
    → Distinct (fs ++ f ∷ [])
unfolding any
Distinct-snoc [] f h p = (refl, tt)
Distinct-snoc (g ∷ fs) f h p = (
  any-append (has_id g.id) fs (f ∷ []) ∙ ground (arith, same_iff g.id f.id, same_iff f.id g.id),
  Distinct-snoc fs f h.1 (ground arith),
)

find-snoc :
    (fs : List RawProtocolFact) (f : RawProtocolFact)
    → find (has_id f.id) fs ≡ none
    → find (has_id f.id) (fs ++ f ∷ []) ≡ some f
unfolding find
find-snoc [] f h = ground (arith, same_refl f.id)
find-snoc (g ∷ fs) f h = ground (arith, find-snoc fs f)

insert_by_seq_first :
    (f : RawProtocolFact) (fs : List RawProtocolFact)
    → Rising f.seq fs
    → insert_by_seq f fs ≡ f ∷ fs
unfolding insert_by_seq
insert_by_seq_first f [] h = refl
insert_by_seq_first f (g ∷ fs) h = ground arith

sort_by_seq-Rising : (n : ℕ) (fs : List RawProtocolFact) → Rising n fs → sort_by_seq fs ≡ fs
unfolding sort_by_seq
sort_by_seq-Rising n [] h = refl
sort_by_seq-Rising n (f ∷ fs) h =
    ap (insert_by_seq f) (sort_by_seq-Rising f.seq fs h.1) ∙ insert_by_seq_first f fs h.1

-- `loadFacts` gives the facts of a well-formed log in the order of their appends.
load_facts-IsLog :
    (d : Disk) (g : Text) → IsLog (stored_facts d g) → load_facts d g ≡ stored_facts d g
unfolding load_facts
load_facts-IsLog d g h = sort_by_seq-Rising 0 (stored_facts d g) h.rising

-- What an append does to a log of facts and what it answers.
pub record Appended (old new : List RawProtocolFact) (fact : RawProtocolFactInput)
    (r : AppendFactResult) : Type 0 where
  pub answer : find (has_id fact.id) new ≡ some r.fact
  pub on_duplicate : r.duplicate ≡ true → (new ≡ old) × (find (has_id fact.id) old ≡ some r.fact)
  pub on_fresh :
      r.duplicate ≡ false
      → (new ≡ old ++ r.fact ∷ []) × (r.fact.input ≡ fact) × All (λ f. f.seq < r.fact.seq) old

append_fact_update_lem :
    (fs : List RawProtocolFact) (fact : RawProtocolFactInput)
    → IsLog fs
    → IsLog (append_fact_update fs fact).1
      × Appended fs (append_fact_update fs fact).1 fact (append_fact_update fs fact).0
unfolding append_fact_update
append_fact_update_lem fs fact h = elim (Option-cases (find (has_id fact.id) fs)) [
  | inr (g, e) ↦
      rw (e, append_fact_update)
        (h, record { answer = e; on_duplicate = λ _. (refl, e); on_fresh = λ p. cc })
  | inl e ↦
      let f : RawProtocolFact = record { input = fact; seq = next_seq fs } in
      rw (e, append_fact_update)
        (
          record {
            rising = Rising-snoc 0 fs f h.rising (next_seq-pos fs) (omega arith);
            distinct = Distinct-snoc fs f h.distinct (any-find-none (has_id fact.id) fs e);
          },
          record {
            answer = find-snoc fs f e;
            on_duplicate = λ p. cc;
            on_fresh = λ _. (refl, refl, seq-lt-next_seq 0 fs h.rising);
          },
        )
]

same-raw_facts_key : (g h : Text) → same (raw_facts_key g) (raw_facts_key h) ≡ same g h
unfolding raw_facts_key
same-raw_facts_key g h = same-append (lit "notestr:raw-facts:") g h

stored_facts-set :
    (d : Disk) (g h : Text) (fs : List RawProtocolFact)
    → stored_facts (record d { raw_facts = set (raw_facts_key g) fs d.raw_facts }) h
      ≡ (if same g h then fs else stored_facts d h)
unfolding stored_facts
stored_facts-set d g h fs =
    ground
      (arith, get-set (raw_facts_key g) (raw_facts_key h) fs d.raw_facts, same-raw_facts_key g h)

abbrev LogAfter : Disk → Disk → RawProtocolFactInput → AppendFactResult → Type 0
LogAfter d d' fact r =
    IsLog (stored_facts d' fact.group_id)
    × Appended (stored_facts d fact.group_id) (stored_facts d' fact.group_id) fact r
    × ((h : Text) → same fact.group_id h ≡ false → stored_facts d' h ≡ stored_facts d h)

-- The group's log after the updater.
abbrev updated : Disk → RawProtocolFactInput → AppendFactResult × List RawProtocolFact
updated d fact = append_fact_update (stored_facts d fact.group_id) fact

abbrev written : Disk → RawProtocolFactInput → Disk
written d fact = record d {
  raw_facts = set (raw_facts_key fact.group_id) (updated d fact).1 d.raw_facts;
}

append_fact-eq-some :
    (d d' : Disk) (fact : RawProtocolFactInput) (r : AppendFactResult)
    → append_fact d fact ≡ some (r, d')
    → ((updated d fact).0 ≡ r) × (written d fact ≡ d')
unfolding append_fact
append_fact-eq-some d d' fact r e = ground arith

updated-written :
    (d : Disk) (fact : RawProtocolFactInput)
    → stored_facts (written d fact) fact.group_id ≡ (updated d fact).1
updated-written d fact =
    stored_facts-set d fact.group_id fact.group_id (updated d fact).1
    ∙ ground (arith, same_refl fact.group_id)

written-LogAfter :
    (d : Disk) (fact : RawProtocolFactInput)
    → IsLog (stored_facts d fact.group_id)
    → LogAfter d (written d fact) fact (updated d fact).0
written-LogAfter d fact h =
    let done = append_fact_update_lem (stored_facts d fact.group_id) fact h in
    (
      rw (updated-written d fact) done.0,
      rw (updated-written d fact) done.1,
      λ k ne. ground (arith, stored_facts-set d fact.group_id k (updated d fact).1),
    )

-- An append that returns keeps the group's log well formed: positions rise and ids are distinct.
-- A duplicate id gets the stored fact back and leaves the log; a fresh one goes to the end at a
-- position above all others. The logs of other groups stay.
pub append_fact-Appended :
    (d d' : Disk) (fact : RawProtocolFactInput) (r : AppendFactResult)
    → IsLog (stored_facts d fact.group_id)
    → append_fact d fact ≡ some (r, d')
    → IsLog (stored_facts d' fact.group_id)
      × Appended (stored_facts d fact.group_id) (stored_facts d' fact.group_id) fact r
      × ((h : Text) → same fact.group_id h ≡ false → stored_facts d' h ≡ stored_facts d h)
append_fact-Appended d d' fact r h e =
    let same_result = append_fact-eq-some d d' fact r e in
    subst₂ (λ x y. LogAfter d x fact y) same_result.1 same_result.0 (written-LogAfter d fact h)
