-- ===== src/Adapter/Epochs.antt =====
-- A batch of `doIngestBatch` in src/integration/marmot-adapter.ts: its epochs and its envelopes.
use notestr.Prelude.{
  ℕ, Text, Option, none, some, List, [], ◌∷◌, ◌++◌, ltb, ltb→lt, ◌==◌, subst, ◌<◌, ◌⊎◌, inl, inr,
  ◌≡◌, refl, ap, ◌∙◌, Bool-cases, Option-cases, if◌then◌else◌,
}
use notestr.Prelude.Dict.{Dict, get}
use notestr.Engine.Types.{
  ReceiptSource, RawProtocolFact, RawProtocolFactInput, IngestSignal, message, deferred, skipped,
  malformed, epoch_advanced, unreadable,
}
use notestr.Adapter.{Json, is_task_event}
use notestr.Domain.Events.{task_event_kind}
use notestr.Adapter.Messages.{
  Thrown, Decoder, IngestOutcome, application_message, new_state, skipped_event, rejected_event,
  unreadable_event, IngestResult, translate_content, translate_application_message, fact_of,
  translate_result, epoch_change, ingest_results,
}
use notestr.Outbox.Bridge.{Bridge}

-- The envelope that a signal reports.
abbrev pub envelope : IngestSignal → Option RawProtocolFactInput
envelope (message s) = some s.fact
envelope (deferred fact reason epoch) = some fact
envelope (skipped fact) = some fact
envelope (malformed fact error) = some fact
envelope (epoch_advanced new_epoch prev_epoch) = none

abbrev pub prepend {ℓ} : {A : Type ℓ} → Option A → List A → List A
prepend none xs = xs
prepend (some x) xs = x ∷ xs

unfoldable pub envelopes : List IngestSignal → List RawProtocolFactInput
envelopes [] = []
envelopes (s ∷ ss) = prepend (envelope s) (envelopes ss)

envelopes-append : (ss ts : List IngestSignal) → envelopes (ss ++ ts) ≡ envelopes ss ++ envelopes ts
unfolding envelopes
envelopes-append [] ts = refl
envelopes-append (s ∷ ss) ts = elim (Option-cases (envelope s)) [
  | inl n ↦ rw n (envelopes-append ss ts)
  | inr (fact, e) ↦ rw e (ap (λ fs. fact ∷ fs) (envelopes-append ss ts))
]

prepend-append :
    (o : Option RawProtocolFactInput) (xs : List RawProtocolFactInput)
    → prepend o [] ++ xs ≡ prepend o xs
prepend-append none xs = refl
prepend-append (some x) xs = refl

Sum-cases : {A B : Type 0} (x : A ⊎ B) → ((a : A) × (x ≡ inl a)) ⊎ ((b : B) × (x ≡ inr b))
Sum-cases (inl a) = inl (a, refl)
Sum-cases (inr b) = inr (b, refl)

module _ {Bytes : Type 0} (decoder : Decoder Bytes) where
  -- A new state is no envelope's outcome that is reported.
  abbrev pub reported : IngestOutcome Bytes → RawProtocolFactInput → Option RawProtocolFactInput
  reported new_state fact = none
  reported _ fact = some fact

  -- The envelope that is expected of a result: a resubmitted event keeps its stored envelope, and any
  -- other is received now, at the epoch after it.
  unfoldable pub expected_envelope :
      (group_id : Text)
      → ReceiptSource
      → Dict RawProtocolFact
      → IngestResult Bytes
      → RawProtocolFactInput
  expected_envelope g src originals r = kept (get r.event.id originals)
    where
      kept : Option RawProtocolFact → RawProtocolFactInput
      kept (some original) = original.input
      kept none = record {
        id = r.event.id;
        group_id = g;
        nostr_event_id = r.event.id;
        nostr_event = r.event;
        received_at = r.now;
        receipt_source = src;
        epoch_at_receipt = decoder.show_epoch r.epoch_after;
      }

  fact_of-expected_envelope :
      (g : Text) (src : ReceiptSource) (originals : Dict RawProtocolFact) (r : IngestResult Bytes)
      → fact_of decoder g src originals r ≡ expected_envelope g src originals r
  unfolding fact_of expected_envelope
  fact_of-expected_envelope g src originals r = elim (Option-cases (get r.event.id originals)) [
    | inl n ↦ rw (n, fact_of) refl
    | inr (original, n) ↦ rw (n, fact_of) refl
  ]

  -- From one epoch to another, the changes that are announced follow one another upwards.
  pub data EpochRun : ℕ → List IngestSignal → ℕ → Type 0 where
    ended : {n : ℕ} → EpochRun n [] n
    stays :
        {n k : ℕ} {ss : List IngestSignal} (s : IngestSignal) (fact : RawProtocolFactInput)
        → envelope s ≡ some fact
        → EpochRun n ss k
        → EpochRun n (s ∷ ss) k
    advances :
        {n m k : ℕ} {ss : List IngestSignal}
        → n < m
        → EpochRun m ss k
        → EpochRun n (epoch_advanced (decoder.show_epoch m) (decoder.show_epoch n) ∷ ss) k

  unfoldable pub highest : ℕ → List (IngestResult Bytes) → ℕ
  highest n [] = n
  highest n (r ∷ rs) = highest (if ltb n r.epoch_after then r.epoch_after else n) rs

  unfoldable pub reports :
      (group_id : Text)
      → ReceiptSource
      → Dict RawProtocolFact
      → List (IngestResult Bytes)
      → List RawProtocolFactInput
  reports g src originals [] = []
  reports g src originals (r ∷ rs) =
      prepend (reported r.outcome (expected_envelope g src originals r))
        (reports g src originals rs)

  translate_content-envelope :
      (id : Text) (fact : RawProtocolFactInput) (epoch : Text) (src : ReceiptSource)
      (x : Thrown ⊎ Json)
      → envelope (translate_content decoder id fact epoch src x) ≡ some fact
  unfolding translate_content
  translate_content-envelope id fact epoch src (inl err) = refl
  translate_content-envelope id fact epoch src (inr parsed) =
      elim (Option-cases (is_task_event parsed)) [
        | inl n ↦ rw (n, translate_content) refl
        | inr (payload, e) ↦ rw (e, translate_content) refl
      ]

  translate_application_message-envelope :
      (decrypted : Bytes) (fact : RawProtocolFactInput) (epoch : Text) (src : ReceiptSource)
      → envelope (translate_application_message decoder decrypted fact epoch src) ≡ some fact
  unfolding translate_application_message
  translate_application_message-envelope decrypted fact epoch src =
      elim (Sum-cases (decoder.deserialize decrypted)) [
        | inl (err, e) ↦ rw (e, translate_application_message) refl
        | inr (rumor, e) ↦ elim (Bool-cases (rumor.kind == task_event_kind)) [
          | inl ours ↦
              rw (e, translate_application_message)
                (rw ours (
                  translate_content-envelope rumor.id fact epoch src (decoder.parse rumor.content)))
          | inr foreign ↦ rw (e, translate_application_message) (rw foreign refl)
        ]
      ]

  epoch_change-EpochRun :
      (k : ℕ) (ss : List IngestSignal) (n m : ℕ)
      → EpochRun (if ltb n m then m else n) ss k
      → EpochRun n (epoch_change decoder n m ++ ss) k
  epoch_change-EpochRun k ss n m run = elim (Bool-cases (ltb n m)) [
    | inl up ↦
        rw up (advances (ltb→lt n m up) (subst (λ c. EpochRun (if c then m else n) ss k) up run))
    | inr flat ↦ rw flat (subst (λ c. EpochRun (if c then m else n) ss k) flat run)
  ]

  epoch_change-envelopes : (n m : ℕ) → envelopes (epoch_change decoder n m) ≡ []
  unfolding envelopes
  epoch_change-envelopes n m = elim (Bool-cases (ltb n m)) [
    | inl up ↦ rw up refl
    | inr flat ↦ rw flat refl
  ]

  module _ (g : Text) (src : ReceiptSource) where
    translate_result-envelopes :
        (fact : RawProtocolFactInput) (epoch : Text) (now : ℕ) (o : IngestOutcome Bytes)
        (b : Bridge)
        → envelopes (translate_result decoder g fact epoch src now o b).0
          ≡ prepend (reported o fact) []
    unfolding translate_result envelopes
    translate_result-envelopes fact epoch now (application_message decrypted) b =
        rw (translate_application_message-envelope decrypted fact epoch src) refl
    translate_result-envelopes fact epoch now new_state b = refl
    translate_result-envelopes fact epoch now skipped_event b = refl
    translate_result-envelopes fact epoch now rejected_event b = refl
    translate_result-envelopes fact epoch now unreadable_event b = refl

    translate_result-EpochRun :
        {n k : ℕ} {ss : List IngestSignal} (fact : RawProtocolFactInput) (epoch : Text) (now : ℕ)
        (o : IngestOutcome Bytes) (b : Bridge)
        → EpochRun n ss k
        → EpochRun n ((translate_result decoder g fact epoch src now o b).0 ++ ss) k
    unfolding translate_result
    translate_result-EpochRun fact epoch now (application_message decrypted) b run =
        stays (translate_application_message decoder decrypted fact epoch src) fact
          (translate_application_message-envelope decrypted fact epoch src) run
    translate_result-EpochRun fact epoch now new_state b run = run
    translate_result-EpochRun fact epoch now skipped_event b run =
        stays (skipped fact) fact refl run
    translate_result-EpochRun fact epoch now rejected_event b run =
        stays (skipped fact) fact refl run
    translate_result-EpochRun fact epoch now unreadable_event b run =
        stays (deferred fact unreadable epoch) fact refl run

    ingest_results-EpochRun :
        (originals : Dict RawProtocolFact) (n : ℕ) (rs : List (IngestResult Bytes)) (b : Bridge)
        → EpochRun n (ingest_results decoder g src originals n rs b).0 (highest n rs)
    unfolding ingest_results highest
    ingest_results-EpochRun originals n [] b = ended
    ingest_results-EpochRun originals n (r ∷ rs) b =
        let fact = fact_of decoder g src originals r in
        let epoch = decoder.show_epoch r.epoch_after in
        let b' = (translate_result decoder g fact epoch src r.now r.outcome b).1 in
        let last = if ltb n r.epoch_after then r.epoch_after else n in
        let rest = (ingest_results decoder g src originals last rs b').0 in
        translate_result-EpochRun fact epoch r.now r.outcome b (
          epoch_change-EpochRun (highest last rs) rest n r.epoch_after
            (ingest_results-EpochRun originals last rs b'))

    ingest_results-envelopes :
        (originals : Dict RawProtocolFact) (n : ℕ) (rs : List (IngestResult Bytes)) (b : Bridge)
        → envelopes (ingest_results decoder g src originals n rs b).0 ≡ reports g src originals rs
    unfolding ingest_results reports envelopes
    ingest_results-envelopes originals n [] b = refl
    ingest_results-envelopes originals n (r ∷ rs) b =
        let fact = fact_of decoder g src originals r in
        let epoch = decoder.show_epoch r.epoch_after in
        let (signals, b') = translate_result decoder g fact epoch src r.now r.outcome b in
        let last = if ltb n r.epoch_after then r.epoch_after else n in
        let rest = (ingest_results decoder g src originals last rs b').0 in
        let change = epoch_change decoder n r.epoch_after in
        envelopes-append signals (change ++ rest)
        ∙ ap (λ es. es ++ envelopes (change ++ rest))
            (translate_result-envelopes fact epoch r.now r.outcome b)
        ∙ ap (λ es. prepend (reported r.outcome fact) [] ++ es)
            (envelopes-append change rest
              ∙ ap (λ es. es ++ envelopes rest) (epoch_change-envelopes n r.epoch_after)
              ∙ ingest_results-envelopes originals last rs b')
        ∙ prepend-append (reported r.outcome fact) (reports g src originals rs)
        ∙ ap (λ f. prepend (reported r.outcome f) (reports g src originals rs))
            (fact_of-expected_envelope g src originals r)

    -- For every batch, every state of the outbox bridge and every set of resubmitted facts: each result
    -- of the library but a new state is reported exactly once, in order and with its own envelope,
    -- which is the stored one where the event is resubmitted and otherwise has the event, the group, the
    -- time of the receipt, its source and the epoch after the result; and the changes of the epoch that the
    -- signals announce follow one another upwards, from the epoch before the batch to the highest
    -- that the group had after a result.
    pub ingest_results-reports :
        (originals : Dict RawProtocolFact) (n : ℕ) (rs : List (IngestResult Bytes)) (b : Bridge)
        → (envelopes (ingest_results decoder g src originals n rs b).0 ≡ reports g src originals rs)
          × EpochRun n (ingest_results decoder g src originals n rs b).0 (highest n rs)
    ingest_results-reports originals n rs b =
        (ingest_results-envelopes originals n rs b, ingest_results-EpochRun originals n rs b)
