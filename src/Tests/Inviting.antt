-- ===== src/Tests/Inviting.antt =====
-- The failed invitations on concrete data.
use notestr.Prelude.{ℕ, ◌-◌, ◌≡◌, refl, Text, lit, none, some, [], ◌∷◌, same}
use notestr.Prelude.Dict.{has, IsMap}
use notestr.FailedWelcomes.{
  FailedWelcomeRecord, FailedWelcomes, load_failed_welcomes, prune_older_than,
}
use notestr.FailedWelcomes.Prune.{load_failed_welcomes-prune}

abbrev failed_at : Text → ℕ → FailedWelcomeRecord
failed_at id at = record {
  recorded_at = at;
  gift_wrap_event_id = id;
  inner_kind = 444;
  inner_created_at = 0;
  inviter_pubkey = none;
  group_id = none;
  kp_ref = none;
  failure_reason = lit "unknown";
  failure_detail = [];
}

abbrev failures : FailedWelcomes
failures = record {
  records =
      (lit "a", failed_at (lit "a") 10)
      ∷ (lit "b", failed_at (lit "b") 40)
      ∷ (lit "c", failed_at (lit "c") 70)
      ∷ [];
  announced = 0;
}

failures-IsMap : IsMap failures.records
unfolding has same
failures-IsMap = (refl, (refl, (refl, tt)))

load_failed_welcomes-prune_example :
    load_failed_welcomes none (some 5) (prune_older_than 60 100 failures)
    ≡ load_failed_welcomes (some (100 - 60)) (some 5) failures
load_failed_welcomes-prune_example =
    load_failed_welcomes-prune 60 100 (some 5) failures failures-IsMap
