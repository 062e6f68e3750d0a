-- ===== src/Domain/TieBreak/Order.antt =====
-- The tie-break rule is a strict order, total on the three compared fields.
use notestr.Prelude.{
  refl, ◌≡◌, ◌⊎◌, true, false, arith, same_iff, before_irrefl, before_trans, before_total, same,
  before, Bool, if◌then◌else◌, Text,
}
use notestr.Domain.Events.{TieBreakFields}
use notestr.Domain.TieBreak.{task_wins_over, device_of}

-- The three fields that the rule compares agree.
pub record SameStamp (a b : TieBreakFields) : Type 0 where
  pub same_time : a.updated_at ≡ b.updated_at
  pub same_author : a.updated_by ≡ b.updated_by
  pub same_device : device_of a ≡ device_of b

pub task_wins_over_irrefl : (a b : TieBreakFields) → SameStamp a b → task_wins_over a b ≡ false
unfolding task_wins_over
task_wins_over_irrefl a b h =
    ground (arith, before_irrefl (device_of b), before_irrefl b.updated_by)

-- The second and the third level, as a function of the texts.
abbrev by_writer : Text → Text → Text → Text → Bool
by_writer x d y e = if same x y then before d e else before x y

by_writer_trans :
    (x d y e z f : Text)
    → by_writer x d y e ≡ true
    → by_writer y e z f ≡ true
    → by_writer x d z f ≡ true
by_writer_trans x d y e z f h k = ground (
  arith,
  same_iff x y,
  same_iff y z,
  same_iff x z,
  before_irrefl y,
  before_irrefl z,
  before_trans x y z,
  before_trans d e f,
  before_trans z y z,
  before_trans y z y,
)

pub task_wins_over_trans :
    (a b c : TieBreakFields)
    → task_wins_over a b ≡ true
    → task_wins_over b c ≡ true
    → task_wins_over a c ≡ true
unfolding task_wins_over
task_wins_over_trans a b c h k = ground (
  arith,
  by_writer_trans a.updated_by (device_of a) b.updated_by (device_of b) c.updated_by (device_of c),
)

pub task_wins_over_total :
    (a b : TieBreakFields)
    → (task_wins_over a b ≡ true) ⊎ (task_wins_over b a ≡ true) ⊎ SameStamp a b
unfolding task_wins_over
task_wins_over_total a b = ground (
  arith,
  same_iff a.updated_by b.updated_by,
  same_iff b.updated_by a.updated_by,
  before_total a.updated_by b.updated_by,
  before_total (device_of a) (device_of b),
)

pub task_wins_over_asymm :
    (a b : TieBreakFields) → task_wins_over a b ≡ true → task_wins_over b a ≡ false
task_wins_over_asymm a b h = ground (
  arith,
  task_wins_over_trans a b a,
  task_wins_over_irrefl a a (record { same_time = refl; same_author = refl; same_device = refl }),
)

-- One comparison of the merge decides: a winner exists for any two stamps unless they tie, no two
-- stamps win over each other, and winning is transitive.
pub task_wins_over_order :
    (a b c : TieBreakFields)
    → ((task_wins_over a b ≡ true) ⊎ (task_wins_over b a ≡ true) ⊎ SameStamp a b)
      × (task_wins_over a b ≡ true → task_wins_over b a ≡ false)
      × (SameStamp a b → task_wins_over a b ≡ false)
      × (task_wins_over a b ≡ true → task_wins_over b c ≡ true → task_wins_over a c ≡ true)
task_wins_over_order a b c = (
  task_wins_over_total a b,
  task_wins_over_asymm a b,
  task_wins_over_irrefl a b,
  task_wins_over_trans a b c,
)
