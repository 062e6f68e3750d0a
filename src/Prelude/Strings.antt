-- ===== src/Prelude/Strings.antt =====
-- JavaScript strings: sequences of UTF-16 code units, compared unit by unit by `===` and `<`.
use Prim.Native.Char.{code}
use Prim.Native.String.{String}
use Prim.Native.Nat.{ℕ, compare, Ordering}
use mathlib.Core.Path.{◌≡◌, refl}
use mathlib.Core.Logic.{◌↔◌, ◌⊎◌, inl, inr}
use mathlib.Core.Bool.{Bool, true, false, ◌&&◌}
use mathlib.Core.List.{List, [], ◌∷◌, ◌++◌}
use native.Mathlib.Omega.{arith}
use notestr.Prelude.Tests.{◌==◌}

abbrev pub Text : Type 0
Text = List ℕ

-- A literal of the source, all of whose characters are below U+10000.
abbrev pub lit : String → Text
lit String.[] = []
lit (String.◌∷◌ c s) = code c ∷ lit s

-- `a === b`.
unfoldable pub same : Text → Text → Bool
same [] [] = true
same (x ∷ xs) (y ∷ ys) = (x == y) && same xs ys
same _ _ = false

-- `a < b`.
unfoldable pub before : Text → Text → Bool
before [] [] = false
before [] (y ∷ ys) = true
before (x ∷ xs) [] = false
before (x ∷ xs) (y ∷ ys) = elim (compare x y) [
  | Ordering.lt ↦ true
  | Ordering.eq ↦ before xs ys
  | Ordering.gt ↦ false
]

pub same→eq : (a b : Text) → same a b ≡ true → a ≡ b
unfolding same
same→eq [] [] h = refl
same→eq [] (y ∷ ys) h = cc
same→eq (x ∷ xs) [] h = cc
same→eq (x ∷ xs) (y ∷ ys) h = ground (arith, same→eq xs ys)

pub same_refl : (a : Text) → same a a ≡ true
unfolding same
same_refl [] = refl
same_refl (x ∷ xs) = ground (arith, same_refl xs)

pub same_iff : (a b : Text) → (same a b ≡ true) ↔ (a ≡ b)
same_iff a b = (same→eq a b, λ e. ground (arith, same_refl a))

pub before_irrefl : (a : Text) → before a a ≡ false
unfolding before
before_irrefl [] = refl
before_irrefl (x ∷ xs) = ground (arith, before_irrefl xs)

pub before_trans : (a b c : Text) → before a b ≡ true → before b c ≡ true → before a c ≡ true
unfolding before
before_trans [] [] c h k = cc
before_trans [] (y ∷ ys) [] h k = cc
before_trans [] (y ∷ ys) (z ∷ zs) h k = refl
before_trans (x ∷ xs) [] c h k = cc
before_trans (x ∷ xs) (y ∷ ys) [] h k = cc
before_trans (x ∷ xs) (y ∷ ys) (z ∷ zs) h k = ground (arith, before_trans xs ys zs)

pub before_total : (a b : Text) → (before a b ≡ true) ⊎ (before b a ≡ true) ⊎ (a ≡ b)
unfolding before
before_total [] [] = inr (inr refl)
before_total [] (y ∷ ys) = inl refl
before_total (x ∷ xs) [] = inr (inl refl)
before_total (x ∷ xs) (y ∷ ys) = ground (arith, before_total xs ys)

-- Texts with one prefix are the same when their rests are.
pub same-append : (p a b : Text) → same (p ++ a) (p ++ b) ≡ same a b
unfolding same
same-append [] a b = refl
same-append (c ∷ p) a b = ground (arith, same-append p a b)
