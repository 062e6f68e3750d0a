-- ===== src/Prelude/Dict.antt =====
-- A JavaScript `Map` with string keys: entries in insertion order, a write to a present key stays
-- in its place.
use mathlib.Core.Path.{◌≡◌, refl}
use mathlib.Core.Logic.{◌≢◌}
use mathlib.Core.Bool.{Bool, true, false}
use mathlib.Core.Option.{Option, none, some}
use mathlib.Core.List.{List, [], ◌∷◌}
use native.Mathlib.Omega.{arith}
use notestr.Prelude.Tests.{if◌then◌else◌}
use notestr.Prelude.Strings.{Text, same, same_iff, same_refl}

abbrev pub Dict {ℓ} : Type ℓ → Type ℓ
Dict V = List (Text × V)

module _ {ℓ} {V : Type ℓ} where
  -- `m.get(k)`.
  unfoldable pub get : Text → Dict V → Option V
  get k [] = none
  get k ((j, v) ∷ m) = if same j k then some v else get k m

  -- `m.has(k)`.
  unfoldable pub has : Text → Dict V → Bool
  has k [] = false
  has k ((j, v) ∷ m) = if same j k then true else has k m

  -- `m.set(k, v)`.
  unfoldable pub set : Text → V → Dict V → Dict V
  set k v [] = (k, v) ∷ []
  set k v ((j, w) ∷ m) = if same j k then (j, v) ∷ m else (j, w) ∷ set k v m

  -- `m.delete(k)`.
  unfoldable pub delete : Text → Dict V → Dict V
  delete k [] = []
  delete k ((j, w) ∷ m) = if same j k then m else (j, w) ∷ delete k m

  -- No key stands twice.
  abbrev pub IsMap : Dict V → Type 0
  IsMap [] = Unit
  IsMap ((j, v) ∷ m) = (has j m ≡ false) × IsMap m

  pub get-set :
      (k j : Text) (v : V) (m : Dict V) → get j (set k v m) ≡ (if same k j then some v else get j m)
  unfolding get set
  get-set k j v [] = refl
  get-set k j v ((i, w) ∷ m) =
      ground (arith, same_iff k j, same_iff i k, same_iff i j, get-set k j v m)

  pub has-set :
      (k j : Text) (v : V) (m : Dict V) → has j (set k v m) ≡ (if same k j then true else has j m)
  unfolding has set
  has-set k j v [] = refl
  has-set k j v ((i, w) ∷ m) =
      ground (arith, same_iff k j, same_iff i k, same_iff i j, has-set k j v m)

  pub get-none : (k : Text) (m : Dict V) → has k m ≡ false → get k m ≡ none
  unfolding get has
  get-none k [] h = refl
  get-none k ((i, w) ∷ m) h = ground (arith, get-none k m)

  pub has-none : (k : Text) (m : Dict V) → get k m ≡ none → has k m ≡ false
  unfolding get has
  has-none k [] h = refl
  has-none k ((i, w) ∷ m) h = ground (arith, has-none k m)

  pub get-set_here : (k : Text) (v : V) (m : Dict V) → get k (set k v m) ≡ some v
  get-set_here k v m = rw (get-set k k v m, same_refl k) refl

  pub get-some : (k : Text) (m : Dict V) → has k m ≡ true → get k m ≢ none
  unfolding get has
  get-some k [] h = cc
  get-some k ((i, w) ∷ m) h = ground (arith, get-some k m)

  pub has-delete_mono : (k j : Text) (m : Dict V) → has j m ≡ false → has j (delete k m) ≡ false
  unfolding has delete
  has-delete_mono k j [] h = refl
  has-delete_mono k j ((i, w) ∷ m) h = ground (arith, has-delete_mono k j m)

  pub set-IsMap : (k : Text) (v : V) (m : Dict V) → IsMap m → IsMap (set k v m)
  unfolding set has
  set-IsMap k v [] h = (refl, tt)
  set-IsMap k v ((i, w) ∷ m) h =
      ground (arith, set-IsMap k v m h.1, has-set k i v m, same_iff i k, same_iff k i)

  pub delete-IsMap : (k : Text) (m : Dict V) → IsMap m → IsMap (delete k m)
  unfolding delete
  delete-IsMap k [] h = tt
  delete-IsMap k ((i, w) ∷ m) h = ground (arith, delete-IsMap k m h.1, has-delete_mono k i m h.0)

  pub get-delete :
      (k j : Text) (m : Dict V)
      → IsMap m
      → get j (delete k m) ≡ (if same k j then none else get j m)
  unfolding get delete
  get-delete k j [] h = ground arith
  get-delete k j ((i, w) ∷ m) h =
      ground
        (arith, same_iff k j, same_iff i k, same_iff i j, get-delete k j m h.1, get-none i m h.0)

  pub get-delete_here : (k : Text) (m : Dict V) → IsMap m → get k (delete k m) ≡ none
  get-delete_here k m h = rw (get-delete k k m h, same_refl k) refl
