-- ===== src/Prelude/Maps.antt =====
-- `std::unordered_map<std::string, V>` as an association list in which a key stands once.

use mathlib.Core.Bool.{Bool}
use mathlib.Core.List.{List, [], ◌∷◌}
use mathlib.Core.Option.{Option, none, some}
use mathlib.Core.Path.{◌≡◌, refl}
use native.Mathlib.Omega.{arith}
use llamaste.Prelude.ByteStrings.{Bytes, bytes_eq, bytes_eq_iff}
use llamaste.Prelude.Tests.{if◌then◌else◌}

abbrev pub Assoc {ℓ} : Type ℓ → Type ℓ
Assoc V = List (Bytes × V)

module _ {ℓ} {V : Type ℓ} where
  unfoldable pub lookup : Bytes → Assoc V → Option V
  lookup k [] = none
  lookup k ((j, v) ∷ m) = if bytes_eq j k then some v else lookup k m

  -- `m[k] = v`
  unfoldable pub insert : Bytes → V → Assoc V → Assoc V
  insert k v [] = (k, v) ∷ []
  insert k v ((j, w) ∷ m) = if bytes_eq j k then (k, v) ∷ m else (j, w) ∷ insert k v m

  -- `m.erase(k)`
  unfoldable pub erase : Bytes → Assoc V → Assoc V
  erase k [] = []
  erase k ((j, v) ∷ m) = if bytes_eq j k then m else (j, v) ∷ erase k m

  -- The loop that erases each entry whose value fails the test.
  unfoldable pub retain : (V → Bool) → Assoc V → Assoc V
  retain p [] = []
  retain p ((j, v) ∷ m) = let rest = retain p m in if p v then (j, v) ∷ rest else rest

  abbrev pub keep_if : (V → Bool) → Option V → Option V
  keep_if p none = none
  keep_if p (some v) = if p v then some v else none

  -- Each key stands once.
  abbrev pub HasUniqueKeys : Assoc V → Type ℓ
  HasUniqueKeys [] = Unit
  HasUniqueKeys ((k, v) ∷ m) = (lookup k m ≡ none) × HasUniqueKeys m

  pub lookup-insert :
      (k j : Bytes) (v : V) (m : Assoc V)
      → lookup j (insert k v m) ≡ (if bytes_eq k j then some v else lookup j m)
  unfolding lookup insert
  lookup-insert k j v [] = refl
  lookup-insert k j v ((i, w) ∷ m) =
      ground (arith, bytes_eq_iff k j, bytes_eq_iff i k, bytes_eq_iff i j, lookup-insert k j v m)

  pub lookup-erase :
      (k j : Bytes) (m : Assoc V)
      → HasUniqueKeys m
      → lookup j (erase k m) ≡ (if bytes_eq k j then none else lookup j m)
  unfolding lookup erase
  lookup-erase k j [] u = ground arith
  lookup-erase k j ((i, w) ∷ m) u =
      ground (arith, bytes_eq_iff k j, bytes_eq_iff i k, bytes_eq_iff i j, lookup-erase k j m)

  pub lookup-retain :
      (p : V → Bool) (j : Bytes) (m : Assoc V)
      → HasUniqueKeys m
      → lookup j (retain p m) ≡ keep_if p (lookup j m)
  unfolding lookup retain
  lookup-retain p j [] u = refl
  lookup-retain p j ((i, w) ∷ m) u = ground (arith, bytes_eq_iff i j, lookup-retain p j m u.1)

  pub insert-HasUniqueKeys :
      (k : Bytes) (v : V) (m : Assoc V) → HasUniqueKeys m → HasUniqueKeys (insert k v m)
  unfolding insert lookup
  insert-HasUniqueKeys k v [] u = (refl, tt)
  insert-HasUniqueKeys k v ((i, w) ∷ m) u = ground (
    arith,
    bytes_eq_iff i k,
    insert-HasUniqueKeys k v m u.1,
    lookup-insert k i v m,
    bytes_eq_iff k i,
  )

  pub erase-HasUniqueKeys : (k : Bytes) (m : Assoc V) → HasUniqueKeys m → HasUniqueKeys (erase k m)
  unfolding erase
  erase-HasUniqueKeys k [] u = tt
  erase-HasUniqueKeys k ((i, w) ∷ m) u =
      ground (arith, erase-HasUniqueKeys k m u.1, lookup-erase k i m u.1)

  pub retain-HasUniqueKeys :
      (p : V → Bool) (m : Assoc V) → HasUniqueKeys m → HasUniqueKeys (retain p m)
  unfolding retain
  retain-HasUniqueKeys p [] u = tt
  retain-HasUniqueKeys p ((i, w) ∷ m) u =
      ground (arith, retain-HasUniqueKeys p m u.1, lookup-retain p i m u.1)
