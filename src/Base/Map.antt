-- ===== src/Base/Map.antt =====
-- `std::map` with unsigned keys: an association list in the order of its keys, which is the order
-- of iteration. The heap of objects, keyed by address, is a map too.
use Prim.Native.Nat.{ℕ}
use mathlib.Core.Path.{◌≡◌}
use mathlib.Core.Bool.{Bool}
use mathlib.Core.List.{List, [], ◌∷◌}
use mathlib.Core.Option.{Option, none, some}
use mathlib.Core.Option
use native.Mathlib.Omega.{arith}
use icecream.Base.Tests.{ltb, ◌==◌, if◌then◌else◌}

abbrev pub Map {ℓ} : Type ℓ → Type ℓ
Map V = List (ℕ × V)

module _ {ℓ} {V : Type ℓ} where
  abbrev pub lookup : ℕ → Map V → Option V
  lookup k [] = none
  lookup k ((j, v) ∷ m) = if j == k then some v else lookup k m

  -- `m[k] = v`
  abbrev pub insert : ℕ → V → Map V → Map V
  insert k v [] = (k, v) ∷ []
  insert k v ((j, w) ∷ m) =
      if j == k then (k, v) ∷ m else if ltb k j then (k, v) ∷ (j, w) ∷ m else (j, w) ∷ insert k v m

  -- `m.erase(k)`
  abbrev pub erase : ℕ → Map V → Map V
  erase k [] = []
  erase k ((j, w) ∷ m) = let rest = erase k m in if j == k then rest else (j, w) ∷ rest

  -- A change of the object under a key, if there is one.
  abbrev pub update : ℕ → (V → V) → Map V → Map V
  update k f [] = []
  update k f ((j, w) ∷ m) = (j, if j == k then f w else w) ∷ update k f m

  -- The entries that pass, for a loop that erases as it goes.
  abbrev pub keep_if : (ℕ → V → Bool) → Map V → Map V
  keep_if p [] = []
  keep_if p ((j, w) ∷ m) = let rest = keep_if p m in if p j w then (j, w) ∷ rest else rest

  abbrev pub AllVals {κ} : (ℕ → V → Type κ) → Map V → Type κ
  AllVals P [] = Unit
  AllVals P ((j, w) ∷ m) = P j w × AllVals P m

module _ {ℓ} {V : Type ℓ} where
  -- No key stands twice.
  abbrev pub UniqueKeys : Map V → Type ℓ
  UniqueKeys [] = Unit
  UniqueKeys ((j, _) ∷ m) = (lookup j m ≡ none) × UniqueKeys m

  pub lookup-erase :
      (j k : ℕ) (m : Map V) → lookup j (erase k m) ≡ (if k == j then none else lookup j m)
  lookup-erase j k [] = ground arith
  lookup-erase j k ((i, w) ∷ m) = ground (arith, lookup-erase j k m)

  pub lookup-update :
      (j k : ℕ) (f : V → V) (m : Map V)
      → lookup j (update k f m) ≡ (if k == j then Option.map f (lookup j m) else lookup j m)
  lookup-update j k f [] = ground arith
  lookup-update j k f ((i, w) ∷ m) = ground (arith, lookup-update j k f m)

  pub lookup-insert :
      (j k : ℕ) (v : V) (m : Map V)
      → lookup j (insert k v m) ≡ (if k == j then some v else lookup j m)
  lookup-insert j k v [] = ground arith
  lookup-insert j k v ((i, w) ∷ m) = ground (arith, lookup-insert j k v m)

  pub lookup-AllVals {κ} :
      (P : ℕ → V → Type κ) (k : ℕ) (v : V) (m : Map V) → AllVals P m → lookup k m ≡ some v → P k v
  lookup-AllVals P k v [] h e = cc
  lookup-AllVals P k v ((j, w) ∷ m) h e = ground (arith, lookup-AllVals P k v m h.1)

  pub erase-UniqueKeys : (k : ℕ) (m : Map V) → UniqueKeys m → UniqueKeys (erase k m)
  erase-UniqueKeys k [] u = tt
  erase-UniqueKeys k ((j, w) ∷ m) u = ground (arith, erase-UniqueKeys k m u.1, lookup-erase j k m)

  pub update-UniqueKeys : (k : ℕ) (f : V → V) (m : Map V) → UniqueKeys m → UniqueKeys (update k f m)
  update-UniqueKeys k f [] u = tt
  update-UniqueKeys k f ((j, w) ∷ m) u =
      ground (arith, update-UniqueKeys k f m u.1, lookup-update j k f m)

  pub insert-UniqueKeys :
      (k : ℕ) (v : V) (m : Map V) → lookup k m ≡ none → UniqueKeys m → UniqueKeys (insert k v m)
  insert-UniqueKeys k v [] h u = ground arith
  insert-UniqueKeys k v ((j, w) ∷ m) h u =
      ground (arith, insert-UniqueKeys k v m, lookup-insert j k v m)

  pub AllVals-map {κ μ} :
      (P : ℕ → V → Type κ) (Q : ℕ → V → Type μ) (m : Map V)
      → ((k : ℕ) (v : V) → P k v → Q k v)
      → AllVals P m
      → AllVals Q m
  AllVals-map P Q [] f h = tt
  AllVals-map P Q ((j, w) ∷ m) f h = (f j w h.0, AllVals-map P Q m f h.1)

  -- With unique keys every entry is what its key finds.
  pub UniqueKeys-lookup : (m : Map V) → UniqueKeys m → AllVals (λ k v. lookup k m ≡ some v) m
  UniqueKeys-lookup [] u = tt
  UniqueKeys-lookup ((j, w) ∷ m) u = (
    ground arith,
    AllVals-map (λ k v. lookup k m ≡ some v) (λ k v. lookup k ((j, w) ∷ m) ≡ some v) m
        (λ k v e. ground arith) (UniqueKeys-lookup m u.1),
  )
