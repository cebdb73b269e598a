-- ===== src/Base/Lists.antt =====
-- Lists measured by native numbers, the list algorithms of the C++ library that the sources call,
-- and predicates on all elements.
use Prim.Native.Nat.{ℕ, zero, suc, ◌+◌}
use mathlib.Core.Path.{◌≡◌, refl}
use mathlib.Core.Logic.{◌⊎◌, inl, inr}
use mathlib.Core.Bool.{Bool, true, false, ◌||◌}
use mathlib.Core.List.{List, [], ◌∷◌, ◌++◌}
use mathlib.Core.Option.{Option, none, some}
use native.Mathlib.Omega.{arith}
use icecream.Base.Tests.{◌==◌, if◌then◌else◌}

module _ {ℓ} {A : Type ℓ} where
  abbrev pub length : List A → ℕ
  length [] = 0
  length (x ∷ xs) = suc (length xs)

  -- `std::copy_if` into an empty list.
  abbrev pub copy_if : (A → Bool) → List A → List A
  copy_if p [] = []
  copy_if p (x ∷ xs) = let rest = copy_if p xs in if p x then x ∷ rest else rest

  -- `l.empty()`
  abbrev pub is_nil : List A → Bool
  is_nil [] = true
  is_nil (x ∷ xs) = false

  -- The first element that passes the test.
  abbrev pub find_if : (A → Bool) → List A → Option A
  find_if p [] = none
  find_if p (x ∷ xs) = let rest = find_if p xs in if p x then some x else rest

  abbrev pub get_elem? : List A → ℕ → Option A
  get_elem? [] i = none
  get_elem? (x ∷ xs) zero = some x
  get_elem? (x ∷ xs) (suc i) = get_elem? xs i

  abbrev pub any : (A → Bool) → List A → Bool
  any p [] = false
  any p (x ∷ xs) = p x || any p xs

  abbrev pub All {κ} : (A → Type κ) → List A → Type κ
  All P [] = Unit
  All P (x ∷ xs) = P x × All P xs

-- `a` stands in the list.
abbrev pub Elem : {A : Type 0} → A → List A → Type 0
Elem a [] = ⊥
Elem a (x ∷ xs) = (a ≡ x) ⊎ Elem a xs

module _ {ℓ} {A : Type ℓ} where
  pub length-append : (xs ys : List A) → length (xs ++ ys) ≡ length xs + length ys
  length-append [] ys = omega arith
  length-append (x ∷ xs) ys = omega (arith, length-append xs ys)

  pub All-append {κ} : (P : A → Type κ) (xs ys : List A) → All P xs → All P ys → All P (xs ++ ys)
  All-append P [] ys h k = k
  All-append P (x ∷ xs) ys h k = (h.0, All-append P xs ys h.1 k)

  pub All-map {κ μ} :
      (P : A → Type κ) (Q : A → Type μ) (xs : List A) → ((a : A) → P a → Q a) → All P xs → All Q xs
  All-map P Q [] f h = tt
  All-map P Q (x ∷ xs) f h = (f x h.0, All-map P Q xs f h.1)

  pub All-both {κ μ} :
      (P : A → Type κ) (Q : A → Type μ) (xs : List A)
      → All P xs
      → All Q xs
      → All (λ a. P a × Q a) xs
  All-both P Q [] h k = tt
  All-both P Q (x ∷ xs) h k = ((h.0, k.0), All-both P Q xs h.1 k.1)

  pub copy_if-All {κ} :
      (P : A → Type κ) (p : A → Bool) (xs : List A) → All P xs → All P (copy_if p xs)
  copy_if-All P p [] h = tt
  copy_if-All P p (x ∷ xs) h = ground (arith, copy_if-All P p xs h.1)

  -- What `copy_if` keeps passes the test.
  pub copy_if-passes : (p : A → Bool) (xs : List A) → All (λ a. p a ≡ true) (copy_if p xs)
  copy_if-passes p [] = tt
  copy_if-passes p (x ∷ xs) = ground (arith, copy_if-passes p xs)

  -- When nothing is found nothing passes.
  pub find_if-none : (p : A → Bool) (xs : List A) → find_if p xs ≡ none → All (λ a. p a ≡ false) xs
  find_if-none p [] e = tt
  find_if-none p (x ∷ xs) e = ground (arith, find_if-none p xs)

module _ {A : Type 0} where
  pub All-elem {κ} : (P : A → Type κ) (a : A) (xs : List A) → All P xs → Elem a xs → P a
  All-elem P a [] h e = absurd e
  All-elem P a (x ∷ xs) h (inl e) = rw e h.0
  All-elem P a (x ∷ xs) h (inr e) = All-elem P a xs h.1 e

  pub copy_if-sub : (p : A → Bool) (a : A) (xs : List A) → Elem a (copy_if p xs) → Elem a xs
  copy_if-sub p a [] e = e
  copy_if-sub p a (x ∷ xs) e = ground (arith, copy_if-sub p a xs)

  -- What stands in the list and passes is kept.
  pub copy_if-keeps :
      (p : A → Bool) (a : A) (xs : List A) → Elem a xs → p a ≡ true → Elem a (copy_if p xs)
  copy_if-keeps p a [] e h = e
  copy_if-keeps p a (x ∷ xs) (inl e) h = rw (← e) (rw h (inl refl))
  copy_if-keeps p a (x ∷ xs) (inr e) h = let ih = copy_if-keeps p a xs e h in ground (arith, ih)

  pub find_if-some :
      (p : A → Bool) (a : A) (xs : List A) → find_if p xs ≡ some a → Elem a xs × (p a ≡ true)
  find_if-some p a [] e = cc
  find_if-some p a (x ∷ xs) e = ground (arith, find_if-some p a xs)

-- `std::list::remove`: every copy goes.
abbrev pub remove : ℕ → List ℕ → List ℕ
remove a [] = []
remove a (x ∷ xs) = let rest = remove a xs in if x == a then rest else x ∷ rest

-- `find(l.begin(), l.end(), a) != l.end()`
abbrev pub contains : ℕ → List ℕ → Bool
contains a [] = false
contains a (x ∷ xs) = x == a || contains a xs

-- `l.erase(find(l.begin(), l.end(), a))`: the first copy goes.
abbrev pub erase_first : ℕ → List ℕ → List ℕ
erase_first a [] = []
erase_first a (x ∷ xs) = if x == a then xs else x ∷ erase_first a xs

pub contains-remove :
    (a b : ℕ) (xs : List ℕ) → contains b (remove a xs) ≡ (if a == b then false else contains b xs)
contains-remove a b [] = ground arith
contains-remove a b (x ∷ xs) = ground (arith, contains-remove a b xs)

pub contains-append :
    (a : ℕ) (xs ys : List ℕ) → contains a (xs ++ ys) ≡ (contains a xs || contains a ys)
contains-append a [] ys = refl
contains-append a (x ∷ xs) ys = ground (arith, contains-append a xs ys)

pub All-remove {κ} : (P : ℕ → Type κ) (a : ℕ) (xs : List ℕ) → All P xs → All P (remove a xs)
All-remove P a [] h = tt
All-remove P a (x ∷ xs) h = ground (arith, All-remove P a xs h.1)

pub All-erase_first {κ} :
    (P : ℕ → Type κ) (a : ℕ) (xs : List ℕ) → All P xs → All P (erase_first a xs)
All-erase_first P a [] h = tt
All-erase_first P a (x ∷ xs) h = ground (arith, All-erase_first P a xs h.1)
