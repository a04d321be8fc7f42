-- ===== src/Prelude/Sorting.antt =====
-- Python's `sorted`: a stable sort, as insertion sort by a Boolean order.
use homepass.Prelude.Tests.{if◌then◌else◌, Bool-cases}
use homepass.Prelude.Lists.{All, length}
use mathlib.Core.Logic.{inl, inr}
use Prim.Native.Nat.{ℕ, ◌+◌}
use mathlib.Core.Path.{◌≡◌, refl}
use mathlib.Core.Bool.{Bool, true, false}
use mathlib.Core.List.{List, [], ◌∷◌, ◌++◌}
use native.Mathlib.Omega.{arith}

-- Adds up a weight of each element.
abbrev pub total {ℓ} : {A : Type ℓ} → (A → ℕ) → List A → ℕ
total weight [] = 0
total weight (x ∷ xs) = weight x + total weight xs

pub total-append {ℓ} :
    {A : Type ℓ} (weight : A → ℕ) (xs ys : List A)
    → total weight (xs ++ ys) ≡ total weight xs + total weight ys
total-append weight [] ys = omega arith
total-append weight (x ∷ xs) ys = omega (arith, total-append weight xs ys)

module _ {ℓ} {A : Type ℓ} (before : A → A → Bool) where
  -- Puts `x` in front of the first element that is not strictly before it.
  unfoldable pub insert_sorted : A → List A → List A
  insert_sorted x [] = x ∷ []
  insert_sorted x (y ∷ ys) = if before y x then y ∷ insert_sorted x ys else x ∷ y ∷ ys

  unfoldable pub sorted : List A → List A
  unfolding insert_sorted
  sorted [] = []
  sorted (x ∷ xs) = insert_sorted x (sorted xs)

  pub total-insert_sorted :
      (weight : A → ℕ) (x : A) (xs : List A)
      → total weight (insert_sorted x xs) ≡ weight x + total weight xs
  unfolding insert_sorted
  total-insert_sorted weight x [] = refl
  total-insert_sorted weight x (y ∷ ys) = ground (arith, total-insert_sorted weight x ys)

  pub total-sorted : (weight : A → ℕ) (xs : List A) → total weight (sorted xs) ≡ total weight xs
  unfolding sorted
  total-sorted weight [] = refl
  total-sorted weight (x ∷ xs) =
      omega (arith, total-insert_sorted weight x (sorted xs), total-sorted weight xs)

module _ {ℓ} {A : Type ℓ} (before : A → A → Bool) where
  length-insert_sorted : (x : A) (xs : List A) → length (insert_sorted before x xs) ≡ length xs + 1
  unfolding insert_sorted
  length-insert_sorted x [] = omega arith
  length-insert_sorted x (y ∷ ys) = ground (arith, length-insert_sorted x ys)

  pub length-sorted : (xs : List A) → length (sorted before xs) ≡ length xs
  unfolding sorted
  length-sorted [] = refl
  length-sorted (x ∷ xs) =
      omega (arith, length-insert_sorted x (sorted before xs), length-sorted xs)

module _ {ℓ κ} {A : Type ℓ} (before : A → A → Bool) (P : A → Type κ) where
  All-insert_sorted : (x : A) (xs : List A) → P x → All P xs → All P (insert_sorted before x xs)
  unfolding insert_sorted
  All-insert_sorted x [] px h = (px, tt)
  All-insert_sorted x (y ∷ ys) px h = elim (Bool-cases (before y x)) [
    | inl e ↦ rw e (h.0, All-insert_sorted x ys px h.1)
    | inr e ↦ rw e (px, h)
  ]

  pub All-sorted : (xs : List A) → All P xs → All P (sorted before xs)
  unfolding sorted
  All-sorted [] h = tt
  All-sorted (x ∷ xs) h = All-insert_sorted x (sorted before xs) h.0 (All-sorted xs h.1)

-- No element is strictly before its neighbour on the left.
abbrev pub IsSorted {ℓ} : {A : Type ℓ} → (A → A → Bool) → List A → Type 0
IsSorted before [] = Unit
IsSorted before (x ∷ []) = Unit
IsSorted before (x ∷ y ∷ ys) = (before y x ≡ false) × IsSorted before (y ∷ ys)

module _ {ℓ} {A : Type ℓ} (before : A → A → Bool)
    (asym : (x y : A) → before x y ≡ true → before y x ≡ false) where
  -- Behind a smaller head, an insertion keeps the order.
  insert_sorted-behind :
      (x y : A) (ys : List A)
      → before y x ≡ true
      → IsSorted before (y ∷ ys)
      → IsSorted before (y ∷ insert_sorted before x ys)
  unfolding insert_sorted
  insert_sorted-behind x y [] lt h = (asym y x lt, tt)
  insert_sorted-behind x y (z ∷ zs) lt h = elim (Bool-cases (before z x)) [
    | inl e ↦ rw e (h.0, insert_sorted-behind x z zs e h.1)
    | inr e ↦ rw e (asym y x lt, (e, h.1))
  ]

  insert_sorted-IsSorted :
      (x : A) (xs : List A) → IsSorted before xs → IsSorted before (insert_sorted before x xs)
  unfolding insert_sorted
  insert_sorted-IsSorted x [] h = tt
  insert_sorted-IsSorted x (y ∷ ys) h = elim (Bool-cases (before y x)) [
    | inl e ↦ rw e (insert_sorted-behind x y ys e h)
    | inr e ↦ rw e (e, h)
  ]

  pub sorted-IsSorted : (xs : List A) → IsSorted before (sorted before xs)
  unfolding sorted
  sorted-IsSorted [] = tt
  sorted-IsSorted (x ∷ xs) = insert_sorted-IsSorted x (sorted before xs) (sorted-IsSorted xs)

  sorted_of_IsSorted : (xs : List A) → IsSorted before xs → sorted before xs ≡ xs
  unfolding sorted insert_sorted
  sorted_of_IsSorted [] h = refl
  sorted_of_IsSorted (x ∷ []) h = refl
  sorted_of_IsSorted (x ∷ y ∷ ys) h = rw (sorted_of_IsSorted (y ∷ ys) h.1, h.0) refl

  pub sorted_idem : (xs : List A) → sorted before (sorted before xs) ≡ sorted before xs
  sorted_idem xs = sorted_of_IsSorted (sorted before xs) (sorted-IsSorted xs)
