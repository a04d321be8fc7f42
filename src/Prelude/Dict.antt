-- ===== src/Prelude/Dict.antt =====
-- Python's `dict`: entries in insertion order. A write to a present key keeps its place, a write
-- to a new key goes to the end.
use homepass.Prelude.Tests.{Eq, ◌==◌, ==-refl, if◌then◌else◌, Bool-cases}
use mathlib.Core.Bool.{Bool}
use mathlib.Core.Logic.{inl, inr}
use homepass.Prelude.Lists.{length}
use Prim.Native.Nat.{◌+◌, ◌≤◌, ◌<◌}
use mathlib.Core.Path.{◌≡◌, refl}
use mathlib.Core.Option.{Option, none, some}
use mathlib.Core.List.{List, [], ◌∷◌}
use native.Mathlib.Omega.{arith}

abbrev pub Dict {ℓ κ} : Type ℓ → Type κ → Type (ℓ ⊔ κ)
Dict K V = List (K × V)

module _ {ℓ κ} {K : Type ℓ} {V : Type κ} ⦃e : Eq K⦄ where
  -- d.get(k)
  unfoldable pub get : Dict K V → K → Option V
  get [] k = none
  get ((j, v) ∷ d) k = if j == k then some v else get d k

  -- d[k] = v
  unfoldable pub put : Dict K V → K → V → Dict K V
  put [] k v = (k, v) ∷ []
  put ((j, w) ∷ d) k v = if j == k then (j, v) ∷ d else (j, w) ∷ put d k v

  -- d.pop(k, None)
  unfoldable pub remove : Dict K V → K → Dict K V
  remove [] k = []
  remove ((j, w) ∷ d) k = let rest = remove d k in if j == k then rest else (j, w) ∷ rest

  pub get-put :
      (d : Dict K V) (k j : K) (v : V) → get (put d k v) j ≡ (if k == j then some v else get d j)
  unfolding get put
  get-put [] k j v = refl
  get-put ((i, w) ∷ d) k j v =
      ground (arith, get-put d k j v, e.beq_iff i k, e.beq_iff i j, e.beq_iff k j)

  pub get-put_self : (d : Dict K V) (k : K) (v : V) → get (put d k v) k ≡ some v
  get-put_self d k v = rw (get-put, ==-refl k)

  pub get-remove :
      (d : Dict K V) (k j : K) → get (remove d k) j ≡ (if k == j then none else get d j)
  unfolding get remove
  get-remove [] k j = ground arith
  get-remove ((i, w) ∷ d) k j =
      ground (arith, get-remove d k j, e.beq_iff i k, e.beq_iff i j, e.beq_iff k j)

  pub length-put-le : (d : Dict K V) (k : K) (v : V) → length (put d k v) ≤ length d + 1
  unfolding put
  length-put-le [] k v = omega arith
  length-put-le ((i, w) ∷ d) k v = ground (arith, length-put-le d k v)

  pub length-remove-le : (d : Dict K V) (k : K) → length (remove d k) ≤ length d
  unfolding remove
  length-remove-le [] k = omega arith
  length-remove-le ((i, w) ∷ d) k = ground (arith, length-remove-le d k)

  -- Removing a present key makes the dictionary smaller.
  pub length-remove-lt :
      (d : Dict K V) (k : K) (v : V) → get d k ≡ some v → length (remove d k) < length d
  unfolding get remove
  length-remove-lt [] k v h = cc
  length-remove-lt ((i, w) ∷ d) k v h = ground (arith, length-remove-le d k, length-remove-lt d k v)

-- The keys of a Python dictionary differ.
abbrev pub Distinct {ℓ κ} : {K : Type ℓ} {V : Type κ} ⦃e : Eq K⦄ → Dict K V → Type κ
Distinct [] = Unit
Distinct ((k, v) ∷ d) = (get d k ≡ none) × Distinct d

-- An optional value that passes a test.
abbrev pub passing {κ} : {V : Type κ} → (V → Bool) → Option V → Option V
passing test none = none
passing test (some v) = if test v then some v else none

module _ {ℓ κ} {K : Type ℓ} {V : Type κ} ⦃e : Eq K⦄ where
  -- `for k, v in tuple(d.items()): if not test(v): d.pop(k)`
  unfoldable pub keep : (V → Bool) → Dict K V → Dict K V
  keep test [] = []
  keep test ((k, v) ∷ d) = let rest = keep test d in if test v then (k, v) ∷ rest else rest

  pub put-Distinct : (d : Dict K V) (k : K) (v : V) → Distinct d → Distinct (put d k v)
  unfolding put get
  put-Distinct [] k v h = (refl, tt)
  put-Distinct ((j, w) ∷ d) k v h = elim (Bool-cases (j == k)) [
    | inl same ↦ rw same h
    | inr other ↦
        rw other
          (ground (arith, get-put d k j v, e.beq_iff k j, e.beq_iff j k), put-Distinct d k v h.1)
  ]

  pub remove-Distinct : (d : Dict K V) (k : K) → Distinct d → Distinct (remove d k)
  unfolding remove
  remove-Distinct [] k h = tt
  remove-Distinct ((j, w) ∷ d) k h = elim (Bool-cases (j == k)) [
    | inl same ↦ rw same (remove-Distinct d k h.1)
    | inr other ↦ rw other (ground (arith, get-remove d k j), remove-Distinct d k h.1)
  ]

  pub get-keep_of_none :
      (test : V → Bool) (d : Dict K V) (k : K) → get d k ≡ none → get (keep test d) k ≡ none
  unfolding keep get
  get-keep_of_none test [] k h = refl
  get-keep_of_none test ((j, w) ∷ d) k h = ground (arith, get-keep_of_none test d k)

  pub get-keep :
      (test : V → Bool) (d : Dict K V) (k : K)
      → Distinct d
      → get (keep test d) k ≡ passing test (get d k)
  unfolding keep get
  get-keep test [] k h = refl
  get-keep test ((j, w) ∷ d) k h =
      ground (arith, get-keep test d k h.1, get-keep_of_none test d k, e.beq_iff j k)

  pub keep-Distinct : (test : V → Bool) (d : Dict K V) → Distinct d → Distinct (keep test d)
  unfolding keep
  keep-Distinct test [] h = tt
  keep-Distinct test ((j, w) ∷ d) h = elim (Bool-cases (test w)) [
    | inl yes' ↦ rw yes' (get-keep_of_none test d j h.0, keep-Distinct test d h.1)
    | inr no' ↦ rw no' (keep-Distinct test d h.1)
  ]

  pub length-keep-le : (test : V → Bool) (d : Dict K V) → length (keep test d) ≤ length d
  unfolding keep
  length-keep-le test [] = omega arith
  length-keep-le test ((j, w) ∷ d) = ground (arith, length-keep-le test d)
