-- ===== src/Nfc/Repository/Steps.antt =====
-- What a mutation of the NFC repository does to its data.
use homepass.Prelude.{none, some, ◌≡◌, refl, inl, inr, arith}
use homepass.Prelude.Result.{Result, ok, err, Result-cases}
use homepass.Nfc.Repository.{NfcData, Repository, require_data, transact}

-- A predicate on the data of a repository, which holds before `initialize`.
unfoldable pub OnData : (NfcData → Type 0) → Repository → Type 0
OnData P none = Unit
OnData P (some d) = P d

-- A predicate that a change keeps.
pub transact-OnData {ℓ} :
    {A : Type ℓ} (P : NfcData → Type 0) (saved : Result (Unit {0})) (r : Repository)
    (change : NfcData → Result (NfcData × A))
    → OnData P r
    → ((d d' : NfcData) (a : A) → P d → change d ≡ ok (d', a) → P d')
    → OnData P (transact saved r change).0
unfolding transact require_data OnData
transact-OnData P saved none change h step = tt
transact-OnData P (ok u) (some d) change h step = elim (Result-cases (change d)) [
  | inl ((d', a), e) ↦ rw (e, transact) (step d d' a h e)
  | inr (x, e) ↦ rw (e, transact) h
]
transact-OnData P (err y) (some d) change h step = elim (Result-cases (change d)) [
  | inl ((d', a), e) ↦ rw (e, transact) h
  | inr (x, e) ↦ rw (e, transact) h
]

-- What a mutation that returned has done.
pub transact-result {ℓ} :
    {A : Type ℓ} (saved : Result (Unit {0})) (r : Repository)
    (change : NfcData → Result (NfcData × A)) (a : A)
    → (transact saved r change).1 ≡ ok a
    → (d : NfcData) × (d' : NfcData) × (r ≡ some d)
      × (change d ≡ ok (d', a))
      × ((transact saved r change).0 ≡ some d')
unfolding transact require_data
transact-result saved none change a h = cc
transact-result saved (some d) change a h = elim (Result-cases (change d)) [
  | inl ((d', b), e) ↦ (d, d', refl, ground (arith, e, h), ground (arith, e, h))
  | inr (x, e) ↦ ground (arith, e, h)
]
