-- ===== src/Storage/Published.antt =====
-- What `async_transaction` of storage.py publishes.
use mathlib.Core.Path.{subst}
use homepass.Prelude.{◌≡◌, refl, sym, ap, ◌⊎◌, List, [], ◌∷◌, inl, inr, string_eq}
use homepass.Prelude.Result.{Error, Result, ok, err, Result-cases}
use homepass.Prelude.Dict.{Distinct}
use homepass.Models.Json.{Fields}
use homepass.Authorization.Storage.{StorageData}
use homepass.Storage.{Environment, async_transaction, validate_domain_snapshot}
use homepass.Storage.Consistent.{IsConsistent, validate_domain_snapshot-IsConsistent}

-- What a transaction that publishes has done.
pub record Publishes {ℓ} {A : Type ℓ} (validate : StorageData → Result StorageData)
    (current : StorageData) (mutator : StorageData → Result (StorageData × A)) (after : StorageData)
    (outcome : Result A) : Type ℓ where
  pub working : StorageData
  pub result : A
  pub mutated : mutator current ≡ ok (working, result)
  pub validated : validate working ≡ ok after
  pub returned : outcome ≡ ok result

-- A transaction leaves the published data as it was and raises, or publishes what the mutator made of
-- it, once that is validated, and returns its result.
pub async_transaction-cases {ℓ} :
    {A : Type ℓ} (validate : StorageData → Result StorageData) (saved : Result (Unit {0}))
    (current : StorageData) (mutator : StorageData → Result (StorageData × A))
    → ((e : Error) × ((async_transaction validate saved current mutator) ≡ (current, err e)))
      ⊎ Publishes validate current mutator
          (async_transaction validate saved current mutator).0
          (async_transaction validate saved current mutator).1
unfolding async_transaction
async_transaction-cases validate (err y) current mutator = elim (Result-cases (mutator current)) [
  | inr (x, e) ↦ inl (x, rw (e, async_transaction) refl)
  | inl ((working, a), e) ↦ elim (Result-cases (validate working)) [
    | inr (x, e') ↦ inl (x, rw (e, e', async_transaction) refl)
    | inl (validated, e') ↦ inl (y, rw (e, e', async_transaction) refl)
  ]
]
async_transaction-cases validate (ok u) current mutator = elim (Result-cases (mutator current)) [
  | inr (x, e) ↦ inl (x, rw (e, async_transaction) refl)
  | inl ((working, a), e) ↦ elim (Result-cases (validate working)) [
    | inr (x, e') ↦ inl (x, rw (e, e', async_transaction) refl)
    | inl (validated, e') ↦ inr (record {
      working = working;
      result = a;
      mutated = e;
      validated = rw (e, e', async_transaction) refl;
      returned = rw (e, e', async_transaction) refl;
    })
  ]
]

module _ (env : Environment) where
  -- A transaction, with its mutator, which keeps the keys of the people different, as those of a
  -- dictionary are.
  pub record Transaction : Type 1 where
    pub result : Type 0
    pub mutator : StorageData → Result (StorageData × result)
    pub other_sections : StorageData → Result Fields
    pub saved : Result (Unit {0})
    pub keeps_keys :
        (d d' : StorageData) (a : result)
        → Distinct d.people
        → mutator d ≡ ok (d', a)
        → Distinct d'.people

  abbrev pub run_transaction : StorageData → Transaction → StorageData
  run_transaction d t =
      (async_transaction (validate_domain_snapshot env t.other_sections) t.saved d t.mutator).0

  -- The published data after any transactions, one after another as the manager's lock orders them.
  abbrev pub run_transactions : StorageData → List Transaction → StorageData
  run_transactions d [] = d
  run_transactions d (t ∷ rest) = run_transactions (run_transaction d t) rest

  run_transaction-IsConsistent :
      (d : StorageData) (t : Transaction)
      → IsConsistent env d
      → IsConsistent env (run_transaction d t)
  run_transaction-IsConsistent d t c =
      elim (async_transaction-cases (validate_domain_snapshot env t.other_sections) t.saved d
        t.mutator) [
          | inl (x, e) ↦
              subst (IsConsistent env) (sym (ap (λ (r : StorageData × Result t.result). r.0) e)) c
          | inr p ↦
              validate_domain_snapshot-IsConsistent env t.other_sections p.working _
                (t.keeps_keys d p.working p.result c.distinct p.mutated) p.validated
        ]

  -- After any transactions, whatever their mutators do and the storage answers, the published data is
  -- consistent, if it was before: every reference from a Person or a grant is stored.
  pub run_transactions-IsConsistent :
      (d : StorageData) (transactions : List Transaction)
      → IsConsistent env d
      → IsConsistent env (run_transactions d transactions)
  run_transactions-IsConsistent d [] c = c
  run_transactions-IsConsistent d (t ∷ rest) c =
      run_transactions-IsConsistent (run_transaction d t) rest (run_transaction-IsConsistent d t c)
