-- ===== src/Repositories.antt =====
-- The repositories of custom_components/homepass/repositories over the shared storage. A mutation is
-- a mutator that the storage manager runs in a transaction; the exceptions that a repository lets pass
-- pass, and any other becomes a `StorageError`.
pub mod People
pub mod Grants
pub mod Schedules
pub mod Doors
use homepass.Prelude.{Bool, true, false}
use homepass.Prelude.Result.{Error, Result, ok, err, storage_error}
use homepass.Models.Json.{Fields}
use homepass.Authorization.Storage.{StorageData}
use homepass.Storage.{Environment, async_transaction, validate_domain_snapshot}

abbrev pub Mutator : Type 0 → Type 0
Mutator A = StorageData → Result (StorageData × A)

unfoldable pub or_storage_error {ℓ} : {A : Type ℓ} → (Error → Bool) → Result A → Result A
or_storage_error passes (ok a) = ok a
or_storage_error passes (err e) = err (elim (passes e) [ true ↦ e | false ↦ storage_error ])

-- `_mutate`
unfoldable pub mutate_storage :
    {A : Type 0}
    → Environment
    → (Error → Bool)
    → (StorageData → Result Fields)
    → Result (Unit {0})
    → StorageData
    → Mutator A
    → StorageData × Result A
unfolding or_storage_error
mutate_storage env passes other_sections saved d mutator =
    let (d', result) =
      async_transaction (validate_domain_snapshot env other_sections) saved d mutator in
    (d', or_storage_error passes result)
