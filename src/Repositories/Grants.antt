-- ===== src/Repositories/Grants.antt =====
-- repositories/access_grant.py
pub mod Identity
pub mod Refinement
use homepass.Prelude.{
  ℕ, Bool, true, false, not, ◌&&◌, Option, none, some, List, [], ◌∷◌, String, ◌==◌, string_eq,
  nat_eq, if◌then◌else◌,
}
use homepass.Prelude.Result.{
  Error, Result, ok, err, person_not_found, storage_error, raise_if, ◌>>=◌, ◌>>◌,
}
use homepass.Prelude.Dict.{Dict, get, put, remove}
use homepass.Prelude.Sorting.{sorted}
use homepass.Prelude.Text.{text_leb}
use homepass.Models.Json.{Fields}
use homepass.Models.Person.{Person, person_from_dict}
use homepass.Models.AccessGrant.{
  AccessGrant, access_grant_post_init, access_grant_from_dict, access_grant_to_dict,
}
use homepass.Authorization.Storage.{StorageData}
use homepass.Storage.{Environment, relationship_key}
use homepass.Repositories.{Mutator, mutate_storage}

-- except StorageError: raise
unfoldable pub passes_storage_error : Error → Bool
passes_storage_error storage_error = true
passes_storage_error _ = false

-- The values of the records.
abbrev pub grants_of : Dict String AccessGrant → List AccessGrant
grants_of [] = []
grants_of ((key, grant) ∷ rest) = grant ∷ grants_of rest

abbrev pub only_person : ℕ → List AccessGrant → List AccessGrant
only_person person_id [] = []
only_person person_id (g ∷ rest) =
    let others = only_person person_id rest in
    if g.person_id == person_id then g ∷ others else others

abbrev pub any_at_door : ℕ → List AccessGrant → Bool
any_at_door access_point_id [] = false
any_at_door access_point_id (g ∷ rest) =
    let later = any_at_door access_point_id rest in
    if g.access_point_id == access_point_id then true else later

module _ (env : Environment) where
  -- `_deserialize_records`, from the records that are read so far
  unfoldable pub deserialize_records :
      Dict String AccessGrant → Dict String Fields → Result (Dict String AccessGrant)
  deserialize_records records [] = ok records
  deserialize_records records ((stored_key, fields) ∷ rest) = do
    grant ← access_grant_from_dict env.codec fields
    raise_if (not (relationship_key env grant.person_id grant.access_point_id == stored_key))
        storage_error
    deserialize_records (put records stored_key grant) rest

  -- An existing grant passes its identifier and its creation time on.
  unfoldable pub keep_identity : Option AccessGrant → AccessGrant → Result AccessGrant
  keep_identity none grant = ok grant
  keep_identity (some existing) grant = access_grant_post_init (record grant {
    access_grant_id = existing.access_grant_id;
    created_at = existing.created_at;
  })

  -- The mutator of `upsert`.
  unfoldable pub upsert_grant : AccessGrant → Mutator AccessGrant
  upsert_grant grant d = do
    records ← deserialize_records [] d.access_grants
    let key = relationship_key env grant.person_id grant.access_point_id
    next_grant ← keep_identity (get records key) grant
    ok (
      record d {
        access_grants = put d.access_grants key (access_grant_to_dict env.codec next_grant);
      },
      next_grant,
    )

  -- The mutator of `upsert_inheriting_person_schedule`.
  unfoldable pub upsert_inheriting : AccessGrant → Mutator AccessGrant
  upsert_inheriting grant d = elim (get d.people (env.codec.print_uuid grant.person_id)) [
    | none ↦ err person_not_found
    | some fields ↦ do
      person ← person_from_dict env.codec fields
      inherited ← access_grant_post_init (record grant { schedule_id = person.schedule_id })
      upsert_grant inherited d
  ]

  -- The mutator of `remove`.
  unfoldable pub remove_grant : ℕ → ℕ → Mutator (Unit {0})
  remove_grant person_id access_point_id d = ok (
    record d {
      access_grants = remove d.access_grants (relationship_key env person_id access_point_id);
    },
    tt,
  )

  -- `_load_records`
  unfoldable pub load_records : StorageData → Result (Dict String AccessGrant)
  load_records d = elim (deserialize_records [] d.access_grants) [
    | err e ↦ err storage_error
    | ok r ↦ ok r
  ]

  unfoldable pub list_for_person : StorageData → ℕ → Result (List AccessGrant)
  list_for_person d person_id = do
    records ← load_records d
    ok (
        sorted
          (λ (a b : AccessGrant). not (
            text_leb (env.codec.print_uuid b.access_point_id)
              (env.codec.print_uuid a.access_point_id)))
          (only_person person_id (grants_of records)))

  unfoldable pub has_for_access_point : StorageData → ℕ → Result Bool
  has_for_access_point d access_point_id = do
    records ← load_records d
    ok (any_at_door access_point_id (grants_of records))

  module _ (other_sections : StorageData → Result Fields) (saved : Result (Unit {0})) where
    unfoldable pub upsert : StorageData → AccessGrant → StorageData × Result AccessGrant
    upsert d grant =
        mutate_storage env passes_storage_error other_sections saved d (upsert_grant grant)

    unfoldable pub upsert_inheriting_person_schedule :
        StorageData → AccessGrant → StorageData × Result AccessGrant
    upsert_inheriting_person_schedule d grant =
        mutate_storage env passes_storage_error other_sections saved d (upsert_inheriting grant)

    unfoldable pub revoke : StorageData → ℕ → ℕ → StorageData × Result (Unit {0})
    revoke d person_id access_point_id =
        mutate_storage env passes_storage_error other_sections saved d
          (remove_grant person_id access_point_id)
