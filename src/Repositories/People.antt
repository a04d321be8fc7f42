-- ===== src/Repositories/People.antt =====
-- repositories/person.py
pub mod Removed
use homepass.Prelude.{
  ℕ, Bool, true, false, not, ◌&&◌, ◌||◌, Option, none, some, List, [], ◌∷◌, String, ◌==◌, string_eq,
  nat_eq, if◌then◌else◌,
}
use homepass.Prelude.Result.{
  Error, Result, ok, err, duplicate_person, person_not_found, storage_error, raise_if, ◌>>=◌, ◌>>◌,
}
use homepass.Prelude.Dict.{Dict, get, put, remove}
use homepass.Models.Json.{Fields}
use homepass.Models.Person.{Person, person_from_dict, person_to_dict}
use homepass.Models.AccessGrant.{AccessGrant, access_grant_from_dict}
use homepass.Models.AccessMetadata.{AccessMetadata, access_metadata_from_dict}
use homepass.Authorization.Storage.{StorageData}
use homepass.Storage.{Environment, has}
use homepass.Repositories.{Mutator, mutate_storage}

-- except DuplicatePersonError, PersonNotFoundError, StorageError: raise
unfoldable pub passes_person_error : Error → Bool
passes_person_error duplicate_person = true
passes_person_error person_not_found = true
passes_person_error storage_error = true
passes_person_error _ = false

-- `exclude_id` is the identifier of the entity.
abbrev pub is_excluded : Option ℕ → ℕ → Bool
is_excluded none id = false
is_excluded (some other) id = id == other

module _ (env : Environment) where
  -- `_deserialize_people`, from the people that are read so far
  unfoldable pub deserialize_people : Dict ℕ Person → Dict String Fields → Result (Dict ℕ Person)
  deserialize_people people [] = ok people
  deserialize_people people ((stored_id, fields) ∷ rest) = do
    person ← person_from_dict env.codec fields
    raise_if (not (env.codec.print_uuid person.person_id == stored_id)) storage_error
    deserialize_people (put people person.person_id person) rest

  -- Another Person has the name.
  unfoldable pub name_taken : Option ℕ → String → Dict ℕ Person → Bool
  name_taken exclude_id name [] = false
  name_taken exclude_id name ((id, existing) ∷ rest) =
      (not (is_excluded exclude_id existing.person_id)
        && env.casefold existing.display_name == name)
      || name_taken exclude_id name rest

  -- `_ensure_unique`
  unfoldable pub ensure_unique_person : Person → Dict ℕ Person → Option ℕ → Result (Unit {0})
  ensure_unique_person person people exclude_id = do
    raise_if (has (get people person.person_id) && not (is_excluded exclude_id person.person_id))
        duplicate_person
    raise_if (name_taken exclude_id (env.casefold person.display_name) people) duplicate_person

  unfoldable pub store_person : StorageData → Person → StorageData
  store_person d person = record d {
    people = put d.people (env.codec.print_uuid person.person_id) (person_to_dict env.codec person);
  }

  -- The mutator of `add`.
  unfoldable pub add_person : Person → Mutator (Unit {0})
  add_person person d = do
    people ← deserialize_people [] d.people
    ensure_unique_person person people none
    ok (store_person d person, tt)

  -- The mutator of `update`.
  unfoldable pub update_person : Person → Mutator (Unit {0})
  update_person person d = do
    people ← deserialize_people [] d.people
    raise_if (not (has (get people person.person_id))) person_not_found
    ensure_unique_person person people (some person.person_id)
    ok (store_person d person, tt)

  -- The loop over the grants: it deletes those of the Person.
  unfoldable pub delete_grants : ℕ → Dict String Fields → Result (Dict String Fields)
  delete_grants person_id [] = ok []
  delete_grants person_id ((key, fields) ∷ rest) = do
    grant ← access_grant_from_dict env.codec fields
    kept ← delete_grants person_id rest
    ok (if grant.person_id == person_id then kept else (key, fields) ∷ kept)

  -- The same for the access metadata.
  unfoldable pub delete_metadata : ℕ → Dict String Fields → Result (Dict String Fields)
  delete_metadata person_id [] = ok []
  delete_metadata person_id ((key, fields) ∷ rest) = do
    metadata ← access_metadata_from_dict env.codec fields
    kept ← delete_metadata person_id rest
    ok (if metadata.person_id == person_id then kept else (key, fields) ∷ kept)

  -- `remove_from_snapshot`, the mutator of `remove`.
  unfoldable pub remove_person : ℕ → Mutator (Unit {0})
  remove_person person_id d = do
    people ← deserialize_people [] d.people
    raise_if (not (has (get people person_id))) person_not_found
    grants ← delete_grants person_id d.access_grants
    metadata ← delete_metadata person_id d.access_metadata
    ok (
      record d {
        access_grants = grants;
        access_metadata = metadata;
        credential_metadata = remove d.credential_metadata (env.codec.print_uuid person_id);
        people = remove d.people (env.codec.print_uuid person_id);
      },
      tt,
    )

  -- `get`
  unfoldable pub get_person : StorageData → ℕ → Result Person
  get_person d person_id = elim (deserialize_people [] d.people) [
    | err e ↦ err storage_error
    | ok people ↦ elim (get people person_id) [ none ↦ err person_not_found | some p ↦ ok p ]
  ]

  -- `exists`
  unfoldable pub person_exists : StorageData → ℕ → Result Bool
  person_exists d person_id = elim (deserialize_people [] d.people) [
    | err e ↦ err storage_error
    | ok people ↦ ok (has (get people person_id))
  ]

  module _ (other_sections : StorageData → Result Fields) (saved : Result (Unit {0})) where
    unfoldable pub add : StorageData → Person → StorageData × Result (Unit {0})
    add d person = mutate_storage env passes_person_error other_sections saved d (add_person person)

    unfoldable pub update : StorageData → Person → StorageData × Result (Unit {0})
    update d person =
        mutate_storage env passes_person_error other_sections saved d (update_person person)

    unfoldable pub remove_by_id : StorageData → ℕ → StorageData × Result (Unit {0})
    remove_by_id d person_id =
        mutate_storage env passes_person_error other_sections saved d (remove_person person_id)
