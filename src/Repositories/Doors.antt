-- ===== src/Repositories/Doors.antt =====
-- repositories/access_point.py: the stored Doors; the lookup in a snapshot is in Authorization.Storage.
pub mod Unreferenced
use homepass.Prelude.{
  ℕ, Bool, true, false, not, ◌&&◌, ◌||◌, Option, none, some, List, [], ◌∷◌, String, ltb, ◌==◌,
  string_eq, nat_eq, if◌then◌else◌,
}
use homepass.Prelude.Result.{
  Error, Result, ok, err, type_error, value_error, key_error, access_point_not_found,
  access_point_policy_in_use, storage_error, raise_if, ◌>>=◌, ◌>>◌,
}
use homepass.Prelude.Dict.{Dict, get, put, remove}
use homepass.Prelude.Sorting.{sorted}
use homepass.Prelude.Text.{text_leb}
use homepass.Prelude.Instant.{Datetime, instant}
use homepass.Models.Json.{
  Value, bool, str, list, dict, Items, nil, cons, Fields, end, field, get_field, put_field,
  remove_field,
}
use homepass.Models.AccessPoint.{AccessPoint, access_point_to_dict}
use homepass.Models.AccessGrant.{AccessGrant, access_grant_from_dict}
use homepass.Models.AccessMetadata.{AccessMetadata, access_metadata_from_dict}
use homepass.Models.LifecycleOperation.{LifecycleOperation, lifecycle_operation_from_dict}
use homepass.Nfc.Records.{Conversions}
use homepass.Authorization.Storage.{StorageData, deserialize_access_point, get_from_snapshot}
use homepass.Storage.{Environment, has}
use homepass.Repositories.{Mutator, mutate_storage}

-- except AccessPointNotFoundError, AccessPointPolicyInUseError, StorageError: raise
unfoldable pub passes_door_error : Error → Bool
passes_door_error access_point_not_found = true
passes_door_error access_point_policy_in_use = true
passes_door_error storage_error = true
passes_door_error _ = false

-- `_contains_value`
unfoldable mutual
  pub contains_value : String → Value → Bool
  contains_value expected (str s) = s == expected
  contains_value expected (dict fields) = contains_fields expected fields
  contains_value expected (list items) = contains_items expected items
  contains_value expected _ = false

  pub contains_fields : String → Fields → Bool
  contains_fields expected end = false
  contains_fields expected (field name value rest) =
      contains_value expected value || contains_fields expected rest

  pub contains_items : String → Items → Bool
  contains_items expected nil = false
  contains_items expected (cons value rest) =
      contains_value expected value || contains_items expected rest

-- The same for a collection of records.
unfoldable pub contains_records : String → Dict String Fields → Bool
contains_records expected [] = false
contains_records expected ((key, fields) ∷ rest) =
    contains_fields expected fields || contains_records expected rest

-- The entries of the markers, which are all `True`.
unfoldable pub all_pending : Fields → Bool
all_pending end = true
all_pending (field name (bool true) rest) = all_pending rest
all_pending (field name _ rest) = false

-- `_name_fallbacks`: the markers, if the settings have any
unfoldable pub name_fallbacks : Fields → Result (Option Fields)
name_fallbacks settings = elim (get_field settings "access_point_name_fallbacks") [
  | none ↦ ok none
  | some (dict markers) ↦ if all_pending markers then ok (some markers) else err storage_error
  | some _ ↦ err storage_error
]

-- _name_fallbacks(snapshot).pop(key, None)
unfoldable pub drop_fallback : String → Fields → Result Fields
drop_fallback key settings = do
  markers ← name_fallbacks settings
  ok (elim markers [
    | none ↦ settings
    | some present ↦
        put_field settings "access_point_name_fallbacks" (dict (remove_field present key))
  ])

-- snapshot["data"]["settings"]["managed_access_points"]
unfoldable pub enrollments_of : Fields → Result Fields
enrollments_of settings = elim (get_field settings "managed_access_points") [
  | none ↦ err key_error
  | some (dict enrollments) ↦ ok enrollments
  | some _ ↦ err type_error
]

-- isinstance(enrollment, dict) and enrollment.get("managed") is True
unfoldable pub is_managed : Option Value → Bool
is_managed (some (dict enrollment)) = elim (get_field enrollment "managed") [
  | some (bool b) ↦ b
  | _ ↦ false
]
is_managed _ = false

module _ (env : Environment) (conversions : Conversions) where
  -- any(AccessGrant.from_dict(record).access_point_id == access_point_id for ...)
  unfoldable pub any_grant_at : ℕ → Dict String Fields → Result Bool
  any_grant_at id [] = ok false
  any_grant_at id ((key, fields) ∷ rest) =
      let later = any_grant_at id rest in
      (do
        grant ← access_grant_from_dict env.codec fields
        if grant.access_point_id == id then ok true else later)

  unfoldable pub any_metadata_at : ℕ → Dict String Fields → Result Bool
  any_metadata_at id [] = ok false
  any_metadata_at id ((key, fields) ∷ rest) =
      let later = any_metadata_at id rest in
      (do
        metadata ← access_metadata_from_dict env.codec fields
        if metadata.access_point_id == id then ok true else later)

  unfoldable pub any_operation_on : String → Dict String Fields → Result Bool
  any_operation_on reference [] = ok false
  any_operation_on reference ((key, fields) ∷ rest) =
      let later = any_operation_on reference rest in
      (do
        operation ← lifecycle_operation_from_dict conversions env.codec fields
        if contains_fields reference operation.payload then ok true else later)

  -- `_has_durable_reference`
  unfoldable pub has_durable_reference : StorageData → ℕ → Result Bool
  has_durable_reference d id =
      let reference = env.codec.print_uuid id in
      (do
        granted ← any_grant_at id d.access_grants
        described ← (if granted then ok true else any_metadata_at id d.access_metadata)
        involved ←
            (if described then ok true else any_operation_on reference d.lifecycle_operations)
        ok (if involved then true else contains_records reference d.properties))

  -- The mutator of `update`.
  unfoldable pub update_access_point : AccessPoint → Datetime → Mutator AccessPoint
  update_access_point door expected_updated_at d = do
    current ← get_from_snapshot env.codec d door.id
    raise_if (not (instant current.updated_at == instant expected_updated_at)) value_error
    raise_if (not (instant door.created_at == instant current.created_at)) value_error
    raise_if (ltb (instant door.updated_at) (instant current.updated_at)) value_error
    settings ← drop_fallback (env.codec.print_uuid door.id) d.settings
    ok (
      record d {
        access_points =
            put d.access_points (env.codec.print_uuid door.id)
              (access_point_to_dict env.codec door);
        settings = settings;
      },
      door,
    )

  -- What is left of the snapshot without a Door.
  unfoldable pub forget_access_point : String → Fields → StorageData → Result StorageData
  forget_access_point key enrollments d = do
    settings ←
        drop_fallback key
          (put_field d.settings "managed_access_points" (dict (remove_field enrollments key)))
    ok (record d { access_points = remove d.access_points key; settings = settings })

  -- The mutator of `remove_if_unreferenced`.
  unfoldable pub remove_access_point : ℕ → Mutator Bool
  remove_access_point id d =
      let key = env.codec.print_uuid id in
      let removal = (do
        enrollments ← enrollments_of d.settings
        raise_if (is_managed (get_field enrollments key)) access_point_policy_in_use
        referenced ← has_durable_reference d id
        raise_if referenced access_point_policy_in_use
        d' ← forget_access_point key enrollments d
        ok (d', true)) in
      if has (get d.access_points key) then removal else ok (d, false)

  -- The loop of `list_from_snapshot`.
  unfoldable pub deserialize_access_points : Dict String Fields → Result (List AccessPoint)
  deserialize_access_points [] = ok []
  deserialize_access_points ((stored_id, fields) ∷ rest) = do
    door ← deserialize_access_point env.codec stored_id fields
    doors ← deserialize_access_points rest
    ok (door ∷ doors)

  -- `list_from_snapshot`, in the order of the casefolded names and then of the identifiers
  unfoldable pub list_from_snapshot : StorageData → Result (List AccessPoint)
  list_from_snapshot d = do
    doors ← deserialize_access_points d.access_points
    ok (
        sorted
          (λ (a b : AccessPoint).
            if env.casefold a.display_name == env.casefold b.display_name
            then not (text_leb (env.codec.print_uuid b.id) (env.codec.print_uuid a.id))
            else not (text_leb (env.casefold b.display_name) (env.casefold a.display_name)))
          doors)

  module _ (other_sections : StorageData → Result Fields) (saved : Result (Unit {0})) where
    unfoldable pub update : StorageData → AccessPoint → Datetime → StorageData × Result AccessPoint
    update d door expected_updated_at =
        mutate_storage env passes_door_error other_sections saved d
          (update_access_point door expected_updated_at)

    unfoldable pub remove_if_unreferenced : StorageData → ℕ → StorageData × Result Bool
    remove_if_unreferenced d id =
        mutate_storage env passes_door_error other_sections saved d (remove_access_point id)
