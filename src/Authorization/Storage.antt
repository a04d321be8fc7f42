-- ===== src/Authorization/Storage.antt =====
-- The stored collections that an authorization reads (`StorageCollections` of storage.py), and the
-- Door lookup of repositories/access_point.py.
use homepass.Prelude.{
  ℕ, Bool, true, not, ◌&&◌, ◌||◌, none, some, List, [], ◌∷◌, String, ◌==◌, string_eq, any,
}
use homepass.Prelude.Dict.{Dict, get}
use homepass.Prelude.Result.{
  Error, Result, ok, err, type_error, value_error, key_error, access_point_not_found, storage_error,
  raise_if, ◌>>=◌, ◌>>◌,
}
use homepass.Models.Json.{Fields, end, field, Codec}
use homepass.Models.AccessPoint.{AccessPoint, access_point_from_dict}

pub record StorageData : Type 0 where
  pub people : Dict String Fields
  pub access_points : Dict String Fields
  pub access_metadata : Dict String Fields
  pub credential_metadata : Dict String Fields
  pub access_grants : Dict String Fields
  pub schedules : Dict String Fields
  pub lifecycle_operations : Dict String Fields
  pub properties : Dict String Fields
  pub settings : Fields

-- `except (KeyError, TypeError, ValueError) as err: raise failure from err`
unfoldable pub or_raise {ℓ} : {A : Type ℓ} → Error → Result A → Result A
or_raise failure (err type_error) = err failure
or_raise failure (err value_error) = err failure
or_raise failure (err key_error) = err failure
or_raise failure (err e) = err e
or_raise failure (ok a) = ok a

-- set(fields)
abbrev pub names_of : Fields → List String
names_of end = []
names_of (field name value rest) = name ∷ names_of rest

abbrev pub subset : List String → List String → Bool
subset [] bs = true
subset (a ∷ as') bs = any (λ b. a == b) bs && subset as' bs

-- Two sets of names are equal.
abbrev pub same_set : List String → List String → Bool
same_set xs ys = subset xs ys && subset ys xs

abbrev pub access_point_fields : List String
access_point_fields = "id" ∷ "display_name" ∷ "enabled" ∷ "created_at" ∷ "updated_at" ∷ []

module _ (codec : Codec) where
  -- `_deserialize`
  unfoldable pub deserialize_access_point : String → Fields → Result AccessPoint
  unfolding or_raise
  deserialize_access_point stored_id fields = do
    raise_if
        (not (
          same_set (names_of fields) access_point_fields
          || same_set (names_of fields) ("open_enabled" ∷ "entry_action" ∷ access_point_fields)))
        storage_error
    access_point ← or_raise storage_error (access_point_from_dict codec fields)
    raise_if (not (codec.print_uuid access_point.id == stored_id)) storage_error
    ok access_point

  -- `get_from_snapshot`
  unfoldable pub get_from_snapshot : StorageData → ℕ → Result AccessPoint
  unfolding deserialize_access_point
  get_from_snapshot snapshot access_point_id =
      let key = codec.print_uuid access_point_id in
      elim (get snapshot.access_points key) [
        | none ↦ err access_point_not_found
        | some fields ↦ deserialize_access_point key fields
      ]
