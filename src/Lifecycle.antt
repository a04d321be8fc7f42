-- ===== src/Lifecycle.antt =====
-- repositories/lifecycle_operation.py: the journal of lifecycle operations, a collection of the storage.
-- A transaction changes a copy and publishes it after the storage manager has validated and written
-- it; `saved` is the outcome of that. Each call of the repository runs under its lock, as one step.
pub mod Concurrency
pub mod Manager
use homepass.Prelude.{
  ℕ, Bool, not, ◌&&◌, ◌||◌, Option, none, some, List, [], ◌∷◌, map, String, ltb, ◌==◌, string_eq,
  nat_eq, if◌then◌else◌,
}
use homepass.Prelude.Result.{
  Error, Result, ok, err, lifecycle_operation_not_found, lifecycle_operation_conflict,
  storage_error, raise_if, ◌>>=◌, ◌>>◌,
}
use homepass.Prelude.Dict.{Dict, get, put}
use homepass.Prelude.Sorting.{sorted}
use homepass.Prelude.Text.{text_leb}
use homepass.Prelude.Instant.{Datetime, instant}
use homepass.Models.Json.{Fields, Codec}
use homepass.Nfc.Records.{Conversions}
use homepass.Models.LifecycleOperation.{
  LifecycleOperation, lifecycle_operation_to_dict, lifecycle_operation_from_dict,
}

-- storage["data"]["lifecycle_operations"]
abbrev pub Journal : Type 0
Journal = Dict String Fields

-- The three exceptions pass, and any other becomes a `StorageError`.
unfoldable pub wrap_error : Error → Error
wrap_error lifecycle_operation_conflict = lifecycle_operation_conflict
wrap_error lifecycle_operation_not_found = lifecycle_operation_not_found
wrap_error _ = storage_error

-- `_mutate`: the journal after it, and what it returns or raises.
unfoldable pub mutate :
    Result (Unit {0}) → Journal → (Journal → Result Journal) → Journal × Result (Unit {0})
unfolding wrap_error
mutate saved j change = elim (change j) [
  | err e ↦ (j, err (wrap_error e))
  | ok j' ↦ elim saved [ err e ↦ (j, err (wrap_error e)) | ok u ↦ (j', ok tt) ]
]

-- (created_at, str(operation_id)) is before that of another operation
abbrev pub sorts_before : Codec → LifecycleOperation → LifecycleOperation → Bool
sorts_before codec a b =
    ltb (instant a.created_at) (instant b.created_at)
    || (instant a.created_at == instant b.created_at
        && not (text_leb (codec.print_uuid b.operation_id) (codec.print_uuid a.operation_id)))

-- The loop of `get`.
unfoldable pub find_operation : List LifecycleOperation → ℕ → Result LifecycleOperation
find_operation [] operation_id = err lifecycle_operation_not_found
find_operation (o ∷ rest) operation_id =
    if o.operation_id == operation_id then ok o else find_operation rest operation_id

-- The values of a dictionary.
abbrev pub values : Dict ℕ LifecycleOperation → List LifecycleOperation
values [] = []
values ((k, o) ∷ rest) = o ∷ values rest

module _ (conversions : Conversions) (codec : Codec) where
  -- `_deserialize`, from the operations that are read so far
  unfoldable pub deserialize_from :
      Dict ℕ LifecycleOperation → Journal → Result (Dict ℕ LifecycleOperation)
  deserialize_from operations [] = ok operations
  deserialize_from operations ((key, fields) ∷ rest) = do
    operation ← lifecycle_operation_from_dict conversions codec fields
    raise_if (not (codec.print_uuid operation.operation_id == key)) storage_error
    deserialize_from (put operations operation.operation_id operation) rest

  -- `list_all`: whatever goes wrong in it is a `StorageError`.
  unfoldable pub list_all : Journal → Result (List LifecycleOperation)
  unfolding deserialize_from
  list_all j = elim (deserialize_from [] j) [
    | err e ↦ err storage_error
    | ok operations ↦ ok (sorted (sorts_before codec) (values operations))
  ]

  -- `get`
  unfoldable pub get_operation : Journal → ℕ → Result LifecycleOperation
  get_operation j operation_id = do operations ← list_all j; find_operation operations operation_id

  -- The mutator of `add`.
  unfoldable pub add_change : LifecycleOperation → Journal → Result Journal
  add_change o j =
      let key = codec.print_uuid o.operation_id in
      elim (get j key) [
        | some present ↦ err lifecycle_operation_conflict
        | none ↦ ok (put j key (lifecycle_operation_to_dict codec o))
      ]

  unfoldable pub add :
      Result (Unit {0}) → Journal → LifecycleOperation → Journal × Result (Unit {0})
  add saved j o = mutate saved j (add_change o)

  -- The mutator of `replace`. The two times are aware, and equal if their instants are.
  unfoldable pub replace_change : LifecycleOperation → Datetime → Journal → Result Journal
  replace_change o expected_updated_at j =
      let key = codec.print_uuid o.operation_id in
      elim (get j key) [
        | none ↦ err lifecycle_operation_not_found
        | some fields ↦ do
          current ← lifecycle_operation_from_dict conversions codec fields
          raise_if (not (instant current.updated_at == instant expected_updated_at))
              lifecycle_operation_conflict
          ok (put j key (lifecycle_operation_to_dict codec o))
      ]

  unfoldable pub replace :
      Result (Unit {0}) → Journal → LifecycleOperation → Datetime → Journal × Result (Unit {0})
  replace saved j o expected_updated_at = mutate saved j (replace_change o expected_updated_at)
