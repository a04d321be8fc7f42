-- ===== src/Models/LifecycleOperation.antt =====
-- models/lifecycle_operation.py: the journal record of an operation of several steps. A number field
-- is a natural number, since the constructor refuses a negative one: `non_negative` is applied where
-- a number comes from outside.
pub mod Stored
use homepass.Prelude.{
  ℕ, ◌/◌, ◌%◌, ◌^◌, Bool, true, false, not, ◌&&◌, Option, none, some, String, ltb, ◌==◌, string_eq,
  nat_eq, if◌then◌else◌,
}
use homepass.Prelude.Result.{Result, ok, err, type_error, value_error, raise_if, ◌>>=◌, ◌>>◌}
use homepass.Prelude.Int.{ℤ, pos, negsuc}
use homepass.Prelude.Text.{strip, is_empty}
use homepass.Prelude.Instant.{Datetime, aware, normalize_datetime}
use homepass.Models.Json.{
  Value, null, bool, int, float, str, list, dict, Items, nil, cons, Fields, end, field, Codec,
  or_value_error,
}
use homepass.Nfc.Records.{Conversions, item, text_of, uuid_of}
use homepass.Authorization.Storage.{or_raise}

pub data LifecycleOperationStatus : Type 0 where
  pending running waiting_retry failed completed cancelled : LifecycleOperationStatus

unfoldable pub operation_status_value : LifecycleOperationStatus → String
operation_status_value pending = "pending"
operation_status_value running = "running"
operation_status_value waiting_retry = "waiting_retry"
operation_status_value failed = "failed"
operation_status_value completed = "completed"
operation_status_value cancelled = "cancelled"

-- `LifecycleOperationStatus(value)`; `none` is a `ValueError`.
unfoldable pub operation_status_of : String → Option LifecycleOperationStatus
operation_status_of s =
    if s == "pending"
    then some pending
    else if s == "running"
    then some running
    else if s == "waiting_retry"
    then some waiting_retry
    else if s == "failed"
    then some failed
    else if s == "completed"
    then some completed
    else if s == "cancelled"
    then some cancelled
    else none

-- `_json_value`: a float is finite if its exponent bits are not all set.
unfoldable mutual
  pub json_value : Value → Bool
  json_value (float bits) = not (bits / 2 ^ 52 % 2 ^ 11 == 2047)
  json_value (list items) = json_items items
  json_value (dict fields) = json_fields fields
  json_value _ = true

  json_items : Items → Bool
  json_items nil = true
  json_items (cons v rest) = json_value v && json_items rest

  json_fields : Fields → Bool
  json_fields end = true
  json_fields (field name v rest) = json_value v && json_fields rest

-- `_non_negative`
unfoldable pub non_negative : Value → Result ℕ
non_negative (int (pos n)) = ok n
non_negative (int (negsuc n)) = err value_error
non_negative _ = err type_error

pub record LifecycleOperation : Type 0 where
  pub operation_type : String
  pub payload : Fields
  pub operation_id : ℕ
  pub status : LifecycleOperationStatus
  pub current_step : ℕ
  pub retry_count : ℕ
  pub created_at : Datetime
  pub updated_at : Datetime

-- `__post_init__`
unfoldable pub lifecycle_operation_post_init : LifecycleOperation → Result LifecycleOperation
lifecycle_operation_post_init o = do
  raise_if (is_empty (strip o.operation_type)) value_error
  raise_if (not (json_value (dict o.payload))) value_error
  created_at ← normalize_datetime o.created_at
  updated_at ← normalize_datetime o.updated_at
  raise_if (ltb updated_at created_at) value_error
  ok (record o {
    operation_type = strip o.operation_type;
    created_at = aware created_at;
    updated_at = aware updated_at;
  })

-- `raw_status` of `from_dict`
unfoldable pub parse_operation_status : Value → Result LifecycleOperationStatus
parse_operation_status (str s) = or_value_error (operation_status_of s)
parse_operation_status _ = err type_error

-- `isinstance(operation_type, str)` and `isinstance(payload, Mapping)`
unfoldable pub typed_text : Value → Result String
typed_text (str s) = ok s
typed_text _ = err type_error

unfoldable pub typed_payload : Value → Result Fields
typed_payload (dict fields) = ok fields
typed_payload _ = err type_error

-- What the `try` block of `from_dict` reads.
pub record RawOperation : Type 0 where
  pub operation_id : ℕ
  pub operation_type : Value
  pub status : LifecycleOperationStatus
  pub created_at : Datetime
  pub updated_at : Datetime
  pub payload : Value
  pub current_step : Value
  pub retry_count : Value

module _ (codec : Codec) where
  unfoldable pub lifecycle_operation_to_dict : LifecycleOperation → Fields
  lifecycle_operation_to_dict o = field "operation_id" (str (codec.print_uuid o.operation_id)) (
      field "operation_type" (str o.operation_type) (
        field "status" (str (operation_status_value o.status)) (
          field "created_at" (str (codec.print_iso o.created_at)) (
            field "updated_at" (str (codec.print_iso o.updated_at)) (
              field "payload" (dict o.payload) (
                field "current_step" (int (pos o.current_step))
                  (field "retry_count" (int (pos o.retry_count)) end)))))))

module _ (conversions : Conversions) (codec : Codec) where
  -- The `try` block of `from_dict`; a `KeyError`, `TypeError` or `ValueError` in it is a `ValueError`.
  unfoldable pub read_operation : Fields → Result RawOperation
  read_operation fields = or_raise value_error (do
    operation_id ← uuid_of conversions codec (← item fields "operation_id")
    operation_type ← item fields "operation_type"
    status ← parse_operation_status (← item fields "status")
    created_at ← or_value_error (codec.parse_iso (text_of conversions (← item fields "created_at")))
    updated_at ← or_value_error (codec.parse_iso (text_of conversions (← item fields "updated_at")))
    payload ← item fields "payload"
    current_step ← item fields "current_step"
    retry_count ← item fields "retry_count"
    ok (record {
      operation_id = operation_id;
      operation_type = operation_type;
      status = status;
      created_at = created_at;
      updated_at = updated_at;
      payload = payload;
      current_step = current_step;
      retry_count = retry_count;
    }))

  unfoldable pub lifecycle_operation_from_dict : Fields → Result LifecycleOperation
  lifecycle_operation_from_dict fields = do
    raw ← read_operation fields
    operation_type ← typed_text raw.operation_type
    payload ← typed_payload raw.payload
    current_step ← non_negative raw.current_step
    retry_count ← non_negative raw.retry_count
    lifecycle_operation_post_init (record {
      operation_type = operation_type;
      payload = payload;
      operation_id = raw.operation_id;
      status = raw.status;
      current_step = current_step;
      retry_count = retry_count;
      created_at = raw.created_at;
      updated_at = raw.updated_at;
    })
