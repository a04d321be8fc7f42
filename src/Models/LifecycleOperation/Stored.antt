-- ===== src/Models/LifecycleOperation/Stored.antt =====
-- A `LifecycleOperation` survives its constructor and its stored form.
use homepass.Prelude.{◌<◌, ◌≤◌, ◌^◌, ◌≡◌, refl, true, false, some, arith}
use homepass.Prelude.Result.{ok, from_bind}
use homepass.Prelude.Int.{pos}
use homepass.Prelude.Text.{strip, is_empty, strip_idem}
use homepass.Prelude.Instant.{aware, instant, normalize_datetime}
use homepass.Models.Json.{get_field, Codec, parse_iso-print_iso, dict, or_value_error, int}
use homepass.Nfc.Records.{Conversions, item, text_of, uuid_of}
use homepass.Authorization.Storage.{or_raise}
use homepass.Models.LifecycleOperation.{
  LifecycleOperationStatus, operation_status_value, operation_status_of, pending, json_value,
  non_negative, LifecycleOperation, lifecycle_operation_post_init, parse_operation_status,
  typed_text, typed_payload, RawOperation, lifecycle_operation_to_dict, read_operation,
  lifecycle_operation_from_dict,
}

pub operation_status_of-value :
    (s : LifecycleOperationStatus) → operation_status_of (operation_status_value s) ≡ some s
unfolding operation_status_of operation_status_value
operation_status_of-value pending = refl
operation_status_of-value _ = refl

-- What a successful construction has computed and tested.
pub record IsBuilt (raw o : LifecycleOperation) : Type 0 where
  pub typed : o.operation_type ≡ strip raw.operation_type
  pub named : is_empty (strip raw.operation_type) ≡ false
  pub payload_json : json_value (dict raw.payload) ≡ true
  pub same_payload : o.payload ≡ raw.payload
  pub same_id : o.operation_id ≡ raw.operation_id
  pub same_status : o.status ≡ raw.status
  pub same_step : o.current_step ≡ raw.current_step
  pub same_retry : o.retry_count ≡ raw.retry_count
  pub created : o.created_at ≡ aware (instant raw.created_at)
  pub updated : o.updated_at ≡ aware (instant raw.updated_at)
  pub ordered : instant raw.created_at ≤ instant raw.updated_at

pub lifecycle_operation_post_init-IsBuilt :
    (raw o : LifecycleOperation) → lifecycle_operation_post_init raw ≡ ok o → IsBuilt raw o
unfolding lifecycle_operation_post_init normalize_datetime
lifecycle_operation_post_init-IsBuilt raw o h = ground arith

-- A built operation is built from itself, and every field keeps its value.
pub lifecycle_operation_post_init_idem :
    (raw o : LifecycleOperation)
    → lifecycle_operation_post_init raw ≡ ok o
    → lifecycle_operation_post_init o ≡ ok o
unfolding lifecycle_operation_post_init normalize_datetime
lifecycle_operation_post_init_idem raw o h = ground (arith, strip_idem raw.operation_type)

module _ (codec : Codec) where
  -- The identifier and times of an operation are in the ranges of `UUID` and `datetime`.
  pub record InRange (o : LifecycleOperation) : Type 0 where
    pub id_fits : o.operation_id < 2 ^ 128
    pub created_fits : instant o.created_at < codec.last_instant
    pub updated_fits : instant o.updated_at < codec.last_instant

module _ (conversions : Conversions) (codec : Codec) where
  -- An operation that was built, with its identifier and times in range, is read back from its stored
  -- form.
  pub lifecycle_operation_round_trip :
      (raw o : LifecycleOperation)
      → lifecycle_operation_post_init raw ≡ ok o
      → InRange codec o
      → lifecycle_operation_from_dict conversions codec (lifecycle_operation_to_dict codec o) ≡ ok o
  unfolding lifecycle_operation_from_dict lifecycle_operation_to_dict read_operation item get_field
      uuid_of text_of or_value_error or_raise parse_operation_status typed_text typed_payload
      non_negative
  lifecycle_operation_round_trip raw o h r =
      let b = lifecycle_operation_post_init-IsBuilt raw o h in
      rw
        (
          codec.uuid_round o.operation_id r.id_fits,
          parse_iso-print_iso codec o.created_at b.created r.created_fits,
          parse_iso-print_iso codec o.updated_at b.updated r.updated_fits,
          operation_status_of-value o.status,
        )
        (lifecycle_operation_post_init_idem raw o h)

  -- What the `try` block reads of a stored operation.
  read_operation-to_dict :
      (o : LifecycleOperation) (raw : RawOperation)
      → read_operation conversions codec (lifecycle_operation_to_dict codec o) ≡ ok raw
      → (raw.status ≡ o.status)
        × (raw.current_step ≡ int (pos o.current_step))
        × (raw.retry_count ≡ int (pos o.retry_count))
        × (raw.payload ≡ dict o.payload)
  unfolding lifecycle_operation_to_dict read_operation item get_field uuid_of text_of or_value_error
      or_raise parse_operation_status
  read_operation-to_dict o raw h = ground (arith, operation_status_of-value o.status)

  -- Whatever is read back from a stored operation has its status, its counts and its payload.
  pub from_dict-to_dict :
      (o p : LifecycleOperation)
      → lifecycle_operation_from_dict conversions codec (lifecycle_operation_to_dict codec o) ≡ ok p
      → (p.status ≡ o.status)
        × (p.current_step ≡ o.current_step)
        × (p.retry_count ≡ o.retry_count)
        × (p.payload ≡ o.payload)
  unfolding lifecycle_operation_from_dict typed_text typed_payload non_negative
      lifecycle_operation_post_init normalize_datetime
  from_dict-to_dict o p h =
      from_bind (read_operation conversions codec (lifecycle_operation_to_dict codec o)) h
        λ raw e h1. ground (arith, read_operation-to_dict o raw e)
