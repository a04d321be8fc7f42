-- ===== src/Models/AccessGrant.antt =====
-- models/access_grant.py
pub mod Stored
use homepass.Prelude.{ℕ, Bool, Option, none, some, String, ltb}
use homepass.Prelude.Result.{Result, ok, err, type_error, value_error, raise_if, ◌>>=◌, ◌>>◌}
use homepass.Prelude.Instant.{Datetime, aware, normalize_datetime}
use homepass.Models.Json.{
  Value, bool, str, Fields, end, field, Codec, required, get_or, require_bool, or_value_error,
  parse_uuid, parse_datetime,
}
use homepass.Models.Synchronization.{SynchronizationStatus, status_of, status_value, unknown}

pub record AccessGrant : Type 0 where
  pub access_grant_id : ℕ
  pub person_id : ℕ
  pub credential_id : ℕ
  pub access_point_id : ℕ
  pub schedule_id : ℕ
  pub enabled : Bool
  pub synchronization_status : SynchronizationStatus
  pub created_at : Datetime
  pub updated_at : Datetime

unfoldable pub access_grant_post_init : AccessGrant → Result AccessGrant
unfolding normalize_datetime
access_grant_post_init g = do
  created_at ← normalize_datetime g.created_at
  updated_at ← normalize_datetime g.updated_at
  raise_if (ltb updated_at created_at) value_error
  ok (record g { created_at = aware created_at; updated_at = aware updated_at })

unfoldable pub parse_synchronization_status : Value → Result SynchronizationStatus
unfolding or_value_error
parse_synchronization_status (str s) = or_value_error (status_of s)
parse_synchronization_status _ = err type_error

module _ (codec : Codec) where
  unfoldable pub access_grant_to_dict : AccessGrant → Fields
  access_grant_to_dict g = field "access_grant_id" (str (codec.print_uuid g.access_grant_id)) (
      field "person_id" (str (codec.print_uuid g.person_id)) (
        field "credential_id" (str (codec.print_uuid g.credential_id)) (
          field "access_point_id" (str (codec.print_uuid g.access_point_id)) (
            field "schedule_id" (str (codec.print_uuid g.schedule_id)) (
              field "enabled" (bool g.enabled) (
                field "created_at" (str (codec.print_iso g.created_at)) (
                  field "updated_at" (str (codec.print_iso g.updated_at)) (
                    field "synchronization_status" (str (status_value g.synchronization_status))
                      end))))))))

  unfoldable pub access_grant_from_dict : Fields → Result AccessGrant
  unfolding required get_or require_bool parse_uuid parse_datetime parse_synchronization_status
      access_grant_post_init
  access_grant_from_dict fields = do
    access_grant_id ← parse_uuid codec (← required fields "access_grant_id")
    person_id ← parse_uuid codec (← required fields "person_id")
    credential_id ← parse_uuid codec (← required fields "credential_id")
    access_point_id ← parse_uuid codec (← required fields "access_point_id")
    schedule_id ← parse_uuid codec (← required fields "schedule_id")
    enabled ← require_bool (← required fields "enabled")
    created_at ← parse_datetime codec (← required fields "created_at")
    updated_at ← parse_datetime codec (← required fields "updated_at")
    synchronization_status ←
        parse_synchronization_status
          (get_or fields "synchronization_status" (str (status_value unknown)))
    access_grant_post_init (record {
      access_grant_id = access_grant_id;
      person_id = person_id;
      credential_id = credential_id;
      access_point_id = access_point_id;
      schedule_id = schedule_id;
      enabled = enabled;
      synchronization_status = synchronization_status;
      created_at = created_at;
      updated_at = updated_at;
    })
