-- ===== src/Models/AccessMetadata.antt =====
-- models/access_metadata.py: what is known of a Person's code at a Door's lock, and
-- `VaultCredentialId.from_string` of vault/identifiers.py; such an identifier is its `UUID`.
use Prim.Native.Char.{code}
use Prim.Native.String.{[] as nil, ◌∷◌ as ◌∷ₛ◌}
use homepass.Prelude.{
  ℕ, Bool, false, not, Option, none, some, String, ltb, nat_beq, ◌==◌, string_eq, if◌then◌else◌,
}
use homepass.Prelude.Result.{Result, ok, err, type_error, value_error, raise_if, ◌>>=◌, ◌>>◌}
use homepass.Prelude.Int.{ℤ, pos, below}
use homepass.Prelude.Text.{strip, is_empty}
use homepass.Prelude.Instant.{Datetime, aware, normalize_datetime}
use homepass.Models.Json.{
  Value, null, int, str, Fields, end, field, Codec, required, get_or, require_string,
  or_value_error, parse_uuid, parse_datetime,
}
use homepass.Models.Synchronization.{SynchronizationStatus, status_of, status_value}

pub data AccessDriver : Type 0 where
  zwave_js nuki homepass_keypad : AccessDriver

unfoldable pub driver_value : AccessDriver → String
driver_value zwave_js = "zwave_js"
driver_value nuki = "nuki"
driver_value homepass_keypad = "homepass_keypad"

unfoldable pub driver_of : String → Option AccessDriver
driver_of s =
    if s == "zwave_js"
    then some zwave_js
    else if s == "nuki"
    then some nuki
    else if s == "homepass_keypad"
    then some homepass_keypad
    else none

-- s.startswith(prefix) and len(s) > len(prefix)
unfoldable pub extends : String → String → Bool
extends nil s = not (is_empty s)
extends (c ∷ₛ prefix) nil = false
extends (c ∷ₛ prefix) (d ∷ₛ s) =
    let rest = extends prefix s in if nat_beq (code c) (code d) then rest else false

-- A point in the text with something behind it; the code of a point is 46.
unfoldable pub point_inside : String → Bool
point_inside nil = false
point_inside (c ∷ₛ s) =
    let rest = point_inside s in if nat_beq (code c) 46 then not (is_empty s) else rest

-- "." in s and all(s.split(".", 1))
unfoldable pub is_dotted : String → Bool
is_dotted nil = false
is_dotted (c ∷ₛ s) = if nat_beq (code c) 46 then false else point_inside s

-- `valid_target`
unfoldable pub valid_target : AccessDriver → String → Bool
valid_target zwave_js entity_id = extends "lock." entity_id
valid_target _ entity_id = is_dotted entity_id

pub record AccessMetadata : Type 0 where
  pub person_id : ℕ
  pub access_point_id : ℕ
  pub driver : AccessDriver
  pub lock_entity_id : String
  pub slot : ℤ
  pub synchronization_status : SynchronizationStatus
  pub vault_credential_id : Option ℕ
  pub credential_revision : ℤ
  pub created_at : Datetime
  pub updated_at : Datetime

unfoldable pub access_metadata_post_init : AccessMetadata → Result AccessMetadata
access_metadata_post_init m = do
  let lock_entity_id = strip m.lock_entity_id
  raise_if (not (valid_target m.driver lock_entity_id)) value_error
  raise_if (below m.slot 1) value_error
  raise_if (below m.credential_revision 1) value_error
  created_at ← normalize_datetime m.created_at
  updated_at ← normalize_datetime m.updated_at
  raise_if (ltb updated_at created_at) value_error
  ok (record m {
    lock_entity_id = lock_entity_id;
    created_at = aware created_at;
    updated_at = aware updated_at;
  })

-- `_parse_enum`
unfoldable pub parse_enum {ℓ} : {A : Type ℓ} → (String → Option A) → Value → Result A
parse_enum of (str s) = or_value_error (of s)
parse_enum of _ = err type_error

-- `_positive_slot`, and `_positive_revision`
unfoldable pub positive : Value → Result ℤ
positive (int n) = if below n 1 then err value_error else ok n
positive _ = err type_error

module _ (codec : Codec) where
  -- `_optional_vault_credential_id`
  unfoldable pub optional_vault_credential_id : Value → Result (Option ℕ)
  optional_vault_credential_id null = ok none
  optional_vault_credential_id (str s) = do id ← or_value_error (codec.parse_uuid s); ok (some id)
  optional_vault_credential_id _ = err type_error

  unfoldable pub print_credential : Option ℕ → Value
  print_credential none = null
  print_credential (some id) = str (codec.print_uuid id)

  unfoldable pub access_metadata_to_dict : AccessMetadata → Fields
  access_metadata_to_dict m = field "person_id" (str (codec.print_uuid m.person_id)) (
      field "access_point_id" (str (codec.print_uuid m.access_point_id)) (
        field "driver" (str (driver_value m.driver)) (
          field "lock_entity_id" (str m.lock_entity_id) (
            field "slot" (int m.slot) (
              field "synchronization_status" (str (status_value m.synchronization_status)) (
                field "vault_credential_id" (print_credential m.vault_credential_id) (
                  field "credential_revision" (int m.credential_revision) (
                    field "created_at" (str (codec.print_iso m.created_at))
                      (field "updated_at" (str (codec.print_iso m.updated_at)) end)))))))))

  unfoldable pub access_metadata_from_dict : Fields → Result AccessMetadata
  access_metadata_from_dict fields = do
    person_id ← parse_uuid codec (← required fields "person_id")
    access_point_id ← parse_uuid codec (← required fields "access_point_id")
    driver ← parse_enum driver_of (← required fields "driver")
    lock_entity_id ← require_string (← required fields "lock_entity_id")
    slot ← positive (← required fields "slot")
    synchronization_status ← parse_enum status_of (← required fields "synchronization_status")
    vault_credential_id ← optional_vault_credential_id (get_or fields "vault_credential_id" null)
    credential_revision ← positive (get_or fields "credential_revision" (int (pos 1)))
    created_at ← parse_datetime codec (← required fields "created_at")
    updated_at ← parse_datetime codec (← required fields "updated_at")
    access_metadata_post_init (record {
      person_id = person_id;
      access_point_id = access_point_id;
      driver = driver;
      lock_entity_id = lock_entity_id;
      slot = slot;
      synchronization_status = synchronization_status;
      vault_credential_id = vault_credential_id;
      credential_revision = credential_revision;
      created_at = created_at;
      updated_at = updated_at;
    })
