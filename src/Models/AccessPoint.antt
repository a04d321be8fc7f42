-- ===== src/Models/AccessPoint.antt =====
-- models/access_point.py
pub mod Stored
use homepass.Prelude.{
  ℕ, ◌≡◌, Bool, not, ◌&&◌, ◌||◌, Option, none, some, String, ltb, ◌==◌, string_eq, if◌then◌else◌,
}
use homepass.Prelude.Result.{Result, ok, err, value_error, raise_if, ◌>>=◌, ◌>>◌}
use homepass.Prelude.Text.{strip, is_empty}
use homepass.Prelude.Instant.{Datetime, naive, aware, instant, normalize_datetime}
use homepass.Models.Json.{
  Value, bool, str, Fields, end, field, Codec, required, get_or, require_string, require_bool,
  parse_uuid, parse_datetime,
}

pub record AccessPoint : Type 0 where
  pub id : ℕ
  pub display_name : String
  pub enabled : Bool
  pub created_at : Datetime
  pub updated_at : Datetime
  pub open_enabled : Bool
  pub entry_action : String

unfoldable pub access_point_post_init : AccessPoint → Result AccessPoint
unfolding normalize_datetime
access_point_post_init p = do
  let display_name = strip p.display_name
  raise_if (is_empty display_name) value_error
  raise_if (not (p.entry_action == "unlock" || p.entry_action == "open")) value_error
  raise_if (p.entry_action == "open" && not p.open_enabled) value_error
  created_at ← normalize_datetime p.created_at
  updated_at ← normalize_datetime p.updated_at
  raise_if (ltb updated_at created_at) value_error
  ok (record p {
    display_name = display_name;
    created_at = aware created_at;
    updated_at = aware updated_at;
  })

module _ (codec : Codec) where
  unfoldable pub access_point_to_dict : AccessPoint → Fields
  access_point_to_dict p = field "id" (str (codec.print_uuid p.id)) (
      field "display_name" (str p.display_name) (
        field "enabled" (bool p.enabled) (
          field "created_at" (str (codec.print_iso p.created_at)) (
            field "updated_at" (str (codec.print_iso p.updated_at)) (
              field "open_enabled" (bool p.open_enabled)
                (field "entry_action" (str p.entry_action) end))))))

  unfoldable pub access_point_from_dict : Fields → Result AccessPoint
  unfolding required get_or require_string require_bool parse_uuid parse_datetime
      access_point_post_init
  access_point_from_dict fields = do
    open_enabled ← require_bool (get_or fields "open_enabled" (bool Bool.false))
    entry_action ← require_string (get_or fields "entry_action" (str "unlock"))
    id ← parse_uuid codec (← required fields "id")
    display_name ← require_string (← required fields "display_name")
    enabled ← require_bool (← required fields "enabled")
    created_at ← parse_datetime codec (← required fields "created_at")
    updated_at ← parse_datetime codec (← required fields "updated_at")
    access_point_post_init (record {
      id = id;
      display_name = display_name;
      enabled = enabled;
      created_at = created_at;
      updated_at = updated_at;
      open_enabled = open_enabled;
      entry_action = entry_action;
    })
