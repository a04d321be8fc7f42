-- ===== src/Models/Person.antt =====
-- models/person.py
pub mod Stored
use homepass.Prelude.{
  ℕ, ◌<◌, ◌^◌, ◌≡◌, refl, Bool, Option, none, some, String, ltb, ◌==◌, string_eq, if◌then◌else◌,
  arith,
}
use homepass.Prelude.Result.{Result, ok, err, value_error, raise_if, ◌>>=◌, ◌>>◌}
use homepass.Prelude.Text.{strip, is_empty, count_chars, strip_idem}
use homepass.Prelude.Instant.{Datetime, naive, aware, instant, normalize_datetime}
use homepass.Models.Json.{
  Value, null, bool, str, dict, Fields, end, field, get_field, Codec, required, get_or,
  require_string, require_bool, optional_string, parse_uuid, parse_datetime,
}

abbrev pub max_person_description_length : ℕ
max_person_description_length = 160

pub record Person : Type 0 where
  pub person_id : ℕ
  pub schedule_id : ℕ
  pub display_name : String
  pub description : Option String
  pub enabled : Bool
  pub notes : Option String
  pub created_at : Datetime
  pub updated_at : Datetime

-- A description is stripped, and an empty one is none.
unfoldable pub clean_description : Option String → Option String
unfolding strip is_empty
clean_description none = none
clean_description (some s) = if is_empty (strip s) then none else some (strip s)

unfoldable pub too_long : Option String → Bool
unfolding count_chars
too_long none = Bool.false
too_long (some s) = ltb max_person_description_length (count_chars s)

unfoldable pub person_post_init : Person → Result Person
unfolding too_long normalize_datetime
person_post_init p = do
  let display_name = strip p.display_name
  raise_if (is_empty display_name) value_error
  let description = clean_description p.description
  raise_if (too_long description) value_error
  created_at ← normalize_datetime p.created_at
  updated_at ← normalize_datetime p.updated_at
  raise_if (ltb updated_at created_at) value_error
  ok (record p {
    display_name = display_name;
    description = description;
    created_at = aware created_at;
    updated_at = aware updated_at;
  })

-- An optional text as JSON.
unfoldable pub optional : Option String → Value
optional none = null
optional (some s) = str s

module _ (codec : Codec) where
  unfoldable pub person_to_dict : Person → Fields
  unfolding optional
  person_to_dict p = field "person_id" (str (codec.print_uuid p.person_id)) (
      field "schedule_id" (str (codec.print_uuid p.schedule_id)) (
        field "display_name" (str p.display_name) (
          field "description" (optional p.description) (
            field "enabled" (bool p.enabled) (
              field "notes" (optional p.notes) (
                field "created_at" (str (codec.print_iso p.created_at))
                  (field "updated_at" (str (codec.print_iso p.updated_at)) end)))))))

  unfoldable pub person_from_dict : Fields → Result Person
  unfolding required get_or require_string require_bool optional_string parse_uuid parse_datetime
      person_post_init
  person_from_dict fields = do
    person_id ← parse_uuid codec (← required fields "person_id")
    schedule_id ← parse_uuid codec (← required fields "schedule_id")
    display_name ← require_string (← required fields "display_name")
    description ← optional_string (get_or fields "description" null)
    enabled ← require_bool (← required fields "enabled")
    notes ← optional_string (← required fields "notes")
    created_at ← parse_datetime codec (← required fields "created_at")
    updated_at ← parse_datetime codec (← required fields "updated_at")
    person_post_init (record {
      person_id = person_id;
      schedule_id = schedule_id;
      display_name = display_name;
      description = description;
      enabled = enabled;
      notes = notes;
      created_at = created_at;
      updated_at = updated_at;
    })
