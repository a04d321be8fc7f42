-- ===== src/Schedule/Stored.antt =====
-- The serialized form of a schedule: `to_dict` and `from_dict` of models/schedule.py.
-- `TimeCodec` is `time.fromisoformat` and `time.isoformat(timespec="minutes")`.
pub mod RoundTrip
use homepass.Prelude.{
  ℕ, ◌≡◌, Bool, true, false, Option, none, some, List, [], ◌∷◌, String, ◌==◌, nat_eq,
}
use homepass.Prelude.Result.{Result, ok, err, type_error, value_error, ◌>>=◌, ◌>>◌}
use homepass.Prelude.Int.{ℤ, pos, negsuc}
use homepass.Prelude.Instant.{Datetime}
use homepass.Models.Json.{
  Value, null, bool, int, str, list, dict, Items, nil, cons, Fields, end, field, Codec, required,
  require_string, require_bool, or_value_error, parse_uuid, parse_datetime,
}
use homepass.Schedule.Rule.{DayOfWeek, value, day_of_week, Time, IsTime, WeeklyRule, rule_post_init}
use homepass.Schedule.Policy.{Schedule, schedule_post_init}

-- A naive time at a whole minute is read back from its text.
pub record TimeCodec : Type 0 where
  pub parse : String → Option Time
  pub print : Time → String
  pub round :
      (t : Time)
      → IsTime t
      → t.second ≡ 0
      → t.microsecond ≡ 0
      → t.has_tzinfo ≡ false
      → parse (print t) ≡ some t

unfoldable pub require_int : Value → Result ℤ
require_int (int n) = ok n
require_int _ = err type_error

-- `DayOfWeek(day)`, for any integer
unfoldable pub day_of_int : ℤ → Result DayOfWeek
unfolding day_of_week
day_of_int (pos n) = day_of_week n
day_of_int (negsuc n) = err value_error

-- A list whose elements are all objects, as those objects.
unfoldable pub objects : Items → Result (List Fields)
objects nil = ok []
objects (cons (dict fields) items) = do rest ← objects items; ok (fields ∷ rest)
objects (cons _ items) = err type_error

unfoldable pub require_objects : Value → Result (List Fields)
unfolding objects
require_objects (list items) = objects items
require_objects _ = err type_error

module _ (codec : Codec) (times : TimeCodec) where
  unfoldable pub parse_time : Value → Result Time
  unfolding or_value_error
  parse_time (str s) = or_value_error (times.parse s)
  parse_time _ = err type_error

  unfoldable pub rule_to_dict : WeeklyRule → Fields
  rule_to_dict rule = field "day_of_week" (int (pos (value rule.day_of_week))) (
      field "start_time" (str (times.print rule.start_time))
        (field "end_time" (str (times.print rule.end_time)) end))

  unfoldable pub rule_from_dict : Fields → Result WeeklyRule
  unfolding required require_int day_of_int parse_time rule_post_init
  rule_from_dict fields = do
    day ← require_int (← required fields "day_of_week")
    day_of_week ← day_of_int day
    start_time ← parse_time (← required fields "start_time")
    end_time ← parse_time (← required fields "end_time")
    rule_post_init
        (record { day_of_week = day_of_week; start_time = start_time; end_time = end_time })

  -- `[rule.to_dict() for rule in rules]`
  unfoldable pub rules_to_items : List WeeklyRule → Items
  rules_to_items [] = nil
  rules_to_items (rule ∷ rules) = cons (dict (rule_to_dict rule)) (rules_to_items rules)

  -- `tuple(WeeklyRule.from_dict(rule) for rule in raw_rules)`
  unfoldable pub rules_from_dicts : List Fields → Result (List WeeklyRule)
  rules_from_dicts [] = ok []
  rules_from_dicts (fields ∷ rest) = do
    rule ← rule_from_dict fields
    rules ← rules_from_dicts rest
    ok (rule ∷ rules)

  unfoldable pub print_optional : Option Datetime → Value
  print_optional none = null
  print_optional (some d) = str (codec.print_iso d)

  unfoldable pub parse_optional_datetime : Value → Result (Option Datetime)
  unfolding parse_datetime
  parse_optional_datetime null = ok none
  parse_optional_datetime v = do d ← parse_datetime codec v; ok (some d)

  unfoldable pub schedule_to_dict : Schedule → Fields
  unfolding print_optional
  schedule_to_dict s = field "schedule_id" (str (codec.print_uuid s.schedule_id)) (
      field "name" (str s.name) (
        field "enabled" (bool s.enabled) (
          field "time_zone" (str s.time_zone) (
            field "valid_from" (print_optional s.valid_from) (
              field "valid_until" (print_optional s.valid_until) (
                field "weekly_rules" (list (rules_to_items s.weekly_rules)) (
                  field "revision" (int s.revision) (
                    field "created_at" (str (codec.print_iso s.created_at))
                      (field "updated_at" (str (codec.print_iso s.updated_at)) end)))))))))

  unfoldable pub schedule_from_dict : (String → Bool) → Fields → Result Schedule
  unfolding required require_string require_bool require_int require_objects parse_uuid
      parse_datetime
  schedule_from_dict zone_exists fields = do
    schedule_id ← parse_uuid codec (← required fields "schedule_id")
    raw_rules ← require_objects (← required fields "weekly_rules")
    raw_name ← required fields "name"
    raw_enabled ← required fields "enabled"
    raw_time_zone ← required fields "time_zone"
    raw_revision ← required fields "revision"
    name ← require_string raw_name
    enabled ← require_bool raw_enabled
    time_zone ← require_string raw_time_zone
    revision ← require_int raw_revision
    valid_from ← parse_optional_datetime (← required fields "valid_from")
    valid_until ← parse_optional_datetime (← required fields "valid_until")
    weekly_rules ← rules_from_dicts raw_rules
    created_at ← parse_datetime codec (← required fields "created_at")
    updated_at ← parse_datetime codec (← required fields "updated_at")
    schedule_post_init zone_exists (record {
      name = name;
      time_zone = time_zone;
      schedule_id = schedule_id;
      enabled = enabled;
      valid_from = valid_from;
      valid_until = valid_until;
      weekly_rules = weekly_rules;
      revision = revision;
      created_at = created_at;
      updated_at = updated_at;
    })
