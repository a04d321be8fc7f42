-- ===== src/Schedule/Policy.antt =====
-- `Schedule` of models/schedule.py and its `__post_init__`. `zone_exists` is whether `ZoneInfo`
-- finds a time zone of that name.
use homepass.Prelude.{
  ℕ, Bool, false, not, ◌&&◌, ◌||◌, Option, some, List, String, ltb, leb, ◌==◌, nat_eq, string_eq,
}
use homepass.Prelude.Result.{Result, ok, value_error, raise_if, ◌>>=◌, ◌>>◌}
use homepass.Prelude.Sorting.{sorted}
use homepass.Prelude.Text.{strip, is_empty}
use homepass.Prelude.Int.{ℤ, below}
use homepass.Prelude.Instant.{Datetime, aware, normalize_datetime, normalize_optional}
use homepass.Schedule.Rule.{value, micros, WeeklyRule}
use homepass.Schedule.Overlap.{validate_rules}

pub record Schedule : Type 0 where
  pub name : String
  pub time_zone : String
  pub schedule_id : ℕ
  pub enabled : Bool
  pub valid_from : Option Datetime
  pub valid_until : Option Datetime
  pub weekly_rules : List WeeklyRule
  pub revision : ℤ
  pub created_at : Datetime
  pub updated_at : Datetime

-- The order of the keys `(day_of_week.value, start_time, end_time)`.
unfoldable pub rule_lt : WeeklyRule → WeeklyRule → Bool
rule_lt a b =
    ltb (value a.day_of_week) (value b.day_of_week)
    || (value a.day_of_week == value b.day_of_week
        && (ltb (micros a.start_time) (micros b.start_time)
            || (micros a.start_time == micros b.start_time
                && ltb (micros a.end_time) (micros b.end_time))))

-- `valid_from is not None and valid_until is not None and valid_until <= valid_from`
unfoldable pub window_closed : Option Datetime → Option Datetime → Bool
window_closed (some (aware from)) (some (aware until)) = leb until from
window_closed _ _ = false

module _ (zone_exists : String → Bool) where
  unfoldable pub schedule_post_init : Schedule → Result Schedule
  unfolding rule_lt window_closed is_empty
  schedule_post_init s = do
    let name = strip s.name
    raise_if (is_empty name) value_error
    raise_if (is_empty s.time_zone || not (s.time_zone == strip s.time_zone)) value_error
    raise_if (not (zone_exists s.time_zone)) value_error
    raise_if (below s.revision 1) value_error
    let rules = sorted rule_lt s.weekly_rules
    validate_rules rules
    valid_from ← normalize_optional s.valid_from
    valid_until ← normalize_optional s.valid_until
    raise_if (window_closed valid_from valid_until) value_error
    created_at ← normalize_datetime s.created_at
    updated_at ← normalize_datetime s.updated_at
    raise_if (ltb updated_at created_at) value_error
    ok (record s {
      name = name;
      weekly_rules = rules;
      valid_from = valid_from;
      valid_until = valid_until;
      created_at = aware created_at;
      updated_at = aware updated_at;
    })
