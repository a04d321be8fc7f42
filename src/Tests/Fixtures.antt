-- ===== src/Tests/Fixtures.antt =====
-- Concrete codecs and time zones, and a small stored snapshot.
use Prim.Native.String.{◌∷◌ as ◌∷ₛ◌}
use homepass.Prelude.{
  ℕ, zero, suc, ◌+◌, ◌*◌, ◌/◌, ◌%◌, ◌≤◌, ◌≡◌, refl, ap, ◌∙◌, true, false, none, some, [], ◌∷◌,
  String, arith,
}
use homepass.Prelude.Text.{count_chars}
use homepass.Prelude.Int.{pos}
use homepass.Prelude.Instant.{aware, instant}
use homepass.Models.Json.{Codec}
use homepass.Schedule.Rule.{monday, friday, Time, IsTime, WeeklyRule}
use homepass.Schedule.Policy.{Schedule}
use homepass.Schedule.Stored.{TimeCodec}
use homepass.Schedule.Evaluation.{Zones}

-- A number in unary.
unfoldable pub unary : ℕ → String
unary zero = ""
unary (suc n) = "1" ∷ₛ unary n

pub count_chars-unary : (n : ℕ) → count_chars (unary n) ≡ n
unfolding count_chars unary
count_chars-unary zero = refl
count_chars-unary (suc n) = ap suc (count_chars-unary n)

abbrev pub codec : Codec
codec = record {
  parse_uuid = λ s. some (count_chars s);
  print_uuid = unary;
  parse_iso = λ s. some (aware (count_chars s));
  print_iso = λ d. unary (instant d);
  last_instant = 1000000;
  uuid_round = λ u h. ap some (count_chars-unary u);
  iso_round = λ n h. ap (λ k. some (aware k)) (count_chars-unary n);
}

abbrev pub time_at_minute : ℕ → Time
time_at_minute m = record {
  hour = m / 60;
  minute = m % 60;
  second = 0;
  microsecond = 0;
  has_tzinfo = false;
}

pub time_at_minute_lem :
    (t : Time)
    → IsTime t
    → t.second ≡ 0
    → t.microsecond ≡ 0
    → t.has_tzinfo ≡ false
    → time_at_minute (t.hour * 60 + t.minute) ≡ t
time_at_minute_lem t h s m z = ground arith

abbrev pub times : TimeCodec
times = record {
  parse = λ s. some (time_at_minute (count_chars s));
  print = λ t. unary (t.hour * 60 + t.minute);
  round = λ t h s m z. ap some (
      ap time_at_minute (count_chars-unary (t.hour * 60 + t.minute))
      ∙ time_at_minute_lem t h s m z);
}

abbrev pub utc_time : ℕ → Time
utc_time now = record {
  hour = now / 3600000000 % 24;
  minute = now / 60000000 % 60;
  second = now / 1000000 % 60;
  microsecond = now % 1000000;
  has_tzinfo = false;
}

-- One zone, UTC, whose first instant is on a Monday.
pub utc_bounds :
    (zone : String) (now : ℕ) → (1 ≤ now / 86400000000 % 7 + 1) × (now / 86400000000 % 7 + 1 ≤ 7)
utc_bounds zone now = omega arith

pub utc-IsTime : (zone : String) (now : ℕ) → IsTime (utc_time now)
utc-IsTime zone now = omega arith

abbrev pub zones : Zones
zones = record {
  zone_exists = λ zone. true;
  isoweekday = λ zone now. now / 86400000000 % 7 + 1;
  local_time = λ zone now. utc_time now;
  isoweekday_bounds = utc_bounds;
  local_time-IsTime = utc-IsTime;
}

abbrev pub at_time : ℕ → ℕ → Time
at_time hour minute = record {
  hour = hour;
  minute = minute;
  second = 0;
  microsecond = 0;
  has_tzinfo = false;
}

-- Monday from 08:00 to 17:00, and the night from Friday 22:00 to Saturday 06:00.
abbrev pub office : WeeklyRule
office = record { day_of_week = monday; start_time = at_time 8 0; end_time = at_time 17 0 }

abbrev pub night : WeeklyRule
night = record { day_of_week = friday; start_time = at_time 22 0; end_time = at_time 6 0 }

abbrev pub week : Schedule
week = record {
  name = " week ";
  time_zone = "UTC";
  schedule_id = 3;
  enabled = true;
  valid_from = some (aware 5);
  valid_until = none;
  weekly_rules = night ∷ office ∷ [];
  revision = pos 1;
  created_at = aware 1;
  updated_at = aware 2;
}

-- The schedule that the constructor makes of it.
abbrev pub built_week : Schedule
built_week = record week { name = "week"; weekly_rules = office ∷ night ∷ [] }
