-- ===== src/Schedule/Rule.antt =====
-- `DayOfWeek`, `time` and `WeeklyRule` of models/schedule.py, and the matching of one rule by
-- `_rule_matches` of models/schedule_evaluation.py. A `time` has the fields of Python's class; the
-- order of two naive times is that of their microseconds in the day.
use homepass.Prelude.{
  ℕ, ◌+◌, ◌-◌, ◌*◌, ◌%◌, ◌<◌, ◌≡◌, Bool, not, ◌&&◌, ◌||◌, List, [], ◌∷◌, ltb, leb, ◌==◌, nat_eq,
  if◌then◌else◌,
}
use homepass.Prelude.Result.{Result, ok, err, value_error, raise_if, ◌>>=◌, ◌>>◌}

pub data DayOfWeek : Type 0 where
  monday tuesday wednesday thursday friday saturday sunday : DayOfWeek

-- The value of the `IntEnum`.
abbrev pub value : DayOfWeek → ℕ
value monday = 1
value tuesday = 2
value wednesday = 3
value thursday = 4
value friday = 5
value saturday = 6
value sunday = 7

-- `DayOfWeek(number)`
unfoldable pub day_of_week : ℕ → Result DayOfWeek
day_of_week number =
    if number == 1
    then ok monday
    else if number == 2
    then ok tuesday
    else if number == 3
    then ok wednesday
    else if number == 4
    then ok thursday
    else if number == 5
    then ok friday
    else if number == 6
    then ok saturday
    else if number == 7
    then ok sunday
    else err value_error

pub record Time : Type 0 where
  pub hour : ℕ
  pub minute : ℕ
  pub second : ℕ
  pub microsecond : ℕ
  pub has_tzinfo : Bool

-- The ranges that Python's `time` keeps.
pub record IsTime (t : Time) : Type 0 where
  pub hours : t.hour < 24
  pub minutes : t.minute < 60
  pub seconds : t.second < 60
  pub microseconds : t.microsecond < 1000000

unfoldable pub micros : Time → ℕ
micros t = ((t.hour * 60 + t.minute) * 60 + t.second) * 1000000 + t.microsecond

pub record WeeklyRule : Type 0 where
  pub day_of_week : DayOfWeek
  pub start_time : Time
  pub end_time : Time

-- The tests of `__post_init__` on one of the two times.
unfoldable pub check_time : Time → Result (Unit {0})
check_time t = do
  raise_if t.has_tzinfo value_error
  raise_if (not (t.second == 0) || not (t.microsecond == 0)) value_error

unfoldable pub rule_post_init : WeeklyRule → Result WeeklyRule
unfolding check_time
rule_post_init rule = do
  check_time rule.start_time
  check_time rule.end_time
  raise_if (micros rule.start_time == micros rule.end_time) value_error
  ok rule

unfoldable pub minute_of_day : Time → ℕ
minute_of_day t = t.hour * 60 + t.minute

abbrev pub Segment : Type 0
Segment = ℕ × ℕ

-- A rule as intervals of minutes of the week that do not wrap.
unfoldable pub rule_segments : WeeklyRule → List Segment
unfolding minute_of_day
rule_segments rule =
    let week_minutes : ℕ = 7 * 24 * 60 in
    let start = (value rule.day_of_week - 1) * 24 * 60 + minute_of_day rule.start_time in
    let same_day = (value rule.day_of_week - 1) * 24 * 60 + minute_of_day rule.end_time in
    let stop = if leb same_day start then same_day + 24 * 60 else same_day in
    if leb stop week_minutes
    then (start, stop) ∷ []
    else (start, week_minutes) ∷ (0, stop - week_minutes) ∷ []

unfoldable pub rule_matches : WeeklyRule → DayOfWeek → Time → Result Bool
unfolding day_of_week
rule_matches rule local_day local_time =
    if ltb (micros rule.start_time) (micros rule.end_time)
    then ok (
        value local_day == value rule.day_of_week
        && (leb (micros rule.start_time) (micros local_time)
            && ltb (micros local_time) (micros rule.end_time)))
    else do
      following_day ← day_of_week (value rule.day_of_week % 7 + 1)
      ok (
          (value local_day == value rule.day_of_week
            && leb (micros rule.start_time) (micros local_time))
          || (value local_day == value following_day
              && ltb (micros local_time) (micros rule.end_time)))

-- A rule that its constructor accepts, over times that Python can hold.
pub record IsRule (rule : WeeklyRule) : Type 0 where
  pub starts : IsTime rule.start_time
  pub ends : IsTime rule.end_time
  pub accepted : rule_post_init rule ≡ ok rule
