-- ===== src/Schedule/Evaluation.antt =====
-- `evaluate_schedule` of models/schedule_evaluation.py. `Zones` is `zoneinfo`: which time zones there
-- are, and the local weekday and time of an instant in one of them.
use homepass.Prelude.{
  ℕ, ◌≤◌, ◌≡◌, refl, Bool, true, false, not, Option, none, some, List, [], ◌∷◌, ltb, any, All,
  is_nil, leb, zero, suc, ◌-◌, ◌+◌, ◌*◌, ◌||◌, arith, String, if◌then◌else◌,
}
use homepass.Prelude.Result.{Result, ok, key_error, raise_if, ◌>>=◌, ◌>>◌}
use homepass.Prelude.Instant.{Datetime, aware, instant, datetime_lt, normalize_datetime}
use homepass.Schedule.Rule.{
  DayOfWeek, monday, tuesday, wednesday, thursday, friday, saturday, sunday, value, day_of_week,
  Time, IsTime, micros, WeeklyRule, rule_segments, rule_matches, IsRule,
}
use homepass.Schedule.Segments.{week_point, covers, rule_matches-segments}
use homepass.Schedule.Policy.{Schedule}
use homepass.Schedule.Canonical.{IsBound, bounded}

pub data ScheduleEvaluation : Type 0 where
  active disabled not_yet_valid expired outside_weekly_rule : ScheduleEvaluation

-- A time zone database: `isoweekday` is from 1 to 7, and `time` is within a day.
pub record Zones : Type 0 where
  pub zone_exists : String → Bool
  pub isoweekday : String → ℕ → ℕ
  pub local_time : String → ℕ → Time
  pub isoweekday_bounds :
      (zone : String) (now : ℕ) → (1 ≤ isoweekday zone now) × (isoweekday zone now ≤ 7)
  pub local_time-IsTime : (zone : String) (now : ℕ) → IsTime (local_time zone now)

-- `bound is not None and now < bound`
unfoldable pub before_bound : ℕ → Option Datetime → Result Bool
before_bound now none = ok false
before_bound now (some bound) = datetime_lt (aware now) bound

-- `bound is not None and now >= bound`
unfoldable pub reached_bound : ℕ → Option Datetime → Result Bool
reached_bound now none = ok false
reached_bound now (some bound) = do early ← datetime_lt (aware now) bound; ok (not early)

-- `any(_rule_matches(rule, local_day, local_time) for rule in rules)`
unfoldable pub any_matches : List WeeklyRule → DayOfWeek → Time → Result Bool
any_matches [] local_day local_time = ok false
any_matches (rule ∷ rules) local_day local_time = do
  matches ← rule_matches rule local_day local_time
  if matches then ok true else any_matches rules local_day local_time

module _ (zones : Zones) where
  -- The part of the evaluation behind the test for an empty tuple of rules.
  unfoldable pub evaluate_rules : Schedule → ℕ → Result ScheduleEvaluation
  evaluate_rules s now = do
    raise_if (not (zones.zone_exists s.time_zone)) key_error
    local_day ← day_of_week (zones.isoweekday s.time_zone now)
    matches ← any_matches s.weekly_rules local_day (zones.local_time s.time_zone now)
    ok (if matches then active else outside_weekly_rule)

  -- The part behind the tests of the two bounds.
  unfoldable pub evaluate_inside : Schedule → ℕ → Result ScheduleEvaluation
  unfolding evaluate_rules
  evaluate_inside s now = elim s.weekly_rules [ [] ↦ ok active | _ ∷ _ ↦ evaluate_rules s now ]

  unfoldable pub evaluate_enabled : Schedule → ℕ → Result ScheduleEvaluation
  unfolding before_bound reached_bound evaluate_inside
  evaluate_enabled s now = do
    early ← before_bound now s.valid_from
    if early then ok not_yet_valid else do
      late ← reached_bound now s.valid_until
      if late then ok expired else evaluate_inside s now

  unfoldable pub evaluate_schedule : Schedule → Datetime → Result ScheduleEvaluation
  unfolding evaluate_enabled
  evaluate_schedule s at = do
    now ← normalize_datetime at
    if not s.enabled then ok disabled else evaluate_enabled s now

  -- The microsecond of the local week, and whether a rule covers it.
  abbrev pub local_point : Schedule → ℕ → ℕ
  local_point s now =
      (zones.isoweekday s.time_zone now - 1) * 86400000000
      + micros (zones.local_time s.time_zone now)

  abbrev pub in_rules : Schedule → ℕ → Bool
  in_rules s now =
      any (λ rule. any (covers (local_point s now)) (rule_segments rule)) s.weekly_rules

abbrev pub starts_after : Option Datetime → ℕ → Bool
starts_after none now = false
starts_after (some bound) now = ltb now (instant bound)

abbrev pub ends_by : Option Datetime → ℕ → Bool
ends_by none now = false
ends_by (some bound) now = leb (instant bound) now

before_bound-starts_after :
    (b : Option Datetime) (now : ℕ) → IsBound b → before_bound now b ≡ ok (starts_after b now)
unfolding before_bound
before_bound-starts_after none now h = refl
before_bound-starts_after (some d) now (bounded n) = refl

reached_bound-ends_by :
    (b : Option Datetime) (now : ℕ) → IsBound b → reached_bound now b ≡ ok (ends_by b now)
unfolding reached_bound
reached_bound-ends_by none now h = refl
reached_bound-ends_by (some d) now (bounded n) = ground arith

any_matches-segments :
    (rules : List WeeklyRule) (day : DayOfWeek) (t : Time)
    → All IsRule rules
    → IsTime t
    → any_matches rules day t
      ≡ ok (any (λ rule. any (covers (week_point day t)) (rule_segments rule)) rules)
unfolding any_matches
any_matches-segments [] day t h ht = refl
any_matches-segments (rule ∷ rules) day t h ht =
    rw (rule_matches-segments rule day t h.0 ht, any_matches-segments rules day t h.1 ht)
      (ground arith)

day_of_week-value :
    (n : ℕ) → 1 ≤ n → n ≤ 7 → (d : DayOfWeek) × (day_of_week n ≡ ok d) × (value d ≡ n)
unfolding day_of_week
day_of_week-value zero p q = absurd (omega arith)
day_of_week-value (suc zero) p q = (monday, refl, refl)
day_of_week-value (suc (suc zero)) p q = (tuesday, refl, refl)
day_of_week-value (suc (suc (suc zero))) p q = (wednesday, refl, refl)
day_of_week-value (suc (suc (suc (suc zero)))) p q = (thursday, refl, refl)
day_of_week-value (suc (suc (suc (suc (suc zero))))) p q = (friday, refl, refl)
day_of_week-value (suc (suc (suc (suc (suc (suc zero)))))) p q = (saturday, refl, refl)
day_of_week-value (suc (suc (suc (suc (suc (suc (suc zero))))))) p q = (sunday, refl, refl)
day_of_week-value (suc (suc (suc (suc (suc (suc (suc (suc n)))))))) p q = absurd (omega arith)

module _ (zones : Zones) where
  -- A schedule with aware bounds, with rules that their constructor accepts, and in a zone that exists.
  pub record IsEvaluable (s : Schedule) : Type 0 where
    pub from_aware : IsBound s.valid_from
    pub until_aware : IsBound s.valid_until
    pub rules : All IsRule s.weekly_rules
    pub zone : zones.zone_exists s.time_zone ≡ true

  evaluate_rules-in_rules :
      (s : Schedule) (now : ℕ)
      → IsEvaluable s
      → evaluate_rules zones s now
        ≡ ok (if in_rules zones s now then active else outside_weekly_rule)
  unfolding evaluate_rules
  evaluate_rules-in_rules s now h =
      let bounds = zones.isoweekday_bounds s.time_zone now in
      let (day, found, same) =
        day_of_week-value (zones.isoweekday s.time_zone now) bounds.0 bounds.1 in
      rw
        (
          h.zone,
          found,
          any_matches-segments s.weekly_rules day (zones.local_time s.time_zone now) h.rules
              (zones.local_time-IsTime s.time_zone now),
          same,
        )
        refl

  -- The verdict on an instant, by the order of the tests.
  unfoldable pub verdict : Schedule → ℕ → ScheduleEvaluation
  verdict s now =
      if not s.enabled
      then disabled
      else if starts_after s.valid_from now
      then not_yet_valid
      else if ends_by s.valid_until now
      then expired
      else if is_nil s.weekly_rules || in_rules zones s now
      then active
      else outside_weekly_rule

  -- The evaluation of a schedule with aware bounds, with rules that their constructor accepts and a zone
  -- that exists, does not raise at an aware instant: it is `disabled` if the schedule is,
  -- `not_yet_valid` before its first instant, `expired` from its last one on, and else `active` exactly
  -- if there are no rules or the local point of the week lies in a segment of one.
  pub evaluate_schedule-verdict :
      (s : Schedule) (now : ℕ)
      → IsEvaluable s
      → evaluate_schedule zones s (aware now) ≡ ok (verdict s now)
  unfolding evaluate_schedule normalize_datetime verdict
  evaluate_schedule-verdict s now h =
      rw
        (
          before_bound-starts_after s.valid_from now h.from_aware,
          reached_bound-ends_by s.valid_until now h.until_aware,
        )
        (ground (arith, evaluate_rules-in_rules s now h))
