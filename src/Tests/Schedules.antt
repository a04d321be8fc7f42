-- ===== src/Tests/Schedules.antt =====
-- Schedules on concrete inputs.
use homepass.Prelude.{◌≤◌, ◌≡◌, refl, any, arith, Bool, ℕ}
use homepass.Prelude.Result.{ok}
use homepass.Prelude.Text.{strip}
use homepass.Prelude.Sorting.{sorted, total}
use homepass.Prelude.Instant.{aware, normalize_datetime, normalize_optional}
use homepass.Schedule.Rule.{
  saturday, WeeklyRule, IsRule, rule_post_init, rule_matches, rule_segments, micros,
}
use homepass.Schedule.Segments.{covers, week_point, rule_matches-segments}
use homepass.Schedule.Overlap.{matching, validate_rules}
use homepass.Schedule.Policy.{schedule_post_init}
use homepass.Schedule.Canonical.{
  IsCanonical, schedule_post_init-IsCanonical, schedule_rules-disjoint,
}
use homepass.Schedule.Evaluation.{
  active, IsEvaluable, evaluate_schedule, verdict, evaluate_schedule-verdict,
}
use homepass.Schedule.Stored.{schedule_to_dict, schedule_from_dict}
use homepass.Schedule.Stored.RoundTrip.{InRange, schedule_round_trip}
use homepass.Tests.Fixtures.{codec, times, zones, at_time, office, night, week, built_week}

pub office-IsRule : IsRule office
unfolding rule_post_init micros
office-IsRule = record { starts = omega arith; ends = omega arith; accepted = refl }

pub night-IsRule : IsRule night
unfolding rule_post_init micros
night-IsRule = record { starts = omega arith; ends = omega arith; accepted = refl }

pub week_built : schedule_post_init zones.zone_exists week ≡ ok built_week
unfolding schedule_post_init strip sorted validate_rules rule_segments normalize_optional
    normalize_datetime micros
week_built = refl

pub built_week_range : InRange codec times built_week
built_week_range = record {
  id_fits = omega arith;
  from_fits = omega arith;
  until_fits = tt;
  created_fits = omega arith;
  updated_fits = omega arith;
}

built_week-IsCanonical : IsCanonical built_week
built_week-IsCanonical =
    (schedule_post_init-IsCanonical zones.zone_exists week built_week week_built
      (night-IsRule, (office-IsRule, tt))).0

pub built_week-IsEvaluable : IsEvaluable zones built_week
built_week-IsEvaluable = record {
  from_aware = built_week-IsCanonical.from_aware;
  until_aware = built_week-IsCanonical.until_aware;
  rules = (office-IsRule, (night-IsRule, tt));
  zone = refl;
}

-- Saturday at 05:59 is in the night that begins on Friday.
rule_matches-segments_example :
    rule_matches night saturday (at_time 5 59)
    ≡ ok (any (covers (week_point saturday (at_time 5 59))) (rule_segments night))
rule_matches-segments_example =
    rule_matches-segments night saturday (at_time 5 59) night-IsRule (omega arith)

rule_matches_test : rule_matches night saturday (at_time 5 59) ≡ ok Bool.true
unfolding rule_matches micros
rule_matches_test = refl

schedule_rules-disjoint_example : matching built_week.weekly_rules saturday (at_time 5 59) ≤ 1
schedule_rules-disjoint_example =
    schedule_rules-disjoint zones.zone_exists week built_week saturday (at_time 5 59) week_built
      (night-IsRule, (office-IsRule, tt)) (omega arith)

schedule_post_init-IsCanonical_example :
    IsCanonical built_week
    × ((weight : WeeklyRule → ℕ)
        → total weight built_week.weekly_rules ≡ total weight week.weekly_rules)
schedule_post_init-IsCanonical_example =
    schedule_post_init-IsCanonical zones.zone_exists week built_week week_built
      (night-IsRule, (office-IsRule, tt))

-- Monday at 09:00.
evaluate_schedule-verdict_example :
    evaluate_schedule zones built_week (aware 32400000000)
    ≡ ok (verdict zones built_week 32400000000)
evaluate_schedule-verdict_example =
    evaluate_schedule-verdict zones built_week 32400000000 built_week-IsEvaluable

pub evaluate_schedule_test : evaluate_schedule zones built_week (aware 32400000000) ≡ ok active
unfolding evaluate_schedule rule_matches micros normalize_datetime
    homepass.Schedule.Evaluation.any_matches
evaluate_schedule_test = refl

schedule_round_trip_example :
    schedule_from_dict codec times zones.zone_exists (schedule_to_dict codec times built_week)
    ≡ ok built_week
schedule_round_trip_example =
    schedule_round_trip codec times zones.zone_exists week built_week week_built
      (night-IsRule, (office-IsRule, tt)) built_week_range
