-- ===== src/Schedule/Stored/RoundTrip.antt =====
-- A schedule that was built is read back from its serialized form.
use homepass.Prelude.{
  ◌<◌, ◌^◌, ◌≡◌, refl, Bool, false, Option, none, some, List, [], ◌∷◌, All, String, arith,
  string_eq,
}
use homepass.Prelude.Result.{ok}
use homepass.Prelude.Sorting.{sorted_idem, All-sorted}
use homepass.Prelude.Text.{strip_idem}
use homepass.Prelude.Instant.{Datetime, instant, normalize_datetime, normalize_optional}
use homepass.Models.Json.{Fields, get_field, Codec, parse_iso-print_iso}
use homepass.Schedule.Rule.{
  DayOfWeek, monday, value, day_of_week, WeeklyRule, rule_post_init, IsRule,
}
use homepass.Schedule.Canonical.{rule_lt_asym}
use homepass.Schedule.Policy.{Schedule, rule_lt, schedule_post_init}
use homepass.Schedule.Canonical.{IsBound, unbounded, bounded, steps, normalize_optional-IsBound}
use homepass.Schedule.Stored.{
  TimeCodec, objects, rule_to_dict, rule_from_dict, rules_to_items, rules_from_dicts,
  print_optional, parse_optional_datetime, schedule_to_dict, schedule_from_dict,
}

-- A bound that the constructor returns, it returns again.
normalize_IsBound : (b : Option Datetime) → IsBound b → normalize_optional b ≡ ok b
unfolding normalize_optional
normalize_IsBound none unbounded = refl
normalize_IsBound (some d) (bounded n) = refl

module _ (zone_exists : String → Bool) where
  -- Building a schedule again from a schedule that was built changes nothing.
  pub schedule_post_init_idem :
      (raw s : Schedule)
      → schedule_post_init zone_exists raw ≡ ok s
      → schedule_post_init zone_exists s ≡ ok s
  unfolding schedule_post_init normalize_datetime
  schedule_post_init_idem raw s h =
      let st = steps zone_exists raw s h in
      ground (
        arith,
        st,
        strip_idem raw.name,
        sorted_idem rule_lt rule_lt_asym raw.weekly_rules,
        normalize_IsBound s.valid_from
            (normalize_optional-IsBound raw.valid_from s.valid_from st.from),
        normalize_IsBound s.valid_until
            (normalize_optional-IsBound raw.valid_until s.valid_until st.until),
      )

day_of_week-value_self : (d : DayOfWeek) → day_of_week (value d) ≡ ok d
unfolding day_of_week
day_of_week-value_self monday = refl
day_of_week-value_self _ = refl

-- What the constructor of a rule tests of its times.
record IsMinute (rule : WeeklyRule) : Type 0 where
  start_second : rule.start_time.second ≡ 0
  start_microsecond : rule.start_time.microsecond ≡ 0
  start_naive : rule.start_time.has_tzinfo ≡ false
  end_second : rule.end_time.second ≡ 0
  end_microsecond : rule.end_time.microsecond ≡ 0
  end_naive : rule.end_time.has_tzinfo ≡ false

IsRule-IsMinute : (rule : WeeklyRule) → IsRule rule → IsMinute rule
unfolding rule_post_init
IsRule-IsMinute rule h = ground arith

module _ (codec : Codec) (times : TimeCodec) where
  rule_round_trip :
      (rule : WeeklyRule)
      → IsRule rule
      → rule_from_dict codec times (rule_to_dict codec times rule) ≡ ok rule
  unfolding rule_from_dict rule_to_dict get_field
  rule_round_trip rule h =
      let m = IsRule-IsMinute rule h in
      rw
        (
          times.round rule.start_time h.starts m.start_second m.start_microsecond m.start_naive,
          times.round rule.end_time h.ends m.end_second m.end_microsecond m.end_naive,
          day_of_week-value_self rule.day_of_week,
        )
        h.accepted

  rules_round_trip :
      (rules : List WeeklyRule)
      → All IsRule rules
      → (fields : List Fields) × (objects (rules_to_items codec times rules) ≡ ok fields)
        × (rules_from_dicts codec times fields ≡ ok rules)
  unfolding objects rules_to_items rules_from_dicts
  rules_round_trip [] h = ([], refl, refl)
  rules_round_trip (rule ∷ rules) h =
      let (fields, made, read) = rules_round_trip rules h.1 in
      (rule_to_dict codec times rule ∷ fields, rw made, rw (rule_round_trip rule h.0, read))

  abbrev pub Fits : Option Datetime → Type 0
  Fits none = Unit
  Fits (some d) = instant d < codec.last_instant

  optional_round_trip :
      (b : Option Datetime)
      → IsBound b
      → Fits b
      → parse_optional_datetime codec times (print_optional codec times b) ≡ ok b
  unfolding parse_optional_datetime print_optional
  optional_round_trip none unbounded f = refl
  optional_round_trip (some d) (bounded n) f = rw (codec.iso_round n f)

  -- The identifier and times of a schedule are in the ranges of `UUID` and `datetime`.
  pub record InRange (s : Schedule) : Type 0 where
    pub id_fits : s.schedule_id < 2 ^ 128
    pub from_fits : Fits s.valid_from
    pub until_fits : Fits s.valid_until
    pub created_fits : instant s.created_at < codec.last_instant
    pub updated_fits : instant s.updated_at < codec.last_instant

  -- A schedule that was built from rules that their constructor accepts, with its identifier and
  -- times in range, is read back from its serialized form.
  pub schedule_round_trip :
      (zone_exists : String → Bool) (raw s : Schedule)
      → schedule_post_init zone_exists raw ≡ ok s
      → All IsRule raw.weekly_rules
      → InRange s
      → schedule_from_dict codec times zone_exists (schedule_to_dict codec times s) ≡ ok s
  unfolding schedule_from_dict schedule_to_dict get_field
  schedule_round_trip zone_exists raw s h rules r =
      let st = steps zone_exists raw s h in
      let same : All IsRule s.weekly_rules =
        rw st.rules (All-sorted rule_lt IsRule raw.weekly_rules rules) in
      let (fields, made, read) = rules_round_trip s.weekly_rules same in
      rw
        (
          codec.uuid_round s.schedule_id r.id_fits,
          made,
          read,
          optional_round_trip s.valid_from
              (normalize_optional-IsBound raw.valid_from s.valid_from st.from) r.from_fits,
          optional_round_trip s.valid_until
              (normalize_optional-IsBound raw.valid_until s.valid_until st.until) r.until_fits,
          parse_iso-print_iso codec s.created_at st.created r.created_fits,
          parse_iso-print_iso codec s.updated_at st.updated r.updated_fits,
        )
        (schedule_post_init_idem zone_exists raw s h)
