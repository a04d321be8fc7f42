-- ===== src/Schedule/Segments.antt =====
-- The two readings of a weekly rule agree: `_rule_matches`, by which a schedule is evaluated, and
-- `_rule_segments`, by which its rules are checked for overlap.
use homepass.Prelude.{
  ℕ, ◌+◌, ◌-◌, ◌*◌, ◌%◌, ◌≤◌, ◌<◌, ◌≡◌, ◌≢◌, refl, ap, ◌∙◌, Bool, ◌&&◌, ◌||◌, List, [], ◌∷◌, ltb,
  leb, any, nat_beq, nat_eq, arith, if◌then◌else◌,
}
use homepass.Prelude.Result.{ok}
use native.Mathlib.Decide.{dec_lt}
use homepass.Schedule.Rule.{
  DayOfWeek, monday, tuesday, wednesday, thursday, friday, saturday, sunday, value, day_of_week,
  Time, IsTime, micros, WeeklyRule, rule_post_init, minute_of_day, Segment, rule_segments,
  rule_matches, IsRule,
}

if-ok : (b x y : Bool) → (if b then ok x else ok y) ≡ ok (if b then x else y)
if-ok b x y = ground arith

-- The microsecond of the week at which a local day and time stand.
abbrev pub week_point : DayOfWeek → Time → ℕ
week_point day t = (value day - 1) * 86400000000 + micros t

-- A point lies in a segment of minutes, its end excluded.
abbrev pub covers : ℕ → Segment → Bool
covers point (start, stop) = leb (start * 60000000) point && ltb point (stop * 60000000)

pub value_bounds : (d : DayOfWeek) → (1 ≤ value d) × (value d ≤ 7)
value_bounds monday = omega arith
value_bounds tuesday = omega arith
value_bounds wednesday = omega arith
value_bounds thursday = omega arith
value_bounds friday = omega arith
value_bounds saturday = omega arith
value_bounds sunday = omega arith

-- The day that follows is always found.
following :
    (d : DayOfWeek)
    → (f : DayOfWeek) × (day_of_week (value d % 7 + 1) ≡ ok f) × (value f ≡ value d % 7 + 1)
unfolding day_of_week
following monday = (tuesday, refl, refl)
following tuesday = (wednesday, refl, refl)
following wednesday = (thursday, refl, refl)
following thursday = (friday, refl, refl)
following friday = (saturday, refl, refl)
following saturday = (sunday, refl, refl)
following sunday = (monday, refl, refl)

-- What the constructor of a rule makes sure of.
pub record Minutes (rule : WeeklyRule) : Type 0 where
  pub start_exact : micros rule.start_time ≡ minute_of_day rule.start_time * 60000000
  pub end_exact : micros rule.end_time ≡ minute_of_day rule.end_time * 60000000
  pub start_lt : minute_of_day rule.start_time < 1440
  pub end_lt : minute_of_day rule.end_time < 1440
  pub differ : minute_of_day rule.start_time ≢ minute_of_day rule.end_time

pub IsRule-Minutes : (rule : WeeklyRule) → IsRule rule → Minutes rule
unfolding rule_post_init minute_of_day micros
IsRule-Minutes rule h = ground arith

micros-lt : (t : Time) → IsTime t → micros t < 86400000000
unfolding micros
micros-lt t h = omega arith

-- The same, with the days and times as numbers: `v` the day of the rule, `f` the next one, `w` the
-- local day, `p` the local time.
abbrev matches_at : ℕ → ℕ → ℕ → ℕ → ℕ → ℕ → Bool
matches_at v w f s e p =
    if ltb s e
    then nat_beq w v && (leb s p && ltb p e)
    else (nat_beq w v && leb s p) || (nat_beq w f && ltb p e)

abbrev segments_at : ℕ → ℕ → ℕ → List Segment
segments_at v s e =
    let start = (v - 1) * 24 * 60 + s in
    let same_day = (v - 1) * 24 * 60 + e in
    let stop = if leb same_day start then same_day + 24 * 60 else same_day in
    if leb stop 10080 then (start, stop) ∷ [] else (start, 10080) ∷ (0, stop - 10080) ∷ []

same_day_segments :
    (v w f s e p : ℕ)
    → 1 ≤ v
    → v ≤ 7
    → 1 ≤ w
    → w ≤ 7
    → s < 1440
    → e < 1440
    → p < 86400000000
    → s < e
    → matches_at v w f (s * 60000000) (e * 60000000) p
      ≡ any (covers ((w - 1) * 86400000000 + p)) (segments_at v s e)
same_day_segments v w f s e p v1 v7 w1 w7 hs he hp lt = ground arith

overnight_segments :
    (v w s e p : ℕ)
    → 1 ≤ v
    → v < 7
    → 1 ≤ w
    → w ≤ 7
    → s < 1440
    → e < 1440
    → p < 86400000000
    → e < s
    → matches_at v w (v + 1) (s * 60000000) (e * 60000000) p
      ≡ any (covers ((w - 1) * 86400000000 + p)) (segments_at v s e)
overnight_segments v w s e p v1 v7 w1 w7 hs he hp lt = ground arith

sunday_night_segments :
    (w s e p : ℕ)
    → 1 ≤ w
    → w ≤ 7
    → s < 1440
    → e < 1440
    → p < 86400000000
    → e < s
    → matches_at 7 w 1 (s * 60000000) (e * 60000000) p
      ≡ any (covers ((w - 1) * 86400000000 + p)) (segments_at 7 s e)
sunday_night_segments w s e p w1 w7 hs he hp lt = ground arith

matches_at-segments_at :
    (v w s e p : ℕ)
    → 1 ≤ v
    → v ≤ 7
    → 1 ≤ w
    → w ≤ 7
    → s < 1440
    → e < 1440
    → p < 86400000000
    → s ≢ e
    → matches_at v w (v % 7 + 1) (s * 60000000) (e * 60000000) p
      ≡ any (covers ((w - 1) * 86400000000 + p)) (segments_at v s e)
matches_at-segments_at v w s e p v1 v7 w1 w7 hs he hp ne = elim (dec_lt s e) [
  | yes lt ↦ same_day_segments v w (v % 7 + 1) s e p v1 v7 w1 w7 hs he hp lt
  | no ge ↦ elim (dec_lt v 7) [
    | yes early ↦
        rw (next early) (overnight_segments v w s e p v1 early w1 w7 hs he hp (omega arith))
    | no late ↦ rw (last late) (sunday_night_segments w s e p w1 w7 hs he hp (omega arith))
  ]
]
  where
    next : v < 7 → v % 7 + 1 ≡ v + 1
    next early = omega arith

    last : ¬ (v < 7) → v ≡ 7
    last late = omega arith

-- A rule that its constructor accepts matches a local day and time exactly if that point of the week
-- lies in one of its segments, and the match never raises.
pub rule_matches-segments :
    (rule : WeeklyRule) (day : DayOfWeek) (t : Time)
    → IsRule rule
    → IsTime t
    → rule_matches rule day t ≡ ok (any (covers (week_point day t)) (rule_segments rule))
unfolding rule_matches rule_segments
rule_matches-segments rule day t h ht =
    let (next, found, is_next) = following rule.day_of_week in
    let m = IsRule-Minutes rule h in
    rw (found, is_next, m.start_exact, m.end_exact)
      (if-ok _ _ _
        ∙ ap ok (
            matches_at-segments_at (value rule.day_of_week) (value day)
              (minute_of_day rule.start_time) (minute_of_day rule.end_time) (micros t)
              (value_bounds rule.day_of_week).0 (value_bounds rule.day_of_week).1
              (value_bounds day).0 (value_bounds day).1 m.start_lt m.end_lt (micros-lt t ht)
              m.differ))
