-- ===== src/Schedule/Overlap.antt =====
-- `_validate_rules` of models/schedule.py, and what it promises: no local instant is in two rules.
use homepass.Prelude.{
  ℕ, ◌+◌, ◌*◌, ◌≤◌, ◌<◌, ◌≡◌, refl, Bool, true, false, not, ◌&&◌, ◌||◌, List, [], ◌∷◌, ◌++◌, ltb,
  length, any, All, ◌==◌, nat_eq, arith, if◌then◌else◌,
}
use homepass.Prelude.Result.{Result, ok, value_error, raise_if, ◌>>◌}
use homepass.Prelude.Sorting.{sorted, total, total-append, total-sorted, All-sorted}
use homepass.Schedule.Rule.{
  DayOfWeek, value, Time, IsTime, micros, WeeklyRule, Segment, rule_segments, rule_matches, IsRule,
}
use homepass.Schedule.Segments.{
  week_point, covers, value_bounds, rule_matches-segments, IsRule-Minutes,
}

-- The equality of the frozen dataclass.
unfoldable pub same_rule : WeeklyRule → WeeklyRule → Bool
same_rule a b =
    value a.day_of_week == value b.day_of_week
    && (micros a.start_time == micros b.start_time && micros a.end_time == micros b.end_time)

-- `set(rules)`, as the list of its elements.
unfoldable pub set_of : List WeeklyRule → List WeeklyRule
unfolding same_rule
set_of [] = []
set_of (rule ∷ rules) =
    let rest = set_of rules in if any (same_rule rule) rest then rest else rule ∷ rest

-- The order of pairs.
unfoldable pub segment_lt : Segment → Segment → Bool
segment_lt (a, b) (c, d) = ltb a c || (a == c && ltb b d)

unfoldable pub all_segments : List WeeklyRule → List Segment
all_segments [] = []
all_segments (rule ∷ rules) = rule_segments rule ++ all_segments rules

-- `any(current[0] < previous[1] for previous, current in zip(segments, segments[1:]))`
unfoldable pub neighbours_overlap : List Segment → Bool
neighbours_overlap [] = false
neighbours_overlap (previous ∷ []) = false
neighbours_overlap (previous ∷ current ∷ rest) =
    ltb current.0 previous.1 || neighbours_overlap (current ∷ rest)

unfoldable pub validate_rules : List WeeklyRule → Result (Unit {0})
unfolding set_of segment_lt all_segments neighbours_overlap
validate_rules rules = do
  raise_if (not (length (set_of rules) == length rules)) value_error
  raise_if (neighbours_overlap (sorted segment_lt (all_segments rules))) value_error

abbrev hit : ℕ → Segment → ℕ
hit point segment = if covers point segment then 1 else 0

abbrev IsForward : Segment → Type 0
IsForward segment = segment.0 ≤ segment.1

-- In front of a chain of segments that do not overlap, nothing is covered.
none_before :
    (point : ℕ) (x : Segment) (xs : List Segment)
    → All IsForward (x ∷ xs)
    → neighbours_overlap (x ∷ xs) ≡ false
    → point < x.0 * 60000000
    → total (hit point) (x ∷ xs) ≡ 0
unfolding neighbours_overlap
none_before point x [] fw apart lt = ground arith
none_before point x (y ∷ ys) fw apart lt = ground (arith, none_before point y ys fw.1)

covered_once :
    (point : ℕ) (xs : List Segment)
    → All IsForward xs
    → neighbours_overlap xs ≡ false
    → total (hit point) xs ≤ 1
unfolding neighbours_overlap
covered_once point [] fw apart = omega arith
covered_once point (x ∷ []) fw apart = ground arith
covered_once point (x ∷ y ∷ ys) fw apart =
    ground (arith, covered_once point (y ∷ ys) fw.1, none_before point y ys fw.1)

-- A rule's segments run forward, and stay in the week.
segments-IsForward : (rule : WeeklyRule) → IsRule rule → All IsForward (rule_segments rule)
unfolding rule_segments
segments-IsForward rule h = ground (arith, IsRule-Minutes rule h, value_bounds rule.day_of_week)

All-++ : (xs ys : List Segment) → All IsForward xs → All IsForward ys → All IsForward (xs ++ ys)
All-++ [] ys hx hy = hy
All-++ (x ∷ xs) ys hx hy = (hx.0, All-++ xs ys hx.1 hy)

all_segments-IsForward :
    (rules : List WeeklyRule) → All IsRule rules → All IsForward (all_segments rules)
unfolding all_segments
all_segments-IsForward [] h = tt
all_segments-IsForward (rule ∷ rules) h =
    All-++ _ _ (segments-IsForward rule h.0) (all_segments-IsForward rules h.1)

any-le-total :
    (point : ℕ) (xs : List Segment)
    → (if any (covers point) xs then 1 else 0) ≤ total (hit point) xs
any-le-total point [] = omega arith
any-le-total point (x ∷ xs) = ground (arith, any-le-total point xs)

-- The number of rules that match a local day and time.
abbrev pub is_match : Result Bool → ℕ
is_match (ok true) = 1
is_match _ = 0

abbrev pub matching : List WeeklyRule → DayOfWeek → Time → ℕ
matching [] day t = 0
matching (rule ∷ rules) day t = is_match (rule_matches rule day t) + matching rules day t

is_match-if : (b : Bool) → is_match (ok b) ≡ (if b then 1 else 0)
is_match-if true = refl
is_match-if false = refl

matching-le-total :
    (rules : List WeeklyRule) (day : DayOfWeek) (t : Time)
    → All IsRule rules
    → IsTime t
    → matching rules day t ≤ total (hit (week_point day t)) (all_segments rules)
unfolding all_segments
matching-le-total [] day t h ht = omega arith
matching-le-total (rule ∷ rules) day t h ht =
    rw (rule_matches-segments rule day t h.0 ht, is_match-if, total-append)
      (omega (
        arith,
        any-le-total (week_point day t) (rule_segments rule),
        matching-le-total rules day t h.1 ht,
      ))

-- Of rules that the validation accepts, at most one matches a local day and time.
pub validated_rules-disjoint :
    (rules : List WeeklyRule) (day : DayOfWeek) (t : Time)
    → All IsRule rules
    → IsTime t
    → validate_rules rules ≡ ok tt
    → matching rules day t ≤ 1
unfolding validate_rules
validated_rules-disjoint rules day t h ht valid = omega (
  arith,
  matching-le-total rules day t h ht,
  total-sorted segment_lt (hit (week_point day t)) (all_segments rules),
  covered_once (week_point day t) (sorted segment_lt (all_segments rules))
      (All-sorted segment_lt IsForward (all_segments rules) (all_segments-IsForward rules h))
      (ground arith),
)
