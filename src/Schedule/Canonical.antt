-- ===== src/Schedule/Canonical.antt =====
-- What the constructor of `Schedule` returns.
use homepass.Prelude.{
  ℕ, ◌<◌, ◌≤◌, ◌≡◌, ◌⊎◌, inl, inr, refl, Bool, Bool-cases, true, false, Option, none, some, List,
  [], ◌∷◌, All, arith, ltb, String,
}
use homepass.Prelude.Result.{ok}
use homepass.Prelude.Sorting.{sorted, All-sorted, total, total-sorted, IsSorted, sorted-IsSorted}
use homepass.Prelude.Text.{strip, is_empty, strip_idem}
use homepass.Prelude.Instant.{
  Datetime, naive, aware, instant, normalize_datetime, normalize_optional,
}
use homepass.Schedule.Rule.{DayOfWeek, value, micros, WeeklyRule, Time, IsTime, IsRule}
use homepass.Schedule.Overlap.{validate_rules, matching, validated_rules-disjoint}
use homepass.Schedule.Policy.{Schedule, rule_lt, window_closed, schedule_post_init}

-- A bound that is absent, or an aware instant.
pub data IsBound : Option Datetime → Type 0 where
  unbounded : IsBound none
  bounded : (n : ℕ) → IsBound (some (aware n))

-- A window that ends after it begins, or has no bound on one side.
pub data IsWindow : Option Datetime → Option Datetime → Type 0 where
  open_start : (until : Option Datetime) → IsWindow none until
  open_end : (from : Option Datetime) → IsWindow from none
  between : (from until : ℕ) → from < until → IsWindow (some (aware from)) (some (aware until))

-- By day, then by start, then by end.
abbrev pub InOrder : WeeklyRule → WeeklyRule → Type 0
InOrder a b =
    (value a.day_of_week < value b.day_of_week)
    ⊎ ((value a.day_of_week ≡ value b.day_of_week)
        × ((micros a.start_time < micros b.start_time)
            ⊎ ((micros a.start_time ≡ micros b.start_time)
                × (micros a.end_time ≤ micros b.end_time))))

abbrev pub AllInOrder : List WeeklyRule → Type 0
AllInOrder [] = Unit
AllInOrder (a ∷ []) = Unit
AllInOrder (a ∷ b ∷ rules) = InOrder a b × AllInOrder (b ∷ rules)

pub record IsCanonical (s : Schedule) : Type 0 where
  pub name_stripped : strip s.name ≡ s.name
  pub name_present : is_empty s.name ≡ false
  pub rules_disjoint : (day : DayOfWeek) (t : Time) → IsTime t → matching s.weekly_rules day t ≤ 1
  pub rules_ordered : AllInOrder s.weekly_rules
  pub from_aware : IsBound s.valid_from
  pub until_aware : IsBound s.valid_until
  pub window : IsWindow s.valid_from s.valid_until
  pub created_aware : s.created_at ≡ aware (instant s.created_at)
  pub updated_aware : s.updated_at ≡ aware (instant s.updated_at)
  pub times_ordered : instant s.created_at ≤ instant s.updated_at

pub normalize_optional-IsBound :
    (o : Option Datetime) (b : Option Datetime) → normalize_optional o ≡ ok b → IsBound b
unfolding normalize_optional
normalize_optional-IsBound none none h = unbounded
normalize_optional-IsBound none (some d) h = cc
normalize_optional-IsBound (some (naive n)) b h = cc
normalize_optional-IsBound (some (aware n)) none h = cc
normalize_optional-IsBound (some (aware n)) (some (naive m)) h = cc
normalize_optional-IsBound (some (aware n)) (some (aware m)) h = bounded m

window_closed-IsWindow :
    (from until : Option Datetime)
    → IsBound from
    → IsBound until
    → window_closed from until ≡ false
    → IsWindow from until
unfolding window_closed
window_closed-IsWindow none until unbounded b h = open_start until
window_closed-IsWindow (some d) none a unbounded h = open_end (some d)
window_closed-IsWindow (some d) (some e) (bounded n) (bounded m) h = between n m (ground arith)

pub rule_lt_asym : (a b : WeeklyRule) → rule_lt a b ≡ true → rule_lt b a ≡ false
unfolding rule_lt
rule_lt_asym a b h = ground arith

rule_lt-InOrder : (a b : WeeklyRule) → rule_lt b a ≡ false → InOrder a b
unfolding rule_lt
rule_lt-InOrder a b h = elim (Bool-cases (ltb (value a.day_of_week) (value b.day_of_week))) [
  | inl earlier ↦ inl (ground (arith, earlier))
  | inr day ↦ elim (Bool-cases (ltb (micros a.start_time) (micros b.start_time))) [
    | inl before ↦ inr (ground (arith, day, h), inl (ground (arith, before)))
    | inr start ↦
        inr (
          ground (arith, day, h),
          inr (ground (arith, day, start, h), ground (arith, day, start, h)),
        )
  ]
]

IsSorted-AllInOrder : (rules : List WeeklyRule) → IsSorted rule_lt rules → AllInOrder rules
IsSorted-AllInOrder [] h = tt
IsSorted-AllInOrder (a ∷ []) h = tt
IsSorted-AllInOrder (a ∷ b ∷ rules) h =
    (rule_lt-InOrder a b h.0, IsSorted-AllInOrder (b ∷ rules) h.1)

-- What a successful construction has computed and tested.
pub record Steps (raw s : Schedule) : Type 0 where
  pub name : s.name ≡ strip raw.name
  pub present : is_empty (strip raw.name) ≡ false
  pub rules : s.weekly_rules ≡ sorted rule_lt raw.weekly_rules
  pub apart : validate_rules (sorted rule_lt raw.weekly_rules) ≡ ok tt
  pub from : normalize_optional raw.valid_from ≡ ok s.valid_from
  pub until : normalize_optional raw.valid_until ≡ ok s.valid_until
  pub opened : window_closed s.valid_from s.valid_until ≡ false
  pub created : s.created_at ≡ aware (instant raw.created_at)
  pub updated : s.updated_at ≡ aware (instant raw.updated_at)
  pub ordered : instant raw.created_at ≤ instant raw.updated_at

module _ (zone_exists : String → Bool) where
  pub steps : (raw s : Schedule) → schedule_post_init zone_exists raw ≡ ok s → Steps raw s
  unfolding schedule_post_init normalize_datetime
  steps raw s h = ground arith

  -- If every rule that is given is one that its own constructor accepts, then at most one rule of
  -- the schedule that is built matches a local day and time.
  pub schedule_rules-disjoint :
      (raw s : Schedule) (day : DayOfWeek) (t : Time)
      → schedule_post_init zone_exists raw ≡ ok s
      → All IsRule raw.weekly_rules
      → IsTime t
      → matching s.weekly_rules day t ≤ 1
  schedule_rules-disjoint raw s day t h rules ht =
      let st = steps raw s h in
      rw st.rules (
        validated_rules-disjoint (sorted rule_lt raw.weekly_rules) day t
          (All-sorted rule_lt IsRule raw.weekly_rules rules) ht st.apart)

  -- If every rule that is given is one that its own constructor accepts, then the schedule that is built
  -- has a stripped name that is not empty; the rules that were given, each as often, in the order of their
  -- days, starts and ends, of which at most one matches a local day and time; bounds that are aware, the
  -- last one after the first if there are both; and aware times, the update not before the creation.
  pub schedule_post_init-IsCanonical :
      (raw s : Schedule)
      → schedule_post_init zone_exists raw ≡ ok s
      → All IsRule raw.weekly_rules
      → IsCanonical s
        × ((weight : WeeklyRule → ℕ) → total weight s.weekly_rules ≡ total weight raw.weekly_rules)
  schedule_post_init-IsCanonical raw s h rules =
      let st = steps raw s h in
      (
        record {
          name_stripped = rw st.name (strip_idem raw.name);
          name_present = rw st.name st.present;
          rules_disjoint = λ day t ht. schedule_rules-disjoint raw s day t h rules ht;
          rules_ordered = rw st.rules (
              IsSorted-AllInOrder (sorted rule_lt raw.weekly_rules)
                (sorted-IsSorted rule_lt rule_lt_asym raw.weekly_rules));
          from_aware = normalize_optional-IsBound raw.valid_from s.valid_from st.from;
          until_aware = normalize_optional-IsBound raw.valid_until s.valid_until st.until;
          window =
              window_closed-IsWindow s.valid_from s.valid_until
                (normalize_optional-IsBound raw.valid_from s.valid_from st.from)
                (normalize_optional-IsBound raw.valid_until s.valid_until st.until) st.opened;
          created_aware = rw st.created refl;
          updated_aware = rw st.updated refl;
          times_ordered = rw (st.created, st.updated) st.ordered;
        },
        λ weight. rw st.rules (total-sorted rule_lt weight raw.weekly_rules),
      )
