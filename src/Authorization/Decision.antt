-- ===== src/Authorization/Decision.antt =====
-- models/authorization.py: the decision on one Person, grant, Door and schedule at an instant.
use homepass.Prelude.{
  ◌≡◌, ◌↔◌, Bool, true, false, not, ◌||◌, Option, none, some, ◌==◌, nat_eq, if◌then◌else◌, arith,
}
use homepass.Prelude.Result.{Result, ok, authorization_invariant, raise_if, ◌>>=◌, ◌>>◌}
use homepass.Prelude.Instant.{Datetime}
use homepass.Models.Person.{Person}
use homepass.Models.AccessGrant.{AccessGrant}
use homepass.Models.AccessPoint.{AccessPoint}
use homepass.Schedule.Policy.{Schedule}
use homepass.Schedule.Evaluation.{Zones, ScheduleEvaluation, active, evaluate_schedule}

pub data AuthorizationDecision : Type 0 where
  allowed person_disabled no_grant grant_disabled access_point_unmanaged : AuthorizationDecision
  access_point_disabled policy_conflict schedule_disabled : AuthorizationDecision
  schedule_not_yet_valid schedule_expired outside_weekly_rule : AuthorizationDecision

-- `decision.allowed`
abbrev pub is_allowed : AuthorizationDecision → Bool
is_allowed allowed = true
is_allowed _ = false

-- `_SCHEDULE_DECISIONS`
unfoldable pub schedule_decision : ScheduleEvaluation → AuthorizationDecision
schedule_decision ScheduleEvaluation.active = allowed
schedule_decision ScheduleEvaluation.disabled = schedule_disabled
schedule_decision ScheduleEvaluation.not_yet_valid = schedule_not_yet_valid
schedule_decision ScheduleEvaluation.expired = schedule_expired
schedule_decision ScheduleEvaluation.outside_weekly_rule = outside_weekly_rule

-- `_validate_invariants`
unfoldable pub validate_invariants :
    Person → Option AccessGrant → AccessPoint → Schedule → Result (Unit {0})
validate_invariants person none access_point schedule =
    raise_if (not (schedule.schedule_id == person.schedule_id)) authorization_invariant
validate_invariants person (some grant) access_point schedule = do
  raise_if (not (grant.person_id == person.person_id)) authorization_invariant
  raise_if (not (grant.access_point_id == access_point.id)) authorization_invariant
  raise_if
      (not
        (schedule.schedule_id == person.schedule_id || schedule.schedule_id == grant.schedule_id))
      authorization_invariant

module _ (zones : Zones) where
  -- The tests behind the one for a grant.
  unfoldable pub authorize_grant :
      AccessGrant → AccessPoint → Bool → Schedule → Datetime → Result AuthorizationDecision
  unfolding schedule_decision
  authorize_grant grant access_point managed schedule at =
      if not grant.enabled
      then ok grant_disabled
      else if not managed
      then ok access_point_unmanaged
      else if not access_point.enabled
      then ok access_point_disabled
      else if not (grant.schedule_id == schedule.schedule_id)
      then ok policy_conflict
      else (do evaluation ← evaluate_schedule zones schedule at; ok (schedule_decision evaluation))

  unfoldable pub authorize_access :
      Person
      → Option AccessGrant
      → AccessPoint
      → Bool
      → Schedule
      → Datetime
      → Result AuthorizationDecision
  unfolding validate_invariants authorize_grant
  authorize_access person access_grant access_point managed schedule at = do
    validate_invariants person access_grant access_point schedule
    if not person.enabled then ok person_disabled else elim access_grant [
      | none ↦ ok no_grant
      | some grant ↦ authorize_grant grant access_point managed schedule at
    ]

  -- All that an allowed passage rests on.
  pub record Entitled (person : Person) (grant : AccessGrant) (access_point : AccessPoint)
      (managed : Bool) (schedule : Schedule) (at : Datetime) : Type 0 where
    pub own_grant : grant.person_id ≡ person.person_id
    pub this_door : grant.access_point_id ≡ access_point.id
    pub granted_schedule : grant.schedule_id ≡ schedule.schedule_id
    pub person_enabled : person.enabled ≡ true
    pub grant_enabled : grant.enabled ≡ true
    pub door_managed : managed ≡ true
    pub door_enabled : access_point.enabled ≡ true
    pub in_schedule : evaluate_schedule zones schedule at ≡ ok active

  -- With a grant, access is allowed exactly if the grant is the Person's, for this Door and under
  -- this schedule, Person, grant and Door are enabled, the Door is managed, and the schedule is
  -- active at the instant.
  pub authorize_access-allowed_iff :
      (person : Person) (grant : AccessGrant) (access_point : AccessPoint) (managed : Bool)
      (schedule : Schedule) (at : Datetime)
      → (authorize_access person (some grant) access_point managed schedule at ≡ ok allowed)
        ↔ Entitled person grant access_point managed schedule at
  unfolding authorize_access
  authorize_access-allowed_iff person grant access_point managed schedule at =
      (λ h. ground arith, λ h. ground arith)

  -- Without a grant access is never allowed.
  pub no_grant-denied :
      (person : Person) (access_point : AccessPoint) (managed : Bool) (schedule : Schedule)
      (at : Datetime) (d : AuthorizationDecision)
      → authorize_access person none access_point managed schedule at ≡ ok d
      → is_allowed d ≡ false
  unfolding authorize_access
  no_grant-denied person access_point managed schedule at d h = ground arith
