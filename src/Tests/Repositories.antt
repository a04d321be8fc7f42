-- ===== src/Tests/Repositories.antt =====
-- The storage and the repositories on concrete inputs.
use mathlib.Core.Path.{subst}
use homepass.Prelude.{
  ◌≡◌, ◌≢◌, refl, true, false, Bool-cases, inl, inr, false, none, some, [], ◌∷◌, arith, string_eq,
  nat_eq, String, if◌then◌else◌, ◌==◌,
}
use homepass.Prelude.Result.{ok, ok-injective}
use homepass.Prelude.Dict.{Dict, Distinct, get, put, remove}
use homepass.Prelude.Instant.{normalize_datetime}
use homepass.Models.Json.{Fields, end, field, null, bool, dict, get_field, put_field, remove_field}
use homepass.Models.Person.Stored.{person_round_trip}
use homepass.Models.AccessGrant.{AccessGrant, access_grant_post_init, access_grant_to_dict}
use homepass.Models.AccessGrant.Stored.{InRange, access_grant_round_trip}
use homepass.Schedule.Stored.{schedule_to_dict}
use homepass.Schedule.Stored.RoundTrip.{schedule_round_trip}
use homepass.Authorization.Storage.{StorageData}
use homepass.Authorization.Snapshot.{grant_key}
use homepass.Storage.{Environment, permanent_schedule}
use homepass.Storage.Consistent.{IsConsistent}
use homepass.Storage.Published.{Transaction, run_transactions, run_transactions-IsConsistent}
use homepass.Repositories.People.{deserialize_people, delete_grants, delete_metadata, remove_person}
use homepass.Repositories.People.Removed.{Cascaded, remove_person-Cascaded}
use homepass.Repositories.Grants.{deserialize_records, keep_identity, upsert_grant, remove_grant}
use homepass.Repositories.Grants.Refinement.{
  Relationships, Represents, assign, upsert_grant-refines,
}
use homepass.Repositories.Grants.Identity.{Upserted, upsert_grant-Upserted}
use homepass.Repositories.Schedules.{
  permanent_key, serialize_schedule, deserialize_user_schedules, deserialize_schedules,
  repair_permanent, any_person_on, any_grant_on, ensure_not_person_owned, remove_schedule,
}
use homepass.Repositories.Schedules.Protected.{target, removing, mutation-keeps_permanent}
use homepass.Repositories.Doors.{
  contains_records, enrollments_of, is_managed, name_fallbacks, drop_fallback, any_grant_at,
  any_metadata_at, any_operation_on, has_durable_reference, forget_access_point,
  remove_access_point,
}
use homepass.Repositories.Doors.Unreferenced.{Unreferenced, remove_access_point-Unreferenced}
use homepass.Tests.Tokens.{conversions}
use homepass.Tests.Fixtures.{unary, codec, times, zones, week, built_week}
use homepass.Tests.Schedules.{week_built, office-IsRule, night-IsRule, built_week_range}
use homepass.Tests.Access.{ann, ann_built, ann_range, grant, grant_built, grant_range, snapshot}

abbrev env : Environment
env = record {
  codec = codec;
  times = times;
  zone_exists = zones.zone_exists;
  casefold = λ s. s;
  permanent_id = 7;
}

-- A storage with the Permanent schedule only.
abbrev bare : StorageData
bare = record snapshot {
  people = [];
  access_points = [];
  access_grants = [];
  schedules = ("1111111", schedule_to_dict codec times (permanent_schedule env)) ∷ [];
}

bare-IsConsistent : IsConsistent env bare
unfolding get unary
bare-IsConsistent = record { distinct = tt; people = tt; grants = tt; permanent = refl }

-- The removal of a grant.
revoking : Transaction env
unfolding remove_grant
revoking = record {
  result = Unit {0};
  mutator = remove_grant env 1 2;
  other_sections = λ d. ok d.settings;
  saved = ok tt;
  keeps_keys = λ d d' a distinct h.
      subst (λ (r : StorageData × Unit {0}). Distinct r.0.people) (ok-injective h) distinct;
}

run_transactions-IsConsistent_example :
    IsConsistent env (run_transactions env bare (revoking ∷ revoking ∷ []))
run_transactions-IsConsistent_example =
    run_transactions-IsConsistent env bare (revoking ∷ revoking ∷ []) bare-IsConsistent

-- The same storage with the week's schedule.
abbrev with_week : StorageData
with_week = record bare {
  schedules = ("111", schedule_to_dict codec times built_week) ∷ bare.schedules;
}

abbrev week_gone : StorageData
week_gone = record with_week { schedules = remove (repair_permanent env with_week).schedules "111" }

week_removed : remove_schedule env 3 with_week ≡ ok (week_gone, tt)
unfolding remove_schedule deserialize_schedules deserialize_user_schedules ensure_not_person_owned
    any_person_on any_grant_on repair_permanent get put unary
week_removed =
    rw
      (schedule_round_trip codec times zones.zone_exists week built_week week_built
        (night-IsRule, (office-IsRule, tt)) built_week_range)
      refl

mutation-keeps_permanent_example :
    (target (removing 3) ≢ env.permanent_id)
    × (get week_gone.schedules (permanent_key env)
        ≡ some (serialize_schedule env (permanent_schedule env)))
mutation-keeps_permanent_example =
    mutation-keeps_permanent env (removing 3) with_week week_gone (omega arith) (omega arith)
      week_removed

-- A new grant for the relationship of the stored one, which keeps its identifier.
abbrev regranted : AccessGrant
regranted = record grant { access_grant_id = 9; enabled = false }

abbrev granted : AccessGrant
granted = record grant { enabled = false }

abbrev granted_data : StorageData
granted_data = record snapshot {
  access_grants = put snapshot.access_grants "1:11" (access_grant_to_dict codec granted);
}

grant_upserted : upsert_grant env regranted snapshot ≡ ok (granted_data, granted)
unfolding upsert_grant deserialize_records keep_identity access_grant_post_init normalize_datetime
    grant_key get put unary
grant_upserted = rw (access_grant_round_trip codec grant grant grant_built grant_range) refl

upsert_grant-Upserted_example :
    (records : Dict String AccessGrant) × (deserialize_records env [] snapshot.access_grants
      ≡ ok records)
    × Upserted env snapshot granted_data regranted granted records
upsert_grant-Upserted_example =
    upsert_grant-Upserted env snapshot granted_data regranted granted grant_upserted

abbrev ann_gone : StorageData
ann_gone = record snapshot { people = []; access_grants = [] }

ann_removed : remove_person env 1 snapshot ≡ ok (ann_gone, tt)
unfolding remove_person deserialize_people delete_grants delete_metadata get put remove unary
ann_removed =
    rw
      (
        person_round_trip codec ann ann ann_built ann_range,
        access_grant_round_trip codec grant grant grant_built grant_range,
      )
      refl

remove_person-Cascaded_example : Cascaded env 1 snapshot ann_gone
remove_person-Cascaded_example = remove_person-Cascaded env 1 snapshot ann_gone ann_removed

-- The map that the stored grants stand for.
abbrev relationships : Relationships
relationships = λ key. if "1:11" == key then some grant else none

represented : Represents env snapshot relationships
unfolding get grant_key unary
represented = record {
  readable = ((grant, access_grant_round_trip codec grant grant grant_built grant_range, refl), tt);
  distinct = (refl, tt);
  view = λ key. elim (Bool-cases ("1:11" == key)) [
    | inl same ↦ rw (same, access_grant_round_trip codec grant grant grant_built grant_range) refl
    | inr other ↦ rw other refl
  ];
}

granted_range : InRange codec granted
granted_range = record {
  grant_fits = omega arith;
  person_fits = omega arith;
  credential_fits = omega arith;
  access_point_fits = omega arith;
  schedule_fits = omega arith;
  created_fits = omega arith;
  updated_fits = omega arith;
}

upsert_grant-refines_example :
    (d' : StorageData) × (upsert_grant env regranted snapshot ≡ ok (d', granted))
    × Represents env d' (assign env relationships "1:11" (some granted))
unfolding keep_identity access_grant_post_init normalize_datetime grant_key unary
upsert_grant-refines_example =
    upsert_grant-refines env snapshot relationships regranted regranted granted represented refl
      refl granted_range

-- The snapshot with the Door out of use.
abbrev unused_door : StorageData
unused_door = record snapshot {
  access_grants = [];
  settings =
      field "managed_access_points"
        (dict
          (field "11" (dict (field "discovery_key" null (field "managed" (bool false) end))) end))
        end;
}

abbrev door_gone : StorageData
door_gone = record unused_door {
  access_points = [];
  settings = field "managed_access_points" (dict end) end;
}

door_removed : remove_access_point env conversions 2 unused_door ≡ ok (door_gone, true)
unfolding remove_access_point enrollments_of is_managed has_durable_reference any_grant_at
    any_metadata_at any_operation_on contains_records forget_access_point drop_fallback
    name_fallbacks put_field remove_field get_field get remove unary
door_removed = refl

remove_access_point-Unreferenced_example :
    Unreferenced env conversions door_gone 2
    × ((key : String)
        → get door_gone.access_points key
          ≡ (if unary 2 == key then none else get unused_door.access_points key))
    × ((enrollments : Fields)
        → enrollments_of unused_door.settings ≡ ok enrollments
        → is_managed (get_field enrollments (unary 2)) ≡ false)
remove_access_point-Unreferenced_example =
    remove_access_point-Unreferenced env conversions 2 unused_door door_gone door_removed
