-- ===== src/Tests/Access.antt =====
-- A stored snapshot of one Person, Door, schedule and grant, and the authorization on it.
use homepass.Prelude.{◌≡◌, refl, true, false, none, some, [], ◌∷◌, arith, string_eq}
use homepass.Prelude.Result.{ok}
use homepass.Prelude.Instant.{aware}
use homepass.Models.Json.{null, bool, dict, end, field}
use homepass.Prelude.Dict.{get}
use homepass.Prelude.Text.{strip, is_empty}
use homepass.Models.Json.{get_field}
use homepass.Models.Person.Stored.{InRange as PersonInRange}
use homepass.Models.Person.{
  Person, clean_description, person_post_init, person_to_dict, person_from_dict,
}
use homepass.Models.Person.Stored.{person_round_trip}
use homepass.Models.AccessPoint.Stored.{InRange as DoorInRange}
use homepass.Models.AccessPoint.{
  AccessPoint, access_point_post_init, access_point_to_dict, access_point_from_dict,
}
use homepass.Models.AccessPoint.Stored.{access_point_round_trip}
use homepass.Models.AccessGrant.Stored.{InRange as GrantInRange}
use homepass.Models.AccessGrant.{
  AccessGrant, access_grant_post_init, access_grant_to_dict, access_grant_from_dict,
}
use homepass.Models.AccessGrant.Stored.{access_grant_round_trip}
use homepass.Schedule.Stored.RoundTrip.{schedule_round_trip}
use homepass.Models.Synchronization.{synchronized}
use homepass.Schedule.Stored.{schedule_to_dict}
use homepass.Authorization.Storage.{StorageData, or_raise, get_from_snapshot}
use homepass.Authorization.Decision.{allowed}
use homepass.Authorization.Snapshot.{
  Context, decode_snapshot, decode_person, decode_schedule, decode_relationship, decode_grant,
  decode_managed_state, enrollment_state, entry_state, grant_key,
}
use homepass.Authorization.Service.{RelationshipResult, Lookup, Fresh}
use homepass.Tests.Fixtures.{unary, codec, times, zones, week, built_week}
use homepass.Tests.Schedules.{week_built, office-IsRule, night-IsRule, built_week_range}

abbrev pub ann : Person
ann = record {
  person_id = 1;
  schedule_id = 3;
  display_name = "Ann";
  description = none;
  enabled = true;
  notes = none;
  created_at = aware 1;
  updated_at = aware 2;
}

abbrev pub door : AccessPoint
door = record {
  id = 2;
  display_name = "Door";
  enabled = true;
  created_at = aware 1;
  updated_at = aware 2;
  open_enabled = false;
  entry_action = "unlock";
}

abbrev pub grant : AccessGrant
grant = record {
  access_grant_id = 4;
  person_id = 1;
  credential_id = 5;
  access_point_id = 2;
  schedule_id = 3;
  enabled = true;
  synchronization_status = synchronized;
  created_at = aware 1;
  updated_at = aware 2;
}

abbrev pub snapshot : StorageData
snapshot = record {
  people = ("1", person_to_dict codec ann) ∷ [];
  access_points = ("11", access_point_to_dict codec door) ∷ [];
  access_metadata = [];
  lifecycle_operations = [];
  properties = [];
  credential_metadata = [];
  access_grants = ("1:11", access_grant_to_dict codec grant) ∷ [];
  schedules = ("111", schedule_to_dict codec times built_week) ∷ [];
  settings =
      field "managed_access_points"
        (dict
          (field "11" (dict (field "discovery_key" null (field "managed" (bool true) end))) end))
        end;
}

abbrev pub context : Context
context = record {
  person = ann;
  access_grant = some grant;
  schedule = built_week;
  access_point_managed = true;
}

abbrev pub lookup : Lookup
lookup = record {
  get_access_point = get_from_snapshot codec;
  list_access_points = λ s. ok (door ∷ []);
}

abbrev pub fresh : Fresh
fresh = record { access_grant_id = 9; created_at = 1; updated_at = 1 }

abbrev pub relationship : RelationshipResult
relationship = record {
  person = ann;
  access_point = door;
  schedule = built_week;
  decision = allowed;
}

pub ann_built : person_post_init ann ≡ ok ann
unfolding person_post_init is_empty strip clean_description
ann_built = refl

pub door_built : access_point_post_init door ≡ ok door
unfolding access_point_post_init strip is_empty
door_built = refl

pub grant_built : access_grant_post_init grant ≡ ok grant
unfolding access_grant_post_init
grant_built = refl

pub ann_range : PersonInRange codec ann
ann_range = record {
  id_fits = omega arith;
  schedule_fits = omega arith;
  created_fits = omega arith;
  updated_fits = omega arith;
}

pub door_range : DoorInRange codec door
door_range = record {
  id_fits = omega arith;
  created_fits = omega arith;
  updated_fits = omega arith;
}

pub grant_range : GrantInRange codec grant
grant_range = record {
  grant_fits = omega arith;
  person_fits = omega arith;
  credential_fits = omega arith;
  access_point_fits = omega arith;
  schedule_fits = omega arith;
  created_fits = omega arith;
  updated_fits = omega arith;
}

person_round_trip_example : person_from_dict codec (person_to_dict codec ann) ≡ ok ann
person_round_trip_example = person_round_trip codec ann ann ann_built ann_range

access_point_round_trip_example :
    access_point_from_dict codec (access_point_to_dict codec door) ≡ ok door
access_point_round_trip_example = access_point_round_trip codec door door door_built door_range

access_grant_round_trip_example :
    access_grant_from_dict codec (access_grant_to_dict codec grant) ≡ ok grant
access_grant_round_trip_example = access_grant_round_trip codec grant grant grant_built grant_range

pub decoded : decode_snapshot codec times zones.zone_exists snapshot 1 2 ≡ ok context
unfolding decode_snapshot decode_person decode_schedule decode_relationship decode_grant
    decode_managed_state enrollment_state entry_state grant_key or_raise get get_field unary
decoded =
    rw
      (
        person_round_trip codec ann ann ann_built ann_range,
        schedule_round_trip codec times zones.zone_exists week built_week week_built
            (night-IsRule, (office-IsRule, tt)) built_week_range,
        access_grant_round_trip codec grant grant grant_built grant_range,
      )
      refl
