-- ===== src/Storage.antt =====
-- storage.py: the transaction of `HomePassStorageManager`, and the sections of
-- `_validate_domain_snapshot` on people, Doors, grants and schedules. The other sections stand in
-- `other_sections`, which may change the settings only; `saved` is the outcome of `Store.async_save`.
pub mod Sections
pub mod Consistent
pub mod Published
use homepass.Prelude.{
  ℕ, Bool, true, false, not, ◌&&◌, ◌||◌, is_nil, Option, none, some, List, [], ◌∷◌, String, ◌==◌,
  string_eq, nat_eq, any, if◌then◌else◌,
}
use homepass.Prelude.Result.{
  Error, Result, ok, err, value_error, invalid_storage, raise_if, ◌>>=◌, ◌>>◌,
}
use homepass.Prelude.Dict.{Dict, get, put}
use homepass.Prelude.Int.{ℤ, pos, negsuc}
use homepass.Prelude.Instant.{Datetime, naive, aware}
use homepass.Models.Json.{Fields, Codec}
use homepass.Models.Person.{Person, person_from_dict}
use homepass.Models.AccessPoint.{AccessPoint, access_point_from_dict}
use homepass.Models.AccessGrant.{AccessGrant, access_grant_from_dict}
use homepass.Schedule.Policy.{Schedule}
use homepass.Schedule.Stored.{TimeCodec, schedule_to_dict, schedule_from_dict}
use homepass.Authorization.Storage.{StorageData, names_of, same_set, access_point_fields}
use homepass.Authorization.Snapshot.{grant_key}

-- What the storage and the repositories use of libraries: the codecs, the time zones, `str.casefold`,
-- and the identifier that `uuid5` makes for the Permanent schedule.
pub record Environment : Type 0 where
  pub codec : Codec
  pub times : TimeCodec
  pub zone_exists : String → Bool
  pub casefold : String → String
  pub permanent_id : ℕ

-- The state of the manager is the published data. A transaction changes a copy, which is validated
-- and written before it is published.
unfoldable pub async_transaction {ℓ} :
    {A : Type ℓ}
    → (StorageData → Result StorageData)
    → Result (Unit {0})
    → StorageData
    → (StorageData → Result (StorageData × A))
    → StorageData × Result A
async_transaction validate saved current mutator = elim (mutator current) [
  | err e ↦ (current, err e)
  | ok (working, result) ↦ elim (validate working) [
    | err e ↦ (current, err e)
    | ok validated ↦ elim saved [ err e ↦ (current, err e) | ok u ↦ (validated, ok result) ]
  ]
]

-- name in names
abbrev pub is_in : String → List String → Bool
is_in name names = any (λ other. other == name) names

abbrev pub is_number_in : ℕ → List ℕ → Bool
is_number_in n ns = any (λ other. other == n) ns

-- An entry of a dictionary is there.
abbrev pub has {ℓ} : {A : Type ℓ} → Option A → Bool
has none = false
has (some a) = true

-- revision == 1
abbrev pub is_first : ℤ → Bool
is_first (pos n) = n == 1
is_first (negsuc n) = false

abbrev pub same_datetime : Datetime → Datetime → Bool
same_datetime (aware a) (aware b) = a == b
same_datetime (naive a) (naive b) = a == b
same_datetime a b = false

module _ (env : Environment) where
  -- `permanent_schedule` of models/schedule.py, which its constructor leaves as it is
  abbrev pub permanent_schedule : Schedule
  permanent_schedule = record {
    name = "Permanent";
    time_zone = "UTC";
    schedule_id = env.permanent_id;
    enabled = true;
    valid_from = none;
    valid_until = none;
    weekly_rules = [];
    revision = pos 1;
    created_at = aware 63919843200000000;
    updated_at = aware 63919843200000000;
  }

  -- f"{person_id}:{access_point_id}"
  abbrev pub relationship_key : ℕ → ℕ → String
  relationship_key = grant_key env.codec env.times env.zone_exists

  -- The loop over the people, with the names and the people that were read before.
  unfoldable pub people_section :
      List String → Dict ℕ Person → Dict String Fields → Result (Dict ℕ Person)
  people_section names people [] = ok people
  people_section names people ((stored_id, fields) ∷ rest) = do
    person ← person_from_dict env.codec fields
    raise_if (not (env.codec.print_uuid person.person_id == stored_id)) value_error
    raise_if (is_in (env.casefold person.display_name) names) value_error
    people_section (env.casefold person.display_name ∷ names) (put people person.person_id person)
        rest

  -- The loop over the Doors.
  unfoldable pub access_points_section :
      Dict ℕ AccessPoint → Dict String Fields → Result (Dict ℕ AccessPoint)
  access_points_section doors [] = ok doors
  access_points_section doors ((stored_id, fields) ∷ rest) = do
    raise_if
        (not (
          same_set (names_of fields) access_point_fields
          || same_set (names_of fields) ("open_enabled" ∷ "entry_action" ∷ access_point_fields)))
        value_error
    door ← access_point_from_dict env.codec fields
    raise_if (not (env.codec.print_uuid door.id == stored_id)) value_error
    raise_if (has (get doors door.id)) value_error
    access_points_section (put doors door.id door) rest

  -- The loop over the grants, with the identifiers that were read before.
  unfoldable pub grants_section : List ℕ → Dict String Fields → Result (List AccessGrant)
  grants_section grant_ids [] = ok []
  grants_section grant_ids ((stored_key, fields) ∷ rest) = do
    grant ← access_grant_from_dict env.codec fields
    raise_if (not (stored_key == relationship_key grant.person_id grant.access_point_id))
        value_error
    raise_if (is_number_in grant.access_grant_id grant_ids) value_error
    grants ← grants_section (grant.access_grant_id ∷ grant_ids) rest
    ok (grant ∷ grants)

  -- schedule != permanent_schedule(), for a schedule with its identifier
  abbrev pub differs_from_permanent : Schedule → Bool
  differs_from_permanent s = not (
      s.name == permanent_schedule.name
      && s.time_zone == permanent_schedule.time_zone
      && s.enabled
      && not (has s.valid_from)
      && not (has s.valid_until)
      && is_nil s.weekly_rules
      && is_first s.revision
      && same_datetime s.created_at permanent_schedule.created_at
      && same_datetime s.updated_at permanent_schedule.updated_at)

  -- The loop over the schedules, with the names and the identifiers that were read before.
  unfoldable pub schedules_section : List String → List ℕ → Dict String Fields → Result (List ℕ)
  schedules_section names ids [] = ok ids
  schedules_section names ids ((stored_id, fields) ∷ rest) = do
    schedule ← schedule_from_dict env.codec env.times env.zone_exists fields
    raise_if (not (env.codec.print_uuid schedule.schedule_id == stored_id)) value_error
    raise_if
        (if schedule.schedule_id == env.permanent_id
          then differs_from_permanent schedule
          else env.casefold schedule.name == env.casefold permanent_schedule.name)
        value_error
    raise_if (is_in (env.casefold schedule.name) names) value_error
    schedules_section (env.casefold schedule.name ∷ names) (schedule.schedule_id ∷ ids) rest

  -- The schedule of a Person is stored, for each of them.
  unfoldable pub all_scheduled : List ℕ → Dict ℕ Person → Bool
  all_scheduled ids [] = true
  all_scheduled ids ((id, person) ∷ rest) =
      is_number_in person.schedule_id ids && all_scheduled ids rest

  -- The Person, the schedule and the Door of a grant are stored, for each of them.
  unfoldable pub all_related : Dict ℕ Person → List ℕ → Dict ℕ AccessPoint → List AccessGrant → Bool
  all_related people ids doors [] = true
  all_related people ids doors (grant ∷ rest) =
      has (get people grant.person_id)
      && is_number_in grant.schedule_id ids
      && has (get doors grant.access_point_id)
      && all_related people ids doors rest

  unfoldable pub core_sections : StorageData → Result (Unit {0})
  core_sections d = do
    people ← people_section [] [] d.people
    doors ← access_points_section [] d.access_points
    grants ← grants_section [] d.access_grants
    ids ← schedules_section [] [] d.schedules
    raise_if (not (is_number_in env.permanent_id ids)) value_error
    raise_if (not (all_scheduled ids people)) value_error
    raise_if (not (all_related people ids doors grants)) value_error

  -- `_validate_domain_snapshot`: whatever goes wrong is an `InvalidHomePassStorageError`.
  unfoldable pub validate_domain_snapshot :
      (StorageData → Result Fields) → StorageData → Result StorageData
  validate_domain_snapshot other_sections d = elim (core_sections d >> other_sections d) [
    | err e ↦ err invalid_storage
    | ok settings ↦ ok (record d { settings = settings })
  ]
