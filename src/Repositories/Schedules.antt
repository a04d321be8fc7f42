-- ===== src/Repositories/Schedules.antt =====
-- repositories/schedule.py: the mutations.
pub mod Protected
use homepass.Prelude.{
  ℕ, Bool, true, false, not, ◌&&◌, ◌||◌, Option, none, some, List, [], ◌∷◌, String, ◌==◌, string_eq,
  nat_eq, if◌then◌else◌,
}
use homepass.Prelude.Result.{
  Error, Result, ok, err, duplicate_schedule, schedule_not_found, protected_schedule, storage_error,
  raise_if, ◌>>=◌, ◌>>◌,
}
use homepass.Prelude.Dict.{Dict, get, put, remove}
use homepass.Models.Json.{Fields}
use homepass.Models.Person.{Person, person_from_dict}
use homepass.Models.AccessGrant.{AccessGrant, access_grant_from_dict}
use homepass.Schedule.Policy.{Schedule}
use homepass.Schedule.Stored.{schedule_to_dict, schedule_from_dict}
use homepass.Authorization.Storage.{StorageData}
use homepass.Storage.{Environment, has, permanent_schedule}
use homepass.Repositories.{Mutator, mutate_storage}
use homepass.Repositories.People.{is_excluded}

-- except DuplicateScheduleError, ProtectedScheduleError, ScheduleNotFoundError, StorageError: raise
unfoldable pub passes_schedule_error : Error → Bool
passes_schedule_error duplicate_schedule = true
passes_schedule_error protected_schedule = true
passes_schedule_error schedule_not_found = true
passes_schedule_error storage_error = true
passes_schedule_error _ = false

module _ (env : Environment) where
  abbrev pub permanent_key : String
  permanent_key = env.codec.print_uuid env.permanent_id

  -- `_serialize`
  abbrev pub serialize_schedule : Schedule → Fields
  serialize_schedule = schedule_to_dict env.codec env.times

  -- The loop of `_deserialize_schedules`, from the schedules that are read so far.
  unfoldable pub deserialize_user_schedules :
      Dict ℕ Schedule → Dict String Fields → Result (Dict ℕ Schedule)
  deserialize_user_schedules schedules [] = ok schedules
  deserialize_user_schedules schedules ((stored_id, fields) ∷ rest) =
      let skipped = deserialize_user_schedules schedules rest in
      let read = (do
        schedule ← schedule_from_dict env.codec env.times env.zone_exists fields
        raise_if (not (env.codec.print_uuid schedule.schedule_id == stored_id)) storage_error
        raise_if (env.casefold schedule.name == env.casefold (permanent_schedule env).name)
            storage_error
        deserialize_user_schedules (put schedules schedule.schedule_id schedule) rest) in
      if stored_id == permanent_key then skipped else read

  -- `_deserialize_schedules`
  unfoldable pub deserialize_schedules : StorageData → Result (Dict ℕ Schedule)
  deserialize_schedules d = do
    schedules ← deserialize_user_schedules [] d.schedules
    ok (put schedules env.permanent_id (permanent_schedule env))

  -- What it does to the snapshot with `repair_permanent=True`.
  unfoldable pub repair_permanent : StorageData → StorageData
  repair_permanent d = record d {
    schedules = put d.schedules permanent_key (serialize_schedule (permanent_schedule env));
  }

  -- Another schedule has the name.
  unfoldable pub schedule_name_taken : Option ℕ → String → Dict ℕ Schedule → Bool
  schedule_name_taken exclude_id name [] = false
  schedule_name_taken exclude_id name ((id, existing) ∷ rest) =
      (not (is_excluded exclude_id existing.schedule_id) && env.casefold existing.name == name)
      || schedule_name_taken exclude_id name rest

  -- `_ensure_unique`
  unfoldable pub ensure_unique_schedule : Schedule → Dict ℕ Schedule → Option ℕ → Result (Unit {0})
  ensure_unique_schedule schedule schedules exclude_id = do
    raise_if
        (has (get schedules schedule.schedule_id)
          && not (is_excluded exclude_id schedule.schedule_id))
        duplicate_schedule
    raise_if (schedule_name_taken exclude_id (env.casefold schedule.name) schedules)
        duplicate_schedule

  -- any(Person.from_dict(record).schedule_id == schedule_id for record in people.values())
  unfoldable pub any_person_on : ℕ → Dict String Fields → Result Bool
  any_person_on schedule_id [] = ok false
  any_person_on schedule_id ((key, fields) ∷ rest) =
      let later = any_person_on schedule_id rest in
      (do
        person ← person_from_dict env.codec fields
        if person.schedule_id == schedule_id then ok true else later)

  unfoldable pub any_grant_on : ℕ → Dict String Fields → Result Bool
  any_grant_on schedule_id [] = ok false
  any_grant_on schedule_id ((key, fields) ∷ rest) =
      let later = any_grant_on schedule_id rest in
      (do
        grant ← access_grant_from_dict env.codec fields
        if grant.schedule_id == schedule_id then ok true else later)

  -- `_ensure_not_person_owned`: the grants are looked at if no Person has the schedule.
  unfoldable pub ensure_not_person_owned : StorageData → ℕ → Result (Unit {0})
  ensure_not_person_owned d schedule_id = do
    by_person ← any_person_on schedule_id d.people
    owned ← (if by_person then ok true else any_grant_on schedule_id d.access_grants)
    raise_if owned protected_schedule

  unfoldable pub store_schedule : StorageData → Schedule → StorageData
  store_schedule d schedule = record d {
    schedules =
        put d.schedules (env.codec.print_uuid schedule.schedule_id) (serialize_schedule schedule);
  }

  -- The mutator of `add`.
  unfoldable pub add_schedule : Schedule → Mutator (Unit {0})
  add_schedule schedule d = do
    schedules ← deserialize_schedules d
    raise_if (schedule.schedule_id == env.permanent_id) protected_schedule
    ensure_unique_schedule schedule schedules none
    ok (store_schedule (repair_permanent d) schedule, tt)

  -- The mutator of `update`.
  unfoldable pub update_schedule : Schedule → Mutator (Unit {0})
  update_schedule schedule d = do
    schedules ← deserialize_schedules d
    raise_if (schedule.schedule_id == env.permanent_id) protected_schedule
    raise_if (not (has (get schedules schedule.schedule_id))) schedule_not_found
    ensure_not_person_owned (repair_permanent d) schedule.schedule_id
    ensure_unique_schedule schedule schedules (some schedule.schedule_id)
    ok (store_schedule (repair_permanent d) schedule, tt)

  -- The mutator of `remove`.
  unfoldable pub remove_schedule : ℕ → Mutator (Unit {0})
  remove_schedule schedule_id d = do
    schedules ← deserialize_schedules d
    raise_if (schedule_id == env.permanent_id) protected_schedule
    raise_if (not (has (get schedules schedule_id))) schedule_not_found
    ensure_not_person_owned (repair_permanent d) schedule_id
    ok (
      record d {
        schedules = remove (repair_permanent d).schedules (env.codec.print_uuid schedule_id);
      },
      tt,
    )

  module _ (other_sections : StorageData → Result Fields) (saved : Result (Unit {0})) where
    unfoldable pub add : StorageData → Schedule → StorageData × Result (Unit {0})
    add d schedule =
        mutate_storage env passes_schedule_error other_sections saved d (add_schedule schedule)

    unfoldable pub update : StorageData → Schedule → StorageData × Result (Unit {0})
    update d schedule =
        mutate_storage env passes_schedule_error other_sections saved d (update_schedule schedule)

    unfoldable pub remove_by_id : StorageData → ℕ → StorageData × Result (Unit {0})
    remove_by_id d schedule_id =
        mutate_storage env passes_schedule_error other_sections saved d
          (remove_schedule schedule_id)
