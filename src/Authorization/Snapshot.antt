-- ===== src/Authorization/Snapshot.antt =====
-- services/authorization.py: one relationship decoded from a stored snapshot. The collections are
-- dictionaries by their declared types, so the tests for that are not repeated.
pub mod Consistent
use Prim.Native.String.{◌++◌}
use homepass.Prelude.{
  ℕ, ◌≡◌, refl, Bool, true, false, not, ◌&&◌, ◌||◌, Option, none, some, String, ◌==◌, nat_eq,
  nat_beq_iff, string_eq, if◌then◌else◌, arith,
}
use homepass.Prelude.Dict.{Dict, get}
use homepass.Prelude.Result.{
  Error, Result, ok, err, authorization_context, person_not_found,
  invalid_person_schedule_reference, raise_if, ◌>>=◌, ◌>>◌, >>=-eq-ok,
}
use homepass.Models.Json.{Value, null, bool, str, dict, Fields, get_field, Codec}
use homepass.Models.Person.{Person, person_from_dict}
use homepass.Models.AccessGrant.{AccessGrant, access_grant_from_dict}
use homepass.Schedule.Policy.{Schedule}
use homepass.Schedule.Stored.{TimeCodec, schedule_from_dict}
use homepass.Authorization.Storage.{StorageData, or_raise}

-- `_PersistedAuthorizationContext`
pub record Context : Type 0 where
  pub person : Person
  pub access_grant : Option AccessGrant
  pub schedule : Schedule
  pub access_point_managed : Bool

-- The test of `discovery_key`: `None` or a string.
unfoldable pub is_discovery_key : Value → Bool
is_discovery_key null = true
is_discovery_key (str s) = true
is_discovery_key _ = false

-- The value of `managed`, which must be a Boolean.
unfoldable pub managed_flag : Value → Result Bool
managed_flag (bool b) = ok b
managed_flag _ = err authorization_context

-- An entry that is there: an object with both keys, of the right types.
unfoldable pub enrollment_state : Fields → Result Bool
unfolding is_discovery_key managed_flag
enrollment_state enrollment = elim (get_field enrollment "discovery_key") [
  | none ↦ err authorization_context
  | some key ↦ elim (get_field enrollment "managed") [
    | none ↦ err authorization_context
    | some managed ↦ do
      raise_if (not (is_discovery_key key)) authorization_context
      managed_flag managed
  ]
]

-- `enrollments.get(str(access_point_id))`, absent or `None`, or the state of the entry
unfoldable pub entry_state : Option Value → Result Bool
unfolding enrollment_state
entry_state none = ok false
entry_state (some null) = ok false
entry_state (some (dict enrollment)) = enrollment_state enrollment
entry_state (some _) = err authorization_context

module _ (codec : Codec) (times : TimeCodec) (zone_exists : String → Bool) where
  -- `_decode_managed_state`
  unfoldable pub decode_managed_state : Fields → ℕ → Result Bool
  unfolding entry_state
  decode_managed_state settings access_point_id =
      elim (get_field settings "managed_access_points") [
        | some (dict enrollments) ↦
            entry_state (get_field enrollments (codec.print_uuid access_point_id))
        | _ ↦ err authorization_context
      ]

  -- `_decode_person`
  unfoldable pub decode_person : StorageData → ℕ → Result Person
  unfolding or_raise
  decode_person snapshot person_id = elim (get snapshot.people (codec.print_uuid person_id)) [
    | none ↦ err person_not_found
    | some fields ↦ do
      person ← or_raise authorization_context (person_from_dict codec fields)
      raise_if (not (person.person_id == person_id)) authorization_context
      ok person
  ]

  -- `_decode_schedule`
  unfoldable pub decode_schedule : Fields → ℕ → Result Schedule
  unfolding or_raise
  decode_schedule fields expected_id = do
    schedule ← or_raise authorization_context (schedule_from_dict codec times zone_exists fields)
    raise_if (not (schedule.schedule_id == expected_id)) authorization_context
    ok schedule

  -- `f"{person_id}:{access_point_id}"`
  unfoldable pub grant_key : ℕ → ℕ → String
  grant_key person_id access_point_id =
      codec.print_uuid person_id ++ ":" ++ codec.print_uuid access_point_id

  -- The grant of a relationship that has one, and the schedule it is under.
  unfoldable pub decode_grant :
      StorageData → ℕ → ℕ → Schedule → Fields → Result (AccessGrant × Schedule)
  unfolding or_raise
  decode_grant snapshot person_id access_point_id schedule fields = do
    grant ← or_raise authorization_context (access_grant_from_dict codec fields)
    raise_if (not (grant.person_id == person_id) || not (grant.access_point_id == access_point_id))
        authorization_context
    elim (get snapshot.schedules (codec.print_uuid grant.schedule_id)) [
      | none ↦ err authorization_context
      | some record' ↦
          if grant.schedule_id == schedule.schedule_id
          then ok (grant, schedule)
          else (do own ← decode_schedule record' grant.schedule_id; ok (grant, own))
    ]

  -- The same for the relationship's entry among the grants, if any.
  unfoldable pub decode_relationship :
      StorageData → ℕ → ℕ → Schedule → Option Fields → Result (Option AccessGrant × Schedule)
  decode_relationship snapshot person_id access_point_id schedule none = ok (none, schedule)
  decode_relationship snapshot person_id access_point_id schedule (some fields) = do
    (grant, own) ← decode_grant snapshot person_id access_point_id schedule fields
    ok (some grant, own)

  -- `_decode_snapshot`
  unfoldable pub decode_snapshot : StorageData → ℕ → ℕ → Result Context
  decode_snapshot snapshot person_id access_point_id = do
    person ← decode_person snapshot person_id
    record' ← elim (get snapshot.schedules (codec.print_uuid person.schedule_id)) [
      | none ↦ err invalid_person_schedule_reference
      | some fields ↦ ok fields
    ]
    schedule ← decode_schedule record' person.schedule_id
    (access_grant, own) ←
        decode_relationship snapshot person_id access_point_id schedule
          (get snapshot.access_grants (grant_key person_id access_point_id))
    managed ← decode_managed_state snapshot.settings access_point_id
    ok (record {
      person = person;
      access_grant = access_grant;
      schedule = own;
      access_point_managed = managed;
    })
