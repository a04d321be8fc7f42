-- ===== src/Authorization/Snapshot/Consistent.antt =====
-- What is decoded from a snapshot belongs to the relationship that was asked for.
use homepass.Prelude.{
  Option-cases, inl, inr, ℕ, ◌≡◌, Bool, Option, none, some, String, nat_eq, string_eq, arith,
}
use homepass.Prelude.Result.{ok}
use homepass.Models.Json.{Fields, Codec}
use homepass.Models.Person.{Person}
use homepass.Models.AccessGrant.{AccessGrant}
use homepass.Schedule.Policy.{Schedule}
use homepass.Schedule.Stored.{TimeCodec}
use homepass.Authorization.Storage.{StorageData}
use homepass.Authorization.Snapshot.{
  Context, decode_person, decode_schedule, decode_grant, decode_relationship, decode_snapshot,
}

-- A grant of the relationship, and the schedule that it is under; without one, the Person's.
abbrev pub GrantFits : Option AccessGrant → Schedule → Person → ℕ → ℕ → Type 0
GrantFits none schedule person person_id access_point_id = schedule.schedule_id ≡ person.schedule_id
GrantFits (some grant) schedule person person_id access_point_id =
    (grant.person_id ≡ person_id)
    × (grant.access_point_id ≡ access_point_id)
    × (schedule.schedule_id ≡ grant.schedule_id)

-- A context that belongs to one relationship.
pub record IsConsistent (c : Context) (person_id access_point_id : ℕ) : Type 0 where
  pub this_person : c.person.person_id ≡ person_id
  pub fits : GrantFits c.access_grant c.schedule c.person person_id access_point_id

module _ (codec : Codec) (times : TimeCodec) (zone_exists : String → Bool) where
  decode_person-id :
      (snapshot : StorageData) (person_id : ℕ) (p : Person)
      → decode_person codec times zone_exists snapshot person_id ≡ ok p
      → p.person_id ≡ person_id
  unfolding decode_person
  decode_person-id snapshot person_id p h = ground arith

  decode_schedule-id :
      (fields : Fields) (expected_id : ℕ) (s : Schedule)
      → decode_schedule codec times zone_exists fields expected_id ≡ ok s
      → s.schedule_id ≡ expected_id
  unfolding decode_schedule
  decode_schedule-id fields expected_id s h = ground arith

  decode_grant-ids :
      (snapshot : StorageData) (person_id access_point_id : ℕ) (schedule : Schedule)
      (fields : Fields) (g : AccessGrant) (s : Schedule)
      → decode_grant codec times zone_exists snapshot person_id access_point_id schedule fields
        ≡ ok (g, s)
      → (g.person_id ≡ person_id)
        × (g.access_point_id ≡ access_point_id)
        × (s.schedule_id ≡ g.schedule_id)
  unfolding decode_grant
  decode_grant-ids snapshot person_id access_point_id schedule fields g s h =
      grind (arith, decode_schedule-id)

  decode_relationship-none :
      (snapshot : StorageData) (person_id access_point_id : ℕ) (schedule : Schedule)
      (entry : Option Fields) (r : Option AccessGrant × Schedule)
      → decode_relationship codec times zone_exists snapshot person_id access_point_id schedule
          entry
        ≡ ok r
      → r.0 ≡ none
      → r.1.schedule_id ≡ schedule.schedule_id
  unfolding decode_relationship
  decode_relationship-none snapshot person_id access_point_id schedule none r h e = ground arith
  decode_relationship-none snapshot person_id access_point_id schedule (some fields) r h e =
      ground arith

  decode_relationship-some :
      (snapshot : StorageData) (person_id access_point_id : ℕ) (schedule : Schedule)
      (entry : Option Fields) (r : Option AccessGrant × Schedule) (g : AccessGrant)
      → decode_relationship codec times zone_exists snapshot person_id access_point_id schedule
          entry
        ≡ ok r
      → r.0 ≡ some g
      → (g.person_id ≡ person_id)
        × (g.access_point_id ≡ access_point_id)
        × (r.1.schedule_id ≡ g.schedule_id)
  unfolding decode_relationship
  decode_relationship-some snapshot person_id access_point_id schedule none r g h e = ground arith
  decode_relationship-some snapshot person_id access_point_id schedule (some fields) r g h e =
      decode_grant-ids snapshot person_id access_point_id schedule fields g r.1 (ground arith)

  -- A decoded context belongs to the relationship that was asked for: its Person has the identifier
  -- asked for; a grant in it is for this Person and this Door, and its schedule is the grant's; without
  -- a grant the schedule is the Person's.
  pub decode_snapshot-IsConsistent :
      (snapshot : StorageData) (person_id access_point_id : ℕ) (c : Context)
      → decode_snapshot codec times zone_exists snapshot person_id access_point_id ≡ ok c
      → IsConsistent c person_id access_point_id
  unfolding decode_snapshot
  decode_snapshot-IsConsistent snapshot person_id access_point_id c h = record {
    this_person = grind (arith, decode_person-id);
    fits = elim (Option-cases c.access_grant) [
      | inl e ↦ rw e (grind (arith, decode_schedule-id, decode_relationship-none))
      | inr (g, e) ↦ rw e (grind (arith, decode_relationship-some))
    ];
  }
