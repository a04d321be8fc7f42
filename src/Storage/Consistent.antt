-- ===== src/Storage/Consistent.antt =====
-- What the validation of a snapshot establishes: every reference of its records is stored.
use homepass.Prelude.{
  ℕ, ◌≡◌, ◌⊎◌, inl, inr, true, false, not, [], ◌∷◌, String, string_eq, nat_eq, All, arith,
}
use mathlib.Core.Path.{subst}
use homepass.Prelude.Result.{Result-cases, Result, ok, from_bind, value_error, raise_if}
use homepass.Prelude.Dict.{Dict, get, Distinct}
use homepass.Models.Json.{Fields}
use homepass.Models.Person.{Person, person_from_dict}
use homepass.Models.AccessGrant.{AccessGrant, access_grant_from_dict}
use homepass.Authorization.Storage.{StorageData}
use homepass.Storage.{
  Environment, is_number_in, has, relationship_key, people_section, access_points_section,
  grants_section, schedules_section, all_scheduled, all_related, core_sections,
  validate_domain_snapshot,
}
use homepass.Storage.Sections.{
  raise_if-ok, not-false, people_section-from, access_points_section-from, schedules_section-from,
  all_scheduled-get, people_section-each, grants_section-each,
}

nothing_before {ℓ} : {X : Type ℓ} → (false ≡ true) ⊎ X → X
nothing_before (inl h) = cc
nothing_before (inr x) = x

module _ (env : Environment) where
  -- A stored Person: the record is valid, stands under its identifier, and its schedule is stored.
  pub record PersonStored (d : StorageData) (key : String) (fields : Fields) : Type 0 where
    pub person : Person
    pub decoded : person_from_dict env.codec fields ≡ ok person
    pub keyed : env.codec.print_uuid person.person_id ≡ key
    pub scheduled : has (get d.schedules (env.codec.print_uuid person.schedule_id)) ≡ true

  -- A stored grant: the record is valid, stands under the key of its relationship, and its Person, Door
  -- and schedule are stored.
  pub record GrantStored (d : StorageData) (key : String) (fields : Fields) : Type 0 where
    pub grant : AccessGrant
    pub decoded : access_grant_from_dict env.codec fields ≡ ok grant
    pub keyed : key ≡ relationship_key env grant.person_id grant.access_point_id
    pub person_there : has (get d.people (env.codec.print_uuid grant.person_id)) ≡ true
    pub door_there : has (get d.access_points (env.codec.print_uuid grant.access_point_id)) ≡ true
    pub schedule_there : has (get d.schedules (env.codec.print_uuid grant.schedule_id)) ≡ true

  pub record IsConsistent (d : StorageData) : Type 0 where
    pub distinct : Distinct d.people
    pub people : All (λ (e : String × Fields). PersonStored d e.0 e.1) d.people
    pub grants : All (λ (e : String × Fields). GrantStored d e.0 e.1) d.access_grants
    pub permanent : has (get d.schedules (env.codec.print_uuid env.permanent_id)) ≡ true

  All-map :
      {P Q : String × Fields → Type 0} (entries : Dict String Fields)
      → ((e : String × Fields) → P e → Q e)
      → All P entries
      → All Q entries
  All-map [] f h = tt
  All-map (e ∷ rest) f h = (f e h.0, All-map rest f h.1)

  core_sections-IsConsistent :
      (d : StorageData) → Distinct d.people → core_sections env d ≡ ok tt → IsConsistent d
  unfolding core_sections get
  core_sections-IsConsistent d distinct h =
      from_bind (people_section env [] [] d.people) h λ people e1 h1.
        from_bind (access_points_section env [] d.access_points) h1 λ doors e2 h2.
          from_bind (grants_section env [] d.access_grants) h2 λ grants e3 h3.
            from_bind (schedules_section env [] [] d.schedules) h3 λ ids e4 h4.
              from_bind (raise_if (not (is_number_in env.permanent_id ids)) value_error) h4
                λ u e5 h5.
                  from_bind (raise_if (not (all_scheduled env ids people)) value_error) h5
                    λ v e6 h6.
                      let scheduled =
                        not-false (raise_if-ok (not (all_scheduled env ids people)) e6) in
                      let related =
                        not-false
                          (raise_if-ok (not (all_related env people ids doors grants)) h6) in
                      let stored_schedule = λ (id : ℕ) (there : is_number_in id ids ≡ true).
                        nothing_before
                          (schedules_section-from env [] [] ids d.schedules e4 id there) in
                      record {
                        distinct = distinct;
                        people =
                            All-map d.people
                              (λ (key, fields) (p, decoded, keyed, there). record {
                                person = p;
                                decoded = decoded;
                                keyed = keyed;
                                scheduled = stored_schedule p.schedule_id (
                                    all_scheduled-get env ids people p.person_id p scheduled there);
                              })
                              (people_section-each env [] [] people d.people distinct e1);
                        grants =
                            All-map d.access_grants
                              (λ (key, fields) (g, decoded, keyed, person, schedule, door). record {
                                grant = g;
                                decoded = decoded;
                                keyed = keyed;
                                person_there = nothing_before (
                                    people_section-from env [] [] people d.people e1 g.person_id
                                      person);
                                door_there = nothing_before (
                                    access_points_section-from env [] doors d.access_points e2
                                      g.access_point_id door);
                                schedule_there = stored_schedule g.schedule_id schedule;
                              })
                              (grants_section-each env [] grants d.access_grants people ids doors e3
                                related);
                        permanent =
                            stored_schedule env.permanent_id (
                              not-false (raise_if-ok (not (is_number_in env.permanent_id ids)) e5));
                      }

  settings-IsConsistent :
      (d : StorageData) (settings : Fields)
      → IsConsistent d
      → IsConsistent (record d { settings = settings })
  settings-IsConsistent d settings c = record {
    distinct = c.distinct;
    people =
        All-map d.people
          (λ e p. record {
            person = p.person;
            decoded = p.decoded;
            keyed = p.keyed;
            scheduled = p.scheduled;
          })
          c.people;
    grants =
        All-map d.access_grants
          (λ e g. record {
            grant = g.grant;
            decoded = g.decoded;
            keyed = g.keyed;
            person_there = g.person_there;
            door_there = g.door_there;
            schedule_there = g.schedule_there;
          })
          c.grants;
    permanent = c.permanent;
  }

  -- A snapshot that the validation accepts is consistent: each Person and each grant is a valid record
  -- under its key, their schedules, and the grant's Person and Door, are stored, and so is the
  -- Permanent schedule. The other sections may do what they like with the settings, and the keys of the
  -- people differ, as those of a dictionary do.
  pub validate_domain_snapshot-IsConsistent :
      (other_sections : StorageData → Result Fields) (d d' : StorageData)
      → Distinct d.people
      → validate_domain_snapshot env other_sections d ≡ ok d'
      → IsConsistent d'
  unfolding validate_domain_snapshot
  validate_domain_snapshot-IsConsistent other_sections d d' distinct h =
      elim (Result-cases (core_sections env d)) [
        | inr (x, e) ↦ absurd (ground (arith, e, h))
        | inl (u, e) ↦ elim (Result-cases (other_sections d)) [
          | inr (x, e') ↦ absurd (ground (arith, e, e', h))
          | inl (settings, e') ↦
              let same : record d { settings = settings } ≡ d' = ground (arith, e, e', h) in
              subst IsConsistent same
                (settings-IsConsistent d settings (core_sections-IsConsistent d distinct e))
        ]
      ]
