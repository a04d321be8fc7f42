-- ===== src/Storage/Sections.antt =====
-- What each section of the validation reads of its collection.
use homepass.Prelude.{
  ℕ, ◌≡◌, refl, sym, ap, ◌∙◌, ◌⊎◌, inl, inr, Bool, true, false, not, Bool-cases, none, some, List,
  [], ◌∷◌, String, ◌==◌, string_eq, nat_eq, nat_beq_iff, eq_iff, All, arith,
}
use homepass.Prelude.Result.{ok, ok-injective, from_bind, value_error, raise_if}
use homepass.Prelude.Dict.{Dict, get, put, get-put, get-put_self, Distinct}
use homepass.Models.Json.{Fields}
use homepass.Models.Person.{Person, person_from_dict}
use homepass.Models.AccessPoint.{AccessPoint, access_point_from_dict}
use homepass.Models.AccessGrant.{AccessGrant, access_grant_from_dict}
use homepass.Schedule.Stored.{schedule_from_dict}
use homepass.Storage.{
  Environment, is_in, is_number_in, has, relationship_key, people_section, access_points_section,
  grants_section, schedules_section, all_scheduled, all_related,
}

pub raise_if-ok : (test : Bool) → raise_if test value_error ≡ ok tt → test ≡ false
raise_if-ok false h = refl
raise_if-ok true h = cc

has-later :
    (key : String) (fields : Fields) (rest : Dict String Fields) (k : String)
    → has (get rest k) ≡ true
    → has (get ((key, fields) ∷ rest) k) ≡ true
unfolding get
has-later key fields rest k h = ground (arith, h)

get-cons_none :
    (key : String) (fields : Fields) (rest : Dict String Fields) (k : String)
    → get ((key, fields) ∷ rest) k ≡ none
    → ((key == k) ≡ false) × (get rest k ≡ none)
unfolding get
get-cons_none key fields rest k h = ground (arith, h)

pub not-false : {b : Bool} → not b ≡ false → b ≡ true
not-false {b = true} h = refl
not-false {b = false} h = cc

module _ (env : Environment) where
  -- The record of a section stands under its identifier.
  keyed-eq :
      (own : ℕ) (key : String)
      → raise_if (not (env.codec.print_uuid own == key)) value_error ≡ ok tt
      → env.codec.print_uuid own ≡ key
  keyed-eq own key h =
      (eq_iff (env.codec.print_uuid own) key).0
        (ground (arith, raise_if-ok (not (env.codec.print_uuid own == key)) h))

  stored_here :
      (own id : ℕ) (key : String) (fields : Fields) (rest : Dict String Fields)
      → raise_if (not (env.codec.print_uuid own == key)) value_error ≡ ok tt
      → (own == id) ≡ true
      → has (get ((key, fields) ∷ rest) (env.codec.print_uuid id)) ≡ true
  unfolding get
  stored_here own id key fields rest h same =
      let same_key =
        sym (keyed-eq own key h) ∙ ap env.codec.print_uuid ((nat_beq_iff own id).0 same) in
      ground (arith, (eq_iff key (env.codec.print_uuid id)).1 same_key)

  -- A key that was put stands in the collection, under the entry that is read.
  has-put :
      {A : Type 0} (before : Dict ℕ A) (rest : Dict String Fields) (key : String) (fields : Fields)
      (own id : ℕ) (a : A)
      → raise_if (not (env.codec.print_uuid own == key)) value_error ≡ ok tt
      → has (get (put before own a) id) ≡ true
      → (has (get before id) ≡ true)
        ⊎ (has (get ((key, fields) ∷ rest) (env.codec.print_uuid id)) ≡ true)
  unfolding get
  has-put before rest key fields own id a e h = elim (Bool-cases (own == id)) [
    | inr other ↦ inl (rw (get-put before own id a, other) at h)
    | inl same ↦ inr (stored_here own id key fields rest e same)
  ]

  -- A Person that was read stood in the collection, or was read before.
  pub people_section-from :
      (names : List String) (before people : Dict ℕ Person) (entries : Dict String Fields)
      → people_section env names before entries ≡ ok people
      → (id : ℕ) → has (get people id) ≡ true
      → (has (get before id) ≡ true) ⊎ (has (get entries (env.codec.print_uuid id)) ≡ true)
  unfolding people_section get
  people_section-from names before people [] h id there = inl (ground (arith, h, there))
  people_section-from names before people ((key, fields) ∷ rest) h id there =
      from_bind (person_from_dict env.codec fields) h λ person e h1.
        from_bind (raise_if (not (env.codec.print_uuid person.person_id == key)) value_error) h1
          λ u e1 h2.
            from_bind (raise_if (is_in (env.casefold person.display_name) names) value_error) h2
              λ v e2 h3.
                let name = env.casefold person.display_name in
                let after = put before person.person_id person in
                elim (people_section-from (name ∷ names) after people rest h3 id there) [
                  | inr later ↦ inr (has-later key fields rest (env.codec.print_uuid id) later)
                  | inl early ↦ has-put before rest key fields person.person_id id person e1 early
                ]

  -- The same for a Door.
  pub access_points_section-from :
      (before doors : Dict ℕ AccessPoint) (entries : Dict String Fields)
      → access_points_section env before entries ≡ ok doors
      → (id : ℕ) → has (get doors id) ≡ true
      → (has (get before id) ≡ true) ⊎ (has (get entries (env.codec.print_uuid id)) ≡ true)
  unfolding access_points_section
  access_points_section-from before doors [] h id there = inl (ground (arith, h, there))
  access_points_section-from before doors ((key, fields) ∷ rest) h id there =
      from_bind (raise_if _ value_error) h λ u e0 h0.
        from_bind (access_point_from_dict env.codec fields) h0 λ door e h1.
          from_bind (raise_if (not (env.codec.print_uuid door.id == key)) value_error) h1 λ v e1 h2.
            from_bind (raise_if (has (get before door.id)) value_error) h2 λ w e2 h3.
              elim (access_points_section-from (put before door.id door) doors rest h3 id there) [
                | inr later ↦ inr (has-later key fields rest (env.codec.print_uuid id) later)
                | inl early ↦ has-put before rest key fields door.id id door e1 early
              ]

  -- The same for the identifier of a schedule.
  pub schedules_section-from :
      (names : List String) (before ids : List ℕ) (entries : Dict String Fields)
      → schedules_section env names before entries ≡ ok ids
      → (id : ℕ) → is_number_in id ids ≡ true
      → (is_number_in id before ≡ true) ⊎ (has (get entries (env.codec.print_uuid id)) ≡ true)
  unfolding schedules_section get
  schedules_section-from names before ids [] h id there = inl (ground (arith, h, there))
  schedules_section-from names before ids ((key, fields) ∷ rest) h id there =
      from_bind (schedule_from_dict env.codec env.times env.zone_exists fields) h λ s e h0.
        from_bind (raise_if (not (env.codec.print_uuid s.schedule_id == key)) value_error) h0
          λ u e1 h1. from_bind (raise_if _ value_error) h1 λ v e2 h2.
            from_bind (raise_if (is_in (env.casefold s.name) names) value_error) h2 λ w e3 h3.
              elim (schedules_section-from (env.casefold s.name ∷ names) (s.schedule_id ∷ before)
                ids rest h3 id there) [
                  | inr later ↦ inr (has-later key fields rest (env.codec.print_uuid id) later)
                  | inl early ↦ elim (Bool-cases (s.schedule_id == id)) [
                    | inr other ↦ inl (rw other at early)
                    | inl same ↦ inr (stored_here s.schedule_id id key fields rest e1 same)
                  ]
                ]

  elsewhere :
      (own id : ℕ) (key : String)
      → raise_if (not (env.codec.print_uuid own == key)) value_error ≡ ok tt
      → (key == env.codec.print_uuid id) ≡ false
      → (own == id) ≡ false
  elsewhere own id key h other = elim (Bool-cases (own == id)) [
    | inr e ↦ e
    | inl same ↦
        let same_key =
          sym (keyed-eq own key h) ∙ ap env.codec.print_uuid ((nat_beq_iff own id).0 same) in
        absurd (ground (arith, (eq_iff key (env.codec.print_uuid id)).1 same_key, other))
  ]

  -- A Person of the dictionary so far stays there, if no later entry has the same key.
  people_section-keeps :
      (names : List String) (before people : Dict ℕ Person) (entries : Dict String Fields)
      → people_section env names before entries ≡ ok people
      → (id : ℕ) → get entries (env.codec.print_uuid id) ≡ none
      → get people id ≡ get before id
  unfolding people_section get
  people_section-keeps names before people [] h id gone = ground (arith, h)
  people_section-keeps names before people ((key, fields) ∷ rest) h id gone =
      from_bind (person_from_dict env.codec fields) h λ person e h1.
        from_bind (raise_if (not (env.codec.print_uuid person.person_id == key)) value_error) h1
          λ u e1 h2.
            from_bind (raise_if (is_in (env.casefold person.display_name) names) value_error) h2
              λ v e2 h3.
                let name = env.casefold person.display_name in
                let after = put before person.person_id person in
                let (other, gone') = get-cons_none key fields rest (env.codec.print_uuid id) gone in
                people_section-keeps (name ∷ names) after people rest h3 id gone'
                ∙ (get-put before person.person_id id person
                    ∙ rw (elsewhere person.person_id id key e1 other) refl)

  pub all_scheduled-get :
      (ids : List ℕ) (people : Dict ℕ Person) (id : ℕ) (person : Person)
      → all_scheduled env ids people ≡ true
      → get people id ≡ some person
      → is_number_in person.schedule_id ids ≡ true
  unfolding all_scheduled get
  all_scheduled-get ids [] id person h there = cc
  all_scheduled-get ids ((k, p) ∷ rest) id person h there =
      ground (arith, all_scheduled-get ids rest id person, h, there)

  -- What a loop over the people read of each entry.
  pub people_section-each :
      (names : List String) (before people : Dict ℕ Person) (entries : Dict String Fields)
      → Distinct entries
      → people_section env names before entries ≡ ok people
      → All
          (λ (e : String × Fields).
            (p : Person) × (person_from_dict env.codec e.1 ≡ ok p)
            × (env.codec.print_uuid p.person_id ≡ e.0)
            × (get people p.person_id ≡ some p))
          entries
  unfolding people_section
  people_section-each names before people [] distinct h = tt
  people_section-each names before people ((key, fields) ∷ rest) distinct h =
      from_bind (person_from_dict env.codec fields) h λ person e h1.
        from_bind (raise_if (not (env.codec.print_uuid person.person_id == key)) value_error) h1
          λ u e1 h2.
            from_bind (raise_if (is_in (env.casefold person.display_name) names) value_error) h2
              λ v e2 h3.
                let name = env.casefold person.display_name in
                let after = put before person.person_id person in
                let keyed = keyed-eq person.person_id key e1 in
                (
                  (
                    person,
                    e,
                    keyed,
                    people_section-keeps (name ∷ names) after people rest h3 person.person_id
                          (ap (get rest) keyed ∙ distinct.0)
                        ∙ get-put_self before person.person_id person,
                  ),
                  people_section-each (name ∷ names) after people rest distinct.1 h3,
                )

  related_parts :
      (people : Dict ℕ Person) (ids : List ℕ) (doors : Dict ℕ AccessPoint) (g : AccessGrant)
      (others : List AccessGrant)
      → all_related env people ids doors (g ∷ others) ≡ true
      → (has (get people g.person_id) ≡ true)
        × (is_number_in g.schedule_id ids ≡ true)
        × (has (get doors g.access_point_id) ≡ true)
        × (all_related env people ids doors others ≡ true)
  unfolding all_related
  related_parts people ids doors g others h = ground (arith, h)

  -- What the loop over the grants and the test of their references read of each entry.
  pub grants_section-each :
      (grant_ids : List ℕ) (grants : List AccessGrant) (entries : Dict String Fields)
      (people : Dict ℕ Person) (ids : List ℕ) (doors : Dict ℕ AccessPoint)
      → grants_section env grant_ids entries ≡ ok grants
      → all_related env people ids doors grants ≡ true
      → All
          (λ (e : String × Fields).
            (g : AccessGrant) × (access_grant_from_dict env.codec e.1 ≡ ok g)
            × (e.0 ≡ relationship_key env g.person_id g.access_point_id)
            × (has (get people g.person_id) ≡ true)
            × (is_number_in g.schedule_id ids ≡ true)
            × (has (get doors g.access_point_id) ≡ true))
          entries
  unfolding grants_section all_related
  grants_section-each grant_ids grants [] people ids doors h related = tt
  grants_section-each grant_ids grants ((key, fields) ∷ rest) people ids doors h related =
      from_bind (access_grant_from_dict env.codec fields) h λ g e h1.
        from_bind
          (raise_if (not (key == relationship_key env g.person_id g.access_point_id)) value_error)
          h1
          λ u e1 h2.
            from_bind (raise_if (is_number_in g.access_grant_id grant_ids) value_error) h2
              λ v e2 h3.
                from_bind (grants_section env (g.access_grant_id ∷ grant_ids) rest) h3
                  λ others e3 h4.
                    let related' =
                      ap (all_related env people ids doors) (ok-injective h4) ∙ related in
                    let parts = related_parts people ids doors g others related' in
                    (
                      (
                        g,
                        e,
                        (eq_iff key (relationship_key env g.person_id g.access_point_id)).0 (
                            not-false (
                              raise_if-ok
                                (not (key == relationship_key env g.person_id g.access_point_id))
                                e1)),
                        parts.0,
                        parts.1,
                        parts.2,
                      ),
                      grants_section-each (g.access_grant_id ∷ grant_ids) others rest people ids
                          doors e3 parts.3,
                    )
