-- ===== src/Models/Person/Stored.antt =====
-- A `Person` survives its constructor and its stored form.
use homepass.Prelude.{◌<◌, ◌≤◌, ◌^◌, ◌≡◌, refl, false, Option, none, some, String, string_eq, arith}
use homepass.Prelude.Result.{ok}
use homepass.Prelude.Text.{strip, is_empty, strip_idem}
use homepass.Prelude.Instant.{aware, instant, normalize_datetime}
use homepass.Models.Json.{get_field, Codec, optional_string, parse_iso-print_iso}
use homepass.Models.Person.{
  Person, clean_description, too_long, person_post_init, optional, person_to_dict, person_from_dict,
}

-- What a successful construction has computed and tested.
pub record IsBuilt (raw p : Person) : Type 0 where
  pub name : p.display_name ≡ strip raw.display_name
  pub present : is_empty (strip raw.display_name) ≡ false
  pub description : p.description ≡ clean_description raw.description
  pub short : too_long (clean_description raw.description) ≡ false
  pub created : p.created_at ≡ aware (instant raw.created_at)
  pub updated : p.updated_at ≡ aware (instant raw.updated_at)
  pub ordered : instant raw.created_at ≤ instant raw.updated_at
  pub same_id : p.person_id ≡ raw.person_id
  pub same_schedule : p.schedule_id ≡ raw.schedule_id
  pub same_enabled : p.enabled ≡ raw.enabled
  pub same_notes : p.notes ≡ raw.notes

pub person_post_init-IsBuilt : (raw p : Person) → person_post_init raw ≡ ok p → IsBuilt raw p
unfolding person_post_init normalize_datetime
person_post_init-IsBuilt raw p h = ground arith

clean_description_idem :
    (o : Option String) → clean_description (clean_description o) ≡ clean_description o
unfolding clean_description
clean_description_idem none = refl
clean_description_idem (some s) = ground (arith, strip_idem s)

-- Building a person again from a person that was built changes nothing.
pub person_post_init_idem :
    (raw p : Person) → person_post_init raw ≡ ok p → person_post_init p ≡ ok p
unfolding person_post_init normalize_datetime
person_post_init_idem raw p h = ground (
  arith,
  person_post_init-IsBuilt raw p h,
  strip_idem raw.display_name,
  clean_description_idem raw.description,
)

optional_string-optional : (o : Option String) → optional_string (optional o) ≡ ok o
unfolding optional_string optional
optional_string-optional none = refl
optional_string-optional (some s) = refl

module _ (codec : Codec) where
  -- The identifiers and times of a person are in the ranges of `UUID` and `datetime`.
  pub record InRange (p : Person) : Type 0 where
    pub id_fits : p.person_id < 2 ^ 128
    pub schedule_fits : p.schedule_id < 2 ^ 128
    pub created_fits : instant p.created_at < codec.last_instant
    pub updated_fits : instant p.updated_at < codec.last_instant

  -- A person that was built, with identifiers and times in range, is read back from its stored form.
  pub person_round_trip :
      (raw p : Person)
      → person_post_init raw ≡ ok p
      → InRange p
      → person_from_dict codec (person_to_dict codec p) ≡ ok p
  unfolding person_from_dict person_to_dict get_field
  person_round_trip raw p h r =
      let b = person_post_init-IsBuilt raw p h in
      rw
        (
          codec.uuid_round p.person_id r.id_fits,
          codec.uuid_round p.schedule_id r.schedule_fits,
          parse_iso-print_iso codec p.created_at b.created r.created_fits,
          parse_iso-print_iso codec p.updated_at b.updated r.updated_fits,
          optional_string-optional p.description,
          optional_string-optional p.notes,
        )
        (person_post_init_idem raw p h)
