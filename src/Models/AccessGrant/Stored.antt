-- ===== src/Models/AccessGrant/Stored.antt =====
-- An `AccessGrant` survives its constructor and its stored form.
use homepass.Prelude.{◌<◌, ◌≤◌, ◌^◌, ◌≡◌, arith}
use homepass.Prelude.Result.{ok}
use homepass.Prelude.Instant.{aware, instant, normalize_datetime}
use homepass.Models.Json.{get_field, Codec, parse_iso-print_iso}
use homepass.Models.Synchronization.{status_of-status_value}
use homepass.Models.AccessGrant.{
  AccessGrant, access_grant_post_init, access_grant_to_dict, access_grant_from_dict,
}

-- What a successful construction has computed and tested.
pub record IsBuilt (raw g : AccessGrant) : Type 0 where
  pub created : g.created_at ≡ aware (instant raw.created_at)
  pub updated : g.updated_at ≡ aware (instant raw.updated_at)
  pub ordered : instant raw.created_at ≤ instant raw.updated_at

access_grant_post_init-IsBuilt :
    (raw g : AccessGrant) → access_grant_post_init raw ≡ ok g → IsBuilt raw g
unfolding access_grant_post_init normalize_datetime
access_grant_post_init-IsBuilt raw g h = ground arith

access_grant_post_init_idem :
    (raw g : AccessGrant) → access_grant_post_init raw ≡ ok g → access_grant_post_init g ≡ ok g
unfolding access_grant_post_init normalize_datetime
access_grant_post_init_idem raw g h = ground arith

module _ (codec : Codec) where
  -- The identifiers and times of a grant are in the ranges of `UUID` and `datetime`.
  pub record InRange (g : AccessGrant) : Type 0 where
    pub grant_fits : g.access_grant_id < 2 ^ 128
    pub person_fits : g.person_id < 2 ^ 128
    pub credential_fits : g.credential_id < 2 ^ 128
    pub access_point_fits : g.access_point_id < 2 ^ 128
    pub schedule_fits : g.schedule_id < 2 ^ 128
    pub created_fits : instant g.created_at < codec.last_instant
    pub updated_fits : instant g.updated_at < codec.last_instant

  -- A grant that was built, with identifiers and times in range, is read back from its stored form.
  pub access_grant_round_trip :
      (raw g : AccessGrant)
      → access_grant_post_init raw ≡ ok g
      → InRange g
      → access_grant_from_dict codec (access_grant_to_dict codec g) ≡ ok g
  unfolding access_grant_from_dict access_grant_to_dict get_field
  access_grant_round_trip raw g h r =
      let b = access_grant_post_init-IsBuilt raw g h in
      rw
        (
          codec.uuid_round g.access_grant_id r.grant_fits,
          codec.uuid_round g.person_id r.person_fits,
          codec.uuid_round g.credential_id r.credential_fits,
          codec.uuid_round g.access_point_id r.access_point_fits,
          codec.uuid_round g.schedule_id r.schedule_fits,
          parse_iso-print_iso codec g.created_at b.created r.created_fits,
          parse_iso-print_iso codec g.updated_at b.updated r.updated_fits,
          status_of-status_value g.synchronization_status,
        )
        (access_grant_post_init_idem raw g h)
