-- ===== src/Models/AccessPoint/Stored.antt =====
-- An `AccessPoint` survives its constructor and its stored form.
use homepass.Prelude.{◌<◌, ◌≤◌, ◌^◌, ◌≡◌, true, false, ◌⊎◌, arith, string_eq, eq_iff}
use homepass.Prelude.Result.{ok}
use homepass.Prelude.Text.{strip, is_empty, strip_idem}
use homepass.Prelude.Instant.{aware, instant, normalize_datetime}
use homepass.Models.Json.{get_field, Codec, parse_iso-print_iso}
use homepass.Models.AccessPoint.{
  AccessPoint, access_point_post_init, access_point_to_dict, access_point_from_dict,
}

-- What a successful construction has computed and tested.
pub record IsBuilt (raw p : AccessPoint) : Type 0 where
  pub name : p.display_name ≡ strip raw.display_name
  pub present : is_empty (strip raw.display_name) ≡ false
  pub created : p.created_at ≡ aware (instant raw.created_at)
  pub updated : p.updated_at ≡ aware (instant raw.updated_at)
  pub ordered : instant p.created_at ≤ instant p.updated_at
  pub action : (p.entry_action ≡ "unlock") ⊎ (p.entry_action ≡ "open")
  pub open_needs_permission : p.entry_action ≡ "open" → p.open_enabled ≡ true
  pub same_id : p.id ≡ raw.id
  pub same_enabled : p.enabled ≡ raw.enabled

-- A constructed Door has a stripped name that is not empty, aware times in order, the entry action
-- `unlock` or `open`, and the second only with the permission to open; the rest is as given.
pub access_point_post_init-IsBuilt :
    (raw p : AccessPoint) → access_point_post_init raw ≡ ok p → IsBuilt raw p
unfolding access_point_post_init normalize_datetime
access_point_post_init-IsBuilt raw p h =
    ground (arith, eq_iff raw.entry_action "open", eq_iff raw.entry_action "unlock")

access_point_post_init_idem :
    (raw p : AccessPoint) → access_point_post_init raw ≡ ok p → access_point_post_init p ≡ ok p
unfolding access_point_post_init normalize_datetime
access_point_post_init_idem raw p h = ground (arith, strip_idem raw.display_name)

module _ (codec : Codec) where
  -- The identifier and times of a Door are in the ranges of `UUID` and `datetime`.
  pub record InRange (p : AccessPoint) : Type 0 where
    pub id_fits : p.id < 2 ^ 128
    pub created_fits : instant p.created_at < codec.last_instant
    pub updated_fits : instant p.updated_at < codec.last_instant

  -- A Door that was built, with its identifier and times in range, is read back from its stored form.
  pub access_point_round_trip :
      (raw p : AccessPoint)
      → access_point_post_init raw ≡ ok p
      → InRange p
      → access_point_from_dict codec (access_point_to_dict codec p) ≡ ok p
  unfolding access_point_from_dict access_point_to_dict get_field
  access_point_round_trip raw p h r =
      let b = access_point_post_init-IsBuilt raw p h in
      rw
        (
          codec.uuid_round p.id r.id_fits,
          parse_iso-print_iso codec p.created_at b.created r.created_fits,
          parse_iso-print_iso codec p.updated_at b.updated r.updated_fits,
        )
        (access_point_post_init_idem raw p h)
