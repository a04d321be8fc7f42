-- ===== src/Repositories/Grants/Identity.antt =====
-- One grant for each relationship, which keeps its identity.
use mathlib.Core.Path.{subst}
use homepass.Prelude.{
  ◌≡◌, refl, sym, Option, none, some, String, ◌==◌, string_eq, if◌then◌else◌, arith, [],
}
use homepass.Prelude.Result.{ok, from_bind, ok-injective}
use homepass.Prelude.Dict.{Dict, get, get-put}
use homepass.Prelude.Instant.{instant, normalize_datetime}
use homepass.Models.AccessGrant.{AccessGrant, access_grant_post_init, access_grant_to_dict}
use homepass.Authorization.Storage.{StorageData}
use homepass.Storage.{Environment, relationship_key}
use homepass.Repositories.Grants.{deserialize_records, keep_identity, upsert_grant}

module _ (env : Environment) where
  -- What an upsert has stored: a grant for the same relationship and schedule, with the identifier and
  -- the creation time of the one that was there, or else the given one; nothing else has changed.
  pub record Upserted (d d' : StorageData) (grant result : AccessGrant)
      (records : Dict String AccessGrant) : Type 0 where
    pub same_relationship :
        (result.person_id ≡ grant.person_id) × (result.access_point_id ≡ grant.access_point_id)
    pub same_terms :
        (result.schedule_id ≡ grant.schedule_id)
        × (result.credential_id ≡ grant.credential_id)
        × (result.enabled ≡ grant.enabled)
    pub new :
        get records (relationship_key env grant.person_id grant.access_point_id) ≡ none
        → result ≡ grant
    pub kept :
        (existing : AccessGrant)
        → get records (relationship_key env grant.person_id grant.access_point_id) ≡ some existing
        → (result.access_grant_id ≡ existing.access_grant_id)
          × (instant result.created_at ≡ instant existing.created_at)
    pub stored :
        (key : String)
        → get d'.access_grants key ≡ (
            if relationship_key env grant.person_id grant.access_point_id == key
            then some (access_grant_to_dict env.codec result)
            else get d.access_grants key)
    pub people_same : d'.people ≡ d.people
    pub schedules_same : d'.schedules ≡ d.schedules

  pub keep_identity-fields :
      (existing : Option AccessGrant) (grant result : AccessGrant)
      → keep_identity env existing grant ≡ ok result
      → (result.person_id ≡ grant.person_id)
        × (result.access_point_id ≡ grant.access_point_id)
        × (result.schedule_id ≡ grant.schedule_id)
        × (result.credential_id ≡ grant.credential_id)
        × (result.enabled ≡ grant.enabled)
  unfolding keep_identity access_grant_post_init normalize_datetime
  keep_identity-fields none grant result h = ground (arith, h)
  keep_identity-fields (some existing) grant result h = ground (arith, h)

  keep_identity-kept :
      (existing grant result : AccessGrant)
      → keep_identity env (some existing) grant ≡ ok result
      → (result.access_grant_id ≡ existing.access_grant_id)
        × (instant result.created_at ≡ instant existing.created_at)
  unfolding keep_identity access_grant_post_init normalize_datetime
  keep_identity-kept existing grant result h = ground (arith, h)

  keep_identity-new :
      (grant result : AccessGrant) → keep_identity env none grant ≡ ok result → result ≡ grant
  unfolding keep_identity
  keep_identity-new grant result h = sym (ok-injective h)

  -- `upsert` keeps one grant for each relationship. Where it returns, the grants were valid; what it
  -- returns is stored under the relationship's key, with the terms of the given grant, and with the
  -- identifier and the creation time of the grant that stood there, if there was one; other grants, the
  -- people and the schedules stay.
  pub upsert_grant-Upserted :
      (d d' : StorageData) (grant result : AccessGrant)
      → upsert_grant env grant d ≡ ok (d', result)
      → (records : Dict String AccessGrant) × (deserialize_records env [] d.access_grants
          ≡ ok records)
        × Upserted d d' grant result records
  unfolding upsert_grant
  upsert_grant-Upserted d d' grant result h =
      from_bind (deserialize_records env [] d.access_grants) h λ records e h1.
        let key = relationship_key env grant.person_id grant.access_point_id in
        from_bind (keep_identity env (get records key) grant) h1 λ next e1 h2.
          let same = ok-injective h2 in
          let fields = keep_identity-fields (get records key) grant next e1 in
          (
            records,
            e,
            subst (λ (r : StorageData × AccessGrant). Upserted d r.0 grant r.1 records) same
                (record {
                  same_relationship = (fields.0, fields.1);
                  same_terms = (fields.2, fields.3, fields.4);
                  new = λ none_there. keep_identity-new grant next (rw none_there at e1);
                  kept = λ existing there. keep_identity-kept existing grant next (rw there at e1);
                  stored = λ k. get-put d.access_grants key k (access_grant_to_dict env.codec next);
                  people_same = refl;
                  schedules_same = refl;
                }),
          )
