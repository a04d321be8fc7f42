-- ===== src/Authorization/Service.antt =====
-- services/authorization.py: `AuthorizationService`, each call on one snapshot. `load` is what the
-- storage manager's `async_load` returns or raises; `lookup` is the optional Door lookup.
pub mod Sound
pub mod Matrix
use homepass.Prelude.{
  ℕ, ◌≡◌, Bool, true, false, not, Option, none, some, List, [], ◌∷◌, String, ◌==◌, nat_eq,
  if◌then◌else◌,
}
use homepass.Prelude.Result.{
  Error, Result, ok, err, authorization_invariant, authorization_context, access_point_not_found,
  raise_if, ◌>>=◌, ◌>>◌,
}
use homepass.Prelude.Instant.{Datetime, aware}
use homepass.Models.Json.{Codec}
use homepass.Models.Person.{Person}
use homepass.Models.Synchronization.{synchronized}
use homepass.Models.AccessGrant.{AccessGrant, access_grant_post_init}
use homepass.Models.AccessPoint.{AccessPoint}
use homepass.Schedule.Policy.{Schedule}
use homepass.Schedule.Stored.{TimeCodec}
use homepass.Schedule.Evaluation.{Zones}
use homepass.Authorization.Decision.{AuthorizationDecision, authorize_access}
use homepass.Authorization.Storage.{StorageData}
use homepass.Authorization.Snapshot.{Context, decode_person, decode_snapshot}

-- `AuthorizationRelationshipResult`
pub record RelationshipResult : Type 0 where
  pub person : Person
  pub access_point : AccessPoint
  pub schedule : Schedule
  pub decision : AuthorizationDecision

-- `AuthorizationAccessPointLookup`, as the calls on it return or raise
pub record Lookup : Type 0 where
  pub get_access_point : StorageData → ℕ → Result AccessPoint
  pub list_access_points : StorageData → Result (List AccessPoint)

-- The random identifier and the two clock readings with which a new grant is filled.
pub record Fresh : Type 0 where
  pub access_grant_id : ℕ
  pub created_at : ℕ
  pub updated_at : ℕ

-- `except AuthorizationInvariantError: raise`, any other exception becomes a context error
unfoldable pub sanitize {ℓ} : {A : Type ℓ} → Result A → Result A
sanitize (ok a) = ok a
sanitize (err authorization_invariant) = err authorization_invariant
sanitize (err e) = err authorization_context

-- The same for the lookup of one Door, which may also be missing.
unfoldable pub sanitize_lookup {ℓ} : {A : Type ℓ} → Bool → Result A → Result A
unfolding sanitize
sanitize_lookup any_managed (err access_point_not_found) =
    if any_managed then err authorization_context else err access_point_not_found
sanitize_lookup any_managed r = sanitize r

-- `_load_access_point`
unfoldable pub load_access_point : Option Lookup → StorageData → ℕ → Bool → Result AccessPoint
unfolding sanitize_lookup
load_access_point none snapshot access_point_id any_managed = err authorization_context
load_access_point (some lookup) snapshot access_point_id any_managed = do
  access_point ← sanitize_lookup any_managed (lookup.get_access_point snapshot access_point_id)
  raise_if (not (access_point.id == access_point_id)) authorization_context
  ok access_point

-- The in-memory grant of an NFC passage, where the snapshot has none.
unfoldable pub supplement : Bool → Fresh → ℕ → ℕ → Context → Result Context
supplement false fresh person_id access_point_id c = ok c
supplement true fresh person_id access_point_id c = elim c.access_grant [
  | some grant ↦ ok c
  | none ↦ do
    grant ← access_grant_post_init (record {
      access_grant_id = fresh.access_grant_id;
      person_id = person_id;
      credential_id = 0;
      access_point_id = access_point_id;
      schedule_id = c.person.schedule_id;
      enabled = true;
      synchronization_status = synchronized;
      created_at = aware fresh.created_at;
      updated_at = aware fresh.updated_at;
    })
    ok (record c { access_grant = some grant })
]

module _ (codec : Codec) (times : TimeCodec) (zones : Zones) where
  -- `_authorize_context`
  unfoldable pub authorize_context : Context → AccessPoint → Datetime → Result AuthorizationDecision
  authorize_context c access_point at =
      authorize_access zones c.person c.access_grant access_point c.access_point_managed c.schedule
        at

  -- `_resolve_person_for_access_point`
  unfoldable pub resolve :
      Result StorageData
      → Option Lookup
      → Fresh
      → Bool
      → ℕ
      → ℕ
      → Datetime
      → Result RelationshipResult
  unfolding authorize_context
  resolve load lookup fresh supplemental person_id access_point_id at = do
    snapshot ← sanitize load
    decoded ← decode_snapshot codec times zones.zone_exists snapshot person_id access_point_id
    c ← supplement supplemental fresh person_id access_point_id decoded
    access_point ← load_access_point lookup snapshot access_point_id c.access_point_managed
    decision ← authorize_context c access_point at
    ok (record {
      person = c.person;
      access_point = access_point;
      schedule = c.schedule;
      decision = decision;
    })
