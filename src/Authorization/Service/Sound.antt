-- ===== src/Authorization/Service/Sound.antt =====
-- What `AuthorizationService` promises of a resolved relationship.
use homepass.Prelude.{
  ℕ, ◌≡◌, ◌∙◌, ap, sym, ◌⊎◌, inl, inr, Option-cases, ◌≢◌, Bool, true, false, Option, none, some,
  nat_eq, arith,
}
use homepass.Prelude.Result.{Result, ok, >>=-eq-ok}
use homepass.Prelude.Instant.{Datetime}
use homepass.Models.Json.{Codec}
use homepass.Models.Person.{Person}
use homepass.Models.AccessGrant.{AccessGrant, access_grant_post_init}
use homepass.Models.AccessPoint.{AccessPoint}
use homepass.Schedule.Stored.{TimeCodec}
use homepass.Schedule.Evaluation.{Zones}
use homepass.Authorization.Decision.{
  allowed, policy_conflict, validate_invariants, authorize_access, Entitled, no_grant-denied,
  authorize_access-allowed_iff,
}
use homepass.Authorization.Storage.{StorageData}
use homepass.Authorization.Snapshot.{Context, decode_snapshot}
use homepass.Authorization.Snapshot.Consistent.{IsConsistent, decode_snapshot-IsConsistent}
use homepass.Authorization.Service.{
  RelationshipResult, Lookup, Fresh, sanitize, load_access_point, supplement, authorize_context,
  resolve,
}

module _ (codec : Codec) (times : TimeCodec) (zones : Zones) where
  load_access_point-id :
      (lookup : Option Lookup) (snapshot : StorageData) (id : ℕ) (managed : Bool) (p : AccessPoint)
      → load_access_point lookup snapshot id managed ≡ ok p
      → p.id ≡ id
  unfolding load_access_point
  load_access_point-id none snapshot id managed p h = cc
  load_access_point-id (some lookup) snapshot id managed p h = ground arith

  -- Filling in a grant keeps a context consistent.
  supplement-IsConsistent :
      (supplemental : Bool) (fresh : Fresh) (person_id access_point_id : ℕ) (c d : Context)
      → IsConsistent c person_id access_point_id
      → supplement supplemental fresh person_id access_point_id c ≡ ok d
      → IsConsistent d person_id access_point_id
  unfolding supplement access_grant_post_init
  supplement-IsConsistent false fresh person_id access_point_id c d h e = ground arith
  supplement-IsConsistent true fresh person_id access_point_id c d h e = ground arith

  -- In a consistent context the policy engine finds neither a broken invariant nor a conflict.
  consistent_decision :
      (person_id access_point_id : ℕ) (c : Context) (p : AccessPoint) (at : Datetime)
      → IsConsistent c person_id access_point_id
      → p.id ≡ access_point_id
      → (validate_invariants c.person c.access_grant p c.schedule ≡ ok tt)
        × (authorize_context codec times zones c p at ≢ ok policy_conflict)
  unfolding validate_invariants authorize_context authorize_access
  consistent_decision person_id access_point_id c p at h e = ground arith

  -- Where the grant of a context comes from: the snapshot, or the NFC passage.
  abbrev pub Source : Bool → Context → AccessGrant → Type 0
  Source supplemental decoded grant =
      (decoded.access_grant ≡ some grant)
      ⊎ ((supplemental ≡ true)
          × (decoded.access_grant ≡ none)
          × (grant.schedule_id ≡ decoded.person.schedule_id))

  supplement-Source :
      (supplemental : Bool) (fresh : Fresh) (person_id access_point_id : ℕ) (c d : Context)
      (g : AccessGrant)
      → supplement supplemental fresh person_id access_point_id c ≡ ok d
      → d.access_grant ≡ some g
      → Source supplemental c g
  unfolding supplement access_grant_post_init
  supplement-Source false fresh person_id access_point_id c d g h e = ground arith
  supplement-Source true fresh person_id access_point_id c d g h e = ground arith

  -- Filling in a grant changes nothing else.
  record SameBut (c d : Context) : Type 0 where
    person : d.person ≡ c.person
    schedule : d.schedule ≡ c.schedule
    managed : d.access_point_managed ≡ c.access_point_managed

  supplement-SameBut :
      (supplemental : Bool) (fresh : Fresh) (person_id access_point_id : ℕ) (c d : Context)
      → supplement supplemental fresh person_id access_point_id c ≡ ok d
      → SameBut c d
  unfolding supplement access_grant_post_init
  supplement-SameBut false fresh person_id access_point_id c d h = ground arith
  supplement-SameBut true fresh person_id access_point_id c d h = ground arith

  -- What a call that returns has gone through.
  record Steps (load : Result StorageData) (lookup : Option Lookup) (fresh : Fresh)
      (supplemental : Bool) (person_id access_point_id : ℕ) (at : Datetime) (r : RelationshipResult)
      : Type 0 where
    snapshot : StorageData
    loaded : sanitize load ≡ ok snapshot
    decoded : Context
    got :
        decode_snapshot codec times zones.zone_exists snapshot person_id access_point_id
        ≡ ok decoded
    c : Context
    supplemented : supplement supplemental fresh person_id access_point_id decoded ≡ ok c
    found :
        load_access_point lookup snapshot access_point_id c.access_point_managed ≡ ok r.access_point
    decided : authorize_context codec times zones c r.access_point at ≡ ok r.decision
    same_person : r.person ≡ c.person
    same_schedule : r.schedule ≡ c.schedule

  module _ (load : Result StorageData) (lookup : Option Lookup) (fresh : Fresh)
      (supplemental : Bool) (person_id access_point_id : ℕ) (at : Datetime)
      (r : RelationshipResult) where
    resolve-Steps :
        resolve codec times zones load lookup fresh supplemental person_id access_point_id at ≡ ok r
        → Steps load lookup fresh supplemental person_id access_point_id at r
    unfolding resolve
    resolve-Steps h =
        let (snapshot, loaded, h₁) = >>=-eq-ok (sanitize load) _ h in
        let (decoded, got, h₂) =
          >>=-eq-ok
            (decode_snapshot codec times zones.zone_exists snapshot person_id access_point_id) _
            h₁ in
        let (c, supplemented, h₃) =
          >>=-eq-ok (supplement supplemental fresh person_id access_point_id decoded) _ h₂ in
        let (p, found, h₄) =
          >>=-eq-ok (load_access_point lookup snapshot access_point_id c.access_point_managed) _
            h₃ in
        let (d, decided, made) = >>=-eq-ok (authorize_context codec times zones c p at) _ h₄ in
        record {
          snapshot = snapshot;
          loaded = loaded;
          decoded = decoded;
          got = got;
          c = c;
          supplemented = supplemented;
          found = ground (arith, made, found);
          decided = ground (arith, made, decided);
          same_person = ground (arith, made);
          same_schedule = ground (arith, made);
        }

    -- A resolved relationship is the one that was asked for, and never ends in a policy conflict.
    pub resolve_sound :
        resolve codec times zones load lookup fresh supplemental person_id access_point_id at ≡ ok r
        → (r.person.person_id ≡ person_id)
          × (r.access_point.id ≡ access_point_id)
          × (r.decision ≢ policy_conflict)
    resolve_sound h =
        let st = resolve-Steps h in
        let fits =
          supplement-IsConsistent supplemental fresh person_id access_point_id st.decoded st.c
            (decode_snapshot-IsConsistent codec times zones.zone_exists st.snapshot person_id
              access_point_id st.decoded st.got)
            st.supplemented in
        let door =
          load_access_point-id lookup st.snapshot access_point_id st.c.access_point_managed
            r.access_point st.found in
        (
          rw st.same_person fits.this_person,
          door,
          λ e.
              (consistent_decision person_id access_point_id st.c r.access_point at fits door).1
                (st.decided ∙ ap ok e),
        )

    -- What an allowed passage rests on: a stored grant, or for an NFC passage without one the
    -- Person's own schedule; and all that the policy engine tests.
    pub record Passage : Type 0 where
      pub snapshot : StorageData
      pub loaded : sanitize load ≡ ok snapshot
      pub decoded : Context
      pub got :
          decode_snapshot codec times zones.zone_exists snapshot person_id access_point_id
          ≡ ok decoded
      pub grant : AccessGrant
      pub source : Source supplemental decoded grant
      pub this_person : decoded.person.person_id ≡ person_id
      pub this_door : r.access_point.id ≡ access_point_id
      pub same_person : r.person ≡ decoded.person
      pub same_schedule : r.schedule ≡ decoded.schedule
      pub entitled :
          Entitled zones decoded.person grant r.access_point decoded.access_point_managed
            decoded.schedule at

    -- If access is allowed, then the context that is decoded from the snapshot has a grant, or the
    -- passage is an NFC one and its grant is under the schedule of the decoded Person. With that
    -- grant, the decoded Person, the grant and the Door are enabled, the Door is managed, and the
    -- decoded schedule is active at the instant. This Person and schedule are the ones returned, and
    -- the Person and the Door are those asked for.
    pub resolve-allowed :
        resolve codec times zones load lookup fresh supplemental person_id access_point_id at ≡ ok r
        → r.decision ≡ allowed
        → Passage
    unfolding authorize_context
    resolve-allowed h e =
        let st = resolve-Steps h in
        let allowed' = st.decided ∙ ap ok e in
        elim (Option-cases st.c.access_grant) [
          | inl missing ↦ absurd (
              cc (
                no_grant-denied zones st.c.person r.access_point st.c.access_point_managed
                  st.c.schedule at allowed (rw missing at allowed')))
          | inr (g, present) ↦
              let same =
                supplement-SameBut supplemental fresh person_id access_point_id st.decoded st.c
                  st.supplemented in
              record {
                snapshot = st.snapshot;
                loaded = st.loaded;
                decoded = st.decoded;
                got = st.got;
                grant = g;
                source =
                    supplement-Source supplemental fresh person_id access_point_id st.decoded st.c g
                      st.supplemented present;
                this_person =
                    ap (λ (p : Person). p.person_id) (sym (st.same_person ∙ same.person))
                    ∙ (resolve_sound h).0;
                this_door = (resolve_sound h).1;
                same_person = st.same_person ∙ same.person;
                same_schedule = st.same_schedule ∙ same.schedule;
                entitled =
                    rw (sym same.person, sym same.schedule, sym same.managed)
                      ((authorize_access-allowed_iff zones st.c.person g r.access_point
                          st.c.access_point_managed st.c.schedule at).0
                        (rw present at allowed'));
              }
        ]
