-- ===== src/Repositories/Doors/Unreferenced.antt =====
-- A Door's policy is deleted only if nothing refers to it.
use mathlib.Core.Path.{subst}
use homepass.Prelude.{
  ℕ, ◌≡◌, refl, sym, ap, ◌∙◌, Bool, true, false, Bool-cases, inl, inr, none, [], ◌∷◌, String, ◌==◌,
  string_eq, nat_eq, if◌then◌else◌, All, arith,
}
use homepass.Prelude.Result.{
  Result, ok, from_bind, ok-injective, access_point_policy_in_use, raise_if,
}
use homepass.Prelude.Dict.{Dict, get, remove, get-remove}
use homepass.Models.Json.{Fields, dict, get_field, put_field, remove_field}
use homepass.Models.AccessGrant.{access_grant_from_dict}
use homepass.Models.AccessMetadata.{access_metadata_from_dict}
use homepass.Models.LifecycleOperation.{lifecycle_operation_from_dict}
use homepass.Nfc.Records.{Conversions}
use homepass.Authorization.Storage.{StorageData}
use homepass.Storage.{Environment, has}
use homepass.Repositories.Doors.{
  contains_fields, contains_records, enrollments_of, is_managed, drop_fallback, any_grant_at,
  any_metadata_at, any_operation_on, has_durable_reference, forget_access_point,
  remove_access_point,
}

not_raised : (test : Bool) → raise_if test access_point_policy_in_use ≡ ok tt → test ≡ false
not_raised false h = refl
not_raised true h = cc

neither : (a b : Bool) → (if a then true else b) ≡ false → (a ≡ false) × (b ≡ false)
neither true b h = cc
neither false b h = (refl, h)

or_else-false :
    (b : Bool) (r : Result Bool)
    → (if b then ok true else r) ≡ ok false
    → (b ≡ false) × (r ≡ ok false)
or_else-false true r h = absurd (ground (arith, h))
or_else-false false r h = (refl, h)

module _ (env : Environment) (conversions : Conversions) where
  -- Every record of a collection can be read, and passes a test on what it is read as.
  abbrev pub AllRead : {A : Type 0} → (Fields → Result A) → (A → Bool) → Dict String Fields → Type 0
  AllRead {A} read test entries =
      All (λ (e : String × Fields). (a : A) × (read e.1 ≡ ok a) × (test a ≡ false)) entries

  any_grant_at-none :
      (id : ℕ) (entries : Dict String Fields)
      → any_grant_at env conversions id entries ≡ ok false
      → AllRead (access_grant_from_dict env.codec) (λ g. g.access_point_id == id) entries
  unfolding any_grant_at
  any_grant_at-none id [] h = tt
  any_grant_at-none id ((key, fields) ∷ rest) h =
      from_bind (access_grant_from_dict env.codec fields) h λ g e h1.
        elim (Bool-cases (g.access_point_id == id)) [
          | inl same ↦ absurd (ground (arith, rw same at h1))
          | inr other ↦ ((g, e, other), any_grant_at-none id rest (rw other at h1))
        ]

  any_metadata_at-none :
      (id : ℕ) (entries : Dict String Fields)
      → any_metadata_at env conversions id entries ≡ ok false
      → AllRead (access_metadata_from_dict env.codec) (λ m. m.access_point_id == id) entries
  unfolding any_metadata_at
  any_metadata_at-none id [] h = tt
  any_metadata_at-none id ((key, fields) ∷ rest) h =
      from_bind (access_metadata_from_dict env.codec fields) h λ m e h1.
        elim (Bool-cases (m.access_point_id == id)) [
          | inl same ↦ absurd (ground (arith, rw same at h1))
          | inr other ↦ ((m, e, other), any_metadata_at-none id rest (rw other at h1))
        ]

  any_operation_on-none :
      (reference : String) (entries : Dict String Fields)
      → any_operation_on env conversions reference entries ≡ ok false
      → AllRead
          (lifecycle_operation_from_dict conversions env.codec)
          (λ o. contains_fields reference o.payload)
          entries
  unfolding any_operation_on
  any_operation_on-none reference [] h = tt
  any_operation_on-none reference ((key, fields) ∷ rest) h =
      from_bind (lifecycle_operation_from_dict conversions env.codec fields) h λ o e h1.
        elim (Bool-cases (contains_fields reference o.payload)) [
          | inl same ↦ absurd (ground (arith, rw same at h1))
          | inr other ↦ ((o, e, other), any_operation_on-none reference rest (rw other at h1))
        ]

  -- Nothing in a snapshot refers to a Door: no grant and no lock code is for it, no journalled
  -- operation names it in its payload, and neither do the properties.
  pub record Unreferenced (d : StorageData) (id : ℕ) : Type 0 where
    pub grants :
        AllRead (access_grant_from_dict env.codec) (λ g. g.access_point_id == id) d.access_grants
    pub metadata :
        AllRead
          (access_metadata_from_dict env.codec)
          (λ m. m.access_point_id == id)
          d.access_metadata
    pub operations :
        AllRead
          (lifecycle_operation_from_dict conversions env.codec)
          (λ o. contains_fields (env.codec.print_uuid id) o.payload)
          d.lifecycle_operations
    pub properties : contains_records (env.codec.print_uuid id) d.properties ≡ false

  has_durable_reference-none :
      (d : StorageData) (id : ℕ)
      → has_durable_reference env conversions d id ≡ ok false
      → Unreferenced d id
  unfolding has_durable_reference
  has_durable_reference-none d id h =
      let reference = env.codec.print_uuid id in
      from_bind (any_grant_at env conversions id d.access_grants) h λ granted e1 h1.
        from_bind
          (if granted then ok true else any_metadata_at env conversions id d.access_metadata) h1
          λ described e2 h2.
            from_bind
              (if described
                then ok true
                else any_operation_on env conversions reference d.lifecycle_operations)
              h2
              λ involved e3 h3.
                let i =
                  neither involved (contains_records reference d.properties) (ok-injective h3) in
                let o = or_else-false described _ (e3 ∙ ap ok i.0) in
                let m = or_else-false granted _ (e2 ∙ ap ok o.0) in
                record {
                  grants = any_grant_at-none id d.access_grants (e1 ∙ ap ok m.0);
                  metadata = any_metadata_at-none id d.access_metadata m.1;
                  operations = any_operation_on-none reference d.lifecycle_operations o.1;
                  properties = i.1;
                }

  forget_access_point-data :
      (key : String) (enrollments : Fields) (d left : StorageData)
      → forget_access_point env conversions key enrollments d ≡ ok left
      → (settings : Fields) × (record d {
        access_points = remove d.access_points key;
        settings = settings;
      }
          ≡ left)
  unfolding forget_access_point
  forget_access_point-data key enrollments d left h =
      from_bind
        (drop_fallback key
          (put_field d.settings "managed_access_points" (dict (remove_field enrollments key))))
        h λ settings e h1. (settings, ok-injective h1)

  -- A deletion that returns true has found the Door not managed. It leaves the Door without a record
  -- and without a reference: no grant, metadata or payload of a lifecycle operation, each as its
  -- record is read, and no property names it. The records of all other Doors stay.
  pub remove_access_point-Unreferenced :
      (id : ℕ) (d d' : StorageData)
      → remove_access_point env conversions id d ≡ ok (d', true)
      → Unreferenced d' id
        × ((key : String)
            → get d'.access_points key
              ≡ (if env.codec.print_uuid id == key then none else get d.access_points key))
        × ((enrollments : Fields)
            → enrollments_of d.settings ≡ ok enrollments
            → is_managed (get_field enrollments (env.codec.print_uuid id)) ≡ false)
  unfolding remove_access_point
  remove_access_point-Unreferenced id d d' h =
      let key = env.codec.print_uuid id in
      elim (Bool-cases (has (get d.access_points key))) [
        | inr absent ↦ absurd (ground (arith, rw absent at h))
        | inl present ↦ from_bind (enrollments_of d.settings) (rw present at h) λ enrollments e1 h1.
            from_bind (raise_if (is_managed (get_field enrollments key)) access_point_policy_in_use)
              h1
              λ u e2 h2.
                from_bind (has_durable_reference env conversions d id) h2 λ referenced e3 h3.
                  from_bind (raise_if referenced access_point_policy_in_use) h3 λ v e4 h4.
                    from_bind (forget_access_point env conversions key enrollments d) h4
                      λ left e5 h5.
                        let unreferenced =
                          has_durable_reference-none d id (e3 ∙ ap ok (not_raised referenced e4)) in
                        let (settings, forgot) =
                          forget_access_point-data key enrollments d left e5 in
                        let same =
                          forgot ∙ ap (λ (r : StorageData × Bool). r.0) (ok-injective h5) in
                        (
                          subst (λ (r : StorageData). Unreferenced r id) same
                              (record {
                                grants = unreferenced.grants;
                                metadata = unreferenced.metadata;
                                operations = unreferenced.operations;
                                properties = unreferenced.properties;
                              }),
                          λ k.
                              sym (ap (λ (r : StorageData). get r.access_points k) same)
                              ∙ get-remove d.access_points key k,
                          λ others e.
                              ap (λ (f : Fields). is_managed (get_field f key))
                                (ok-injective (sym e ∙ e1))
                              ∙ not_raised (is_managed (get_field enrollments key)) e2,
                        )
      ]
