-- ===== src/Repositories/People/Removed.antt =====
-- The cascade of a Person's removal.
use mathlib.Core.Path.{subst}
use homepass.Prelude.{
  ℕ, ◌≡◌, refl, sym, Bool, false, not, [], ◌∷◌, String, ◌==◌, string_eq, nat_eq, if◌then◌else◌,
  arith,
}
use homepass.Prelude.Result.{Result, ok, err, from_bind, ok-injective, person_not_found, raise_if}
use homepass.Prelude.Dict.{Dict, get, remove}
use homepass.Models.Json.{Fields}
use homepass.Models.AccessGrant.{AccessGrant, access_grant_from_dict}
use homepass.Models.AccessMetadata.{AccessMetadata, access_metadata_from_dict}
use homepass.Authorization.Storage.{StorageData}
use homepass.Storage.{Environment, has}
use homepass.Repositories.People.{deserialize_people, delete_grants, delete_metadata, remove_person}

-- The person of a record that can be read.
abbrev pub is_about {ℓ} : {A : Type ℓ} → (A → ℕ) → ℕ → Result A → Bool
is_about person_of person_id (err e) = false
is_about person_of person_id (ok a) = person_of a == person_id

-- The entries that are not about a Person, in their order.
abbrev pub others : (String → Fields → Bool) → Dict String Fields → Dict String Fields
others about [] = []
others about ((key, fields) ∷ rest) =
    let kept = others about rest in if about key fields then kept else (key, fields) ∷ kept

remove-others :
    (entries : Dict String Fields) (key : String)
    → remove entries key ≡ others (λ k fields. k == key) entries
unfolding remove
remove-others [] key = refl
remove-others ((k, fields) ∷ rest) key = rw (remove-others rest key) refl

module _ (env : Environment) where
  -- A grant of the Person, and metadata of the Person.
  abbrev pub grant_of : ℕ → String → Fields → Bool
  grant_of person_id key fields =
      is_about (λ (g : AccessGrant). g.person_id) person_id
        (access_grant_from_dict env.codec fields)

  abbrev pub metadata_of : ℕ → String → Fields → Bool
  metadata_of person_id key fields =
      is_about (λ (m : AccessMetadata). m.person_id) person_id
        (access_metadata_from_dict env.codec fields)

  delete_grants-others :
      (person_id : ℕ) (entries kept : Dict String Fields)
      → delete_grants env person_id entries ≡ ok kept
      → kept ≡ others (grant_of person_id) entries
  unfolding delete_grants
  delete_grants-others person_id [] kept h = sym (ok-injective h)
  delete_grants-others person_id ((key, fields) ∷ rest) kept h =
      from_bind (access_grant_from_dict env.codec fields) h λ g e h1.
        from_bind (delete_grants env person_id rest) h1 λ below e1 h2.
          let ih = delete_grants-others person_id rest below e1 in ground (arith, h2, e, ih)

  delete_metadata-others :
      (person_id : ℕ) (entries kept : Dict String Fields)
      → delete_metadata env person_id entries ≡ ok kept
      → kept ≡ others (metadata_of person_id) entries
  unfolding delete_metadata
  delete_metadata-others person_id [] kept h = sym (ok-injective h)
  delete_metadata-others person_id ((key, fields) ∷ rest) kept h =
      from_bind (access_metadata_from_dict env.codec fields) h λ m e h1.
        from_bind (delete_metadata env person_id rest) h1 λ below e1 h2.
          let ih = delete_metadata-others person_id rest below e1 in ground (arith, h2, e, ih)

  -- What a removal leaves.
  pub record Cascaded (person_id : ℕ) (d d' : StorageData) : Type 0 where
    pub grants : d'.access_grants ≡ others (grant_of person_id) d.access_grants
    pub metadata : d'.access_metadata ≡ others (metadata_of person_id) d.access_metadata
    pub credential :
        d'.credential_metadata
        ≡ others (λ key fields. key == env.codec.print_uuid person_id) d.credential_metadata
    pub people : d'.people ≡ others (λ key fields. key == env.codec.print_uuid person_id) d.people
    pub doors : d'.access_points ≡ d.access_points
    pub schedules : d'.schedules ≡ d.schedules
    pub operations : d'.lifecycle_operations ≡ d.lifecycle_operations
    pub properties : d'.properties ≡ d.properties
    pub settings : d'.settings ≡ d.settings

  -- A Person that is removed takes along what depends on it: the grants and the metadata that are read
  -- as the Person's, and the credential metadata and the record under its key are gone; all other entries
  -- of these four collections stay in their order; and the Doors, the schedules, the lifecycle
  -- operations, the properties and the settings stay as they are.
  pub remove_person-Cascaded :
      (person_id : ℕ) (d d' : StorageData)
      → remove_person env person_id d ≡ ok (d', tt)
      → Cascaded person_id d d'
  unfolding remove_person
  remove_person-Cascaded person_id d d' h =
      from_bind (deserialize_people env [] d.people) h λ people e h1.
        from_bind (raise_if (not (has (get people person_id))) person_not_found) h1 λ u e1 h2.
          from_bind (delete_grants env person_id d.access_grants) h2 λ grants e2 h3.
            from_bind (delete_metadata env person_id d.access_metadata) h3 λ metadata e3 h4.
              subst (λ (r : StorageData × Unit {0}). Cascaded person_id d r.0) (ok-injective h4)
                (record {
                  grants = delete_grants-others person_id d.access_grants grants e2;
                  metadata = delete_metadata-others person_id d.access_metadata metadata e3;
                  credential = remove-others d.credential_metadata (env.codec.print_uuid person_id);
                  people = remove-others d.people (env.codec.print_uuid person_id);
                  doors = refl;
                  schedules = refl;
                  operations = refl;
                  properties = refl;
                  settings = refl;
                })
