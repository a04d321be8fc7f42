-- ===== src/Repositories/Grants/Refinement.antt =====
-- The access grant repository as a map from relationships to grants.
use homepass.Prelude.{
  ℕ, ◌≡◌, refl, sym, ap, ◌∙◌, not, Bool-cases, inl, inr, Option, none, some, [], ◌∷◌, String, ◌==◌,
  string_eq, eq_iff, if◌then◌else◌, All,
}
use homepass.Prelude.Result.{Result, ok, err, from_bind, ok-injective, storage_error, raise_if}
use homepass.Prelude.Dict.{
  Dict, Distinct, get, put, remove, get-put, get-remove, put-Distinct, remove-Distinct,
}
use homepass.Models.Json.{Fields}
use homepass.Models.AccessGrant.{
  AccessGrant, access_grant_post_init, access_grant_to_dict, access_grant_from_dict,
}
use homepass.Models.AccessGrant.Stored.{InRange, access_grant_round_trip}
use homepass.Authorization.Storage.{StorageData}
use homepass.Storage.{Environment, relationship_key}
use homepass.Repositories.Grants.{deserialize_records, keep_identity, upsert_grant, remove_grant}
use homepass.Repositories.Grants.Identity.{keep_identity-fields}

-- What the repository stands for: a grant, or none, for each relationship key.
abbrev pub Relationships : Type 0
Relationships = String → Option AccessGrant

-- What a record is read as.
abbrev pub read_grant : Result AccessGrant → Option AccessGrant
read_grant (err e) = none
read_grant (ok g) = some g

module _ (env : Environment) where
  -- The grant of an entry, or the one that was read before.
  abbrev pub decoded_or : Option Fields → Option AccessGrant → Option AccessGrant
  decoded_or none before = before
  decoded_or (some fields) before = read_grant (access_grant_from_dict env.codec fields)

  -- An entry that the repository accepts.
  abbrev pub Readable : String × Fields → Type 0
  Readable e =
      (g : AccessGrant) × (access_grant_from_dict env.codec e.1 ≡ ok g)
      × (relationship_key env g.person_id g.access_point_id ≡ e.0)

  -- The stored grants are valid, and stand for the given map.
  pub record Represents (d : StorageData) (f : Relationships) : Type 0 where
    pub readable : All Readable d.access_grants
    pub distinct : Distinct d.access_grants
    pub view : (key : String) → decoded_or (get d.access_grants key) none ≡ f key

  deserialize_records-returns :
      (before : Dict String AccessGrant) (entries : Dict String Fields)
      → All Readable entries
      → (records : Dict String AccessGrant) × (deserialize_records env before entries ≡ ok records)
  unfolding deserialize_records
  deserialize_records-returns before [] h = (before, refl)
  deserialize_records-returns before ((key, fields) ∷ rest) ((g, e, keyed), h) =
      let same = (eq_iff (relationship_key env g.person_id g.access_point_id) key).1 keyed in
      let (records, ih) = deserialize_records-returns (put before key g) rest h in
      (records, rw (e, same) ih)

  deserialize_records-view :
      (before records : Dict String AccessGrant) (entries : Dict String Fields)
      → Distinct entries
      → deserialize_records env before entries ≡ ok records
      → (k : String) → get records k ≡ decoded_or (get entries k) (get before k)
  unfolding deserialize_records get
  deserialize_records-view before records [] distinct h k =
      ap (λ (r : Dict String AccessGrant). get r k) (sym (ok-injective h))
  deserialize_records-view before records ((key, fields) ∷ rest) distinct h k =
      from_bind (access_grant_from_dict env.codec fields) h λ g e h1.
        from_bind
          (raise_if (not (relationship_key env g.person_id g.access_point_id == key)) storage_error)
          h1
          λ u e1 h2.
            let ih = deserialize_records-view (put before key g) records rest distinct.1 h2 k in
            elim (Bool-cases (key == k)) [
              | inl same ↦
                  let gone = ap (get rest) (sym ((eq_iff key k).0 same)) ∙ distinct.0 in
                  ih ∙ rw (gone, get-put before key k g, same, e) refl
              | inr other ↦ ih ∙ rw (get-put before key k g, other) refl
            ]

  -- The map with an entry replaced, and without one.
  abbrev pub assign : Relationships → String → Option AccessGrant → Relationships
  assign f key value = λ k. if key == k then value else f k

  All-put :
      (entries : Dict String Fields) (key : String) (fields : Fields)
      → Readable (key, fields)
      → All Readable entries
      → All Readable (put entries key fields)
  unfolding put
  All-put [] key fields r h = (r, tt)
  All-put ((k, w) ∷ rest) key fields r h = elim (Bool-cases (k == key)) [
    | inl same ↦ rw same ((r.0, r.1, r.2 ∙ sym ((eq_iff k key).0 same)), h.1)
    | inr other ↦ rw other (h.0, All-put rest key fields r h.1)
  ]

  All-remove :
      (entries : Dict String Fields) (key : String)
      → All Readable entries
      → All Readable (remove entries key)
  unfolding remove
  All-remove [] key h = tt
  All-remove ((k, w) ∷ rest) key h = elim (Bool-cases (k == key)) [
    | inl same ↦ rw same (All-remove rest key h.1)
    | inr other ↦ rw other (h.0, All-remove rest key h.1)
  ]

  keep_identity-built :
      (existing : Option AccessGrant) (raw grant next : AccessGrant)
      → access_grant_post_init raw ≡ ok grant
      → keep_identity env existing grant ≡ ok next
      → (source : AccessGrant) × (access_grant_post_init source ≡ ok next)
  unfolding keep_identity
  keep_identity-built none raw grant next built h = (raw, built ∙ h)
  keep_identity-built (some existing) raw grant next built h = (_, h)

  put_view :
      (entries : Dict String Fields) (f : Relationships) (key : String) (stored : Fields)
      (next : AccessGrant)
      → ((k : String) → decoded_or (get entries k) none ≡ f k)
      → access_grant_from_dict env.codec stored ≡ ok next
      → (k : String) → decoded_or (get (put entries key stored) k) none ≡ assign f key (some next) k
  put_view entries f key stored next view trip k = elim (Bool-cases (key == k)) [
    | inl same ↦ rw (get-put entries key k stored, same, trip) refl
    | inr other ↦ rw (get-put entries key k stored, other) (view k)
  ]

  remove_view :
      (entries : Dict String Fields) (f : Relationships) (key : String)
      → ((k : String) → decoded_or (get entries k) none ≡ f k)
      → (k : String) → decoded_or (get (remove entries key) k) none ≡ assign f key none k
  remove_view entries f key view k = elim (Bool-cases (key == k)) [
    | inl same ↦ rw (get-remove entries key k, same) refl
    | inr other ↦ rw (get-remove entries key k, other) (view k)
  ]

  -- `upsert` refines the replacement of one entry of the map: where the stored grants stand for a map,
  -- the given grant was built, and the grant that keeps the identity of the map's entry is in the range of
  -- the stored form, the mutator returns that grant, and what it has stored stands for the map with that
  -- grant under the relationship's key.
  pub upsert_grant-refines :
      (d : StorageData) (f : Relationships) (raw grant next : AccessGrant)
      → Represents d f
      → access_grant_post_init raw ≡ ok grant
      → keep_identity env (f (relationship_key env grant.person_id grant.access_point_id)) grant
        ≡ ok next
      → InRange env.codec next
      → (d' : StorageData) × (upsert_grant env grant d ≡ ok (d', next))
        × Represents d'
            (assign f (relationship_key env grant.person_id grant.access_point_id) (some next))
  unfolding upsert_grant get
  upsert_grant-refines d f raw grant next r built kept range =
      let key = relationship_key env grant.person_id grant.access_point_id in
      let (records, read) = deserialize_records-returns [] d.access_grants r.readable in
      let same =
        deserialize_records-view [] records d.access_grants r.distinct read key ∙ r.view key in
      let (source, source_built) = keep_identity-built (f key) raw grant next built kept in
      let trip = access_grant_round_trip env.codec source next source_built range in
      let fields = keep_identity-fields env (f key) grant next kept in
      let stored = access_grant_to_dict env.codec next in
      (
        record d { access_grants = put d.access_grants key stored },
        rw (read, same, kept) refl,
        record {
          readable =
              All-put d.access_grants key stored
                (
                  next,
                  trip,
                  ap (λ p. relationship_key env p next.access_point_id) fields.0
                      ∙ ap (relationship_key env grant.person_id) fields.1,
                )
                r.readable;
          distinct = put-Distinct d.access_grants key stored r.distinct;
          view = λ k. put_view d.access_grants f key stored next r.view trip k;
        },
      )

  -- `remove` refines the removal of one entry of the map: it returns, and where the stored grants stood
  -- for a map, they stand for that map with no grant under the relationship's key.
  pub remove_grant-refines :
      (d : StorageData) (f : Relationships) (person_id access_point_id : ℕ)
      → Represents d f
      → (d' : StorageData) × (remove_grant env person_id access_point_id d ≡ ok (d', tt))
        × Represents d' (assign f (relationship_key env person_id access_point_id) none)
  unfolding remove_grant
  remove_grant-refines d f person_id access_point_id r =
      let key = relationship_key env person_id access_point_id in
      (
        record d { access_grants = remove d.access_grants key },
        refl,
        record {
          readable = All-remove d.access_grants key r.readable;
          distinct = remove-Distinct d.access_grants key r.distinct;
          view = λ k. remove_view d.access_grants f key r.view k;
        },
      )
