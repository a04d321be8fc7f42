-- ===== src/Nfc/Repository/Removal/Kept.antt =====
-- What the operations before a deletion keep.
use homepass.Prelude.{
  ℕ, Bool, Bool-cases, true, false, ◌&&◌, Option, none, some, inl, inr, [], ◌∷◌, String, ◌==◌,
  string_eq, nat_eq, nat_beq, ◌≡◌, ◌⊎◌, refl, sym, ap, ◌∙◌, arith,
}
use homepass.Prelude.Result.{Result, ok, from_bind, ok-injective, Result-cases}
use homepass.Prelude.Dict.{Dict, get, remove, get-remove}
use homepass.Models.Json.{Value, Fields, dict, Codec}
use homepass.Nfc.Records.{Conversions}
use homepass.Nfc.Records.Tag.{
  NfcTag, tag_post_init, tag_to_dict, tag_from_dict, tag_post_init-last_counter,
  tag_from_dict-tag_to_dict,
}
use homepass.Nfc.Records.Enrollment.{EnrollmentInvite, invite_from_dict}
use homepass.Nfc.Records.Access.{
  NfcTestTag, test_tag_from_dict, NfcAccessGrant, nfc_grant_from_dict,
}
use homepass.Nfc.Repository.{NfcData, Repository, require_data, require_record}
use homepass.Nfc.Repository.Steps.{OnData}
use homepass.Nfc.Repository.Removal.{
  pop_matching, transact_changed, disable_passkeys, disable_tags, person_change, door_change,
}

get-removed :
    (entries : Dict String Value) (key k : String) (v : Value)
    → get (remove entries key) k ≡ some v
    → get entries k ≡ some v
get-removed entries key k v h = elim (Bool-cases (key == k)) [
  | inl same ↦ ground (arith, get-remove entries key k, same, h)
  | inr other ↦ ground (arith, get-remove entries key k, other, h)
]

-- What is left was there before.
pop_matching-get :
    {A : Type 0} (read : Fields → Result A) (matches : A → Bool) (k : String) (v : Value)
    (items entries left : Dict String Value) (n : ℕ)
    → pop_matching read matches items entries ≡ ok (left, n)
    → get left k ≡ some v
    → get entries k ≡ some v
unfolding pop_matching
pop_matching-get read matches k v [] entries left n h e =
    ap (λ (r : Dict String Value × ℕ). get r.0 k) (ok-injective h) ∙ e
pop_matching-get read matches k v ((key, dict fields) ∷ rest) entries left n h e =
    from_bind (read fields) h λ found e1 h1. elim (Bool-cases (matches found)) [
      | inl yes' ↦
          from_bind (pop_matching read matches rest (remove entries key)) (rw yes' at h1) λ r e2 h2.
            get-removed entries key k v (
              pop_matching-get read matches k v rest (remove entries key) r.0 r.1 e2
                (ap (λ (r : Dict String Value × ℕ). get r.0 k) (ok-injective h2) ∙ e))
      | inr no' ↦ pop_matching-get read matches k v rest entries left n (rw no' at h1) e
    ]
pop_matching-get read matches k v ((key, _) ∷ rest) entries left n h e =
    pop_matching-get read matches k v rest entries left n h e

pub transact_changed-OnData :
    (P : NfcData → Type 0) (saved : Result (Unit {0})) (r : Repository)
    (change : NfcData → Result (NfcData × ℕ))
    → OnData P r
    → ((d d' : NfcData) (n : ℕ) → P d → change d ≡ ok (d', n) → P d')
    → OnData P (transact_changed saved r change).0
unfolding transact_changed require_data OnData
transact_changed-OnData P saved none change h step = tt
transact_changed-OnData P saved (some d) change h step = elim (Result-cases (change d)) [
  | inr (x, e) ↦ rw (e, transact_changed) h
  | inl ((d', n), e) ↦ elim (Bool-cases (nat_beq n 0)) [
    | inl nothing ↦ rw (e, transact_changed, nothing) h
    | inr much ↦ elim (Result-cases saved) [
      | inl (u, s) ↦ rw (e, transact_changed, much, s) (step d d' n h e)
      | inr (x, s) ↦ rw (e, transact_changed, much, s) h
    ]
  ]
]

pub require_record-some :
    (o : Option Value) (fields : Fields) → require_record o ≡ ok fields → o ≡ some (dict fields)
unfolding require_record
require_record-some o fields h = ground arith

-- An entry of a dictionary is its first one, or a later one.
get-cons :
    (key k : String) (w v : Value) (rest left : Dict String Value)
    → (key, w) ∷ rest ≡ left
    → get left k ≡ some v
    → (((key == k) ≡ true) × (w ≡ v)) ⊎ (((key == k) ≡ false) × (get rest k ≡ some v))
unfolding get
get-cons key k w v rest left e h =
    let found = ap (λ (d : Dict String Value). get d k) e ∙ h in
    elim (Bool-cases (key == k)) [
      | inl same ↦ inl (same, ground (arith, rw same at found))
      | inr other ↦ inr (other, rw other at found)
    ]

dict-injective : {a b : Fields} → dict a ≡ dict b → a ≡ b
dict-injective h = cc

module _ (conversions : Conversions) (codec : Codec) where
  -- Where a stored tag comes from: a tag with the same counter.
  pub record Origin (entries : Dict String Value) (k : String) (t : NfcTag) : Type 0 where
    pub fields : Fields
    pub tag : NfcTag
    pub stored : get entries k ≡ some (dict fields)
    pub read : tag_from_dict conversions codec fields ≡ ok tag
    pub counter : t.last_counter ≡ tag.last_counter

  later :
      (key k : String) (v : Value) (rest : Dict String Value) (t : NfcTag)
      → (key == k) ≡ false
      → Origin rest k t
      → Origin ((key, v) ∷ rest) k t
  unfolding get
  later key k v rest t other o = record {
    fields = o.fields;
    tag = o.tag;
    stored = rw other o.stored;
    read = o.read;
    counter = o.counter;
  }

  disable_tags-Origin :
      (door : ℕ) (k : String) (entries left : Dict String Value) (n : ℕ) (fields' : Fields)
      (t : NfcTag)
      → disable_tags conversions codec door entries ≡ ok (left, n)
      → get left k ≡ some (dict fields')
      → tag_from_dict conversions codec fields' ≡ ok t
      → Origin entries k t
  unfolding disable_tags get
  disable_tags-Origin door k [] left n fields' t h e read =
      absurd (ground (arith, ap (λ (r : Dict String Value × ℕ). get r.0 k) (ok-injective h) ∙ e))
  disable_tags-Origin door k ((key, dict fields) ∷ rest) left n fields' t h e read =
      from_bind (tag_from_dict conversions codec fields) h λ found e1 h1.
        elim (Bool-cases (found.access_point_id == door && found.enabled)) [
          | inl yes' ↦
              from_bind (tag_post_init conversions codec (record found { enabled = false }))
                (rw yes' at h1)
                λ built e2 h2. from_bind (tag_to_dict conversions codec built) h2 λ written e3 h3.
                  from_bind (disable_tags conversions codec door rest) h3 λ r e4 h4.
                    elim (get-cons key k (dict written) (dict fields') r.0 left
                      (ap (λ (r : Dict String Value × ℕ). r.0) (ok-injective h4)) e) [
                        | inl (same, this) ↦ record {
                          fields = fields;
                          tag = found;
                          stored = rw same refl;
                          read = e1;
                          counter =
                              tag_from_dict-tag_to_dict conversions codec built t written e3
                                (ap (tag_from_dict conversions codec) (dict-injective this) ∙ read)
                              ∙ sym (
                                  tag_post_init-last_counter conversions codec
                                    (record found { enabled = false }) built e2);
                        }
                        | inr (other, found') ↦
                            later key k (dict fields) rest t other
                              (disable_tags-Origin door k rest r.0 r.1 fields' t e4 found' read)
                      ]
          | inr no' ↦ from_bind (disable_tags conversions codec door rest) (rw no' at h1) λ r e4 h4.
              elim (get-cons key k (dict fields) (dict fields') r.0 left
                (ap (λ (r : Dict String Value × ℕ). r.0) (ok-injective h4)) e) [
                  | inl (same, this) ↦ record {
                    fields = fields;
                    tag = t;
                    stored = rw same refl;
                    read = ap (tag_from_dict conversions codec) (dict-injective this) ∙ read;
                    counter = refl;
                  }
                  | inr (other, found') ↦
                      later key k (dict fields) rest t other
                        (disable_tags-Origin door k rest r.0 r.1 fields' t e4 found' read)
                ]
        ]
  disable_tags-Origin door k ((key, v) ∷ rest) left n fields' t h e read =
      from_bind (disable_tags conversions codec door rest) h λ r e4 h4.
        elim (get-cons key k v (dict fields') r.0 left
          (ap (λ (r : Dict String Value × ℕ). r.0) (ok-injective h4)) e) [
            | inl (same, this) ↦ record {
              fields = fields';
              tag = t;
              stored = rw (same, this) refl;
              read = read;
              counter = refl;
            }
            | inr (other, found') ↦
                later key k v rest t other
                  (disable_tags-Origin door k rest r.0 r.1 fields' t e4 found' read)
          ]

  -- A tag that is stored after the tags of a Door are disabled was stored before, with its counter.
  pub door_change-Origin :
      (door : ℕ) (d d' : NfcData) (n : ℕ) (k : String) (fields : Fields) (t : NfcTag)
      → door_change conversions codec door d ≡ ok (d', n)
      → get d'.tags k ≡ some (dict fields)
      → tag_from_dict conversions codec fields ≡ ok t
      → Origin d.tags k t
  unfolding door_change
  door_change-Origin door d d' n k fields t h e read =
      from_bind (disable_tags conversions codec door d.tags) h λ r e1 h1.
        from_bind
          (pop_matching (test_tag_from_dict conversions codec)
            (λ (tag : NfcTestTag). tag.access_point_id == door) d.test_tags d.test_tags)
          h1
          λ r2 e2 h2.
            from_bind
              (pop_matching (nfc_grant_from_dict conversions codec)
                (λ (grant : NfcAccessGrant). grant.access_point_id == door) d.access_grants
                d.access_grants)
              h2
              λ r3 e3 h3.
                disable_tags-Origin door k d.tags r.0 r.1 fields t e1
                  (ap (λ (x : NfcData × ℕ). get x.0.tags k) (ok-injective h3) ∙ e) read

  -- An invitation that is stored after a Person's credentials are disabled was stored before.
  pub person_change-invite :
      (person : ℕ) (d d' : NfcData) (n : ℕ) (k : String) (v : Value)
      → person_change conversions codec person d ≡ ok (d', n)
      → get d'.invites k ≡ some v
      → get d.invites k ≡ some v
  unfolding person_change
  person_change-invite person d d' n k v h e =
      from_bind (disable_passkeys conversions codec person d.credentials) h λ r e1 h1.
        from_bind
          (pop_matching (invite_from_dict conversions codec)
            (λ (invite : EnrollmentInvite). invite.person_id == person) d.invites d.invites)
          h1
          λ r2 e2 h2.
            from_bind
              (pop_matching (nfc_grant_from_dict conversions codec)
                (λ (grant : NfcAccessGrant). grant.person_id == person) d.access_grants
                d.access_grants)
              h2
              λ r3 e3 h3.
                pop_matching-get (invite_from_dict conversions codec)
                  (λ (invite : EnrollmentInvite). invite.person_id == person) k v d.invites
                  d.invites r2.0 r2.1 e2
                  (ap (λ (x : NfcData × ℕ). get x.0.invites k) (ok-injective h3) ∙ e)
