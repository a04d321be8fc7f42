-- ===== src/Nfc/Repository/Tags/Counter.antt =====
-- The read counters of tags: `claim_counter` among the other operations on tags.
use homepass.Prelude.{
  ℕ, Bool, true, false, Option, none, some, String, ◌≡◌, ◌≢◌, refl, sym, ap, ◌∙◌, inl, inr, arith,
  ◌==◌, string_eq, Bool-cases, eq_iff, if◌then◌else◌, not, nat_eq,
}
use homepass.Prelude.Result.{ok, err, nfc_repository_error, raise_if, from_bind, ok-injective}
use homepass.Prelude.Dict.{put, remove, get-put, get-remove}
use homepass.Prelude.Int.{ℤ, pos, negsuc}
use homepass.Models.Json.{Fields, dict, Codec}
use homepass.Nfc.Records.{Conversions}
use homepass.Nfc.Records.Tag.{
  NfcTag, tag_post_init, tag_to_dict, tag_from_dict, tag_post_init-last_counter,
  tag_from_dict-tag_to_dict,
}
use homepass.Nfc.Repository.{NfcData, require_record}
use homepass.Nfc.Repository.Tags.{
  int_leb, is_replay, find_tag, store_tag, find_door_tag, replace_tag, upsert_change,
  enabled_change, delete_change, claim_change, admin_key_change, protected_change,
}

pub int_leb_refl : (a : ℤ) → int_leb a a ≡ true
unfolding int_leb
int_leb_refl (pos a) = ground arith
int_leb_refl (negsuc a) = ground arith

int_leb_trans : (a b c : ℤ) → int_leb a b ≡ true → int_leb b c ≡ true → int_leb a c ≡ true
unfolding int_leb
int_leb_trans a b c h k = ground arith

is_replay_trans :
    (a b : ℤ) (last : Option ℤ)
    → int_leb a b ≡ true
    → is_replay b last ≡ true
    → is_replay a last ≡ true
unfolding is_replay
is_replay_trans a b none h k = k
is_replay_trans a b (some c) h k = int_leb_trans a b c h k

int_leb_total : (a b : ℤ) → int_leb a b ≡ false → int_leb b a ≡ true
unfolding int_leb
int_leb_total a b h = ground arith

module _ (conversions : Conversions) (codec : Codec) (k : String) (c : ℤ) where
  -- A tag that is stored under the public ID has a counter of `c` or later.
  unfoldable pub IsSpent : NfcData → Type 0
  IsSpent d =
      (tag : NfcTag) → find_tag conversions codec d k ≡ ok tag → is_replay c tag.last_counter ≡ true

  find_tag-put :
      (d : NfcData) (p : String) (fields : Fields)
      → find_tag conversions codec (record d { tags = put d.tags p (dict fields) }) k ≡ (
          if p == k then tag_from_dict conversions codec fields else find_tag conversions codec d k)
  unfolding find_tag require_record
  find_tag-put d p fields = elim (Bool-cases (p == k)) [
    | inl same ↦ rw (get-put, same) refl
    | inr other ↦ rw (get-put, other) refl
  ]

  differs : (p : String) → (p == k) ≡ false → p ≢ k
  differs p h e = ground (arith, eq_iff p k)

  store_tag-IsSpent :
      (d d' : NfcData) (p : String) (tag : NfcTag)
      → (p ≢ k → IsSpent d)
      → (p ≡ k → is_replay c tag.last_counter ≡ true)
      → store_tag conversions codec d p tag ≡ ok d'
      → IsSpent d'
  unfolding store_tag IsSpent
  store_tag-IsSpent d d' p tag spent here h read e =
      from_bind (tag_to_dict conversions codec tag) h (λ fields stored h.
        let found =
          sym (find_tag-put d p fields)
          ∙ ap (λ x. find_tag conversions codec x k) (ok-injective h)
          ∙ e in
        elim (Bool-cases (p == k)) [
          | inl same ↦
              rw
                (tag_from_dict-tag_to_dict conversions codec tag read fields stored
                  (ground (arith, found, same)))
                (here ((eq_iff p k).0 same))
          | inr other ↦ spent (differs p other) read (ground (arith, found, other))
        ])

  replace_tag-IsSpent :
      (d d' : NfcData) (p : String) (changed updated : NfcTag)
      → (p ≢ k → IsSpent d)
      → (p ≡ k → is_replay c changed.last_counter ≡ true)
      → replace_tag conversions codec d p changed ≡ ok (d', updated)
      → IsSpent d'
  unfolding replace_tag
  replace_tag-IsSpent d d' p changed updated spent here h =
      from_bind (tag_post_init conversions codec changed) h (λ built init h.
        from_bind (store_tag conversions codec d p built) h (λ d'' stored h.
          store_tag-IsSpent d d' p built spent
            (λ e.
              rw (sym (tag_post_init-last_counter conversions codec changed built init)) (here e))
            (stored ∙ ap (λ x. elim x [ ok y ↦ ok y.0 | err e ↦ err e ]) h)))

  found-IsSpent :
      (d : NfcData) (p : String) (tag : NfcTag)
      → IsSpent d
      → find_tag conversions codec d p ≡ ok tag
      → p ≡ k
      → is_replay c tag.last_counter ≡ true
  unfolding IsSpent
  found-IsSpent d p tag spent found e = spent tag (rw (sym e) found)

  find_door_tag-found :
      (d : NfcData) (p : String) (door : ℕ) (tag : NfcTag)
      → find_door_tag conversions codec d p door ≡ ok tag
      → find_tag conversions codec d p ≡ ok tag
  unfolding find_door_tag
  find_door_tag-found d p door tag h = ground arith

  pub enabled_change-IsSpent :
      (d d' : NfcData) (p : String) (door : ℕ) (b : Bool) (t : NfcTag)
      → IsSpent d
      → enabled_change conversions codec p door b d ≡ ok (d', t)
      → IsSpent d'
  unfolding enabled_change
  enabled_change-IsSpent d d' p door b t spent h =
      from_bind (find_door_tag conversions codec d p door) h (λ tag found h.
        replace_tag-IsSpent d d' p (record tag { enabled = b }) t (λ ne. spent)
          (found-IsSpent d p tag spent (find_door_tag-found d p door tag found)) h)

  pub admin_key_change-IsSpent :
      (d d' : NfcData) (p : String) (door : ℕ) (key : String) (t : NfcTag)
      → IsSpent d
      → admin_key_change conversions codec p door key d ≡ ok (d', t)
      → IsSpent d'
  unfolding admin_key_change
  admin_key_change-IsSpent d d' p door key t spent h =
      from_bind (find_door_tag conversions codec d p door) h (λ tag found h.
        replace_tag-IsSpent d d' p (record tag { admin_key_credential_id = some key }) t
          (λ ne. spent) (found-IsSpent d p tag spent (find_door_tag-found d p door tag found)) h)

  pub protected_change-IsSpent :
      (d d' : NfcData) (p : String) (door : ℕ) (t : NfcTag)
      → IsSpent d
      → p ≢ k
      → protected_change conversions codec p door d ≡ ok (d', t)
      → IsSpent d'
  unfolding protected_change
  protected_change-IsSpent d d' p door t spent other h =
      from_bind (find_door_tag conversions codec d p door) h (λ tag found h.
        from_bind
          (elim tag.admin_key_credential_id [ none ↦ err nfc_repository_error | some key ↦ ok tt ])
          h
          (λ (u : Unit {0}) _ h.
            replace_tag-IsSpent d d' p (record tag { last_counter = none; write_protected = true })
              t (λ ne. spent) (λ e. ground arith) h))

  pub upsert_change-IsSpent :
      (d d' : NfcData) (tag : NfcTag) (u : Unit {0})
      → IsSpent d
      → tag.public_id ≢ k
      → upsert_change conversions codec tag d ≡ ok (d', u)
      → IsSpent d'
  unfolding upsert_change
  upsert_change-IsSpent d d' tag u spent other h =
      from_bind (store_tag conversions codec d tag.public_id tag) h (λ d'' stored h.
        store_tag-IsSpent d d' tag.public_id tag (λ ne. spent) (λ e. ground arith)
          (stored ∙ ap (λ x. elim x [ ok y ↦ ok y.0 | err e ↦ err e ]) h))

  find_tag-remove :
      (d : NfcData) (p : String) (read : NfcTag)
      → find_tag conversions codec (record d { tags = remove d.tags p }) k ≡ ok read
      → find_tag conversions codec d k ≡ ok read
  unfolding find_tag require_record
  find_tag-remove d p read h = elim (Bool-cases (p == k)) [
    | inl same ↦ ground (arith, get-remove d.tags p k, same, h)
    | inr other ↦ ground (arith, get-remove d.tags p k, other, h)
  ]

  pub delete_change-IsSpent :
      (d d' : NfcData) (p : String) (door : ℕ) (t : NfcTag)
      → IsSpent d
      → delete_change conversions codec p door d ≡ ok (d', t)
      → IsSpent d'
  unfolding delete_change IsSpent
  delete_change-IsSpent d d' p door t spent h read e =
      from_bind (find_door_tag conversions codec d p door) h (λ tag found h. spent read (
        find_tag-remove d p read (ap (λ x. find_tag conversions codec x.0 k) (ok-injective h) ∙ e)))

  -- An accepted claim of a counter is spent, or keeps what was spent.
  pub claim_change-IsSpent :
      (d d' : NfcData) (p : String) (n : ℤ) (t : NfcTag)
      → (p ≢ k → IsSpent d)
      → (p ≡ k → int_leb c n ≡ true)
      → claim_change conversions codec p n d ≡ ok (d', t)
      → IsSpent d'
  unfolding claim_change is_replay
  claim_change-IsSpent d d' p n t spent here h =
      from_bind (find_tag conversions codec d p) h (λ tag found h.
        from_bind (raise_if (not tag.enabled) nfc_repository_error) h (λ u _ h.
          from_bind (raise_if (is_replay n tag.last_counter) nfc_repository_error) h (λ u' _ h.
            replace_tag-IsSpent d d' p (record tag { last_counter = some n }) t spent here h)))

  -- A counter that an accepted claim passes was greater than the spent one.
  pub claim_change-later :
      (d d' : NfcData) (p : String) (n : ℤ) (t : NfcTag)
      → IsSpent d
      → p ≡ k
      → claim_change conversions codec p n d ≡ ok (d', t)
      → int_leb n c ≡ false
  unfolding claim_change
  claim_change-later d d' p n t spent e h =
      from_bind (find_tag conversions codec d p) h (λ tag found h.
        from_bind (raise_if (not tag.enabled) nfc_repository_error) h (λ u _ h.
          from_bind (raise_if (is_replay n tag.last_counter) nfc_repository_error) h (λ u' fresh h.
            elim (Bool-cases (int_leb n c)) [
              | inl before ↦ ground (
                arith,
                is_replay_trans n c tag.last_counter before (found-IsSpent d p tag spent found e),
                fresh,
              )
              | inr after ↦ after
            ])))

  pub claim_change-keeps :
      (d d' : NfcData) (p : String) (n : ℤ) (t : NfcTag)
      → IsSpent d
      → claim_change conversions codec p n d ≡ ok (d', t)
      → IsSpent d'
  claim_change-keeps d d' p n t spent h =
      claim_change-IsSpent d d' p n t (λ ne. spent)
        (λ e. int_leb_total n c (claim_change-later d d' p n t spent e h)) h
