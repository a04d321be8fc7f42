-- ===== src/Nfc/Records/Tag.antt =====
-- `NfcTag` of nfc/models.py.
use homepass.Prelude.{
  ◌≡◌, refl, sym, ap, ◌∙◌, arith, ℕ, Bool, true, false, not, ◌&&◌, ◌||◌, Option, none, some, String,
  leb, nat_beq,
}
use homepass.Prelude.Result.{
  Result, ok, value_error, raise_if, ◌>>=◌, ◌>>◌, from_bind, ok-injective,
}
use homepass.Prelude.Int.{ℤ, pos, negsuc}
use homepass.Prelude.Text.{count_chars}
use homepass.Prelude.Instant.{Datetime}
use homepass.Models.Json.{Value, null, bool, int, str, Fields, end, field, get_field, Codec, get_or}
use homepass.Nfc.Records.{
  Conversions, item, item_or_none, strict_bool, is_urlsafe, is_hex, text_of, int_of, unless_null,
  timestamp, parse_timestamp, uuid_of, check_uuid,
}

pub record NfcTag : Type 0 where
  pub public_id : String
  pub uid_hex : String
  pub access_point_id : ℕ
  pub meta_key_credential_id : String
  pub file_key_credential_id : String
  pub enabled : Bool
  pub last_counter : Option ℤ
  pub created_at : Datetime
  pub admin_key_credential_id : Option String
  pub write_protected : Bool

-- not 0 <= counter <= 0xFFFFFF
unfoldable pub out_of_range : Option ℤ → Bool
out_of_range none = false
out_of_range (some (pos n)) = not (leb n 0xFFFFFF)
out_of_range (some (negsuc n)) = true

abbrev pub optional_text : Option String → Value
optional_text none = null
optional_text (some s) = str s

abbrev pub optional_int : Option ℤ → Value
optional_int none = null
optional_int (some n) = int n

module _ (conversions : Conversions) (codec : Codec) where
  unfoldable pub tag_post_init : NfcTag → Result NfcTag
  tag_post_init tag = do
    raise_if
        (not (leb 16 (count_chars tag.public_id) && leb (count_chars tag.public_id) 64)
          || not (is_urlsafe tag.public_id))
        value_error
    raise_if
        (not (nat_beq (count_chars tag.uid_hex) 14) || not (is_hex (conversions.upper tag.uid_hex)))
        value_error
    check_uuid conversions codec tag.meta_key_credential_id
    check_uuid conversions codec tag.file_key_credential_id
    elim tag.admin_key_credential_id [ none ↦ ok tt | some k ↦ check_uuid conversions codec k ]
    raise_if (out_of_range tag.last_counter) value_error
    created ← timestamp conversions codec tag.created_at
    ok tag

  unfoldable pub tag_to_dict : NfcTag → Result Fields
  tag_to_dict tag = do
    created ← timestamp conversions codec tag.created_at
    ok (
        field "public_id" (str tag.public_id) (
          field "uid_hex" (str (conversions.upper tag.uid_hex)) (
            field "access_point_id" (str (codec.print_uuid tag.access_point_id)) (
              field "meta_key_credential_id" (str tag.meta_key_credential_id) (
                field "file_key_credential_id" (str tag.file_key_credential_id) (
                  field "enabled" (bool tag.enabled) (
                    field "last_counter" (optional_int tag.last_counter) (
                      field "created_at" (str created) (
                        field "admin_key_credential_id" (optional_text tag.admin_key_credential_id)
                          (field "write_protected" (bool tag.write_protected) end))))))))))

  unfoldable pub tag_from_dict : Fields → Result NfcTag
  tag_from_dict fields = do
    public_id ← item fields "public_id"
    uid_hex ← item fields "uid_hex"
    access_point_id ← uuid_of conversions codec (← item fields "access_point_id")
    meta_key ← item fields "meta_key_credential_id"
    file_key ← item fields "file_key_credential_id"
    enabled ← strict_bool (← item fields "enabled")
    last_counter ← unless_null conversions (int_of conversions) (item_or_none fields "last_counter")
    created_at ← parse_timestamp conversions codec (← item fields "created_at")
    admin_key ←
        unless_null conversions (λ v. ok (text_of conversions v))
          (item_or_none fields "admin_key_credential_id")
    write_protected ← strict_bool (get_or fields "write_protected" (bool false))
    tag_post_init (record {
      public_id = text_of conversions public_id;
      uid_hex = conversions.upper (text_of conversions uid_hex);
      access_point_id = access_point_id;
      meta_key_credential_id = text_of conversions meta_key;
      file_key_credential_id = text_of conversions file_key;
      enabled = enabled;
      last_counter = last_counter;
      created_at = created_at;
      admin_key_credential_id = admin_key;
      write_protected = write_protected;
    })

  pub tag_post_init-last_counter :
      (tag built : NfcTag) → tag_post_init tag ≡ ok built → tag.last_counter ≡ built.last_counter
  unfolding tag_post_init
  tag_post_init-last_counter tag built h = ground arith

  -- The counter that is read is the one that is stored.
  tag_from_dict-last_counter :
      (fields : Fields) (tag : NfcTag)
      → tag_from_dict fields ≡ ok tag
      → unless_null conversions (int_of conversions) (item_or_none fields "last_counter")
        ≡ ok tag.last_counter
  unfolding tag_from_dict
  tag_from_dict-last_counter fields tag h = from_bind (item fields "public_id") h (λ p _ h.
      from_bind (item fields "uid_hex") h (λ u _ h.
        from_bind (item fields "access_point_id") h (λ a _ h.
          from_bind (uuid_of conversions codec a) h (λ i _ h.
            from_bind (item fields "meta_key_credential_id") h (λ m _ h.
              from_bind (item fields "file_key_credential_id") h (λ f _ h.
                from_bind (item fields "enabled") h (λ e _ h. from_bind (strict_bool e) h (λ b _ h.
                  from_bind
                    (unless_null conversions (int_of conversions)
                      (item_or_none fields "last_counter"))
                    h
                    (λ n counter h. from_bind (item fields "created_at") h (λ c _ h.
                      from_bind (parse_timestamp conversions codec c) h (λ d _ h.
                        from_bind
                          (unless_null conversions (λ v. ok (text_of conversions v))
                            (item_or_none fields "admin_key_credential_id"))
                          h
                          (λ k _ h.
                            from_bind (strict_bool (get_or fields "write_protected" (bool false))) h
                              (λ w _ h.
                                counter ∙ ap ok (tag_post_init-last_counter _ tag h))))))))))))))

  tag_to_dict-last_counter :
      (tag : NfcTag) (fields : Fields)
      → tag_to_dict tag ≡ ok fields
      → item_or_none fields "last_counter" ≡ optional_int tag.last_counter
  unfolding tag_to_dict item_or_none get_field
  tag_to_dict-last_counter tag fields h =
      from_bind (timestamp conversions codec tag.created_at) h
        (λ c _ h. ap (λ f. item_or_none f "last_counter") (sym (ok-injective h)))

  unless_null-optional_int :
      (o : Option ℤ) → unless_null conversions (int_of conversions) (optional_int o) ≡ ok o
  unfolding int_of
  unless_null-optional_int none = refl
  unless_null-optional_int (some n) = refl

  -- The counter of a tag that is written is read back.
  pub tag_from_dict-tag_to_dict :
      (tag read : NfcTag) (fields : Fields)
      → tag_to_dict tag ≡ ok fields
      → tag_from_dict fields ≡ ok read
      → read.last_counter ≡ tag.last_counter
  tag_from_dict-tag_to_dict tag read fields h e = ok-injective (
      sym (tag_from_dict-last_counter fields read e)
      ∙ ap (unless_null conversions (int_of conversions)) (tag_to_dict-last_counter tag fields h)
      ∙ unless_null-optional_int tag.last_counter)
