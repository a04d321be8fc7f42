-- ===== src/Nfc/Records/Enrollment.antt =====
-- `EnrollmentInvite` and `PasskeyCredential` of nfc/models.py.
use homepass.Prelude.{
  ◌≡◌, ◌≢◌, sym, ap, ◌∙◌, arith, ℕ, Bool, true, false, not, ◌||◌, Option, none, some, String, ltb,
  nat_beq,
}
use homepass.Prelude.Result.{
  Result, ok, err, value_error, raise_if, ◌>>=◌, ◌>>◌, from_bind, ok-injective,
}
use homepass.Prelude.Int.{ℤ, pos, negsuc}
use homepass.Prelude.Text.{count_chars, is_empty, strip, text_leb}
use homepass.Prelude.Instant.{Datetime, instant}
use homepass.Models.Json.{Value, null, bool, int, str, Fields, end, field, get_field, Codec}
use homepass.Nfc.Records.{
  Conversions, item, item_or_none, strict_bool, is_urlsafe, is_hex, text_of, unless_null, timestamp,
  parse_timestamp, uuid_of,
}

pub record EnrollmentInvite : Type 0 where
  pub token_hash : String
  pub person_id : ℕ
  pub person_name : String
  pub expires_at : Datetime
  pub used_at : Option Datetime
  pub created_at : Datetime

-- `active`, at the clock's reading `now`: a constructed invite has an aware `expires_at`.
unfoldable pub is_active : ℕ → EnrollmentInvite → Bool
is_active now invite = elim invite.used_at [
  | none ↦ ltb now (instant invite.expires_at)
  | some u ↦ false
]

pub record PasskeyCredential : Type 0 where
  pub credential_id : String
  pub person_id : ℕ
  pub public_key : String
  pub sign_count : ℤ
  pub device_type : String
  pub backed_up : Bool
  pub enabled : Bool
  pub created_at : Datetime

-- count < 0
unfoldable pub is_negative : ℤ → Bool
is_negative (pos n) = false
is_negative (negsuc n) = true

-- `type(value) is int`, else the constructor's `ValueError`
unfoldable pub require_count : Value → Result ℤ
require_count (int n) = ok n
require_count _ = err value_error

module _ (conversions : Conversions) (codec : Codec) where
  unfoldable pub invite_post_init : EnrollmentInvite → Result EnrollmentInvite
  invite_post_init invite = do
    raise_if
        (not (nat_beq (count_chars invite.token_hash) 64)
          || not (is_hex (conversions.upper invite.token_hash)))
        value_error
    raise_if (is_empty (strip invite.person_name)) value_error
    created_at ← timestamp conversions codec invite.created_at
    expires_at ← timestamp conversions codec invite.expires_at
    raise_if (text_leb expires_at created_at) value_error
    elim invite.used_at [
      | none ↦ ok invite
      | some d ↦ do used_at ← timestamp conversions codec d; ok invite
    ]

  abbrev pub used_value : Option Datetime → Result Value
  used_value none = ok null
  used_value (some d) = do used_at ← timestamp conversions codec d; ok (str used_at)

  unfoldable pub invite_to_dict : EnrollmentInvite → Result Fields
  invite_to_dict invite = do
    expires_at ← timestamp conversions codec invite.expires_at
    used_at ← used_value invite.used_at
    created_at ← timestamp conversions codec invite.created_at
    ok (
        field "token_hash" (str invite.token_hash) (
          field "person_id" (str (codec.print_uuid invite.person_id)) (
            field "person_name" (str invite.person_name) (
              field "expires_at" (str expires_at)
                (field "used_at" used_at (field "created_at" (str created_at) end))))))

  unfoldable pub invite_from_dict : Fields → Result EnrollmentInvite
  invite_from_dict fields = do
    token_hash ← item fields "token_hash"
    person_id ← uuid_of conversions codec (← item fields "person_id")
    person_name ← item fields "person_name"
    expires_at ← parse_timestamp conversions codec (← item fields "expires_at")
    used_at ←
        unless_null conversions (parse_timestamp conversions codec) (item_or_none fields "used_at")
    created_at ← parse_timestamp conversions codec (← item fields "created_at")
    invite_post_init (record {
      token_hash = text_of conversions token_hash;
      person_id = person_id;
      person_name = text_of conversions person_name;
      expires_at = expires_at;
      used_at = used_at;
      created_at = created_at;
    })

  -- The integer of `sign_count` is tested first here; the other tests that fail with it raise the
  -- same `ValueError`.
  unfoldable pub credential_post_init : PasskeyCredential → Result PasskeyCredential
  credential_post_init c = do
    raise_if (not (is_urlsafe c.credential_id)) value_error
    raise_if (not (is_urlsafe c.public_key)) value_error
    raise_if (is_negative c.sign_count) value_error
    created_at ← timestamp conversions codec c.created_at
    ok c

  unfoldable pub credential_to_dict : PasskeyCredential → Result Fields
  credential_to_dict c = do
    created_at ← timestamp conversions codec c.created_at
    ok (
        field "credential_id" (str c.credential_id) (
          field "person_id" (str (codec.print_uuid c.person_id)) (
            field "public_key" (str c.public_key) (
              field "sign_count" (int c.sign_count) (
                field "device_type" (str c.device_type) (
                  field "backed_up" (bool c.backed_up) (
                    field "enabled" (bool c.enabled)
                      (field "created_at" (str created_at) end))))))))

  -- A `sign_count` that is no `int` is refused after the fields that raise other exceptions are read,
  -- as the constructor does.
  unfoldable pub credential_from_dict : Fields → Result PasskeyCredential
  credential_from_dict fields = do
    credential_id ← item fields "credential_id"
    person_id ← uuid_of conversions codec (← item fields "person_id")
    public_key ← item fields "public_key"
    sign_count ← item fields "sign_count"
    device_type ← item fields "device_type"
    backed_up ← strict_bool (← item fields "backed_up")
    enabled ← strict_bool (← item fields "enabled")
    created_at ← parse_timestamp conversions codec (← item fields "created_at")
    count ← require_count sign_count
    credential_post_init (record {
      credential_id = text_of conversions credential_id;
      person_id = person_id;
      public_key = text_of conversions public_key;
      sign_count = count;
      device_type = text_of conversions device_type;
      backed_up = backed_up;
      enabled = enabled;
      created_at = created_at;
    })

  pub invite_post_init-used_at :
      (invite built : EnrollmentInvite)
      → invite_post_init invite ≡ ok built
      → invite.used_at ≡ built.used_at
  unfolding invite_post_init
  invite_post_init-used_at invite built h = ground arith

  -- The use that is read is the one that is stored.
  invite_from_dict-used_at :
      (fields : Fields) (invite : EnrollmentInvite)
      → invite_from_dict fields ≡ ok invite
      → unless_null conversions (parse_timestamp conversions codec) (item_or_none fields "used_at")
        ≡ ok invite.used_at
  unfolding invite_from_dict
  invite_from_dict-used_at fields invite h = from_bind (item fields "token_hash") h (λ t _ h.
      from_bind (item fields "person_id") h (λ p _ h.
        from_bind (uuid_of conversions codec p) h (λ i _ h.
          from_bind (item fields "person_name") h (λ n _ h.
            from_bind (item fields "expires_at") h (λ e _ h.
              from_bind (parse_timestamp conversions codec e) h (λ x _ h.
                from_bind
                  (unless_null conversions (parse_timestamp conversions codec)
                    (item_or_none fields "used_at"))
                  h
                  (λ u used h. from_bind (item fields "created_at") h (λ c _ h.
                    from_bind (parse_timestamp conversions codec c) h
                      (λ d _ h. used ∙ ap ok (invite_post_init-used_at _ invite h))))))))))

  invite_to_dict-used_at :
      (invite : EnrollmentInvite) (fields : Fields)
      → invite_to_dict invite ≡ ok fields
      → used_value invite.used_at ≡ ok (item_or_none fields "used_at")
  unfolding invite_to_dict item_or_none get_field
  invite_to_dict-used_at invite fields h =
      from_bind (timestamp conversions codec invite.expires_at) h (λ e _ h.
        from_bind (used_value invite.used_at) h (λ u used h.
          from_bind (timestamp conversions codec invite.created_at) h
            (λ c _ h. used ∙ ap (λ f. ok (item_or_none f "used_at")) (ok-injective h))))

  used_value-used :
      (d : Datetime) (v : Value) (used : Option Datetime)
      → used_value (some d) ≡ ok v
      → unless_null conversions (parse_timestamp conversions codec) v ≡ ok used
      → used ≢ none
  unfolding timestamp
  used_value-used d v used h e = ground arith

  -- An invite that is written with a use is read as used.
  pub invite_from_dict-used :
      (invite read : EnrollmentInvite) (d : Datetime) (fields : Fields)
      → invite.used_at ≡ some d
      → invite_to_dict invite ≡ ok fields
      → invite_from_dict fields ≡ ok read
      → read.used_at ≢ none
  invite_from_dict-used invite read d fields u h e =
      used_value-used d (item_or_none fields "used_at") read.used_at
        (sym (ap used_value u) ∙ invite_to_dict-used_at invite fields h)
        (invite_from_dict-used_at fields read e)
