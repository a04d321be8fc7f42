-- ===== src/Nfc/Records/Access.antt =====
-- `NfcTestTag` and `NfcAccessGrant` of nfc/models.py.
use homepass.Prelude.{ℕ, Bool, not, ◌||◌, String, ltb, nat_beq}
use homepass.Prelude.Result.{Result, ok, value_error, raise_if, ◌>>=◌, ◌>>◌}
use homepass.Prelude.Text.{count_chars, text_leb}
use homepass.Prelude.Instant.{Datetime, instant}
use homepass.Models.Json.{Fields, Codec}
use homepass.Nfc.Records.{
  Conversions, item, strict_bool, is_hex, text_of, timestamp, parse_timestamp, uuid_of,
}

pub record NfcTestTag : Type 0 where
  pub token_hash : String
  pub access_point_id : ℕ
  pub enabled : Bool
  pub expires_at : Datetime
  pub created_at : Datetime

pub record NfcAccessGrant : Type 0 where
  pub person_id : ℕ
  pub access_point_id : ℕ
  pub created_at : Datetime
  pub updated_at : Datetime

module _ (conversions : Conversions) (codec : Codec) where
  unfoldable pub test_tag_post_init : NfcTestTag → Result NfcTestTag
  test_tag_post_init tag = do
    raise_if
        (not (nat_beq (count_chars tag.token_hash) 64)
          || not (is_hex (conversions.upper tag.token_hash)))
        value_error
    created_at ← timestamp conversions codec tag.created_at
    expires_at ← timestamp conversions codec tag.expires_at
    raise_if (text_leb expires_at created_at) value_error
    ok tag

  unfoldable pub test_tag_from_dict : Fields → Result NfcTestTag
  test_tag_from_dict fields = do
    token_hash ← item fields "token_hash"
    access_point_id ← uuid_of conversions codec (← item fields "access_point_id")
    enabled ← strict_bool (← item fields "enabled")
    expires_at ← parse_timestamp conversions codec (← item fields "expires_at")
    created_at ← parse_timestamp conversions codec (← item fields "created_at")
    test_tag_post_init (record {
      token_hash = text_of conversions token_hash;
      access_point_id = access_point_id;
      enabled = enabled;
      expires_at = expires_at;
      created_at = created_at;
    })

  unfoldable pub nfc_grant_post_init : NfcAccessGrant → Result NfcAccessGrant
  nfc_grant_post_init grant = do
    created ← timestamp conversions codec grant.created_at
    updated ← timestamp conversions codec grant.updated_at
    raise_if (ltb (instant grant.updated_at) (instant grant.created_at)) value_error
    ok grant

  unfoldable pub nfc_grant_from_dict : Fields → Result NfcAccessGrant
  nfc_grant_from_dict fields = do
    person_id ← uuid_of conversions codec (← item fields "person_id")
    access_point_id ← uuid_of conversions codec (← item fields "access_point_id")
    created_at ← parse_timestamp conversions codec (← item fields "created_at")
    updated_at ← parse_timestamp conversions codec (← item fields "updated_at")
    nfc_grant_post_init (record {
      person_id = person_id;
      access_point_id = access_point_id;
      created_at = created_at;
      updated_at = updated_at;
    })
