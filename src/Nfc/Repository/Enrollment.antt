-- ===== src/Nfc/Repository/Enrollment.antt =====
-- The operations of `NfcAccessRepository` on invitations and passkeys. `hash_token` is a parameter,
-- and so are the readings of the clock.
pub mod Once
use homepass.Prelude.{
  ℕ, Bool, true, false, not, ◌&&◌, ◌||◌, Option, none, some, String, ◌==◌, string_eq, nat_eq,
}
use homepass.Prelude.Result.{Result, ok, err, nfc_repository_error, raise_if, ◌>>=◌, ◌>>◌}
use homepass.Prelude.Dict.{get, put}
use homepass.Prelude.Int.{ℤ}
use homepass.Prelude.Instant.{aware}
use homepass.Models.Json.{Value, dict, Codec}
use homepass.Nfc.Records.{Conversions}
use homepass.Nfc.Records.Enrollment.{
  EnrollmentInvite, is_active, invite_post_init, invite_to_dict, invite_from_dict,
  PasskeyCredential, credential_post_init, credential_to_dict, credential_from_dict,
}
use homepass.Nfc.Repository.{NfcData, Repository, require_data, require_record, transact}
use homepass.Nfc.Repository.Tags.{int_leb}

abbrev pub is_present : Option Value → Bool
is_present none = false
is_present (some v) = true

module _ (conversions : Conversions) (codec : Codec) where
  unfoldable pub find_invite : NfcData → String → Result EnrollmentInvite
  find_invite d token_hash = do
    fields ← require_record (get d.invites token_hash)
    invite_from_dict conversions codec fields

  -- data["invites"][token_hash] = invite.to_dict()
  unfoldable pub store_invite : NfcData → String → EnrollmentInvite → Result NfcData
  store_invite d token_hash invite = do
    fields ← invite_to_dict conversions codec invite
    ok (record d { invites = put d.invites token_hash (dict fields) })

  unfoldable pub find_credential : NfcData → String → Result PasskeyCredential
  find_credential d credential_id = do
    fields ← require_record (get d.credentials credential_id)
    credential_from_dict conversions codec fields

  -- data["credentials"][credential_id] = credential.to_dict()
  unfoldable pub store_credential : NfcData → String → PasskeyCredential → Result NfcData
  store_credential d credential_id credential = do
    fields ← credential_to_dict conversions codec credential
    ok (record d { credentials = put d.credentials credential_id (dict fields) })

  unfoldable pub invite_change : EnrollmentInvite → NfcData → Result (NfcData × Unit {0})
  invite_change invite d = do d' ← store_invite d invite.token_hash invite; ok (d', tt)

  unfoldable pub create_invite :
      Result (Unit {0}) → Repository → EnrollmentInvite → Repository × Result (Unit {0})
  create_invite saved r invite = transact saved r (invite_change invite)

  unfoldable pub get_credential : Repository → String → Result PasskeyCredential
  get_credential r credential_id = do
    d ← require_data r
    credential ← find_credential d credential_id
    raise_if (not credential.enabled) nfc_repository_error
    ok credential

  unfoldable pub sign_count_change : String → ℤ → NfcData → Result (NfcData × Unit {0})
  sign_count_change credential_id sign_count d = do
    item ← find_credential d credential_id
    raise_if (not (int_leb item.sign_count sign_count)) nfc_repository_error
    updated ← credential_post_init conversions codec (record item { sign_count = sign_count })
    d' ← store_credential d credential_id updated
    ok (d', tt)

  unfoldable pub update_sign_count :
      Result (Unit {0}) → Repository → String → ℤ → Repository × Result (Unit {0})
  update_sign_count saved r credential_id sign_count =
      transact saved r (sign_count_change credential_id sign_count)

  module _ (hash_token : String → String) where
    unfoldable pub get_active_invite : Repository → ℕ → String → Result EnrollmentInvite
    get_active_invite r now raw_token = do
      d ← require_data r
      invite ← find_invite d (hash_token raw_token)
      raise_if (not (is_active now invite)) nfc_repository_error
      ok invite

    unfoldable pub enrollment_change :
        ℕ → ℕ → String → PasskeyCredential → NfcData → Result (NfcData × Unit {0})
    enrollment_change now used_at raw_token credential d = do
      invite ← find_invite d (hash_token raw_token)
      raise_if (not (is_active now invite) || not (invite.person_id == credential.person_id))
          nfc_repository_error
      raise_if (is_present (get d.credentials credential.credential_id)) nfc_repository_error
      enrolled ← store_credential d credential.credential_id credential
      used ← invite_post_init conversions codec (record invite { used_at = some (aware used_at) })
      d' ← store_invite enrolled (hash_token raw_token) used
      ok (d', tt)

    unfoldable pub complete_enrollment :
        Result (Unit {0})
        → Repository
        → ℕ
        → ℕ
        → String
        → PasskeyCredential
        → Repository × Result (Unit {0})
    complete_enrollment saved r now used_at raw_token credential =
        transact saved r (enrollment_change now used_at raw_token credential)
