-- ===== src/Nfc/Repository/Tags.antt =====
-- The operations of `NfcAccessRepository` on physical tags.
pub mod Counter
pub mod Replay
use homepass.Prelude.{
  ℕ, Bool, true, false, not, Option, none, some, String, leb, nat_beq, ◌==◌, string_eq, nat_eq,
}
use homepass.Prelude.Result.{Result, ok, err, nfc_repository_error, raise_if, ◌>>=◌, ◌>>◌}
use homepass.Prelude.Dict.{get, put, remove}
use homepass.Prelude.Int.{ℤ, pos, negsuc}
use homepass.Models.Json.{dict, Codec}
use homepass.Nfc.Records.{Conversions}
use homepass.Nfc.Records.Tag.{NfcTag, tag_post_init, tag_to_dict, tag_from_dict}
use homepass.Nfc.Repository.{NfcData, Repository, require_data, require_record, transact}

-- a <= b
unfoldable pub int_leb : ℤ → ℤ → Bool
int_leb (pos a) (pos b) = leb a b
int_leb (pos a) (negsuc b) = false
int_leb (negsuc a) (pos b) = true
int_leb (negsuc a) (negsuc b) = leb b a

-- tag.last_counter is not None and counter <= tag.last_counter
unfoldable pub is_replay : ℤ → Option ℤ → Bool
is_replay counter none = false
is_replay counter (some last) = int_leb counter last

module _ (conversions : Conversions) (codec : Codec) where
  -- The tag that is stored under a public ID.
  unfoldable pub find_tag : NfcData → String → Result NfcTag
  find_tag d public_id = do
    fields ← require_record (get d.tags public_id)
    tag_from_dict conversions codec fields

  -- data["tags"][public_id] = tag.to_dict()
  unfoldable pub store_tag : NfcData → String → NfcTag → Result NfcData
  store_tag d public_id tag = do
    fields ← tag_to_dict conversions codec tag
    ok (record d { tags = put d.tags public_id (dict fields) })

  -- The tag, which must be registered to the given Door.
  unfoldable pub find_door_tag : NfcData → String → ℕ → Result NfcTag
  find_door_tag d public_id access_point_id = do
    tag ← find_tag d public_id
    raise_if (not (tag.access_point_id == access_point_id)) nfc_repository_error
    ok tag

  -- A changed copy of a tag goes through the constructor, and takes the old one's place.
  unfoldable pub replace_tag : NfcData → String → NfcTag → Result (NfcData × NfcTag)
  replace_tag d public_id changed = do
    updated ← tag_post_init conversions codec changed
    d' ← store_tag d public_id updated
    ok (d', updated)

  unfoldable pub get_tag : Repository → String → Result NfcTag
  get_tag r public_id = do d ← require_data r; find_tag d public_id

  unfoldable pub upsert_change : NfcTag → NfcData → Result (NfcData × Unit {0})
  upsert_change tag d = do d' ← store_tag d tag.public_id tag; ok (d', tt)

  unfoldable pub upsert_tag :
      Result (Unit {0}) → Repository → NfcTag → Repository × Result (Unit {0})
  upsert_tag saved r tag = transact saved r (upsert_change tag)

  -- `_set_tag_enabled`, which `revoke_tag` and `reinstate_tag` call with `False` and `True`
  unfoldable pub enabled_change : String → ℕ → Bool → NfcData → Result (NfcData × NfcTag)
  enabled_change public_id access_point_id enabled d = do
    tag ← find_door_tag d public_id access_point_id
    replace_tag d public_id (record tag { enabled = enabled })

  unfoldable pub set_tag_enabled :
      Result (Unit {0}) → Repository → String → ℕ → Bool → Repository × Result NfcTag
  set_tag_enabled saved r public_id access_point_id enabled =
      transact saved r (enabled_change public_id access_point_id enabled)

  unfoldable pub delete_change : String → ℕ → NfcData → Result (NfcData × NfcTag)
  delete_change public_id access_point_id d = do
    tag ← find_door_tag d public_id access_point_id
    ok (record d { tags = remove d.tags public_id }, tag)

  unfoldable pub delete_tag :
      Result (Unit {0}) → Repository → String → ℕ → Repository × Result NfcTag
  delete_tag saved r public_id access_point_id =
      transact saved r (delete_change public_id access_point_id)

  unfoldable pub claim_change : String → ℤ → NfcData → Result (NfcData × NfcTag)
  claim_change public_id counter d = do
    tag ← find_tag d public_id
    raise_if (not tag.enabled) nfc_repository_error
    raise_if (is_replay counter tag.last_counter) nfc_repository_error
    replace_tag d public_id (record tag { last_counter = some counter })

  unfoldable pub claim_counter :
      Result (Unit {0}) → Repository → String → ℤ → Repository × Result NfcTag
  claim_counter saved r public_id counter = transact saved r (claim_change public_id counter)

  unfoldable pub admin_key_change : String → ℕ → String → NfcData → Result (NfcData × NfcTag)
  admin_key_change public_id access_point_id credential_id d = do
    tag ← find_door_tag d public_id access_point_id
    replace_tag d public_id (record tag { admin_key_credential_id = some credential_id })

  unfoldable pub set_tag_admin_key :
      Result (Unit {0}) → Repository → String → ℕ → String → Repository × Result NfcTag
  set_tag_admin_key saved r public_id access_point_id credential_id =
      transact saved r (admin_key_change public_id access_point_id credential_id)

  unfoldable pub protected_change : String → ℕ → NfcData → Result (NfcData × NfcTag)
  protected_change public_id access_point_id d = do
    tag ← find_door_tag d public_id access_point_id
    elim tag.admin_key_credential_id [ none ↦ err nfc_repository_error | some key ↦ ok tt ]
    replace_tag d public_id (record tag { last_counter = none; write_protected = true })

  unfoldable pub confirm_tag_write_protected :
      Result (Unit {0}) → Repository → String → ℕ → Repository × Result NfcTag
  confirm_tag_write_protected saved r public_id access_point_id =
      transact saved r (protected_change public_id access_point_id)
