-- ===== src/Nfc/Repository/Removal.antt =====
-- The operations of `NfcAccessRepository` before a Person or a Door is deleted.
pub mod Kept
use homepass.Prelude.{
  ℕ, suc, ◌+◌, Bool, false, ◌&&◌, some, [], ◌∷◌, String, ◌==◌, string_eq, nat_eq, nat_beq,
  if◌then◌else◌,
}
use homepass.Prelude.Result.{Result, ok, err, ◌>>=◌}
use homepass.Prelude.Dict.{Dict, remove}
use homepass.Models.Json.{Value, Fields, dict, Codec}
use homepass.Nfc.Records.{Conversions}
use homepass.Nfc.Records.Tag.{tag_post_init, tag_to_dict, tag_from_dict}
use homepass.Nfc.Records.Enrollment.{
  EnrollmentInvite, invite_from_dict, credential_post_init, credential_to_dict,
  credential_from_dict,
}
use homepass.Nfc.Records.Access.{
  NfcTestTag, test_tag_from_dict, NfcAccessGrant, nfc_grant_from_dict,
}
use homepass.Nfc.Repository.{NfcData, Repository, require_data}

-- A loop over the entries of a collection which pops those whose record matches; entries that are no
-- dictionaries are passed over. It goes over a copy of the items and counts what it pops.
unfoldable pub pop_matching :
    {A : Type 0}
    → (Fields → Result A)
    → (A → Bool)
    → Dict String Value
    → Dict String Value
    → Result (Dict String Value × ℕ)
pop_matching read matches [] entries = ok (entries, 0)
pop_matching read matches ((key, dict fields) ∷ rest) entries = do
  found ← read fields
  let popped = pop_matching read matches rest (remove entries key)
  let kept = pop_matching read matches rest entries
  if matches found then (do (left, changed) ← popped; ok (left, suc changed)) else kept
pop_matching read matches (_ ∷ rest) entries = pop_matching read matches rest entries

-- The mutations save only what has changed, and return how much has.
unfoldable pub transact_changed :
    Result (Unit {0}) → Repository → (NfcData → Result (NfcData × ℕ)) → Repository × Result ℕ
transact_changed saved r change = elim (require_data r >>= change) [
  | err e ↦ (r, err e)
  | ok (d, changed) ↦
      if nat_beq changed 0
      then (r, ok changed)
      else elim saved [ err e ↦ (r, err e) | ok u ↦ (some d, ok changed) ]
]

module _ (conversions : Conversions) (codec : Codec) where
  -- The loop over the passkeys, which replaces those of the Person that are enabled by disabled ones.
  unfoldable pub disable_passkeys : ℕ → Dict String Value → Result (Dict String Value × ℕ)
  disable_passkeys person_id [] = ok ([], 0)
  disable_passkeys person_id ((key, dict fields) ∷ rest) = do
    found ← credential_from_dict conversions codec fields
    let same = (do
      (others, changed) ← disable_passkeys person_id rest
      ok ((key, dict fields) ∷ others, changed))
    let disabled = (do
      built ← credential_post_init conversions codec (record found { enabled = false })
      stored ← credential_to_dict conversions codec built
      (others, changed) ← disable_passkeys person_id rest
      ok ((key, dict stored) ∷ others, suc changed))
    if found.person_id == person_id && found.enabled then disabled else same
  disable_passkeys person_id (other ∷ rest) = do
    (others, changed) ← disable_passkeys person_id rest
    ok (other ∷ others, changed)

  -- The same for the tags of a Door.
  unfoldable pub disable_tags : ℕ → Dict String Value → Result (Dict String Value × ℕ)
  disable_tags access_point_id [] = ok ([], 0)
  disable_tags access_point_id ((key, dict fields) ∷ rest) = do
    found ← tag_from_dict conversions codec fields
    let same = (do
      (others, changed) ← disable_tags access_point_id rest
      ok ((key, dict fields) ∷ others, changed))
    let disabled = (do
      built ← tag_post_init conversions codec (record found { enabled = false })
      stored ← tag_to_dict conversions codec built
      (others, changed) ← disable_tags access_point_id rest
      ok ((key, dict stored) ∷ others, suc changed))
    if found.access_point_id == access_point_id && found.enabled then disabled else same
  disable_tags access_point_id (other ∷ rest) = do
    (others, changed) ← disable_tags access_point_id rest
    ok (other ∷ others, changed)

  unfoldable pub person_change : ℕ → NfcData → Result (NfcData × ℕ)
  person_change person_id d = do
    (credentials, disabled) ← disable_passkeys person_id d.credentials
    (invites, popped) ←
        pop_matching (invite_from_dict conversions codec)
          (λ (invite : EnrollmentInvite). invite.person_id == person_id) d.invites d.invites
    (access_grants, revoked) ←
        pop_matching (nfc_grant_from_dict conversions codec)
          (λ (grant : NfcAccessGrant). grant.person_id == person_id) d.access_grants d.access_grants
    ok (
      record d { credentials = credentials; invites = invites; access_grants = access_grants },
      disabled + popped + revoked,
    )

  unfoldable pub disable_credentials_for_person :
      Result (Unit {0}) → Repository → ℕ → Repository × Result ℕ
  disable_credentials_for_person saved r person_id =
      transact_changed saved r (person_change person_id)

  unfoldable pub door_change : ℕ → NfcData → Result (NfcData × ℕ)
  door_change access_point_id d = do
    (tags, disabled) ← disable_tags access_point_id d.tags
    (test_tags, popped) ←
        pop_matching (test_tag_from_dict conversions codec)
          (λ (tag : NfcTestTag). tag.access_point_id == access_point_id) d.test_tags d.test_tags
    (access_grants, revoked) ←
        pop_matching (nfc_grant_from_dict conversions codec)
          (λ (grant : NfcAccessGrant). grant.access_point_id == access_point_id) d.access_grants
          d.access_grants
    ok (
      record d { tags = tags; test_tags = test_tags; access_grants = access_grants },
      disabled + popped + revoked,
    )

  unfoldable pub disable_tags_for_access_point :
      Result (Unit {0}) → Repository → ℕ → Repository × Result ℕ
  disable_tags_for_access_point saved r access_point_id =
      transact_changed saved r (door_change access_point_id)
