-- ===== src/Tests/Tokens.antt =====
-- Tokens, tags and invitations on concrete inputs.
use homepass.Prelude.{
  ℕ, ◌+◌, ◌≤◌, ◌≡◌, ◌≢◌, refl, sym, ap, true, false, none, some, Option, [], ◌∷◌, ◌++◌, map, String,
  arith, if◌then◌else◌, ltb, last_n, string_eq,
}
use mathlib.Core.Path.{subst}
use homepass.Prelude.Result.{ok, err, session_error}
use homepass.Prelude.Int.{ℤ, pos}
use homepass.Prelude.Text.{count_chars, all_chars, strip, is_empty, text_leb}
use homepass.Prelude.Dict.{get, put, remove, keep}
use homepass.Prelude.Instant.{aware, normalize_datetime}
use homepass.Models.Json.{
  Value, Fields, null, str, int, bool, dict, field, end, get_field, get_or, or_value_error,
}
use homepass.Nfc.Sessions.{
  ExpiringTokenStore, new_store, expire, issue, peek, consume, make_room, oldest,
}
use homepass.Nfc.Sessions.Once.{issuing, consuming, here, consume_once}
use homepass.Nfc.Sessions.Bounded.{IsBounded}
use homepass.Nfc.Sessions.Life.{run, sessions_limited, peek-issue, issue_evicts_oldest}
use homepass.Nfc.Records.{
  Conversions, item, item_or_none, strict_bool, is_urlsafe, is_hex, text_of, int_of, timestamp,
  parse_timestamp, uuid_of, check_uuid,
}
use homepass.Nfc.Records.Tag.{NfcTag, tag_post_init, tag_to_dict, tag_from_dict, out_of_range}
use homepass.Nfc.Records.Enrollment.{
  PasskeyCredential, is_active, invite_post_init, invite_to_dict, invite_from_dict,
  credential_to_dict,
}
use homepass.Nfc.Repository.{empty_data, Repository, require_data, require_record, transact}
use homepass.Nfc.Repository.Tags.{
  int_leb, is_replay, find_tag, store_tag, replace_tag, claim_change, claim_counter,
}
use homepass.Nfc.Repository.Tags.Replay.{claim_counter-increases}
use homepass.Nfc.Repository.Tags.Replay.{Later as LaterTag, here as start}
use homepass.Nfc.Repository.Enrollment.{
  find_invite, store_invite, store_credential, enrollment_change, complete_enrollment,
}
use homepass.Nfc.Repository.Enrollment.Once.{complete_enrollment-once}
use homepass.Nfc.Repository.Enrollment.Once.{here as begin}
use homepass.Nfc.Repository.Audit.{AuditRecord, audit_entry, append_all, append_all-keeps_last}
use homepass.Tests.Fixtures.{unary, codec}

abbrev store : ExpiringTokenStore ℕ
store = record {
  ttl = 10;
  max_items = 1;
  items = ("a", record { value = 7; expires_at = 10 }) ∷ [];
}

store-IsBounded : IsBounded store
unfolding get
store-IsBounded = record { room = omega arith; bounded = omega arith; distinct = (refl, tt) }

consume_once_example : (consume (consume store 5 "a").0 6 "a").1 ≡ err session_error
unfolding consume peek get expire keep
consume_once_example = consume_once store 5 "a" 7 refl (consume store 5 "a").0 here 6

sessions_limited_example : IsBounded (
    run {T = ℕ}
      (record { ttl = 10; max_items = 2; items = [] })
      (issuing 0 "a" 7 ∷ issuing 1 "b" 8 ∷ issuing 2 "c" 9 ∷ consuming 3 "c" ∷ []))
unfolding new_store
sessions_limited_example =
    sessions_limited (pos 10) (pos 2) (record { ttl = 10; max_items = 2; items = [] })
      (issuing 0 "a" 7 ∷ issuing 1 "b" 8 ∷ issuing 2 "c" 9 ∷ consuming 3 "c" ∷ []) refl

peek-issue_example :
    (peek (issue store 5 "b" 8).0 14 "b").1
    ≡ (if ltb 14 (5 + store.ttl) then ok 8 else err session_error)
peek-issue_example = peek-issue store 5 14 "b" 8 store-IsBounded

-- Two live tokens, the first of which expires earlier.
abbrev full : ExpiringTokenStore ℕ
full = record {
  ttl = 10;
  max_items = 2;
  items =
      ("a", record { value = 7; expires_at = 10 })
      ∷ ("b", record { value = 8; expires_at = 12 })
      ∷ [];
}

full-IsBounded : IsBounded full
unfolding get
full-IsBounded = record { room = omega arith; bounded = omega arith; distinct = (refl, (refl, tt)) }

issue_evicts_oldest_example : 10 ≤ 12
unfolding get expire keep issue make_room oldest put remove
issue_evicts_oldest_example =
    issue_evicts_oldest full 5 "c" 9 "a" (record { value = 7; expires_at = 10 }) full-IsBounded refl
      refl "b" (record { value = 8; expires_at = 12 }) refl

abbrev pub conversions : Conversions
conversions = record {
  print_value = λ v. "";
  parse_int = λ s. none;
  truncate = λ b. none;
  upper = λ s. s;
}

-- A tag that was last read with counter 4.
abbrev stored_tag : Option ℤ → Fields
stored_tag last = field "public_id" (str "AAAAAAAAAAAAAAAA") (
    field "uid_hex" (str "04AABBCCDDEEFF") (
      field "access_point_id" (str "11") (
        field "meta_key_credential_id" (str "1") (
          field "file_key_credential_id" (str "1") (
            field "enabled" (bool true) (
              field "last_counter" (elim last [ none ↦ null | some n ↦ int n ])
                (field "created_at" (str "1") (
                  field "admin_key_credential_id" null
                    (field "write_protected" (bool false) end)))))))))

abbrev tag : ℤ → NfcTag
tag n = record {
  public_id = "AAAAAAAAAAAAAAAA";
  uid_hex = "04AABBCCDDEEFF";
  access_point_id = 2;
  meta_key_credential_id = "1";
  file_key_credential_id = "1";
  enabled = true;
  last_counter = some n;
  created_at = aware 1;
  admin_key_credential_id = none;
  write_protected = false;
}

abbrev tags : Option ℤ → Repository
tags last = some (record empty_data { tags = ("AAAAAAAAAAAAAAAA", dict (stored_tag last)) ∷ [] })

claimed_5 :
    claim_counter conversions codec (ok tt) (tags (some (pos 4))) "AAAAAAAAAAAAAAAA" (pos 5)
    ≡ (tags (some (pos 5)), ok (tag (pos 5)))
unfolding claim_counter transact require_data claim_change find_tag require_record get put
    tag_from_dict item get_field get_or uuid_of or_value_error strict_bool item_or_none text_of
    int_of parse_timestamp normalize_datetime tag_post_init is_urlsafe is_hex all_chars count_chars
    is_empty check_uuid timestamp is_replay int_leb out_of_range replace_tag store_tag tag_to_dict
    unary
claimed_5 = refl

claimed_6 :
    claim_counter conversions codec (ok tt) (tags (some (pos 5))) "AAAAAAAAAAAAAAAA" (pos 6)
    ≡ (tags (some (pos 6)), ok (tag (pos 6)))
unfolding claim_counter transact require_data claim_change find_tag require_record get put
    tag_from_dict item get_field get_or uuid_of or_value_error strict_bool item_or_none text_of
    int_of parse_timestamp normalize_datetime tag_post_init is_urlsafe is_hex all_chars count_chars
    is_empty check_uuid timestamp is_replay int_leb out_of_range replace_tag store_tag tag_to_dict
    unary
claimed_6 = refl

claim_counter-increases_example : int_leb (pos 6) (pos 5) ≡ false
claim_counter-increases_example =
    claim_counter-increases conversions codec "AAAAAAAAAAAAAAAA" (ok tt) (ok tt)
      (tags (some (pos 4))) (tags (some (pos 5))) (pos 5) (pos 6) (tag (pos 5)) (tag (pos 6))
      (ap (λ x. x.1) claimed_5)
      (subst (λ r. LaterTag conversions codec "AAAAAAAAAAAAAAAA" r (tags (some (pos 5))))
        (sym (ap (λ x. x.0) claimed_5)) start)
      (ap (λ x. x.1) claimed_6)

-- The hash of every token here.
abbrev digest : String
digest = "0000000000000000000000000000000000000000000000000000000000000000"

abbrev invites : Value → Repository
invites used_at = some (record empty_data {
  invites =
      (
        digest,
        dict (
            field "token_hash" (str digest) (
              field "person_id" (str "1") (
                field "person_name" (str "Ann") (
                  field "expires_at" (str "111111111")
                    (field "used_at" used_at (field "created_at" (str "1") end)))))),
      )
      ∷ [];
})

abbrev passkey : PasskeyCredential
passkey = record {
  credential_id = "key";
  person_id = 1;
  public_key = "public";
  sign_count = pos 0;
  device_type = "single_device";
  backed_up = false;
  enabled = true;
  created_at = aware 1;
}

enrolled :
    (complete_enrollment conversions codec
      (λ t. digest)
      (ok tt)
      (invites null)
      5
      6
      "token"
      passkey).1
    ≡ ok tt
unfolding complete_enrollment transact require_data enrollment_change find_invite require_record get
    put invite_from_dict item get_field uuid_of or_value_error item_or_none text_of parse_timestamp
    normalize_datetime invite_post_init is_hex all_chars count_chars is_empty strip timestamp
    text_leb is_active store_invite store_credential credential_to_dict invite_to_dict unary
enrolled = refl

complete_enrollment-once_example :
    (complete_enrollment conversions codec
      (λ t. digest)
      (ok tt)
      (complete_enrollment conversions codec
        (λ t. digest)
        (ok tt)
        (invites null)
        5
        6
        "token"
        passkey).0
      7
      8
      "token"
      passkey).1
    ≢ ok tt
complete_enrollment-once_example =
    complete_enrollment-once conversions codec (λ t. digest) (ok tt) (ok tt) (invites null)
      (complete_enrollment conversions codec (λ t. digest) (ok tt) (invites null) 5 6 "token"
        passkey).0
      5 6 7 8 "token" passkey passkey tt tt enrolled begin

abbrev audited : AuditRecord
audited = record {
  occurred_at = aware 3;
  outcome = "allowed";
  access_point_id = "11";
  person_id = some "1";
  reason = "allowed";
  counter = some (pos 5);
  test_mode = false;
}

append_all-keeps_last_example :
    append_all codec (some empty_data) (audited ∷ audited ∷ [])
    ≡ some (record empty_data {
      audit = last_n 500 (empty_data.audit ++ map (audit_entry codec) (audited ∷ audited ∷ []));
    })
append_all-keeps_last_example =
    append_all-keeps_last codec empty_data (audited ∷ audited ∷ []) (omega arith)
