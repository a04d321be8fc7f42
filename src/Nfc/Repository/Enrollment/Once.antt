-- ===== src/Nfc/Repository/Enrollment/Once.antt =====
-- An invitation enrolls one passkey.
use mathlib.Core.Path.{subst}
use homepass.Prelude.{
  ℕ, not, ◌||◌, none, some, String, ◌≡◌, ◌≢◌, refl, sym, ap, ◌∙◌, arith, inl, inr, Bool-cases,
  eq_iff, ◌==◌, string_eq, if◌then◌else◌, nat_eq,
}
use homepass.Prelude.Result.{
  Result, ok, err, nfc_repository_error, from_bind, ok-injective, raise_if,
}
use homepass.Prelude.Dict.{get, put, get-put}
use homepass.Prelude.Int.{ℤ}
use homepass.Prelude.Instant.{aware}
use homepass.Models.Json.{Codec, dict, Fields}
use homepass.Nfc.Records.{Conversions}
use homepass.Nfc.Records.Enrollment.{
  EnrollmentInvite, is_active, invite_post_init, invite_to_dict, invite_from_dict,
  PasskeyCredential, credential_post_init, credential_to_dict, invite_post_init-used_at,
  invite_from_dict-used,
}
use homepass.Nfc.Repository.{NfcData, Repository, require_record}
use homepass.Nfc.Repository.Tags.{int_leb}
use homepass.Nfc.Repository.Steps.{OnData, transact-OnData, transact-result}
use homepass.Nfc.Repository.Removal.{person_change, disable_credentials_for_person}
use homepass.Nfc.Repository.Removal.Kept.{
  transact_changed-OnData, require_record-some, person_change-invite,
}
use homepass.Nfc.Repository.Enrollment.{
  is_present, find_invite, store_invite, find_credential, store_credential, invite_change,
  create_invite, enrollment_change, complete_enrollment, sign_count_change, update_sign_count,
}

module _ (conversions : Conversions) (codec : Codec) (hash_token : String → String)
    (k : String) where
  -- An invitation that is stored under the hash is used.
  IsClosed : NfcData → Type 0
  IsClosed d =
      (invite : EnrollmentInvite)
      → find_invite conversions codec d k ≡ ok invite
      → invite.used_at ≢ none

  find_invite-put :
      (d : NfcData) (p : String) (fields : Fields)
      → find_invite conversions codec (record d { invites = put d.invites p (dict fields) }) k ≡ (
          if p == k
          then invite_from_dict conversions codec fields
          else find_invite conversions codec d k)
  unfolding find_invite require_record
  find_invite-put d p fields = elim (Bool-cases (p == k)) [
    | inl same ↦ rw (get-put, same) refl
    | inr other ↦ rw (get-put, other) refl
  ]

  store_invite-IsClosed :
      (d d' : NfcData) (p : String) (invite : EnrollmentInvite)
      → (p ≢ k → IsClosed d)
      → (p ≡ k → (n : ℕ) × (invite.used_at ≡ some (aware n)))
      → store_invite conversions codec d p invite ≡ ok d'
      → IsClosed d'
  unfolding store_invite IsClosed
  store_invite-IsClosed d d' p invite closed here h read e =
      from_bind (invite_to_dict conversions codec invite) h (λ fields stored h.
        let found =
          sym (find_invite-put d p fields)
          ∙ ap (λ x. find_invite conversions codec x k) (ok-injective h)
          ∙ e in
        elim (Bool-cases (p == k)) [
          | inl same ↦
              let (n, used) = here ((eq_iff p k).0 same) in
              invite_from_dict-used conversions codec invite read (aware n) fields used stored
                (ground (arith, found, same))
          | inr other ↦ closed (λ e. ground (arith, eq_iff p k)) read (ground (arith, found, other))
        ])

  store_credential-IsClosed :
      (d d' : NfcData) (p : String) (credential : PasskeyCredential)
      → IsClosed d
      → store_credential conversions codec d p credential ≡ ok d'
      → IsClosed d'
  unfolding store_credential IsClosed find_invite
  store_credential-IsClosed d d' p credential closed h read e =
      from_bind (credential_to_dict conversions codec credential) h (λ fields stored h.
        closed read (ap (λ x. find_invite conversions codec x k) (ok-injective h) ∙ e))

  invite_change-IsClosed :
      (d d' : NfcData) (invite : EnrollmentInvite) (u : Unit {0})
      → IsClosed d
      → invite.token_hash ≢ k
      → invite_change conversions codec invite d ≡ ok (d', u)
      → IsClosed d'
  unfolding invite_change
  invite_change-IsClosed d d' invite u closed other h =
      from_bind (store_invite conversions codec d invite.token_hash invite) h (λ d'' stored h.
        store_invite-IsClosed d d' invite.token_hash invite (λ ne. closed) (λ e. ground arith)
          (stored ∙ ap (λ x. elim x [ ok y ↦ ok y.0 | err e ↦ err e ]) h))

  sign_count_change-IsClosed :
      (d d' : NfcData) (p : String) (n : ℤ) (u : Unit {0})
      → IsClosed d
      → sign_count_change conversions codec p n d ≡ ok (d', u)
      → IsClosed d'
  unfolding sign_count_change
  sign_count_change-IsClosed d d' p n u closed h =
      from_bind (find_credential conversions codec d p) h (λ c _ h.
        from_bind (raise_if (not (int_leb c.sign_count n)) nfc_repository_error) h (λ u' _ h.
          from_bind (credential_post_init conversions codec (record c { sign_count = n })) h
            (λ c' _ h. from_bind (store_credential conversions codec d p c') h (λ d'' stored h.
              store_credential-IsClosed d d' p c' closed
                (stored ∙ ap (λ x. elim x [ ok y ↦ ok y.0 | err e ↦ err e ]) h)))))

  -- A completed enrollment closes its own invitation, and no other is opened.
  enrollment_change-IsClosed :
      (d d' : NfcData) (now used_at : ℕ) (token : String) (credential : PasskeyCredential)
      (u : Unit {0})
      → (hash_token token ≢ k → IsClosed d)
      → enrollment_change conversions codec hash_token now used_at token credential d ≡ ok (d', u)
      → IsClosed d'
  unfolding enrollment_change
  enrollment_change-IsClosed d d' now used_at token credential u closed h =
      from_bind (find_invite conversions codec d (hash_token token)) h (λ invite _ h.
        from_bind
          (raise_if (not (is_active now invite) || not (invite.person_id == credential.person_id))
            nfc_repository_error)
          h
          (λ u' _ h.
            from_bind
              (raise_if (is_present (get d.credentials credential.credential_id))
                nfc_repository_error)
              h
              (λ u'' _ h.
                from_bind (store_credential conversions codec d credential.credential_id credential)
                  h
                  (λ enrolled kept h.
                    from_bind
                      (invite_post_init conversions codec
                        (record invite { used_at = some (aware used_at) }))
                      h
                      (λ used built h.
                        from_bind (store_invite conversions codec enrolled (hash_token token) used)
                          h
                          (λ d'' stored h.
                            store_invite-IsClosed enrolled d' (hash_token token) used
                              (λ ne.
                                store_credential-IsClosed d enrolled credential.credential_id
                                  credential (closed ne) kept)
                              (λ e. (
                                used_at,
                                sym (
                                    invite_post_init-used_at conversions codec
                                      (record invite { used_at = some (aware used_at) }) used
                                      built),
                              ))
                              (stored ∙ ap (λ x. elim x [ ok y ↦ ok y.0 | err e ↦ err e ]) h)))))))

  active-unused :
      (now : ℕ) (invite : EnrollmentInvite) (person : ℕ) (u : Unit {0})
      → raise_if
          (not (is_active now invite) || not (invite.person_id == person))
          nfc_repository_error
        ≡ ok u
      → invite.used_at ≡ none
  unfolding is_active
  active-unused now invite person u h = ground arith

  -- A used invitation enrolls nothing.
  enrollment_change-refused :
      (d d' : NfcData) (now used_at : ℕ) (token : String) (credential : PasskeyCredential)
      (u : Unit {0})
      → IsClosed d
      → hash_token token ≡ k
      → enrollment_change conversions codec hash_token now used_at token credential d ≢ ok (d', u)
  unfolding enrollment_change IsClosed
  enrollment_change-refused d d' now used_at token credential u closed e h =
      from_bind (find_invite conversions codec d (hash_token token)) h (λ invite found h.
        from_bind
          (raise_if (not (is_active now invite) || not (invite.person_id == credential.person_id))
            nfc_repository_error)
          h
          (λ u' fresh h.
            closed invite (rw (sym e) found)
              (active-unused now invite credential.person_id u' fresh)))

  person_change-IsClosed :
      (d d' : NfcData) (person n : ℕ)
      → IsClosed d
      → person_change conversions codec person d ≡ ok (d', n)
      → IsClosed d'
  unfolding IsClosed find_invite require_record
  person_change-IsClosed d d' person n closed h invite found =
      from_bind (require_record (get d'.invites k)) found λ fields there read.
        let stored =
          person_change-invite conversions codec person d d' n k (dict fields) h
            (require_record-some (get d'.invites k) fields there) in
        closed invite (rw (stored, require_record) read)

  -- Any operations on invitations and passkeys, but no new invitation under this hash.
  pub data Later (r : Repository) : Repository → Type 0 where
    here : Later r r
    invited :
        {s : Repository} (saved : Result (Unit {0})) (invite : EnrollmentInvite)
        → Later r s
        → invite.token_hash ≢ k
        → Later r (create_invite conversions codec saved s invite).0
    enrolled :
        {s : Repository} (saved : Result (Unit {0})) (now used_at : ℕ) (token : String)
        (credential : PasskeyCredential)
        → Later r s
        → Later r
            (complete_enrollment conversions codec hash_token saved s now used_at token
              credential).0
    signed :
        {s : Repository} (saved : Result (Unit {0})) (p : String) (n : ℤ)
        → Later r s
        → Later r (update_sign_count conversions codec saved s p n).0
    person_disabled :
        {s : Repository} (saved : Result (Unit {0})) (person : ℕ)
        → Later r s
        → Later r (disable_credentials_for_person conversions codec saved s person).0

  Later-OnData : {r s : Repository} → Later r s → OnData IsClosed r → OnData IsClosed s
  unfolding create_invite complete_enrollment update_sign_count disable_credentials_for_person
  Later-OnData here h = h
  Later-OnData (invited {s} saved invite l ne) h =
      transact-OnData IsClosed saved s _ (Later-OnData l h)
        (λ d d' u closed e. invite_change-IsClosed d d' invite u closed ne e)
  Later-OnData (enrolled {s} saved now used_at token credential l) h =
      transact-OnData IsClosed saved s _ (Later-OnData l h) (λ d d' u closed e.
        enrollment_change-IsClosed d d' now used_at token credential u (λ ne. closed) e)
  Later-OnData (signed {s} saved p n l) h =
      transact-OnData IsClosed saved s _ (Later-OnData l h)
        (λ d d' u closed e. sign_count_change-IsClosed d d' p n u closed e)
  Later-OnData (person_disabled {s} saved person l) h =
      transact_changed-OnData IsClosed saved s _ (Later-OnData l h)
        (λ d d' n closed e. person_change-IsClosed d d' person n closed e)

module _ (conversions : Conversions) (codec : Codec) (hash_token : String → String) where
  -- When an enrollment with a token was completed, no later one with that token is, whatever
  -- operations on invitations and passkeys stand between the two, save a new invitation with the same
  -- token hash, and whichever passkey it names.
  pub complete_enrollment-once :
      (saved saved' : Result (Unit {0})) (r s : Repository) (now used_at now' used_at' : ℕ)
      (token : String) (credential credential' : PasskeyCredential) (u u' : Unit {0})
      → (complete_enrollment conversions codec hash_token saved r now used_at token credential).1
        ≡ ok u
      → Later conversions codec hash_token
          (hash_token token)
          (complete_enrollment conversions codec hash_token saved r now used_at token credential).0
          s
      → (complete_enrollment conversions codec hash_token saved' s now' used_at' token
          credential').1
        ≢ ok u'
  unfolding complete_enrollment OnData
  complete_enrollment-once saved saved' r s now used_at now' used_at' token credential credential' u
        u' h l h' =
      let k = hash_token token in
      let (d, d', e, first, e') =
        transact-result saved r
          (enrollment_change conversions codec hash_token now used_at token credential) u h in
      let (f, f', g, second, g') =
        transact-result saved' s
          (enrollment_change conversions codec hash_token now' used_at' token credential') u' h' in
      let closed =
        enrollment_change-IsClosed conversions codec hash_token k d d' now used_at token credential
          u (λ ne. ground arith) first in
      let still =
        Later-OnData conversions codec hash_token k l
          (subst (OnData (IsClosed conversions codec hash_token k)) (sym e') closed) in
      enrollment_change-refused conversions codec hash_token k f f' now' used_at' token credential'
        u' (subst (OnData (IsClosed conversions codec hash_token k)) g still) refl second
