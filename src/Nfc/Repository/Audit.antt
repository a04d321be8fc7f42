-- ===== src/Nfc/Repository/Audit.antt =====
-- The audit log of `NfcAccessRepository`.
use homepass.Prelude.{
  ℕ, ◌-◌, ◌≤◌, ◌≡◌, sym, ap, ◌∙◌, Bool, Option, some, List, [], ◌∷◌, ◌++◌, String, length, last_n,
  last_n_all, last_n-append, length-drop, map, arith,
}
use mathlib.Core.List.{append_assoc, append-nil}
use homepass.Prelude.Result.{Result, ok}
use homepass.Prelude.Int.{ℤ}
use homepass.Prelude.Instant.{Datetime}
use homepass.Models.Json.{Value, bool, str, dict, end, field, Codec}
use homepass.Nfc.Records.Tag.{optional_text, optional_int}
use homepass.Nfc.Repository.{NfcData, Repository, require_data, transact}

-- `_MAX_AUDIT_RECORDS`
abbrev pub max_audit_records : ℕ
max_audit_records = 500

-- audit.append(entry); del audit[:-_MAX_AUDIT_RECORDS]
abbrev pub append_bounded : List Value → Value → List Value
append_bounded audit entry = last_n max_audit_records (audit ++ entry ∷ [])

append_bounded-le :
    (audit : List Value) (entry : Value) → length (append_bounded audit entry) ≤ max_audit_records
append_bounded-le audit entry =
    omega
      (arith, length-drop (length (audit ++ entry ∷ []) - max_audit_records) (audit ++ entry ∷ []))

pub record AuditRecord : Type 0 where
  pub occurred_at : Datetime
  pub outcome : String
  pub access_point_id : String
  pub person_id : Option String
  pub reason : String
  pub counter : Option ℤ
  pub test_mode : Bool

module _ (codec : Codec) where
  unfoldable pub audit_entry : AuditRecord → Value
  audit_entry a = dict (
      field "occurred_at" (str (codec.print_iso a.occurred_at)) (
        field "outcome" (str a.outcome) (
          field "access_point_id" (str a.access_point_id) (
            field "person_id" (optional_text a.person_id) (
              field "reason" (str a.reason) (
                field "counter" (optional_int a.counter)
                  (field "test_mode" (bool a.test_mode) end)))))))

  unfoldable pub append_change : AuditRecord → NfcData → Result (NfcData × Unit {0})
  append_change a d = ok (record d { audit = append_bounded d.audit (audit_entry a) }, tt)

  unfoldable pub append_audit :
      Result (Unit {0}) → Repository → AuditRecord → Repository × Result (Unit {0})
  append_audit saved r a = transact saved r (append_change a)

  -- The repository after a sequence of records that are saved.
  unfoldable pub append_all : Repository → List AuditRecord → Repository
  append_all r [] = r
  append_all r (a ∷ rest) = append_all (append_audit (ok tt) r a).0 rest

  -- After any sequence of saved audit records the log is the last 500 entries of the old log with the
  -- new ones behind it, where the old log had at most 500, and nothing else has changed.
  pub append_all-keeps_last :
      (d : NfcData) (records : List AuditRecord)
      → length d.audit ≤ max_audit_records
      → append_all (some d) records
        ≡ some (record d { audit = last_n max_audit_records (d.audit ++ map audit_entry records) })
  unfolding append_all append_audit transact append_change require_data
  append_all-keeps_last d [] h =
      ap (λ l. some (record d { audit = l }))
        (sym (last_n_all max_audit_records d.audit h)
          ∙ ap (last_n max_audit_records) (sym (append-nil d.audit)))
  append_all-keeps_last d (a ∷ rest) h =
      append_all-keeps_last (record d { audit = append_bounded d.audit (audit_entry a) }) rest
        (append_bounded-le d.audit (audit_entry a))
      ∙ ap (λ l. some (record d { audit = l }))
          (last_n-append max_audit_records (d.audit ++ audit_entry a ∷ []) (map audit_entry rest)
            ∙ ap (last_n max_audit_records)
                (append_assoc d.audit (audit_entry a ∷ []) (map audit_entry rest)))
