-- ===== src/Keypad.antt =====
-- services/keypad_processor.py: `KeypadCommandProcessor`. One request runs under the lock of its device,
-- as one step here. `Services` holds what the calls on the other services return or raise during it.
pub mod Lockout
pub mod Passage
use homepass.Prelude.{
  ℕ, ◌+◌, Bool, true, false, not, ◌&&◌, Option, none, some, List, [], ◌∷◌, ◌++◌, String, ltb, leb,
  length, ◌==◌, nat_eq, string_eq, if◌then◌else◌,
}
use homepass.Prelude.Result.{Result, ok, err, type_error, ◌>>=◌, ◌>>◌}
use homepass.Prelude.Dict.{Dict, get, put, remove}
use homepass.Prelude.Text.{all_chars}
use homepass.Prelude.Instant.{Datetime, aware, instant}
use homepass.Authorization.Decision.{is_allowed}
use homepass.Authorization.Service.{RelationshipResult}

-- `_FAILURE_WINDOW` and `_MAX_FAILURES`
abbrev pub failure_window : ℕ
failure_window = 300000000

abbrev pub max_failures : ℕ
max_failures = 5

-- `KeypadOperation`
pub data KeypadOperation : Type 0 where
  no_operation unlock lock : KeypadOperation

-- `KeypadProcessingOutcome`
pub data KeypadProcessingOutcome : Type 0 where
  success invalid_code not_ready : KeypadProcessingOutcome

-- The fields of an `AccessDevice` that the processor reads.
pub record Device : Type 0 where
  pub id : ℕ
  pub access_point_id : ℕ
  pub enabled : Bool
  pub button_actions : Dict String KeypadOperation

-- `KeypadCommand`; `occurred_at` is the result of `astimezone(UTC)`.
pub record KeypadCommand : Type 0 where
  pub device : Device
  pub button : String
  pub pin : String
  pub occurred_at : ℕ

pub record KeypadProcessingResult : Type 0 where
  pub outcome : KeypadProcessingOutcome
  pub operation : Option KeypadOperation
  pub command_sent : Bool

-- The fields of a `CredentialMetadata` that the processor reads.
pub record CredentialMetadata : Type 0 where
  pub credential_id : ℕ
  pub person_id : ℕ

-- What the other services return or raise: the enabled credentials and the vault, the authorization of
-- a Person at a Door, the Door's command, the device's readiness, and the record of a failure with its
-- attempt count.
pub record Services : Type 0 where
  pub list_enabled : Result (List CredentialMetadata)
  pub retrieve : ℕ → Result String
  pub resolve_person : ℕ → ℕ → Datetime → Result (Option RelationshipResult)
  pub execute : ℕ → KeypadOperation → RelationshipResult → Result Bool
  pub mark_ready : ℕ → Result (Unit {0})
  pub record_failure : ℕ → ℕ → Option RelationshipResult → Result (Unit {0})

-- `_failures`
abbrev pub Failures : Type 0
Failures = Dict ℕ (List ℕ)

-- The state after a request, the commands that it gave to Doors, and what it returns or raises.
pub record Outcome : Type 0 where
  pub failures : Failures
  pub commands : List (ℕ × KeypadOperation)
  pub result : Result KeypadProcessingResult

abbrev failed : KeypadProcessingOutcome → KeypadProcessingResult
failed outcome = record { outcome = outcome; operation = none; command_sent = false }

-- while failures and failures[0] < cutoff: failures.popleft()
unfoldable pub drop_old : ℕ → List ℕ → List ℕ
drop_old now [] = []
drop_old now (f ∷ rest) =
    let later = drop_old now rest in if ltb (f + failure_window) now then later else f ∷ rest

-- The entry that `setdefault` leaves or makes.
abbrev pub failures_of : Failures → ℕ → List ℕ
failures_of failures id = elim (get failures id) [ none ↦ [] | some l ↦ l ]

-- `_current_failures`
unfoldable pub current_failures : Failures → ℕ → ℕ → List ℕ
current_failures failures id now = drop_old now (failures_of failures id)

-- `secrets.compare_digest`, which refuses a text that is not ASCII
unfoldable pub compare_digest : String → String → Result Bool
compare_digest a b =
    if all_chars (λ c. ltb c 128) a && all_chars (λ c. ltb c 128) b
    then ok (a == b)
    else err type_error

-- The persons whose credential has the supplied PIN.
unfoldable pub matches : (ℕ → Result String) → String → List CredentialMetadata → Result (List ℕ)
matches retrieve supplied [] = ok []
matches retrieve supplied (m ∷ rest) = do
  saved ← retrieve m.credential_id
  same ← compare_digest saved supplied
  found ← matches retrieve supplied rest
  ok (if same then m.person_id ∷ found else found)

-- matches[0] if len(matches) == 1 else None
unfoldable pub only : List ℕ → Option ℕ
only (p ∷ []) = some p
only _ = none

-- `_resolve_person_id`
unfoldable pub resolve_person_id : Services → String → Result (Option ℕ)
resolve_person_id services supplied = do
  credentials ← services.list_enabled
  found ← matches services.retrieve supplied credentials
  ok (only found)

-- button_actions.get(button, KeypadOperation.NONE)
unfoldable pub operation_of : KeypadCommand → KeypadOperation
operation_of c = elim (get c.device.button_actions c.button) [ none ↦ no_operation | some op ↦ op ]

-- The end of a refused request: the failure is recorded, then the outcome returned.
unfoldable pub refuse :
    Services
    → KeypadCommand
    → Failures
    → ℕ
    → Option RelationshipResult
    → KeypadProcessingOutcome
    → Outcome
refuse services c failures attempts who outcome = record {
  failures = failures;
  commands = [];
  result = services.record_failure c.device.access_point_id attempts who >> ok (failed outcome);
}

-- The end of an allowed request: the command, then the failures are forgotten.
unfoldable pub carry_out :
    Services → KeypadCommand → Failures → KeypadOperation → RelationshipResult → Outcome
carry_out services c failures op who =
    let given = (c.device.access_point_id, op) ∷ [] in
    elim (services.execute c.device.access_point_id op who) [
      | err e ↦ record { failures = failures; commands = given; result = err e }
      | ok sent ↦ record {
        failures = remove failures c.device.id;
        commands = given;
        result =
            services.mark_ready c.device.id
            >> ok (record { outcome = success; operation = some op; command_sent = sent });
      }
    ]

-- What follows when the PIN belongs to one Person.
unfoldable pub process_person :
    Services → KeypadCommand → Failures → List ℕ → KeypadOperation → ℕ → Outcome
process_person services c failures recent op person_id =
    let added = put failures c.device.id (recent ++ c.occurred_at ∷ []) in
    let attempts = length (recent ++ c.occurred_at ∷ []) in
    elim (services.resolve_person person_id c.device.access_point_id (aware c.occurred_at)) [
      | err e ↦ record { failures = failures; commands = []; result = err e }
      | ok none ↦ refuse services c added attempts none not_ready
      | ok (some who) ↦
          if is_allowed who.decision
          then carry_out services c failures op who
          else refuse services c added attempts (some who) not_ready
    ]

-- `_process_locked` after the tests of the device and the button
unfoldable pub process_operation : Services → KeypadCommand → Failures → KeypadOperation → Outcome
process_operation services c old op =
    let recent = current_failures old c.device.id c.occurred_at in
    let failures = put old c.device.id recent in
    if leb max_failures (length recent)
    then refuse services c failures (length recent) none not_ready
    else elim (resolve_person_id services c.pin) [
      | err e ↦ record { failures = failures; commands = []; result = err e }
      | ok none ↦
          refuse services c (put failures c.device.id (recent ++ c.occurred_at ∷ []))
            (length (recent ++ c.occurred_at ∷ [])) none invalid_code
      | ok (some person_id) ↦ process_person services c failures recent op person_id
    ]

-- `_process_locked`
unfoldable pub process : Services → KeypadCommand → Failures → Outcome
process services c old =
    if not c.device.enabled
    then record { failures = old; commands = []; result = ok (failed not_ready) }
    else elim (operation_of c) [
      | no_operation ↦ record { failures = old; commands = []; result = ok (failed not_ready) }
      | unlock ↦ process_operation services c old unlock
      | lock ↦ process_operation services c old lock
    ]
