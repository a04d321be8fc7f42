-- ===== src/Tests/Keypads.antt =====
-- Keypad requests on concrete inputs.
use homepass.Prelude.{ℕ, ◌≤◌, ◌≡◌, refl, ap, some, [], ◌∷◌, List, arith, true, false}
use homepass.Prelude.Result.{ok, err}
use homepass.Prelude.Dict.{get, put}
use homepass.Prelude.Text.{all_chars}
use homepass.Prelude.Instant.{aware}
use homepass.Authorization.Decision.{allowed}
use homepass.Authorization.Service.{RelationshipResult, resolve}
use homepass.Authorization.Service.Sound.{Passage}
use homepass.Keypad.{
  KeypadOperation, unlock, Device, KeypadCommand, Services, Failures, process, process_operation,
  process_person, carry_out, refuse, operation_of, current_failures, drop_old, resolve_person_id,
  matches, compare_digest, only,
}
use homepass.Keypad.Passage.{Opened, process-entitled}
use homepass.Keypad.Lockout.{
  lockout-ignores_pin, Requests, none_yet, guessed, is_guess, guesses_bounded,
}
use homepass.Tests.Fixtures.{codec, times, zones}
use homepass.Tests.Access.{snapshot, lookup, fresh, relationship}
use homepass.Tests.Decisions.{resolved}

abbrev device : Device
device = record {
  id = 8;
  access_point_id = 2;
  enabled = true;
  button_actions = ("disarm", unlock) ∷ [];
}

-- A press of the button, on Monday at 09:00.
abbrev press : KeypadCommand
press = record { device = device; button = "disarm"; pin = "1234"; occurred_at = 32400000000 }

-- One enabled credential, of the stored Person, with the given PIN.
abbrev services : Services
services = record {
  list_enabled = ok (record { credential_id = 5; person_id = 1 } ∷ []);
  retrieve = λ id. ok "1234";
  resolve_person = λ p d at.
      elim (resolve codec times zones (ok snapshot) (some lookup) fresh false p d at) [
        | ok r ↦ ok (some r)
        | err e ↦ err e
      ];
  execute = λ d op who. ok true;
  mark_ready = λ id. ok tt;
  record_failure = λ d n who. ok tt;
}

process_person-allowed :
    (s : Services) (c : KeypadCommand) (f : Failures) (recent : List ℕ) (op : KeypadOperation)
    (p : ℕ) (who : RelationshipResult)
    → s.resolve_person p c.device.access_point_id (aware c.occurred_at) ≡ ok (some who)
    → who.decision ≡ allowed
    → process_person s c f recent op p ≡ carry_out s c f op who
unfolding process_person
process_person-allowed s c f recent op p who h e = rw (h, e, process_person) refl

person_allowed :
    (process_person services press ((8, []) ∷ []) [] unlock 1).commands ≡ (2, unlock) ∷ []
unfolding carry_out
person_allowed =
    ap (λ o. o.commands)
      (process_person-allowed services press ((8, []) ∷ []) [] unlock 1 relationship
        (ap (λ m. elim m [ ok r ↦ ok (some r) | err e ↦ err e ]) resolved) refl)

opened : (process services press []).commands ≡ (2, unlock) ∷ []
unfolding process operation_of get put process_operation current_failures drop_old resolve_person_id
    matches compare_digest all_chars only
opened = person_allowed

process-entitled_example :
    (o : Opened services press [] (2, unlock)) × Passage codec times zones
      (ok snapshot)
      (some lookup)
      fresh
      false
      o.person_id
      2
      (aware 32400000000)
      o.who
process-entitled_example =
    process-entitled codec times zones services (ok snapshot) (some lookup) fresh press []
      (2, unlock) [] (λ p d at. refl) opened

-- Five failures in the minute before.
abbrev locked : Failures
locked = (8, 32399999991 ∷ 32399999992 ∷ 32399999993 ∷ 32399999994 ∷ 32399999995 ∷ []) ∷ []

lockout-ignores_pin_example :
    ((process services press locked).commands ≡ [])
    × (process services (record press { pin = "9999" }) locked ≡ process services press locked)
unfolding current_failures drop_old get
lockout-ignores_pin_example = lockout-ignores_pin services press locked "9999" (omega arith)

-- The press with a wrong PIN.
abbrev wrong : KeypadCommand
wrong = record press { pin = "9999" }

one_guess : Requests 32400000000 8 [] (process services wrong []).failures 1
unfolding process operation_of get process_operation current_failures drop_old resolve_person_id
    matches compare_digest all_chars only refuse is_guess
one_guess = guessed services wrong none_yet refl (omega arith) (omega arith) refl

guesses_bounded_example : 1 ≤ 5
guesses_bounded_example =
    guesses_bounded 32400000000 8 [] (process services wrong []).failures 1 one_guess
