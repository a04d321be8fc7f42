-- ===== src/Keypad/Passage.antt =====
-- What a Door command that a keypad request gives rests on.
use homepass.Prelude.{
  ℕ, ◌<◌, ◌≡◌, ◌∷◌, ap, ◌∙◌, sym, refl, inl, inr, true, false, Bool-cases, Option, Option-cases,
  some, nat_eq, ◌⊎◌, List, length, leb, arith,
}
use homepass.Prelude.Result.{Result, ok, err, Result-cases}
use homepass.Prelude.Dict.{put}
use homepass.Prelude.Instant.{aware, Datetime}
use homepass.Models.Json.{Codec}
use homepass.Schedule.Stored.{TimeCodec}
use homepass.Schedule.Evaluation.{Zones}
use homepass.Authorization.Decision.{allowed, is_allowed, AuthorizationDecision}
use homepass.Authorization.Storage.{StorageData}
use homepass.Authorization.Service.{RelationshipResult, Lookup, Fresh, resolve}
use homepass.Authorization.Service.Sound.{Passage, resolve-allowed}
use homepass.Keypad.{
  KeypadOperation, no_operation, lock, unlock, KeypadCommand, Services, Failures, current_failures,
  max_failures, resolve_person_id, operation_of, refuse, carry_out, process_person,
  process_operation, process,
}

-- What the processor has tested before it gives a command.
pub record Opened (services : Services) (c : KeypadCommand) (old : Failures)
    (given : ℕ × KeypadOperation) : Type 0 where
  pub device_enabled : c.device.enabled ≡ true
  pub this_door : given ≡ (c.device.access_point_id, operation_of c)
  pub not_locked_out : length (current_failures old c.device.id c.occurred_at) < max_failures
  pub person_id : ℕ
  pub one_match : resolve_person_id services c.pin ≡ ok (some person_id)
  pub who : RelationshipResult
  pub resolved :
      services.resolve_person person_id c.device.access_point_id (aware c.occurred_at)
      ≡ ok (some who)
  pub decided : who.decision ≡ allowed

operation-cases : (op : KeypadOperation) → (op ≡ no_operation) ⊎ (op ≡ unlock) ⊎ (op ≡ lock)
operation-cases no_operation = inl refl
operation-cases unlock = inr (inl refl)
operation-cases lock = inr (inr refl)

resolve-some :
    (m : Result RelationshipResult) (r : RelationshipResult)
    → (elim m [ ok a ↦ ok (some a) | err e ↦ err e ]) ≡ ok (some r)
    → m ≡ ok r
resolve-some (ok a) r h = cc
resolve-some (err e) r h = cc

module _ (services : Services) (c : KeypadCommand) (old : Failures) (given : ℕ × KeypadOperation)
    (rest : List (ℕ × KeypadOperation)) where
  is_allowed-allowed : (d : AuthorizationDecision) → is_allowed d ≡ true → d ≡ allowed
  is_allowed-allowed d h = ground arith

  carry_out-commands :
      (failures : Failures) (op : KeypadOperation) (who : RelationshipResult)
      → (carry_out services c failures op who).commands ≡ given ∷ rest
      → given ≡ (c.device.access_point_id, op)
  unfolding carry_out
  carry_out-commands failures op who h = ground arith

  process_person-commands :
      (failures : Failures) (recent : List ℕ) (op : KeypadOperation) (person_id : ℕ)
      → (process_person services c failures recent op person_id).commands ≡ given ∷ rest
      → (who : RelationshipResult) × (services.resolve_person person_id c.device.access_point_id
            (aware c.occurred_at)
          ≡ ok (some who))
        × (who.decision ≡ allowed)
        × (given ≡ (c.device.access_point_id, op))
  unfolding process_person refuse
  process_person-commands failures recent op person_id h =
      elim (Result-cases
        (services.resolve_person person_id c.device.access_point_id (aware c.occurred_at))) [
          | inr (e, r) ↦ ground (arith, r, h)
          | inl (o, r) ↦ elim (Option-cases o) [
            | inl missing ↦ ground (arith, r, missing, h)
            | inr (who, found) ↦ elim (Bool-cases (is_allowed who.decision)) [
              | inl yes' ↦ (
                who,
                r ∙ ap ok found,
                is_allowed-allowed who.decision yes',
                carry_out-commands failures op who (ground (arith, r, found, yes', h)),
              )
              | inr no' ↦ ground (arith, r, found, no', h)
            ]
          ]
        ]

  process_operation-commands :
      (op : KeypadOperation)
      → (process_operation services c old op).commands ≡ given ∷ rest
      → c.device.enabled ≡ true
      → operation_of c ≡ op
      → Opened services c old given
  unfolding process_operation refuse
  process_operation-commands op h on configured =
      let recent = current_failures old c.device.id c.occurred_at in
      elim (Bool-cases (leb max_failures (length recent))) [
        | inl full ↦ ground (arith, full, h)
        | inr room ↦ elim (Result-cases (resolve_person_id services c.pin)) [
          | inr (e, r) ↦ ground (arith, room, r, h)
          | inl (o, r) ↦ elim (Option-cases o) [
            | inl missing ↦ ground (arith, room, r, missing, h)
            | inr (person_id, found) ↦
                let (who, resolved, decided, door) =
                  process_person-commands (put old c.device.id recent) recent op person_id
                    (ground (arith, room, r, found, h)) in
                record {
                  device_enabled = on;
                  this_door = door ∙ ap (λ o. (c.device.access_point_id, o)) (sym configured);
                  not_locked_out = ground (arith, room);
                  person_id = person_id;
                  one_match = r ∙ ap ok found;
                  who = who;
                  resolved = resolved;
                  decided = decided;
                }
          ]
        ]
      ]

  -- If a request gives a command, then it is the one that the pressed button is configured for, to the
  -- device's own Door; the device is enabled and has fewer than five failures in the last five
  -- minutes; exactly one enabled credential has the PIN; and its Person is allowed at the Door then.
  pub process-opens : (process services c old).commands ≡ given ∷ rest → Opened services c old given
  unfolding process
  process-opens h = elim (Bool-cases c.device.enabled) [
    | inr off ↦ ground (arith, off, h)
    | inl on ↦ elim (operation-cases (operation_of c)) [
      | inl nothing ↦ ground (arith, on, nothing, h)
      | inr (inl opens) ↦ process_operation-commands unlock (ground (arith, on, opens, h)) on opens
      | inr (inr closes) ↦ process_operation-commands lock (ground (arith, on, closes, h)) on closes
    ]
  ]

module _ (codec : Codec) (times : TimeCodec) (zones : Zones) where
  -- If the keypad asks the authorization service, then a command that a request gives is to the Door of
  -- its own enabled device, as its button is configured, with fewer than five recent failures. In the
  -- snapshot, the Person whom the PIN resolves to has a grant for that Door; this Person, as it is
  -- decoded from the snapshot, the grant and the Door are enabled, the Door is managed, and the decoded
  -- schedule is active at the time of the request.
  pub process-entitled :
      (services : Services) (load : Result StorageData) (lookup : Option Lookup) (fresh : Fresh)
      (c : KeypadCommand) (old : Failures) (given : ℕ × KeypadOperation)
      (rest : List (ℕ × KeypadOperation))
      → ((p d : ℕ) (at : Datetime)
          → services.resolve_person p d at
            ≡ elim (resolve codec times zones load lookup fresh false p d at) [
              | ok r ↦ ok (some r)
              | err e ↦ err e
            ])
      → (process services c old).commands ≡ given ∷ rest
      → (o : Opened services c old given) × Passage codec times zones load lookup fresh false
          o.person_id c.device.access_point_id
          (aware c.occurred_at)
          o.who
  process-entitled services load lookup fresh c old given rest service h =
      let o = process-opens services c old given rest h in
      (
        o,
        resolve-allowed codec times zones load lookup fresh false o.person_id
            c.device.access_point_id (aware c.occurred_at) o.who
            (resolve-some
              (resolve codec times zones load lookup fresh false o.person_id
                c.device.access_point_id (aware c.occurred_at))
              o.who
              (sym (service o.person_id c.device.access_point_id (aware c.occurred_at))
                ∙ o.resolved))
            o.decided,
      )
