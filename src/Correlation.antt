-- ===== src/Correlation.antt =====
-- services/lock_event_correlation.py: `LockCommandCorrelationService`. Each call takes the reading of the
-- clock, as the instant that `_now` returns.
pub mod Pending
use homepass.Prelude.{
  ℕ, ◌+◌, Bool, true, false, not, ◌&&◌, ◌||◌, Option, none, some, [], ◌∷◌, String, ltb, leb, ◌==◌,
  nat_eq, string_eq, if◌then◌else◌,
}
use homepass.Prelude.Dict.{Dict, get, put, remove, keep}
use homepass.Prelude.Text.{strip, is_empty, count_chars, all_chars}
use homepass.Prelude.Instant.{Datetime, normalize_datetime}
use homepass.Prelude.Result.{
  Result, ok, err, value_error, lock_command_correlation_error, raise_if, ◌>>=◌, ◌>>◌,
}

-- `LockStableState`
pub data LockStableState : Type 0 where
  locked unlocked unlatched : LockStableState

-- `LockEventOrigin` of models/activity.py
pub data LockEventOrigin : Type 0 where
  homepass_manual homepass_automatic homepass_keypad nfc_passkey : LockEventOrigin
  physical_at_door unknown_origin : LockEventOrigin

-- origin in _HOMEPASS_COMMAND_ORIGINS
unfoldable pub is_command_origin : LockEventOrigin → Bool
is_command_origin physical_at_door = false
is_command_origin unknown_origin = false
is_command_origin _ = true

abbrev pub state_beq : LockStableState → LockStableState → Bool
state_beq locked locked = true
state_beq unlocked unlocked = true
state_beq unlatched unlatched = true
state_beq _ _ = false

abbrev pub origin_beq : LockEventOrigin → LockEventOrigin → Bool
origin_beq homepass_manual homepass_manual = true
origin_beq homepass_automatic homepass_automatic = true
origin_beq homepass_keypad homepass_keypad = true
origin_beq nfc_passkey nfc_passkey = true
origin_beq physical_at_door physical_at_door = true
origin_beq unknown_origin unknown_origin = true
origin_beq _ _ = false

abbrev pub same_id : Option ℕ → Option ℕ → Bool
same_id none none = true
same_id (some a) (some b) = a == b
same_id _ _ = false

abbrev pub same_name : Option String → Option String → Bool
same_name none none = true
same_name (some a) (some b) = a == b
same_name _ _ = false

pub record PendingLockCommand : Type 0 where
  pub access_point_id : ℕ
  pub requested_state : LockStableState
  pub origin : LockEventOrigin
  pub command_id : ℕ
  pub initiated_at : ℕ
  pub expires_at : ℕ
  pub person_id : Option ℕ
  pub person_name : Option String

-- The name as display text, and its identity, which come together.
unfoldable pub checked_name : Option ℕ → Option String → Result (Option String)
checked_name none none = ok none
checked_name (some id) (some name) = do
  raise_if
      (is_empty (strip name)
        || ltb 100 (count_chars (strip name))
        || not (all_chars (λ c. leb 32 c) (strip name)))
      value_error
  ok (some (strip name))
checked_name _ _ = err value_error

-- `__post_init__`, on times that are instants already.
unfoldable pub pending_post_init : PendingLockCommand → Result PendingLockCommand
pending_post_init p = do
  raise_if (not (is_command_origin p.origin)) value_error
  person_name ← checked_name p.person_id p.person_name
  raise_if (leb p.expires_at p.initiated_at) value_error
  ok (record p { person_name = person_name })

pub record Correlation : Type 0 where
  pub expiry : ℕ
  pub pending : Dict ℕ PendingLockCommand

-- `_expire_before`
unfoldable pub expire_before : Correlation → ℕ → Correlation
expire_before s now = record s { pending = keep (λ p. not (leb p.expires_at now)) s.pending }

-- The first pending command with the identifier.
unfoldable pub find_command : Dict ℕ PendingLockCommand → ℕ → Option PendingLockCommand
find_command [] id = none
find_command ((k, p) ∷ rest) id =
    let later = find_command rest id in if p.command_id == id then some p else later

-- The pop of the first pending command with the identifier.
unfoldable pub remove_command : Dict ℕ PendingLockCommand → ℕ → Dict ℕ PendingLockCommand
remove_command [] id = []
remove_command ((k, p) ∷ rest) id =
    let later = remove_command rest id in if p.command_id == id then rest else (k, p) ∷ later

unfoldable pub cancel : Correlation → ℕ → Correlation
cancel s command_id = record s { pending = remove_command s.pending command_id }

unfoldable pub clear : Correlation → Correlation
clear s = record s { pending = [] }

-- The arguments of `register`.
pub record Registration : Type 0 where
  pub access_point_id : ℕ
  pub requested_state : LockStableState
  pub origin : LockEventOrigin
  pub command_id : ℕ
  pub person_id : Option ℕ
  pub person_name : Option String

unfoldable pub is_same_request : PendingLockCommand → Registration → Bool
is_same_request p a =
    (p.access_point_id == a.access_point_id)
    && state_beq p.requested_state a.requested_state
    && origin_beq p.origin a.origin
    && same_id p.person_id a.person_id
    && same_name p.person_name a.person_name

-- What follows the construction of the candidate.
unfoldable pub register_candidate :
    Correlation → Registration → PendingLockCommand → Correlation × Result PendingLockCommand
register_candidate s a candidate = elim (find_command s.pending a.command_id) [
  | some p ↦ if is_same_request p a then (s, ok p) else (s, err lock_command_correlation_error)
  | none ↦ elim (get s.pending a.access_point_id) [
    | some p ↦ (s, err lock_command_correlation_error)
    | none ↦ (record s { pending = put s.pending a.access_point_id candidate }, ok candidate)
  ]
]

unfoldable pub register : Correlation → ℕ → Registration → Correlation × Result PendingLockCommand
register s now a =
    elim (pending_post_init (record {
      access_point_id = a.access_point_id;
      requested_state = a.requested_state;
      origin = a.origin;
      command_id = a.command_id;
      initiated_at = now;
      expires_at = now + s.expiry;
      person_id = a.person_id;
      person_name = a.person_name;
    })) [
      | err e ↦ (expire_before s now, err e)
      | ok candidate ↦ register_candidate (expire_before s now) a candidate
    ]

-- `consume` at a confirmation time that is an instant already
unfoldable pub consume_confirmed :
    Correlation → ℕ → ℕ → LockStableState → ℕ → Correlation × Option PendingLockCommand
consume_confirmed s now access_point_id confirmed_state confirmed_at =
    let s' = expire_before s now in
    let popped = record s' { pending = remove s'.pending access_point_id } in
    elim (get s'.pending access_point_id) [
      | none ↦ (s', none)
      | some p ↦
          if not (state_beq p.requested_state confirmed_state)
          then (s', none)
          else if leb p.expires_at confirmed_at
          then (popped, none)
          else if ltb confirmed_at p.initiated_at
          then (s', none)
          else (popped, some p)
    ]

-- `consume`
unfoldable pub confirm :
    Correlation
    → ℕ
    → ℕ
    → LockStableState
    → Datetime
    → Correlation × Result (Option PendingLockCommand)
confirm s now access_point_id confirmed_state confirmed_at =
    elim (normalize_datetime confirmed_at) [
      | err e ↦ (s, err e)
      | ok at ↦ let (t, r) = consume_confirmed s now access_point_id confirmed_state at in (t, ok r)
    ]
